-- ===== src/Router/Policy.antt =====
-- router/policy.ts: health of the outbounds and the candidates of a policy.
pub mod Healthy
pub mod Order
pub mod Selecting
pub mod Snapshots
mod Tests
use sepigs.Base.{
  ℕ, ◌+◌, ◌%◌, Bool, true, false, not, ◌||◌, Option, none, some, List, [], ◌∷◌, ◌++◌, ltb, leb,
  if◌then◌else◌, nat_eq, string_eq, length, get_elem?, filter,
}
use sepigs.Base.Table.{Table, get, put}
use sepigs.Base.Text.{Text, codes, text_eq, text_key}
use sepigs.Config.Routes.{
  RoutingPolicyConfig, LoadBalanceStrategy, round_robin, least_latency, random,
}
use sepigs.Router.Matcher.{includes}

-- A latency is a number of the language, of a type `L` that the functions take with its operations.
pub record OutboundHealth (L : Type 0) : Type 0 where
  pub tag : Text
  pub failures : ℕ
  pub last_failure_at : Option ℕ
  pub latency_ewma_ms : Option L
  pub successes : ℕ

pub record RoutingPolicyManager (L : Type 0) : Type 0 where
  pub policies : Table Text RoutingPolicyConfig
  pub health : Table Text (OutboundHealth L)
  pub round_robin_index : Table Text ℕ

pub record RoutingPolicySelection : Type 0 where
  pub requested_tag : Text
  pub policy_tag : Option Text
  pub candidates : List Text

-- `now - at >= recoverAfterMs`, which is false when the clock was set back.
abbrev pub recovered : ℕ → RoutingPolicyConfig → Option ℕ → Bool
recovered now policy none = true
recovered now policy (some at) = leb (at + policy.recover_after_ms) now

abbrev pub or_head : Text → Option Text → Text
or_head head none = head
or_head head (some t) = t

abbrev pub counted : Option ℕ → ℕ
counted none = 0
counted (some n) = n

abbrev pub pool_of : List Text → List Text → List Text
pool_of [] outbounds = outbounds
pool_of (h ∷ hs) outbounds = h ∷ hs

abbrev pub policies_of :
    List RoutingPolicyConfig → Table Text RoutingPolicyConfig → Table Text RoutingPolicyConfig
policies_of [] table = table
policies_of (q ∷ qs) table = policies_of qs (put q.tag q table)

module _ {L : Type 0} where
  abbrev pub created : Text → OutboundHealth L
  created tag = record {
    tag = tag;
    failures = 0;
    last_failure_at = none;
    latency_ewma_ms = none;
    successes = 0;
  }

  abbrev pub health_or_created :
      Text
      → Option (OutboundHealth L)
      → RoutingPolicyManager L
      → OutboundHealth L × RoutingPolicyManager L
  health_or_created tag none m = (created tag, record m { health = put tag (created tag) m.health })
  health_or_created tag (some h) m = (h, m)

  -- `getHealth`
  unfoldable pub get_health :
      Text → RoutingPolicyManager L → OutboundHealth L × RoutingPolicyManager L
  get_health tag m = health_or_created tag (get tag m.health) m

  abbrev pub health_test : ℕ → RoutingPolicyConfig → OutboundHealth L → Bool
  health_test now policy h =
      ltb h.failures policy.unhealthy_after_failures || recovered now policy h.last_failure_at

  unfoldable pub is_healthy :
      ℕ → RoutingPolicyConfig → Text → RoutingPolicyManager L → Bool × RoutingPolicyManager L
  is_healthy now policy tag m =
      let (h, after) = get_health tag m in (health_test now policy h, after)

  -- `policy.outbounds.filter((outboundTag) => this.isHealthy(outboundTag, policy))`
  unfoldable pub filter_healthy :
      ℕ
      → RoutingPolicyConfig
      → List Text
      → RoutingPolicyManager L
      → List Text × RoutingPolicyManager L
  filter_healthy now policy [] m = ([], m)
  filter_healthy now policy (t ∷ ts) m =
      let (healthy, after) = is_healthy now policy t m in
      let (rest, last) = filter_healthy now policy ts after in
      (if healthy then t ∷ rest else rest, last)

  unfoldable pub select_failover :
      ℕ → RoutingPolicyConfig → RoutingPolicyManager L → List Text × RoutingPolicyManager L
  select_failover now policy m =
      let (healthy, after) = filter_healthy now policy policy.outbounds m in
      (healthy ++ filter (λ t. not (includes healthy t)) policy.outbounds, after)

  -- The first entry of the pool that no other is less than: the head of a stable sort.
  unfoldable pub least : (L → L → Bool) → (Text → Option L) → Text → List Text → Text
  least less score best [] = best
  least less score best (t ∷ ts) =
      let later = least less score t ts in
      let same = least less score best ts in if is_less (score t) (score best) then later else same
    where
      -- A latency that is not known is infinite.
      is_less : Option L → Option L → Bool
      is_less none _ = false
      is_less (some a) none = true
      is_less (some a) (some b) = less a b

  abbrev pub latency_of : Option (OutboundHealth L) → Option L
  latency_of none = none
  latency_of (some h) = h.latency_ewma_ms

  -- `pickLoadBalanceFirst` on a pool of `head` and `tail`; `drawn` is `Math.floor(Math.random() * n)`.
  -- Every outbound of the pool has a health by now, so its latency is only looked up.
  unfoldable pub pick_load_balance_first :
      (L → L → Bool)
      → ℕ
      → RoutingPolicyConfig
      → LoadBalanceStrategy
      → Text
      → List Text
      → RoutingPolicyManager L
      → Text × RoutingPolicyManager L
  pick_load_balance_first less drawn policy least_latency head tail m =
      (least less (λ t. latency_of (get t m.health)) head tail, m)
  pick_load_balance_first less drawn policy random head tail m =
      (or_head head (get_elem? (head ∷ tail) drawn), m)
  pick_load_balance_first less drawn policy round_robin head tail m =
      let current = counted (get policy.tag m.round_robin_index) in
      (
        or_head head (get_elem? (head ∷ tail) (current % length (head ∷ tail))),
        record m { round_robin_index = put policy.tag (current + 1) m.round_robin_index },
      )

  -- Behind the test for an empty pool.
  unfoldable pub balance :
      (L → L → Bool)
      → ℕ
      → RoutingPolicyConfig
      → List Text
      → RoutingPolicyManager L
      → List Text × RoutingPolicyManager L
  balance less drawn policy [] m = ([], m)
  balance less drawn policy (head ∷ tail) m =
      let (first, after) = pick_load_balance_first less drawn policy policy.strategy head tail m in
      (
        first
            ∷ (filter (λ t. not (text_eq t first)) (head ∷ tail)
                ++ filter (λ t. not (includes (head ∷ tail) t)) policy.outbounds),
        after,
      )

  unfoldable pub select_load_balance :
      (L → L → Bool)
      → ℕ
      → ℕ
      → RoutingPolicyConfig
      → RoutingPolicyManager L
      → List Text × RoutingPolicyManager L
  select_load_balance less drawn now policy m =
      let (healthy, after) = filter_healthy now policy policy.outbounds m in
      balance less drawn policy (pool_of healthy policy.outbounds) after

  abbrev pub select_policy :
      (L → L → Bool)
      → ℕ
      → ℕ
      → RoutingPolicyConfig
      → RoutingPolicyManager L
      → List Text × RoutingPolicyManager L
  select_policy less drawn now policy m =
      if text_eq policy.type (codes "failover")
      then select_failover now policy m
      else select_load_balance less drawn now policy m

  abbrev pub selection :
      (L → L → Bool)
      → ℕ
      → ℕ
      → Text
      → Option RoutingPolicyConfig
      → RoutingPolicyManager L
      → RoutingPolicySelection × RoutingPolicyManager L
  selection less drawn now tag none m =
      (record { requested_tag = tag; policy_tag = none; candidates = tag ∷ [] }, m)
  selection less drawn now tag (some policy) m =
      let (candidates, after) = select_policy less drawn now policy m in
      (record { requested_tag = tag; policy_tag = some policy.tag; candidates = candidates }, after)

  unfoldable pub select :
      (L → L → Bool)
      → ℕ
      → ℕ
      → Text
      → RoutingPolicyManager L
      → RoutingPolicySelection × RoutingPolicyManager L
  select less drawn now tag m = selection less drawn now tag (get tag m.policies) m

  abbrev pub averaged : (L → L → L) → L → Option L → L
  averaged blend latency none = latency
  averaged blend latency (some old) = blend old latency

  -- `recordSuccess`; `blend old new` is `old * 0.8 + new * 0.2`.
  unfoldable pub record_success :
      (L → L → L) → Text → L → RoutingPolicyManager L → RoutingPolicyManager L
  record_success blend tag latency m =
      let (h, after) = get_health tag m in
      record after {
        health =
            put tag
              (record h {
                failures = 0;
                last_failure_at = none;
                latency_ewma_ms = some (averaged blend latency h.latency_ewma_ms);
                successes = h.successes + 1;
              })
              after.health;
      }

  unfoldable pub record_failure : ℕ → Text → RoutingPolicyManager L → RoutingPolicyManager L
  record_failure now tag m =
      let (h, after) = get_health tag m in
      record after {
        health =
            put tag (record h { failures = h.failures + 1; last_failure_at = some now })
              after.health;
      }

  -- The loops of `reload` that create the health of each outbound.
  unfoldable pub touch_all : List Text → RoutingPolicyManager L → RoutingPolicyManager L
  touch_all [] m = m
  touch_all (t ∷ ts) m = touch_all ts (get_health t m).1

  unfoldable pub touch_policies :
      List RoutingPolicyConfig → RoutingPolicyManager L → RoutingPolicyManager L
  touch_policies [] m = m
  touch_policies (q ∷ qs) m = touch_policies qs (touch_all q.outbounds m)

  unfoldable pub reload : List RoutingPolicyConfig → RoutingPolicyManager L → RoutingPolicyManager L
  reload policies m = touch_policies policies (record m { policies = policies_of policies [] })
