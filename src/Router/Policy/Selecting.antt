-- ===== src/Router/Policy/Selecting.antt =====
-- The selection of router/policy.ts.
use sepigs.Base.{
  ℕ, zero, suc, ◌≡◌, refl, sym, ap, subst, Bool, true, not, Option, none, some, List, [], ◌∷◌, ◌++◌,
  arith, nat_eq, string_eq, if_either, get_elem?, filter,
}
use sepigs.Base.Table.{get}
use sepigs.Base.Text.{Text, codes, text_eq, text_eq_refl, text_key}
use sepigs.Config.Routes.{
  RoutingPolicyConfig, LoadBalanceStrategy, round_robin, least_latency, random,
}
use sepigs.Router.Matcher.{includes}
use sepigs.Config.References.Sound.{IsDistinct}
use sepigs.Router.Policy.{
  RoutingPolicyManager, filter_healthy, select_failover, least, or_head, pick_load_balance_first,
  pool_of, balance, select_load_balance, selection, select,
}
use sepigs.Router.Policy.Healthy.{healthy_at, filter_healthy_lem}
use sepigs.Router.Policy.Order.{
  IsOrdered, failover-IsOrdered, healthy-IsOrdered, unhealthy-IsOrdered, count, balanced,
}

get_elem?-includes :
    (xs : List Text) (i : ℕ) (t : Text) → get_elem? xs i ≡ some t → includes xs t ≡ true
get_elem?-includes [] i t h = absurd (cc h)
get_elem?-includes (x ∷ xs) zero t h = ground (arith, text_eq_refl x, text_key.beq_iff x t)
get_elem?-includes (x ∷ xs) (suc i) t h = ground (arith, get_elem?-includes xs i t h)

or_head-includes :
    (head : Text) (tail : List Text) (o : Option Text)
    → ((t : Text) → o ≡ some t → includes (head ∷ tail) t ≡ true)
    → includes (head ∷ tail) (or_head head o) ≡ true
or_head-includes head tail none h = ground (arith, text_eq_refl head)
or_head-includes head tail (some t) h = h t refl

drawn-includes :
    (head : Text) (tail : List Text) (i : ℕ)
    → includes (head ∷ tail) (or_head head (get_elem? (head ∷ tail) i)) ≡ true
drawn-includes head tail i =
    or_head-includes head tail (get_elem? (head ∷ tail) i) (get_elem?-includes (head ∷ tail) i)

module _ {L : Type 0} where
  least-includes :
      (less : L → L → Bool) (score : Text → Option L) (best : Text) (ts : List Text)
      → includes (best ∷ ts) (least less score best ts) ≡ true
  unfolding least
  least-includes less score best [] = ground (arith, text_eq_refl best)
  least-includes less score best (t ∷ ts) =
      ground (arith, least-includes less score t ts, least-includes less score best ts)

  pick-includes :
      (less : L → L → Bool) (drawn : ℕ) (policy : RoutingPolicyConfig)
      (strategy : LoadBalanceStrategy) (head : Text) (tail : List Text) (m : RoutingPolicyManager L)
      → includes (head ∷ tail) (pick_load_balance_first less drawn policy strategy head tail m).0
        ≡ true
  unfolding pick_load_balance_first
  pick-includes less drawn policy least_latency head tail m = least-includes less _ head tail
  pick-includes less drawn policy random head tail m = drawn-includes head tail drawn
  pick-includes less drawn policy round_robin head tail m = drawn-includes head tail _

  -- With no healthy outbound the pool is all of them.
  all-IsOrdered :
      (less : L → L → Bool) (drawn : ℕ) (policy : RoutingPolicyConfig) (h : Text → Bool)
      (pool : List Text) (m : RoutingPolicyManager L)
      → IsDistinct policy.outbounds
      → filter h policy.outbounds ≡ []
      → pool ≡ policy.outbounds
      → IsOrdered h policy.outbounds (balance less drawn policy pool m).0
  unfolding balance
  all-IsOrdered less drawn policy h [] m d e same = record {
    same = λ t. ap (count t) same;
    first = [];
    last = [];
    split = refl;
    first_healthy = tt;
    last_unhealthy = tt;
  }
  all-IsOrdered less drawn policy h (head ∷ tail) m d e same =
      let f = (pick_load_balance_first less drawn policy policy.strategy head tail m).0 in
      let inside : includes (head ∷ tail) f ≡ true =
        pick-includes less drawn policy policy.strategy head tail m in
      subst (λ pool. IsOrdered h policy.outbounds (balanced f pool policy.outbounds)) (sym same)
        (unhealthy-IsOrdered h policy.outbounds f d e
          (subst (λ pool. includes pool f ≡ true) same inside))

  -- The pool of load balancing: the healthy outbounds, or all of them if there is none.
  balance-IsOrdered :
      (less : L → L → Bool) (drawn : ℕ) (policy : RoutingPolicyConfig) (h : Text → Bool)
      (pool : List Text) (m : RoutingPolicyManager L)
      → IsDistinct policy.outbounds
      → filter h policy.outbounds ≡ pool
      → IsOrdered h policy.outbounds (balance less drawn policy (pool_of pool policy.outbounds) m).0
  unfolding balance
  balance-IsOrdered less drawn policy h (head ∷ tail) m d e =
      let f = (pick_load_balance_first less drawn policy policy.strategy head tail m).0 in
      let inside : includes (head ∷ tail) f ≡ true =
        pick-includes less drawn policy policy.strategy head tail m in
      subst (λ pool. IsOrdered h policy.outbounds (balanced f pool policy.outbounds)) e
        (healthy-IsOrdered h policy.outbounds f d
          (subst (λ pool. includes pool f ≡ true) (sym e) inside))
  balance-IsOrdered less drawn policy h [] m d e =
      all-IsOrdered less drawn policy h policy.outbounds m d e refl

  select_failover-IsOrdered :
      (now : ℕ) (policy : RoutingPolicyConfig) (m : RoutingPolicyManager L)
      → IsOrdered (healthy_at now policy m) policy.outbounds (select_failover now policy m).0
  unfolding select_failover
  select_failover-IsOrdered now policy m =
      subst
        (λ l.
          IsOrdered (healthy_at now policy m) policy.outbounds
            (l ++ filter (λ t. not (includes l t)) policy.outbounds))
        (sym (filter_healthy_lem now policy policy.outbounds m))
        (failover-IsOrdered (healthy_at now policy m) policy.outbounds)

  select_load_balance-IsOrdered :
      (less : L → L → Bool) (drawn now : ℕ) (policy : RoutingPolicyConfig)
      (m : RoutingPolicyManager L)
      → IsDistinct policy.outbounds
      → IsOrdered
          (healthy_at now policy m)
          policy.outbounds
          (select_load_balance less drawn now policy m).0
  unfolding select_load_balance
  select_load_balance-IsOrdered less drawn now policy m d =
      balance-IsOrdered less drawn policy (healthy_at now policy m)
        (filter_healthy now policy policy.outbounds m).0
        (filter_healthy now policy policy.outbounds m).1 d
        (sym (filter_healthy_lem now policy policy.outbounds m))

  -- For a policy whose outbounds are distinct, of either type and with any strategy, the candidates are
  -- the policy's outbounds in some order, each as often, and those that are healthy at the time stand
  -- before those that are not.
  pub select-IsOrdered :
      (less : L → L → Bool) (drawn now : ℕ) (tag : Text) (policy : RoutingPolicyConfig)
      (m : RoutingPolicyManager L)
      → get tag m.policies ≡ some policy
      → IsDistinct policy.outbounds
      → IsOrdered
          (healthy_at now policy m)
          policy.outbounds
          (select less drawn now tag m).0.candidates
  unfolding select
  select-IsOrdered less drawn now tag policy m g d =
      subst
        (λ o.
          IsOrdered (healthy_at now policy m) policy.outbounds
            (selection less drawn now tag o m).0.candidates)
        (sym g)
        (if_either
          (λ (r : List Text × RoutingPolicyManager L).
            IsOrdered (healthy_at now policy m) policy.outbounds r.0)
          (text_eq policy.type (codes "failover")) (λ _. select_failover-IsOrdered now policy m)
          (λ _. select_load_balance-IsOrdered less drawn now policy m d))
