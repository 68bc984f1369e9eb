-- ===== src/Dns/Carryover.antt =====
-- dns/cacheCarryover.ts: which entries a new generation takes over from the old one. The hash of the
-- resolver and the equality of fake-IP settings are parameters, as what they compare is.
pub mod Plans
mod Tests
use sepigs.Base.{
  ℕ, ◌+◌, ◌-◌, min, Bool, true, false, not, ◌&&◌, ◌||◌, List, [], ◌∷◌, map, ltb, ◌==◌,
  if◌then◌else◌, nat_eq, string_eq, length, take, drop, filter,
}
use sepigs.Base.Table.{Table}
use sepigs.Base.Text.{Text, text_key}
use sepigs.Base.Result.{Result, ok, err}
use sepigs.Dns.Cache.{CacheEntry, DnsCache, set_positive, set_negative}

-- The part of a configuration that the plan reads; `resolver` stands for the compared hash.
pub record DnsConfig : Type 0 where
  pub resolver : ℕ
  pub fake_ip : ℕ
  pub fake_ip_enabled : Bool
  pub cache_ttl_ms : ℕ
  pub negative_ttl_ms : ℕ
  pub cache_max_entries : ℕ

pub data Reason : Type 0 where
  compatible_resolver resolver_identity_changed fake_ip_on : Reason

pub data PlanError : Type 0 where
  fake_ip_changed : PlanError

pub record CarryoverPlan : Type 0 where
  pub allowed : Bool
  pub reason : Reason
  pub positive_entries : List CacheEntry
  pub negative_entries : List CacheEntry
  pub carried : ℕ
  pub dropped : ℕ

abbrev pub may_carry : ℕ → CacheEntry → Bool
may_carry now e = ltb now e.expires_at && not e.sensitive && not e.synthetic

abbrev pub shortened : ℕ → ℕ → CacheEntry → CacheEntry
shortened now ttl e = record e { expires_at = min e.expires_at (now + ttl); touched_at = now }

abbrev pub values : Table Text CacheEntry → List CacheEntry
values t = map (λ p. p.1) t

unfoldable pub plan_entries : ℕ → Bool → DnsCache → DnsConfig → CarryoverPlan
plan_entries now carry_negative c candidate =
    let limit = candidate.cache_max_entries in
    let eligible =
      map (shortened now candidate.cache_ttl_ms)
        (filter (may_carry now) (values c.positive_cache)) in
    let positive = drop (length eligible - limit) eligible in
    let negative =
      if carry_negative
      then take (limit - length positive) (
          map (shortened now candidate.negative_ttl_ms)
            (filter (may_carry now) (values c.negative_cache)))
      else [] in
    let carried = length positive + length negative in
    record {
      allowed = true;
      reason = compatible_resolver;
      positive_entries = positive;
      negative_entries = negative;
      carried = carried;
      dropped = length (values c.positive_cache) + length (values c.negative_cache) - carried;
    }

abbrev pub refused : Reason → DnsCache → CarryoverPlan
refused reason c = record {
  allowed = false;
  reason = reason;
  positive_entries = [];
  negative_entries = [];
  carried = 0;
  dropped = length (values c.positive_cache) + length (values c.negative_cache);
}

unfoldable pub plan_carryover :
    ℕ → Bool → DnsCache → DnsConfig → DnsConfig → Result PlanError CarryoverPlan
plan_carryover now carry_negative c current candidate =
    if not (current.fake_ip == candidate.fake_ip)
    then err fake_ip_changed
    else if not (current.resolver == candidate.resolver)
    then ok (refused resolver_identity_changed c)
    else if current.fake_ip_enabled || candidate.fake_ip_enabled
    then ok (refused fake_ip_on c)
    else ok (plan_entries now carry_negative c candidate)

abbrev pub set_all : (CacheEntry → DnsCache → DnsCache) → List CacheEntry → DnsCache → DnsCache
set_all f [] c = c
set_all f (e ∷ es) c = set_all f es (f e c)

unfoldable pub apply_carryover : (Text → Text) → CarryoverPlan → DnsCache → DnsCache
apply_carryover lower plan c =
    set_all (set_negative lower) plan.negative_entries
      (set_all (set_positive lower) plan.positive_entries c)
