-- ===== src/Dns/Carryover/Plans.antt =====
-- dns/cacheCarryover.ts: the entries and counts of a plan.
use sepigs.Base.{
  ℕ, zero, suc, ◌+◌, ◌-◌, ◌≤◌, ◌<◌, ◌≡◌, refl, ◌≢◌, ◌⊎◌, inl, inr, Bool, true, false, ◌||◌, List,
  [], ◌∷◌, map, arith, ◌==◌, nat_eq, string_eq, Bool-cases, if_either, ltb, min, ◌&&◌, ◌↔◌,
  if◌then◌else◌, length, take, drop, filter, length-map, length-take, length-drop, length-filter-le,
}
use sepigs.Base.Table.{Table}
use sepigs.Base.Text.{Text, text_key}
use sepigs.Base.Result.{ok, err}
use sepigs.Dns.Cache.{CacheEntry, DnsCache}
use sepigs.Dns.Carryover.{
  DnsConfig, Reason, compatible_resolver, resolver_identity_changed, fake_ip_on, fake_ip_changed,
  CarryoverPlan, may_carry, shortened, values, plan_entries, refused, plan_carryover,
}

-- What becomes of an entry that is carried: it was valid, it holds nothing sensitive or synthetic, its
-- life is at most what was left of it and at most the new one, and nothing else of it changes.
pub record Carried (now ttl : ℕ) (old new : CacheEntry) : Type 0 where
  pub valid : now < old.expires_at
  pub plain : old.sensitive ≡ false
  pub real : old.synthetic ≡ false
  pub not_extended : new.expires_at ≤ old.expires_at
  pub within_ttl : new.expires_at ≤ now + ttl
  pub longest : (new.expires_at ≡ old.expires_at) ⊎ (new.expires_at ≡ now + ttl)
  pub same : new ≡ record old { expires_at = new.expires_at; touched_at = now }

-- The second list has some of the entries of the first, each once and in their order.
pub data Carries (now ttl : ℕ) : List CacheEntry → List CacheEntry → Type 0 where
  no_more : Carries now ttl [] []
  carries :
      {q e : CacheEntry} {qs es : List CacheEntry}
      → Carried now ttl q e
      → Carries now ttl qs es
      → Carries now ttl (q ∷ qs) (e ∷ es)
  drops :
      {q : CacheEntry} {qs es : List CacheEntry}
      → Carries now ttl qs es
      → Carries now ttl (q ∷ qs) es

shortened-Carried :
    (now ttl : ℕ) (e : CacheEntry)
    → may_carry now e ≡ true
    → Carried now ttl e (shortened now ttl e)
shortened-Carried now ttl e h = record {
  valid = ground (arith, h);
  plain = ground (arith, h);
  real = ground (arith, h);
  not_extended = omega arith;
  within_ttl = omega arith;
  longest = ground arith;
  same = refl;
}

eligible-Carries :
    (now ttl : ℕ) (es : List CacheEntry)
    → Carries now ttl es (map (shortened now ttl) (filter (may_carry now) es))
eligible-Carries now ttl [] = no_more
eligible-Carries now ttl (e ∷ es) = elim (Bool-cases (may_carry now e)) [
  | inl h ↦ rw h (carries (shortened-Carried now ttl e h) (eligible-Carries now ttl es))
  | inr h ↦ rw h (drops (eligible-Carries now ttl es))
]

none-Carries : (now ttl : ℕ) (qs : List CacheEntry) → Carries now ttl qs []
none-Carries now ttl [] = no_more
none-Carries now ttl (q ∷ qs) = drops (none-Carries now ttl qs)

take-Carries :
    (now ttl n : ℕ) {qs es : List CacheEntry}
    → Carries now ttl qs es
    → Carries now ttl qs (take n es)
take-Carries now ttl zero {qs} h = none-Carries now ttl qs
take-Carries now ttl (suc n) no_more = no_more
take-Carries now ttl (suc n) (carries p h) = carries p (take-Carries now ttl n h)
take-Carries now ttl (suc n) (drops h) = drops (take-Carries now ttl (suc n) h)

drop-Carries :
    (now ttl n : ℕ) {qs es : List CacheEntry}
    → Carries now ttl qs es
    → Carries now ttl qs (drop n es)
drop-Carries now ttl zero h = h
drop-Carries now ttl (suc n) no_more = no_more
drop-Carries now ttl (suc n) (carries p h) = drops (drop-Carries now ttl n h)
drop-Carries now ttl (suc n) (drops h) = drops (drop-Carries now ttl (suc n) h)

-- The number of the entries that may be carried.
pub fit : ℕ → List CacheEntry → ℕ
fit now [] = 0
fit now (e ∷ es) =
    let rest = fit now es in
    if ltb now e.expires_at
    then if e.sensitive then rest else if e.synthetic then rest else rest + 1
    else rest

length-eligible_fit :
    (now ttl : ℕ) (es : List CacheEntry)
    → length (map (shortened now ttl) (filter (may_carry now) es)) ≡ fit now es
unfolding fit
length-eligible_fit now ttl [] = refl
length-eligible_fit now ttl (e ∷ es) = ground (arith, length-eligible_fit now ttl es)

pub record IsPlan (now : ℕ) (carry_negative : Bool) (c : DnsCache) (candidate : DnsConfig)
    (plan : CarryoverPlan) : Type 0 where
  pub positive : Carries now candidate.cache_ttl_ms (values c.positive_cache) plan.positive_entries
  pub negative :
      Carries now candidate.negative_ttl_ms (values c.negative_cache) plan.negative_entries
  pub within : plan.carried ≤ candidate.cache_max_entries
  pub counted : plan.carried ≡ length plan.positive_entries + length plan.negative_entries
  pub total : plan.carried + plan.dropped ≡ length c.positive_cache + length c.negative_cache
  pub all_positive : length plan.positive_entries ≡ (
      if plan.allowed
      then min candidate.cache_max_entries (fit now (values c.positive_cache))
      else 0)
  pub all_negative : length plan.negative_entries ≡ (
      if plan.allowed && carry_negative
      then min
          (candidate.cache_max_entries - length plan.positive_entries)
          (fit now (values c.negative_cache))
      else 0)

refused-IsPlan :
    (now : ℕ) (carry_negative : Bool) (reason : Reason) (c : DnsCache) (candidate : DnsConfig)
    → IsPlan now carry_negative c candidate (refused reason c)
refused-IsPlan now carry_negative reason c candidate = record {
  positive = none-Carries now candidate.cache_ttl_ms (values c.positive_cache);
  negative = none-Carries now candidate.negative_ttl_ms (values c.negative_cache);
  within = omega arith;
  counted = refl;
  total = omega (
    arith,
    length-map (λ (p : Text × CacheEntry). p.1) c.positive_cache,
    length-map (λ (p : Text × CacheEntry). p.1) c.negative_cache,
  );
  all_positive = refl;
  all_negative = refl;
}

-- What is kept of a cache: no more than there was, and no more than may be.
length-eligible :
    (now ttl : ℕ) (t : Table Text CacheEntry)
    → length (map (shortened now ttl) (filter (may_carry now) (values t))) ≤ length t
length-eligible now ttl t = omega (
  arith,
  length-map (shortened now ttl) (filter (may_carry now) (values t)),
  length-filter-le (may_carry now) (values t),
  length-map (λ (p : Text × CacheEntry). p.1) t,
)

plan_entries-IsPlan :
    (now : ℕ) (carry_negative : Bool) (c : DnsCache) (candidate : DnsConfig)
    → IsPlan now carry_negative c candidate (plan_entries now carry_negative c candidate)
unfolding plan_entries
plan_entries-IsPlan now carry_negative c candidate =
    let limit = candidate.cache_max_entries in
    let positives =
      map (shortened now candidate.cache_ttl_ms)
        (filter (may_carry now) (values c.positive_cache)) in
    let negatives =
      map (shortened now candidate.negative_ttl_ms)
        (filter (may_carry now) (values c.negative_cache)) in
    let positive = drop (length positives - limit) positives in
    let kept = length-drop (length positives - limit) positives in
    let fresh =
      drop-Carries now candidate.cache_ttl_ms (length positives - limit)
        (eligible-Carries now candidate.cache_ttl_ms (values c.positive_cache)) in
    let fp = length-eligible_fit now candidate.cache_ttl_ms (values c.positive_cache) in
    let fn = length-eligible_fit now candidate.negative_ttl_ms (values c.negative_cache) in
    let p = length-eligible now candidate.cache_ttl_ms c.positive_cache in
    let n = length-eligible now candidate.negative_ttl_ms c.negative_cache in
    let vp = length-map (λ (p : Text × CacheEntry). p.1) c.positive_cache in
    let vn = length-map (λ (p : Text × CacheEntry). p.1) c.negative_cache in
    let some_negatives = take (limit - length positive) negatives in
    let count = length-take (limit - length positive) negatives in
    let plan : List CacheEntry → CarryoverPlan = λ chosen. record {
      allowed = true;
      reason = compatible_resolver;
      positive_entries = positive;
      negative_entries = chosen;
      carried = length positive + length chosen;
      dropped =
          length (values c.positive_cache)
          + length (values c.negative_cache)
          - (length positive + length chosen);
    } in
    if_either (λ (chosen : List CacheEntry). IsPlan now carry_negative c candidate (plan chosen))
      carry_negative
      (λ on. record {
        positive = fresh;
        negative =
            take-Carries now candidate.negative_ttl_ms (limit - length positive)
              (eligible-Carries now candidate.negative_ttl_ms (values c.negative_cache));
        within = omega (arith, kept, count);
        counted = refl;
        total = omega (arith, kept, count, p, n, vp, vn);
        all_positive = omega (arith, kept, fp);
        all_negative = rw on (omega (arith, count, fn));
      })
      (λ off. record {
        positive = fresh;
        negative = none-Carries now candidate.negative_ttl_ms (values c.negative_cache);
        within = omega (arith, kept);
        counted = refl;
        total = omega (arith, kept, p, n, vp, vn);
        all_positive = omega (arith, kept, fp);
        all_negative = rw off refl;
      })

-- A plan is refused with an error exactly when the fake-IP settings differ. Any other plan carries, each
-- once and in their order, only entries of the old caches that are still valid, not sensitive and not
-- synthetic, unchanged but for the time of touching and an expiry that is the old one or the end of the
-- new lifetime, whichever is sooner. It carries as many of these as the new limit allows (negative ones
-- if asked to, behind the positive ones), and counts every old entry as carried or dropped. It is
-- allowed exactly when the resolver is the same and fake IPs are off on both sides.
pub plan_carryover-IsPlan :
    (now : ℕ) (carry_negative : Bool) (c : DnsCache) (current candidate : DnsConfig)
    → ((current.fake_ip ≢ candidate.fake_ip)
        × (plan_carryover now carry_negative c current candidate ≡ err fake_ip_changed))
      ⊎ ((plan : CarryoverPlan) × (current.fake_ip ≡ candidate.fake_ip)
          × (plan_carryover now carry_negative c current candidate ≡ ok plan)
          × IsPlan now carry_negative c candidate plan
          × ((plan.allowed ≡ true) ↔ (
              (current.resolver ≡ candidate.resolver)
              × (current.fake_ip_enabled ≡ false)
              × (candidate.fake_ip_enabled ≡ false))))
unfolding plan_carryover plan_entries
plan_carryover-IsPlan now carry_negative c current candidate =
    elim (Bool-cases (current.fake_ip == candidate.fake_ip)) [
      | inr e ↦ inl (ground (arith, e), ground (arith, e))
      | inl e ↦ elim (Bool-cases (current.resolver == candidate.resolver)) [
        | inr f ↦ inr (
          refused resolver_identity_changed c,
          ground (arith, e),
          ground (arith, e, f),
          refused-IsPlan now carry_negative resolver_identity_changed c candidate,
          (λ h. absurd (cc h), λ h. absurd (ground (arith, e, f, h))),
        )
        | inl f ↦ elim (Bool-cases (current.fake_ip_enabled || candidate.fake_ip_enabled)) [
          | inl g ↦ inr (
            refused fake_ip_on c,
            ground (arith, e),
            ground (arith, e, f, g),
            refused-IsPlan now carry_negative fake_ip_on c candidate,
            (λ h. absurd (cc h), λ h. absurd (ground (arith, g, h))),
          )
          | inr g ↦ inr (
            plan_entries now carry_negative c candidate,
            ground (arith, e),
            ground (arith, e, f, g),
            plan_entries-IsPlan now carry_negative c candidate,
            (λ h. (ground (arith, f), ground (arith, g), ground (arith, g)), λ h. refl),
          )
        ]
      ]
    ]
