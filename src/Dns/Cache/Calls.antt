-- ===== src/Dns/Cache/Calls.antt =====
-- dns/generation.ts: any calls of the four operations on the caches.
use sepigs.Base.{
  ℕ, ◌≤◌, ◌≡◌, refl, ◌∙◌, inl, inr, Option, none, some, List, [], ◌∷◌, arith, leb, nat_eq,
  string_eq, Option-cases, if_either,
}
use sepigs.Base.Table.{
  Table, get, delete, length-put, length-delete, get-delete_same, length-delete-le,
}
use sepigs.Base.Text.{Text, text_key}
use sepigs.Dns.Cache.{
  CacheEntry, DnsCache, new_cache, touch_entry, size, trim_cache, get_positive, get_negative,
  with_positive, with_negative, set_positive, set_negative,
}
use sepigs.Dns.Cache.Bounds.{
  IsCache, new_cache-IsCache, delete_positive-IsCache, delete_negative-IsCache,
  put_positive-IsCache, put_negative-IsCache, trim_cache-IsCache,
}

pub data Call : Type 0 where
  getting_positive getting_negative : ℕ → Text → Call
  setting_positive setting_negative : CacheEntry → Call

-- The caches are well-formed and within their limit.
pub record IsBounded (most : ℕ) (c : DnsCache) : Type 0 where
  pub cache : IsCache c
  pub bound : size c ≤ most
  pub limit : c.max_entries ≡ most

touch_positive :
    (most now : ℕ) (key : Text) (c : DnsCache)
    → IsBounded most c
    → IsBounded most (record c {
      positive_cache = (touch_entry now key (get key c.positive_cache) c.positive_cache).1;
    })
touch_positive most now key c w = elim (Option-cases (get key c.positive_cache)) [
  | inl e ↦ rw e w
  | inr (q, e) ↦ rw e (touched q e)
]
  where
    touched :
        (q : CacheEntry)
        → get key c.positive_cache ≡ some q
        → IsBounded most
            (record c { positive_cache = (touch_entry now key (some q) c.positive_cache).1 })
    touched q e =
        let gone = record c { positive_cache = delete key c.positive_cache } in
        let v = delete_positive-IsCache key c w.cache in
        let fresh = record q { touched_at = now } in
        if_either
          (λ (p : Option CacheEntry × Table Text CacheEntry).
            IsBounded most (record c { positive_cache = p.1 }))
          (leb q.expires_at now)
          (λ _. record {
            cache = v;
            bound = omega (arith, length-delete-le key c.positive_cache, w.bound);
            limit = w.limit;
          })
          (λ _. record {
            cache =
                put_positive-IsCache key fresh gone v (w.cache.positive_host key q e)
                  (w.cache.apart key q e);
            bound = ground (
              arith,
              w.bound,
              length-put key fresh (delete key c.positive_cache),
              length-delete key c.positive_cache w.cache.positive_keyed,
              get-delete_same key c.positive_cache,
              e,
            );
            limit = w.limit;
          })

touch_negative :
    (most now : ℕ) (key : Text) (c : DnsCache)
    → IsBounded most c
    → IsBounded most (record c {
      negative_cache = (touch_entry now key (get key c.negative_cache) c.negative_cache).1;
    })
touch_negative most now key c w = elim (Option-cases (get key c.negative_cache)) [
  | inl e ↦ rw e w
  | inr (q, e) ↦ rw e (touched q e)
]
  where
    none_positive :
        (q : CacheEntry) → get key c.negative_cache ≡ some q → get key c.positive_cache ≡ none
    none_positive q e = elim (Option-cases (get key c.positive_cache)) [
      | inl f ↦ f
      | inr (r, f) ↦ absurd (cc (e, w.cache.apart key r f))
    ]

    touched :
        (q : CacheEntry)
        → get key c.negative_cache ≡ some q
        → IsBounded most
            (record c { negative_cache = (touch_entry now key (some q) c.negative_cache).1 })
    touched q e =
        let gone = record c { negative_cache = delete key c.negative_cache } in
        let v = delete_negative-IsCache key c w.cache in
        let fresh = record q { touched_at = now } in
        if_either
          (λ (p : Option CacheEntry × Table Text CacheEntry).
            IsBounded most (record c { negative_cache = p.1 }))
          (leb q.expires_at now)
          (λ _. record {
            cache = v;
            bound = omega (arith, length-delete-le key c.negative_cache, w.bound);
            limit = w.limit;
          })
          (λ _. record {
            cache =
                put_negative-IsCache key fresh gone v (w.cache.negative_host key q e)
                  (none_positive q e);
            bound = ground (
              arith,
              w.bound,
              length-put key fresh (delete key c.negative_cache),
              length-delete key c.negative_cache w.cache.negative_keyed,
              get-delete_same key c.negative_cache,
              e,
            );
            limit = w.limit;
          })

module _ (lower : Text → Text) where
  with_positive-IsCache :
      (e : CacheEntry) (c : DnsCache) → IsCache c → IsCache (with_positive lower e c)
  with_positive-IsCache e c w =
      let key = lower e.host in
      let one = delete_negative-IsCache key c w in
      let c₁ = record c { negative_cache = delete key c.negative_cache } in
      let two = delete_positive-IsCache key c₁ one in
      put_positive-IsCache key (record e { host = key })
        (record c₁ { positive_cache = delete key c.positive_cache }) two refl
        (get-delete_same key c.negative_cache)

  with_negative-IsCache :
      (e : CacheEntry) (c : DnsCache) → IsCache c → IsCache (with_negative lower e c)
  with_negative-IsCache e c w =
      let key = lower e.host in
      let one = delete_positive-IsCache key c w in
      let c₁ = record c { positive_cache = delete key c.positive_cache } in
      let two = delete_negative-IsCache key c₁ one in
      put_negative-IsCache key (record e { host = key })
        (record c₁ { negative_cache = delete key c.negative_cache }) two refl
        (get-delete_same key c.positive_cache)

  trimmed-IsBounded :
      (most : ℕ) (c : DnsCache)
      → IsCache c
      → c.max_entries ≡ most
      → IsBounded most (trim_cache (size c) c)
  trimmed-IsBounded most c w l =
      let (a, b, d) = trim_cache-IsCache (size c) c w (omega arith) in
      record { cache = a; bound = omega (arith, b, l); limit = d ∙ l }

  unfoldable pub step : Call → DnsCache → DnsCache
  step (getting_positive now host) c = (get_positive lower now host c).1
  step (getting_negative now host) c = (get_negative lower now host c).1
  step (setting_positive e) c = set_positive lower e c
  step (setting_negative e) c = set_negative lower e c

  unfoldable pub run : List Call → DnsCache → DnsCache
  run [] c = c
  run (k ∷ ks) c = run ks (step k c)

  step-IsBounded :
      (most : ℕ) (k : Call) (c : DnsCache) → IsBounded most c → IsBounded most (step k c)
  unfolding step get_positive get_negative set_positive set_negative
  step-IsBounded most (getting_positive now host) c w = touch_positive most now (lower host) c w
  step-IsBounded most (getting_negative now host) c w = touch_negative most now (lower host) c w
  step-IsBounded most (setting_positive e) c w =
      trimmed-IsBounded most (with_positive lower e c) (with_positive-IsCache e c w.cache) w.limit
  step-IsBounded most (setting_negative e) c w =
      trimmed-IsBounded most (with_negative lower e c) (with_negative-IsCache e c w.cache) w.limit

  run-IsBounded :
      (most : ℕ) (ks : List Call) (c : DnsCache) → IsBounded most c → IsBounded most (run ks c)
  unfolding run
  run-IsBounded most [] c w = w
  run-IsBounded most (k ∷ ks) c w = run-IsBounded most ks (step k c) (step-IsBounded most k c w)

  -- After any lookups and insertions on the empty caches of a generation, the two hold together no more
  -- entries than the limit, every entry stands under its own host, and no host stands in both.
  pub run-new_cache : (most : ℕ) (ks : List Call) → IsBounded most (run ks (new_cache most))
  run-new_cache most ks =
      run-IsBounded most ks (new_cache most)
        (record { cache = new_cache-IsCache most; bound = omega arith; limit = refl })
