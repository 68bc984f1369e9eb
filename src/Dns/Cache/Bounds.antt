-- ===== src/Dns/Cache/Bounds.antt =====
-- dns/generation.ts: well-formed caches, and the trimming of them.
use sepigs.Base.{
  ℕ, zero, suc, ◌+◌, ◌≤◌, ◌≡◌, refl, sym, ap, ◌∙◌, inl, inr, none, some, [], ◌∷◌, arith, ltb, leb,
  nat_eq, string_eq, if_either, length,
}
use sepigs.Base.Table.{
  Table, get, put, delete, IsKeyed, get-delete, put-IsKeyed, delete-IsKeyed, length-delete,
  get-put_same, get-put_other, delete_found, get_head, key-cases,
}
use sepigs.Base.Text.{Text, text_key}
use sepigs.Dns.Cache.{CacheEntry, DnsCache, new_cache, first_entry, trim_once, size, trim_cache}

pub record IsCache (c : DnsCache) : Type 0 where
  pub positive_keyed : IsKeyed c.positive_cache
  pub negative_keyed : IsKeyed c.negative_cache
  pub positive_host : (h : Text) (e : CacheEntry) → get h c.positive_cache ≡ some e → e.host ≡ h
  pub negative_host : (h : Text) (e : CacheEntry) → get h c.negative_cache ≡ some e → e.host ≡ h
  pub apart :
      (h : Text) (e : CacheEntry) → get h c.positive_cache ≡ some e → get h c.negative_cache ≡ none

pub new_cache-IsCache : (n : ℕ) → IsCache (new_cache n)
unfolding IsKeyed get
new_cache-IsCache n = record {
  positive_keyed = tt;
  negative_keyed = tt;
  positive_host = λ h e p. cc p;
  negative_host = λ h e p. cc p;
  apart = λ h e p. cc p;
}

-- Fewer entries of a well-formed cache.
pub delete_positive-IsCache :
    (k : Text) (c : DnsCache)
    → IsCache c
    → IsCache (record c { positive_cache = delete k c.positive_cache })
delete_positive-IsCache k c w = record {
  positive_keyed = delete-IsKeyed k c.positive_cache w.positive_keyed;
  negative_keyed = w.negative_keyed;
  positive_host = λ h e p. w.positive_host h e ((delete_found k h e c.positive_cache p).1);
  negative_host = w.negative_host;
  apart = λ h e p. w.apart h e ((delete_found k h e c.positive_cache p).1);
}

pub delete_negative-IsCache :
    (k : Text) (c : DnsCache)
    → IsCache c
    → IsCache (record c { negative_cache = delete k c.negative_cache })
delete_negative-IsCache k c w = record {
  positive_keyed = w.positive_keyed;
  negative_keyed = delete-IsKeyed k c.negative_cache w.negative_keyed;
  positive_host = w.positive_host;
  negative_host = λ h e p. w.negative_host h e ((delete_found k h e c.negative_cache p).1);
  apart = λ h e p. ground (arith, w.apart h e p, get-delete k h c.negative_cache);
}

pub put_positive-IsCache :
    (k : Text) (e : CacheEntry) (c : DnsCache)
    → IsCache c
    → e.host ≡ k
    → get k c.negative_cache ≡ none
    → IsCache (record c { positive_cache = put k e c.positive_cache })
put_positive-IsCache k e c w n a = record {
  positive_keyed = put-IsKeyed k e c.positive_cache w.positive_keyed;
  negative_keyed = w.negative_keyed;
  positive_host = λ h q p. elim (key-cases k h) [
    | inl s ↦ (let same : q ≡ e = cc (p, s, get-put_same k e c.positive_cache) in cc (same, n, s))
    | inr m ↦ w.positive_host h q (sym (get-put_other k h e c.positive_cache m) ∙ p)
  ];
  negative_host = w.negative_host;
  apart = λ h q p. elim (key-cases k h) [
    | inl s ↦ cc (a, s)
    | inr m ↦ w.apart h q (sym (get-put_other k h e c.positive_cache m) ∙ p)
  ];
}

pub put_negative-IsCache :
    (k : Text) (e : CacheEntry) (c : DnsCache)
    → IsCache c
    → e.host ≡ k
    → get k c.positive_cache ≡ none
    → IsCache (record c { negative_cache = put k e c.negative_cache })
put_negative-IsCache k e c w n a = record {
  positive_keyed = w.positive_keyed;
  negative_keyed = put-IsKeyed k e c.negative_cache w.negative_keyed;
  positive_host = w.positive_host;
  negative_host = λ h q p. elim (key-cases k h) [
    | inl s ↦ (let same : q ≡ e = cc (p, s, get-put_same k e c.negative_cache) in cc (same, n, s))
    | inr m ↦ w.negative_host h q (sym (get-put_other k h e c.negative_cache m) ∙ p)
  ];
  apart = λ h q p. elim (key-cases k h) [
    | inl s ↦ absurd (cc (a, s, p))
    | inr m ↦ get-put_other k h e c.negative_cache m ∙ w.apart h q p
  ];
}

-- A round keeps the caches well-formed and takes one entry from them.
trim_once-IsCache :
    (c : DnsCache)
    → IsCache c
    → 1 ≤ size c
    → (c' : DnsCache) × (trim_once (first_entry c.positive_cache) (first_entry c.negative_cache) c
        ≡ some c')
      × IsCache c'
      × (size c' + 1 ≡ size c)
      × (c'.max_entries ≡ c.max_entries)
trim_once-IsCache c w m = go c.positive_cache c.negative_cache refl refl
  where
    less_positive :
        (h : Text) (e : CacheEntry) (t : Table Text CacheEntry)
        → c.positive_cache ≡ (h, e) ∷ t
        → let c' = record c { positive_cache = delete e.host c.positive_cache } in
          IsCache c' × (size c' + 1 ≡ size c)
    less_positive h e t p =
        let here : get h c.positive_cache ≡ some e = ap (get h) p ∙ get_head h e t in
        let found : get e.host c.positive_cache ≡ some e = cc (here, w.positive_host h e here) in
        (
          delete_positive-IsCache e.host c w,
          ground (arith, length-delete e.host c.positive_cache w.positive_keyed, found),
        )

    less_negative :
        (h : Text) (e : CacheEntry) (t : Table Text CacheEntry)
        → c.negative_cache ≡ (h, e) ∷ t
        → let c' = record c { negative_cache = delete e.host c.negative_cache } in
          IsCache c' × (size c' + 1 ≡ size c)
    less_negative h e t p =
        let here : get h c.negative_cache ≡ some e = ap (get h) p ∙ get_head h e t in
        let found : get e.host c.negative_cache ≡ some e = cc (here, w.negative_host h e here) in
        (
          delete_negative-IsCache e.host c w,
          ground (arith, length-delete e.host c.negative_cache w.negative_keyed, found),
        )

    go :
        (ps ns : Table Text CacheEntry)
        → c.positive_cache ≡ ps
        → c.negative_cache ≡ ns
        → (c' : DnsCache) × (trim_once (first_entry ps) (first_entry ns) c ≡ some c')
          × IsCache c'
          × (size c' + 1 ≡ size c)
          × (c'.max_entries ≡ c.max_entries)
    go [] [] p n = absurd (omega (arith, ap length p, ap length n))
    go ((h, e) ∷ t) [] p n = (let (v, s) = less_positive h e t p in (_, refl, v, s, refl))
    go [] ((h, e) ∷ t) p n = (let (v, s) = less_negative h e t n in (_, refl, v, s, refl))
    go ((h, e) ∷ t) ((i, f) ∷ u) p n =
        (let (v, s) = less_positive h e t p in
          let (x, y) = less_negative i f u n in
          if_either
            (λ (d : DnsCache).
              (c' : DnsCache) × (some d ≡ some c')
              × IsCache c'
              × (size c' + 1 ≡ size c)
              × (c'.max_entries ≡ c.max_entries))
            (leb e.touched_at f.touched_at) (λ _. (_, refl, v, s, refl))
            (λ _. (_, refl, x, y, refl)))

pub trim_cache-IsCache :
    (rounds : ℕ) (c : DnsCache)
    → IsCache c
    → size c ≤ rounds
    → IsCache (trim_cache rounds c)
      × (size (trim_cache rounds c) ≤ c.max_entries)
      × ((trim_cache rounds c).max_entries ≡ c.max_entries)
unfolding trim_cache
trim_cache-IsCache zero c w m = (w, omega (arith, m), refl)
trim_cache-IsCache (suc rounds) c w m =
    if_either
      (λ (d : DnsCache). IsCache d × (size d ≤ c.max_entries) × (d.max_entries ≡ c.max_entries))
      (ltb c.max_entries (size c))
      (λ e.
        (let (c', f, w', s, l) = trim_once-IsCache c w (ground (arith, e)) in
          let (a, b, d) = trim_cache-IsCache rounds c' w' (omega (arith, s, m)) in
          rw f (a, omega (arith, b, l), d ∙ l)))
      (λ e. (w, ground (arith, e), refl))
