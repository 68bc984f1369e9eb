-- ===== src/Dns/Cache/Kept.antt =====
-- dns/generation.ts: what lookups and trimming leave of the entries.
use sepigs.Base.{
  ℕ, zero, suc, ◌≡◌, refl, sym, ap, ◌∙◌, subst, inl, inr, Option, none, some, leb, ltb, nat_eq,
  string_eq, Option-cases, if_either,
}
use sepigs.Base.Table.{
  Table, get, put, delete, get-put_same, get-put_other, delete_found, key-cases,
}
use sepigs.Base.Text.{Text, text_key}
use sepigs.Dns.Cache.{CacheEntry, DnsCache, touch_entry, first_entry, trim_once, size, trim_cache}

-- Every entry of the second table is one of the first, but for the time of touching.
abbrev pub Kept : Table Text CacheEntry → Table Text CacheEntry → Type 0
Kept t u =
    (k : Text) (e : CacheEntry)
    → get k u ≡ some e
    → (q : CacheEntry) × (get k t ≡ some q) × (e ≡ record q { touched_at = e.touched_at })

pub all-Kept : (t : Table Text CacheEntry) → Kept t t
all-Kept t k e h = (e, h, refl)

delete-Kept : (key : Text) (t : Table Text CacheEntry) → Kept t (delete key t)
delete-Kept key t k e h = (e, (delete_found key k e t h).1, refl)

two-Kept : (t u v : Table Text CacheEntry) → Kept t u → Kept u v → Kept t v
two-Kept t u v a b k e h =
    let (q, f, same) = b k e h in
    let (p, g, again) = a k q f in
    (p, g, same ∙ ap (λ (x : CacheEntry). record x { touched_at = e.touched_at }) again)

touched-Kept :
    (now : ℕ) (key : Text) (q : CacheEntry) (t : Table Text CacheEntry)
    → get key t ≡ some q
    → Kept t (put key (record q { touched_at = now }) (delete key t))
touched-Kept now key q t found k e h = elim (key-cases key k) [
  | inl s ↦
      let same : e ≡ record q { touched_at = now } =
        cc (h, s, get-put_same key (record q { touched_at = now }) (delete key t)) in
      (
        q,
        cc (found, s),
        same
            ∙ ap (λ i. record q { touched_at = i })
                (sym (ap (λ (x : CacheEntry). x.touched_at) same)),
      )
  | inr m ↦
      delete-Kept key t k e
        (sym (get-put_other key k (record q { touched_at = now }) (delete key t) m) ∙ h)
]

pub touch_entry-Kept :
    (now : ℕ) (key : Text) (found : Option CacheEntry) (t : Table Text CacheEntry)
    → get key t ≡ found
    → Kept t (touch_entry now key found t).1
touch_entry-Kept now key none t h = all-Kept t
touch_entry-Kept now key (some q) t h =
    if_either (λ (r : Option CacheEntry × Table Text CacheEntry). Kept t r.1) (leb q.expires_at now)
      (λ _. delete-Kept key t) (λ _. touched-Kept now key q t h)

-- Both caches.
abbrev pub KeptBoth : DnsCache → DnsCache → Type 0
KeptBoth c d = Kept c.positive_cache d.positive_cache × Kept c.negative_cache d.negative_cache

some_same : (c d : DnsCache) → some c ≡ some d → c ≡ d
some_same c d h = cc h

trim_once-Kept :
    (p n : Option CacheEntry) (c d : DnsCache) → trim_once p n c ≡ some d → KeptBoth c d
trim_once-Kept none none c d h = absurd (cc h)
trim_once-Kept (some p) none c d h =
    subst (KeptBoth c) (some_same _ d h)
      (delete-Kept p.host c.positive_cache, all-Kept c.negative_cache)
trim_once-Kept none (some n) c d h =
    subst (KeptBoth c) (some_same _ d h)
      (all-Kept c.positive_cache, delete-Kept n.host c.negative_cache)
trim_once-Kept (some p) (some n) c d h = subst (KeptBoth c) (some_same _ d h) (
    if_either (KeptBoth c) (leb p.touched_at n.touched_at)
      (λ _. (delete-Kept p.host c.positive_cache, all-Kept c.negative_cache))
      (λ _. (all-Kept c.positive_cache, delete-Kept n.host c.negative_cache)))

pub trim_cache-Kept : (rounds : ℕ) (c : DnsCache) → KeptBoth c (trim_cache rounds c)
unfolding trim_cache
trim_cache-Kept zero c = (all-Kept c.positive_cache, all-Kept c.negative_cache)
trim_cache-Kept (suc rounds) c =
    let once = trim_once (first_entry c.positive_cache) (first_entry c.negative_cache) c in
    if_either (KeptBoth c) (ltb c.max_entries (size c))
      (λ _. elim (Option-cases once) [
        | inl f ↦ rw f (all-Kept c.positive_cache, all-Kept c.negative_cache)
        | inr (d, f) ↦
            let (p, n) = trim_once-Kept _ _ c d f in
            let (q, m) = trim_cache-Kept rounds d in
            rw f (
              two-Kept c.positive_cache d.positive_cache _ p q,
              two-Kept c.negative_cache d.negative_cache _ n m,
            )
      ])
      (λ _. (all-Kept c.positive_cache, all-Kept c.negative_cache))
