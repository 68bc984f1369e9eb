-- ===== src/Dns/Cache/History.antt =====
-- dns/generation.ts: what the lookups give, by the calls that were made before.
use sepigs.Base.{
  ℕ, ◌<◌, ◌≡◌, refl, sym, ap, ◌∙◌, subst, ◌≢◌, inl, inr, Option, none, some, List, [], ◌∷◌, arith,
  leb, nat_eq, string_eq, Bool-cases, if_either, if◌then◌else◌,
}
use sepigs.Base.Table.{Table, get, delete, get-put_same, get-put_other, delete_found, key-cases}
use sepigs.Base.Text.{Text, text_key, text_eq}
use sepigs.Dns.Cache.{
  CacheEntry, DnsCache, new_cache, touch_entry, size, get_positive, get_negative, with_positive,
  with_negative, set_positive, set_negative,
}
use sepigs.Dns.Cache.Kept.{KeptBoth, all-Kept, touch_entry-Kept, trim_cache-Kept}
use sepigs.Dns.Cache.Calls.{
  Call, getting_positive, getting_negative, setting_positive, setting_negative, step, run,
}

-- What was last stored for a host.
pub data Stored : Type 0 where
  stored_answer stored_failure : CacheEntry → Stored

if_here : {A : Type 0} (key k : Text) (x y : A) → key ≡ k → (if text_eq key k then x else y) ≡ x
if_here key k x y s = rw ((text_key.beq_iff key k).1 s) refl

if_other : {A : Type 0} (key k : Text) (x y : A) → key ≢ k → (if text_eq key k then x else y) ≡ y
if_other key k x y m = elim (Bool-cases (text_eq key k)) [
  | inl h ↦ absurd (m ((text_key.beq_iff key k).0 h))
  | inr h ↦ rw h refl
]

renamed :
    (key k : Text) (e q : CacheEntry)
    → key ≡ k
    → q ≡ record e { host = key }
    → q ≡ record e { host = k; touched_at = q.touched_at }
renamed key k e q s same =
    same
    ∙ ap (λ h. record e { host = h }) s
    ∙ ap (λ t. record e { host = k; touched_at = t })
        (sym (ap (λ (x : CacheEntry). x.touched_at) same))

-- What a lookup of a key may give, when `last` was stored last for the key: nothing, or just that.
abbrev pub Gives : (CacheEntry → Stored) → ℕ → Text → Option Stored → Option CacheEntry → Type 0
Gives kind now key last none = Unit
Gives kind now key last (some e) =
    (q : CacheEntry) × (last ≡ some (kind q))
    × (now < q.expires_at)
    × (e ≡ record q { host = key; touched_at = now })

found-Gives :
    (kind : CacheEntry → Stored) (now : ℕ) (key : Text) (last : Option Stored)
    (t : Table Text CacheEntry) (found : Option CacheEntry)
    → ((q : CacheEntry)
        → found ≡ some q
        → (p : CacheEntry) × (last ≡ some (kind p))
          × (q ≡ record p { host = key; touched_at = q.touched_at }))
    → Gives kind now key last (touch_entry now key found t).0
found-Gives kind now key last t none from = tt
found-Gives kind now key last t (some q) from =
    let (p, l, same) = from q refl in
    if_either (λ (r : Option CacheEntry × Table Text CacheEntry). Gives kind now key last r.0)
      (leb q.expires_at now) (λ _. tt)
      (λ late. (
        p,
        l,
        subst (λ n. now < n) (ap (λ (x : CacheEntry). x.expires_at) same) (ground (arith, late)),
        ap (λ (x : CacheEntry). record x { touched_at = now }) same,
      ))

module _ (lower : Text → Text) where
  -- What a call makes of what was last stored for a host, and what any calls make of it.
  abbrev after_call : Text → Call → Option Stored → Option Stored
  after_call key (setting_positive e) last =
      if text_eq (lower e.host) key then some (stored_answer e) else last
  after_call key (setting_negative e) last =
      if text_eq (lower e.host) key then some (stored_failure e) else last
  after_call key (getting_positive now host) last = last
  after_call key (getting_negative now host) last = last

  pub last_stored : Text → List Call → Option Stored → Option Stored
  last_stored key [] last = last
  last_stored key (k ∷ ks) last = last_stored key ks (after_call key k last)

  -- Every entry of a cache is what was last stored for its host.
  record IsLast (last : Text → Option Stored) (c : DnsCache) : Type 0 where
    answers :
        (k : Text) (e : CacheEntry)
        → get k c.positive_cache ≡ some e
        → (q : CacheEntry) × (last k ≡ some (stored_answer q))
          × (e ≡ record q { host = k; touched_at = e.touched_at })
    failures :
        (k : Text) (e : CacheEntry)
        → get k c.negative_cache ≡ some e
        → (q : CacheEntry) × (last k ≡ some (stored_failure q))
          × (e ≡ record q { host = k; touched_at = e.touched_at })

  kept-IsLast :
      (last : Text → Option Stored) (c d : DnsCache) → KeptBoth c d → IsLast last c → IsLast last d
  kept-IsLast last c d (a, b) w = record {
    answers = λ k e h.
        let (q, f, same) = a k e h in
        let (p, l, again) = w.answers k q f in
        (p, l, same ∙ ap (λ (x : CacheEntry). record x { touched_at = e.touched_at }) again);
    failures = λ k e h.
        let (q, f, same) = b k e h in
        let (p, l, again) = w.failures k q f in
        (p, l, same ∙ ap (λ (x : CacheEntry). record x { touched_at = e.touched_at }) again);
  }

  positive-IsLast :
      (last : Text → Option Stored) (e : CacheEntry) (c : DnsCache)
      → IsLast last c
      → IsLast (λ k. after_call k (setting_positive e) (last k)) (with_positive lower e c)
  positive-IsLast last e c w =
      let key = lower e.host in
      let new = record e { host = key } in
      record {
        answers = λ k q h. elim (key-cases key k) [
          | inl s ↦
              let same : q ≡ new = cc (h, s, get-put_same key new (delete key c.positive_cache)) in
              (e, if_here key k (some (stored_answer e)) (last k) s, renamed key k e q s same)
          | inr m ↦
              let (p, l, again) =
                w.answers k q
                  (delete_found key k q c.positive_cache
                    (sym (get-put_other key k new (delete key c.positive_cache) m) ∙ h)).1 in
              (p, if_other key k (some (stored_answer e)) (last k) m ∙ l, again)
        ];
        failures = λ k q h.
            let (m, f) = delete_found key k q c.negative_cache h in
            let (p, l, again) = w.failures k q f in
            (p, if_other key k (some (stored_answer e)) (last k) m ∙ l, again);
      }

  negative-IsLast :
      (last : Text → Option Stored) (e : CacheEntry) (c : DnsCache)
      → IsLast last c
      → IsLast (λ k. after_call k (setting_negative e) (last k)) (with_negative lower e c)
  negative-IsLast last e c w =
      let key = lower e.host in
      let new = record e { host = key } in
      record {
        answers = λ k q h.
            let (m, f) = delete_found key k q c.positive_cache h in
            let (p, l, again) = w.answers k q f in
            (p, if_other key k (some (stored_failure e)) (last k) m ∙ l, again);
        failures = λ k q h. elim (key-cases key k) [
          | inl s ↦
              let same : q ≡ new = cc (h, s, get-put_same key new (delete key c.negative_cache)) in
              (e, if_here key k (some (stored_failure e)) (last k) s, renamed key k e q s same)
          | inr m ↦
              let (p, l, again) =
                w.failures k q
                  (delete_found key k q c.negative_cache
                    (sym (get-put_other key k new (delete key c.negative_cache) m) ∙ h)).1 in
              (p, if_other key k (some (stored_failure e)) (last k) m ∙ l, again)
        ];
      }

  step-IsLast :
      (last : Text → Option Stored) (k : Call) (c : DnsCache)
      → IsLast last c
      → IsLast (λ key. after_call key k (last key)) (step lower k c)
  unfolding step get_positive get_negative set_positive set_negative
  step-IsLast last (getting_positive now host) c w =
      kept-IsLast last c _
        (
          touch_entry-Kept now (lower host) (get (lower host) c.positive_cache) c.positive_cache
              refl,
          all-Kept c.negative_cache,
        )
        w
  step-IsLast last (getting_negative now host) c w =
      kept-IsLast last c _
        (
          all-Kept c.positive_cache,
          touch_entry-Kept now (lower host) (get (lower host) c.negative_cache) c.negative_cache
              refl,
        )
        w
  step-IsLast last (setting_positive e) c w =
      let d = with_positive lower e c in
      kept-IsLast _ d _ (trim_cache-Kept (size d) d) (positive-IsLast last e c w)
  step-IsLast last (setting_negative e) c w =
      let d = with_negative lower e c in
      kept-IsLast _ d _ (trim_cache-Kept (size d) d) (negative-IsLast last e c w)

  run-IsLast :
      (ks : List Call) (last : Text → Option Stored) (c : DnsCache)
      → IsLast last c
      → IsLast (λ key. last_stored key ks (last key)) (run lower ks c)
  unfolding run last_stored
  run-IsLast [] last c w = w
  run-IsLast (k ∷ ks) last c w =
      run-IsLast ks (λ key. after_call key k (last key)) (step lower k c) (step-IsLast last k c w)

  new_cache-IsLast : (most : ℕ) → IsLast (λ key. none) (new_cache most)
  unfolding get
  new_cache-IsLast most = record {
    answers = λ k e h. absurd (cc h);
    failures = λ k e h. absurd (cc h);
  }

  -- After any lookups and insertions on the empty caches of a generation, what a lookup gives, in either
  -- cache, is what was last stored for that host by any insertion, which was one into this cache, not yet
  -- expired, with the key as its host and the time of the lookup written in.
  pub lookup-Gives :
      (most now : ℕ) (ks : List Call) (host : Text)
      → let c = run lower ks (new_cache most) in
        Gives stored_answer now
          (lower host)
          (last_stored (lower host) ks none)
          (get_positive lower now host c).0
        × Gives stored_failure now
            (lower host)
            (last_stored (lower host) ks none)
            (get_negative lower now host c).0
  unfolding get_positive get_negative
  lookup-Gives most now ks host =
      let c = run lower ks (new_cache most) in
      let w = run-IsLast ks (λ key. none) (new_cache most) (new_cache-IsLast most) in
      (
        found-Gives stored_answer now (lower host) _ c.positive_cache
            (get (lower host) c.positive_cache) (w.answers (lower host)),
        found-Gives stored_failure now (lower host) _ c.negative_cache
            (get (lower host) c.negative_cache) (w.failures (lower host)),
      )
