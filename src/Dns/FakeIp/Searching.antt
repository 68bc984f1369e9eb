-- ===== src/Dns/FakeIp/Searching.antt =====
-- dns/fakeIpPool.ts with the store as its caller: the search for an address that is not used.
use native.Mathlib.Nat.{mod-lt}
use sepigs.Base.{
  ℕ, zero, suc, ◌+◌, ◌%◌, ◌≤◌, ◌≡◌, refl, ap, ◌∙◌, subst, ◌⊎◌, inl, inr, true, Option, none, some,
  [], ◌∷◌, arith, nat_eq, string_eq, if_either,
}
use sepigs.Base.Table.{Table, get}
use sepigs.Base.Text.{Text, text_key}
use sepigs.Dns.FakeIpPool.{FakeIpPool, number_to_ipv4, next, next_loop}
use sepigs.Dns.FakeIpPool.Range.{IsPool, InPool}
use sepigs.Dns.FakeIpStore.{FakeIpRecord, FakeIpStore, has_address, get_by_address, is_some}
use sepigs.Dns.FakeIpStore.Coherent.{IsStore, Holds, touch_record-Holds}
use sepigs.Dns.FakeIpStore.Changes.{
  Keeps, Keeps-same, Keeps-after, has_address-Keeps, Lookup, absent, expired, hit,
  get_by_address-Lookup,
}

-- An address that is used is the address of a record of the store.
has_address-Holds :
    (now : ℕ) (a : Text) (s : FakeIpStore)
    → IsStore s
    → (has_address now a s).0 ≡ true
    → (r : FakeIpRecord) × Holds ((has_address now a s).1) r
unfolding has_address
has_address-Holds now a s w = found (get_by_address now a s) (get_by_address-Lookup now a s)
  where
    found :
        (result : Option FakeIpRecord × FakeIpStore)
        → Lookup now s (get a s.by_address) result
        → is_some (result.0) ≡ true
        → (r : FakeIpRecord) × Holds (result.1) r
    found result (absent _ e) h = absurd (cc (ap (λ p. is_some (p.0)) e, h))
    found result (expired r _ _ e) h = absurd (cc (ap (λ p. is_some (p.0)) e, h))
    found result (hit r f _ e) h = (
      r,
      ap (λ p. get r.domain (p.1.by_domain)) e
          ∙ (touch_record-Holds r r s ((w.of_address a r f).1)).1 ((w.of_address a r f).1),
    )

-- What the search leaves: a free address of the pool, or a store that is not empty.
pub record Searched (now : ℕ) (p : FakeIpPool) (s : FakeIpStore)
    (result : Option Text × FakeIpPool × FakeIpStore) : Type 0 where
  pub keeps : Keeps now s (result.2)
  pub pool : IsPool (result.1)
  pub same_first : result.1.first ≡ p.first
  pub same_capacity : result.1.capacity ≡ p.capacity
  pub free : (a : Text) → result.0 ≡ some a → InPool p a × (get a (result.2.by_address) ≡ none)
  pub full : result.0 ≡ none → (r : FakeIpRecord) × Holds (result.2) r

module _ (now : ℕ) where
  next_loop-Searched :
      (attempts : ℕ) (p : FakeIpPool) (s : FakeIpStore)
      → IsPool p
      → IsStore s
      → 1 ≤ attempts ⊎ ((r : FakeIpRecord) × Holds s r)
      → Searched now p s (next_loop (has_address now) attempts p s)
  unfolding next_loop
  next_loop-Searched zero p s v w (inl h) = absurd (omega arith)
  next_loop-Searched zero p s v w (inr h) = record {
    keeps = Keeps-same now s w;
    pool = v;
    same_first = refl;
    same_capacity = refl;
    free = λ a e. cc;
    full = λ e. h;
  }
  next_loop-Searched (suc attempts) p s v w h =
      let candidate = number_to_ipv4 ((p.first + p.cursor) % 4294967296) in
      let here : InPool p candidate =
        (p.cursor, v.inside, ap number_to_ipv4 (ground (arith, v.inside, v.within))) in
      let p' = record p { cursor = (p.cursor + 1) % p.capacity } in
      let v' : IsPool p' = record {
        some_addresses = v.some_addresses;
        inside = mod-lt (p.cursor + 1) (omega (arith, v.some_addresses));
        within = v.within;
      } in
      let tested = has_address now candidate s in
      let (k, unused) = has_address-Keeps now candidate s w in
      if_either (Searched now p s) (tested.0)
        (λ e.
          (let later =
              next_loop-Searched attempts p' (tested.1) v' k.store
                (inr (has_address-Holds now candidate s w e)) in
            record {
              keeps = Keeps-after k later.keeps;
              pool = later.pool;
              same_first = later.same_first;
              same_capacity = later.same_capacity;
              free = later.free;
              full = later.full;
            }))
        (λ e. record {
          keeps = k;
          pool = v';
          same_first = refl;
          same_capacity = refl;
          free = λ a f.
              (let same : candidate ≡ a = cc f in
                (
                  subst (InPool p) same here,
                  subst (λ b. get b (tested.1.by_address) ≡ none) same (unused e),
                ));
          full = λ f. absurd (cc f);
        })

pub next-Searched :
    (now : ℕ) (p : FakeIpPool) (s : FakeIpStore)
    → IsPool p
    → IsStore s
    → Searched now p s (next (has_address now) p s)
unfolding next
next-Searched now p s v w = next_loop-Searched now p.capacity p s v w (inl v.some_addresses)

-- A store that holds a record has an oldest one.
pub oldest_exists :
    (s : FakeIpStore) (r : FakeIpRecord)
    → Holds s r
    → (d : Text) × (q : FakeIpRecord) × (m : Table Text FakeIpRecord) × (s.by_domain ≡ (d, q) ∷ m)
unfolding get
oldest_exists s r h = go s.by_domain refl
  where
    go :
        (t : Table Text FakeIpRecord)
        → s.by_domain ≡ t
        → (d : Text) × (q : FakeIpRecord) × (m : Table Text FakeIpRecord) × (s.by_domain
            ≡ (d, q) ∷ m)
    go [] e = absurd (cc (ap (get r.domain) e, h))
    go ((d, q) ∷ m) e = (d, q, m, e)
