-- ===== src/Dns/FakeIpStore/Setting.antt =====
-- dns/fakeIpStore.ts: `set` on a new domain.
use sepigs.Base.{
  ℕ, zero, suc, ◌+◌, ◌≤◌, ◌<◌, ◌≡◌, refl, sym, ap, ◌∙◌, subst, ◌⊎◌, inl, inr, Option, none, some,
  [], ◌∷◌, ◌++◌, arith, ltb, nat_eq, string_eq, if_either, length,
}
use sepigs.Base.Table.{
  Table, get, put, IsKeyed, get-put_same, get-put_other, delete_found, key-cases, put_absent,
}
use sepigs.Base.Text.{Text, text_eq_iff_to, text_eq_refl, text_key}
use sepigs.Dns.FakeIpStore.{
  FakeIpRecord, FakeIpStore, delete_record, insert_record, oldest, trim, set,
}
use sepigs.Dns.FakeIpStore.Coherent.{
  IsStore, Holds, delete_record-IsStore, insert_record-IsStore, oldest-Holds,
}
use sepigs.Dns.FakeIpStore.Changes.{persist-Keeps}

-- The record is the newest one of a well-formed store.
pub record Newest (r : FakeIpRecord) (most : ℕ) (s : FakeIpStore) : Type 0 where
  pub store : IsStore s
  pub older : Table Text FakeIpRecord
  pub last : s.by_domain ≡ older ++ (r.domain, r) ∷ []
  pub limit : s.max_size ≡ most

get_last :
    (r : FakeIpRecord) (m : Table Text FakeIpRecord)
    → IsKeyed (m ++ (r.domain, r) ∷ [])
    → get r.domain (m ++ (r.domain, r) ∷ []) ≡ some r
unfolding get IsKeyed
get_last r [] k = ground (arith, text_eq_refl r.domain)
get_last r ((d, q) ∷ m) (a, k) = elim (key-cases d r.domain) [
  | inl p ↦ absurd (cc (a, ap (λ t. get t (m ++ (r.domain, r) ∷ [])) p, get_last r m k))
  | inr n ↦ ground (arith, n, text_eq_iff_to d r.domain, get_last r m k)
]

pub Newest-Holds : {r : FakeIpRecord} {limit : ℕ} {s : FakeIpStore} → Newest r limit s → Holds s r
Newest-Holds {r} n =
    ap (get r.domain) n.last ∙ get_last r n.older (subst (λ t. IsKeyed t) n.last n.store.keyed)

-- The loop ends with the record in the store, and within the limit if there are rounds enough.
trim-Newest :
    (rounds limit : ℕ) (r : FakeIpRecord) (s : FakeIpStore)
    → 1 ≤ limit
    → (n : Newest r limit s) → length s.by_domain ≤ limit + rounds
    → Newest r limit (trim rounds s) × (length ((trim rounds s).by_domain) ≤ limit)
unfolding trim delete_record
trim-Newest zero limit r s p n h = (n, omega (arith, h))
trim-Newest (suc rounds) limit r s p n h =
    if_either (λ (t : FakeIpStore). Newest r limit t × (length t.by_domain ≤ limit))
      (ltb s.max_size (length s.by_domain))
      (λ e.
        more n.older n.last (ground (arith, e, n.limit))
          (λ q m v. trim-Newest rounds limit r (delete_record q s) p v m))
      (λ e. (n, ground (arith, e, n.limit)))
  where
    more :
        (older : Table Text FakeIpRecord)
        → s.by_domain ≡ older ++ (r.domain, r) ∷ []
        → limit < length s.by_domain
        → ((q : FakeIpRecord)
            → length ((delete_record q s).by_domain) ≤ limit + rounds
            → Newest r limit (delete_record q s)
            → Newest r limit (trim rounds (delete_record q s))
              × (length ((trim rounds (delete_record q s)).by_domain) ≤ limit))
        → let later : FakeIpStore = (elim (oldest s) [
          | none ↦ s
          | some q ↦ trim rounds (delete_record q s)
        ]) in
          Newest r limit later × (length later.by_domain ≤ limit)
    more [] e m f = absurd (omega (arith, ap length e, m))
    more ((d, q) ∷ older) e m f =
        let (here, rest) = oldest-Holds d q (older ++ (r.domain, r) ∷ []) s n.store e in
        let first : oldest s ≡ some q = rw e refl in
        rw first (
          f q (omega (arith, ap length rest, ap length e, h)) (record {
            store = delete_record-IsStore q s n.store here;
            older = older;
            last = rest;
            limit = n.limit;
          }))

trim-old : (rounds : ℕ) (s : FakeIpStore) (q : FakeIpRecord) → Holds (trim rounds s) q → Holds s q
unfolding trim delete_record
trim-old zero s q h = h
trim-old (suc rounds) s q h0 =
    if_either (λ (t : FakeIpStore). Holds t q → Holds s q) (ltb s.max_size (length s.by_domain))
      (λ e. more (oldest s) (λ r h.
        (delete_found r.domain q.domain q s.by_domain (trim-old rounds (delete_record r s) q h)).1))
      (λ e h. h) h0
  where
    more :
        (first : Option FakeIpRecord)
        → ((r : FakeIpRecord) → Holds (trim rounds (delete_record r s)) q → Holds s q)
        → let later : FakeIpStore = (elim first [
          | none ↦ s
          | some r ↦ trim rounds (delete_record r s)
        ]) in
          Holds later q → Holds s q
    more none f h = h
    more (some r) f h = f r h

insert_record-old :
    (r q : FakeIpRecord) (s : FakeIpStore) → Holds (insert_record r s) q → (q ≡ r) ⊎ Holds s q
unfolding insert_record
insert_record-old r q s h = elim (key-cases r.domain q.domain) [
  | inl p ↦ inl (cc (h, p, get-put_same r.domain r s.by_domain))
  | inr n ↦ inr (sym (get-put_other r.domain q.domain r s.by_domain n) ∙ h)
]

-- What `set` guarantees for a record with a new domain and a free address.
pub record AfterSet (r : FakeIpRecord) (most : ℕ) (before s : FakeIpStore) : Type 0 where
  pub store : IsStore s
  pub bound : length s.by_domain ≤ most
  pub limit : s.max_size ≡ most
  pub held : Holds s r
  pub others : (q : FakeIpRecord) → Holds s q → (q ≡ r) ⊎ Holds before q

pub set-AfterSet :
    (now : ℕ) (r : FakeIpRecord) (s : FakeIpStore)
    → IsStore s
    → get r.domain s.by_domain ≡ none
    → get r.address s.by_address ≡ none
    → 1 ≤ s.max_size
    → length s.by_domain ≤ s.max_size
    → now < r.expires_at
    → AfterSet r s.max_size s (set now r s)
unfolding set insert_record put
set-AfterSet now r s w a b p h v =
    let inserted = insert_record r s in
    let first : Newest r s.max_size inserted = record {
      store = insert_record-IsStore r s w a b;
      older = s.by_domain;
      last = put_absent r.domain r s.by_domain a;
      limit = refl;
    } in
    let (n, q) =
      trim-Newest (length inserted.by_domain) s.max_size r inserted p first (omega arith) in
    let trimmed = trim (length inserted.by_domain) inserted in
    let k = persist-Keeps now trimmed n.store in
    record {
      store = k.store;
      bound = omega (arith, k.bound, q);
      limit = k.limit ∙ n.limit;
      held = k.valid r v (Newest-Holds n);
      others = λ q h.
          insert_record-old r q s (trim-old (length inserted.by_domain) inserted q (k.old q h));
    }
