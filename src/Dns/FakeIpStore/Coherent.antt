-- ===== src/Dns/FakeIpStore/Coherent.antt =====
-- dns/fakeIpStore.ts: the relation between the two maps, for each operation.
use sepigs.Base.{
  ◌≡◌, sym, ap, ◌∙◌, subst, ◌↔◌, inl, inr, none, some, ◌∷◌, arith, nat_eq, string_eq, length,
}
use sepigs.Base.Table.{
  Table, get, put, delete, IsKeyed, put-IsKeyed, delete-IsKeyed, length-put, length-delete,
  get-put_same, get-put_other, get-delete_same, get-delete_other, delete_found, delete_head,
  get_head, key-cases,
}
use sepigs.Base.Text.{Text, text_key}
use sepigs.Dns.FakeIpStore.{FakeIpRecord, FakeIpStore, delete_record, touch_record, insert_record}

-- Both maps find the record by its own keys, so no two domains have one address.
pub record IsStore (s : FakeIpStore) : Type 0 where
  pub of_domain :
      (d : Text) (r : FakeIpRecord)
      → get d s.by_domain ≡ some r
      → (r.domain ≡ d) × (get r.address s.by_address ≡ some r)
  pub of_address :
      (a : Text) (r : FakeIpRecord)
      → get a s.by_address ≡ some r
      → (r.address ≡ a) × (get r.domain s.by_domain ≡ some r)
  pub keyed : IsKeyed s.by_domain

abbrev pub Holds : FakeIpStore → FakeIpRecord → Type 0
Holds s r = get r.domain s.by_domain ≡ some r

pub delete_record-IsStore :
    (r : FakeIpRecord) (s : FakeIpStore) → IsStore s → Holds s r → IsStore (delete_record r s)
unfolding delete_record
delete_record-IsStore r s w l = record {
  of_domain = λ d q h.
      (let (n, e) = delete_found r.domain d q s.by_domain h in
        let (same, there) = w.of_domain d q e in
        (
          same,
          elim (key-cases r.address q.address) [
            | inl p ↦ absurd (n (cc (p, same, there, (w.of_domain r.domain r l).1)))
            | inr m ↦ get-delete_other r.address q.address s.by_address m ∙ there
          ],
        ));
  of_address = λ a q h.
      (let (n, e) = delete_found r.address a q s.by_address h in
        let (same, there) = w.of_address a q e in
        (
          same,
          elim (key-cases r.domain q.domain) [
            | inl p ↦ absurd (n (cc (p, same, there, l)))
            | inr m ↦ get-delete_other r.domain q.domain s.by_domain m ∙ there
          ],
        ));
  keyed = delete-IsKeyed r.domain s.by_domain w.keyed;
}

get-touch :
    (r : FakeIpRecord) (s : FakeIpStore)
    → Holds s r
    → (d : Text) → get d ((touch_record r s).by_domain) ≡ get d s.by_domain
unfolding touch_record
get-touch r s l d = elim (key-cases r.domain d) [
  | inl p ↦
      ap (λ k. get k (put r.domain r (delete r.domain s.by_domain))) (sym p)
      ∙ get-put_same r.domain r (delete r.domain s.by_domain)
      ∙ sym l
      ∙ ap (λ k. get k s.by_domain) p
  | inr n ↦
      get-put_other r.domain d r (delete r.domain s.by_domain) n
      ∙ get-delete_other r.domain d s.by_domain n
]

pub touch_record-IsStore :
    (r : FakeIpRecord) (s : FakeIpStore) → IsStore s → Holds s r → IsStore (touch_record r s)
unfolding touch_record
touch_record-IsStore r s w l = record {
  of_domain = λ d q h. w.of_domain d q (sym (get-touch r s l d) ∙ h);
  of_address =
      λ a q h. (let (same, there) = w.of_address a q h in (same, get-touch r s l q.domain ∙ there));
  keyed =
      put-IsKeyed r.domain r (delete r.domain s.by_domain)
        (delete-IsKeyed r.domain s.by_domain w.keyed);
}

pub touch_record-Holds :
    (r q : FakeIpRecord) (s : FakeIpStore) → Holds s r → (Holds (touch_record r s) q) ↔ (Holds s q)
touch_record-Holds r q s l =
    (λ h. sym (get-touch r s l q.domain) ∙ h, λ h. get-touch r s l q.domain ∙ h)

pub length-touch_record :
    (r : FakeIpRecord) (s : FakeIpStore)
    → IsStore s
    → Holds s r
    → length ((touch_record r s).by_domain) ≡ length s.by_domain
unfolding touch_record
length-touch_record r s w l = ground (
  arith,
  length-put r.domain r (delete r.domain s.by_domain),
  get-delete_same r.domain s.by_domain,
  length-delete r.domain s.by_domain w.keyed,
  l,
)

-- A record of a new domain with an address that no record has.
pub insert_record-IsStore :
    (r : FakeIpRecord) (s : FakeIpStore)
    → IsStore s
    → get r.domain s.by_domain ≡ none
    → get r.address s.by_address ≡ none
    → IsStore (insert_record r s)
unfolding insert_record
insert_record-IsStore r s w a b = rw a (record {
  of_domain = λ d q h. elim (key-cases r.domain d) [
    | inl p ↦
        (let same : q ≡ r = cc (h, p, get-put_same r.domain r s.by_domain) in
          (cc (same, p), cc (same, get-put_same r.address r s.by_address)))
    | inr n ↦
        (let (same, there) = w.of_domain d q (sym (get-put_other r.domain d r s.by_domain n) ∙ h) in
          (
            same,
            elim (key-cases r.address q.address) [
              | inl p ↦ absurd (cc (p, b, there))
              | inr m ↦ get-put_other r.address q.address r s.by_address m ∙ there
            ],
          ))
  ];
  of_address = λ d q h. elim (key-cases r.address d) [
    | inl p ↦
        (let same : q ≡ r = cc (h, p, get-put_same r.address r s.by_address) in
          (cc (same, p), cc (same, get-put_same r.domain r s.by_domain)))
    | inr n ↦
        (let (same, there) =
            w.of_address d q (sym (get-put_other r.address d r s.by_address n) ∙ h) in
          (
            same,
            elim (key-cases r.domain q.domain) [
              | inl p ↦ absurd (cc (p, a, there))
              | inr m ↦ get-put_other r.domain q.domain r s.by_domain m ∙ there
            ],
          ))
  ];
  keyed = put-IsKeyed r.domain r s.by_domain w.keyed;
})

-- The oldest record is the first of the first map.
pub oldest-Holds :
    (d : Text) (r : FakeIpRecord) (m : Table Text FakeIpRecord) (s : FakeIpStore)
    → IsStore s
    → s.by_domain ≡ (d, r) ∷ m
    → Holds s r × ((delete_record r s).by_domain ≡ m)
unfolding delete_record
oldest-Holds d r m s w e =
    let here : get d s.by_domain ≡ some r = ap (get d) e ∙ get_head d r m in
    let (same, there) = w.of_domain d r here in
    (
      cc (here, same),
      ap (λ k. delete k s.by_domain) same
          ∙ ap (delete d) e
          ∙ delete_head d r m (subst (λ t. IsKeyed t) e w.keyed),
    )
