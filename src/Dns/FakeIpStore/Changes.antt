-- ===== src/Dns/FakeIpStore/Changes.antt =====
-- dns/fakeIpStore.ts: lookups and pruning, by what they do to the records.
use sepigs.Base.{
  ℕ, ◌≤◌, ◌<◌, ◌≡◌, refl, sym, ap, ◌∙◌, subst, ◌≢◌, inl, inr, false, Option, none, some, [], ◌∷◌,
  arith, leb, nat_eq, string_eq, Bool-cases, Option-cases, if_either, length,
}
use sepigs.Base.Table.{
  Table, get, delete, IsKeyed, get-delete_same, get-delete_other, delete_found, get_head, key-cases,
  length-delete-le,
}
use sepigs.Base.Text.{Text, text_eq_iff_to, text_key}
use sepigs.Dns.FakeIpStore.{
  FakeIpRecord, FakeIpStore, delete_record, touch_record, read_record, use_record, get_by_domain,
  get_by_address, has_address, is_some, prune_each, prune, records, persist,
}
use sepigs.Dns.FakeIpStore.Coherent.{
  IsStore, Holds, delete_record-IsStore, touch_record-IsStore, touch_record-Holds,
  length-touch_record,
}

-- Only records that have expired at `now` may be missing, and there are no others.
pub record Keeps (now : ℕ) (s s' : FakeIpStore) : Type 0 where
  pub store : IsStore s'
  pub bound : length s'.by_domain ≤ length s.by_domain
  pub limit : s'.max_size ≡ s.max_size
  pub old : (r : FakeIpRecord) → Holds s' r → Holds s r
  pub valid : (r : FakeIpRecord) → now < r.expires_at → Holds s r → Holds s' r

pub Keeps-same : (now : ℕ) (s : FakeIpStore) → IsStore s → Keeps now s s
Keeps-same now s w = record {
  store = w;
  bound = omega arith;
  limit = refl;
  old = λ r h. h;
  valid = λ r e h. h;
}

pub Keeps-after : {now : ℕ} {s t u : FakeIpStore} → Keeps now s t → Keeps now t u → Keeps now s u
Keeps-after a b = record {
  store = b.store;
  bound = omega (arith, a.bound, b.bound);
  limit = b.limit ∙ a.limit;
  old = λ r h. a.old r (b.old r h);
  valid = λ r e h. b.valid r e (a.valid r e h);
}

-- A domain that has no record does not get one.
pub Keeps-absent :
    {now : ℕ} {s t : FakeIpStore} (d : Text)
    → Keeps now s t
    → get d s.by_domain ≡ none
    → get d t.by_domain ≡ none
Keeps-absent {t = t} d k h = elim (Option-cases (get d t.by_domain)) [
  | inl e ↦ e
  | inr (r, e) ↦
      (let same = (k.store.of_domain d r e).0 in
        let here : Holds t r = cc (same, e) in absurd (cc (k.old r here, same, h)))
]

delete_record-Keeps :
    (now : ℕ) (r : FakeIpRecord) (s : FakeIpStore)
    → IsStore s
    → Holds s r
    → r.expires_at ≤ now
    → Keeps now s (delete_record r s)
unfolding delete_record
delete_record-Keeps now r s w l e = record {
  store = delete_record-IsStore r s w l;
  bound = length-delete-le r.domain s.by_domain;
  limit = refl;
  old = λ q h. (delete_found r.domain q.domain q s.by_domain h).1;
  valid = λ q v h. elim (key-cases r.domain q.domain) [
    | inl p ↦
        (let same : q ≡ r = cc (p, h, l) in absurd (omega (arith, ap (λ x. x.expires_at) same)))
    | inr n ↦ get-delete_other r.domain q.domain s.by_domain n ∙ h
  ];
}

touch_record-Keeps :
    (now : ℕ) (r : FakeIpRecord) (s : FakeIpStore)
    → IsStore s
    → Holds s r
    → Keeps now s (touch_record r s)
unfolding touch_record
touch_record-Keeps now r s w l = record {
  store = touch_record-IsStore r s w l;
  bound = omega (arith, length-touch_record r s w l);
  limit = refl;
  old = λ q h. (touch_record-Holds r q s l).0 h;
  valid = λ q v h. (touch_record-Holds r q s l).1 h;
}

-- What a lookup makes of the entry that it finds.
pub data Lookup (now : ℕ) (s : FakeIpStore) (found : Option FakeIpRecord)
    (result : Option FakeIpRecord × FakeIpStore) : Type 0 where
  absent : found ≡ none → result ≡ (none, s) → Lookup now s found result
  expired :
      (r : FakeIpRecord)
      → found ≡ some r
      → r.expires_at ≤ now
      → result ≡ (none, delete_record r s)
      → Lookup now s found result
  hit :
      (r : FakeIpRecord)
      → found ≡ some r
      → now < r.expires_at
      → result ≡ (some r, touch_record r s)
      → Lookup now s found result

use_record-Lookup :
    (now : ℕ) (found : Option FakeIpRecord) (s : FakeIpStore)
    → Lookup now s found (use_record now found s)
unfolding use_record read_record
use_record-Lookup now none s = absent refl refl
use_record-Lookup now (some r) s = elim (Bool-cases (leb r.expires_at now)) [
  | inl e ↦ expired r refl (ground (arith, e)) (ground (arith, e))
  | inr e ↦ hit r refl (ground (arith, e)) (ground (arith, e))
]

pub get_by_domain-Lookup :
    (now : ℕ) (d : Text) (s : FakeIpStore)
    → Lookup now s (get d s.by_domain) (get_by_domain now d s)
unfolding get_by_domain
get_by_domain-Lookup now d s = use_record-Lookup now (get d s.by_domain) s

pub get_by_address-Lookup :
    (now : ℕ) (a : Text) (s : FakeIpStore)
    → Lookup now s (get a s.by_address) (get_by_address now a s)
unfolding get_by_address
get_by_address-Lookup now a s = use_record-Lookup now (get a s.by_address) s

pub Lookup-Keeps :
    {now : ℕ} {s : FakeIpStore} {found : Option FakeIpRecord}
    {result : Option FakeIpRecord × FakeIpStore}
    → IsStore s
    → ((r : FakeIpRecord) → found ≡ some r → Holds s r)
    → Lookup now s found result
    → Keeps now s (result.1)
Lookup-Keeps {now} {s} w l (absent _ e) =
    subst (λ p. Keeps now s (p.1)) (sym e) (Keeps-same now s w)
Lookup-Keeps {now} {s} w l (expired r f m e) =
    subst (λ p. Keeps now s (p.1)) (sym e) (delete_record-Keeps now r s w (l r f) m)
Lookup-Keeps {now} {s} w l (hit r f m e) =
    subst (λ p. Keeps now s (p.1)) (sym e) (touch_record-Keeps now r s w (l r f))

pub held_domain :
    (s : FakeIpStore)
    → IsStore s
    → (d : Text) (r : FakeIpRecord) → get d s.by_domain ≡ some r
    → Holds s r
held_domain s w d r e = cc (e, (w.of_domain d r e).0)

pub held_address :
    (s : FakeIpStore)
    → IsStore s
    → (a : Text) (r : FakeIpRecord) → get a s.by_address ≡ some r
    → Holds s r
held_address s w a r e = (w.of_address a r e).1

-- After a test that finds no record of an address, there is none.
pub has_address-Keeps :
    (now : ℕ) (a : Text) (s : FakeIpStore)
    → IsStore s
    → Keeps now s ((has_address now a s).1)
      × ((has_address now a s).0 ≡ false → get a ((has_address now a s).1.by_address) ≡ none)
unfolding has_address delete_record
has_address-Keeps now a s w = (
  Lookup-Keeps w (held_address s w a) (get_by_address-Lookup now a s),
  gone (get_by_address now a s) (get_by_address-Lookup now a s),
)
  where
    gone :
        (result : Option FakeIpRecord × FakeIpStore)
        → Lookup now s (get a s.by_address) result
        → is_some (result.0) ≡ false
        → get a (result.1.by_address) ≡ none
    gone result (absent f e) n = ap (λ p. get a (p.1.by_address)) e ∙ f
    gone result (expired r f m e) n =
        ap (λ p. get a (p.1.by_address)) e
        ∙ ap (λ k. get k (delete r.address s.by_address)) (sym ((w.of_address a r f).0))
        ∙ get-delete_same r.address s.by_address
    gone result (hit r f m e) n = absurd (cc (ap (λ p. is_some (p.0)) e, n))

get_tail :
    (d d' : Text) (r : FakeIpRecord) (m : Table Text FakeIpRecord)
    → d ≢ d'
    → get d' ((d, r) ∷ m) ≡ get d' m
unfolding get
get_tail d d' r m n = ground (arith, text_eq_iff_to d d')

prune_each-Keeps :
    (now : ℕ) (m : Table Text FakeIpRecord) (s : FakeIpStore)
    → IsStore s
    → IsKeyed m
    → ((d : Text) (r : FakeIpRecord) → get d m ≡ some r → (r.domain ≡ d) × Holds s r)
    → Keeps now s (prune_each now m s)
unfolding prune_each read_record IsKeyed delete_record
prune_each-Keeps now [] s w k h = Keeps-same now s w
prune_each-Keeps now ((d, r) ∷ m) s w (a, k) h =
    let (same, l) = h d r (get_head d r m) in
    let rest : (d' : Text) (q : FakeIpRecord)
        → get d' m ≡ some q
        → (d ≢ d') × ((q.domain ≡ d') × Holds s q) =
      λ d' q e. elim (key-cases d d') [
        | inl p ↦ absurd (cc (p, a, e))
        | inr n ↦ (n, h d' q (get_tail d d' r m n ∙ e))
      ] in
    if_either (λ (p : Option FakeIpRecord × FakeIpStore). Keeps now s (prune_each now m (p.1)))
      (leb r.expires_at now)
      (λ e.
        (let once = delete_record-Keeps now r s w l (ground (arith, e)) in
          Keeps-after once (
            prune_each-Keeps now m (delete_record r s) once.store k (λ d' q f.
              (let (n, (p, g)) = rest d' q f in
                (
                  p,
                  get-delete_other r.domain q.domain s.by_domain (λ t. n (cc (t, same, p))) ∙ g,
                ))))))
      (λ e. prune_each-Keeps now m s w k (λ d' q f. (rest d' q f).1))

pub persist-Keeps : (now : ℕ) (s : FakeIpStore) → IsStore s → Keeps now s (persist now s)
unfolding persist records prune
persist-Keeps now s w =
    if_either (Keeps now s) s.persists
      (λ e.
        prune_each-Keeps now s.by_domain s w w.keyed
          (λ d r h. ((w.of_domain d r h).0, held_domain s w d r h)))
      (λ e. Keeps-same now s w)
