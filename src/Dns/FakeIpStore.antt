-- ===== src/Dns/FakeIpStore.antt =====
-- dns/fakeIpStore.ts: two maps over the same records, the first in order of use. Reading and writing the
-- file are left out: `loaded` are the records that the file holds, and `persists` says if there is one.
pub mod Coherent
pub mod Changes
pub mod Setting
use sepigs.Base.{
  ℕ, zero, suc, Bool, true, false, Option, none, some, List, [], ◌∷◌, map, ltb, leb, if◌then◌else◌,
  nat_eq, string_eq, length,
}
use sepigs.Base.Table.{Table, get, put, delete}
use sepigs.Base.Text.{Text, text_key}

pub record FakeIpRecord : Type 0 where
  pub domain : Text
  pub address : Text
  pub expires_at : ℕ

pub record FakeIpStore : Type 0 where
  pub by_domain : Table Text FakeIpRecord
  pub by_address : Table Text FakeIpRecord
  pub max_size : ℕ
  pub persists : Bool

abbrev pub empty_store : ℕ → Bool → FakeIpStore
empty_store max_size persists = record {
  by_domain = [];
  by_address = [];
  max_size = max_size;
  persists = persists;
}

-- `delete`.
unfoldable pub delete_record : FakeIpRecord → FakeIpStore → FakeIpStore
delete_record r s = record s {
  by_domain = delete r.domain s.by_domain;
  by_address = delete r.address s.by_address;
}

-- `touch`: the record becomes the last of the first map.
unfoldable pub touch_record : FakeIpRecord → FakeIpStore → FakeIpStore
touch_record r s = record s { by_domain = put r.domain r (delete r.domain s.by_domain) }

-- `read`: an expired record is deleted.
unfoldable pub read_record :
    ℕ → Option FakeIpRecord → FakeIpStore → Option FakeIpRecord × FakeIpStore
read_record now none s = (none, s)
read_record now (some r) s = if leb r.expires_at now then (none, delete_record r s) else (some r, s)

-- What `getByDomain` and `getByAddress` do with the entry that they find.
unfoldable pub use_record :
    ℕ → Option FakeIpRecord → FakeIpStore → Option FakeIpRecord × FakeIpStore
unfolding read_record
use_record now found s = elim ((read_record now found s).0) [
  | none ↦ (none, (read_record now found s).1)
  | some r ↦ (some r, touch_record r ((read_record now found s).1))
]

unfoldable pub get_by_domain : ℕ → Text → FakeIpStore → Option FakeIpRecord × FakeIpStore
get_by_domain now domain s = use_record now (get domain s.by_domain) s

unfoldable pub get_by_address : ℕ → Text → FakeIpStore → Option FakeIpRecord × FakeIpStore
get_by_address now address s = use_record now (get address s.by_address) s

abbrev pub is_some {ℓ} : {A : Type ℓ} → Option A → Bool
is_some none = false
is_some (some _) = true

unfoldable pub has_address : ℕ → Text → FakeIpStore → Bool × FakeIpStore
has_address now address s = let (found, s') = get_by_address now address s in (is_some found, s')

abbrev pub oldest : FakeIpStore → Option FakeIpRecord
oldest s = elim s.by_domain [ [] ↦ none | p ∷ _ ↦ some (p.1) ]

-- `read` on each record of a list, as `prune` and the writing of the file do.
unfoldable pub prune_each : ℕ → Table Text FakeIpRecord → FakeIpStore → FakeIpStore
prune_each now [] s = s
prune_each now ((_, r) ∷ rs) s = prune_each now rs ((read_record now (some r) s).1)

unfoldable pub prune : ℕ → FakeIpStore → FakeIpStore
prune now s = prune_each now s.by_domain s

unfoldable pub records : ℕ → FakeIpStore → List FakeIpRecord × FakeIpStore
records now s = let s' = prune now s in (map (λ p. p.1) s'.by_domain, s')

-- The part of `persist` that changes the store: the records are pruned before they are written.
unfoldable pub persist : ℕ → FakeIpStore → FakeIpStore
persist now s = if s.persists then (records now s).1 else s

-- The loop of `set` deletes one record in each round, so one round for each is enough.
unfoldable pub trim : ℕ → FakeIpStore → FakeIpStore
trim zero s = s
trim (suc rounds) s =
    let later : FakeIpStore = (elim (oldest s) [
      | none ↦ s
      | some r ↦ trim rounds (delete_record r s)
    ]) in
    if ltb s.max_size (length s.by_domain) then later else s

-- A record of the same domain loses its address first.
unfoldable pub insert_record : FakeIpRecord → FakeIpStore → FakeIpStore
insert_record r s =
    let by_address : Table Text FakeIpRecord = (elim (get r.domain s.by_domain) [
      | none ↦ s.by_address
      | some previous ↦ delete previous.address s.by_address
    ]) in
    record s { by_domain = put r.domain r s.by_domain; by_address = put r.address r by_address }

unfoldable pub set : ℕ → FakeIpRecord → FakeIpStore → FakeIpStore
set now r s =
    let inserted = insert_record r s in persist now (trim (length inserted.by_domain) inserted)

abbrev pub evict : Option FakeIpRecord → FakeIpStore → Option FakeIpRecord × FakeIpStore
evict none s = (none, s)
evict (some r) s = (some r, delete_record r s)

unfoldable pub evict_oldest : FakeIpStore → Option FakeIpRecord × FakeIpStore
evict_oldest s = evict (oldest s) s

-- `load` on the well-typed records of the file.
unfoldable pub load_each : ℕ → List FakeIpRecord → FakeIpStore → FakeIpStore
load_each now [] s = s
load_each now (r ∷ rs) s =
    let kept = record s {
      by_domain = put r.domain r s.by_domain;
      by_address = put r.address r s.by_address;
    } in
    if ltb now r.expires_at then load_each now rs kept else load_each now rs s

unfoldable pub load : ℕ → List FakeIpRecord → FakeIpStore → FakeIpStore
load now loaded s = if s.persists then load_each now loaded s else s
