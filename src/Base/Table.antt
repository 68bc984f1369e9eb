-- ===== src/Base/Table.antt =====
-- The language's `Map`: an association list in insertion order. `put` on a key that is present
-- replaces the value in place, and on any other key appends, as `Map.prototype.set` does.
use Prim.Native.Nat.{◌+◌, ◌≤◌}
use mathlib.Core.Path.{◌≡◌, refl}
use mathlib.Core.Bool.{true}
use mathlib.Core.List.{List, [], ◌∷◌, ◌++◌}
use mathlib.Core.Option.{Option, none, some}
use native.Mathlib.Omega.{arith}
use sepigs.Base.Tests.{if◌then◌else◌, Eq, Bool-cases}
use mathlib.Core.Logic.{◌≢◌, ◌⊎◌, inl, inr}
use sepigs.Base.Lists.{length}

abbrev pub Table {ℓ} : Type 0 → Type ℓ → Type ℓ
Table K V = List (K × V)

pub beq_refl : {K : Type 0} ⦃e : Eq K⦄ (k : K) → e.beq k k ≡ true
beq_refl ⦃e⦄ k = (e.beq_iff k k).1 refl

module _ {ℓ} {K : Type 0} {V : Type ℓ} ⦃e : Eq K⦄ where
  unfoldable pub get : K → Table K V → Option V
  get k [] = none
  get k ((j, v) ∷ m) = if e.beq j k then some v else get k m

  unfoldable pub put : K → V → Table K V → Table K V
  put k v [] = (k, v) ∷ []
  put k v ((j, w) ∷ m) = if e.beq j k then (j, v) ∷ m else (j, w) ∷ put k v m

  unfoldable pub delete : K → Table K V → Table K V
  delete k [] = []
  delete k ((j, w) ∷ m) = let rest = delete k m in if e.beq j k then rest else (j, w) ∷ rest

  -- No key stands twice.
  unfoldable pub IsKeyed : Table K V → Type ℓ
  IsKeyed [] = Unit
  IsKeyed ((j, w) ∷ m) = (get j m ≡ none) × IsKeyed m

  pub get-put :
      (k j : K) (v : V) (m : Table K V)
      → get j (put k v m) ≡ (if e.beq k j then some v else get j m)
  unfolding get put
  get-put k j v [] = refl
  get-put k j v ((i, w) ∷ m) =
      ground (arith, e.beq_iff k j, e.beq_iff i k, e.beq_iff i j, get-put k j v m)

  pub get-delete :
      (k j : K) (m : Table K V) → get j (delete k m) ≡ (if e.beq k j then none else get j m)
  unfolding get delete
  get-delete k j [] = ground arith
  get-delete k j ((i, w) ∷ m) =
      ground (arith, e.beq_iff k j, e.beq_iff i k, e.beq_iff i j, get-delete k j m)

  pub get-append :
      (k : K) (m n : Table K V)
      → get k (m ++ n) ≡ (elim (get k m) [ none ↦ get k n | some v ↦ some v ])
  unfolding get
  get-append k [] n = refl
  get-append k ((i, w) ∷ m) n = ground (arith, get-append k m n)

  pub put-IsKeyed : (k : K) (v : V) (m : Table K V) → IsKeyed m → IsKeyed (put k v m)
  unfolding put IsKeyed get
  put-IsKeyed k v [] h = (refl, tt)
  put-IsKeyed k v ((i, w) ∷ m) (a, h) =
      ground (arith, e.beq_iff i k, e.beq_iff k i, put-IsKeyed k v m h, get-put k i v m)

  pub delete-IsKeyed : (k : K) (m : Table K V) → IsKeyed m → IsKeyed (delete k m)
  unfolding delete IsKeyed
  delete-IsKeyed k [] h = tt
  delete-IsKeyed k ((i, w) ∷ m) (a, h) = ground (arith, delete-IsKeyed k m h, get-delete k i m)

  pub length-put :
      (k : K) (v : V) (m : Table K V)
      → length (put k v m) ≡ (elim (get k m) [ none ↦ length m + 1 | some _ ↦ length m ])
  unfolding get put
  length-put k v [] = refl
  length-put k v ((i, w) ∷ m) = ground (arith, length-put k v m)

  pub delete_absent : (k : K) (m : Table K V) → get k m ≡ none → delete k m ≡ m
  unfolding get delete
  delete_absent k [] h = refl
  delete_absent k ((i, w) ∷ m) h = ground (arith, delete_absent k m)

  pub length-delete :
      (k : K) (m : Table K V)
      → IsKeyed m
      → length m
        ≡ (elim (get k m) [ none ↦ length (delete k m) | some _ ↦ length (delete k m) + 1 ])
  unfolding get delete IsKeyed
  length-delete k [] h = refl
  length-delete k ((i, w) ∷ m) (a, h) =
      ground (arith, length-delete k m h, delete_absent k m, e.beq_iff i k)

  pub length-delete-le : (k : K) (m : Table K V) → length (delete k m) ≤ length m
  unfolding delete
  length-delete-le k [] = omega arith
  length-delete-le k ((i, w) ∷ m) = ground (arith, length-delete-le k m)

  pub put_absent : (k : K) (v : V) (m : Table K V) → get k m ≡ none → put k v m ≡ m ++ (k, v) ∷ []
  unfolding get put
  put_absent k v [] h = refl
  put_absent k v ((i, w) ∷ m) h = ground (arith, put_absent k v m)

  pub get-put_same : (k : K) (v : V) (m : Table K V) → get k (put k v m) ≡ some v
  get-put_same k v m = rw (get-put k k v m, beq_refl k) refl

  pub get-delete_same : (k : K) (m : Table K V) → get k (delete k m) ≡ none
  get-delete_same k m = rw (get-delete k k m, beq_refl k) refl

  pub get-put_other : (k j : K) (v : V) (m : Table K V) → k ≢ j → get j (put k v m) ≡ get j m
  get-put_other k j v m n = ground (arith, get-put k j v m, e.beq_iff k j)

  pub get-delete_other : (k j : K) (m : Table K V) → k ≢ j → get j (delete k m) ≡ get j m
  get-delete_other k j m n = ground (arith, get-delete k j m, e.beq_iff k j)

  -- What a table without a key holds, it holds for another key.
  pub delete_found :
      (k j : K) (v : V) (m : Table K V) → get j (delete k m) ≡ some v → (k ≢ j) × (get j m ≡ some v)
  delete_found k j v m h = ground (arith, get-delete k j m, e.beq_iff k j)

  pub delete_head :
      (k : K) (v : V) (m : Table K V) → IsKeyed ((k, v) ∷ m) → delete k ((k, v) ∷ m) ≡ m
  unfolding delete IsKeyed
  delete_head k v m (a, h) = ground (arith, beq_refl k, delete_absent k m a)

  pub get_head : (k : K) (v : V) (m : Table K V) → get k ((k, v) ∷ m) ≡ some v
  unfolding get
  get_head k v m = ground (arith, beq_refl k)

-- Two keys are equal or not.
pub key-cases : {K : Type 0} ⦃e : Eq K⦄ (k j : K) → (k ≡ j) ⊎ (k ≢ j)
key-cases ⦃e⦄ k j = elim (Bool-cases (e.beq k j)) [
  | inl h ↦ inl ((e.beq_iff k j).0 h)
  | inr h ↦ inr (λ p. cc (h, (e.beq_iff k j).1 p))
]
