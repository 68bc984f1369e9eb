-- ===== src/Base/Buffers.antt =====
-- Reading a buffer behind a prefix.
use Prim.Native.Nat.{ℕ, zero, suc, ◌+◌, ◌-◌, ◌≤◌, ◌<◌}
use mathlib.Core.Path.{◌≡◌, refl, sym, ap, ◌∙◌}
use mathlib.Core.List.{List, [], ◌∷◌, ◌++◌}
use mathlib.Core.Option.{none, some}
use native.Mathlib.Omega.{arith}
use sepigs.Base.Lists.{length, get_elem?, take, drop}

module _ {ℓ} {A : Type ℓ} where
  pub get_elem?-skip :
      (pre xs : List A) (i : ℕ) → get_elem? (pre ++ xs) (length pre + i) ≡ get_elem? xs i
  get_elem?-skip [] xs i = ap (get_elem? xs) (omega arith)
  get_elem?-skip (x ∷ pre) xs i = ground (arith, get_elem?-skip pre xs i)

  pub drop-skip : (pre xs : List A) (i : ℕ) → drop (length pre + i) (pre ++ xs) ≡ drop i xs
  drop-skip [] xs i = ap (λ n. drop n xs) (omega arith)
  drop-skip (x ∷ pre) xs i =
      let e : length (x ∷ pre) + i ≡ suc (length pre + i) = omega arith in
      ap (λ n. drop n ((x ∷ pre) ++ xs)) e ∙ drop-skip pre xs i

  pub get_elem?-lt : (xs : List A) (i : ℕ) → i < length xs → (a : A) × (get_elem? xs i ≡ some a)
  get_elem?-lt [] i h = absurd (omega arith)
  get_elem?-lt (x ∷ xs) zero h = (x, refl)
  get_elem?-lt (x ∷ xs) (suc i) h = get_elem?-lt xs i (omega arith)

  pub get_elem?-ge : (xs : List A) (i : ℕ) → length xs ≤ i → get_elem? xs i ≡ none
  get_elem?-ge [] i h = refl
  get_elem?-ge (x ∷ xs) zero h = absurd (omega arith)
  get_elem?-ge (x ∷ xs) (suc i) h = get_elem?-ge xs i (omega arith)

pub drop-append_lt : (xs ys : List ℕ) (n : ℕ) → n ≤ length xs → drop n (xs ++ ys) ≡ drop n xs ++ ys
drop-append_lt xs ys zero h = refl
drop-append_lt [] ys (suc n) h = absurd (omega arith)
drop-append_lt (x ∷ xs) ys (suc n) h = drop-append_lt xs ys n (omega arith)

pub take-append_lt : (xs ys : List ℕ) (n : ℕ) → n ≤ length xs → take n (xs ++ ys) ≡ take n xs
take-append_lt xs ys zero h = refl
take-append_lt [] ys (suc n) h = absurd (omega arith)
take-append_lt (x ∷ xs) ys (suc n) h = ap (◌∷◌ x) (take-append_lt xs ys n (omega arith))

pub drop-nil : (n : ℕ) → drop {A = ℕ} n [] ≡ []
drop-nil zero = refl
drop-nil (suc n) = refl

pub drop-drop : (m n : ℕ) (xs : List ℕ) → drop n (drop m xs) ≡ drop (m + n) xs
drop-drop zero n xs = ap (λ k. drop k xs) (omega arith)
drop-drop (suc m) n [] = drop-nil n ∙ sym (drop-nil (suc m + n))
drop-drop (suc m) n (x ∷ xs) =
    let e : suc m + n ≡ suc (m + n) = omega arith in
    drop-drop m n xs ∙ ap (λ k. drop k (x ∷ xs)) (sym e)

pub take_all : (n : ℕ) (xs : List ℕ) → length xs ≤ n → take n xs ≡ xs
take_all zero [] h = refl
take_all zero (x ∷ xs) h = absurd (omega arith)
take_all (suc n) [] h = refl
take_all (suc n) (x ∷ xs) h = ap (◌∷◌ x) (take_all n xs (omega arith))

pub take-append_ge :
    (xs ys : List ℕ) (n : ℕ) → length xs ≤ n → take n (xs ++ ys) ≡ xs ++ take (n - length xs) ys
take-append_ge [] ys n h = ap (λ k. take k ys) (omega arith)
take-append_ge (x ∷ xs) ys zero h = absurd (omega arith)
take-append_ge (x ∷ xs) ys (suc n) h =
    let e : suc n - suc (length xs) ≡ n - length xs = omega arith in
    ap (◌∷◌ x) (take-append_ge xs ys n (omega arith) ∙ ap (λ k. xs ++ take k ys) (sym e))

pub drop-append_ge :
    (xs ys : List ℕ) (n : ℕ) → length xs ≤ n → drop n (xs ++ ys) ≡ drop (n - length xs) ys
drop-append_ge [] ys n h = ap (λ k. drop k ys) (omega arith)
drop-append_ge (x ∷ xs) ys zero h = absurd (omega arith)
drop-append_ge (x ∷ xs) ys (suc n) h =
    let e : suc n - suc (length xs) ≡ n - length xs = omega arith in
    drop-append_ge xs ys n (omega arith) ∙ ap (λ k. drop k ys) (sym e)
