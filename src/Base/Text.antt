-- ===== src/Base/Text.antt =====
-- Text as a list of code units (UTF-16 code units, which are the bytes of ASCII text): splitting,
-- joining, digits. String literals of the source are written through `codes`.
use Prim.Native.Nat.{ℕ}
use Prim.Native.Char.{code}
use Prim.Native.String.{String}
use mathlib.Core.Path.{◌≡◌, refl, subst}
use mathlib.Core.Logic.{◌≢◌}
use mathlib.Core.Bool.{Bool, true, false, ◌&&◌}
use mathlib.Core.List.{List, [], ◌∷◌, ◌++◌}
use native.Mathlib.Omega.{arith}
use sepigs.Base.Tests.{Eq, ◌==◌, if◌then◌else◌}
use sepigs.Base.Lists.{All}

abbrev pub Text : Type 0
Text = List ℕ

abbrev pub codes : String → Text
codes String.[] = []
codes (String.◌∷◌ c s) = code c ∷ codes s

abbrev pub text_eq : Text → Text → Bool
text_eq [] [] = true
text_eq (x ∷ xs) (y ∷ ys) = x == y && text_eq xs ys
text_eq _ _ = false

pub text_eq_iff_to : (s t : Text) → text_eq s t ≡ true → s ≡ t
text_eq_iff_to [] [] h = refl
text_eq_iff_to (x ∷ xs) (y ∷ ys) h = ground (arith, text_eq_iff_to xs ys)
text_eq_iff_to [] (y ∷ ys) h = cc
text_eq_iff_to (x ∷ xs) [] h = cc

pub text_eq_refl : (s : Text) → text_eq s s ≡ true
text_eq_refl [] = refl
text_eq_refl (x ∷ xs) = ground (arith, text_eq_refl xs)

abbrev cons_head : ℕ → List Text → List Text
cons_head x [] = (x ∷ []) ∷ []
cons_head x (p ∷ ps) = (x ∷ p) ∷ ps

instance abbrev pub text_key : Eq Text
text_key = record {
  beq = text_eq;
  beq_iff = λ s t. (text_eq_iff_to s t, λ e. subst (λ u. text_eq s u ≡ true) e (text_eq_refl s));
}

-- `t.split(c)` for a separator of one code unit.
unfoldable pub split : ℕ → Text → List Text
split c [] = [] ∷ []
split c (x ∷ xs) = let rest = split c xs in if x == c then [] ∷ rest else cons_head x rest

-- `t.split(cc)` for a separator of two equal code units.
unfoldable pub split_pair : ℕ → Text → List Text
split_pair c [] = [] ∷ []
split_pair c (x ∷ []) = (x ∷ []) ∷ []
split_pair c (x ∷ y ∷ r) =
    let after = split_pair c r in
    let longer = split_pair c (y ∷ r) in if x == c && y == c then [] ∷ after else cons_head x longer

-- `parts.join(c)`.
unfoldable pub join : ℕ → List Text → Text
join c [] = []
join c (p ∷ []) = p
join c (p ∷ q ∷ ps) = p ++ c ∷ join c (q ∷ ps)

abbrev pub Lacks : ℕ → Text → Type 0
Lacks c t = All (λ x. x ≢ c) t

split_plain : (c : ℕ) (p : Text) → Lacks c p → split c p ≡ p ∷ []
unfolding split
split_plain c [] h = refl
split_plain c (x ∷ p) (n, h) = ground (arith, split_plain c p h)

split-append : (c : ℕ) (p t : Text) → Lacks c p → split c (p ++ c ∷ t) ≡ p ∷ split c t
unfolding split
split-append c [] t h = ground arith
split-append c (x ∷ p) t (n, h) = ground (arith, split-append c p t h)

-- Splitting undoes joining when no part holds the separator.
pub split-join :
    (c : ℕ) (p : Text) (ps : List Text)
    → All (Lacks c) (p ∷ ps)
    → split c (join c (p ∷ ps)) ≡ p ∷ ps
unfolding join
split-join c p [] (h, _) = split_plain c p h
split-join c p (q ∷ ps) (h, k) =
    ground (arith, split-append c p (join c (q ∷ ps)) h, split-join c q ps k)

-- No two adjacent separators.
abbrev NoPair : ℕ → Text → Type 0
NoPair c [] = Unit
NoPair c (x ∷ []) = Unit
NoPair c (x ∷ y ∷ r) = ((x == c && y == c) ≡ false) × NoPair c (y ∷ r)

split_pair_plain : (c : ℕ) (t : Text) → NoPair c t → split_pair c t ≡ t ∷ []
unfolding split_pair
split_pair_plain c [] h = refl
split_pair_plain c (x ∷ []) h = refl
split_pair_plain c (x ∷ y ∷ r) (n, h) = ground (arith, split_pair_plain c (y ∷ r) h)

NoPair-append :
    (c x : ℕ) (p t : Text)
    → Lacks c (x ∷ p)
    → NoPair c t
    → ((y : ℕ) (r : Text) → t ≡ y ∷ r → y ≢ c)
    → NoPair c ((x ∷ p) ++ c ∷ t)
NoPair-append c x [] [] (n, h) k f = (ground arith, tt)
NoPair-append c x [] (y ∷ r) (n, h) k f = (ground arith, (ground (arith, f y r refl), k))
NoPair-append c x (z ∷ p) t (n, h) k f = (ground arith, NoPair-append c z p t h k f)

NoPair-of_Lacks : (c : ℕ) (t : Text) → Lacks c t → NoPair c t
NoPair-of_Lacks c [] h = tt
NoPair-of_Lacks c (x ∷ []) h = tt
NoPair-of_Lacks c (x ∷ y ∷ r) (n, h) = (ground arith, NoPair-of_Lacks c (y ∷ r) h)

abbrev pub IsPart : ℕ → Text → Type 0
IsPart c t = Lacks c t × (t ≢ [])

join_head :
    (c : ℕ) (p : Text) (ps : List Text)
    → All (IsPart c) (p ∷ ps)
    → (y : ℕ) (r : Text) → join c (p ∷ ps) ≡ y ∷ r
    → y ≢ c
unfolding join
join_head c [] ps ((l, n), h) y r e = absurd (n refl)
join_head c (x ∷ p) [] ((l, n), h) y r e = ground arith
join_head c (x ∷ p) (q ∷ ps) ((l, n), h) y r e = ground arith

NoPair-join :
    (c : ℕ) (p : Text) (ps : List Text) → All (IsPart c) (p ∷ ps) → NoPair c (join c (p ∷ ps))
unfolding join
NoPair-join c p [] ((l, n), h) = NoPair-of_Lacks c p l
NoPair-join c [] (q ∷ ps) ((l, n), h) = absurd (n refl)
NoPair-join c (x ∷ p) (q ∷ ps) ((l, n), h) =
    NoPair-append c x p (join c (q ∷ ps)) l (NoPair-join c q ps h) (join_head c q ps h)

-- A join of parts that are not empty holds no double separator.
pub split_pair-join :
    (c : ℕ) (p : Text) (ps : List Text)
    → All (IsPart c) (p ∷ ps)
    → split_pair c (join c (p ∷ ps)) ≡ join c (p ∷ ps) ∷ []
split_pair-join c p ps h = split_pair_plain c _ (NoPair-join c p ps h)
