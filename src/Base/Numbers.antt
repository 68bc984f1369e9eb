-- ===== src/Base/Numbers.antt =====
-- `Number(t)` of the language where it is an integer from 0: decimal literals with sign, fraction and
-- exponent, the prefixes 0x, 0o and 0b, and white space around them. A literal that is not such an integer
-- exactly is none (the code refuses all of those alike); the rounding to 53 bits is left out.
use Prim.Native.Nat.{ℕ, ◌+◌, ◌-◌, ◌*◌, ◌/◌, ◌%◌, ◌^◌, ◌<◌}
use mathlib.Core.Path.{◌≡◌, refl, ap}
use mathlib.Core.Bool.{Bool, true, ◌&&◌, ◌||◌}
use mathlib.Core.List.{[], ◌∷◌, ◌++◌, reverse}
use mathlib.Core.Option.{Option, none, some}
use native.Mathlib.Omega.{arith}
use sepigs.Base.Tests.{ltb, leb, ◌==◌, if◌then◌else◌, nat_eq}
use sepigs.Base.Lists.{length}
use sepigs.Base.Text.{Text, codes}
use sepigs.Base.Digits.{all_digits, digits_value, hex_value, decimal}

abbrev is_space : ℕ → Bool
is_space c =
    (leb 9 c && leb c 13)
    || c == 32
    || c == 160
    || c == 5760
    || (leb 8192 c && leb c 8202)
    || c == 8232
    || c == 8233
    || c == 8239
    || c == 8287
    || c == 12288
    || c == 65279

abbrev pub behind_space : Text → Text
behind_space [] = []
behind_space (c ∷ t) = let rest = behind_space t in if is_space c then rest else c ∷ t

-- The text before the first unit of a kind, and the text behind it.
abbrev break_at : (ℕ → Bool) → Text → Text × Option Text
break_at p [] = ([], none)
break_at p (c ∷ t) =
    let (before, after) = break_at p t in if p c then ([], some t) else (c ∷ before, after)

-- The digits of a prefixed literal.
abbrev radix_value : ℕ → ℕ → Text → Option ℕ
radix_value radix acc [] = some acc
radix_value radix acc (c ∷ t) = elim (hex_value c) [
  | none ↦ none
  | some d ↦ if ltb d radix then radix_value radix (acc * radix + d) t else none
]

abbrev prefixed : ℕ → Text → Option ℕ
prefixed radix [] = none
prefixed radix (c ∷ t) = radix_value radix 0 (c ∷ t)

-- `mantissa * 10 ^ up / 10 ^ down`, if it is an integer.
abbrev scaled : ℕ → ℕ → ℕ → Option ℕ
scaled mantissa up down =
    if leb down up
    then some (mantissa * 10 ^ (up - down))
    else if mantissa % 10 ^ (down - up) == 0
    then some (mantissa / 10 ^ (down - up))
    else none

-- The exponent: how far the point moves to the right and to the left.
abbrev exponent : Option Text → Option (ℕ × ℕ)
exponent none = some (0, 0)
exponent (some []) = none
exponent (some (c ∷ t)) =
    if c == b'-'
    then (if leb 1 (length t) && all_digits t then some (0, digits_value 0 t) else none)
    else if c == b'+'
    then (if leb 1 (length t) && all_digits t then some (digits_value 0 t, 0) else none)
    else if all_digits (c ∷ t)
    then some (digits_value 0 (c ∷ t), 0)
    else none

abbrev fraction : Option Text → Text
fraction none = []
fraction (some t) = t

abbrev unsigned : Text → Option ℕ
unsigned t =
    let (mantissa, power) = break_at (λ c. c == b'e' || c == b'E') t in
    let (whole, behind) = break_at (λ c. c == b'.') mantissa in
    let digits = whole ++ fraction behind in
    elim (exponent power) [
      | none ↦ none
      | some (up, down) ↦
          if leb 1 (length digits) && all_digits digits
          then scaled (digits_value 0 digits) up (down + length (fraction behind))
          else none
    ]

-- Of the negative numbers, only -0 is an integer from 0.
abbrev negated : Option ℕ → Option ℕ
negated none = none
negated (some n) = if n == 0 then some 0 else none

abbrev signed : ℕ → Text → Option ℕ
signed c t =
    if c == b'-' then negated (unsigned t) else if c == b'+' then unsigned t else unsigned (c ∷ t)

abbrev pub literal : Text → Option ℕ
literal [] = some 0
literal (c ∷ []) = signed c []
literal (c ∷ x ∷ t) =
    if c == b'0' && (x == b'x' || x == b'X')
    then prefixed 16 t
    else if c == b'0' && (x == b'o' || x == b'O')
    then prefixed 8 t
    else if c == b'0' && (x == b'b' || x == b'B')
    then prefixed 2 t
    else signed c (x ∷ t)

unfoldable pub number : Text → Option ℕ
unfolding digits_value
number t =
    if all_digits t
    then some (digits_value 0 t)
    else literal (reverse (behind_space (reverse (behind_space t))))

all_digits-decimal : (n : ℕ) → n < 1000 → all_digits (decimal n) ≡ true
unfolding decimal
all_digits-decimal n h = ground arith

digits_value-decimal : (n : ℕ) → n < 1000 → digits_value 0 (decimal n) ≡ n
unfolding decimal digits_value
digits_value-decimal n h = ground arith

pub number-decimal : (n : ℕ) → n < 1000 → number (decimal n) ≡ some n
unfolding number
number-decimal n h = rw (all_digits-decimal n h) (ap some (digits_value-decimal n h))

-- Literals as the language reads them.
literals :
    (number (codes " 8.0 ") ≡ some 8)
    × (number (codes "0x1F") ≡ some 31)
    × (number (codes "1e1") ≡ some 10)
    × (number (codes "250e-1") ≡ some 25)
    × (number (codes "2.5e1") ≡ some 25)
    × (number (codes "0b101") ≡ some 5)
    × (number (codes "+7") ≡ some 7)
    × (number (codes "-0") ≡ some 0)
    × (number (codes ".5") ≡ none)
    × (number (codes "-1") ≡ none)
    × (number (codes ".") ≡ none)
    × (number (codes "0x") ≡ none)
    × (number (codes "1e") ≡ none)
unfolding number hex_value digits_value
literals = (refl, refl, refl, refl, refl, refl, refl, refl, refl, refl, refl, refl, refl)
