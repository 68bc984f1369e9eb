-- ===== src/Base/Digits.antt =====
-- Digits in text: the decimal form of a byte, the hexadecimal form of a 16-bit group, and the parser of
-- the latter.
use Prim.Native.Nat.{ℕ, ◌+◌, ◌-◌, ◌*◌, ◌/◌, ◌%◌, ◌≤◌, ◌<◌}
use mathlib.Core.Path.{◌≡◌, refl, ◌∙◌}
use mathlib.Core.Logic.{◌≢◌}
use mathlib.Core.Bool.{Bool, true, ◌&&◌}
use mathlib.Core.List.{List, [], ◌∷◌, map}
use mathlib.Core.Option.{Option, none, some}
use native.Mathlib.Omega.{arith}
use sepigs.Base.Tests.{ltb, leb, if◌then◌else◌}
use sepigs.Base.Lists.{length, length-map, All}
use sepigs.Base.Text.{Text, Lacks, IsPart}

abbrev pub is_digit : ℕ → Bool
is_digit c = leb b'0' c && leb c b'9'

abbrev pub all_digits : Text → Bool
all_digits [] = true
all_digits (c ∷ t) = is_digit c && all_digits t

unfoldable pub digits_value : ℕ → Text → ℕ
digits_value acc [] = acc
digits_value acc (c ∷ t) = digits_value (acc * 10 + (c - b'0')) t

-- `String(n)` for a number below 1000.
unfoldable pub decimal : ℕ → Text
decimal n =
    if ltb n 10
    then (b'0' + n) ∷ []
    else if ltb n 100
    then (b'0' + n / 10) ∷ (b'0' + n % 10) ∷ []
    else (b'0' + n / 100) ∷ (b'0' + n / 10 % 10) ∷ (b'0' + n % 10) ∷ []

-- `/^\d{1,3}$/`
abbrev pub short_digits : Text → Bool
short_digits t = leb 1 (length t) && leb (length t) 3 && all_digits t

pub decimal-short_digits : (n : ℕ) → n < 1000 → short_digits (decimal n) ≡ true
unfolding decimal
decimal-short_digits n h = ground arith

pub decimal-Lacks_dot : (n : ℕ) → n < 1000 → Lacks b'.' (decimal n)
unfolding decimal
decimal-Lacks_dot n h = ground arith

-- The value of one hexadecimal digit.
unfoldable pub hex_value : ℕ → Option ℕ
hex_value c =
    if is_digit c
    then some (c - b'0')
    else if leb b'a' c && leb c b'f'
    then some (c - b'a' + 10)
    else if leb b'A' c && leb c b'F'
    then some (c - b'A' + 10)
    else none

hex_from : ℕ → Text → Option ℕ
hex_from acc [] = some acc
hex_from acc (c ∷ t) = elim (hex_value c) [ none ↦ none | some d ↦ hex_from (acc * 16 + d) t ]

-- `Number.parseInt(t, 16)` guarded by `/^[0-9a-fA-F]{1,4}$/`.
unfoldable pub parse_group : Text → Option ℕ
unfolding hex_from hex_value
parse_group t = if leb 1 (length t) && leb (length t) 4 then hex_from 0 t else none

hex_digit : ℕ → ℕ
hex_digit d = if ltb d 10 then b'0' + d else b'a' + (d - 10)

-- `n.toString(16)` for a number below 65536.
unfoldable pub to_hex : ℕ → Text
unfolding hex_digit
to_hex n =
    if ltb n 16
    then hex_digit n ∷ []
    else if ltb n 256
    then hex_digit (n / 16) ∷ hex_digit (n % 16) ∷ []
    else if ltb n 4096
    then hex_digit (n / 256) ∷ hex_digit (n / 16 % 16) ∷ hex_digit (n % 16) ∷ []
    else hex_digit (n / 4096)
      ∷ hex_digit (n / 256 % 16)
      ∷ hex_digit (n / 16 % 16)
      ∷ hex_digit (n % 16)
      ∷ []

hex_value-hex_digit : (d : ℕ) → d < 16 → hex_value (hex_digit d) ≡ some d
unfolding hex_value hex_digit
hex_value-hex_digit d h = ground arith

hex_from-hex_digit :
    (acc d : ℕ) (t : Text) → d < 16 → hex_from acc (hex_digit d ∷ t) ≡ hex_from (acc * 16 + d) t
unfolding hex_from
hex_from-hex_digit acc d t h = rw (hex_value-hex_digit d h, hex_from)

-- The digits of a number below 65536, most significant first, without leading zeros.
hex_digits : ℕ → List ℕ
hex_digits n =
    if ltb n 16
    then n ∷ []
    else if ltb n 256
    then n / 16 ∷ n % 16 ∷ []
    else if ltb n 4096
    then n / 256 ∷ n / 16 % 16 ∷ n % 16 ∷ []
    else n / 4096 ∷ n / 256 % 16 ∷ n / 16 % 16 ∷ n % 16 ∷ []

to_hex-hex_digits : (n : ℕ) → to_hex n ≡ map hex_digit (hex_digits n)
unfolding to_hex hex_digits hex_digit
to_hex-hex_digits n = ground arith

hex_fold : ℕ → List ℕ → ℕ
hex_fold acc [] = acc
hex_fold acc (d ∷ ds) = hex_fold (acc * 16 + d) ds

hex_from-map :
    (acc : ℕ) (ds : List ℕ)
    → All (λ d. d < 16) ds
    → hex_from acc (map hex_digit ds) ≡ some (hex_fold acc ds)
unfolding hex_from hex_fold
hex_from-map acc [] h = refl
hex_from-map acc (d ∷ ds) (p, h) =
    hex_from-hex_digit acc d (map hex_digit ds) p ∙ hex_from-map (acc * 16 + d) ds h

hex_digits-lt : (n : ℕ) → n < 65536 → All (λ d. d < 16) (hex_digits n)
unfolding hex_digits
hex_digits-lt n h = ground arith

hex_fold-hex_digits : (n : ℕ) → n < 65536 → hex_fold 0 (hex_digits n) ≡ n
unfolding hex_fold hex_digits
hex_fold-hex_digits n h = ground arith

hex_digits-length : (n : ℕ) → (1 ≤ length (hex_digits n)) × (length (hex_digits n) ≤ 4)
unfolding hex_digits
hex_digits-length n = ground arith

pub parse_group-to_hex : (n : ℕ) → n < 65536 → parse_group (to_hex n) ≡ some n
unfolding parse_group
parse_group-to_hex n h = rw (to_hex-hex_digits n) (
    ground (
      arith,
      length-map hex_digit (hex_digits n),
      hex_digits-length n,
      hex_from-map 0 (hex_digits n) (hex_digits-lt n h),
      hex_fold-hex_digits n h,
    ))

hex_digit-ne_colon : (d : ℕ) → d < 16 → hex_digit d ≢ b':'
unfolding hex_digit
hex_digit-ne_colon d h = ground arith

Lacks-map : (ds : List ℕ) → All (λ d. d < 16) ds → Lacks b':' (map hex_digit ds)
Lacks-map [] h = tt
Lacks-map (d ∷ ds) (p, h) = (hex_digit-ne_colon d p, Lacks-map ds h)

pub to_hex-IsPart : (n : ℕ) → n < 65536 → IsPart b':' (to_hex n)
to_hex-IsPart n h = rw (to_hex-hex_digits n) (
  Lacks-map (hex_digits n) (hex_digits-lt n h),
  ground (arith, length-map hex_digit (hex_digits n), hex_digits-length n),
)
