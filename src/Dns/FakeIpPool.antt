-- ===== src/Dns/FakeIpPool.antt =====
-- dns/fakeIpPool.ts: the addresses of an IPv4 range, handed out in turn. An address is its value; the
-- shifts and masks of 32-bit numbers are written as divisions and remainders.
pub mod Range
use sepigs.Base.{
  ℕ, zero, suc, ◌+◌, ◌-◌, ◌*◌, ◌/◌, ◌%◌, ◌^◌, min, Bool, ◌&&◌, ◌||◌, Option, none, some, List, [],
  ◌∷◌, ltb, leb, ◌==◌, if◌then◌else◌, nat_eq, string_eq, length,
}
use sepigs.Base.Text.{Text, split, text_key}
use sepigs.Base.Numbers.{number}
use sepigs.Base.Result.{Result, ok, err, ◌>>=◌, ◌>>◌}
use sepigs.Protocol.Address.{octets}
use sepigs.Protocol.Destination.{dotted}

pub data PoolError : Type 0 where
  invalid_ipv4 invalid_range no_addresses exhausted : PoolError

abbrev bytes_value : List ℕ → ℕ
bytes_value [] = 0
bytes_value (b ∷ bs) = b * 256 ^ length bs + bytes_value bs

unfoldable pub ipv4_to_number : Text → Result PoolError ℕ
ipv4_to_number address =
    let parts = split b'.' address in
    elim (octets parts) [
      | none ↦ err invalid_ipv4
      | some bytes ↦ if length parts == 4 then ok (bytes_value bytes) else err invalid_ipv4
    ]

abbrev pub ipv4_parts : ℕ → List ℕ
ipv4_parts value =
    (value / 16777216) ∷ (value / 65536 % 256) ∷ (value / 256 % 256) ∷ (value % 256) ∷ []

unfoldable pub number_to_ipv4 : ℕ → Text
number_to_ipv4 value = dotted (ipv4_parts value)

pub record FakeIpPool : Type 0 where
  pub first : ℕ
  pub capacity : ℕ
  pub cursor : ℕ

-- The pool of a parsed range: `base & mask` clears the bits behind the prefix.
abbrev pub pool_at : ℕ → ℕ → ℕ → Result PoolError FakeIpPool
pool_at base prefix requested_size =
    let block = 2 ^ (32 - prefix) in
    let network = base / block * block in
    let capacity = min requested_size (block - 2) in
    if ltb capacity 1
    then err no_addresses
    else ok (record { first = (network + 1) % 4294967296; capacity = capacity; cursor = 0 })

-- The text before and behind the first slash; what follows a second one is not read.
abbrev range_parts : List Text → Result PoolError (Text × ℕ)
range_parts (address ∷ prefix_raw ∷ _) = elim (number prefix_raw) [
  | none ↦ err invalid_range
  | some prefix ↦ if ltb prefix 1 || ltb 30 prefix then err invalid_range else ok (address, prefix)
]
range_parts _ = err invalid_range

unfoldable pub new_pool : Text → ℕ → Result PoolError FakeIpPool
new_pool range requested_size = do
  (address, prefix) ← range_parts (split b'/' range)
  base ← ipv4_to_number address
  pool_at base prefix requested_size

-- The loop of `next`. `is_used` is a call that may change the state `S` of the caller.
module _ {S : Type 0} (is_used : Text → S → Bool × S) where
  unfoldable pub next_loop : ℕ → FakeIpPool → S → Option Text × FakeIpPool × S
  next_loop zero p s = (none, p, s)
  next_loop (suc attempts) p s =
      let candidate = number_to_ipv4 ((p.first + p.cursor) % 4294967296) in
      let p' = record p { cursor = (p.cursor + 1) % p.capacity } in
      let (used, s') = is_used candidate s in
      let later = next_loop attempts p' s' in if used then later else (some candidate, p', s')

  unfoldable pub next : FakeIpPool → S → Option Text × FakeIpPool × S
  next p s = next_loop p.capacity p s

unfoldable pub pool_contains : FakeIpPool → Text → Result PoolError Bool
pool_contains p address = do
  value ← ipv4_to_number address
  ok (leb p.first value && ltb value (p.first + p.capacity))
