-- ===== src/Protocol/Address/Bounds.antt =====
-- protocol/address.ts: the decoder on any buffer.
use sepigs.Base.{
  ℕ, zero, suc, ◌+◌, ◌≤◌, ◌<◌, ◌≡◌, refl, subst, ◌⊎◌, inl, inr, none, some, List, [], ◌∷◌, arith,
  ◌==◌, if◌then◌else◌, nat_eq, string_eq, Option-cases, length, get_elem?, take, All, length-take,
}
use sepigs.Base.Result.{Result, ok, err}
use sepigs.Protocol.Destination.{Destination, Platform, make_destination}
use sepigs.Protocol.Address.{
  AddressError, decode_socks_address, decode_ipv4, decode_ipv6, decode_domain, read_port,
}

get_elem?-All :
    (P : ℕ → Type 0) (xs : List ℕ) (i : ℕ) {a : ℕ} → All P xs → get_elem? xs i ≡ some a → P a
get_elem?-All P [] i h e = cc
get_elem?-All P (x ∷ xs) zero {a} h e = subst P (ground arith) h.0
get_elem?-All P (x ∷ xs) (suc i) h e = get_elem?-All P xs i h.1 e

read_port_lt :
    (buffer : List ℕ) (i port : ℕ)
    → All (λ b. b < 256) buffer
    → read_port buffer i ≡ ok port
    → port < 65536
unfolding read_port
read_port_lt buffer i port h e = elim (Option-cases (get_elem? buffer i)) [
  | inl missing ↦ ground arith
  | inr (high, eh) ↦ elim (Option-cases (get_elem? buffer (i + 1))) [
    | inl missing ↦ ground arith
    | inr (low, el) ↦ ground (
      arith,
      get_elem?-All (λ b. b < 256) buffer i h eh,
      get_elem?-All (λ b. b < 256) buffer (i + 1) h el,
    )
  ]
]

read_port_cases :
    (buffer : List ℕ) (i : ℕ)
    → All (λ b. b < 256) buffer
    → ((e : AddressError) × (read_port buffer i ≡ err e))
      ⊎ ((port : ℕ) × (read_port buffer i ≡ ok port) × (port < 65536))
read_port_cases buffer i h = split_on (read_port buffer i) refl
  where
    split_on :
        (r : Result AddressError ℕ)
        → read_port buffer i ≡ r
        → ((e : AddressError) × (read_port buffer i ≡ err e))
          ⊎ ((port : ℕ) × (read_port buffer i ≡ ok port) × (port < 65536))
    split_on (ok port) e = inr (port, e, read_port_lt buffer i port h e)
    split_on (err x) e = inl (x, e)

-- Where an address ends, by its first bytes alone.
abbrev end_of : List ℕ → ℕ → ℕ
end_of buffer offset = elim (get_elem? buffer offset) [
  | none ↦ 0
  | some t ↦
      if t == 1
      then offset + 7
      else if t == 3
      then (elim (get_elem? buffer (offset + 1)) [ none ↦ 0 | some n ↦ offset + 4 + n ])
      else if t == 4
      then offset + 19
      else 0
]

module _ (p : Platform) (buffer : List ℕ) (offset : ℕ) {d : Destination} {next : ℕ} where
  decode_end :
      decode_socks_address p buffer offset ≡ ok (d, next)
      → (next ≡ end_of buffer offset) × (offset + 4 < next) × (next ≤ length buffer)
  unfolding decode_socks_address decode_ipv4 decode_ipv6 decode_domain read_port
  decode_end e = ground arith

  decode_port :
      All (λ b. b < 256) buffer
      → decode_socks_address p buffer offset ≡ ok (d, next)
      → d.port < 65536
  unfolding decode_socks_address decode_ipv4 decode_ipv6 decode_domain make_destination
  decode_port h e = elim (Option-cases (get_elem? buffer (offset + 1))) [
    | inl none_there ↦
        ground
          (arith, read_port_cases buffer (offset + 5) h, read_port_cases buffer (offset + 17) h)
    | inr (n, at) ↦ ground (
      arith,
      read_port_cases buffer (offset + 5) h,
      read_port_cases buffer (offset + 17) h,
      read_port_cases buffer (offset + 2 + n) h,
    )
  ]

  -- A decoded address ends inside the buffer and has a port of 16 bits.
  pub decode_bounds :
      All (λ b. b < 256) buffer
      → decode_socks_address p buffer offset ≡ ok (d, next)
      → (offset + 4 < next) × (next ≤ length buffer) × (d.port < 65536)
  decode_bounds h e = ((decode_end e).1, (decode_end e).2, decode_port h e)

get_elem?-take :
    (buffer : List ℕ) (k i : ℕ) → i < k → get_elem? (take k buffer) i ≡ get_elem? buffer i
get_elem?-take [] zero i h = absurd (omega arith)
get_elem?-take [] (suc k) i h = refl
get_elem?-take (x ∷ xs) zero i h = absurd (omega arith)
get_elem?-take (x ∷ xs) (suc k) zero h = refl
get_elem?-take (x ∷ xs) (suc k) (suc i) h = get_elem?-take xs k i (omega arith)

end_of-take :
    (buffer : List ℕ) (offset k : ℕ)
    → offset + 1 < k
    → end_of (take k buffer) offset ≡ end_of buffer offset
end_of-take buffer offset k h =
    ground (arith, get_elem?-take buffer k offset, get_elem?-take buffer k (offset + 1))

-- Cut anywhere before its end, a buffer whose address could be decoded gives an error: a truncated
-- address is never taken for another one.
pub decode_truncated :
    (p : Platform) (buffer : List ℕ) (offset k : ℕ) (d : Destination) (next : ℕ)
    → decode_socks_address p buffer offset ≡ ok (d, next)
    → k < next
    → (e : AddressError) × (decode_socks_address p (take k buffer) offset ≡ err e)
decode_truncated p buffer offset k d next e h =
    split_on (decode_socks_address p (take k buffer) offset) refl
  where
    split_on :
        (r : Result AddressError (Destination × ℕ))
        → decode_socks_address p (take k buffer) offset ≡ r
        → (e : AddressError) × (decode_socks_address p (take k buffer) offset ≡ err e)
    split_on (err x) q = (x, q)
    split_on (ok (d', next')) q =
        let whole = decode_end p buffer offset e in
        let part = decode_end p (take k buffer) offset q in
        absurd (omega (arith, whole, part, end_of-take buffer offset k, length-take k buffer))
