-- ===== src/Protocol/Address/RoundTrip.antt =====
-- protocol/address.ts: the parts of an address, written and read again.
use sepigs.Base.{
  ℕ, ◌+◌, ◌<◌, ◌≡◌, refl, ap, ◌≢◌, inl, inr, false, some, List, [], ◌∷◌, ◌++◌, map, arith, nat_eq,
  string_eq, Option-cases, length, get_elem?, take, drop, All, length-append, length-map,
}
use sepigs.Base.Text.{Text, split, join, Lacks, IsPart, split-join, split_pair-join}
use sepigs.Base.Digits.{decimal, to_hex, decimal-Lacks_dot, parse_group-to_hex, to_hex-IsPart}
use sepigs.Base.Numbers.{number-decimal}
use sepigs.Base.Result.{Result, ok, err}
use native.Mathlib.Nat.{add_assoc}
use sepigs.Base.Buffers.{get_elem?-skip, drop-skip}
use sepigs.Protocol.Destination.{Destination, Platform, dotted, colons}
use sepigs.Protocol.Address.{
  AddressError, decode_socks_address, decode_ipv4, decode_ipv6, decode_domain, subarray, read_port,
  group_bytes, ipv4_bytes, octets, ipv6_to_bytes, ipv6_parts, eight_groups, parse_ipv6_groups,
  groups_of,
}

-- The same outcome, read `n` bytes further on.
abbrev pub shifted :
    ℕ → Result AddressError (Destination × ℕ) → Result AddressError (Destination × ℕ)
shifted n (ok (d, next)) = ok (d, n + next)
shifted n (err e) = err e

module _ (p : Platform) (pre xs : List ℕ) where
  subarray-skip :
      (i j : ℕ) → subarray (pre ++ xs) (length pre + i) (length pre + j) ≡ subarray xs i j
  subarray-skip i j = rw (drop-skip pre xs i) (ap (λ n. take n (drop i xs)) (omega arith))

  pub read_port-skip : (i : ℕ) → read_port (pre ++ xs) (length pre + i) ≡ read_port xs i
  unfolding read_port
  read_port-skip i =
      ground
        (arith, get_elem?-skip pre xs i, get_elem?-skip pre xs (i + 1), add_assoc (length pre) i 1)

  decode_ipv4-skip :
      decode_ipv4 p (pre ++ xs) (length pre) ≡ shifted (length pre) (decode_ipv4 p xs 0)
  unfolding decode_ipv4
  decode_ipv4-skip = ground (arith, subarray-skip 1 5, read_port-skip 5, length-append pre xs)

  decode_ipv6-skip :
      decode_ipv6 p (pre ++ xs) (length pre) ≡ shifted (length pre) (decode_ipv6 p xs 0)
  unfolding decode_ipv6
  decode_ipv6-skip = ground (arith, subarray-skip 1 17, read_port-skip 17, length-append pre xs)

  decode_domain-skip :
      decode_domain p (pre ++ xs) (length pre) ≡ shifted (length pre) (decode_domain p xs 0)
  unfolding decode_domain
  decode_domain-skip = elim (Option-cases (get_elem? xs 1)) [
    | inl e ↦ ground (arith, get_elem?-skip pre xs 1)
    | inr (n, e) ↦ ground (
      arith,
      get_elem?-skip pre xs 1,
      subarray-skip 2 (2 + n),
      read_port-skip (2 + n),
      length-append pre xs,
      add_assoc (length pre) 2 n,
    )
  ]

  -- Where in a buffer an address stands does not matter.
  pub decode-skip :
      decode_socks_address p (pre ++ xs) (length pre)
      ≡ shifted (length pre) (decode_socks_address p xs 0)
  unfolding decode_socks_address
  decode-skip =
      ground
        (arith, get_elem?-skip pre xs 0, decode_ipv4-skip, decode_ipv6-skip, decode_domain-skip)

pub octets-decimal :
    (bytes : List ℕ) → All (λ b. b < 256) bytes → octets (map decimal bytes) ≡ some bytes
unfolding octets
octets-decimal [] h = refl
octets-decimal (b ∷ bs) (p, h) = ground (arith, number-decimal b, octets-decimal bs h)

decimal-parts : (bytes : List ℕ) → All (λ b. b < 256) bytes → All (Lacks b'.') (map decimal bytes)
decimal-parts [] h = tt
decimal-parts (b ∷ bs) (p, h) = (decimal-Lacks_dot b (omega arith), decimal-parts bs h)

pub ipv4_bytes-dotted :
    (bytes : List ℕ)
    → length bytes ≡ 4
    → All (λ b. b < 256) bytes
    → ipv4_bytes (dotted bytes) ≡ ok bytes
unfolding ipv4_bytes
ipv4_bytes-dotted (b ∷ bs) n h = ground (
  arith,
  split-join b'.' (decimal b) (map decimal bs) (decimal-parts (b ∷ bs) h),
  octets-decimal (b ∷ bs) h,
  length-map decimal bs,
)
ipv4_bytes-dotted [] n h = absurd (omega arith)

groups_of-to_hex : (gs : List ℕ) → All (λ g. g < 65536) gs → groups_of (map to_hex gs) ≡ ok gs
unfolding groups_of
groups_of-to_hex [] h = refl
groups_of-to_hex (g ∷ gs) (p, h) = ground (arith, parse_group-to_hex g p, groups_of-to_hex gs h)

hex-parts : (gs : List ℕ) → All (λ g. g < 65536) gs → All (IsPart b':') (map to_hex gs)
hex-parts [] h = tt
hex-parts (g ∷ gs) (p, h) = (to_hex-IsPart g p, hex-parts gs h)

parts-Lacks : (ps : List Text) → All (IsPart b':') ps → All (Lacks b':') ps
parts-Lacks [] h = tt
parts-Lacks (q ∷ ps) (p, h) = (p.0, parts-Lacks ps h)

parse_ipv6_groups-split : (t : Text) → t ≢ [] → parse_ipv6_groups t ≡ groups_of (split b':' t)
unfolding parse_ipv6_groups
parse_ipv6_groups-split [] h = absurd (h refl)
parse_ipv6_groups-split (c ∷ t) h = refl

join-ne-nil : (q : Text) (ps : List Text) → All (IsPart b':') (q ∷ ps) → join b':' (q ∷ ps) ≢ []
unfolding join
join-ne-nil q [] h = h.0.1
join-ne-nil [] (r ∷ ps) h = absurd (h.0.1 refl)
join-ne-nil (c ∷ q) (r ∷ ps) h = cc

eight_groups_plain : (gs : List ℕ) → length gs ≡ 8 → eight_groups false gs [] ≡ ok gs
unfolding eight_groups
eight_groups_plain gs n = ground arith

pub ipv6_to_bytes-colons :
    (gs : List ℕ)
    → length gs ≡ 8
    → All (λ g. g < 65536) gs
    → ipv6_to_bytes (colons gs) ≡ ok (group_bytes gs)
unfolding ipv6_to_bytes
ipv6_to_bytes-colons [] n h = absurd (omega arith)
ipv6_to_bytes-colons (g ∷ gs) n h =
    let parts = hex-parts (g ∷ gs) h in
    let apart = split_pair-join b':' (to_hex g) (map to_hex gs) parts in
    let split_groups =
      split-join b':' (to_hex g) (map to_hex gs) (parts-Lacks (map to_hex (g ∷ gs)) parts) in
    let entry =
      parse_ipv6_groups-split (colons (g ∷ gs)) (join-ne-nil (to_hex g) (map to_hex gs) parts) in
    rw (
      apart,
      ipv6_parts,
      entry,
      split_groups,
      groups_of-to_hex (g ∷ gs) h,
      eight_groups_plain (g ∷ gs) n,
    )
