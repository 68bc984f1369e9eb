-- ===== src/Dns/FakeIpPool/Range.antt =====
-- dns/fakeIpPool.ts: the addresses of a pool and their texts.
use sepigs.Base.{
  ℕ, zero, suc, ◌+◌, ◌-◌, ◌*◌, ◌/◌, ◌%◌, ◌^◌, ◌≤◌, ◌<◌, min, ◌≡◌, refl, ap, ◌∙◌, subst, inl, inr,
  true, some, List, [], ◌∷◌, map, arith, ltb, if◌then◌else◌, nat_eq, string_eq, Option-cases,
  if_either, length, All, length-map,
}
use sepigs.Base.Text.{Text, split, Lacks, split-join, text_key}
use sepigs.Base.Digits.{decimal, decimal-Lacks_dot}
use sepigs.Base.Numbers.{number}
use sepigs.Base.Result.{Result, ok, err, ◌>>=◌, bind-ok}
use native.Mathlib.Nat.{div-mul-le_self, lt_of_mul-lt-mul_right, mul-le-mul_right, mul_assoc}
use native.Mathlib.Omega.{pow_step}
use sepigs.Protocol.Address.{octets}
use sepigs.Protocol.Address.RoundTrip.{octets-decimal}
use sepigs.Protocol.Destination.{dotted}
use sepigs.Dns.FakeIpPool.{
  FakeIpPool, PoolError, no_addresses, ipv4_to_number, number_to_ipv4, ipv4_parts, bytes_value,
  pool_at, range_parts, new_pool, pool_contains,
}

pub record IsPool (p : FakeIpPool) : Type 0 where
  pub some_addresses : 1 ≤ p.capacity
  pub inside : p.cursor < p.capacity
  pub within : p.first + p.capacity ≤ 4294967296

-- One of the addresses that the pool hands out.
abbrev pub InPool : FakeIpPool → Text → Type 0
InPool p a = (c : ℕ) × (c < p.capacity) × (a ≡ number_to_ipv4 (p.first + c))

decimal_parts-Lacks :
    (bytes : List ℕ) → All (λ b. b < 256) bytes → All (Lacks b'.') (map decimal bytes)
decimal_parts-Lacks [] h = tt
decimal_parts-Lacks (b ∷ bs) (p, h) = (decimal-Lacks_dot b (omega arith), decimal_parts-Lacks bs h)

ipv4_to_number-dotted :
    (b : ℕ) (bs : List ℕ)
    → length bs ≡ 3
    → All (λ x. x < 256) (b ∷ bs)
    → ipv4_to_number (dotted (b ∷ bs)) ≡ ok (bytes_value (b ∷ bs))
unfolding ipv4_to_number
ipv4_to_number-dotted b bs n h = ground (
  arith,
  split-join b'.' (decimal b) (map decimal bs) (decimal_parts-Lacks (b ∷ bs) h),
  octets-decimal (b ∷ bs) h,
  length-map decimal bs,
)

-- The text of a 32-bit value reads as that value.
pub ipv4_to_number-number_to_ipv4 :
    (value : ℕ) → value < 4294967296 → ipv4_to_number (number_to_ipv4 value) ≡ ok value
unfolding number_to_ipv4
ipv4_to_number-number_to_ipv4 value h =
    let small : All (λ b. b < 256) (ipv4_parts value) =
      (omega arith, (omega arith, (omega arith, (omega arith, tt)))) in
    let same : bytes_value (ipv4_parts value) ≡ value = omega arith in
    ipv4_to_number-dotted (value / 16777216)
      ((value / 65536 % 256) ∷ (value / 256 % 256) ∷ (value % 256) ∷ []) refl small
    ∙ ap ok same

pow_split : (a b : ℕ) → 2 ^ a * 2 ^ b ≡ 2 ^ (a + b)
pow_split zero b = let same : 0 + b ≡ b = omega arith in rw same (omega arith)
pow_split (suc a) b =
    let same : suc a + b ≡ suc (a + b) = omega arith in
    rw (same, pow_step 2 a, pow_step 2 (a + b))
      (mul_assoc 2 (2 ^ a) (2 ^ b) ∙ ap (◌*◌ 2) (pow_split a b))

-- The block of a prefix that holds a 32-bit address lies within 32 bits.
block_end :
    (base prefix : ℕ)
    → base < 4294967296
    → prefix ≤ 30
    → base / 2 ^ (32 - prefix) * 2 ^ (32 - prefix) + 2 ^ (32 - prefix) ≤ 4294967296
block_end base prefix h m =
    let block = 2 ^ (32 - prefix) in
    let whole : 2 ^ prefix * block ≡ 4294967296 =
      (let same : prefix + (32 - prefix) ≡ 32 = omega arith in
        pow_split prefix (32 - prefix) ∙ ap (◌^◌ 2) same) in
    let below : base / block < 2 ^ prefix =
      lt_of_mul-lt-mul_right block (omega (arith, div-mul-le_self base block, whole)) in
    let most : suc (base / block) * block ≤ 2 ^ prefix * block = mul-le-mul_right block below in
    omega (arith, most, whole)

octets_small :
    (ps : List Text) (bytes : List ℕ)
    → octets ps ≡ some bytes
    → All (λ b. b < 256) bytes × (length bytes ≡ length ps)
unfolding octets
octets_small [] bytes e = ground (arith, e)
octets_small (p ∷ ps) bytes e = elim (Option-cases (number p)) [
  | inl f ↦ absurd (ground (arith, e, f))
  | inr (v, f) ↦ elim (Option-cases (octets ps)) [
    | inl g ↦ absurd (ground (arith, e, f, g))
    | inr (vs, g) ↦ ground (arith, e, f, g, octets_small ps vs g)
  ]
]

bytes_value-bound :
    (bytes : List ℕ) → All (λ b. b < 256) bytes → length bytes ≡ 4 → bytes_value bytes < 4294967296
bytes_value-bound (a ∷ b ∷ c ∷ d ∷ []) (h, (i, (j, (k, _)))) e = omega arith
bytes_value-bound [] h e = absurd (omega arith)
bytes_value-bound (_ ∷ []) h e = absurd (omega arith)
bytes_value-bound (_ ∷ _ ∷ []) h e = absurd (omega arith)
bytes_value-bound (_ ∷ _ ∷ _ ∷ []) h e = absurd (omega arith)
bytes_value-bound (_ ∷ _ ∷ _ ∷ _ ∷ _ ∷ _) h e = absurd (omega arith)

ipv4_to_number-bound : (t : Text) (v : ℕ) → ipv4_to_number t ≡ ok v → v < 4294967296
unfolding ipv4_to_number
ipv4_to_number-bound t v e = elim (Option-cases (octets (split b'.' t))) [
  | inl f ↦ absurd (ground (arith, e, f))
  | inr (bytes, f) ↦
      (let (small, n) = octets_small (split b'.' t) bytes f in
        ground (arith, e, f, n, bytes_value-bound bytes small))
]

pool_at-IsPool :
    (base prefix size : ℕ) (p : FakeIpPool)
    → base < 4294967296
    → prefix ≤ 30
    → pool_at base prefix size ≡ ok p
    → IsPool p
pool_at-IsPool base prefix size p h m e =
    let block = 2 ^ (32 - prefix) in
    let network = base / block * block in
    let fits = block_end base prefix h m in made network block fits e
  where
    made :
        (network block : ℕ)
        → network + block ≤ 4294967296
        → (if ltb (min size (block - 2)) 1
            then err no_addresses
            else ok (record {
              first = (network + 1) % 4294967296;
              capacity = min size (block - 2);
              cursor = 0;
            }))
          ≡ ok p
        → IsPool p
    made network block fits =
        if_either (λ (r : Result PoolError FakeIpPool). r ≡ ok p → IsPool p)
          (ltb (min size (block - 2)) 1) (λ f g. absurd (cc g))
          (λ f g.
            (let pool : FakeIpPool = record {
              first = (network + 1) % 4294967296;
              capacity = min size (block - 2);
              cursor = 0;
            } in
              let same : pool ≡ p = cc g in
              subst IsPool same (record {
                some_addresses = ground (arith, f);
                inside = ground (arith, f);
                within = ground (arith, f, fits);
              })))

range_parts-bound :
    (parts : List Text) (a : Text) (prefix : ℕ) → range_parts parts ≡ ok (a, prefix) → prefix ≤ 30
range_parts-bound [] a prefix e = absurd (cc e)
range_parts-bound (_ ∷ []) a prefix e = absurd (cc e)
range_parts-bound (t ∷ raw ∷ _) a prefix e = elim (Option-cases (number raw)) [
  | inl f ↦ absurd (ground (arith, e, f))
  | inr (n, f) ↦ ground (arith, e, f)
]

-- A pool that could be made has an address, and its addresses are 32-bit values.
pub new_pool-IsPool :
    (range : Text) (size : ℕ) (p : FakeIpPool) → new_pool range size ≡ ok p → IsPool p
unfolding new_pool
new_pool-IsPool range size p e =
    let ((a, prefix), f, g) =
      bind-ok (range_parts (split b'/' range))
        (λ (t : Text × ℕ). ipv4_to_number (t.0) >>= (λ base. pool_at base (t.1) size)) e in
    let (base, h, k) = bind-ok (ipv4_to_number a) (λ base. pool_at base prefix size) g in
    pool_at-IsPool base prefix size p (ipv4_to_number-bound a base h)
      (range_parts-bound (split b'/' range) a prefix f) k

-- An address that the pool hands out is one that it contains.
pub pool_contains-InPool :
    (p : FakeIpPool) (a : Text) → IsPool p → InPool p a → pool_contains p a ≡ ok true
unfolding pool_contains
pool_contains-InPool p a w (c, h, e) =
    let read = ipv4_to_number-number_to_ipv4 (p.first + c) (omega (arith, w.within)) in
    ground (arith, e, read, h)
