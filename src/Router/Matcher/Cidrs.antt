-- ===== src/Router/Matcher/Cidrs.antt =====
-- router/matcher.ts: CidrMatcher against blocks of addresses.
use sepigs.Base.{
  ℕ, zero, suc, ◌+◌, ◌-◌, ◌*◌, ◌/◌, ◌^◌, ◌≤◌, ◌<◌, ◌≡◌, refl, sym, ap, ◌∙◌, subst, ◌↔◌, inl, inr,
  true, Option, none, some, List, [], ◌∷◌, arith, ltb, ◌==◌, nat_eq, string_eq, Bool-cases,
  Option-cases, if_either,
}
use sepigs.Base.Text.{Text, split, text_key}
use sepigs.Base.Numbers.{number}
use sepigs.Base.Result.{Result, ok}
use native.Mathlib.Nat.{div-mul-le_self, lt_of_mul-lt-mul_right, lt-div-mul-add}
use native.Mathlib.Omega.{pow_step}
use sepigs.Protocol.Destination.{Platform}
use sepigs.Router.Matcher.{
  IpVersion, version_4, version_6, same_version, parse_ip, CidrMatcher, CidrError, bits_of,
  cidr_matcher, cidr_parts, new_cidr_matcher, matches_value, matches,
}
use sepigs.Router.Matcher.Addresses.{parse_ip-bound}

pow-pos : (n : ℕ) → 0 < 2 ^ n
pow-pos zero = omega arith
pow-pos (suc n) = omega (arith, pow_step 2 n, pow-pos n)

-- Two numbers have one quotient exactly when the first lies in the block of the second.
same_quotient : (x n b : ℕ) → 0 < b → (x / b ≡ n / b) ↔ ((n / b * b ≤ x) × (x < n / b * b + b))
same_quotient x n b p = (
  λ e. (
    omega (arith, div-mul-le_self x b, ap (λ q. q * b) e),
    omega (arith, lt-div-mul-add {a = x} p, ap (λ q. q * b) e),
  ),
  λ h.
      (let low : x / b < suc (n / b) =
          lt_of_mul-lt-mul_right b (omega (arith, div-mul-le_self x b, h)) in
        let high : n / b < suc (x / b) =
          lt_of_mul-lt-mul_right b (omega (arith, lt-div-mul-add {a = x} p, h)) in
        omega (arith, low, high)),
)

-- What a matcher that could be made is made of.
pub record IsCidr (m : CidrMatcher) : Type 0 where
  pub width : m.bits ≡ bits_of m.version
  pub prefix_fits : m.prefix ≤ m.bits
  pub network_fits : m.network < 2 ^ m.bits

cidr_matcher-IsCidr :
    (prefix : Option ℕ) (parsed : IpVersion × ℕ) (m : CidrMatcher)
    → (parsed.1 < 2 ^ bits_of (parsed.0))
    → cidr_matcher prefix parsed ≡ ok m
    → IsCidr m
cidr_matcher-IsCidr none parsed m h e = absurd (cc e)
cidr_matcher-IsCidr (some prefix) (version, network) m h e₀ =
    if_either (λ (r : Result CidrError CidrMatcher). r ≡ ok m → IsCidr m)
      (ltb (bits_of version) prefix) (λ f e. absurd (cc e))
      (λ f e.
        (let made : CidrMatcher = record {
          version = version;
          network = network;
          prefix = prefix;
          bits = bits_of version;
        } in
          let same : made ≡ m = cc e in
          subst IsCidr same
            (record { width = refl; prefix_fits = ground (arith, f); network_fits = h })))
      e₀

cidr_parts-IsCidr :
    (p : Platform) (parts : List Text) (m : CidrMatcher) → cidr_parts p parts ≡ ok m → IsCidr m
cidr_parts-IsCidr p [] m e = absurd (cc e)
cidr_parts-IsCidr p (_ ∷ []) m e = absurd (cc e)
cidr_parts-IsCidr p (_ ∷ _ ∷ _ ∷ _) m e = absurd (cc e)
cidr_parts-IsCidr p (address ∷ prefix ∷ []) m e = elim (Option-cases (parse_ip p address)) [
  | inl f ↦ absurd (ground (arith, e, f))
  | inr (parsed, f) ↦
      cidr_matcher-IsCidr (number prefix) parsed m
        (parse_ip-bound p address (parsed.0) (parsed.1) f) (ground (arith, e, f))
]

same_version_iff : (a b : IpVersion) → (same_version a b ≡ true) ↔ (a ≡ b)
same_version_iff version_4 version_4 = (λ e. refl, λ e. refl)
same_version_iff version_6 version_6 = (λ e. refl, λ e. refl)
same_version_iff version_4 version_6 = (λ e. absurd (cc e), λ e. absurd (cc e))
same_version_iff version_6 version_4 = (λ e. absurd (cc e), λ e. absurd (cc e))

-- A prefix of no bits: the block is everything.
whole_block :
    (m : CidrMatcher) (x : ℕ)
    → IsCidr m
    → m.prefix ≡ 0
    → x < 2 ^ m.bits
    → let block = 2 ^ (m.bits - m.prefix) in
      let low = m.network / block * block in (low ≤ x) × (x < low + block)
whole_block m x w e h =
    let same : m.bits - m.prefix ≡ m.bits = omega (arith, e) in
    let none_left : m.network / 2 ^ m.bits < 1 =
      lt_of_mul-lt-mul_right (2 ^ m.bits)
        (omega (arith, div-mul-le_self m.network (2 ^ m.bits), w.network_fits)) in
    let zero_low : m.network / 2 ^ m.bits * 2 ^ m.bits ≡ 0 =
      ap (λ q. q * 2 ^ m.bits)
        (let none : m.network / 2 ^ m.bits ≡ 0 = omega (arith, none_left) in none)
      ∙ omega arith in
    rw same (omega (arith, zero_low), omega (arith, zero_low, h))

matches_value-block :
    (m : CidrMatcher) (version : IpVersion) (x : ℕ)
    → IsCidr m
    → x < 2 ^ bits_of version
    → let block = 2 ^ (m.bits - m.prefix) in
      let low = m.network / block * block in
      (matches_value m (some (version, x)) ≡ true)
      ↔ ((version ≡ m.version) × (low ≤ x) × (x < low + block))
matches_value-block m version x w h =
    let block = 2 ^ (m.bits - m.prefix) in
    let in_block = same_quotient x m.network block (pow-pos (m.bits - m.prefix)) in
    elim (Bool-cases (same_version version m.version)) [
      | inr f ↦ (
        λ e. absurd (ground (arith, e, f)),
        λ e. absurd (cc (f, (same_version_iff version m.version).1 (e.0))),
      )
      | inl f ↦
          (let same = (same_version_iff version m.version).0 f in
            let fits : x < 2 ^ m.bits = subst (λ n. x < 2 ^ n) (ap bits_of same ∙ sym w.width) h in
            elim (Bool-cases (m.prefix == 0)) [
              | inl g ↦ (
                λ e. (let (a, b) = whole_block m x w (ground (arith, g)) fits in (same, a, b)),
                λ e. ground (arith, f, g),
              )
              | inr g ↦ (
                λ e. (let (a, b) = in_block.0 (ground (arith, e, f, g)) in (same, a, b)),
                λ e. (let q = in_block.1 (e.1, e.2) in ground (arith, f, g, q)),
              )
            ])
    ]

-- A matcher that was made of a text matches a host exactly when the host is an address of the matcher's
-- version in the block of its prefix: from the network with the other bits cleared, as many addresses as
-- these bits can count.
pub matches_iff :
    (p : Platform) (cidr host : Text) (m : CidrMatcher)
    → new_cidr_matcher p cidr ≡ ok m
    → let block = 2 ^ (m.bits - m.prefix) in
      let low = m.network / block * block in
      (matches p m host ≡ true)
      ↔ ((x : ℕ) × (parse_ip p host ≡ some (m.version, x)) × (low ≤ x) × (x < low + block))
unfolding new_cidr_matcher matches
matches_iff p cidr host m made = elim (Option-cases (parse_ip p host)) [
  | inl f ↦ (λ e. absurd (ground (arith, e, f)), λ e. absurd (cc (f, e.1)))
  | inr (parsed, f) ↦ (
    λ e.
        (let found = (here parsed f).0 (ap (matches_value m) (sym f) ∙ e) in
          (parsed.1, f ∙ ap (λ v. some (v, parsed.1)) (found.0), found.1, found.2)),
    λ e.
        (let (x, g, low, high) = e in
          let same : parsed ≡ (m.version, x) = cc (f, g) in
          ap (matches_value m) f
          ∙ (here parsed f).1 (
            ap (λ (q : IpVersion × ℕ). q.0) same,
            subst (λ n. _ ≤ n) (sym (ap (λ (q : IpVersion × ℕ). q.1) same)) low,
            subst (λ n. n < _) (sym (ap (λ (q : IpVersion × ℕ). q.1) same)) high,
          )),
  )
]
  where
    here :
        (parsed : IpVersion × ℕ)
        → parse_ip p host ≡ some parsed
        → let block = 2 ^ (m.bits - m.prefix) in
          let low = m.network / block * block in
          (matches_value m (some parsed) ≡ true)
          ↔ ((parsed.0 ≡ m.version) × (low ≤ parsed.1) × (parsed.1 < low + block))
    here parsed f =
        matches_value-block m (parsed.0) (parsed.1) (cidr_parts-IsCidr p (split b'/' cidr) m made)
          (parse_ip-bound p host (parsed.0) (parsed.1) f)
