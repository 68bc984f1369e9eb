-- ===== src/Router/Matcher/Addresses.antt =====
-- router/matcher.ts: the values that the address parsers give.
use sepigs.Base.{
  ℕ, ◌^◌, ◌<◌, ◌≡◌, subst, inl, inr, false, Option, none, some, List, [], ◌∷◌, arith, ltb, ◌==◌,
  nat_eq, string_eq, Bool-cases, Option-cases, length, any, All,
}
use sepigs.Base.Text.{Text, split, text_key}
use sepigs.Base.Numbers.{number}
use sepigs.Base.Options.{◌>>=◌, bind-some}
use sepigs.Protocol.Destination.{Platform}
use sepigs.Router.Matcher.{
  ipv4_part, ipv4_values, joined, parse_ipv4, all_groups, joined_groups, parse_ipv6, IpVersion,
  version_4, version_6, parse_ip, bits_of,
}

ipv4_part-bound : (t : Text) (v : ℕ) → ipv4_part t ≡ some v → v < 256
ipv4_part-bound t v e = elim (Option-cases (number t)) [
  | inl f ↦ absurd (ground (arith, e, f))
  | inr (n, f) ↦ ground (arith, e, f)
]

ipv4_values-bound :
    (ps : List Text) (vs : List ℕ)
    → ipv4_values ps ≡ some vs
    → All (λ v. v < 256) vs × (length vs ≡ length ps)
unfolding ipv4_values
ipv4_values-bound [] vs e = ground (arith, e)
ipv4_values-bound (p ∷ ps) vs e =
    let (v, f, g) = bind-some (ipv4_part p) (λ v. ipv4_values ps >>= (λ vs. some (v ∷ vs))) e in
    let (ws, h, k) = bind-some (ipv4_values ps) (λ vs. some (v ∷ vs)) g in
    ground (arith, k, ipv4_part-bound p v f, ipv4_values-bound ps ws h)

joined_4 : (vs : List ℕ) → All (λ v. v < 256) vs → length vs ≡ 4 → joined 256 0 vs < 4294967296
joined_4 (a ∷ b ∷ c ∷ d ∷ []) (h, (i, (j, (k, _)))) e = omega arith
joined_4 [] h e = absurd (omega arith)
joined_4 (_ ∷ []) h e = absurd (omega arith)
joined_4 (_ ∷ _ ∷ []) h e = absurd (omega arith)
joined_4 (_ ∷ _ ∷ _ ∷ []) h e = absurd (omega arith)
joined_4 (_ ∷ _ ∷ _ ∷ _ ∷ _ ∷ _) h e = absurd (omega arith)

parse_ipv4-bound : (t : Text) (v : ℕ) → parse_ipv4 t ≡ some v → v < 4294967296
unfolding parse_ipv4
parse_ipv4-bound t v e = elim (Bool-cases (length (split b'.' t) == 4)) [
  | inr f ↦ absurd (ground (arith, e, f))
  | inl f ↦
      (let some_values : (ipv4_values (split b'.' t) >>= (λ vs. some (joined 256 0 vs))) ≡ some v =
          ground (arith, e, f) in
        let (vs, h, k) =
          bind-some (ipv4_values (split b'.' t)) (λ vs. some (joined 256 0 vs)) some_values in
        let (small, n) = ipv4_values-bound (split b'.' t) vs h in
        ground (arith, k, f, n, joined_4 vs small))
]

small_groups : (gs : List ℕ) → any (λ g. ltb 65535 g) gs ≡ false → All (λ g. g < 65536) gs
small_groups [] e = tt
small_groups (g ∷ gs) e = ground (arith, e, small_groups gs)

joined_8 : (gs : List ℕ) → All (λ g. g < 65536) gs → length gs ≡ 8 → joined 65536 0 gs < 2 ^ 128
joined_8 (a ∷ b ∷ c ∷ d ∷ e ∷ f ∷ g ∷ h ∷ []) (p, (q, (r, (s, (t, (u, (v, (w, _)))))))) n =
    omega arith
joined_8 [] h e = absurd (omega arith)
joined_8 (_ ∷ []) h e = absurd (omega arith)
joined_8 (_ ∷ _ ∷ []) h e = absurd (omega arith)
joined_8 (_ ∷ _ ∷ _ ∷ []) h e = absurd (omega arith)
joined_8 (_ ∷ _ ∷ _ ∷ _ ∷ []) h e = absurd (omega arith)
joined_8 (_ ∷ _ ∷ _ ∷ _ ∷ _ ∷ []) h e = absurd (omega arith)
joined_8 (_ ∷ _ ∷ _ ∷ _ ∷ _ ∷ _ ∷ []) h e = absurd (omega arith)
joined_8 (_ ∷ _ ∷ _ ∷ _ ∷ _ ∷ _ ∷ _ ∷ []) h e = absurd (omega arith)
joined_8 (_ ∷ _ ∷ _ ∷ _ ∷ _ ∷ _ ∷ _ ∷ _ ∷ _ ∷ _) h e = absurd (omega arith)

joined_groups-bound : (gs : List ℕ) (v : ℕ) → joined_groups gs ≡ some v → v < 2 ^ 128
unfolding joined_groups
joined_groups-bound gs v e = elim (Bool-cases (length gs == 8)) [
  | inr f ↦ absurd (ground (arith, e, f))
  | inl f ↦ elim (Bool-cases (any (λ g. ltb 65535 g) gs)) [
    | inl h ↦ absurd (ground (arith, e, f, h))
    | inr h ↦
        (let bound = joined_8 gs (small_groups gs h) (ground (arith, f)) in
          let same : joined 65536 0 gs ≡ v = ground (arith, e, f, h) in
          subst (λ n. n < 2 ^ 128) same bound)
  ]
]

parse_ipv6-bound : (t : Text) (v : ℕ) → parse_ipv6 t ≡ some v → v < 2 ^ 128
unfolding parse_ipv6
parse_ipv6-bound t v e =
    let (gs, f, g) = bind-some (all_groups _) (λ gs. joined_groups gs) e in
    joined_groups-bound gs v g

abbrev Fits : Option (IpVersion × ℕ) → Type 0
Fits none = Unit
Fits (some (version, v)) = v < 2 ^ bits_of version

fits_some :
    (version : IpVersion) (n : ℕ) (other : IpVersion) (v : ℕ)
    → ◌≡◌ {A = Option (IpVersion × ℕ)} (some (version, n)) (some (other, v))
    → n < 2 ^ bits_of version
    → v < 2 ^ bits_of other
fits_some version n other v e h = subst Fits e h

-- A parsed address is a value of its version's width.
pub parse_ip-bound :
    (p : Platform) (t : Text) (version : IpVersion) (v : ℕ)
    → parse_ip p t ≡ some (version, v)
    → v < 2 ^ bits_of version
unfolding parse_ip
parse_ip-bound p t version v e = elim (Bool-cases (p.is_ip t == 4)) [
  | inl f ↦
      (let made : ℕ → Option (IpVersion × ℕ) = λ n. some (version_4, n) in
        let chain : (parse_ipv4 t >>= made) ≡ some (version, v) = ground (arith, e, f) in
        let (n, g, h) = bind-some (parse_ipv4 t) made chain in
        let same : made n ≡ some (version, v) = h in
        fits_some version_4 n version v same (parse_ipv4-bound t n g))
  | inr f ↦ elim (Bool-cases (p.is_ip t == 6)) [
    | inr k ↦ absurd (ground (arith, e, f, k))
    | inl k ↦
        (let made : ℕ → Option (IpVersion × ℕ) = λ n. some (version_6, n) in
          let chain : (parse_ipv6 t >>= made) ≡ some (version, v) = ground (arith, e, f, k) in
          let (n, g, h) = bind-some (parse_ipv6 t) made chain in
          let same : made n ≡ some (version, v) = h in
          fits_some version_6 n version v same (parse_ipv6-bound t n g))
  ]
]
