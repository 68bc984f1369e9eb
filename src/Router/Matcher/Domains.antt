-- ===== src/Router/Matcher/Domains.antt =====
-- router/matcher.ts: suffixes against domains and subdomains.
use sepigs.Base.{
  ◌+◌, ◌-◌, ◌≡◌, sym, ap, ◌∙◌, ◌↔◌, ◌⊎◌, inl, inr, Bool, true, List, [], ◌∷◌, ◌++◌, arith, nat_eq,
  string_eq, Bool-cases, length, take, drop, any, length-append, drop-append, take-append-drop,
}
use sepigs.Base.Text.{Text, text_eq, text_eq_iff_to, text_eq_refl, text_key}
use sepigs.Router.Matcher.{
  normalize_domain, ends_with, without_dot, matches_suffix, matches_domain_suffix,
}

ends_with_lem : (t s : Text) → (ends_with t s ≡ true) ↔ ((pre : Text) × (t ≡ pre ++ s))
unfolding ends_with
ends_with_lem t s = (
  λ e.
      (let same : drop (length t - length s) t ≡ s =
          text_eq_iff_to (drop (length t - length s) t) s (ground (arith, e)) in
        (
          take (length t - length s) t,
          sym (take-append-drop (length t - length s) t)
              ∙ ap (◌++◌ (take (length t - length s) t)) same,
        )),
  λ h.
      (let (pre, e) = h in
        let size = length-append pre s in
        let total : length t ≡ length pre + length s = ap length e ∙ size in
        let front : length t - length s ≡ length pre = omega (arith, total) in
        let rest : drop (length t - length s) t ≡ s =
          ap (λ n. drop n t) front ∙ ap (drop (length pre)) e ∙ drop-append pre s in
        ground (arith, total, ap (λ u. text_eq u s) rest ∙ text_eq_refl s)),
)

-- Membership of a list.
pub data Among {A : Type 0} (x : A) : List A → Type 0 where
  here : {xs : List A} → Among x (x ∷ xs)
  later : {y : A} {xs : List A} → Among x xs → Among x (y ∷ xs)

-- Some element passes a test exactly when `any` says so.
any_found :
    (f : Text → Bool) (xs : List Text) → any f xs ≡ true → (x : Text) × Among x xs × (f x ≡ true)
any_found f [] e = absurd (cc e)
any_found f (y ∷ ys) e = elim (Bool-cases (f y)) [
  | inl h ↦ (y, here, h)
  | inr h ↦ (let (x, m, g) = any_found f ys (ground (arith, e, h)) in (x, later m, g))
]

any-Among :
    (f : Text → Bool) (x : Text) (xs : List Text) → Among x xs → f x ≡ true → any f xs ≡ true
any-Among f x [] m e = elim m [ ]
any-Among f x (y ∷ ys) here e = ground (arith, e)
any-Among f x (y ∷ ys) (later m) e = ground (arith, any-Among f x ys m e)

-- The suffixes of a rule match a host exactly when one of them, without its case, outer spaces and
-- leading dot, is the host or what stands behind one of the host's dots.
pub matches_domain_suffix_lem :
    (host : Text) (suffixes : List Text)
    → let h = normalize_domain host in
      (matches_domain_suffix host suffixes ≡ true) ↔ (
        (suffix : Text) × Among suffix suffixes
        × ((h ≡ without_dot (normalize_domain suffix))
            ⊎ ((sub : Text) × (h ≡ sub ++ b'.' ∷ without_dot (normalize_domain suffix)))))
unfolding matches_domain_suffix
matches_domain_suffix_lem host suffixes = (
  λ e.
      (let (suffix, m, g) = any_found (matches_suffix (normalize_domain host)) suffixes e in
        (suffix, m, (one suffix).0 g)),
  λ e.
      (let (suffix, m, g) = e in
        any-Among (matches_suffix (normalize_domain host)) suffix suffixes m ((one suffix).1 g)),
)
  where
    one :
        (suffix : Text)
        → (matches_suffix (normalize_domain host) suffix ≡ true) ↔ (
            (normalize_domain host ≡ without_dot (normalize_domain suffix))
            ⊎ ((sub : Text) × (normalize_domain host
                  ≡ sub ++ b'.' ∷ without_dot (normalize_domain suffix))))
    one suffix =
        let h = normalize_domain host in
        let s = without_dot (normalize_domain suffix) in
        (
          λ e. elim (Bool-cases (text_eq h s)) [
            | inl f ↦ inl (text_eq_iff_to h s f)
            | inr f ↦ inr ((ends_with_lem h (b'.' ∷ s)).0 (ground (arith, e, f)))
          ],
          λ e. elim e [
            | inl f ↦ ground (arith, ap (λ u. text_eq u s) f ∙ text_eq_refl s)
            | inr f ↦ ground (arith, (ends_with_lem h (b'.' ∷ s)).1 f)
          ],
        )
