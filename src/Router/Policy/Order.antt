-- ===== src/Router/Policy/Order.antt =====
-- The order of the candidates of router/policy.ts.
use sepigs.Base.{
  ℕ, ◌+◌, ◌≡◌, refl, sym, ap, ◌∙◌, subst, inl, inr, Bool, true, false, not, ◌&&◌, List, [], ◌∷◌,
  ◌++◌, arith, if◌then◌else◌, nat_eq, string_eq, Bool-cases, filter, All, All-append, All-filter,
}
use sepigs.Base.Text.{Text, text_eq, text_eq_iff_to, text_eq_refl, text_key}
use sepigs.Router.Matcher.{includes}
use sepigs.Config.References.Sound.{IsDistinct}
use sepigs.Router.Policy.Healthy.{filter_same}

-- How often a tag stands in a list.
abbrev pub count : Text → List Text → ℕ
count t [] = 0
count t (x ∷ xs) = (if text_eq x t then 1 else 0) + count t xs

count-append : (t : Text) (xs ys : List Text) → count t (xs ++ ys) ≡ count t xs + count t ys
count-append t [] ys = omega arith
count-append t (x ∷ xs) ys = ground (arith, count-append t xs ys)

count-filter :
    (t : Text) (p : Text → Bool) (xs : List Text)
    → count t (filter p xs) + count t (filter (λ x. not (p x)) xs) ≡ count t xs
count-filter t p [] = omega arith
count-filter t p (x ∷ xs) = ground (arith, count-filter t p xs)

includes-filter :
    (p : Text → Bool) (xs : List Text) (t : Text)
    → includes (filter p xs) t ≡ (p t && includes xs t)
includes-filter p [] t = ground arith
includes-filter p (x ∷ xs) t =
    ground (arith, includes-filter p xs t, text_key.beq_iff x t, ap p {x = x} {y = t})

Within : List Text → List Text → Type 0
Within all xs = All (λ t. includes all t ≡ true) xs

Within-cons : (a : Text) (all xs : List Text) → Within all xs → Within (a ∷ all) xs
unfolding Within
Within-cons a all [] h = tt
Within-cons a all (x ∷ xs) (e, h) = (ground arith, Within-cons a all xs h)

Within-self : (xs : List Text) → Within xs xs
unfolding Within
Within-self [] = tt
Within-self (x ∷ xs) = (ground (arith, text_eq_refl x), Within-cons x xs xs (Within-self xs))

filtered_out :
    (p : Text → Bool) (all xs : List Text)
    → Within all xs
    → All (λ t. not (includes (filter p all) t) ≡ not (p t)) xs
unfolding Within
filtered_out p all [] h = tt
filtered_out p all (x ∷ xs) (e, h) =
    (ground (arith, includes-filter p all x), filtered_out p all xs h)

-- The tags that a filtered list leaves out.
unhealthy_same :
    (p : Text → Bool) (xs : List Text)
    → filter (λ t. not (includes (filter p xs) t)) xs ≡ filter (λ t. not (p t)) xs
unhealthy_same p xs = filter_same _ _ xs (filtered_out p xs xs (Within-self xs))

filter-true : (p : Text → Bool) (xs : List Text) → All (λ t. p t ≡ true) (filter p xs)
filter-true p [] = tt
filter-true p (x ∷ xs) = ground (arith, filter-true p xs)

filter-false :
    (p : Text → Bool) (xs : List Text) → All (λ t. p t ≡ false) (filter (λ t. not (p t)) xs)
filter-false p [] = tt
filter-false p (x ∷ xs) = ground (arith, filter-false p xs)

filter_none : (p : Text → Bool) (xs : List Text) → filter p xs ≡ [] → All (λ t. p t ≡ false) xs
filter_none p [] h = tt
filter_none p (x ∷ xs) h = ground (arith, filter_none p xs)

filter_absent :
    (f : Text) (xs : List Text) → includes xs f ≡ false → filter (λ t. not (text_eq t f)) xs ≡ xs
filter_absent f [] h = refl
filter_absent f (x ∷ xs) h = ground (arith, filter_absent f xs)

member_All : (P : Text → Type 0) (f : Text) (xs : List Text) → includes xs f ≡ true → All P xs → P f
member_All P f [] h k = absurd (cc h)
member_All P f (x ∷ xs) h (a, k) = elim (Bool-cases (text_eq x f)) [
  | inl e ↦ subst P (text_eq_iff_to x f e) a
  | inr n ↦ member_All P f xs (ground arith) k
]

-- One tag first and the others behind it.
rotated :
    (f t : Text) (xs : List Text)
    → IsDistinct xs
    → includes xs f ≡ true
    → count t (f ∷ filter (λ x. not (text_eq x f)) xs) ≡ count t xs
rotated f t [] d h = absurd (cc h)
rotated f t (x ∷ xs) (n, d) h = elim (Bool-cases (text_eq x f)) [
  | inl e ↦
      let same : x ≡ f = text_eq_iff_to x f e in
      ground (arith, filter_absent f xs (subst (λ u. includes xs u ≡ false) same n))
  | inr other ↦ ground (arith, rotated f t xs d (ground arith))
]

IsDistinct-filter : (p : Text → Bool) (xs : List Text) → IsDistinct xs → IsDistinct (filter p xs)
IsDistinct-filter p [] d = tt
IsDistinct-filter p (x ∷ xs) (n, d) =
    ground (arith, IsDistinct-filter p xs d, includes-filter p xs x)

-- The candidates of a policy: its outbounds in another order, the healthy ones before the others.
pub record IsOrdered (healthy : Text → Bool) (outbounds candidates : List Text) : Type 0 where
  pub same : (t : Text) → count t candidates ≡ count t outbounds
  pub first : List Text
  pub last : List Text
  pub split : candidates ≡ first ++ last
  pub first_healthy : All (λ t. healthy t ≡ true) first
  pub last_unhealthy : All (λ t. healthy t ≡ false) last

pub failover-IsOrdered :
    (h : Text → Bool) (outs : List Text)
    → IsOrdered h outs (filter h outs ++ filter (λ t. not (includes (filter h outs) t)) outs)
failover-IsOrdered h outs =
    let last = filter (λ t. not (includes (filter h outs) t)) outs in
    record {
      same = λ t.
          count-append t (filter h outs) last
          ∙ ap (λ l. count t (filter h outs) + count t l) (unhealthy_same h outs)
          ∙ count-filter t h outs;
      first = filter h outs;
      last = last;
      split = refl;
      first_healthy = filter-true h outs;
      last_unhealthy =
          subst (All (λ t. h t ≡ false)) (sym (unhealthy_same h outs)) (filter-false h outs);
    }

-- The candidates of load balancing, for the entry of the pool that comes first.
abbrev pub balanced : Text → List Text → List Text → List Text
balanced f pool outs =
    f ∷ (filter (λ t. not (text_eq t f)) pool ++ filter (λ t. not (includes pool t)) outs)

balanced-count :
    (f t : Text) (pool outs : List Text)
    → IsDistinct pool
    → includes pool f ≡ true
    → count t (balanced f pool outs)
      ≡ count t pool + count t (filter (λ x. not (includes pool x)) outs)
balanced-count f t pool outs d m =
    let others = filter (λ x. not (text_eq x f)) pool in
    let rest = filter (λ x. not (includes pool x)) outs in
    omega (arith, count-append t others rest, rotated f t pool d m)

pub healthy-IsOrdered :
    (h : Text → Bool) (outs : List Text) (f : Text)
    → IsDistinct outs
    → includes (filter h outs) f ≡ true
    → IsOrdered h outs (balanced f (filter h outs) outs)
healthy-IsOrdered h outs f d m =
    let pool = filter h outs in
    let rest = filter (λ t. not (includes pool t)) outs in
    record {
      same = λ t.
          balanced-count f t pool outs (IsDistinct-filter h outs d) m
          ∙ ap (λ l. count t pool + count t l) (unhealthy_same h outs)
          ∙ count-filter t h outs;
      first = f ∷ filter (λ t. not (text_eq t f)) pool;
      last = rest;
      split = refl;
      first_healthy =
          (member_All _ f pool m (filter-true h outs), All-filter _ _ pool (filter-true h outs));
      last_unhealthy =
          subst (All (λ t. h t ≡ false)) (sym (unhealthy_same h outs)) (filter-false h outs);
    }

all_included : (all xs : List Text) → Within all xs → filter (λ t. not (includes all t)) xs ≡ []
unfolding Within
all_included all [] h = refl
all_included all (x ∷ xs) (e, h) = ground (arith, all_included all xs h)

pub unhealthy-IsOrdered :
    (h : Text → Bool) (outs : List Text) (f : Text)
    → IsDistinct outs
    → filter h outs ≡ []
    → includes outs f ≡ true
    → IsOrdered h outs (balanced f outs outs)
unhealthy-IsOrdered h outs f d e m =
    let rest = filter (λ t. not (includes outs t)) outs in
    let empty : rest ≡ [] = all_included outs outs (Within-self outs) in
    let bad : All (λ t. h t ≡ false) outs = filter_none h outs e in
    record {
      same = λ t. balanced-count f t outs outs d m ∙ omega (arith, ap (count t) empty);
      first = [];
      last = balanced f outs outs;
      split = refl;
      first_healthy = tt;
      last_unhealthy = (
        member_All _ f outs m bad,
        All-append _ (filter (λ t. not (text_eq t f)) outs) rest (All-filter _ _ outs bad)
            (All-filter _ _ outs bad),
      );
    }
