-- ===== src/Config/References/Sound.antt =====
-- What config/schema.ts checks of tags and references.
use sepigs.Base.{
  ℕ, ◌+◌, ◌≡◌, refl, ◌↔◌, Bool, true, false, not, ◌||◌, List, [], ◌∷◌, ◌++◌, arith, nat_eq,
  string_eq, All,
}
use sepigs.Base.Text.{Text, text_key}
use sepigs.Config.Checked.{Place, Reason}
use sepigs.Config.Routes.{RoutingPolicyConfig, RouterConfig}
use sepigs.Router.Matcher.{includes}
use sepigs.Config.References.{
  check_unique_tags, check_known, check_policy_tags, check_policy_outbounds, policy_tags,
  rule_targets, file_targets, check_outbound_references,
}
use sepigs.Config.Checked.Silent.{append-nil_both, require_holds}

-- No tag stands twice.
abbrev pub IsDistinct : List Text → Type 0
IsDistinct [] = Unit
IsDistinct (t ∷ ts) = (includes ts t ≡ false) × IsDistinct ts

abbrev pub Avoids : List Text → Text → Type 0
Avoids seen t = includes seen t ≡ false

includes-append :
    (xs ys : List Text) (t : Text) → includes (xs ++ ys) t ≡ (includes xs t || includes ys t)
includes-append [] ys t = refl
includes-append (x ∷ xs) ys t = ground (arith, includes-append xs ys t)

Avoids-concat :
    (seen : List Text) (t : Text) (ts : List Text)
    → All (Avoids (seen ++ t ∷ [])) ts ↔ ((includes ts t ≡ false) × All (Avoids seen) ts)
Avoids-concat seen t [] = ground arith
Avoids-concat seen t (u ∷ us) = ground (
  arith,
  Avoids-concat seen t us,
  includes-append seen (t ∷ []) u,
  text_key.beq_iff t u,
  text_key.beq_iff u t,
)

unique_tags_lem :
    (place : Place) (seen ts : List Text)
    → ((check_unique_tags place seen ts).issues ≡ []) ↔ (All (Avoids seen) ts × IsDistinct ts)
unfolding check_unique_tags
unique_tags_lem place seen [] = ground arith
unique_tags_lem place seen (t ∷ ts) = ground (
  arith,
  unique_tags_lem place seen ts,
  unique_tags_lem place (seen ++ t ∷ []) ts,
  Avoids-concat seen t ts,
)

Avoids-none : (ts : List Text) → All (Avoids []) ts
Avoids-none [] = tt
Avoids-none (t ∷ ts) = (refl, Avoids-none ts)

pub check_unique_tags-IsDistinct :
    (place : Place) (ts : List Text) → ((check_unique_tags place [] ts).issues ≡ []) ↔ IsDistinct ts
check_unique_tags-IsDistinct place ts = ground (arith, unique_tags_lem place [] ts, Avoids-none ts)

abbrev pub Knows : List Text → List Text → Type 0
Knows known ts = All (λ t. includes known t ≡ true) ts

pub check_known-Knows :
    (reason : Text → Reason) (known : List Text) (at : ℕ → Place) (i : ℕ) (ts : List Text)
    → (check_known reason known at i ts).issues ≡ []
    → Knows known ts
unfolding check_known
check_known-Knows reason known at i [] h = tt
check_known-Knows reason known at i (t ∷ ts) h =
    let (now, later) = append-nil_both _ _ h in
    (require_holds _ _ _ now, check_known-Knows reason known at (i + 1) ts later)

not-true : (b : Bool) → not b ≡ true → b ≡ false
not-true b h = ground arith

check_policy_tags-Avoids :
    (tags ts : List Text) → (check_policy_tags tags ts).issues ≡ [] → All (Avoids tags) ts
unfolding check_policy_tags
check_policy_tags-Avoids tags [] h = tt
check_policy_tags-Avoids tags (t ∷ ts) h =
    let (now, later) = append-nil_both _ _ h in
    (not-true _ (require_holds _ _ _ now), check_policy_tags-Avoids tags ts later)

check_policy_outbounds-Knows :
    (tags : List Text) (i : ℕ) (ps : List RoutingPolicyConfig)
    → (check_policy_outbounds tags i ps).issues ≡ []
    → All (λ policy. Knows tags policy.outbounds) ps
unfolding check_policy_outbounds
check_policy_outbounds-Knows tags i [] h = tt
check_policy_outbounds-Knows tags i (p ∷ ps) h =
    let (now, later) = append-nil_both _ _ h in
    (
      check_known-Knows _ tags _ 0 p.outbounds now,
      check_policy_outbounds-Knows tags (i + 1) ps later,
    )

-- Every tag that the routes name is one of an outbound or a policy, and no tag is one of both.
pub record IsRouted (tags : List Text) (route : RouterConfig) : Type 0 where
  pub apart : All (Avoids tags) (policy_tags route)
  pub default_known : includes (tags ++ policy_tags route) route.default_outbound ≡ true
  pub rules_known : Knows (tags ++ policy_tags route) (rule_targets route)
  pub files_known : Knows (tags ++ policy_tags route) (file_targets route)
  pub outbounds_known : All (λ policy. Knows tags policy.outbounds) route.policies

pub check_outbound_references-IsRouted :
    (tags : List Text) (route : RouterConfig)
    → (check_outbound_references tags route).issues ≡ []
    → IsRouted tags route
unfolding check_outbound_references
check_outbound_references-IsRouted tags route h =
    let (h0, r0) = append-nil_both _ _ h in
    let (h1, r1) = append-nil_both _ _ r0 in
    let (h2, r2) = append-nil_both _ _ r1 in
    let (h3, h4) = append-nil_both _ _ r2 in
    record {
      apart = check_policy_tags-Avoids tags (policy_tags route) h0;
      default_known = require_holds _ _ _ h1;
      rules_known = check_known-Knows _ _ _ 0 (rule_targets route) h2;
      files_known = check_known-Knows _ _ _ 0 (file_targets route) h3;
      outbounds_known = check_policy_outbounds-Knows tags 0 route.policies h4;
    }
