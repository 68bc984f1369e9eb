-- ===== src/Config/Checked/Silent.antt =====
-- Readers of config/schema.ts that push nothing onto `errors`.
use sepigs.Base.{◌≡◌, refl, Bool, true, false, List, [], ◌∷◌, ◌++◌, nat_eq, string_eq}
use sepigs.Base.Text.{text_key}
use sepigs.Config.Checked.{Place, Reason, require}

pub append-nil_both {ℓ} : {A : Type ℓ} (xs ys : List A) → xs ++ ys ≡ [] → (xs ≡ []) × (ys ≡ [])
append-nil_both [] ys h = (refl, h)
append-nil_both (x ∷ xs) ys h = absurd (cc h)

pub append-nil_rest {ℓ} : {A : Type ℓ} (xs ys : List A) → xs ++ ys ≡ [] → ys ≡ []
append-nil_rest xs ys h = (append-nil_both xs ys h).1

pub require_holds :
    (b : Bool) (place : Place) (reason : Reason) → (require b place reason).issues ≡ [] → b ≡ true
require_holds true place reason h = refl
require_holds false place reason h = absurd (cc h)
