-- ===== src/Config/Checked.antt =====
-- What the functions of config/schema.ts give: a value and the issues that they push onto the array
-- `errors`. They only push onto it, and read it once at the end.
pub mod Silent
use sepigs.Base.{
  ℕ, ◌+◌, String, Bool, true, false, Option, none, some, List, [], ◌∷◌, ◌++◌, if◌then◌else◌, nat_eq,
  string_eq,
}
use sepigs.Base.Text.{Text, text_key}

pub data Part : Type 0 where
  field : String → Part
  element : ℕ → Part

-- Where an issue is, such as `inbounds[0].port`.
abbrev pub Place : Type 0
Place = List Part

-- What is wrong, with a constructor for each message.
pub data Reason : Type 0 where
  not_string not_string_when_provided not_boolean not_array not_object not_supported : Reason
  not_integer_between : ℕ → ℕ → Reason
  not_slash_first rollback_disabled tls_files_missing outbounds_empty list_empty : Reason
  invalid_cidr public_listener public_metrics public_dashboard weak_token : Reason
  unsupported_component duplicate_component unknown_geo duplicate_tag : Text → Reason
  duplicates_outbound unknown_outbound unknown_server : Text → Reason

pub record Issue : Type 0 where
  pub place : Place
  pub reason : Reason

pub record Checked {ℓ} (A : Type ℓ) : Type ℓ where
  pub value : A
  pub issues : List Issue

module _ {ℓ} {A : Type ℓ} where
  abbrev pub pure : A → Checked A
  pure a = record { value = a; issues = [] }

  -- The value, after one push.
  abbrev pub report : A → Place → Reason → Checked A
  report a place reason = record {
    value = a;
    issues = (record { place = place; reason = reason }) ∷ [];
  }

  -- `?? d`
  abbrev pub or_else : Option A → A → A
  or_else none d = d
  or_else (some a) d = a

  abbrev pub cons_some : Option A → List A → List A
  cons_some none xs = xs
  cons_some (some x) xs = x ∷ xs

module _ {ℓ κ} {A : Type ℓ} {B : Type κ} where
  infixl 5 ◌>>=◌ ◌>>◌
  abbrev pub ◌>>=◌ : Checked A → (A → Checked B) → Checked B
  m >>= f = record { value = (f m.value).value; issues = m.issues ++ (f m.value).issues }

  abbrev pub ◌>>◌ : Checked A → Checked B → Checked B
  m >> n = m >>= (λ _. n)

-- `errors.push(...)`
abbrev pub push : Place → Reason → Checked (Unit {0})
push place reason = report tt place reason

-- A push unless the test holds.
abbrev pub require : Bool → Place → Reason → Checked (Unit {0})
require true place reason = pure tt
require false place reason = push place reason
