-- ===== src/Config/Migrate.antt =====
-- config/migrate.ts.
use sepigs.Base.{
  ◌≡◌, refl, ap, Option, none, some, List, [], ◌∷◌, arith, ◌==◌, if◌then◌else◌, nat_eq, string_eq,
}
use sepigs.Base.Table.{get, put, get-put_same}
use sepigs.Base.Text.{text_key}
use sepigs.Config.Json.{
  natural, negative, fractional, Json, null, boolean, numeral, text, array, object, Object, entries,
}
use sepigs.Config.Checked.{Place}
use sepigs.Base.Result.{Result, ok, err}
use sepigs.Config.Parse.{parse_config_version}

pub data MigrationError : Type 0 where
  not_record not_integer newer : MigrationError

pub data MigrationWarning : Type 0 where
  version_missing version_deprecated : MigrationWarning

pub record MigrationResult : Type 0 where
  pub config : Object
  pub warnings : List MigrationWarning

-- `{ ...input, configVersion: 1 }`
abbrev pub with_version : Object → Object
with_version input = put "configVersion" (numeral (natural 1)) input

abbrev pub migrate_version : Object → Option Json → Result MigrationError MigrationResult
migrate_version input none =
    ok (record { config = with_version input; warnings = version_missing ∷ [] })
migrate_version input (some (numeral (natural n))) =
    if n == 1
    then ok (record { config = input; warnings = [] })
    else if n == 0
    then ok (record { config = with_version input; warnings = version_deprecated ∷ [] })
    else err newer
migrate_version input (some (numeral (negative n))) = err newer
migrate_version input (some _) = err not_integer

unfoldable pub migrate_record : Object → Result MigrationError MigrationResult
migrate_record input = migrate_version input (get "configVersion" input)

unfoldable pub migrate_config : Json → Result MigrationError MigrationResult
migrate_config (object ms) = migrate_record (entries ms)
migrate_config _ = err not_record

abbrev IsCurrent : Object → Type 0
IsCurrent input = get "configVersion" input ≡ some (numeral (natural 1))

with_version-IsCurrent : (input : Object) → IsCurrent (with_version input)
with_version-IsCurrent input = get-put_same "configVersion" (numeral (natural 1)) input

migrate_version-IsCurrent :
    (input : Object) (v : Option Json) (r : MigrationResult)
    → get "configVersion" input ≡ v
    → migrate_version input v ≡ ok r
    → IsCurrent r.config
migrate_version-IsCurrent input none r g h = grind (arith, with_version-IsCurrent input)
migrate_version-IsCurrent input (some (numeral (natural n))) r g h =
    grind (arith, with_version-IsCurrent input)
migrate_version-IsCurrent input (some (numeral (negative n))) r g h = absurd (cc h)
migrate_version-IsCurrent input (some (numeral fractional)) r g h = absurd (cc h)
migrate_version-IsCurrent input (some null) r g h = absurd (cc h)
migrate_version-IsCurrent input (some (boolean b)) r g h = absurd (cc h)
migrate_version-IsCurrent input (some (text t)) r g h = absurd (cc h)
migrate_version-IsCurrent input (some (array js)) r g h = absurd (cc h)
migrate_version-IsCurrent input (some (object ms)) r g h = absurd (cc h)

-- What migrateConfig returns migrates to itself without a warning, and passes the version check of
-- parseConfig without an issue.
pub migrate_config-stable :
    (j : Json) (r : MigrationResult)
    → migrate_config j ≡ ok r
    → (migrate_record r.config ≡ ok (record { config = r.config; warnings = [] }))
      × ((place : Place) → (parse_config_version place (get "configVersion" r.config)).issues ≡ [])
unfolding migrate_config migrate_record parse_config_version
migrate_config-stable (object ms) r h =
    let now = migrate_version-IsCurrent (entries ms) _ r refl h in
    (
      ap (migrate_version r.config) now,
      λ place. ap (λ v. (parse_config_version place v).issues) now,
    )
migrate_config-stable null r h = absurd (cc h)
migrate_config-stable (boolean b) r h = absurd (cc h)
migrate_config-stable (numeral n) r h = absurd (cc h)
migrate_config-stable (text t) r h = absurd (cc h)
migrate_config-stable (array js) r h = absurd (cc h)
