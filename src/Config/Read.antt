-- ===== src/Config/Read.antt =====
-- The readers of config/schema.ts (lines up to readByteArray).
use sepigs.Base.{
  ℕ, ◌+◌, min, max, String, Bool, not, ◌&&◌, ◌||◌, Option, none, some, List, [], ◌∷◌, ◌++◌, ltb,
  ◌==◌, if◌then◌else◌, nat_eq, string_eq, length, take,
}
use sepigs.Base.Table.{Table, get, put}
use sepigs.Base.Text.{Text, codes, text_eq, text_key}
use sepigs.Router.Matcher.{trim_start, trim_end, to_lower}
use sepigs.Config.Json.{
  natural, Json, boolean, numeral, text, array, object, Object, elements, entries,
}
use sepigs.Config.Checked.{
  field, element, Place, Reason, not_string, not_string_when_provided, not_boolean, not_array,
  not_object, not_integer_between, Checked, pure, push, report, or_else, cons_some, ◌>>=◌, require,
}

abbrev pub is_blank : Text → Bool
is_blank t = length (trim_end (trim_start t)) == 0

abbrev pub trim : Text → Text
trim t = trim_end (trim_start t)

-- `value.startsWith("plugin.") && value.length > "plugin.".length`
unfoldable pub is_extension_type : Text → Bool
is_extension_type t = text_eq (take 7 t) (codes "plugin.") && ltb 7 (length t)

unfoldable pub text_value : Place → Reason → Option Json → Checked (Option Text)
text_value place reason (some (text t)) =
    if is_blank t then report none place reason else pure (some t)
text_value place reason _ = report none place reason

unfoldable pub read_string : Object → String → Place → Checked (Option Text)
read_string record_ key path = text_value (path ++ field key ∷ []) not_string (get key record_)

abbrev pub optional_text : Place → Option Json → Checked (Option Text)
optional_text place none = pure none
optional_text place (some v) = text_value place not_string_when_provided (some v)

unfoldable pub read_optional_string : Object → String → Place → Checked (Option Text)
read_optional_string record_ key path = optional_text (path ++ field key ∷ []) (get key record_)

unfoldable pub number_value : Place → ℕ → ℕ → Option Json → Checked (Option ℕ)
number_value place min max (some (numeral (natural n))) =
    if ltb n min || ltb max n
    then report none place (not_integer_between min max)
    else pure (some n)
number_value place min max _ = report none place (not_integer_between min max)

unfoldable pub read_number : Object → String → Place → ℕ → ℕ → Checked (Option ℕ)
read_number record_ key path min max =
    number_value (path ++ field key ∷ []) min max (get key record_)

abbrev pub optional_number : Place → ℕ → ℕ → Option Json → Checked (Option ℕ)
optional_number place min max none = pure none
optional_number place min max (some v) = number_value place min max (some v)

unfoldable pub read_optional_number : Object → String → Place → ℕ → ℕ → Checked (Option ℕ)
read_optional_number record_ key path min max =
    optional_number (path ++ field key ∷ []) min max (get key record_)

abbrev pub boolean_value : Place → Option Json → Checked (Option Bool)
boolean_value place none = pure none
boolean_value place (some (boolean b)) = pure (some b)
boolean_value place (some _) = report none place not_boolean

unfoldable pub read_optional_boolean : Object → String → Place → Checked (Option Bool)
read_optional_boolean record_ key path = boolean_value (path ++ field key ∷ []) (get key record_)

-- `values.map(...).filter(...)` and the loops with `forEach`: what `parse` gives for the elements.
unfoldable pub collect {ℓ} :
    {A : Type ℓ} → (Place → Json → Checked (Option A)) → Place → ℕ → List Json → Checked (List A)
collect parse place i [] = pure []
collect parse place i (j ∷ js) = do
  o ← parse (place ++ element i ∷ []) j
  rest ← collect parse place (i + 1) js
  pure (cons_some o rest)

abbrev pub trimmed_text : Place → Json → Checked (Option Text)
trimmed_text place (text t) =
    if is_blank t then report none place not_string else pure (some (trim t))
trimmed_text place _ = report none place not_string

-- An array of what `parse` accepts.
unfoldable pub array_value {ℓ} :
    {A : Type ℓ}
    → (Place → Json → Checked (Option A))
    → Place
    → Option Json
    → Checked (Option (List A))
array_value parse place none = pure none
array_value parse place (some (array js)) = do
  xs ← collect parse place 0 (elements js)
  pure (some xs)
array_value parse place (some _) = report none place not_array

unfoldable pub read_string_array : Object → String → Place → Checked (Option (List Text))
read_string_array record_ key path =
    array_value trimmed_text (path ++ field key ∷ []) (get key record_)

abbrev pub text_entries : Place → Object → Checked (Table Text Text)
text_entries place [] = pure []
text_entries place ((k, text t) ∷ ms) = do
  _ ← require (not (is_blank t)) (place ++ field k ∷ []) not_string
  rest ← text_entries place ms
  pure (if is_blank t then rest else (to_lower (codes k), trim t) ∷ rest)
text_entries place ((k, _) ∷ ms) = do
  _ ← push (place ++ field k ∷ []) not_string
  text_entries place ms

abbrev pub list_entries : Place → Object → Checked (Table Text (List Text))
list_entries place [] = pure []
list_entries place ((k, array js) ∷ ms) = do
  items ← collect trimmed_text (place ++ field k ∷ []) 0 (elements js)
  rest ← list_entries place ms
  pure ((to_lower (codes k), items) ∷ rest)
list_entries place ((k, _) ∷ ms) = do
  _ ← push (place ++ field k ∷ []) not_array
  list_entries place ms

-- Assigning the entries in turn: a later entry of a key replaces the value of an earlier one.
abbrev pub assigned {ℓ} : {V : Type ℓ} → Table Text V → Table Text V → Table Text V
assigned [] output = output
assigned ((k, v) ∷ rest) output = assigned rest (put k v output)

unfoldable pub record_value {ℓ} :
    {V : Type ℓ}
    → (Place → Object → Checked (Table Text V))
    → Place
    → Option Json
    → Checked (Option (Table Text V))
record_value parse place none = pure none
record_value parse place (some (object ms)) = do
  output ← parse place (entries ms)
  pure (some (assigned output []))
record_value parse place (some _) = report none place not_object

unfoldable pub read_string_record : Object → String → Place → Checked (Option (Table Text Text))
read_string_record record_ key path =
    record_value text_entries (path ++ field key ∷ []) (get key record_)

unfoldable pub read_string_array_record :
    Object → String → Place → Checked (Option (Table Text (List Text)))
read_string_array_record record_ key path =
    record_value list_entries (path ++ field key ∷ []) (get key record_)

abbrev pub options_value : Place → Option Json → Checked Object
options_value place none = pure []
options_value place (some (object ms)) = pure (entries ms)
options_value place (some _) = report [] place not_object

unfoldable pub read_options_record : Object → String → Place → Checked Object
read_options_record record_ key path = options_value (path ++ field key ∷ []) (get key record_)

abbrev pub integer_item : ℕ → ℕ → Place → Json → Checked (Option ℕ)
integer_item min max place j = number_value place min max (some j)

-- A port alone stands for an array of one.
abbrev pub port_values : Place → Option Json → Checked (Option (List ℕ))
port_values place none = pure none
port_values place (some (array js)) = do
  ports ← collect (integer_item 1 65535) place 0 (elements js)
  pure (some ports)
port_values place (some j) = do
  ports ← collect (integer_item 1 65535) place 0 (j ∷ [])
  pure (some ports)

unfoldable pub read_port_array : Object → String → Place → Checked (Option (List ℕ))
read_port_array record_ key path = port_values (path ++ field key ∷ []) (get key record_)

unfoldable pub read_byte_array : Object → String → Place → Checked (Option (List ℕ))
read_byte_array record_ key path =
    array_value (integer_item 0 255) (path ++ field key ∷ []) (get key record_)

-- The start of a section's parser: the default when it is not given or is no object.
unfoldable pub section {ℓ} :
    {A : Type ℓ} → A → (Object → Checked A) → Place → Option Json → Checked A
section default parse place none = pure default
section default parse place (some (object ms)) = parse (entries ms)
section default parse place (some _) = report default place not_object

-- A reader with `??` behind it.
unfoldable pub number_or : Object → String → Place → ℕ → ℕ → ℕ → Checked ℕ
number_or record_ key path min max default = do
  o ← read_optional_number record_ key path min max
  pure (or_else o default)

unfoldable pub boolean_or : Object → String → Place → Bool → Checked Bool
boolean_or record_ key path default = do
  o ← read_optional_boolean record_ key path
  pure (or_else o default)

unfoldable pub string_or : Object → String → Place → Text → Checked Text
string_or record_ key path default = do
  o ← read_optional_string record_ key path
  pure (or_else o default)

-- A list of objects that may be left out, such as `dns.udpServers`.
unfoldable pub parse_list {ℓ} :
    {A : Type ℓ} → (Place → Json → Checked (Option A)) → Place → Option Json → Checked (List A)
parse_list parse place v = do o ← array_value parse place v; pure (or_else o [])
