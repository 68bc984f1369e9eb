-- ===== src/Config/Extensions.antt =====
-- config/types.ts and config/schema.ts: the sections `plugins` and `reload`.
use sepigs.Base.{
  ℕ, Bool, true, false, not, ◌&&◌, Option, none, some, List, [], ◌∷◌, ◌++◌, if◌then◌else◌, nat_eq,
  string_eq, any,
}
use sepigs.Base.Table.{get}
use sepigs.Base.Text.{Text, codes, text_eq, text_key}
use sepigs.Config.Json.{Json, object, Object, entries}
use sepigs.Config.Checked.{
  field, Place, not_object, not_supported, rollback_disabled, unsupported_component,
  duplicate_component, Checked, pure, push, report, or_else, ◌>>=◌, ◌>>◌, require,
}
use sepigs.Config.Read.{
  read_string, read_optional_string, read_string_array, section, number_or, boolean_or, parse_list,
}
use sepigs.Config.DnsSection.{object_item, choice_value}

pub record PluginModuleConfig : Type 0 where
  pub tag : Text
  pub path : Text
  pub enabled : Bool
  pub manifest : Option Text

pub record WasmExtensionConfig : Type 0 where
  pub tag : Text
  pub path : Text
  pub enabled : Bool

pub data PluginIsolationMode : Type 0 where
  in_process worker_thread child_process : PluginIsolationMode

pub record PluginIsolationConfig : Type 0 where
  pub mode : PluginIsolationMode
  pub timeout_ms : ℕ
  pub memory_limit_mb : ℕ
  pub stdout_limit_bytes : ℕ

pub record PluginConfig : Type 0 where
  pub modules : List PluginModuleConfig
  pub wasm : List WasmExtensionConfig
  pub isolation : PluginIsolationConfig

pub data ReloadMode : Type 0 where
  legacy transactional_experimental : ReloadMode

pub data TransactionalReloadComponent : Type 0 where
  metrics dashboard router policy dns outbound : TransactionalReloadComponent

pub record ReloadConfig : Type 0 where
  pub mode : ReloadMode
  pub enabled_components : List TransactionalReloadComponent
  pub timeout_ms : ℕ
  pub shadow_before_commit : Bool
  pub rollback_on_failure : Bool

abbrev pub default_isolation : PluginIsolationConfig
default_isolation = record {
  mode = in_process;
  timeout_ms = 3000;
  memory_limit_mb = 64;
  stdout_limit_bytes = 65536;
}

abbrev pub default_plugins : PluginConfig
default_plugins = record { modules = []; wasm = []; isolation = default_isolation }

abbrev pub default_reload : ReloadConfig
default_reload = record {
  mode = legacy;
  enabled_components = [];
  timeout_ms = 5000;
  shadow_before_commit = true;
  rollback_on_failure = true;
}

abbrev pub plugin_module :
    Option Text → Option Text → Bool → Option Text → Option PluginModuleConfig
plugin_module (some tag) (some path) enabled manifest =
    some (record { tag = tag; path = path; enabled = enabled; manifest = manifest })
plugin_module _ _ enabled manifest = none

abbrev pub plugin_module_of : Place → Object → Checked (Option PluginModuleConfig)
plugin_module_of place raw = do
  tag ← read_string raw "tag" place
  path ← read_string raw "path" place
  manifest ← read_optional_string raw "manifest" place
  enabled ← boolean_or raw "enabled" place true
  pure (plugin_module tag path enabled manifest)

abbrev pub wasm_extension : Option Text → Option Text → Bool → Option WasmExtensionConfig
wasm_extension (some tag) (some path) enabled =
    some (record { tag = tag; path = path; enabled = enabled })
wasm_extension _ _ enabled = none

abbrev pub wasm_extension_of : Place → Object → Checked (Option WasmExtensionConfig)
wasm_extension_of place raw = do
  tag ← read_string raw "tag" place
  path ← read_string raw "path" place
  enabled ← boolean_or raw "enabled" place true
  pure (wasm_extension tag path enabled)

abbrev pub isolation_mode : Text → Option PluginIsolationMode
isolation_mode t =
    if text_eq t (codes "in-process")
    then some in_process
    else if text_eq t (codes "worker-thread")
    then some worker_thread
    else if text_eq t (codes "child-process")
    then some child_process
    else none

abbrev pub isolation_of : Place → Object → Checked PluginIsolationConfig
isolation_of place raw = do
  mode ←
      choice_value isolation_mode default_isolation.mode (place ++ field "mode" ∷ [])
        (get "mode" raw)
  timeout ← number_or raw "timeoutMs" place 1 300000 default_isolation.timeout_ms
  memory ← number_or raw "memoryLimitMb" place 16 4096 default_isolation.memory_limit_mb
  stdout ← number_or raw "stdoutLimitBytes" place 1024 10485760 default_isolation.stdout_limit_bytes
  pure (record {
    mode = mode;
    timeout_ms = timeout;
    memory_limit_mb = memory;
    stdout_limit_bytes = stdout;
  })

unfoldable pub parse_plugin_isolation : Place → Object → Checked PluginIsolationConfig
parse_plugin_isolation place raw =
    section default_isolation (isolation_of (place ++ field "isolation" ∷ []))
      (place ++ field "isolation" ∷ []) (get "isolation" raw)

abbrev pub plugins_of : Place → Object → Checked PluginConfig
plugins_of place raw = do
  modules ←
      parse_list (object_item plugin_module_of) (place ++ field "modules" ∷ []) (get "modules" raw)
  wasm ← parse_list (object_item wasm_extension_of) (place ++ field "wasm" ∷ []) (get "wasm" raw)
  isolation ← parse_plugin_isolation place raw
  pure (record { modules = modules; wasm = wasm; isolation = isolation })

unfoldable pub parse_plugins : Object → Checked PluginConfig
parse_plugins root =
    section default_plugins (plugins_of (field "plugins" ∷ [])) (field "plugins" ∷ [])
      (get "plugins" root)

abbrev pub reload_mode : Text → Option ReloadMode
reload_mode t =
    if text_eq t (codes "legacy")
    then some legacy
    else if text_eq t (codes "transactional-experimental")
    then some transactional_experimental
    else none

-- `readOptionalString(raw, "mode", ...)` with the tests behind it.
abbrev pub mode_of : Place → Option Text → Checked ReloadMode
mode_of place none = pure default_reload.mode
mode_of place (some t) = elim (reload_mode t) [
  | none ↦ report default_reload.mode place not_supported
  | some mode ↦ pure mode
]

abbrev pub reload_component : Text → Option TransactionalReloadComponent
reload_component t =
    if text_eq t (codes "metrics")
    then some metrics
    else if text_eq t (codes "dashboard")
    then some dashboard
    else if text_eq t (codes "router")
    then some router
    else if text_eq t (codes "policy")
    then some policy
    else if text_eq t (codes "dns")
    then some dns
    else if text_eq t (codes "outbound")
    then some outbound
    else none

-- The loop over the component names; `seen` holds those that were taken.
unfoldable pub distinct_components :
    Place → List Text → List Text → Checked (List TransactionalReloadComponent)
distinct_components place seen [] = pure []
distinct_components place seen (t ∷ ts) =
    let skipped = distinct_components place seen ts in
    let taken = distinct_components place (seen ++ t ∷ []) ts in
    elim (reload_component t) [
      | none ↦ push place (unsupported_component t) >> skipped
      | some c ↦
          if any (λ s. text_eq s t) seen
          then push place (duplicate_component t) >> skipped
          else (do rest ← taken; pure (c ∷ rest))
    ]

abbrev pub is_transactional : ReloadMode → Bool
is_transactional legacy = false
is_transactional transactional_experimental = true

-- `isRecord(rawTransactional) ? rawTransactional : {}`
abbrev pub transactional_object : Option Json → Object
transactional_object (some (object ms)) = entries ms
transactional_object _ = []

abbrev pub transactional_issue : Place → Option Json → Checked (Unit {0})
transactional_issue place none = pure tt
transactional_issue place (some (object ms)) = pure tt
transactional_issue place (some _) = push place not_object

abbrev pub transactional_of : ReloadMode → Place → Object → Checked ReloadConfig
transactional_of mode place raw = do
  names ← read_string_array raw "enabledComponents" place
  components ← distinct_components (place ++ field "enabledComponents" ∷ []) [] (or_else names [])
  rollback ← boolean_or raw "rollbackOnFailure" place default_reload.rollback_on_failure
  _ ←
      require (not (is_transactional mode && not rollback))
        (place ++ field "rollbackOnFailure" ∷ []) rollback_disabled
  timeout ← number_or raw "timeoutMs" place 100 60000 default_reload.timeout_ms
  shadow ← boolean_or raw "shadowBeforeCommit" place default_reload.shadow_before_commit
  pure (record {
    mode = mode;
    enabled_components = components;
    timeout_ms = timeout;
    shadow_before_commit = shadow;
    rollback_on_failure = rollback;
  })

abbrev pub reload_of : Place → Object → Checked ReloadConfig
reload_of place raw = do
  given ← read_optional_string raw "mode" place
  mode ← mode_of (place ++ field "mode" ∷ []) given
  _ ← transactional_issue (place ++ field "transactional" ∷ []) (get "transactional" raw)
  transactional_of mode (place ++ field "transactional" ∷ [])
      (transactional_object (get "transactional" raw))

unfoldable pub parse_reload : Object → Checked ReloadConfig
parse_reload root =
    section default_reload (reload_of (field "reload" ∷ [])) (field "reload" ∷ [])
      (get "reload" root)
