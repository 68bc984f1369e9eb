-- ===== src/Config/Inbounds.antt =====
-- config/types.ts and config/schema.ts: the inbounds.
use sepigs.Base.{
  ℕ, Bool, true, false, not, ◌&&◌, ◌||◌, Option, none, some, [], ◌∷◌, ◌++◌, if◌then◌else◌, nat_eq,
  string_eq,
}
use sepigs.Base.Table.{get}
use sepigs.Base.Text.{Text, codes, text_eq, text_key}
use sepigs.Config.Json.{Json, boolean, Object}
use sepigs.Config.Checked.{
  field, Place, not_boolean, not_supported, tls_files_missing, Checked, pure, report, ◌>>=◌,
  require,
}
use sepigs.Config.Read.{
  is_extension_type, read_string, read_optional_string, read_number, read_optional_number,
  read_options_record, section, boolean_or,
}
use sepigs.Config.DnsSection.{object_item}

-- The base configuration, and what each type adds.
pub record InboundBase : Type 0 where
  pub tag : Text
  pub listen : Text
  pub port : ℕ
  pub connect_timeout_ms : Option ℕ
  pub idle_timeout_ms : Option ℕ
  pub max_header_bytes : Option ℕ

-- `HttpBasicAuthConfig` and `Socks5AuthConfig`, which have the same fields.
pub record AuthConfig : Type 0 where
  pub enabled : Bool
  pub username : Text
  pub password : Text

pub record InboundTls : Type 0 where
  pub enabled : Bool
  pub cert_path : Option Text
  pub key_path : Option Text

pub data InboundConfig : Type 0 where
  http : InboundBase → Option AuthConfig → InboundConfig
  socks5 : InboundBase → Option Bool → Option AuthConfig → InboundConfig
  shadowsocks : InboundBase → Text → Text → Bool → InboundConfig
  trojan : InboundBase → Text → InboundTls → InboundConfig
  plugin : InboundBase → Text → Object → InboundConfig

abbrev pub base : InboundConfig → InboundBase
base (http b _) = b
base (socks5 b _ _) = b
base (shadowsocks b _ _ _) = b
base (trojan b _ _) = b
base (plugin b _ _) = b

abbrev auth_config : Bool → Option Text → Option Text → Option AuthConfig
auth_config enabled (some username) (some password) =
    some (record { enabled = enabled; username = username; password = password })
auth_config enabled _ _ = none

abbrev auth_of : Place → Object → Checked (Option AuthConfig)
auth_of path raw = do
  enabled ← boolean_or raw "enabled" path true
  username ← read_string raw "username" path
  password ← read_string raw "password" path
  pure (auth_config enabled username password)

-- `parseHttpAuth` and `parseSocksAuth`, which are the same.
unfoldable pub parse_auth : Place → Object → Checked (Option AuthConfig)
parse_auth path raw =
    section none (auth_of (path ++ field "auth" ∷ [])) (path ++ field "auth" ∷ []) (get "auth" raw)

abbrev udp_value : Place → Option Json → Checked (Option Bool)
udp_value place none = pure none
udp_value place (some (boolean b)) = pure (some b)
udp_value place (some _) = report none place not_boolean

abbrev pub shadowsocks_method : Text → Bool
shadowsocks_method t =
    text_eq t (codes "aes-128-gcm")
    || text_eq t (codes "aes-256-gcm")
    || text_eq t (codes "chacha20-ietf-poly1305")

-- The test of `method`, when it was read.
abbrev pub method_issue : Place → Option Text → Checked (Unit {0})
method_issue place none = pure tt
method_issue place (some method) = require (shadowsocks_method method) place not_supported

abbrev pub shadowsocks_config :
    InboundBase → Option Text → Option Text → Bool → Option InboundConfig
shadowsocks_config b (some method) (some password) udp = some (shadowsocks b method password udp)
shadowsocks_config b _ _ udp = none

abbrev is_given : Option Text → Bool
is_given none = false
is_given (some _) = true

abbrev inbound_tls_of : Place → Object → Checked InboundTls
inbound_tls_of path raw = do
  enabled ← boolean_or raw "enabled" path false
  cert ← read_optional_string raw "certPath" path
  key ← read_optional_string raw "keyPath" path
  _ ← require (not enabled || (is_given cert && is_given key)) path tls_files_missing
  pure (record { enabled = enabled; cert_path = cert; key_path = key })

abbrev pub trojan_config : InboundBase → Option Text → InboundTls → Option InboundConfig
trojan_config b (some password) tls = some (trojan b password tls)
trojan_config b none tls = none

abbrev trojan_of : InboundBase → Place → Object → Checked (Option InboundConfig)
trojan_of b path raw = do
  password ← read_string raw "password" path
  tls ←
      section (record { enabled = false; cert_path = none; key_path = none })
        (inbound_tls_of (path ++ field "tls" ∷ [])) (path ++ field "tls" ∷ []) (get "tls" raw)
  pure (trojan_config b password tls)

unfoldable pub inbound_of_type :
    Text → InboundBase → Place → Object → Checked (Option InboundConfig)
inbound_of_type type b path raw =
    if text_eq type (codes "http")
    then (do auth ← parse_auth path raw; pure (some (http b auth)))
    else if text_eq type (codes "socks5")
    then (do
      udp ← udp_value (path ++ field "udpAssociate" ∷ []) (get "udpAssociate" raw)
      auth ← parse_auth path raw
      pure (some (socks5 b udp auth)))
    else if text_eq type (codes "shadowsocks")
    then (do
      method ← read_string raw "method" path
      password ← read_string raw "password" path
      udp ← boolean_or raw "udp" path false
      _ ← method_issue (path ++ field "method" ∷ []) method
      pure (shadowsocks_config b method password udp))
    else if text_eq type (codes "trojan")
    then trojan_of b path raw
    else if is_extension_type type
    then (do options ← read_options_record raw "options" path; pure (some (plugin b type options)))
    else report none (path ++ field "type" ∷ []) not_supported

-- The rest of `parseInbound`, when the required fields were read.
unfoldable pub inbound_with :
    Option Text
    → Option Text
    → Option Text
    → Option ℕ
    → (Text → Text → ℕ → InboundBase)
    → Place
    → Object
    → Checked (Option InboundConfig)
inbound_with (some type) (some tag) (some listen) (some port) make path raw =
    inbound_of_type type (make tag listen port) path raw
inbound_with _ _ _ _ make path raw = pure none

abbrev pub inbound_of : Place → Object → Checked (Option InboundConfig)
inbound_of path raw = do
  type ← read_string raw "type" path
  tag ← read_string raw "tag" path
  listen ← read_string raw "listen" path
  port ← read_number raw "port" path 0 65535
  connect ← read_optional_number raw "connectTimeoutMs" path 1 300000
  idle ← read_optional_number raw "idleTimeoutMs" path 1 3600000
  header ← read_optional_number raw "maxHeaderBytes" path 1024 1048576
  inbound_with type tag listen port
      (λ t l n. record {
        tag = t;
        listen = l;
        port = n;
        connect_timeout_ms = connect;
        idle_timeout_ms = idle;
        max_header_bytes = header;
      })
      path raw

unfoldable pub parse_inbound : Place → Json → Checked (Option InboundConfig)
parse_inbound = object_item inbound_of
