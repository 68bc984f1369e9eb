-- ===== src/Config/Outbounds.antt =====
-- config/types.ts and config/schema.ts: the outbounds.
use sepigs.Base.{
  ℕ, Bool, true, Option, none, some, List, [], ◌∷◌, ◌++◌, if◌then◌else◌, nat_eq, string_eq,
}
use sepigs.Base.Table.{get}
use sepigs.Base.Text.{Text, codes, text_eq, text_key}
use sepigs.Config.Json.{Json, object, Object, entries}
use sepigs.Config.Checked.{field, Place, not_object, not_supported, Checked, pure, report, ◌>>=◌}
use sepigs.Config.Read.{
  is_extension_type, read_string, read_optional_string, read_number, read_optional_number,
  read_string_array, read_options_record, read_byte_array, section, boolean_or,
}
use sepigs.Config.DnsSection.{object_item}
use sepigs.Config.Inbounds.{method_issue}

pub record OutboundBase : Type 0 where
  pub tag : Text
  pub connect_timeout_ms : Option ℕ
  pub idle_timeout_ms : Option ℕ

pub record TrojanTls : Type 0 where
  pub enabled : Bool
  pub reject_unauthorized : Bool
  pub server_name : Option Text

pub record WireGuardPeer : Type 0 where
  pub public_key : Text
  pub endpoint_host : Text
  pub endpoint_port : ℕ
  pub allowed_ips : List Text

pub data OutboundConfig : Type 0 where
  direct : OutboundBase → OutboundConfig
  block : OutboundBase → Option Text → OutboundConfig
  tcp_relay : OutboundBase → Text → ℕ → OutboundConfig
  -- The server's host and port, the method and the password.
  shadowsocks : OutboundBase → Text → ℕ → Text → Text → OutboundConfig
  trojan : OutboundBase → Text → ℕ → Text → TrojanTls → OutboundConfig
  wireguard : OutboundBase → Text → List Text → WireGuardPeer → Option (List ℕ) → OutboundConfig
  plugin : OutboundBase → Text → Object → OutboundConfig

abbrev pub base : OutboundConfig → OutboundBase
base (direct b) = b
base (block b _) = b
base (tcp_relay b _ _) = b
base (shadowsocks b _ _ _ _) = b
base (trojan b _ _ _ _) = b
base (wireguard b _ _ _ _) = b
base (plugin b _ _) = b

abbrev tcp_relay_config : OutboundBase → Option Text → Option ℕ → Option OutboundConfig
tcp_relay_config b (some host) (some port) = some (tcp_relay b host port)
tcp_relay_config b _ _ = none

abbrev shadowsocks_config :
    OutboundBase → Option Text → Option ℕ → Option Text → Option Text → Option OutboundConfig
shadowsocks_config b (some host) (some port) (some method) (some password) =
    some (shadowsocks b host port method password)
shadowsocks_config b _ _ _ _ = none

abbrev trojan_tls_of : Place → Object → Checked TrojanTls
trojan_tls_of path raw = do
  enabled ← boolean_or raw "enabled" path true
  reject ← boolean_or raw "rejectUnauthorized" path true
  name ← read_optional_string raw "serverName" path
  pure (record { enabled = enabled; reject_unauthorized = reject; server_name = name })

abbrev trojan_config :
    OutboundBase → Option Text → Option ℕ → Option Text → TrojanTls → Option OutboundConfig
trojan_config b (some host) (some port) (some password) tls = some (trojan b host port password tls)
trojan_config b _ _ _ tls = none

abbrev trojan_of : OutboundBase → Place → Object → Checked (Option OutboundConfig)
trojan_of b path raw = do
  host ← read_string raw "serverHost" path
  port ← read_number raw "serverPort" path 1 65535
  password ← read_string raw "password" path
  tls ←
      section (record { enabled = true; reject_unauthorized = true; server_name = none })
        (trojan_tls_of (path ++ field "tls" ∷ [])) (path ++ field "tls" ∷ []) (get "tls" raw)
  pure (trojan_config b host port password tls)

abbrev wireguard_peer :
    Option Text → Option Text → Option ℕ → Option (List Text) → Option WireGuardPeer
wireguard_peer (some k) (some host) (some port) (some ips) =
    some (record { public_key = k; endpoint_host = host; endpoint_port = port; allowed_ips = ips })
wireguard_peer _ _ _ _ = none

abbrev wireguard_config :
    OutboundBase
    → Option Text
    → Option (List Text)
    → Option WireGuardPeer
    → Option (List ℕ)
    → Option OutboundConfig
wireguard_config b (some k) (some address) (some peer) reserved =
    some (wireguard b k address peer reserved)
wireguard_config b _ _ _ reserved = none

-- `reserved` is read of the outbound, the peer's fields of `rawPeer`.
abbrev wireguard_peer_of :
    OutboundBase
    → Option Text
    → Option (List Text)
    → Place
    → Object
    → Option Json
    → Checked (Option OutboundConfig)
wireguard_peer_of b k address path raw (some (object ms)) = do
  public ← read_string (entries ms) "publicKey" (path ++ field "peer" ∷ [])
  host ← read_string (entries ms) "endpointHost" (path ++ field "peer" ∷ [])
  port ← read_number (entries ms) "endpointPort" (path ++ field "peer" ∷ []) 1 65535
  ips ← read_string_array (entries ms) "allowedIps" (path ++ field "peer" ∷ [])
  reserved ← read_byte_array raw "reserved" path
  pure (wireguard_config b k address (wireguard_peer public host port ips) reserved)
wireguard_peer_of b k address path raw _ = report none (path ++ field "peer" ∷ []) not_object

abbrev wireguard_of : OutboundBase → Place → Object → Checked (Option OutboundConfig)
wireguard_of b path raw = do
  k ← read_string raw "privateKey" path
  address ← read_string_array raw "address" path
  wireguard_peer_of b k address path raw (get "peer" raw)

unfoldable pub outbound_of_type :
    Text → OutboundBase → Place → Object → Checked (Option OutboundConfig)
outbound_of_type type b path raw =
    if text_eq type (codes "direct")
    then pure (some (direct b))
    else if text_eq type (codes "block")
    then (do reason ← read_optional_string raw "reason" path; pure (some (block b reason)))
    else if text_eq type (codes "tcpRelay")
    then (do
      host ← read_string raw "targetHost" path
      port ← read_number raw "targetPort" path 1 65535
      pure (tcp_relay_config b host port))
    else if text_eq type (codes "shadowsocks")
    then (do
      host ← read_string raw "serverHost" path
      port ← read_number raw "serverPort" path 1 65535
      method ← read_string raw "method" path
      password ← read_string raw "password" path
      _ ← method_issue (path ++ field "method" ∷ []) method
      pure (shadowsocks_config b host port method password))
    else if text_eq type (codes "trojan")
    then trojan_of b path raw
    else if text_eq type (codes "wireguard")
    then wireguard_of b path raw
    else if is_extension_type type
    then (do options ← read_options_record raw "options" path; pure (some (plugin b type options)))
    else report none (path ++ field "type" ∷ []) not_supported

-- The rest of `parseOutbound`, when the required fields were read.
unfoldable pub outbound_with :
    Option Text
    → Option Text
    → (Text → OutboundBase)
    → Place
    → Object
    → Checked (Option OutboundConfig)
outbound_with (some type) (some tag) make path raw = outbound_of_type type (make tag) path raw
outbound_with _ _ make path raw = pure none

abbrev pub outbound_of : Place → Object → Checked (Option OutboundConfig)
outbound_of path raw = do
  type ← read_string raw "type" path
  tag ← read_string raw "tag" path
  connect ← read_optional_number raw "connectTimeoutMs" path 1 300000
  idle ← read_optional_number raw "idleTimeoutMs" path 1 3600000
  outbound_with type tag
      (λ t. record { tag = t; connect_timeout_ms = connect; idle_timeout_ms = idle }) path raw

unfoldable pub parse_outbound : Place → Json → Checked (Option OutboundConfig)
parse_outbound = object_item outbound_of
