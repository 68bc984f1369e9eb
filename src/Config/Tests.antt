-- ===== src/Config/Tests.antt =====
-- A small configuration, one that is refused, and an old one.
use sepigs.Base.{String, ◌≡◌, refl, ◌↔◌, none, some, List, [], ◌∷◌, nat_eq, string_eq}
use sepigs.Base.Table.{get, put}
use sepigs.Base.Text.{Text, codes, text_key}
use sepigs.Router.Matcher.{trim_start, trim_end}
use sepigs.Protocol.Destination.{Platform}
use sepigs.Config.Json.{natural, Json, numeral, text, array, object, end, item, end_members, member}
use sepigs.Config.Checked.{field, Place, public_listener, unknown_outbound}
use sepigs.Config.Read.{
  text_value, number_value, read_string, read_number, read_optional_number, collect, array_value,
  section, parse_list,
}
use sepigs.Config.Settings.{
  info, default_limits, default_workers, default_transport, default_connection_pool,
  default_hot_reload, default_probing, default_metrics, default_dashboard, default_tun,
}
use sepigs.Config.DnsSection.{default_dns, default_geo, object_item, parse_dns, parse_geo}
use sepigs.Config.Extensions.{default_plugins, default_reload, parse_plugins, parse_reload}
use sepigs.Config.Sections.{
  parse_log, parse_limits, parse_workers, parse_transport, parse_connection_pool, parse_hot_reload,
  parse_probing, parse_observability, parse_dashboard, parse_tun,
}
use sepigs.Config.Inbounds.{InboundConfig, parse_auth, inbound_of_type, inbound_with, parse_inbound}
use sepigs.Config.Outbounds.{outbound_with, outbound_of_type, OutboundConfig, parse_outbound}
use sepigs.Config.Routes.{router_rules, router_of, parse_router}
use sepigs.Config.References.{
  check_unique_tags, check_known, check_policy_tags, check_policy_outbounds,
  check_outbound_references, check_dns_references,
}
use sepigs.Base.Result.{ok, err}
use sepigs.Config.Parse.{
  SepigsConfig, invalid, parse_config_version, parse_entries, check_inbounds, check_public_exposure,
  check_config, read_sections, assemble, read_config, parse_config,
}
use sepigs.Config.References.Sound.{IsDistinct, check_unique_tags-IsDistinct}
use sepigs.Config.Parse.Valid.{
  IsConsistent, IsGuarded, parse_config-IsConsistent, parse_config-IsGuarded,
}
use sepigs.Config.Parse.Bounds.{NumbersInRange, parse_config-NumbersInRange}
use sepigs.Config.Migrate.{
  MigrationResult, migrate_config, migrate_record, version_deprecated, migrate_config-stable,
}

abbrev platform : Platform
platform = record { is_ip = λ t. 0; utf8_encode = λ t. t; utf8_decode = λ t. t }

abbrev word : String → Json
word s = text (codes s)

abbrev one : Json → Json
one j = array (item j end)

abbrev inbound : Text → Json
inbound listen = object (
    member "type" (word "http") (
      member "tag" (word "in")
        (member "listen" (text listen) (member "port" (numeral (natural 8080)) end_members))))

abbrev outbound : Json
outbound = object (member "type" (word "direct") (member "tag" (word "out") end_members))

abbrev document : Text → String → Json
document listen target = object (
    member "inbounds" (one (inbound listen)) (
      member "outbounds" (one outbound) (
        member "route"
          (object (member "defaultOutbound" (word target) (member "rules" (array end) end_members)))
          end_members)))

abbrev local : Json
local = document (codes "127.0.0.1") "out"

abbrev config : SepigsConfig
config =
    assemble
      (record {
        log = info;
        limits = default_limits;
        dns = default_dns;
        geo = default_geo;
        plugins = default_plugins;
        workers = default_workers;
        transport = default_transport;
        connection_pool = default_connection_pool;
        hot_reload = default_hot_reload;
        reload = default_reload;
        probing = default_probing;
        observability = default_metrics;
        dashboard = default_dashboard;
        tun = default_tun;
      })
      (InboundConfig.http
          (record {
            tag = codes "in";
            listen = codes "127.0.0.1";
            port = 8080;
            connect_timeout_ms = none;
            idle_timeout_ms = none;
            max_header_bytes = none;
          })
          none
        ∷ [])
      (OutboundConfig.direct
          (record { tag = codes "out"; connect_timeout_ms = none; idle_timeout_ms = none })
        ∷ [])
      (some
        (record { default_outbound = codes "out"; rules = []; rule_set_files = []; policies = [] }))

local_parses : parse_config platform local ≡ ok config
unfolding parse_config read_config read_sections parse_config_version get put parse_log section
    parse_limits parse_dns parse_geo parse_plugins parse_workers parse_transport
    parse_connection_pool parse_hot_reload parse_reload parse_probing parse_observability
    parse_dashboard parse_tun parse_entries collect parse_inbound object_item read_string text_value
    trim_start trim_end read_number number_value read_optional_number inbound_with inbound_of_type
    parse_auth parse_outbound outbound_with outbound_of_type parse_router router_of router_rules
    parse_list array_value check_config check_unique_tags check_dns_references check_known
    check_public_exposure check_inbounds check_outbound_references check_policy_tags
    check_policy_outbounds
local_parses = refl

unknown_target_test :
    parse_config platform (document (codes "127.0.0.1") "proxy")
    ≡ err (
        invalid (
          (record {
            place = field "route" ∷ field "defaultOutbound" ∷ [];
            reason = unknown_outbound (codes "proxy");
          })
          ∷ []))
unfolding parse_config read_config read_sections parse_config_version get put parse_log section
    parse_limits parse_dns parse_geo parse_plugins parse_workers parse_transport
    parse_connection_pool parse_hot_reload parse_reload parse_probing parse_observability
    parse_dashboard parse_tun parse_entries collect parse_inbound object_item read_string text_value
    trim_start trim_end read_number number_value read_optional_number inbound_with inbound_of_type
    parse_auth parse_outbound outbound_with outbound_of_type parse_router router_of router_rules
    parse_list array_value check_config check_unique_tags check_dns_references check_known
    check_public_exposure check_inbounds check_outbound_references check_policy_tags
    check_policy_outbounds
unknown_target_test = refl

public_test :
    parse_config platform (document (codes "0.0.0.0") "out")
    ≡ err (invalid ((record { place = []; reason = public_listener }) ∷ []))
unfolding parse_config read_config read_sections parse_config_version get put parse_log section
    parse_limits parse_dns parse_geo parse_plugins parse_workers parse_transport
    parse_connection_pool parse_hot_reload parse_reload parse_probing parse_observability
    parse_dashboard parse_tun parse_entries collect parse_inbound object_item read_string text_value
    trim_start trim_end read_number number_value read_optional_number inbound_with inbound_of_type
    parse_auth parse_outbound outbound_with outbound_of_type parse_router router_of router_rules
    parse_list array_value check_config check_unique_tags check_dns_references check_known
    check_public_exposure check_inbounds check_outbound_references check_policy_tags
    check_policy_outbounds
public_test = refl

parse_config-IsConsistent_example : IsConsistent config
parse_config-IsConsistent_example = parse_config-IsConsistent platform local config local_parses

parse_config-IsGuarded_example : IsGuarded config
parse_config-IsGuarded_example = parse_config-IsGuarded platform local config local_parses

parse_config-NumbersInRange_example : NumbersInRange config
parse_config-NumbersInRange_example = parse_config-NumbersInRange platform local config local_parses

abbrev migrated : MigrationResult
migrated = record {
  config = ("configVersion", numeral (natural 1)) ∷ [];
  warnings = version_deprecated ∷ [];
}

old_document :
    migrate_config (object (member "configVersion" (numeral (natural 0)) end_members)) ≡ ok migrated
unfolding migrate_config migrate_record get put
old_document = refl

migrate_config-stable_example :
    (migrate_record migrated.config ≡ ok (record { config = migrated.config; warnings = [] }))
    × ((place : Place)
        → (parse_config_version place (get "configVersion" migrated.config)).issues ≡ [])
migrate_config-stable_example =
    migrate_config-stable (object (member "configVersion" (numeral (natural 0)) end_members))
      migrated old_document

abbrev tags : List Text
tags = codes "in" ∷ codes "out" ∷ []

check_unique_tags-IsDistinct_example :
    ((check_unique_tags (field "inbounds" ∷ []) [] tags).issues ≡ []) ↔ IsDistinct tags
check_unique_tags-IsDistinct_example = check_unique_tags-IsDistinct (field "inbounds" ∷ []) tags
