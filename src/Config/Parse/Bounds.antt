-- ===== src/Config/Parse/Bounds.antt =====
-- The numbers in the configurations that parseConfig of config/schema.ts returns.
use sepigs.Base.{
  ℕ, ◌+◌, ◌≤◌, ◌≡◌, refl, sym, subst, Bool, Option, none, some, List, [], ◌∷◌, ◌++◌, arith, nat_eq,
  string_eq, if_either, All,
}
use sepigs.Base.Table.{get}
use sepigs.Base.Text.{Text, codes, text_eq, text_key}
use sepigs.Protocol.Destination.{Platform}
use sepigs.Config.Json.{
  Json, null, boolean, numeral, text, array, object, Object, elements, entries,
}
use sepigs.Config.Checked.{field, element, Place, Checked, cons_some}
use sepigs.Config.Read.{is_extension_type, read_number, collect}
use sepigs.Config.Settings.{
  WorkerConfig, ConnectionPoolConfig, MetricsServerConfig, DashboardConfig, TunConfig,
}
use sepigs.Config.DnsSection.{object_item}
use sepigs.Config.Sections.{
  parse_limits, parse_workers, parse_connection_pool, parse_probing, parse_observability,
  parse_dashboard, parse_tun,
}
use sepigs.Config.Inbounds.{
  shadowsocks_config, trojan_config, InboundBase, InboundTls, InboundConfig, inbound_of_type,
  inbound_with, parse_inbound,
}
use sepigs.Config.Inbounds.{base}
use sepigs.Base.Result.{ok}
use sepigs.Config.Parse.{SepigsConfig, parse_entries, read_sections, read_config, parse_config}
use sepigs.Config.Parse.Outcome.{outcome-ok}
use sepigs.Config.Sections.Ranges.{
  InRange, OptionInRange, LimitsInRange, ProbingInRange, number_value-InRange, number_or-InRange,
  section-either, limits_of-InRange, default_limits-InRange, probing_of-InRange,
  default_probing-InRange,
}

abbrev PortInRange : InboundConfig → Type 0
PortInRange i = (base i).port ≤ 65535

abbrev IfRead {ℓ κ} : {A : Type ℓ} → (A → Type κ) → Option A → Type κ
IfRead P none = Unit
IfRead P (some a) = P a

shadowsocks_config-port :
    (b : InboundBase) (method password : Option Text) (udp : Bool)
    → b.port ≤ 65535
    → IfRead PortInRange (shadowsocks_config b method password udp)
shadowsocks_config-port b (some m) (some w) udp h = h
shadowsocks_config-port b (some m) none udp h = tt
shadowsocks_config-port b none w udp h = tt

trojan_config-port :
    (b : InboundBase) (password : Option Text) (tls : InboundTls)
    → b.port ≤ 65535
    → IfRead PortInRange (trojan_config b password tls)
trojan_config-port b (some w) tls h = h
trojan_config-port b none tls h = tt

inbound_of_type-port :
    (type : Text) (b : InboundBase) (path : Place) (raw : Object)
    → b.port ≤ 65535
    → IfRead PortInRange (inbound_of_type type b path raw).value
unfolding inbound_of_type
inbound_of_type-port type b path raw h =
    if_either P (text_eq type (codes "http")) (λ _. h)
      (λ _.
        if_either P (text_eq type (codes "socks5")) (λ _. h)
          (λ _.
            if_either P (text_eq type (codes "shadowsocks"))
              (λ _. shadowsocks_config-port b _ _ _ h)
              (λ _.
                if_either P (text_eq type (codes "trojan")) (λ _. trojan_config-port b _ _ h)
                  (λ _. if_either P (is_extension_type type) (λ _. h) (λ _. tt)))))
  where
    P : Checked (Option InboundConfig) → Type 0
    P m = IfRead PortInRange m.value

inbound_with-port :
    (type tag listen : Option Text) (port : Option ℕ) (make : Text → Text → ℕ → InboundBase)
    (path : Place) (raw : Object)
    → OptionInRange 0 65535 port
    → ((t l : Text) (n : ℕ) → (make t l n).port ≡ n)
    → IfRead PortInRange (inbound_with type tag listen port make path raw).value
unfolding inbound_with
inbound_with-port (some y) (some t) (some l) (some n) make path raw h e =
    inbound_of_type-port y (make t l n) path raw (subst (λ m. m ≤ 65535) (sym (e t l n)) h.1)
inbound_with-port none t l n make path raw h e = tt
inbound_with-port (some y) none l n make path raw h e = tt
inbound_with-port (some y) (some t) none n make path raw h e = tt
inbound_with-port (some y) (some t) (some l) none make path raw h e = tt

parse_inbound-port : (path : Place) (j : Json) → IfRead PortInRange (parse_inbound path j).value
unfolding parse_inbound object_item read_number
parse_inbound-port path (object ms) =
    inbound_with-port _ _ _ _ _ path (entries ms)
      (number_value-InRange (path ++ field "port" ∷ []) 0 65535 (get "port" (entries ms)))
      (λ t l n. refl)
parse_inbound-port path null = tt
parse_inbound-port path (boolean b) = tt
parse_inbound-port path (numeral n) = tt
parse_inbound-port path (text t) = tt
parse_inbound-port path (array js) = tt

cons_some-All {ℓ κ} :
    {A : Type ℓ} (P : A → Type κ) (o : Option A) (xs : List A)
    → IfRead P o
    → All P xs
    → All P (cons_some o xs)
cons_some-All P none xs h k = k
cons_some-All P (some a) xs h k = (h, k)

collect-All {ℓ κ} :
    {A : Type ℓ} (P : A → Type κ) (parse : Place → Json → Checked (Option A))
    → ((path : Place) (j : Json) → IfRead P (parse path j).value)
    → (place : Place) (i : ℕ) (js : List Json) → All P (collect parse place i js).value
unfolding collect
collect-All P parse h place i [] = tt
collect-All P parse h place i (j ∷ js) =
    cons_some-All P _ _ (h (place ++ element i ∷ []) j) (collect-All P parse h place (i + 1) js)

parse_entries-ports :
    (place : Place) (v : Option Json) → All PortInRange (parse_entries parse_inbound place v).value
unfolding parse_entries
parse_entries-ports place (some (array js)) =
    collect-All PortInRange parse_inbound parse_inbound-port place 0 (elements js)
parse_entries-ports place none = tt
parse_entries-ports place (some null) = tt
parse_entries-ports place (some (boolean b)) = tt
parse_entries-ports place (some (numeral n)) = tt
parse_entries-ports place (some (text t)) = tt
parse_entries-ports place (some (object ms)) = tt

pub record NumbersInRange (c : SepigsConfig) : Type 0 where
  pub limits : LimitsInRange c.limits
  pub probing : ProbingInRange c.probing
  pub workers : InRange 1 128 c.workers.size
  pub pool : InRange 0 10000 c.connection_pool.max_idle_per_endpoint
  pub metrics_port : InRange 0 65535 c.observability.port
  pub dashboard_port : InRange 0 65535 c.dashboard.port
  pub mtu : InRange 576 65535 c.tun.mtu
  pub inbound_ports : All (λ i. (base i).port ≤ 65535) c.inbounds

read_config-NumbersInRange :
    (p : Platform) (input : Object) → NumbersInRange (read_config p input).value.1
unfolding read_config read_sections parse_limits parse_probing parse_workers parse_connection_pool
    parse_observability parse_dashboard parse_tun
read_config-NumbersInRange p input = record {
  limits = section-either LimitsInRange _ _ _ _ default_limits-InRange (limits_of-InRange _);
  probing = section-either ProbingInRange _ _ _ _ default_probing-InRange (probing_of-InRange _);
  workers =
      section-either (λ (w : WorkerConfig). InRange 1 128 w.size) _ _ _ _ (omega arith, omega arith)
        (λ raw. number_or-InRange raw "size" _ 1 128 1 (omega arith) (omega arith));
  pool =
      section-either (λ (w : ConnectionPoolConfig). InRange 0 10000 w.max_idle_per_endpoint) _ _ _ _
        (omega arith, omega arith)
        (λ raw. number_or-InRange raw "maxIdlePerEndpoint" _ 0 10000 8 (omega arith) (omega arith));
  metrics_port =
      section-either (λ (w : MetricsServerConfig). InRange 0 65535 w.port) _ _ _ _
        (omega arith, omega arith)
        (λ raw.
          section-either (λ (w : MetricsServerConfig). InRange 0 65535 w.port) _ _ _ _
            (omega arith, omega arith)
            (λ inner. number_or-InRange inner "port" _ 0 65535 19090 (omega arith) (omega arith)));
  dashboard_port =
      section-either (λ (w : DashboardConfig). InRange 0 65535 w.port) _ _ _ _
        (omega arith, omega arith)
        (λ raw. number_or-InRange raw "port" _ 0 65535 19091 (omega arith) (omega arith));
  mtu =
      section-either (λ (w : TunConfig). InRange 576 65535 w.mtu) _ _ _ _ (omega arith, omega arith)
        (λ raw. number_or-InRange raw "mtu" _ 576 65535 1500 (omega arith) (omega arith));
  inbound_ports = parse_entries-ports (field "inbounds" ∷ []) (get "inbounds" input);
}

-- In a configuration that parseConfig returns, every limit, the probing intervals and backoffs, the
-- number of workers, the size of the pool, the ports of the metrics and the dashboard, the MTU and the
-- port of every inbound are in the ranges that the schema names, whether they were given or left out.
pub parse_config-NumbersInRange :
    (p : Platform) (j : Json) (c : SepigsConfig) → parse_config p j ≡ ok c → NumbersInRange c
unfolding parse_config
parse_config-NumbersInRange p (object ms) c h =
    subst NumbersInRange (outcome-ok _ _ c h).1 (read_config-NumbersInRange p (entries ms))
parse_config-NumbersInRange p null c h = absurd (cc h)
parse_config-NumbersInRange p (boolean b) c h = absurd (cc h)
parse_config-NumbersInRange p (numeral n) c h = absurd (cc h)
parse_config-NumbersInRange p (text t) c h = absurd (cc h)
parse_config-NumbersInRange p (array js) c h = absurd (cc h)
