-- ===== src/Config/Parse/Valid.antt =====
-- The checks of parseConfig of config/schema.ts.
use sepigs.Base.{
  ◌≤◌, ◌≡◌, ap, ◌≢◌, Bool, true, false, not, ◌&&◌, ◌||◌, some, List, [], ◌∷◌, arith, ltb, nat_eq,
  string_eq, length, All,
}
use sepigs.Base.Text.{codes, text_eq, text_eq_refl, text_key}
use sepigs.Protocol.Destination.{Platform}
use sepigs.Config.Json.{Json}
use sepigs.Config.Inbounds.{InboundConfig}
use sepigs.Config.Routes.{RouterConfig}
use sepigs.Config.Inbounds.{base}
use sepigs.Config.References.{policy_tags, server_tags, dns_targets, check_dns_references}
use sepigs.Base.Result.{ok}
use sepigs.Config.Parse.{
  SepigsConfig, is_public, is_authenticated, check_inbounds, check_public_exposure, inbound_tags,
  outbound_tags, module_tags, wasm_tags, check_config, parse_config,
}
use sepigs.Config.Checked.Silent.{append-nil_both, require_holds}
use sepigs.Config.References.Sound.{
  IsDistinct, check_unique_tags-IsDistinct, Knows, check_known-Knows, IsRouted,
  check_outbound_references-IsRouted,
}
use sepigs.Config.Parse.Outcome.{parse_config-checked}

-- Tags are distinct and every reference resolves.
pub record IsConsistent (c : SepigsConfig) : Type 0 where
  pub inbounds_distinct : IsDistinct (inbound_tags c)
  pub outbounds_distinct : IsDistinct (outbound_tags c)
  pub modules_distinct : IsDistinct (module_tags c)
  pub wasm_distinct : IsDistinct (wasm_tags c)
  pub servers_distinct : IsDistinct (server_tags c.dns)
  pub policies_distinct : IsDistinct (policy_tags c.route)
  pub servers_known : Knows (server_tags c.dns) (dns_targets c.dns)
  pub routed : IsRouted (outbound_tags c) c.route

abbrev IsExposed : InboundConfig → Type 0
IsExposed i = is_public (base i).listen ≡ true

-- What listens on a public address asks for a password, and neither the metrics nor the dashboard do;
-- an enabled dashboard has a token of its own of 16 characters or more.
pub record IsGuarded (c : SepigsConfig) : Type 0 where
  pub inbounds_guarded : All (λ i. IsExposed i → is_authenticated i ≡ true) c.inbounds
  pub metrics_guarded : c.observability.enabled ≡ true → is_public c.observability.listen ≡ false
  pub dashboard_guarded : c.dashboard.enabled ≡ true → is_public c.dashboard.listen ≡ false
  pub token_own : c.dashboard.enabled ≡ true → c.dashboard.token ≢ codes "change-me"
  pub token_long : c.dashboard.enabled ≡ true → 16 ≤ length c.dashboard.token

check_inbounds-guarded :
    (is : List InboundConfig)
    → (check_inbounds is).issues ≡ []
    → All (λ i. IsExposed i → is_authenticated i ≡ true) is
unfolding check_inbounds
check_inbounds-guarded [] h = tt
check_inbounds-guarded (i ∷ is) h =
    let (now, later) = append-nil_both _ _ h in
    (
      exposed (is_public (base i).listen) _ (require_holds _ _ _ now),
      check_inbounds-guarded is later,
    )
  where
    exposed : (a b : Bool) → (not a || b) ≡ true → a ≡ true → b ≡ true
    exposed a b h k = ground arith

implied : (a b : Bool) → (not a || not b) ≡ true → a ≡ true → b ≡ false
implied a b h k = ground arith

both_not : (a b : Bool) → not (a && b) ≡ true → a ≡ true → b ≡ false
both_not a b h k = ground arith

either_not : (a b : Bool) → (a || b) ≡ false → (a ≡ false) × (b ≡ false)
either_not a b h = ground arith

check_public_exposure-IsGuarded :
    (c : SepigsConfig) → (check_public_exposure c).issues ≡ [] → IsGuarded c
unfolding check_public_exposure
check_public_exposure-IsGuarded c h =
    let (h0, r0) = append-nil_both _ _ h in
    let (h1, r1) = append-nil_both _ _ r0 in
    let (h2, h3) = append-nil_both _ _ r1 in
    let strong : c.dashboard.enabled ≡ true
        → (text_eq c.dashboard.token (codes "change-me") ≡ false)
          × (ltb (length c.dashboard.token) 16 ≡ false) =
      λ on. either_not _ _ (implied c.dashboard.enabled _ (require_holds _ _ _ h3) on) in
    record {
      inbounds_guarded = check_inbounds-guarded c.inbounds h0;
      metrics_guarded = both_not c.observability.enabled _ (require_holds _ _ _ h1);
      dashboard_guarded = implied c.dashboard.enabled _ (require_holds _ _ _ h2);
      token_own = λ on e. cc (
        (strong on).0,
        text_eq_refl (codes "change-me"),
        ap (λ t. text_eq t (codes "change-me")) e,
      );
      token_long = λ on. let short = (strong on).1 in ground arith;
    }

check_config-both :
    (route : RouterConfig) (c : SepigsConfig)
    → (check_config (some route) c).issues ≡ []
    → IsConsistent c × IsGuarded c
unfolding check_config check_dns_references
check_config-both route c h =
    let (h0, r0) = append-nil_both _ _ h in
    let (h1, r1) = append-nil_both _ _ r0 in
    let (h2, r2) = append-nil_both _ _ r1 in
    let (h3, r3) = append-nil_both _ _ r2 in
    let (h4, r4) = append-nil_both _ _ r3 in
    let (h5, r5) = append-nil_both _ _ r4 in
    let (h6, r6) = append-nil_both _ _ r5 in
    let (h7, h8) = append-nil_both _ _ r6 in
    (
      record {
        inbounds_distinct = (check_unique_tags-IsDistinct _ (inbound_tags c)).0 h0;
        outbounds_distinct = (check_unique_tags-IsDistinct _ (outbound_tags c)).0 h1;
        modules_distinct = (check_unique_tags-IsDistinct _ (module_tags c)).0 h2;
        wasm_distinct = (check_unique_tags-IsDistinct _ (wasm_tags c)).0 h3;
        servers_distinct = (check_unique_tags-IsDistinct _ (server_tags c.dns)).0 h4;
        policies_distinct = (check_unique_tags-IsDistinct _ (policy_tags c.route)).0 h5;
        servers_known = check_known-Knows _ _ _ 0 (dns_targets c.dns) h6;
        routed = check_outbound_references-IsRouted (outbound_tags c) c.route h8;
      },
      check_public_exposure-IsGuarded c h7,
    )

-- In a configuration that parseConfig returns, no tag stands twice among the inbounds, the outbounds,
-- the plugin modules, the WASM extensions, the DNS servers or the policies, no policy has an outbound's
-- tag, and the default outbound, the outbound of every rule and rule set file, the members of every
-- policy and the server of every DNS rule are tags that the configuration defines.
pub parse_config-IsConsistent :
    (p : Platform) (j : Json) (c : SepigsConfig) → parse_config p j ≡ ok c → IsConsistent c
parse_config-IsConsistent p j c h =
    let (route, checked) = parse_config-checked p j c h in (check_config-both route c checked).0

-- In a configuration that parseConfig returns, an inbound that listens on 0.0.0.0, :: or [::] is an HTTP
-- or SOCKS5 inbound with authentication enabled, enabled metrics and an enabled dashboard do not listen
-- there, and the token of an enabled dashboard is not the default and has at least 16 characters.
pub parse_config-IsGuarded :
    (p : Platform) (j : Json) (c : SepigsConfig) → parse_config p j ≡ ok c → IsGuarded c
parse_config-IsGuarded p j c h =
    let (route, checked) = parse_config-checked p j c h in (check_config-both route c checked).1
