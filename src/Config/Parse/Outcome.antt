-- ===== src/Config/Parse/Outcome.antt =====
-- The issues of parseConfig of config/schema.ts, when it returns a configuration.
use sepigs.Base.{
  ◌≡◌, refl, subst, ◌≢◌, inl, inr, Option, none, some, List, [], ◌∷◌, arith, nat_eq, string_eq,
  Option-cases,
}
use sepigs.Base.Table.{get}
use sepigs.Base.Text.{Text, text_key}
use sepigs.Protocol.Destination.{Platform}
use sepigs.Config.Json.{Json, null, boolean, numeral, text, array, object, Object, entries}
use sepigs.Config.Checked.{field, Place, Reason, Issue}
use sepigs.Config.Read.{text_value, read_string}
use sepigs.Config.DnsSection.{GeoConfig}
use sepigs.Config.Routes.{
  RoutingPolicyConfig, RouteRuleConfig, RouteRuleSetFileConfig, RouterConfig, router_rules,
  router_of, parse_router, router_config,
}
use sepigs.Base.Result.{ok}
use sepigs.Config.Parse.{
  SepigsConfig, check_config, read_sections, read_config, outcome, parse_config,
}
use sepigs.Config.Checked.Silent.{append-nil_both, append-nil_rest}

pub outcome-ok : (es : List Issue) (c d : SepigsConfig) → outcome es c ≡ ok d → (es ≡ []) × (c ≡ d)
outcome-ok [] c d h = (refl, cc h)
outcome-ok (e ∷ es) c d h = absurd (cc h)

-- Without an issue the text of a required field is there.
text_value-given :
    (place : Place) (reason : Reason) (v : Option Json)
    → (text_value place reason v).issues ≡ []
    → (text_value place reason v).value ≢ none
unfolding text_value
text_value-given place reason (some (text t)) h = ground arith
text_value-given place reason none h = absurd (cc h)
text_value-given place reason (some null) h = absurd (cc h)
text_value-given place reason (some (boolean b)) h = absurd (cc h)
text_value-given place reason (some (numeral n)) h = absurd (cc h)
text_value-given place reason (some (array js)) h = absurd (cc h)
text_value-given place reason (some (object ms)) h = absurd (cc h)

router_config-given :
    (o : Option Text) (rules : List RouteRuleConfig) (files : List RouteRuleSetFileConfig)
    (policies : List RoutingPolicyConfig)
    → o ≢ none
    → router_config o rules files policies ≢ none
router_config-given none rules files policies n h = absurd (n refl)
router_config-given (some o) rules files policies n h = cc h

router_rules-given :
    (p : Platform) (geo : GeoConfig) (path : Place) (o : Option Text) (raw : Object)
    (v : Option Json)
    → (router_rules p geo path o raw v).issues ≡ []
    → o ≢ none
    → (router_rules p geo path o raw v).value ≢ none
unfolding router_rules
router_rules-given p geo path o raw (some (array js)) h n = router_config-given o _ _ _ n
router_rules-given p geo path o raw none h n = absurd (cc h)
router_rules-given p geo path o raw (some null) h n = absurd (cc h)
router_rules-given p geo path o raw (some (boolean b)) h n = absurd (cc h)
router_rules-given p geo path o raw (some (numeral x)) h n = absurd (cc h)
router_rules-given p geo path o raw (some (text t)) h n = absurd (cc h)
router_rules-given p geo path o raw (some (object ms)) h n = absurd (cc h)

router_of-given :
    (p : Platform) (geo : GeoConfig) (path : Place) (v : Option Json)
    → (router_of p geo path v).issues ≡ []
    → (router_of p geo path v).value ≢ none
unfolding router_of read_string
router_of-given p geo path (some (object ms)) h =
    let (now, later) = append-nil_both _ _ h in
    router_rules-given p geo path _ (entries ms) _ later (text_value-given _ _ _ now)
router_of-given p geo path none h = absurd (cc h)
router_of-given p geo path (some null) h = absurd (cc h)
router_of-given p geo path (some (boolean b)) h = absurd (cc h)
router_of-given p geo path (some (numeral x)) h = absurd (cc h)
router_of-given p geo path (some (text t)) h = absurd (cc h)
router_of-given p geo path (some (array js)) h = absurd (cc h)

-- Without an issue the section `route` was read.
read_config-route :
    (p : Platform) (input : Object)
    → (read_config p input).issues ≡ []
    → (read_config p input).value.0 ≢ none
unfolding read_config parse_router
read_config-route p input h =
    let rest = append-nil_rest (read_sections input).issues _ h in
    let (h1, h2) = append-nil_both _ _ rest in
    let (h3, h4) = append-nil_both _ _ h2 in
    let (h5, h6) = append-nil_both _ _ h4 in
    router_of-given p (read_sections input).value.geo (field "route" ∷ []) (get "route" input) h5

-- What is checked of a configuration, when the section `route` was read.
pub parse_config-checked :
    (p : Platform) (j : Json) (c : SepigsConfig)
    → parse_config p j ≡ ok c
    → (route : RouterConfig) × ((check_config (some route) c).issues ≡ [])
unfolding parse_config
parse_config-checked p (object ms) c h =
    let (quiet, e) = outcome-ok _ _ c h in
    let (read, checked) = append-nil_both _ _ quiet in
    elim (Option-cases (read_config p (entries ms)).value.0) [
      | inl gone ↦ absurd (read_config-route p (entries ms) read gone)
      | inr (route, given) ↦ (
        route,
        subst (λ d. (check_config (some route) d).issues ≡ []) e
            (subst (λ r. (check_config r (read_config p (entries ms)).value.1).issues ≡ []) given
              checked),
      )
    ]
parse_config-checked p null c h = absurd (cc h)
parse_config-checked p (boolean b) c h = absurd (cc h)
parse_config-checked p (numeral n) c h = absurd (cc h)
parse_config-checked p (text t) c h = absurd (cc h)
parse_config-checked p (array js) c h = absurd (cc h)
