-- ===== src/Router/Rules/First.antt =====
-- router/rules.ts and router/router.ts: which rule decides.
use sepigs.Base.{
  ◌≡◌, refl, ap, ◌⊎◌, inl, inr, true, false, none, some, List, [], ◌∷◌, ◌++◌, nat_eq, string_eq,
  Bool-cases, All,
}
use sepigs.Base.Text.{text_key}
use sepigs.Protocol.Destination.{Destination, Platform}
use sepigs.Router.Rules.{
  RouteMatch, CompiledRouteRule, domain_allows, suffix_allows, cidr_allows, port_allows, match_rule,
  Router, first_match, match_route,
}

module _ (p : Platform) (d : Destination) where
  -- All the conditions that the rule has hold.
  pub record Allows (r : CompiledRouteRule) : Type 0 where
    pub by_domain : domain_allows p r d ≡ true
    pub by_suffix : suffix_allows p r d ≡ true
    pub by_cidr : cidr_allows p r d ≡ true
    pub by_port : port_allows p r d ≡ true

  abbrev found_by : CompiledRouteRule → RouteMatch
  found_by r = record { rule_tag = r.config.tag; outbound_tag = r.config.outbound_tag }

  -- A rule gives its outbound exactly when it allows the destination.
  match_rule-cases :
      (r : CompiledRouteRule)
      → (Allows r × (match_rule p r d ≡ some (found_by r)))
        ⊎ ((¬ Allows r) × (match_rule p r d ≡ none))
  unfolding match_rule
  match_rule-cases r = elim (Bool-cases (domain_allows p r d)) [
    | inr a ↦ inr (λ w. cc (a, w.by_domain), rw a refl)
    | inl a ↦ elim (Bool-cases (suffix_allows p r d)) [
      | inr b ↦ inr (λ w. cc (b, w.by_suffix), rw (a, b) refl)
      | inl b ↦ elim (Bool-cases (cidr_allows p r d)) [
        | inr c ↦ inr (λ w. cc (c, w.by_cidr), rw (a, b, c) refl)
        | inl c ↦ elim (Bool-cases (port_allows p r d)) [
          | inr e ↦ inr (λ w. cc (e, w.by_port), rw (a, b, c, e) refl)
          | inl e ↦ inl (
            record { by_domain = a; by_suffix = b; by_cidr = c; by_port = e },
            rw (a, b, c, e) refl,
          )
        ]
      ]
    ]
  ]

  -- The rule that decides, with those before it.
  pub record Decides (rules : List CompiledRouteRule) : Type 0 where
    pub before : List CompiledRouteRule
    pub rule : CompiledRouteRule
    pub behind : List CompiledRouteRule
    pub split : rules ≡ before ++ rule ∷ behind
    pub none_before : All (λ r. ¬ Allows r) before
    pub allows : Allows rule

  first_match-cases :
      (rules : List CompiledRouteRule)
      → ((w : Decides rules) × (first_match p rules d ≡ some (found_by w.rule)))
        ⊎ (All (λ r. ¬ Allows r) rules × (first_match p rules d ≡ none))
  unfolding first_match
  first_match-cases [] = inr (tt, refl)
  first_match-cases (r ∷ rules) = elim (match_rule-cases r) [
    | inl (w, e) ↦ inl (
      record { before = []; rule = r; behind = rules; split = refl; none_before = tt; allows = w },
      rw (e, first_match) refl,
    )
    | inr (n, e) ↦ elim (first_match-cases rules) [
      | inl (w, f) ↦ inl (
        record {
          before = r ∷ w.before;
          rule = w.rule;
          behind = w.behind;
          split = ap (◌∷◌ r) w.split;
          none_before = (n, w.none_before);
          allows = w.allows;
        },
        rw (e, first_match) f,
      )
      | inr (all, f) ↦ inr ((n, all), rw (e, first_match) f)
    ]
  ]

  -- The first rule that allows the destination gives the outbound and its tag; if there is none, the
  -- default outbound is given, as not matched.
  pub match_route_lem :
      (router : Router)
      → ((w : Decides router.rules) × (match_route p router d ≡ record {
        outbound_tag = w.rule.config.outbound_tag;
        rule_tag = w.rule.config.tag;
        matched = true;
      }))
        ⊎ (All (λ r. ¬ Allows r) router.rules
            × (match_route p router d ≡ record {
              outbound_tag = router.default_outbound;
              rule_tag = none;
              matched = false;
            }))
  unfolding match_route
  match_route_lem router = elim (first_match-cases router.rules) [
    | inl (w, e) ↦ inl (w, rw (e, match_route) refl)
    | inr (all, e) ↦ inr (all, rw (e, match_route) refl)
  ]
