-- ===== src/Router/Policy/Tests.antt =====
-- Two outbounds, one of which failed.
use sepigs.Base.{ℕ, ◌≡◌, refl, none, some, [], ◌∷◌, ltb, nat_eq, string_eq}
use sepigs.Base.Table.{get, put}
use sepigs.Base.Text.{codes, text_key}
use sepigs.Config.Routes.{RoutingPolicyConfig, round_robin}
use sepigs.Config.References.Sound.{IsDistinct}
use sepigs.Router.Policy.{
  OutboundHealth, RoutingPolicyManager, get_health, is_healthy, filter_healthy,
  pick_load_balance_first, balance, select_load_balance, select,
}
use sepigs.Router.Policy.Healthy.{healthy_at}
use sepigs.Router.Policy.Order.{IsOrdered}
use sepigs.Router.Policy.Selecting.{select-IsOrdered}

abbrev failing : OutboundHealth ℕ
failing = record {
  tag = codes "a";
  failures = 5;
  last_failure_at = some 100;
  latency_ewma_ms = none;
  successes = 0;
}

abbrev policy : RoutingPolicyConfig
policy = record {
  tag = codes "auto";
  type = codes "loadBalance";
  outbounds = codes "a" ∷ codes "b" ∷ codes "c" ∷ [];
  strategy = round_robin;
  unhealthy_after_failures = 3;
  recover_after_ms = 1000;
}

abbrev manager : RoutingPolicyManager ℕ
manager = record {
  policies = (codes "auto", policy) ∷ [];
  health = (codes "a", failing) ∷ [];
  round_robin_index = (codes "auto", 1) ∷ [];
}

manager_policy : get (codes "auto") manager.policies ≡ some policy
unfolding get
manager_policy = refl

outbounds-IsDistinct : IsDistinct policy.outbounds
outbounds-IsDistinct = (refl, (refl, (refl, tt)))

balanced_test :
    (select ltb 0 200 (codes "auto") manager).0.candidates ≡ codes "c" ∷ codes "b" ∷ codes "a" ∷ []
unfolding select select_load_balance filter_healthy is_healthy get_health get put balance
    pick_load_balance_first
balanced_test = refl

select-IsOrdered_example :
    IsOrdered
      (healthy_at 200 policy manager)
      policy.outbounds
      (select ltb 0 200 (codes "auto") manager).0.candidates
select-IsOrdered_example =
    select-IsOrdered ltb 0 200 (codes "auto") policy manager manager_policy outbounds-IsDistinct
