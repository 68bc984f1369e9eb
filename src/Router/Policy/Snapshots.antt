-- ===== src/Router/Policy/Snapshots.antt =====
-- router/policy.ts: what a manager starts from and what it shows, and LatencyProbe.
use sepigs.Base.{ℕ, List, [], ◌∷◌, map, Bool, true, false, Option, none, some}
use sepigs.Base.Table.{Table, put}
use sepigs.Base.Text.{Text, text_key}
use sepigs.Config.Routes.{RoutingPolicyConfig, LoadBalanceStrategy}
use sepigs.Router.Policy.{
  OutboundHealth, RoutingPolicyManager, filter_healthy, reload, record_success, record_failure,
}

pub record RoutingPolicySnapshot : Type 0 where
  pub tag : Text
  pub type : Text
  pub strategy : LoadBalanceStrategy
  pub outbounds : List Text
  pub healthy_outbounds : List Text

pub record LatencyProbeResult (L : Type 0) : Type 0 where
  pub tag : Text
  pub ok : Bool
  pub latency_ms : L
  pub error : Option Text

module _ {L : Type 0} where
  -- The constructor: what an earlier manager knew, then the policies. A health snapshot has the fields
  -- of a health.
  unfoldable pub with_health :
      List (OutboundHealth L) → RoutingPolicyManager L → RoutingPolicyManager L
  with_health [] m = m
  with_health (h ∷ hs) m = with_health hs (record m { health = put h.tag h m.health })

  unfoldable pub new_policy_manager :
      List RoutingPolicyConfig → List (OutboundHealth L) → RoutingPolicyManager L
  new_policy_manager policies initial_health =
      reload policies
        (with_health initial_health (record { policies = []; health = []; round_robin_index = [] }))

  unfoldable pub snapshots_of :
      ℕ
      → Table Text RoutingPolicyConfig
      → RoutingPolicyManager L
      → List RoutingPolicySnapshot × RoutingPolicyManager L
  snapshots_of now [] m = ([], m)
  snapshots_of now ((tag, policy) ∷ policies) m =
      let (healthy, after) = filter_healthy now policy policy.outbounds m in
      let (rest, last) = snapshots_of now policies after in
      (
        record {
          tag = policy.tag;
          type = policy.type;
          strategy = policy.strategy;
          outbounds = policy.outbounds;
          healthy_outbounds = healthy;
        }
            ∷ rest,
        last,
      )

  -- `getPolicySnapshots`
  abbrev pub get_policy_snapshots :
      ℕ → RoutingPolicyManager L → List RoutingPolicySnapshot × RoutingPolicyManager L
  get_policy_snapshots now m = snapshots_of now m.policies m

  -- `getHealthSnapshots`
  abbrev pub get_health_snapshots : RoutingPolicyManager L → List (OutboundHealth L)
  get_health_snapshots m = map (λ (e : Text × OutboundHealth L). e.1) m.health

  -- `probe`: the promise of the probe function has ended, with an error's message or without one.
  abbrev pub probe :
      (L → L → L)
      → Text
      → L
      → ℕ
      → Option Text
      → RoutingPolicyManager L
      → LatencyProbeResult L × RoutingPolicyManager L
  probe blend tag latency now none m = (
    record { tag = tag; ok = true; latency_ms = latency; error = none },
    record_success blend tag latency m,
  )
  probe blend tag latency now (some message) m = (
    record { tag = tag; ok = false; latency_ms = latency; error = some message },
    record_failure now tag m,
  )
