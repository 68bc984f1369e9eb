-- ===== src/Router/Prober.antt =====
-- router/prober.ts: which targets are probed, the workers of a run, and the backoff after failures.
pub mod Runs
mod Tests
use sepigs.Base.{
  ℕ, suc, ◌+◌, ◌-◌, ◌*◌, ◌^◌, ◌≤◌, ◌<◌, min, ◌≡◌, Bool, true, false, Option, none, some, List, [],
  ◌∷◌, ◌++◌, leb, nat_eq, string_eq, length, get_elem?, take, filter, not, ◌||◌, ◌⊎◌, inl, inr,
  if◌then◌else◌,
}
use sepigs.Base.Table.{Table, get, put}
use sepigs.Base.Text.{Text, text_key}
use sepigs.Router.Policy.{RoutingPolicyManager, record_success, record_failure}
use sepigs.Config.Settings.{ProbingConfig}
use sepigs.Router.Health.{HealthStore, record_sample}

pub record ProbeState : Type 0 where
  pub failures : ℕ
  pub next_allowed_at : ℕ

-- What a prober changes: its own states and flags (`ticking`: its interval timer is set), the health
-- store and the policy manager.
pub record ActiveProber (L : Type 0) : Type 0 where
  pub states : Table Text ProbeState
  pub health_store : HealthStore L
  pub policy_manager : RoutingPolicyManager L
  pub ticking : Bool
  pub running : Bool

pub record ProbeRunSummary : Type 0 where
  pub attempted : ℕ
  pub skipped : ℕ
  pub succeeded : ℕ
  pub failed : ℕ

-- `Math.min(backoffMaxMs, backoffBaseMs * 2 ** Math.min(failures - 1, 16))`
unfoldable pub backoff_ms : ProbingConfig → ℕ → ℕ
backoff_ms config failures =
    min config.backoff_max_ms (config.backoff_base_ms * 2 ^ min (failures - 1) 16)

abbrev pub failures_of : Option ProbeState → ℕ
failures_of none = 0
failures_of (some s) = s.failures

abbrev pub allows : ℕ → Option ProbeState → Bool
allows now none = true
allows now (some s) = leb s.next_allowed_at now

-- `canProbe`
unfoldable pub can_probe : ℕ → Table Text ProbeState → Text → Bool
can_probe now states tag = allows now (get tag states)

-- The targets of a run, by their tags.
unfoldable pub runnable : ProbingConfig → ℕ → Table Text ProbeState → List Text → List Text
runnable config now states targets =
    take config.budget_per_interval (filter (can_probe now states) targets)

module _ {L : Type 0} where
  unfoldable pub probe_succeeded : (L → L → L) → Text → L → ℕ → ActiveProber L → ActiveProber L
  probe_succeeded blend tag latency now p = record p {
    states = put tag (record { failures = 0; next_allowed_at = 0 }) p.states;
    health_store =
        record_sample (record { tag = tag; ok = true; latency_ms = latency; timestamp = now })
          p.health_store;
    policy_manager = record_success blend tag latency p.policy_manager;
  }

  unfoldable pub probe_failed : ProbingConfig → Text → L → ℕ → ActiveProber L → ActiveProber L
  probe_failed config tag latency now p =
      let failures = failures_of (get tag p.states) + 1 in
      record p {
        states =
            put tag
              (record { failures = failures; next_allowed_at = now + backoff_ms config failures })
              p.states;
        health_store =
            record_sample (record { tag = tag; ok = false; latency_ms = latency; timestamp = now })
              p.health_store;
        policy_manager = record_failure now tag p.policy_manager;
      }

-- A run of `runOnce`: `waiting` are the workers before the test of their loop, `in_flight` the targets
-- whose probes are awaited, `left` the workers whose loop has ended.
pub record Run (L : Type 0) : Type 0 where
  pub targets : List Text
  pub next_index : ℕ
  pub waiting : ℕ
  pub in_flight : List Text
  pub left : ℕ
  pub succeeded : ℕ
  pub failed : ℕ
  pub prober : ActiveProber L

module _ {L : Type 0} where
  unfoldable pub start_run : ProbingConfig → List Text → ActiveProber L → Run L
  start_run config targets p = record {
    targets = targets;
    next_index = 0;
    waiting = min config.max_concurrency (length targets);
    in_flight = [];
    left = 0;
    succeeded = 0;
    failed = 0;
    prober = p;
  }

  abbrev pub new_prober : RoutingPolicyManager L → HealthStore L → ActiveProber L
  new_prober manager store = record {
    states = [];
    health_store = store;
    policy_manager = manager;
    ticking = false;
    running = false;
  }

  -- The timer's callback is a call of `run_once`.
  abbrev pub start : ProbingConfig → ActiveProber L → ActiveProber L
  start config p = if not config.enabled || p.ticking then p else record p { ticking = true }

  abbrev pub stop : ActiveProber L → ActiveProber L
  stop p = record p { ticking = false }

  -- `runOnce` up to its workers: refused while another run is on its way.
  abbrev pub run_once : ProbingConfig → ℕ → List Text → ActiveProber L → ProbeRunSummary ⊎ Run L
  run_once config now targets p =
      if p.running
      then inl (record { attempted = 0; skipped = length targets; succeeded = 0; failed = 0 })
      else inr
          (start_run config (runnable config now p.states targets) (record p { running = true }))

  -- `runOnce` behind its workers, for the targets that it was given.
  abbrev pub finish_run : List Text → Run L → ProbeRunSummary × ActiveProber L
  finish_run targets r = (
    record {
      attempted = length r.targets;
      skipped = length targets - length r.targets;
      succeeded = r.succeeded;
      failed = r.failed;
    },
    record r.prober { running = false },
  )

  -- A worker takes the next target, a probe ends well or badly, in any order, or a worker's loop ends.
  pub data RunStep (config : ProbingConfig) (blend : L → L → L) : Run L → Run L → Type 0 where
    take_target :
        (r : Run L) (idle : ℕ) (tag : Text)
        → r.waiting ≡ suc idle
        → r.next_index < length r.targets
        → get_elem? r.targets r.next_index ≡ some tag
        → RunStep config blend r (record r {
          waiting = idle;
          next_index = r.next_index + 1;
          in_flight = r.in_flight ++ tag ∷ [];
        })
    succeed :
        (r : Run L) (before after : List Text) (tag : Text) (latency : L) (now : ℕ)
        → r.in_flight ≡ before ++ tag ∷ after
        → RunStep config blend r (record r {
          waiting = r.waiting + 1;
          in_flight = before ++ after;
          succeeded = r.succeeded + 1;
          prober = probe_succeeded blend tag latency now r.prober;
        })
    fail :
        (r : Run L) (before after : List Text) (tag : Text) (latency : L) (now : ℕ)
        → r.in_flight ≡ before ++ tag ∷ after
        → RunStep config blend r (record r {
          waiting = r.waiting + 1;
          in_flight = before ++ after;
          failed = r.failed + 1;
          prober = probe_failed config tag latency now r.prober;
        })
    leave :
        (r : Run L) (idle : ℕ)
        → r.waiting ≡ suc idle
        → length r.targets ≤ r.next_index
        → RunStep config blend r (record r { waiting = idle; left = r.left + 1 })

  -- The runs of a number of steps.
  pub data Steps (config : ProbingConfig) (blend : L → L → L) : ℕ → Run L → Run L → Type 0 where
    started : (r : Run L) → Steps config blend 0 r r
    more :
        {r s t : Run L} {k : ℕ}
        → Steps config blend k r s
        → RunStep config blend s t
        → Steps config blend (k + 1) r t
