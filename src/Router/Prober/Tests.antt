-- ===== src/Router/Prober/Tests.antt =====
-- Two targets and one worker.
use sepigs.Base.{
  false, ℕ, ◌+◌, ◌*◌, ◌/◌, ◌≤◌, ◌≡◌, refl, ◌⊎◌, List, [], ◌∷◌, arith, nat_eq, string_eq, length,
}
use sepigs.Base.Table.{get}
use sepigs.Base.Text.{Text, codes, text_key}
use sepigs.Config.Settings.{ProbingConfig}
use sepigs.Router.Prober.{
  ActiveProber, backoff_ms, can_probe, runnable, Run, start_run, RunStep, take_target, Steps,
  started, more,
}
use sepigs.Router.Prober.Runs.{run-terminates}
use sepigs.Config.Settings.{default_probing}

abbrev idle_prober : ActiveProber ℕ
idle_prober = record {
  states = [];
  health_store = record { max_samples = 64; buckets = [] };
  policy_manager = record { policies = []; health = []; round_robin_index = [] };
  ticking = false;
  running = false;
}

abbrev one_worker : ProbingConfig
one_worker = record default_probing { max_concurrency = 1 }

abbrev pair_of_targets : List Text
pair_of_targets = codes "a" ∷ codes "b" ∷ []

abbrev average : ℕ → ℕ → ℕ
average a b = (a + b) / 2

abbrev begun : Run ℕ
begun = start_run one_worker pair_of_targets idle_prober

abbrev first_taken : Run ℕ
unfolding start_run
first_taken = record begun { waiting = 0; next_index = 1; in_flight = codes "a" ∷ [] }

taking : Steps one_worker average 1 begun first_taken
unfolding start_run
taking = more (started begun) (take_target begun 0 (codes "a") refl (omega arith) refl)

backoff_test : backoff_ms default_probing 3 ≡ 4000
unfolding backoff_ms
backoff_test = refl

runnable_test :
    runnable
      (record default_probing { budget_per_interval = 1 })
      50
      ((codes "a", record { failures = 1; next_allowed_at = 60 }) ∷ [])
      (codes "a" ∷ codes "b" ∷ codes "c" ∷ [])
    ≡ codes "b" ∷ []
unfolding runnable can_probe get
runnable_test = refl

run-terminates_example :
    (1 ≤ 3 * 2 + 1)
    × (length first_taken.in_flight ≤ 1)
    × (length first_taken.targets ≡ 2)
    × (((s : Run ℕ) × RunStep one_worker average first_taken s)
        ⊎ (first_taken.succeeded + first_taken.failed ≡ length first_taken.targets))
run-terminates_example =
    run-terminates one_worker average 7 pair_of_targets idle_prober 1 first_taken (omega arith)
      taking
