-- ===== src/Reload/Executor.antt =====
-- reload/executor.ts: the phases of a reload, and what is undone when one fails. The outcomes of the
-- components' operations, which may end by the deadline, are arguments: none, or the error's message.
-- Events, metrics and durations are left out; `now` is the time of every transition.
pub mod Outcomes
pub mod Endings
pub mod Phases
mod Tests
use sepigs.Base.{
  ℕ, ◌+◌, Bool, true, false, not, Option, none, some, List, [], ◌∷◌, ◌++◌, reverse, if◌then◌else◌,
  nat_eq, string_eq,
}
use sepigs.Base.Text.{Text, codes, text_key}
use sepigs.Base.Result.{Result, ok, err}
use sepigs.Reload.Transaction.{
  ReloadTransactionState, parsing, validating, preparing, prepared, committing, committed,
  rolling_back, rolled_back, is_terminal, TransactionModel, TransactionError, invalid_transition,
  empty_reason, terminal, new_transaction, transition, fail,
}

pub data ReloadFailureStage : Type 0 where
  parse validate prepare health commit rollback cleanup : ReloadFailureStage

pub record Operations (C : Type 0) : Type 0 where
  pub on_parse : Option Text
  pub on_validate : Option Text
  pub on_prepare : C → Option Text
  pub on_health : C → Option Text
  pub on_commit : C → Option Text
  pub on_rollback : C → Option Text
  pub on_cleanup : C → Option Text

pub record ComponentError (C : Type 0) : Type 0 where
  pub component : Option C
  pub stage : ReloadFailureStage
  pub message : Text

pub record Execution (C : Type 0) : Type 0 where
  pub model : TransactionModel
  pub component_errors : List (ComponentError C)
  pub prepared_entries : List C
  pub committed_entries : List C
  pub original_failure : Option Text
  pub primary_failure_stage : Option ReloadFailureStage
  -- The components whose `rollback` and `cleanup` were called, in this order.
  pub rollbacks : List C
  pub cleanups : List C

-- The message of an error that the transaction throws.
abbrev pub error_text : TransactionError → Text
error_text invalid_transition = codes "invalid reload transaction transition"
error_text empty_reason = codes "reload failure reason must not be empty"
error_text terminal = codes "cannot fail terminal reload transaction"

abbrev pub first_stage : Option ReloadFailureStage → ReloadFailureStage → Option ReloadFailureStage
first_stage primary rollback = primary
first_stage primary cleanup = primary
first_stage none stage = some stage
first_stage (some primary) stage = some primary

abbrev pub is_commit : Option ReloadFailureStage → Bool
is_commit (some commit) = true
is_commit _ = false

-- A step of `execute` completes, or throws an error with a message.
abbrev pub Step : Type 0 → Type 0
Step C = Option Text × Execution C

module _ {C : Type 0} where
  abbrev pub new_execution : Execution C
  new_execution = record {
    model = new_transaction;
    component_errors = [];
    prepared_entries = [];
    committed_entries = [];
    original_failure = none;
    primary_failure_stage = none;
    rollbacks = [];
    cleanups = [];
  }

  abbrev pub and_then : Step C → (Execution C → Step C) → Step C
  and_then (some message, e) f = (some message, e)
  and_then (none, e) f = f e

  unfoldable pub record_error : ReloadFailureStage → Text → Option C → Execution C → Execution C
  record_error stage message component e = record e {
    primary_failure_stage = first_stage e.primary_failure_stage stage;
    component_errors =
        e.component_errors
        ++ (record { component = component; stage = stage; message = message }) ∷ [];
  }

  abbrev pub moved : Result TransactionError TransactionModel → Execution C → Step C
  moved (ok m) e = (none, record e { model = m })
  moved (err t) e = (some (error_text t), e)

  unfoldable pub move : ReloadTransactionState → ℕ → Execution C → Step C
  move next now e = moved (transition next now e.model) e

  abbrev pub simple_outcome : ReloadFailureStage → Option Text → Execution C → Step C
  simple_outcome stage none e = (none, e)
  simple_outcome stage (some message) e = (some message, record_error stage message none e)

  unfoldable pub run_simple_phase :
      ReloadFailureStage → ReloadTransactionState → Option Text → ℕ → Execution C → Step C
  run_simple_phase stage state outcome now e =
      and_then (move state now e) (simple_outcome stage outcome)

  -- The loop of a phase: `operation` on each component, and `done` after each that succeeds.
  unfoldable pub run_components :
      ReloadFailureStage
      → (C → Option Text)
      → (C → Execution C → Execution C)
      → List C
      → Execution C
      → Step C
  run_components stage operation done [] e = (none, e)
  run_components stage operation done (c ∷ cs) e = elim (operation c) [
    | none ↦ run_components stage operation done cs (done c e)
    | some message ↦ (some message, record_error stage message (some c) e)
  ]

  abbrev pub push_prepared : C → Execution C → Execution C
  push_prepared c e = record e { prepared_entries = e.prepared_entries ++ c ∷ [] }

  abbrev pub push_committed : C → Execution C → Execution C
  push_committed c e = record e { committed_entries = e.committed_entries ++ c ∷ [] }

  -- The error of a rollback or cleanup is recorded, and the loop goes on.
  abbrev pub noted : ReloadFailureStage → C → Option Text → Execution C → Execution C
  noted stage c none e = e
  noted stage c (some message) e = record_error stage message (some c) e

  unfoldable pub rollback_each : (C → Option Text) → List C → Execution C → Execution C
  rollback_each operation [] e = e
  rollback_each operation (c ∷ cs) e =
      rollback_each operation cs
        (noted rollback c (operation c) (record e { rollbacks = e.rollbacks ++ c ∷ [] }))

  unfoldable pub cleanup_each : (C → Option Text) → List C → Execution C → Execution C
  cleanup_each operation [] e = e
  cleanup_each operation (c ∷ cs) e =
      cleanup_each operation cs
        (noted cleanup c (operation c) (record e { cleanups = e.cleanups ++ c ∷ [] }))

  unfoldable pub run_rollback : Operations C → Execution C → Execution C
  run_rollback o e =
      let entries =
        if is_commit e.primary_failure_stage then e.committed_entries else e.prepared_entries in
      rollback_each o.on_rollback (reverse entries) e

  unfoldable pub run_cleanup : Operations C → Execution C → Execution C
  run_cleanup o e = cleanup_each o.on_cleanup (reverse e.prepared_entries) e

  module _ (o : Operations C) (now : ℕ) where
    -- The end of the `catch` block, if the transaction is rolling back.
    abbrev pub undone : ReloadTransactionState → Execution C → Step C
    undone rolling_back e = move rolled_back now (run_rollback o e)
    undone _ e = (none, e)

    abbrev pub failed_with : Result TransactionError TransactionModel → Execution C → Step C
    failed_with (err t) e = (some (error_text t), e)
    failed_with (ok m) e = undone m.state (record e { model = m })

    -- The `catch` block; an error that it throws itself leaves `execute`.
    unfoldable pub handle_failure : Text → Execution C → Step C
    handle_failure message e =
        let e' = record e { original_failure = some message } in
        if is_terminal e'.model.state
        then undone e'.model.state e'
        else failed_with (fail message now e'.model) e'

    abbrev pub caught : Step C → Step C
    caught (none, e) = (none, e)
    caught (some message, e) = handle_failure message e

  module _ (o : Operations C) (components : List C) (now : ℕ) where
    -- The `try` block.
    unfoldable pub run_phases : Execution C → Step C
    run_phases e₀ = and_then (run_simple_phase parse parsing o.on_parse now e₀) λ e₁.
        and_then (run_simple_phase validate validating o.on_validate now e₁) λ e₂.
          and_then (move preparing now e₂) λ e₃.
            and_then (run_components prepare o.on_prepare push_prepared components e₃) λ e₄.
              and_then (move prepared now e₄) λ e₅.
                and_then (run_components health o.on_health (λ c e. e) e₅.prepared_entries e₅) λ e₆.
                  and_then (move committing now e₆) λ e₇.
                    and_then
                      (run_components commit o.on_commit push_committed e₇.prepared_entries e₇)
                      (move committed now)

    -- `finally` runs the cleanup, also when an error leaves `execute`.
    unfoldable pub execute : Step C
    execute = let (thrown, e) = caught o now (run_phases new_execution) in (thrown, run_cleanup o e)
