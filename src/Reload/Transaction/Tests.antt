-- ===== src/Reload/Transaction/Tests.antt =====
-- A transaction that commits.
use sepigs.Base.{◌≡◌, refl, true, none, List, [], ◌∷◌, nat_eq, string_eq}
use sepigs.Base.Text.{codes, text_key}
use sepigs.Reload.Transaction.{
  parsing, validating, preparing, prepared, committing, committed, new_transaction, transition,
}
use sepigs.Reload.Transaction.Runs.{Call, moving, failing, step, run, has_time, run_final}

abbrev calls : List Call
calls =
    moving parsing 1
    ∷ moving validating 2
    ∷ moving preparing 3
    ∷ moving prepared 4
    ∷ moving committing 5
    ∷ moving committed 6
    ∷ []

run_final_example :
    (has_time ((run calls new_transaction).completed_at) ≡ true)
    × (run (failing (codes "late") 7 ∷ []) (run calls new_transaction) ≡ run calls new_transaction)
    × ((run calls new_transaction).state ≡ committed
        → (run calls new_transaction).failure_reason ≡ none)
unfolding run step transition
run_final_example = run_final calls (failing (codes "late") 7 ∷ []) refl
