-- ===== src/Reload/Executor/Endings.antt =====
-- reload/executor.ts: how the failure of a phase ends a reload.
use sepigs.Base.{
  ℕ, ◌≡◌, refl, sym, ap, ◌∙◌, subst, true, false, none, some, List, [], ◌++◌, reverse, append-nil,
  arith, if◌then◌else◌, nat_eq, string_eq,
}
use sepigs.Base.Text.{Text, text_key}
use sepigs.Base.Result.{ok}
use sepigs.Reload.Transaction.{
  ReloadTransactionState, rolling_back, rolled_back, failed, is_terminal, undoes, TransactionModel,
  transition, fail,
}
use sepigs.Reload.Executor.{
  Operations, Execution, Step, is_commit, moved, move, run_rollback, run_cleanup, undone,
  failed_with, handle_failure,
}
use sepigs.Reload.Executor.Outcomes.{Says, rollback_each-Undone, cleanup_each-Undone}

abbrev pub fresh : ReloadTransactionState → TransactionModel
fresh s = record { state = s; completed_at = none; failure_reason = none }

fail-fresh :
    (now : ℕ) (s : ReloadTransactionState) (message : Text)
    → Says message
    → is_terminal s ≡ false
    → undoes s ≡ true
    → fail message now (fresh s)
      ≡ ok (record { state = rolling_back; completed_at = none; failure_reason = some message })
unfolding fail
fail-fresh now s message says t u = ground (arith, says, t, u)

fail_early :
    (now : ℕ) (s : ReloadTransactionState) (message : Text)
    → Says message
    → is_terminal s ≡ false
    → undoes s ≡ false
    → fail message now (fresh s)
      ≡ ok (record { state = failed; completed_at = some now; failure_reason = some message })
unfolding fail
fail_early now s message says t u = ground (arith, says, t, u)

module _ {C : Type 0} where
  -- How an execution ended: no error left it, and what its state, its entries and its calls are.
  pub record Ends (result : Step C) (state : ReloadTransactionState)
      (done kept rolled cleaned : List C) : Type 0 where
    pub returned : result.0 ≡ none
    pub at : result.1.model.state ≡ state
    pub prepared_ones : result.1.prepared_entries ≡ done
    pub committed_ones : result.1.committed_entries ≡ kept
    pub rolled_ones : result.1.rollbacks ≡ rolled
    pub cleaned_ones : result.1.cleanups ≡ cleaned

  module _ (o : Operations C) (now : ℕ) where
    abbrev pub cleaned_up : Step C → Step C
    cleaned_up r = (r.0, run_cleanup o (r.1))

    pub cleaned_up-Ends :
        (e : Execution C) (state : ReloadTransactionState) (rolled : List C)
        → e.model.state ≡ state
        → e.rollbacks ≡ rolled
        → e.cleanups ≡ []
        → Ends
            (cleaned_up (none, e))
            state
            e.prepared_entries
            e.committed_entries
            rolled
            (reverse e.prepared_entries)
    unfolding run_cleanup
    cleaned_up-Ends e state rolled a b c =
        let w = cleanup_each-Undone o.on_cleanup (reverse e.prepared_entries) e in
        record {
          returned = refl;
          at = ap (λ (m : TransactionModel). m.state) w.model ∙ a;
          prepared_ones = w.prepared;
          committed_ones = w.committed;
          rolled_ones = w.rollbacks ∙ append-nil e.rollbacks ∙ b;
          cleaned_ones = w.cleanups ∙ ap (λ x. x ++ reverse e.prepared_entries) c;
        }

    -- A failure with something to undo.
    pub undo_Ends :
        (s : ReloadTransactionState) (e : Execution C) (message : Text)
        → Says message
        → e.model ≡ fresh s
        → is_terminal s ≡ false
        → undoes s ≡ true
        → e.rollbacks ≡ []
        → e.cleanups ≡ []
        → Ends
            (cleaned_up (handle_failure o now message e))
            rolled_back
            e.prepared_entries
            e.committed_entries
            (reverse (
              if is_commit e.primary_failure_stage
              then e.committed_entries
              else e.prepared_entries))
            (reverse e.prepared_entries)
    unfolding handle_failure run_rollback move transition
    undo_Ends s e message says m t u a b =
        let rolling : TransactionModel = record {
          state = rolling_back;
          completed_at = none;
          failure_reason = some message;
        } in
        let e₁ = record e { original_failure = some message } in
        let e₂ = record e₁ { model = rolling } in
        let entries =
          if is_commit e.primary_failure_stage then e.committed_entries else e.prepared_entries in
        let x = run_rollback o e₂ in
        let w = rollback_each-Undone o.on_rollback (reverse entries) e₂ in
        let ended : TransactionModel = record {
          state = rolled_back;
          completed_at = some now;
          failure_reason = some message;
        } in
        let open_state : is_terminal e.model.state ≡ false =
          ap (λ (n : TransactionModel). is_terminal n.state) m ∙ t in
        let handled : handle_failure o now message e ≡ move rolled_back now x =
          ap
            (λ b.
              if b
              then undone o now e.model.state e₁
              else failed_with o now (fail message now e.model) e₁)
            open_state
          ∙ ap (λ r. failed_with o now r e₁)
              (ap (fail message now) m ∙ fail-fresh now s message says t u) in
        let stepped : move rolled_back now x ≡ (none, record x { model = ended }) =
          ap (λ n. moved (transition rolled_back now n) x) w.model in
        let last =
          cleaned_up-Ends (record x { model = ended }) rolled_back (reverse entries) refl
            (w.rollbacks ∙ ap (λ y. y ++ reverse entries) a) (w.cleanups ∙ ap (λ y. y ++ []) b) in
        let result : Ends (cleaned_up (handle_failure o now message e)) rolled_back
            x.prepared_entries x.committed_entries (reverse entries) (reverse x.prepared_entries) =
          subst
            (λ r.
              Ends (cleaned_up r) rolled_back x.prepared_entries x.committed_entries
                (reverse entries) (reverse x.prepared_entries))
            (sym (handled ∙ stepped)) last in
        record {
          returned = result.returned;
          at = result.at;
          prepared_ones = result.prepared_ones ∙ w.prepared;
          committed_ones = result.committed_ones ∙ w.committed;
          rolled_ones = result.rolled_ones;
          cleaned_ones = result.cleaned_ones ∙ ap reverse w.prepared;
        }

    -- A failure before anything was prepared.
    pub early_Ends :
        (s : ReloadTransactionState) (e : Execution C) (message : Text)
        → Says message
        → e.model ≡ fresh s
        → is_terminal s ≡ false
        → undoes s ≡ false
        → e.rollbacks ≡ []
        → e.cleanups ≡ []
        → Ends
            (cleaned_up (handle_failure o now message e))
            failed
            e.prepared_entries
            e.committed_entries
            []
            (reverse e.prepared_entries)
    unfolding handle_failure
    early_Ends s e message says m t u a b =
        let ended : TransactionModel = record {
          state = failed;
          completed_at = some now;
          failure_reason = some message;
        } in
        let e₁ = record e { original_failure = some message } in
        let open_state : is_terminal e.model.state ≡ false =
          ap (λ (n : TransactionModel). is_terminal n.state) m ∙ t in
        let handled : handle_failure o now message e ≡ (none, record e₁ { model = ended }) =
          ap
            (λ b.
              if b
              then undone o now e.model.state e₁
              else failed_with o now (fail message now e.model) e₁)
            open_state
          ∙ ap (λ r. failed_with o now r e₁)
              (ap (fail message now) m ∙ fail_early now s message says t u) in
        subst
          (λ r.
            Ends (cleaned_up r) failed e.prepared_entries e.committed_entries []
              (reverse e.prepared_entries))
          (sym handled) (cleaned_up-Ends (record e₁ { model = ended }) failed [] refl a b)
