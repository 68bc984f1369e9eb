-- ===== src/Reload/Executor/Phases.antt =====
-- reload/executor.ts: all the ways in which a reload ends.
use sepigs.Base.{
  ℕ, ◌≡◌, refl, sym, ap, subst, inl, inr, Option, none, some, List, [], ◌∷◌, ◌++◌, reverse, All,
  append_assoc, append-nil, nat_eq, string_eq,
}
use sepigs.Base.Text.{Text, text_key}
use sepigs.Reload.Transaction.{
  ReloadTransactionState, parsing, validating, preparing, prepared, committing, committed,
  rolled_back, failed, transition,
}
use sepigs.Reload.Executor.{
  parse, validate, prepare, health, commit, Operations, Execution, Step, new_execution, and_then,
  record_error, move, run_simple_phase, run_components, push_prepared, push_committed, run_phases,
  caught, execute,
}
use sepigs.Reload.Executor.Outcomes.{Says, FailsAt, run_components-cases}
use sepigs.Reload.Executor.Endings.{fresh, Ends, cleaned_up, cleaned_up-Ends, undo_Ends, early_Ends}

module _ {C : Type 0} where
  module _ (o : Operations C) (now : ℕ) where
    -- The state of the execution between the phases.
    abbrev between : ReloadTransactionState → List C → List C → Execution C
    between s done kept = record new_execution {
      model = fresh s;
      prepared_entries = done;
      committed_entries = kept;
    }

    -- Every failing operation says why.
    pub record AllSay : Type 0 where
      pub parse_says : (t : Text) → o.on_parse ≡ some t → Says t
      pub validate_says : (t : Text) → o.on_validate ≡ some t → Says t
      pub prepare_says : (c : C) (t : Text) → o.on_prepare c ≡ some t → Says t
      pub health_says : (c : C) (t : Text) → o.on_health c ≡ some t → Says t
      pub commit_says : (c : C) (t : Text) → o.on_commit c ≡ some t → Says t

    abbrev Succeed : (C → Option Text) → List C → Type 0
    Succeed operation cs = All (λ c. operation c ≡ none) cs

    -- The ends of a reload of some components, each with what the operations gave that led to it.
    pub data Outcome (cs : List C) (result : Step C) : Type 0 where
      all_committed :
          o.on_parse ≡ none
          → o.on_validate ≡ none
          → Succeed o.on_prepare cs
          → Succeed o.on_health cs
          → Succeed o.on_commit cs
          → Ends result committed cs cs [] (reverse cs)
          → Outcome cs result
      parse_failed :
          (message : Text)
          → o.on_parse ≡ some message
          → Ends result failed [] [] [] []
          → Outcome cs result
      validate_failed :
          (message : Text)
          → o.on_parse ≡ none
          → o.on_validate ≡ some message
          → Ends result failed [] [] [] []
          → Outcome cs result
      prepare_failed :
          (before : List C) (message : Text)
          → o.on_parse ≡ none
          → o.on_validate ≡ none
          → FailsAt o.on_prepare cs before message
          → Ends result rolled_back before [] (reverse before) (reverse before)
          → Outcome cs result
      health_failed :
          (before : List C) (message : Text)
          → o.on_parse ≡ none
          → o.on_validate ≡ none
          → Succeed o.on_prepare cs
          → FailsAt o.on_health cs before message
          → Ends result rolled_back cs [] (reverse cs) (reverse cs)
          → Outcome cs result
      commit_failed :
          (before : List C) (message : Text)
          → o.on_parse ≡ none
          → o.on_validate ≡ none
          → Succeed o.on_prepare cs
          → Succeed o.on_health cs
          → FailsAt o.on_commit cs before message
          → Ends result rolled_back cs before (reverse before) (reverse cs)
          → Outcome cs result

    abbrev finished : Step C → Step C
    finished r = cleaned_up o now (caught o now r)

    commit_phase :
        (cs : List C)
        → AllSay
        → o.on_parse ≡ none
        → o.on_validate ≡ none
        → Succeed o.on_prepare cs
        → Succeed o.on_health cs
        → Outcome cs (
            finished (
              and_then
                (run_components commit o.on_commit push_committed cs (between committing cs []))
                (move committed now)))
    unfolding move transition record_error
    commit_phase cs w parses validates ready healthy =
        elim (run_components-cases commit o.on_commit push_committed
          (λ ds e. record e { committed_entries = e.committed_entries ++ ds })
          (λ e. ap (λ x. record e { committed_entries = x }) (append-nil e.committed_entries))
          (λ c ds e.
            ap (λ x. record e { committed_entries = x })
              (append_assoc e.committed_entries (c ∷ []) ds))
          cs (between committing cs [])) [
            | inl (f, kept) ↦
                subst (λ r. Outcome cs (finished (and_then r (move committed now)))) (sym f)
                  (all_committed parses validates ready healthy kept (
                    cleaned_up-Ends o now
                      (record (between committing cs cs) {
                        model = record {
                          state = committed;
                          completed_at = some now;
                          failure_reason = none;
                        };
                      })
                      committed [] refl refl refl))
            | inr (before, message, v, f) ↦
                subst (λ r. Outcome cs (finished (and_then r (move committed now)))) (sym f)
                  (commit_failed before message parses validates ready healthy v (
                    undo_Ends o now committing
                      (record_error commit message (some v.component)
                        (between committing cs before))
                      message (w.commit_says v.component message v.reason) refl refl refl refl
                      refl))
          ]

    -- The phases from the health checks on, and from the preparation on.
    abbrev from_health : Execution C → Step C
    from_health e =
        and_then (run_components health o.on_health (λ c e. e) e.prepared_entries e) λ e₆.
          and_then (move committing now e₆) λ e₇.
            and_then (run_components commit o.on_commit push_committed e₇.prepared_entries e₇)
              (move committed now)

    abbrev from_prepare : List C → Execution C → Step C
    from_prepare cs e =
        and_then (run_components prepare o.on_prepare push_prepared cs e)
          λ e₄. and_then (move prepared now e₄) from_health

    health_phase :
        (cs : List C)
        → AllSay
        → o.on_parse ≡ none
        → o.on_validate ≡ none
        → Succeed o.on_prepare cs
        → Outcome cs (finished (from_health (between prepared cs [])))
    unfolding move transition record_error
    health_phase cs w parses validates ready =
        let later : Step C → Step C = λ r. and_then r λ e₆. and_then (move committing now e₆) λ e₇.
          and_then (run_components commit o.on_commit push_committed e₇.prepared_entries e₇)
            (move committed now) in
        elim (run_components-cases health o.on_health (λ c e. e) (λ ds e. e) (λ e. refl)
          (λ c ds e. refl) cs (between prepared cs [])) [
            | inl (f, healthy) ↦
                subst (λ r. Outcome cs (finished (later r))) (sym f)
                  (commit_phase cs w parses validates ready healthy)
            | inr (before, message, v, f) ↦
                subst (λ r. Outcome cs (finished (later r))) (sym f)
                  (health_failed before message parses validates ready v (
                    undo_Ends o now prepared
                      (record_error health message (some v.component) (between prepared cs []))
                      message (w.health_says v.component message v.reason) refl refl refl refl
                      refl))
          ]

    prepare_phase :
        (cs : List C)
        → AllSay
        → o.on_parse ≡ none
        → o.on_validate ≡ none
        → Outcome cs (finished (from_prepare cs (between preparing [] [])))
    unfolding move transition record_error
    prepare_phase cs w parses validates =
        let later : Step C → Step C =
          λ r. and_then r λ e₄. and_then (move prepared now e₄) from_health in
        elim (run_components-cases prepare o.on_prepare push_prepared
          (λ ds e. record e { prepared_entries = e.prepared_entries ++ ds })
          (λ e. ap (λ x. record e { prepared_entries = x }) (append-nil e.prepared_entries))
          (λ c ds e.
            ap (λ x. record e { prepared_entries = x })
              (append_assoc e.prepared_entries (c ∷ []) ds))
          cs (between preparing [] [])) [
            | inl (f, ready) ↦
                subst (λ r. Outcome cs (finished (later r))) (sym f)
                  (health_phase cs w parses validates ready)
            | inr (before, message, v, f) ↦
                subst (λ r. Outcome cs (finished (later r))) (sym f)
                  (prepare_failed before message parses validates v (
                    undo_Ends o now preparing
                      (record_error prepare message (some v.component)
                        (between preparing before []))
                      message (w.prepare_says v.component message v.reason) refl refl refl refl
                      refl))
          ]

    -- A reload, whose failing operations give messages, returns and ends in one of these ways: every
    -- operation of every phase succeeded, everything was committed and nothing rolled back; parsing or
    -- validating failed and nothing was prepared; or at the first failure of a phase, behind successes
    -- of all the earlier operations, the components that were prepared, or on a failed commit those that
    -- were committed, were rolled back last to first. Whatever was prepared was cleaned up, last to first.
    pub execute-Outcome : (cs : List C) → AllSay → Outcome cs (execute o cs now)
    unfolding execute run_phases run_simple_phase move transition record_error
    execute-Outcome cs w = go o.on_parse o.on_validate refl refl
      where
        whole : Option Text → Option Text → Step C
        whole p v = and_then (run_simple_phase parse parsing p now new_execution) λ e₁.
            and_then (run_simple_phase validate validating v now e₁)
              λ e₂. and_then (move preparing now e₂) (from_prepare cs)

        go :
            (p v : Option Text)
            → o.on_parse ≡ p
            → o.on_validate ≡ v
            → Outcome cs (finished (whole p v))
        go none none h k = prepare_phase cs w h k
        go none (some message) h k = validate_failed message h k (
            early_Ends o now validating
              (record_error validate message none (between validating [] [])) message
              (w.validate_says message k) refl refl refl refl refl)
        go (some message) v h k = parse_failed message h (
            early_Ends o now parsing (record_error parse message none (between parsing [] []))
              message (w.parse_says message h) refl refl refl refl refl)
