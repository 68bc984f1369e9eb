-- ===== src/Reload/Executor/Outcomes.antt =====
-- reload/executor.ts: the loops over the components.
use sepigs.Base.{
  ◌≡◌, refl, sym, ap, ◌∙◌, ◌≢◌, ◌⊎◌, inl, inr, Option, none, some, List, [], ◌∷◌, ◌++◌, All,
  append_assoc, append-nil, nat_eq, string_eq, Option-cases, length,
}
use sepigs.Base.Text.{Text, text_key}
use sepigs.Router.Matcher.{trim_start, trim_end}
use sepigs.Reload.Executor.{
  ReloadFailureStage, rollback, cleanup, Execution, record_error, run_components, noted,
  rollback_each, cleanup_each,
}

-- A message that is not only white space.
abbrev pub Says : Text → Type 0
Says message = length (trim_end (trim_start message)) ≢ 0

module _ {C : Type 0} where
  -- Where a phase fails: after the components that succeeded, at one that did not.
  pub record FailsAt (operation : C → Option Text) (components before : List C) (message : Text)
      : Type 0 where
    pub component : C
    pub behind : List C
    pub split : components ≡ before ++ component ∷ behind
    pub reason : operation component ≡ some message
    pub succeeded : All (λ c. operation c ≡ none) before

  -- The loop of a phase whose successes are collected by `done`.
  pub run_components-cases :
      (stage : ReloadFailureStage) (operation : C → Option Text)
      (done : C → Execution C → Execution C) (collect : List C → Execution C → Execution C)
      → ((e : Execution C) → collect [] e ≡ e)
      → ((c : C) (cs : List C) (e : Execution C) → collect cs (done c e) ≡ collect (c ∷ cs) e)
      → (cs : List C) (e : Execution C)
      → ((run_components stage operation done cs e ≡ (none, collect cs e))
          × All (λ c. operation c ≡ none) cs)
        ⊎ ((before : List C) × (message : Text) × (w : FailsAt operation cs before message)
            × (run_components stage operation done cs e
                ≡ (some message, record_error stage message (some w.component) (collect before e))))
  unfolding run_components
  run_components-cases stage operation done collect nil step [] e =
      inl (ap (λ x. (none, x)) (sym (nil e)), tt)
  run_components-cases stage operation done collect nil step (c ∷ cs) e =
      elim (Option-cases (operation c)) [
        | inr (message, f) ↦ inr (
          [],
          message,
          record { component = c; behind = cs; split = refl; reason = f; succeeded = tt },
          rw (f, run_components)
              (ap (λ x. (some message, record_error stage message (some c) x)) (sym (nil e))),
        )
        | inl f ↦ elim (run_components-cases stage operation done collect nil step cs (done c e)) [
          | inl (g, all) ↦
              inl (rw (f, run_components) (g ∙ ap (λ x. (none, x)) (step c cs e)), (f, all))
          | inr (before, message, w, g) ↦ inr (
            c ∷ before,
            message,
            record {
              component = w.component;
              behind = w.behind;
              split = ap (◌∷◌ c) w.split;
              reason = w.reason;
              succeeded = (f, w.succeeded);
            },
            rw (f, run_components)
                (g
                  ∙ ap (λ x. (some message, record_error stage message (some w.component) x))
                      (step c before e)),
          )
        ]
      ]

  -- What rolling back and cleaning up leave as it is.
  pub record Undone (e e' : Execution C) (rolled cleaned : List C) : Type 0 where
    pub model : e'.model ≡ e.model
    pub prepared : e'.prepared_entries ≡ e.prepared_entries
    pub committed : e'.committed_entries ≡ e.committed_entries
    pub rollbacks : e'.rollbacks ≡ e.rollbacks ++ rolled
    pub cleanups : e'.cleanups ≡ e.cleanups ++ cleaned

  noted-Undone :
      (stage : ReloadFailureStage) (c : C) (o : Option Text) (e : Execution C)
      → Undone e (noted stage c o e) [] []
  unfolding record_error
  noted-Undone stage c none e = record {
    model = refl;
    prepared = refl;
    committed = refl;
    rollbacks = sym (append-nil e.rollbacks);
    cleanups = sym (append-nil e.cleanups);
  }
  noted-Undone stage c (some message) e = record {
    model = refl;
    prepared = refl;
    committed = refl;
    rollbacks = sym (append-nil e.rollbacks);
    cleanups = sym (append-nil e.cleanups);
  }

  pub rollback_each-Undone :
      (operation : C → Option Text) (cs : List C) (e : Execution C)
      → Undone e (rollback_each operation cs e) cs []
  unfolding rollback_each
  rollback_each-Undone operation [] e = record {
    model = refl;
    prepared = refl;
    committed = refl;
    rollbacks = sym (append-nil e.rollbacks);
    cleanups = sym (append-nil e.cleanups);
  }
  rollback_each-Undone operation (c ∷ cs) e =
      let e₁ = record e { rollbacks = e.rollbacks ++ c ∷ [] } in
      let w = noted-Undone rollback c (operation c) e₁ in
      let v = rollback_each-Undone operation cs (noted rollback c (operation c) e₁) in
      record {
        model = v.model ∙ w.model;
        prepared = v.prepared ∙ w.prepared;
        committed = v.committed ∙ w.committed;
        rollbacks =
            v.rollbacks
            ∙ ap (λ x. x ++ cs) (w.rollbacks ∙ append-nil (e.rollbacks ++ c ∷ []))
            ∙ append_assoc e.rollbacks (c ∷ []) cs;
        cleanups = v.cleanups ∙ ap (λ x. x ++ []) (w.cleanups ∙ append-nil e.cleanups);
      }

  pub cleanup_each-Undone :
      (operation : C → Option Text) (cs : List C) (e : Execution C)
      → Undone e (cleanup_each operation cs e) [] cs
  unfolding cleanup_each
  cleanup_each-Undone operation [] e = record {
    model = refl;
    prepared = refl;
    committed = refl;
    rollbacks = sym (append-nil e.rollbacks);
    cleanups = sym (append-nil e.cleanups);
  }
  cleanup_each-Undone operation (c ∷ cs) e =
      let e₁ = record e { cleanups = e.cleanups ++ c ∷ [] } in
      let w = noted-Undone cleanup c (operation c) e₁ in
      let v = cleanup_each-Undone operation cs (noted cleanup c (operation c) e₁) in
      record {
        model = v.model ∙ w.model;
        prepared = v.prepared ∙ w.prepared;
        committed = v.committed ∙ w.committed;
        cleanups =
            v.cleanups
            ∙ ap (λ x. x ++ cs) (w.cleanups ∙ append-nil (e.cleanups ++ c ∷ []))
            ∙ append_assoc e.cleanups (c ∷ []) cs;
        rollbacks = v.rollbacks ∙ ap (λ x. x ++ []) (w.rollbacks ∙ append-nil e.rollbacks);
      }
