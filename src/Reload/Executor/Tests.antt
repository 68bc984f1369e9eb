-- ===== src/Reload/Executor/Tests.antt =====
-- A reload of two components whose second commit fails, and one whose error has no message.
use sepigs.Base.{
  ℕ, ◌≡◌, refl, subst, Option, none, some, [], ◌∷◌, arith, ◌==◌, if◌then◌else◌, nat_eq, string_eq,
  if_either,
}
use sepigs.Base.Text.{Text, codes, text_key}
use sepigs.Router.Matcher.{trim_start, trim_end}
use sepigs.Reload.Transaction.{transition, fail}
use sepigs.Reload.Executor.{
  Operations, execute, run_phases, run_simple_phase, run_components, move, record_error,
  handle_failure, run_rollback, rollback_each, run_cleanup, cleanup_each,
}
use sepigs.Reload.Executor.Outcomes.{Says}
use sepigs.Reload.Executor.Phases.{AllSay, Outcome, execute-Outcome}

abbrev quiet : Operations ℕ
quiet = record {
  on_parse = none;
  on_validate = none;
  on_prepare = λ c. none;
  on_health = λ c. none;
  on_commit = λ c. none;
  on_rollback = λ c. none;
  on_cleanup = λ c. none;
}

abbrev second_fails : ℕ → Option Text
second_fails c = if c == 2 then some (codes "port in use") else none

abbrev operations : Operations ℕ
operations = record quiet { on_commit = second_fails }

says : (c : ℕ) (t : Text) → second_fails c ≡ some t → Says t
unfolding trim_start trim_end
says c t e =
    if_either (λ (o : Option Text). o ≡ some t → Says t) (c == 2)
      (λ _ f. (let same : codes "port in use" ≡ t = cc f in subst Says same known))
      (λ _ f. absurd (cc f)) e
  where
    known : Says (codes "port in use")
    known = omega arith

operations-AllSay : AllSay operations 9
operations-AllSay = record {
  parse_says = λ t e. absurd (cc e);
  validate_says = λ t e. absurd (cc e);
  prepare_says = λ c t e. absurd (cc e);
  health_says = λ c t e. absurd (cc e);
  commit_says = says;
}

execute-Outcome_example :
    Outcome operations 9 (1 ∷ 2 ∷ 3 ∷ []) (execute operations (1 ∷ 2 ∷ 3 ∷ []) 9)
execute-Outcome_example = execute-Outcome operations 9 (1 ∷ 2 ∷ 3 ∷ []) operations-AllSay

-- Only what was committed is rolled back.
rollback_test : ((execute operations (1 ∷ 2 ∷ 3 ∷ []) 9).1).rollbacks ≡ 1 ∷ []
unfolding execute run_phases run_simple_phase run_components move transition record_error
    handle_failure fail run_rollback rollback_each run_cleanup cleanup_each trim_start trim_end
rollback_test = refl

abbrev silent : Operations ℕ
silent = record quiet { on_commit = λ c. if c == 2 then some [] else none }

-- An error without a message leaves the committed component in place.
silent_test : ((execute silent (1 ∷ 2 ∷ []) 9).1).rollbacks ≡ []
unfolding execute run_phases run_simple_phase run_components move transition record_error
    handle_failure fail run_rollback rollback_each run_cleanup cleanup_each trim_start trim_end
silent_test = refl
