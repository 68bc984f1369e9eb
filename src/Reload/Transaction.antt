-- ===== src/Reload/Transaction.antt =====
-- reload/generation.ts: the state machine of a reload. The descriptions of the two generations are left
-- out, and so is the copy that each call returns.
pub mod Runs
mod Tests
use sepigs.Base.{
  ℕ, Bool, true, false, not, Option, none, some, List, [], ◌∷◌, ◌==◌, if◌then◌else◌, nat_eq,
  string_eq, length, any,
}
use sepigs.Base.Text.{Text, text_key}
use sepigs.Base.Result.{Result, ok, err}
use sepigs.Router.Matcher.{trim_start, trim_end}

pub data ReloadTransactionState : Type 0 where
  idle parsing validating preparing prepared committing committed rolling_back rolled_back failed :
      ReloadTransactionState

-- The position in the list of states, by which states are compared.
abbrev pub rank : ReloadTransactionState → ℕ
rank idle = 0
rank parsing = 1
rank validating = 2
rank preparing = 3
rank prepared = 4
rank committing = 5
rank committed = 6
rank rolling_back = 7
rank rolled_back = 8
rank failed = 9

-- `TRANSITIONS`
abbrev pub transitions : ReloadTransactionState → List ReloadTransactionState
transitions idle = parsing ∷ []
transitions parsing = validating ∷ failed ∷ []
transitions validating = preparing ∷ failed ∷ []
transitions preparing = prepared ∷ rolling_back ∷ failed ∷ []
transitions prepared = committing ∷ rolling_back ∷ []
transitions committing = committed ∷ rolling_back ∷ failed ∷ []
transitions committed = []
transitions rolling_back = rolled_back ∷ failed ∷ []
transitions rolled_back = []
transitions failed = []

abbrev pub is_terminal : ReloadTransactionState → Bool
is_terminal committed = true
is_terminal rolled_back = true
is_terminal failed = true
is_terminal _ = false

pub record TransactionModel : Type 0 where
  pub state : ReloadTransactionState
  pub completed_at : Option ℕ
  pub failure_reason : Option Text

pub data TransactionError : Type 0 where
  invalid_transition empty_reason terminal : TransactionError

abbrev pub new_transaction : TransactionModel
new_transaction = record { state = idle; completed_at = none; failure_reason = none }

unfoldable pub transition :
    ReloadTransactionState → ℕ → TransactionModel → Result TransactionError TransactionModel
transition next now m =
    if not (any (λ s. rank s == rank next) (transitions m.state))
    then err invalid_transition
    else ok (record m {
      state = next;
      completed_at = if is_terminal next then some now else m.completed_at;
    })

-- The states from which a failure has to undo something.
abbrev pub undoes : ReloadTransactionState → Bool
undoes preparing = true
undoes prepared = true
undoes committing = true
undoes _ = false

unfoldable pub fail : Text → ℕ → TransactionModel → Result TransactionError TransactionModel
fail reason now m =
    if length (trim_end (trim_start reason)) == 0
    then err empty_reason
    else if is_terminal m.state
    then err terminal
    else if undoes m.state
    then ok (record m { state = rolling_back; failure_reason = some reason })
    else ok (record m { state = failed; completed_at = some now; failure_reason = some reason })
