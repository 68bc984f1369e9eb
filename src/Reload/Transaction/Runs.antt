-- ===== src/Reload/Transaction/Runs.antt =====
-- reload/generation.ts: any calls on a transaction.
use sepigs.Base.{
  ℕ, ◌≡◌, refl, ap, ◌∙◌, inl, inr, Bool, true, false, not, Option, none, some, List, [], ◌∷◌, arith,
  ◌==◌, nat_eq, string_eq, Bool-cases, Option-cases, if_either, length, any,
}
use sepigs.Base.Text.{Text, text_key}
use sepigs.Base.Result.{Result, ok, err}
use sepigs.Router.Matcher.{trim_start, trim_end}
use sepigs.Reload.Transaction.{
  ReloadTransactionState, idle, parsing, validating, preparing, prepared, committing, committed,
  rolling_back, rolled_back, failed, rank, transitions, is_terminal, TransactionModel,
  TransactionError, new_transaction, transition, fail, undoes,
}

pub data Call : Type 0 where
  moving : ReloadTransactionState → ℕ → Call
  failing : Text → ℕ → Call

abbrev kept : TransactionModel → Result TransactionError TransactionModel → TransactionModel
kept m (ok m') = m'
kept m (err _) = m

-- A call that throws leaves the transaction as it is.
unfoldable pub step : Call → TransactionModel → TransactionModel
step (moving next now) m = kept m (transition next now m)
step (failing reason now) m = kept m (fail reason now m)

unfoldable pub run : List Call → TransactionModel → TransactionModel
run [] m = m
run (c ∷ cs) m = run cs (step c m)

abbrev pub has_time : Option ℕ → Bool
has_time none = false
has_time (some _) = true

abbrev allowed : ReloadTransactionState → ReloadTransactionState → Bool
allowed s next = any (λ t. rank t == rank next) (transitions s)

no_transitions : (s : ReloadTransactionState) → is_terminal s ≡ true → transitions s ≡ []
no_transitions idle h = absurd (cc h)
no_transitions parsing h = absurd (cc h)
no_transitions validating h = absurd (cc h)
no_transitions preparing h = absurd (cc h)
no_transitions prepared h = absurd (cc h)
no_transitions committing h = absurd (cc h)
no_transitions committed h = refl
no_transitions rolling_back h = absurd (cc h)
no_transitions rolled_back h = refl
no_transitions failed h = refl

-- The states that a failure leads to, and that nothing leads out of.
abbrev recovers : ReloadTransactionState → Bool
recovers rolling_back = true
recovers rolled_back = true
recovers failed = true
recovers _ = false

recovers_next :
    (s next : ReloadTransactionState)
    → allowed s next ≡ true
    → recovers s ≡ true
    → recovers next ≡ true
recovers_next idle next a h = absurd (cc h)
recovers_next parsing next a h = absurd (cc h)
recovers_next validating next a h = absurd (cc h)
recovers_next preparing next a h = absurd (cc h)
recovers_next prepared next a h = absurd (cc h)
recovers_next committing next a h = absurd (cc h)
recovers_next committed next a h = absurd (cc h)
recovers_next rolling_back idle a h = absurd (ground (arith, a))
recovers_next rolling_back parsing a h = absurd (ground (arith, a))
recovers_next rolling_back validating a h = absurd (ground (arith, a))
recovers_next rolling_back preparing a h = absurd (ground (arith, a))
recovers_next rolling_back prepared a h = absurd (ground (arith, a))
recovers_next rolling_back committing a h = absurd (ground (arith, a))
recovers_next rolling_back committed a h = absurd (ground (arith, a))
recovers_next rolling_back rolling_back a h = refl
recovers_next rolling_back rolled_back a h = refl
recovers_next rolling_back failed a h = refl
recovers_next rolled_back next a h = absurd (cc a)
recovers_next failed next a h = absurd (cc a)

-- The end of a transaction is timed, and a transaction with a failure does not commit.
pub record IsTransaction (m : TransactionModel) : Type 0 where
  pub timed : has_time m.completed_at ≡ is_terminal m.state
  pub recovering : (reason : Text) → m.failure_reason ≡ some reason → recovers m.state ≡ true

transition-IsTransaction :
    (next : ReloadTransactionState) (now : ℕ) (m : TransactionModel)
    → IsTransaction m
    → IsTransaction (kept m (transition next now m))
unfolding transition
transition-IsTransaction next now m w =
    if_either (λ (r : Result TransactionError TransactionModel). IsTransaction (kept m r))
      (not (allowed m.state next)) (λ _. w)
      (λ e. record {
        timed = elim (Bool-cases (is_terminal m.state)) [
          | inl f ↦ absurd (
              cc (e, ap (λ ts. not (any (λ t. rank t == rank next) ts)) (no_transitions m.state f)))
          | inr f ↦ elim (Bool-cases (is_terminal next)) [
            | inl g ↦ ground (arith, g)
            | inr g ↦ ground (arith, g, w.timed, f)
          ]
        ];
        recovering =
            λ reason h. recovers_next m.state next (ground (arith, e)) (w.recovering reason h);
      })

fail-IsTransaction :
    (reason : Text) (now : ℕ) (m : TransactionModel)
    → IsTransaction m
    → IsTransaction (kept m (fail reason now m))
unfolding fail
fail-IsTransaction reason now m w =
    let after : Result TransactionError TransactionModel → Type 0 = λ r. IsTransaction (kept m r) in
    if_either after (length (trim_end (trim_start reason)) == 0) (λ _. w)
      (λ _.
        if_either after (is_terminal m.state) (λ _. w)
          (λ e.
            if_either after (undoes m.state)
              (λ _. record { timed = w.timed ∙ e; recovering = λ _ _. refl })
              (λ _. record { timed = refl; recovering = λ _ _. refl })))

step-IsTransaction : (c : Call) (m : TransactionModel) → IsTransaction m → IsTransaction (step c m)
unfolding step
step-IsTransaction (moving next now) m w = transition-IsTransaction next now m w
step-IsTransaction (failing reason now) m w = fail-IsTransaction reason now m w

run-IsTransaction :
    (cs : List Call) (m : TransactionModel) → IsTransaction m → IsTransaction (run cs m)
unfolding run
run-IsTransaction [] m w = w
run-IsTransaction (c ∷ cs) m w = run-IsTransaction cs (step c m) (step-IsTransaction c m w)

transition_refused :
    (next : ReloadTransactionState) (now : ℕ) (m : TransactionModel)
    → is_terminal m.state ≡ true
    → kept m (transition next now m) ≡ m
unfolding transition
transition_refused next now m h =
    if_either (λ (r : Result TransactionError TransactionModel). kept m r ≡ m)
      (not (allowed m.state next)) (λ _. refl)
      (λ e.
        absurd
          (cc (e, ap (λ ts. not (any (λ t. rank t == rank next) ts)) (no_transitions m.state h))))

fail_refused :
    (reason : Text) (now : ℕ) (m : TransactionModel)
    → is_terminal m.state ≡ true
    → kept m (fail reason now m) ≡ m
unfolding fail
fail_refused reason now m h =
    let after : Result TransactionError TransactionModel → Type 0 = λ r. kept m r ≡ m in
    if_either after (length (trim_end (trim_start reason)) == 0) (λ _. refl)
      (λ _. if_either after (is_terminal m.state) (λ _. refl) (λ e. absurd (cc (e, h))))

run_terminal : (cs : List Call) (m : TransactionModel) → is_terminal m.state ≡ true → run cs m ≡ m
unfolding run step
run_terminal [] m h = refl
run_terminal (moving next now ∷ cs) m h =
    let same = transition_refused next now m h in ap (run cs) same ∙ run_terminal cs m h
run_terminal (failing reason now ∷ cs) m h =
    let same = fail_refused reason now m h in ap (run cs) same ∙ run_terminal cs m h

-- A transaction that reached a terminal state, by whatever calls, has the time of its end, no later call
-- changes it, and if that state is committed no failure was recorded.
pub run_final :
    (cs ds : List Call)
    → is_terminal ((run cs new_transaction).state) ≡ true
    → (has_time ((run cs new_transaction).completed_at) ≡ true)
      × (run ds (run cs new_transaction) ≡ run cs new_transaction)
      × ((run cs new_transaction).state ≡ committed
          → (run cs new_transaction).failure_reason ≡ none)
run_final cs ds h =
    let m = run cs new_transaction in
    let w =
      run-IsTransaction cs new_transaction
        (record { timed = refl; recovering = λ reason e. absurd (cc e) }) in
    (
      w.timed ∙ h,
      run_terminal ds m h,
      λ e. elim (Option-cases m.failure_reason) [
        | inl f ↦ f
        | inr (reason, f) ↦ absurd (cc (w.recovering reason f, ap recovers e))
      ],
    )
