-- ===== src/Router/Prober/Runs.antt =====
-- The workers of a run of router/prober.ts.
use sepigs.Base.{
  ℕ, zero, suc, ◌+◌, ◌-◌, ◌*◌, ◌≤◌, min, ◌≡◌, refl, sym, ap, ◌∙◌, subst, ◌⊎◌, inl, inr, List, [],
  ◌∷◌, ◌++◌, arith, ltb, nat_eq, string_eq, Bool-cases, length, length-append,
}
use sepigs.Base.Text.{Text, text_key}
use sepigs.Config.Settings.{ProbingConfig}
use sepigs.Router.Prober.{
  ActiveProber, Run, start_run, RunStep, take_target, succeed, fail, leave, Steps, started, more,
}
use sepigs.Base.Buffers.{get_elem?-lt}

-- The counts of a run agree: every target that was taken is awaited or counted, every worker waits,
-- awaits a probe or has left, and no worker leaves before the last target is taken.
pub record IsCounted {L : Type 0} (workers size : ℕ) (r : Run L) : Type 0 where
  pub size_same : length r.targets ≡ size
  pub index_small : r.next_index ≤ size
  pub taken : r.succeeded + r.failed + length r.in_flight ≡ r.next_index
  pub staffed : r.waiting + length r.in_flight + r.left ≡ workers
  pub patient : 1 ≤ r.left → r.next_index ≡ size

removed :
    (xs before after : List Text) (t : Text)
    → xs ≡ before ++ t ∷ after
    → length xs ≡ length (before ++ after) + 1
removed xs before after t e =
    ap length e ∙ omega (arith, length-append before (t ∷ after), length-append before after)

module _ {L : Type 0} where
  -- What a run has still to do: each step makes it smaller.
  abbrev pub work_left : ℕ → Run L → ℕ
  work_left size r = 3 * (size - r.next_index) + 2 * length r.in_flight + r.waiting

  step-IsCounted :
      (config : ProbingConfig) (blend : L → L → L) (workers size : ℕ) {r s : Run L}
      → RunStep config blend r s
      → IsCounted workers size r
      → IsCounted workers size s × (work_left size s + 1 ≤ work_left size r)
  step-IsCounted config blend workers size (take_target r idle tag w i g) c =
      let grown : length (r.in_flight ++ tag ∷ []) ≡ length r.in_flight + 1 =
        length-append r.in_flight (tag ∷ []) in
      (
        record {
          size_same = c.size_same;
          index_small = ground (arith, c.size_same);
          taken = ground (arith, c.taken);
          staffed = ground (arith, c.staffed);
          patient = λ h. ground (arith, c.patient h, c.size_same);
        },
        ground (arith, c.size_same),
      )
  step-IsCounted config blend workers size (succeed r before after tag latency now e) c =
      let fewer = removed r.in_flight before after tag e in
      (
        record {
          size_same = c.size_same;
          index_small = c.index_small;
          taken = ground (arith, c.taken);
          staffed = ground (arith, c.staffed);
          patient = c.patient;
        },
        ground arith,
      )
  step-IsCounted config blend workers size (fail r before after tag latency now e) c =
      let fewer = removed r.in_flight before after tag e in
      (
        record {
          size_same = c.size_same;
          index_small = c.index_small;
          taken = ground (arith, c.taken);
          staffed = ground (arith, c.staffed);
          patient = c.patient;
        },
        ground arith,
      )
  step-IsCounted config blend workers size (leave r idle w over) c = (
    record {
      size_same = c.size_same;
      index_small = c.index_small;
      taken = c.taken;
      staffed = ground (arith, c.staffed);
      patient = λ h. ground (arith, c.size_same, c.index_small);
    },
    ground arith,
  )

  Steps-IsCounted :
      (config : ProbingConfig) (blend : L → L → L) (workers size : ℕ) {k : ℕ} {r s : Run L}
      → Steps config blend k r s
      → IsCounted workers size r
      → IsCounted workers size s × (k + work_left size s ≤ work_left size r)
  Steps-IsCounted config blend workers size (started r) c = (c, omega arith)
  Steps-IsCounted config blend workers size (more steps step) c =
      let (d, below) = Steps-IsCounted config blend workers size steps c in
      let (e, less) = step-IsCounted config blend workers size step d in
      (e, omega (arith, below, less))

  started-IsCounted :
      (config : ProbingConfig) (targets : List Text) (p : ActiveProber L)
      → IsCounted
          (min config.max_concurrency (length targets))
          (length targets)
          (start_run config targets p)
  unfolding start_run
  started-IsCounted config targets p = record {
    size_same = refl;
    index_small = omega arith;
    taken = omega arith;
    staffed = omega arith;
    patient = λ h. absurd (omega arith);
  }

  -- What a run has come to: it can go on, or every target was probed and counted.
  abbrev pub GoesOn : ProbingConfig → (L → L → L) → Run L → Type 0
  GoesOn config blend r =
      ((s : Run L) × RunStep config blend r s) ⊎ (r.succeeded + r.failed ≡ length r.targets)

  awaits :
      (config : ProbingConfig) (blend : L → L → L) (r : Run L) (latency : L) (xs : List Text)
      → r.in_flight ≡ xs
      → r.waiting ≡ 0
      → (IsCounted (min config.max_concurrency (length r.targets)) (length r.targets) r)
      → 1 ≤ config.max_concurrency
      → GoesOn config blend r
  awaits config blend r latency (t ∷ ts) e w c h = inl (_, fail r [] ts t latency 0 e)
  awaits config blend r latency [] e w c h =
      let none_left : length r.in_flight ≡ 0 = ap length e in
      inr (ground (arith, c.taken, c.staffed, c.patient, c.index_small))

  goes_on :
      (config : ProbingConfig) (blend : L → L → L) (r : Run L) (latency : L) (waiting : ℕ)
      → r.waiting ≡ waiting
      → (IsCounted (min config.max_concurrency (length r.targets)) (length r.targets) r)
      → 1 ≤ config.max_concurrency
      → GoesOn config blend r
  goes_on config blend r latency zero w c h = awaits config blend r latency r.in_flight refl w c h
  goes_on config blend r latency (suc idle) w c h =
      elim (Bool-cases (ltb r.next_index (length r.targets))) [
        | inl more_targets ↦
            let (t, at) = get_elem?-lt r.targets r.next_index (ground arith) in
            inl (_, take_target r idle t w (ground arith) at)
        | inr over ↦ inl (_, leave r idle w (ground arith))
      ]

  -- A run of the prober that may use at least one worker ends: it has at most three steps for each target
  -- and one for each worker, in whatever order the probes end, there are never more probes awaited than
  -- workers allowed, and until it can go on no longer it does not stop: then the probes that succeeded
  -- and those that failed are together as many as the targets.
  pub run-terminates :
      (config : ProbingConfig) (blend : L → L → L) (latency : L) (targets : List Text)
      (p : ActiveProber L) (k : ℕ) (r : Run L)
      → 1 ≤ config.max_concurrency
      → Steps config blend k (start_run config targets p) r
      → (k ≤ 3 * length targets + min config.max_concurrency (length targets))
        × (length r.in_flight ≤ config.max_concurrency)
        × (length r.targets ≡ length targets)
        × GoesOn config blend r
  unfolding start_run
  run-terminates config blend latency targets p k r h steps =
      let (c, below) =
        Steps-IsCounted config blend _ (length targets) steps
          (started-IsCounted config targets p) in
      (
        omega (arith, below),
        omega (arith, c.staffed),
        c.size_same,
        goes_on config blend r latency r.waiting refl
            (subst (λ n. IsCounted (min config.max_concurrency n) n r) (sym c.size_same) c) h,
      )
