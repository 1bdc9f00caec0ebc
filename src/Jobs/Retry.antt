-- ===== src/Jobs/Retry.antt =====
-- etl/extract/sync_jobs.py, `connector_retry_plan`: when a failed job of a connector may run again.
use mathlib.Core.Path.{subst}
use ok.Prelude.{
  ℕ, zero, suc, ◌+◌, ◌-◌, ◌*◌, ◌^◌, ◌≤◌, String, ◌≡◌, refl, sym, ap, ◌∙◌, inl, inr, true, false,
  List, [], ◌∷◌, arith, ◌==◌, eq_iff, Bool-cases, Option-cases, All, select_where, All-selected,
  return, >>=-eq-return, Option, some, ltb,
}
use ok.Jobs.{
  JobRun, RetryPlan, key_below, latest_connector_run, greatest, greatest?, retry_anchor_time,
  plan_retry, retry_delay, connector_retry_plan,
}

-- a property of all the runs is one of the greatest
greatest-All :
    (P : JobRun → Type 0) (best : JobRun) (runs : List JobRun)
    → P best
    → All P runs
    → P (greatest best runs)
unfolding greatest
greatest-All P best [] h hs = h
greatest-All P best (run ∷ runs) h hs = elim (Bool-cases (key_below best run)) [
  | inl e ↦ rw e (greatest-All P run runs hs.0 hs.1)
  | inr e ↦ rw e (greatest-All P best runs h hs.1)
]

greatest?-All :
    (P : JobRun → Type 0) (runs : List JobRun) {run : JobRun}
    → All P runs
    → greatest? runs ≡ some run
    → P run
greatest?-All P [] h e = cc
greatest?-All P (x ∷ runs) {run} h e =
    let best : greatest x runs ≡ run = cc in subst P best (greatest-All P x runs h.0 h.1)

-- `2 ** (attempt - 2)` for the attempt behind a first one
delay_behind : (base n : ℕ) → 1 ≤ n → retry_delay base (suc n) ≡ base * 2 ^ (n - 1) * 1_000_000
delay_behind base zero h = omega (arith, h)
delay_behind base (suc n) h =
    let again : ltb (suc (suc n)) 2 ≡ false = ground arith in
    let shifted : suc (suc n) - 2 ≡ suc n - 1 = omega arith in rw (again, shifted) refl

connector_of_latest :
    (history : List JobRun) (connector : String) {run : JobRun}
    → latest_connector_run history connector ≡ some run
    → run.connector_name ≡ connector
unfolding latest_connector_run
connector_of_latest history connector {run} e = (eq_iff run.connector_name connector).0 (
    greatest?-All (λ x. (x.connector_name == connector) ≡ true)
      (select_where (λ x. x.connector_name == connector) history)
      (All-selected (λ x. x.connector_name == connector) history) e)

module _ (from_iso : String → Option ℕ) (base : ℕ) where
  -- what the plan behind a run is
  abbrev Plans : JobRun → RetryPlan → Type 0
  Plans run plan =
      (failed_at : ℕ) × (run.status ≡ "failed")
      × (retry_anchor_time from_iso run ≡ return failed_at)
      × (plan.attempt ≡ suc run.attempt)
      × (plan.earliest_retry_at ≡ failed_at + retry_delay base (suc run.attempt))

  planned :
      (run : JobRun) {plan : RetryPlan}
      → plan_retry from_iso base (some run) ≡ return (some plan)
      → Plans run plan
  unfolding plan_retry
  planned run {plan} e = elim (Bool-cases (run.status == "failed")) [
    | inr other ↦ cc (rw other at e)
    | inl failed ↦
        let (failed_at, anchored, done) =
          >>=-eq-return (retry_anchor_time from_iso run) _ (rw failed at e) in
        let plan_is : Path RetryPlan
            (record {
              attempt = suc run.attempt;
              earliest_retry_at = failed_at + retry_delay base (suc run.attempt);
            })
            plan =
          cc in
        (
          failed_at,
          (eq_iff run.status "failed").0 failed,
          anchored,
          sym (ap (λ x. x.attempt) plan_is),
          sym (ap (λ x. x.earliest_retry_at) plan_is),
        )
  ]

-- A retry is planned only behind the run that is chosen as the latest of the connector, and only
-- where that run has failed. The plan counts one attempt more. If that run counts at least one
-- attempt, the time of the plan is that of the failure and the base delay, doubled for each attempt
-- before that run.
pub connector_retry_plan-backs_off :
    (from_iso : String → Option ℕ) (history : List JobRun) (connector : String) (base : ℕ)
    {plan : RetryPlan}
    → connector_retry_plan from_iso history connector base ≡ return (some plan)
    → (run : JobRun) × (failed_at : ℕ) × (latest_connector_run history connector ≡ some run)
      × (run.connector_name ≡ connector)
      × (run.status ≡ "failed")
      × (retry_anchor_time from_iso run ≡ return failed_at)
      × (plan.attempt ≡ suc run.attempt)
      × (1 ≤ run.attempt
          → plan.earliest_retry_at ≡ failed_at + base * 2 ^ (run.attempt - 1) * 1_000_000)
unfolding connector_retry_plan plan_retry
connector_retry_plan-backs_off from_iso history connector base {plan} e =
    elim (Option-cases (latest_connector_run history connector)) [
      | inl missing ↦ cc (rw missing at e)
      | inr (run, found) ↦
          let (failed_at, failed, anchored, attempt, time) =
            planned from_iso base run (rw found at e) in
          (
            run,
            failed_at,
            found,
            connector_of_latest history connector found,
            failed,
            anchored,
            attempt,
            λ h. time ∙ ap (λ d. failed_at + d) (delay_behind base run.attempt h),
          )
    ]
