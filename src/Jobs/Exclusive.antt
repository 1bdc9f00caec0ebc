-- ===== src/Jobs/Exclusive.antt =====
-- etl/extract/sync_jobs.py: the states of the job runs that workers lead to, and the unique index
-- over the running ones.
use mathlib.Core.Path.{subst}
use ok.Prelude.{
  String, ◌≡◌, refl, ap, inl, inr, Bool, false, List, [], ◌∷◌, arith, ◌==◌, eq_iff, any, Distinct,
  Distinct-snoc, Bool-cases, update_where, Result, return, raise, value_error, type_error,
  payload_error, integrity_error, >>=-eq-return, return_inj,
}
use ok.Json.{Fields}
use ok.Jobs.{
  JobRun, JobState, conflicts, insert_run, Start, started_run, input_of, start_connector_job,
  try_start_connector_job, settle, complete_connector_job, fail_connector_job,
  mark_connector_job_invalid,
}

abbrev pub empty : JobState
empty = record { job_runs = []; connector_states = [] }

-- what a worker does to the runs
pub data Step : JobState → JobState → Type 0 where
  start :
      (how : Start) {s s' : JobState} {run : JobRun}
      → start_connector_job how s ≡ return (run, s')
      → Step s s'
  try_start : (how : Start) {s : JobState} → Step s (try_start_connector_job how s).1
  complete :
      (job_id connector : String) (output_state : Fields) (raw_output_ref finished_at : String)
      {s : JobState}
      → Step s (complete_connector_job job_id connector output_state raw_output_ref finished_at s)
  fail :
      (job_id error finished_at : String) {s : JobState}
      → Step s (fail_connector_job job_id error finished_at s)
  mark_invalid :
      (job_id error raw_output_ref finished_at : String) {s : JobState}
      → Step s (mark_connector_job_invalid job_id error raw_output_ref finished_at s)

pub data Reachable : JobState → Type 0 where
  at_first : Reachable empty
  after : {s s' : JobState} → Reachable s → Step s s' → Reachable s'

-- No two runs have the same id, and no two running ones the same connector.
abbrev pub Exclusive : JobState → Type 0
Exclusive s = Distinct conflicts s.job_runs

pub conflicts_comm : (a b : JobRun) → conflicts a b ≡ conflicts b a
conflicts_comm a b = ground (
  arith,
  eq_iff a.job_id b.job_id,
  eq_iff b.job_id a.job_id,
  eq_iff a.connector_name b.connector_name,
  eq_iff b.connector_name a.connector_name,
)

-- an update that ends runs
pub record Ends (f : JobRun → JobRun) : Type 0 where
  pub same_id : (run : JobRun) → (f run).job_id ≡ run.job_id
  pub stopped : (run : JobRun) → ((f run).status == "running") ≡ false

module _ (p : JobRun → Bool) (f : JobRun → JobRun) (ends : Ends f) where
  free-ended : (x y : JobRun) → conflicts x y ≡ false → conflicts x (f y) ≡ false
  free-ended x y h = rw (ends.same_id y) (ground (arith, ends.stopped y, h))

  free-update_where :
      (x : JobRun) (runs : List JobRun)
      → any (conflicts x) runs ≡ false
      → any (conflicts x) (update_where p f runs) ≡ false
  free-update_where x [] h = refl
  free-update_where x (y ∷ runs) h =
      let rest = free-update_where x runs (ground (arith, h)) in
      let here : conflicts x y ≡ false = ground (arith, h) in
      elim (Bool-cases (p y)) [
        | inl e ↦ rw e (ground (arith, free-ended x y here, rest))
        | inr e ↦ rw e (ground (arith, here, rest))
      ]

  ended-conflicts : (x y : JobRun) → conflicts x y ≡ false → conflicts (f x) y ≡ false
  ended-conflicts x y h = rw (ends.same_id x) (ground (arith, ends.stopped x, h))

  ended-free :
      (x : JobRun) (runs : List JobRun)
      → any (conflicts x) runs ≡ false
      → any (conflicts (f x)) runs ≡ false
  ended-free x [] h = refl
  ended-free x (y ∷ runs) h =
      let here : conflicts x y ≡ false = ground (arith, h) in
      ground (arith, ended-conflicts x y here, ended-free x runs (ground (arith, h)))

  Distinct-update_where :
      (runs : List JobRun) → Distinct conflicts runs → Distinct conflicts (update_where p f runs)
  Distinct-update_where [] d = tt
  Distinct-update_where (x ∷ runs) d =
      let rest = Distinct-update_where runs d.1 in
      let free = free-update_where x runs d.0 in
      elim (Bool-cases (p x)) [
        | inl e ↦ rw e (ended-free x (update_where p f runs) free, rest)
        | inr e ↦ rw e (free, rest)
      ]

insert_run-Exclusive :
    (run : JobRun) (runs : List JobRun) {runs' : List JobRun}
    → Distinct conflicts runs
    → insert_run run runs ≡ return runs'
    → Distinct conflicts runs'
unfolding insert_run
insert_run-Exclusive run runs d e = elim (Bool-cases (any (conflicts run) runs)) [
  | inl taken ↦ cc (rw taken at e)
  | inr free ↦
      subst (Distinct conflicts) (return_inj (rw free at e))
        (Distinct-snoc conflicts conflicts_comm runs run d free)
]

start-Exclusive :
    (how : Start) (s : JobState) {run : JobRun} {s' : JobState}
    → Exclusive s
    → start_connector_job how s ≡ return (run, s')
    → Exclusive s'
unfolding start_connector_job
start-Exclusive how s d e =
    let (fields, _, rest) = >>=-eq-return (input_of how s) _ e in
    let (runs, inserted, done) =
      >>=-eq-return (insert_run (started_run how fields) s.job_runs) _ rest in
    subst Exclusive (ap (λ x. x.1) (return_inj done))
      (insert_run-Exclusive (started_run how fields) s.job_runs d inserted)

settle-Exclusive :
    (how : Start) (s : JobState) (outcome : Result (JobRun × JobState))
    → Exclusive s
    → start_connector_job how s ≡ outcome
    → Exclusive (settle how.connector_name s outcome).1
unfolding settle
settle-Exclusive how s (return (run, s')) d e = start-Exclusive how s d e
settle-Exclusive how s (raise integrity_error) d e = d
settle-Exclusive how s (raise (value_error m)) d e = d
settle-Exclusive how s (raise (type_error m)) d e = d
settle-Exclusive how s (raise (payload_error m)) d e = d

step-Exclusive : {s s' : JobState} → Step s s' → Exclusive s → Exclusive s'
unfolding try_start_connector_job complete_connector_job fail_connector_job
    mark_connector_job_invalid
step-Exclusive (start how {s} e) d = start-Exclusive how s d e
step-Exclusive (try_start how {s}) d = settle-Exclusive how s (start_connector_job how s) d refl
step-Exclusive (complete _ _ _ _ _ {s}) d =
    Distinct-update_where _ _ (record { same_id = λ _. refl; stopped = λ _. refl }) s.job_runs d
step-Exclusive (fail _ _ _ {s}) d =
    Distinct-update_where _ _ (record { same_id = λ _. refl; stopped = λ _. refl }) s.job_runs d
step-Exclusive (mark_invalid _ _ _ _ {s}) d =
    Distinct-update_where _ _ (record { same_id = λ _. refl; stopped = λ _. refl }) s.job_runs d

-- In a state that is reached from the empty one by starts, completions, failures and rejections of
-- jobs, no two runs have the same id, and no two runs of one connector are running.
pub Reachable-Exclusive : {s : JobState} → Reachable s → Exclusive s
Reachable-Exclusive at_first = tt
Reachable-Exclusive (after r step) = step-Exclusive step (Reachable-Exclusive r)
