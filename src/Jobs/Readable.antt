-- ===== src/Jobs/Readable.antt =====
-- etl/extract/sync_jobs.py, `_job_row`: the states of the job runs, which are JSON objects.
use mathlib.Core.Path.{subst}
use ok.Prelude.{
  ◌≡◌, refl, ap, ◌∙◌, ◌==◌, inl, inr, any, All, All-append, All-update_where, Bool-cases, Result,
  return, raise, value_error, type_error, payload_error, integrity_error, >>=-eq-return, return_inj,
}
use ok.Json.{Fields}
use ok.Jobs.{
  JobRun, JobState, conflicts, insert_run, Start, started_run, input_of, start_connector_job,
  try_start_connector_job, settle, job_row, complete_connector_job, fail_connector_job,
  mark_connector_job_invalid, state_json,
}
use ok.Jobs.Exclusive.{
  Step, start, try_start, complete, fail, mark_invalid, Reachable, at_first, after,
}

-- both states of a run are JSON objects
pub record IsReadable (run : JobRun) : Type 0 where
  pub input : Fields
  pub output : Fields
  pub input_is : run.input_state ≡ state_json input
  pub output_is : run.output_state ≡ state_json output

pub job_row-IsReadable : (run : JobRun) → IsReadable run → job_row run ≡ return run
unfolding job_row
job_row-IsReadable run r = rw (r.input_is, r.output_is) refl

same_states :
    {x y : JobRun}
    → IsReadable x
    → y.input_state ≡ x.input_state
    → y.output_state ≡ x.output_state
    → IsReadable y
same_states r i o = record {
  input = r.input;
  output = r.output;
  input_is = i ∙ r.input_is;
  output_is = o ∙ r.output_is;
}

start-IsReadable :
    (how : Start) (s : JobState) {run : JobRun} {s' : JobState}
    → All IsReadable s.job_runs
    → start_connector_job how s ≡ return (run, s')
    → All IsReadable s'.job_runs
unfolding start_connector_job insert_run
start-IsReadable how s h e =
    let (fields, _, rest) = >>=-eq-return (input_of how s) _ e in
    let (runs, inserted, done) =
      >>=-eq-return (insert_run (started_run how fields) s.job_runs) _ rest in
    subst (λ (x : JobState). All IsReadable x.job_runs) (ap (λ x. x.1) (return_inj done))
      (elim (Bool-cases (any (conflicts (started_run how fields)) s.job_runs)) [
        | inl taken ↦ cc (rw taken at inserted)
        | inr free ↦ subst (All IsReadable) (return_inj (rw free at inserted)) (
            All-append IsReadable s.job_runs _ h
              (record { input = _; output = _; input_is = refl; output_is = refl }, tt))
      ])

settle-IsReadable :
    (how : Start) (s : JobState) (outcome : Result (JobRun × JobState))
    → All IsReadable s.job_runs
    → start_connector_job how s ≡ outcome
    → All IsReadable (settle how.connector_name s outcome).1.job_runs
unfolding settle
settle-IsReadable how s (return (run, s')) h e = start-IsReadable how s h e
settle-IsReadable how s (raise integrity_error) h e = h
settle-IsReadable how s (raise (value_error m)) h e = h
settle-IsReadable how s (raise (type_error m)) h e = h
settle-IsReadable how s (raise (payload_error m)) h e = h

step-IsReadable :
    {s s' : JobState} → Step s s' → All IsReadable s.job_runs → All IsReadable s'.job_runs
unfolding try_start_connector_job complete_connector_job fail_connector_job
    mark_connector_job_invalid
step-IsReadable (start how {s} e) h = start-IsReadable how s h e
step-IsReadable (try_start how {s}) h = settle-IsReadable how s (start_connector_job how s) h refl
step-IsReadable (complete job_id _ output ref at {s}) h =
    All-update_where IsReadable (λ run. run.job_id == job_id)
      (λ run. record run {
        status = "succeeded";
        finished_at = at;
        output_state = state_json output;
        raw_output_ref = ref;
        error = "";
      })
      (λ x _ r. record {
        input = r.input;
        output = output;
        input_is = r.input_is;
        output_is = refl;
      })
      s.job_runs h
step-IsReadable (fail job_id error at {s}) h =
    All-update_where IsReadable (λ run. run.job_id == job_id)
      (λ run. record run { status = "failed"; finished_at = at; error = error })
      (λ x _ r. same_states r refl refl) s.job_runs h
step-IsReadable (mark_invalid job_id error ref at {s}) h =
    All-update_where IsReadable (λ run. run.job_id == job_id)
      (λ run. record run {
        status = "invalid";
        finished_at = at;
        raw_output_ref = ref;
        error = error;
      })
      (λ x _ r. same_states r refl refl) s.job_runs h

-- in a reachable state the states of each run are JSON objects
pub Reachable-IsReadable : {s : JobState} → Reachable s → All IsReadable s.job_runs
Reachable-IsReadable at_first = tt
Reachable-IsReadable (after r step) = step-IsReadable step (Reachable-IsReadable r)
