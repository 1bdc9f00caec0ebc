-- ===== src/Jobs/Starts.antt =====
-- etl/extract/sync_jobs.py, `try_start_connector_job`: a start that meets a running job, or the
-- checkpoint of one that has completed.
use mathlib.Core.Path.{subst}
use ok.Prelude.{
  String, ◌≡◌, refl, ap, ◌∙◌, inl, inr, Bool, true, false, List, [], ◌∷◌, ◌++◌, arith, ◌==◌, any,
  any-append, Distinct, Bool-cases, update_where, select_where, return, raise, ◌>>=◌, none, some,
  integrity_error, All, All-middle,
}
use ok.Json.{Fields}
use ok.Jobs.{
  JobRun, JobState, conflicts, is_running, insert_run, Start, id_of, started_run, input_of,
  start_connector_job, try_start_connector_job, settle, running_connector_job, row_or_none, latest,
  state_json, complete_connector_job, connector_checkpoint,
}
use ok.Jobs.Exclusive.{Exclusive, Reachable, Reachable-Exclusive, Ends}
use ok.Jobs.Readable.{IsReadable, job_row-IsReadable, Reachable-IsReadable}
use ok.Jobs.Checkpoint.{only_one, idle_ended, complete-checkpoint}

module _ (how : Start) (run : JobRun) (active : is_running how.connector_name run ≡ true) where
  abbrev the_connector : String
  the_connector = how.connector_name

  taken :
      (fields : Fields) (xs ys : List JobRun)
      → insert_run (started_run how fields) (xs ++ run ∷ ys) ≡ raise integrity_error
  unfolding insert_run
  taken fields xs ys =
      let conflict : any (conflicts (started_run how fields)) (xs ++ run ∷ ys) ≡ true =
        ground (arith, any-append (conflicts (started_run how fields)) xs (run ∷ ys), active) in
      rw conflict refl

  refused :
      (xs ys : List JobRun) (s : JobState) {fields : Fields}
      → s.job_runs ≡ xs ++ run ∷ ys
      → input_of how s ≡ return fields
      → start_connector_job how s ≡ raise integrity_error
  unfolding start_connector_job
  refused xs ys s {fields} there readable =
      ap
        (λ m. m >>= λ input_state. insert_run (started_run how input_state) s.job_runs >>= λ runs.
          return (started_run how input_state, record s { job_runs = runs }))
        readable
      ∙ ap (λ m. m >>= λ runs. return (started_run how fields, record s { job_runs = runs }))
          (ap (insert_run (started_run how fields)) there ∙ taken fields xs ys)

  one_running :
      (xs ys : List JobRun) (s : JobState)
      → Exclusive s
      → IsReadable run
      → s.job_runs ≡ xs ++ run ∷ ys
      → running_connector_job how.connector_name s ≡ return (some run)
  unfolding running_connector_job latest
  one_running xs ys s d readable there =
      ap (λ runs. row_or_none (latest (select_where (is_running how.connector_name) runs))) there
      ∙ ap (λ runs. row_or_none (latest runs))
          (only_one how.connector_name run active xs ys (subst (Distinct conflicts) there d))
      ∙ ap (λ m. m >>= λ row. return (some row)) (job_row-IsReadable run readable)

-- In a state that workers reach from the empty one: if a run of the connector is running, and the
-- input of the new run can be read, a start is answered by the run that is running, and nothing
-- changes.
pub try_start-busy :
    (how : Start) (run : JobRun) (before behind : List JobRun) (s : JobState) {fields : Fields}
    → Reachable s
    → s.job_runs ≡ before ++ run ∷ behind
    → is_running how.connector_name run ≡ true
    → input_of how s ≡ return fields
    → try_start_connector_job how s ≡ (return (record { started = none; running = some run }), s)
unfolding try_start_connector_job settle
try_start-busy how run before behind s r there active readable =
    ap (settle how.connector_name s) (refused how run active before behind s there readable)
    ∙ ap (λ m. (m >>= λ found. return (record { started = none; running = found }), s))
        (one_running how run active before behind s (Reachable-Exclusive r)
          (All-middle IsReadable before run behind
            (subst (All IsReadable) there (Reachable-IsReadable r)))
          there)

-- ids are kept by an update that ends runs
same_ids :
    (id : String) (p : JobRun → Bool) (f : JobRun → JobRun) (ends : Ends f) (runs : List JobRun)
    → any (λ x. x.job_id == id) (update_where p f runs) ≡ any (λ x. x.job_id == id) runs
same_ids id p f ends [] = refl
same_ids id p f ends (x ∷ runs) =
    let rest = same_ids id p f ends runs in
    elim (Bool-cases (p x)) [ inl e ↦ rw (e, ends.same_id x, rest) | inr e ↦ rw (e, rest) ]

free_for :
    (how : Start) (fields : Fields) (runs : List JobRun)
    → any (λ x. x.job_id == id_of how) runs ≡ false
    → any (is_running how.connector_name) runs ≡ false
    → any (conflicts (started_run how fields)) runs ≡ false
free_for how fields [] new idle = refl
free_for how fields (x ∷ runs) new idle =
    let rest = free_for how fields runs (ground (arith, new)) (ground (arith, idle)) in
    ground (arith, new, idle, rest)

inserted :
    (how : Start) (fields : Fields) (s : JobState)
    → input_of how s ≡ return fields
    → any (conflicts (started_run how fields)) s.job_runs ≡ false
    → try_start_connector_job how s ≡ (
      return (record { started = some (started_run how fields); running = none }),
      record s { job_runs = s.job_runs ++ started_run how fields ∷ [] },
    )
unfolding try_start_connector_job start_connector_job settle insert_run
inserted how fields s readable free =
    ap
      (λ m. settle how.connector_name s (
        m >>= λ input_state. insert_run (started_run how input_state) s.job_runs >>= λ runs.
        return (started_run how input_state, record s { job_runs = runs })))
      readable
    ∙ rw free refl

from_checkpoint :
    (how : Start) (s : JobState)
    → how.input_state ≡ none
    → input_of how s ≡ connector_checkpoint how.connector_name s
unfolding input_of
from_checkpoint how s absent = rw absent refl

completed-free :
    (how : Start) (run : JobRun) (before behind : List JobRun) (output : Fields)
    (raw_ref at : String) (s : JobState)
    → Exclusive s
    → s.job_runs ≡ before ++ run ∷ behind
    → is_running how.connector_name run ≡ true
    → any (λ x. x.job_id == id_of how) s.job_runs ≡ false
    → any
        (conflicts (started_run how output))
        (complete_connector_job run.job_id how.connector_name output raw_ref at s).job_runs
      ≡ false
unfolding complete_connector_job
completed-free how run before behind output raw_ref at s d there active new =
    let ended : JobRun → JobRun = λ x. record x {
      status = "succeeded";
      finished_at = at;
      output_state = state_json output;
      raw_output_ref = raw_ref;
      error = "";
    } in
    let ends : Ends ended = record { same_id = λ _. refl; stopped = λ _. refl } in
    free_for how output (update_where (λ x. x.job_id == run.job_id) ended s.job_runs)
      (same_ids (id_of how) (λ x. x.job_id == run.job_id) ended ends s.job_runs ∙ new)
      (ap
          (λ runs.
            any (is_running how.connector_name)
              (update_where (λ x. x.job_id == run.job_id) ended runs))
          there
        ∙ idle_ended how.connector_name run active ended ends before behind
            (subst (Distinct conflicts) there d))

-- Where no two runs have one id and no two running ones one connector: when the running job of a
-- connector completes, the next start of the connector that is given no input and a new id
-- succeeds. Its run is the only change, and its input is the output of that job.
pub complete-resumes :
    (how : Start) (run : JobRun) (before behind : List JobRun) (output : Fields)
    (raw_ref at : String) (s : JobState)
    → Exclusive s
    → s.job_runs ≡ before ++ run ∷ behind
    → is_running how.connector_name run ≡ true
    → how.input_state ≡ none
    → any (λ x. x.job_id == id_of how) s.job_runs ≡ false
    → let s' : JobState =
        complete_connector_job run.job_id how.connector_name output raw_ref at s in
      try_start_connector_job how s' ≡ (
        return (record { started = some (started_run how output); running = none }),
        record s' { job_runs = s'.job_runs ++ started_run how output ∷ [] },
      )
complete-resumes how run before behind output raw_ref at s d there active absent new =
    let s' : JobState = complete_connector_job run.job_id how.connector_name output raw_ref at s in
    inserted how output s'
      (from_checkpoint how s' absent
        ∙ (complete-checkpoint run.job_id how.connector_name output raw_ref at s).0)
      (completed-free how run before behind output raw_ref at s d there active new)
