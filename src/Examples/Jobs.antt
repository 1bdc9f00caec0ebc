-- ===== src/Examples/Jobs.antt =====
-- The jobs of one connector: a run, a second start, and the start behind its success.
use ok.Prelude.{
  ℕ, String, ◌≡◌, ◌≢◌, refl, ◌≤◌, [], ◌∷◌, ◌++◌, ◌+◌, ◌*◌, ◌^◌, ◌-◌, suc, Option, none, some,
  return,
}
use ok.Json.{Fields, end, field, str}
use ok.Jobs.{
  JobRun, JobState, Start, RetryPlan, started_run, input_of, start_connector_job,
  try_start_connector_job, insert_run, latest_connector_run, retry_anchor_time,
  complete_connector_job, fail_connector_job, connector_checkpoint, connector_retry_plan, JobStart,
}
use ok.Jobs.Exclusive.{
  Reachable, at_first, after, start, fail, empty, Exclusive, Reachable-Exclusive,
}
use ok.Jobs.Locks.{LockStep, locks_of, Step-LockStep}
use ok.Jobs.Retry.{connector_retry_plan-backs_off}
use ok.Jobs.Checkpoint.{complete-checkpoint}
use ok.Jobs.Starts.{try_start-busy, complete-resumes}

-- the start of a job with an id
abbrev begin : String → Start
begin id = record {
  connector_name = "slack";
  job_id = some id;
  new_id = "";
  attempt = 1;
  input_state = none;
  now = "2026-01-01";
}

abbrev first_run : JobRun
first_run = started_run (begin "job-1") end

abbrev running : JobState
running = record { job_runs = first_run ∷ []; connector_states = [] }

started : start_connector_job (begin "job-1") empty ≡ return (first_run, running)
unfolding start_connector_job ok.Jobs.input_of ok.Jobs.insert_run ok.Jobs.connector_checkpoint
    ok.Jobs.checkpoint_of
started = refl

running-Reachable : Reachable running
running-Reachable = after at_first (start (begin "job-1") started)

Reachable-Exclusive_example : Exclusive (fail_connector_job "job-1" "timeout" "2026-01-02" running)
Reachable-Exclusive_example =
    Reachable-Exclusive (after running-Reachable (fail "job-1" "timeout" "2026-01-02"))

Step-LockStep_example : LockStep (locks_of empty) (locks_of running)
Step-LockStep_example = Step-LockStep at_first (start (begin "job-1") started)

abbrev cursor : Fields
cursor = field "cursor" (str "42") end

complete-checkpoint_example :
    (connector_checkpoint "slack"
        (complete_connector_job "job-1" "slack" cursor "" "2026-01-02" running)
      ≡ return cursor)
    × ((other : String)
        → other ≢ "slack"
        → connector_checkpoint other
            (complete_connector_job "job-1" "slack" cursor "" "2026-01-02" running)
          ≡ connector_checkpoint other running)
complete-checkpoint_example = complete-checkpoint "job-1" "slack" cursor "" "2026-01-02" running

nothing_stored : input_of (begin "job-2") running ≡ return end
unfolding input_of connector_checkpoint ok.Jobs.checkpoint_of
nothing_stored = refl

try_start-busy_example :
    try_start_connector_job (begin "job-2") running
    ≡ (return (record { started = none; running = some first_run }), running)
try_start-busy_example =
    try_start-busy (begin "job-2") first_run [] [] running running-Reachable refl refl
      nothing_stored

complete-resumes_example :
    let s' : JobState = complete_connector_job "job-1" "slack" cursor "" "2026-01-02" running in
    try_start_connector_job (begin "job-2") s' ≡ (
      return (record { started = some (started_run (begin "job-2") cursor); running = none }),
      record s' { job_runs = s'.job_runs ++ started_run (begin "job-2") cursor ∷ [] },
    )
complete-resumes_example =
    complete-resumes (begin "job-2") first_run [] [] cursor "" "2026-01-02" running
      (Reachable-Exclusive running-Reachable) refl refl refl refl

abbrev failed_run : JobRun
failed_run = record first_run {
  status = "failed";
  attempt = 3;
  finished_at = "2026-01-02";
  error = "timeout";
}

-- a clock that reads one day
abbrev read_day : String → Option ℕ
read_day _ = some 1000

abbrev second_retry : RetryPlan
second_retry = record { attempt = 4; earliest_retry_at = 240_001_000 }

planned : connector_retry_plan read_day (failed_run ∷ []) "slack" 60 ≡ return (some second_retry)
unfolding ok.Jobs.connector_retry_plan ok.Jobs.plan_retry ok.Jobs.retry_anchor_time
    ok.Jobs.latest_connector_run ok.Jobs.greatest
planned = refl

connector_retry_plan-backs_off_example :
    (run : JobRun) × (failed_at : ℕ) × (latest_connector_run (failed_run ∷ []) "slack" ≡ some run)
    × (run.connector_name ≡ "slack")
    × (run.status ≡ "failed")
    × (retry_anchor_time read_day run ≡ return failed_at)
    × (4 ≡ suc run.attempt)
    × (1 ≤ run.attempt → 240_001_000 ≡ failed_at + 60 * 2 ^ (run.attempt - 1) * 1_000_000)
connector_retry_plan-backs_off_example =
    connector_retry_plan-backs_off read_day (failed_run ∷ []) "slack" 60 planned
