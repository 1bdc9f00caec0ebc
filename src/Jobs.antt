-- ===== src/Jobs.antt =====
-- etl/extract/sync_jobs.py and storage/models/connector_state.py: the runs of the connectors and
-- their checkpoints.
pub mod Exclusive
pub mod Readable
pub mod Locks
pub mod Checkpoint
pub mod Starts
pub mod Retry
use ok.Prelude.{
  ℕ, suc, ◌+◌, ◌-◌, ◌*◌, ◌^◌, String, Bool, true, false, not, ◌&&◌, ◌||◌, List, [], ◌∷◌, ◌++◌, map,
  Option, none, some, ◌==◌, any, ltb, select_where, delete_where, update_where, first, is_empty,
  ◌or◌, lt_text, Result, return, raise, ◌>>=◌, value_error, integrity_error, if◌then◌else◌,
}
use ok.Json.{Json, JsonText, Fields, obj, end}

pub record JobRun : Type 0 where
  pub job_id : String
  pub connector_name : String
  pub status : String
  pub attempt : ℕ
  pub started_at : String
  pub finished_at : String
  pub input_state : JsonText
  pub output_state : JsonText
  pub raw_output_ref : String
  pub error : String

pub record ConnectorState : Type 0 where
  pub connector_name : String
  pub state_json : JsonText
  pub updated_at : String

pub record JobState : Type 0 where
  pub job_runs : List JobRun
  pub connector_states : List ConnectorState

-- `_state_json` and `_state_dict`
abbrev pub state_json : Fields → JsonText
state_json fields = some (obj fields)

pub state_dict : JsonText → Result Fields
state_dict (some (obj fields)) = return fields
state_dict _ = raise (value_error "connector state must be a JSON object")

abbrev pub is_running : String → JobRun → Bool
is_running connector run = (run.connector_name == connector) && (run.status == "running")

-- The primary key, and the unique index over the runs with the status "running".
abbrev pub conflicts : JobRun → JobRun → Bool
conflicts new old =
    (old.job_id == new.job_id) || ((new.status == "running") && is_running new.connector_name old)

unfoldable pub insert_run : JobRun → List JobRun → Result (List JobRun)
insert_run run runs =
    if any (conflicts run) runs then raise integrity_error else return (runs ++ run ∷ [])

-- the state of the row that was found
unfoldable pub checkpoint_of : Option ConnectorState → Result Fields
checkpoint_of none = return end
checkpoint_of (some row) = state_dict row.state_json

-- `connector_checkpoint`
unfoldable pub connector_checkpoint : String → JobState → Result Fields
unfolding state_dict checkpoint_of
connector_checkpoint connector s =
    checkpoint_of (first (select_where (λ row. row.connector_name == connector) s.connector_states))

-- the arguments of a start: `new_id` is what `uuid4` gives, and `now` the timestamp
pub record Start : Type 0 where
  pub connector_name : String
  pub job_id : Option String
  pub new_id : String
  pub attempt : ℕ
  pub input_state : Option Fields
  pub now : String

abbrev pub id_of : Start → String
id_of start = elim start.job_id [ none ↦ start.new_id | some id ↦ id or start.new_id ]

abbrev pub started_run : Start → Fields → JobRun
started_run start input_state = record {
  job_id = id_of start;
  connector_name = start.connector_name;
  status = "running";
  attempt = start.attempt;
  started_at = start.now;
  finished_at = "";
  input_state = state_json input_state;
  output_state = state_json end;
  raw_output_ref = "";
  error = "";
}

-- the input of a run: what the caller gives, or the checkpoint of the connector
unfoldable pub input_of : Start → JobState → Result Fields
unfolding connector_checkpoint
input_of start s = elim start.input_state [
  | some fields ↦ return fields
  | none ↦ connector_checkpoint start.connector_name s
]

-- `start_connector_job`
unfoldable pub start_connector_job : Start → JobState → Result (JobRun × JobState)
unfolding input_of insert_run
start_connector_job start s = input_of start s >>= λ input_state.
    insert_run (started_run start input_state) s.job_runs >>= λ runs.
    return (started_run start input_state, record s { job_runs = runs })

-- `ORDER BY started_at DESC, job_id DESC`: whether a run stands before another
abbrev pub later : JobRun → JobRun → Bool
later a b =
    if a.started_at == b.started_at
    then lt_text b.job_id a.job_id
    else lt_text b.started_at a.started_at

-- the first row in that order
pub latest : List JobRun → Option JobRun
latest [] = none
latest (run ∷ rest) = elim (latest rest) [
  | none ↦ some run
  | some other ↦ some (if later other run then other else run)
]

-- `_job_row`: a state that is no JSON object raises
unfoldable pub job_row : JobRun → Result JobRun
unfolding state_dict
job_row run = state_dict run.input_state >>= λ _. state_dict run.output_state >>= λ _. return run

abbrev pub row_or_none : Option JobRun → Result (Option JobRun)
row_or_none none = return none
row_or_none (some run) = job_row run >>= λ row. return (some row)

-- `running_connector_job`
pub running_connector_job : String → JobState → Result (Option JobRun)
unfolding latest job_row
running_connector_job connector s =
    row_or_none (latest (select_where (is_running connector) s.job_runs))

pub record JobStart : Type 0 where
  pub started : Option JobRun
  pub running : Option JobRun

-- An integrity error of the start is answered by the run that is running; others are raised.
pub settle : String → JobState → Result (JobRun × JobState) → Result JobStart × JobState
settle connector s (return (run, s')) = (return (record { started = some run; running = none }), s')
settle connector s (raise integrity_error) = (
  running_connector_job connector s >>= λ running.
      return (record { started = none; running = running }),
  s,
)
settle connector s (raise e) = (raise e, s)

-- `try_start_connector_job`
pub try_start_connector_job : Start → JobState → Result JobStart × JobState
unfolding start_connector_job settle running_connector_job
try_start_connector_job start s = settle start.connector_name s (start_connector_job start s)

-- `complete_connector_job`: the run has succeeded, and its output is the new checkpoint
pub complete_connector_job : String → String → Fields → String → String → JobState → JobState
complete_connector_job job_id connector output_state raw_output_ref finished_at s = record {
  job_runs =
      update_where (λ run. run.job_id == job_id)
        (λ run. record run {
          status = "succeeded";
          finished_at = finished_at;
          output_state = state_json output_state;
          raw_output_ref = raw_output_ref;
          error = "";
        })
        s.job_runs;
  connector_states =
      delete_where (λ row. row.connector_name == connector) s.connector_states
      ++ record {
        connector_name = connector;
        state_json = state_json output_state;
        updated_at = finished_at;
      }
        ∷ [];
}

-- `fail_connector_job`
pub fail_connector_job : String → String → String → JobState → JobState
fail_connector_job job_id error finished_at s = record s {
  job_runs =
      update_where (λ run. run.job_id == job_id)
        (λ run. record run { status = "failed"; finished_at = finished_at; error = error })
        s.job_runs;
}

-- `mark_connector_job_invalid`
pub mark_connector_job_invalid : String → String → String → String → JobState → JobState
mark_connector_job_invalid job_id error raw_output_ref finished_at s = record s {
  job_runs =
      update_where (λ run. run.job_id == job_id)
        (λ run. record run {
          status = "invalid";
          finished_at = finished_at;
          raw_output_ref = raw_output_ref;
          error = error;
        })
        s.job_runs;
}

-- `_run_sort_key`: whether the key of `a` is below that of `b`
abbrev pub key_below : JobRun → JobRun → Bool
key_below a b =
    if a.started_at == b.started_at
    then (if a.finished_at == b.finished_at
        then lt_text a.job_id b.job_id
        else lt_text a.finished_at b.finished_at)
    else lt_text a.started_at b.started_at

-- `max(runs, key=...)`, the first of the greatest
unfoldable pub greatest : JobRun → List JobRun → JobRun
greatest best [] = best
greatest best (run ∷ rest) = greatest (if key_below best run then run else best) rest

abbrev pub greatest? : List JobRun → Option JobRun
greatest? [] = none
greatest? (run ∷ rest) = some (greatest run rest)

-- `_latest_connector_run`
unfoldable pub latest_connector_run : List JobRun → String → Option JobRun
unfolding greatest lt_text
latest_connector_run history connector =
    greatest? (select_where (λ run. run.connector_name == connector) history)

pub record RetryPlan : Type 0 where
  pub attempt : ℕ
  -- in microseconds since the epoch
  pub earliest_retry_at : ℕ

-- `base_delay_seconds * (2 ** (attempt - 2))` in microseconds: at the first attempt it is half
abbrev pub retry_delay : ℕ → ℕ → ℕ
retry_delay base_delay_seconds attempt =
    if ltb attempt 2
    then base_delay_seconds * 500_000
    else base_delay_seconds * 2 ^ (attempt - 2) * 1_000_000

module _ (from_iso : String → Option ℕ) where
  -- `_retry_anchor_time`; `from_iso` is `datetime.fromisoformat`, `none` where that raises
  unfoldable pub retry_anchor_time : JobRun → Result ℕ
  retry_anchor_time run =
      let anchor = run.finished_at or run.started_at in
      if anchor == ""
      then raise (value_error "failed connector job must have a timestamp to compute retry timing")
      else elim (from_iso anchor) [
        | none ↦ raise (value_error "Invalid isoformat string")
        | some time ↦ return time
      ]

  -- the plan for the run that is the latest
  unfoldable pub plan_retry : ℕ → Option JobRun → Result (Option RetryPlan)
  plan_retry base none = return none
  plan_retry base (some run) =
      if run.status == "failed"
      then (retry_anchor_time run >>= λ failed_at. return (
          some (record {
            attempt = suc run.attempt;
            earliest_retry_at = failed_at + retry_delay base (suc run.attempt);
          })))
      else return none

  -- `connector_retry_plan`
  unfoldable pub connector_retry_plan : List JobRun → String → ℕ → Result (Option RetryPlan)
  unfolding plan_retry retry_anchor_time latest_connector_run
  connector_retry_plan history connector base =
      plan_retry base (latest_connector_run history connector)
