-- ===== src/Jobs/Locks.antt =====
-- etl/extract/sync_jobs.py: the runs of the connectors as locks, one for each connector.
use mathlib.Core.Path.{subst, fun_ext}
use ok.Prelude.{
  String, ◌≡◌, refl, sym, ap, ◌∙◌, inl, inr, true, false, List, [], ◌∷◌, ◌++◌, arith, Option, none,
  some, ◌==◌, eq_iff, any, Distinct, Bool-cases, update_where, Result, return, raise, value_error,
  type_error, payload_error, integrity_error, >>=-eq-return, return_inj, if◌then◌else◌,
}
use ok.Jobs.{
  JobRun, JobState, is_running, conflicts, insert_run, Start, id_of, started_run, input_of,
  start_connector_job, try_start_connector_job, settle, complete_connector_job, fail_connector_job,
  mark_connector_job_invalid,
}
use ok.Jobs.Exclusive.{
  Step, start, try_start, complete, fail, mark_invalid, Reachable, Reachable-Exclusive, Ends,
}

-- The specification: each connector has a lock that one job may hold.
abbrev pub Locks : Type 0
Locks = String → Option String

abbrev pub acquired : String → String → Locks → Locks
acquired connector id locks other = if connector == other then some id else locks other

abbrev let_go : String → Option String → Option String
let_go id none = none
let_go id (some holder) = if holder == id then none else some holder

abbrev pub released : String → Locks → Locks
released id locks connector = let_go id (locks connector)

pub data LockStep : Locks → Locks → Type 0 where
  acquire :
      (connector id : String) {locks : Locks}
      → locks connector ≡ none
      → LockStep locks (acquired connector id locks)
  release : (id : String) {locks : Locks} → LockStep locks (released id locks)
  stay : {locks : Locks} → LockStep locks locks

-- the job that holds the lock of a connector: the first that runs
abbrev pub holder : List JobRun → Locks
holder [] connector = none
holder (run ∷ runs) connector =
    if is_running connector run then some run.job_id else holder runs connector

abbrev pub locks_of : JobState → Locks
locks_of s = holder s.job_runs

free_behind :
    (connector : String) (run : JobRun) (runs : List JobRun)
    → is_running connector run ≡ true
    → any (conflicts run) runs ≡ false
    → holder runs connector ≡ none
free_behind connector run [] active free = refl
free_behind connector run (x ∷ runs) active free =
    let behind = free_behind connector run runs active (ground (arith, free)) in
    let same : run.connector_name ≡ connector =
      ground (arith, active, eq_iff run.connector_name connector) in
    let idle : is_running connector x ≡ false = rw (← same) (ground (arith, free, active)) in
    rw idle behind

-- an update that ends the run with an id
module _ (id : String) (f : JobRun → JobRun) (ends : Ends f) where
  holder-ended :
      (runs : List JobRun) (connector : String)
      → Distinct conflicts runs
      → holder (update_where (λ run. run.job_id == id) f runs) connector
        ≡ let_go id (holder runs connector)
  holder-ended [] connector d = refl
  holder-ended (run ∷ runs) connector d =
      let behind = holder-ended runs connector d.1 in
      elim (Bool-cases (run.job_id == id)) [
        | inl hit ↦
            let stopped : is_running connector (f run) ≡ false = ground (arith, ends.stopped run) in
            elim (Bool-cases (is_running connector run)) [
              | inl active ↦
                  let free = free_behind connector run runs active d.0 in
                  rw (hit, stopped, active) (behind ∙ rw (free, hit) refl)
              | inr idle ↦ rw (hit, stopped, idle) behind
            ]
        | inr miss ↦ elim (Bool-cases (is_running connector run)) [
          | inl active ↦ rw (miss, active) (rw miss refl)
          | inr idle ↦ rw (miss, idle) behind
        ]
      ]

  ended-LockStep :
      (runs : List JobRun)
      → Distinct conflicts runs
      → LockStep (holder runs) (holder (update_where (λ run. run.job_id == id) f runs))
  ended-LockStep runs d =
      subst (LockStep (holder runs)) (sym (fun_ext (λ connector. holder-ended runs connector d)))
        (release id)

-- no run of a connector whose new run meets no conflict holds its lock
free_lock :
    (run : JobRun) (runs : List JobRun)
    → (run.status == "running") ≡ true
    → any (conflicts run) runs ≡ false
    → holder runs run.connector_name ≡ none
free_lock run [] active free = refl
free_lock run (x ∷ runs) active free =
    let behind = free_lock run runs active (ground (arith, free)) in
    let idle : is_running run.connector_name x ≡ false = ground (arith, free, active) in
    rw idle behind

holder-snoc :
    (run : JobRun) (runs : List JobRun) (connector : String)
    → (run.status == "running") ≡ true
    → holder runs run.connector_name ≡ none
    → holder (runs ++ run ∷ []) connector
      ≡ acquired run.connector_name run.job_id (holder runs) connector
holder-snoc run [] connector active free = rw active (ground arith)
holder-snoc run (x ∷ runs) connector active free =
    elim (Bool-cases (is_running run.connector_name x)) [
      | inl taken ↦ cc (rw taken at free)
      | inr idle ↦
          let behind = holder-snoc run runs connector active (rw idle at free) in
          elim (Bool-cases (run.connector_name == connector)) [
            | inl same ↦
                let equal : run.connector_name ≡ connector =
                  (eq_iff run.connector_name connector).0 same in
                let idle' : is_running connector x ≡ false = rw (← equal) idle in
                rw (idle', same) (behind ∙ rw same refl)
            | inr other ↦ elim (Bool-cases (is_running connector x)) [
              | inl held ↦ rw (held, other) refl
              | inr idle' ↦ rw (idle', other) (behind ∙ rw other refl)
            ]
          ]
    ]

start-LockStep :
    (how : Start) (s : JobState) {run : JobRun} {s' : JobState}
    → start_connector_job how s ≡ return (run, s')
    → LockStep (locks_of s) (locks_of s')
unfolding start_connector_job insert_run
start-LockStep how s e =
    let (fields, _, rest) = >>=-eq-return (input_of how s) _ e in
    let (runs, inserted, done) =
      >>=-eq-return (insert_run (started_run how fields) s.job_runs) _ rest in
    let new : JobRun = started_run how fields in
    subst (LockStep (locks_of s)) (ap (λ x. locks_of x.1) (return_inj done))
      (elim (Bool-cases (any (conflicts new) s.job_runs)) [
        | inl taken ↦ cc (rw taken at inserted)
        | inr free ↦
            let unlocked = free_lock new s.job_runs refl free in
            subst (λ rows. LockStep (locks_of s) (holder rows)) (return_inj (rw free at inserted))
              (subst (LockStep (locks_of s))
                (sym (fun_ext (λ connector. holder-snoc new s.job_runs connector refl unlocked)))
                (acquire how.connector_name (id_of how) unlocked))
      ])

settle-LockStep :
    (how : Start) (s : JobState) (outcome : Result (JobRun × JobState))
    → start_connector_job how s ≡ outcome
    → LockStep (locks_of s) (locks_of (settle how.connector_name s outcome).1)
unfolding settle
settle-LockStep how s (return (run, s')) e = start-LockStep how s e
settle-LockStep how s (raise integrity_error) e = stay
settle-LockStep how s (raise (value_error m)) e = stay
settle-LockStep how s (raise (type_error m)) e = stay
settle-LockStep how s (raise (payload_error m)) e = stay

-- Whatever a worker does to the runs, in a state that is reached from the empty one, is for the locks
-- of the connectors to take a free lock for a new job, to let go of the lock that a job holds, or
-- nothing.
pub Step-LockStep :
    {s s' : JobState} → Reachable s → Step s s' → LockStep (locks_of s) (locks_of s')
unfolding try_start_connector_job complete_connector_job fail_connector_job
    mark_connector_job_invalid
Step-LockStep r (start how {s} e) = start-LockStep how s e
Step-LockStep r (try_start how {s}) = settle-LockStep how s (start_connector_job how s) refl
Step-LockStep r (complete job_id connector _ _ _ {s}) =
    ended-LockStep job_id _ (record { same_id = λ _. refl; stopped = λ _. refl }) s.job_runs
      (Reachable-Exclusive r)
Step-LockStep r (fail job_id _ _ {s}) =
    ended-LockStep job_id _ (record { same_id = λ _. refl; stopped = λ _. refl }) s.job_runs
      (Reachable-Exclusive r)
Step-LockStep r (mark_invalid job_id _ _ _ {s}) =
    ended-LockStep job_id _ (record { same_id = λ _. refl; stopped = λ _. refl }) s.job_runs
      (Reachable-Exclusive r)
