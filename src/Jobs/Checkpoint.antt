-- ===== src/Jobs/Checkpoint.antt =====
-- etl/extract/sync_jobs.py: the checkpoints of the connectors, and the running jobs among the runs.
use ok.Prelude.{
  String, ◌≡◌, refl, sym, ap, ◌∙◌, ◌≢◌, inl, inr, true, false, List, [], ◌∷◌, ◌++◌, arith, ◌==◌,
  eq_iff, eq_refl, any, any-append, Distinct, Bool-cases, update_where, select_where, delete_where,
  first, return, some,
}
use ok.Json.{Fields}
use ok.Jobs.{
  JobRun, JobState, ConnectorState, conflicts, is_running, state_json, state_dict,
  complete_connector_job, connector_checkpoint, checkpoint_of,
}
use ok.Jobs.Exclusive.{Ends, conflicts_comm}

-- the checkpoint among the rows of the connectors, less those of one and with its new row
kept_rows :
    (connector other : String) (row : ConnectorState) (rows : List ConnectorState)
    → row.connector_name ≡ connector
    → other ≢ connector
    → first (
        select_where
          (λ r. r.connector_name == other)
          (delete_where (λ r. r.connector_name == connector) rows ++ row ∷ []))
      ≡ first (select_where (λ r. r.connector_name == other) rows)
kept_rows connector other row [] named differ = elim (Bool-cases (row.connector_name == other)) [
  | inl e ↦ absurd (differ (sym ((eq_iff row.connector_name other).0 e) ∙ named))
  | inr e ↦ rw e
]
kept_rows connector other row (r ∷ rows) named differ =
    let rest = kept_rows connector other row rows named differ in
    elim (Bool-cases (r.connector_name == connector)) [
      | inl e ↦ elim (Bool-cases (r.connector_name == other)) [
        | inl e' ↦ absurd (
            differ (
              sym ((eq_iff r.connector_name other).0 e') ∙ (eq_iff r.connector_name connector).0 e))
        | inr e' ↦ rw (e, e', rest)
      ]
      | inr e ↦ elim (Bool-cases (r.connector_name == other)) [
        | inl e' ↦ rw (e, e')
        | inr e' ↦ rw (e, e', rest)
      ]
    ]

new_row :
    (connector : String) (row : ConnectorState) (rows : List ConnectorState)
    → row.connector_name ≡ connector
    → first (
        select_where
          (λ r. r.connector_name == connector)
          (delete_where (λ r. r.connector_name == connector) rows ++ row ∷ []))
      ≡ some row
new_row connector row [] named = rw (named, eq_refl connector)
new_row connector row (r ∷ rows) named = elim (Bool-cases (r.connector_name == connector)) [
  | inl e ↦ rw (e, new_row connector row rows named)
  | inr e ↦ rw (e, e, new_row connector row rows named)
]

-- The output of a job that completes is the next checkpoint of its connector, and that of no other
-- connector changes.
pub complete-checkpoint :
    (job_id connector : String) (output : Fields) (raw_ref at : String) (s : JobState)
    → (connector_checkpoint connector (complete_connector_job job_id connector output raw_ref at s)
        ≡ return output)
      × ((other : String)
          → other ≢ connector
          → connector_checkpoint other (complete_connector_job job_id connector output raw_ref at s)
            ≡ connector_checkpoint other s)
unfolding connector_checkpoint checkpoint_of complete_connector_job state_dict
complete-checkpoint job_id connector output raw_ref at s =
    let row : ConnectorState = record {
      connector_name = connector;
      state_json = state_json output;
      updated_at = at;
    } in
    (
      ap checkpoint_of (new_row connector row s.connector_states refl),
      λ other differ.
          ap checkpoint_of (kept_rows connector other row s.connector_states refl differ),
    )

-- a run of a connector that is running, among the runs
module _ (connector : String) (run : JobRun) (active : is_running connector run ≡ true) where
  not-running : (x : JobRun) → conflicts run x ≡ false → is_running connector x ≡ false
  not-running x h = ground (
    arith,
    active,
    h,
    eq_iff run.connector_name connector,
    eq_iff x.connector_name connector,
    eq_iff x.connector_name run.connector_name,
  )

  none_behind :
      (ys : List JobRun)
      → any (conflicts run) ys ≡ false
      → select_where (is_running connector) ys ≡ []
  none_behind [] h = refl
  none_behind (y ∷ ys) h =
      let idle : is_running connector y ≡ false = not-running y (ground (arith, h)) in
      rw idle (none_behind ys (ground (arith, h)))

  conflict_here :
      (x : JobRun) (xs ys : List JobRun)
      → any (conflicts x) (xs ++ run ∷ ys) ≡ false
      → conflicts run x ≡ false
  conflict_here x xs ys h =
      conflicts_comm run x ∙ ground (arith, any-append (conflicts x) xs (run ∷ ys), h)

  pub only_one :
      (xs ys : List JobRun)
      → Distinct conflicts (xs ++ run ∷ ys)
      → select_where (is_running connector) (xs ++ run ∷ ys) ≡ run ∷ []
  only_one [] ys d = rw active (ap (λ rest. run ∷ rest) (none_behind ys d.0))
  only_one (x ∷ xs) ys d =
      let idle : is_running connector x ≡ false = not-running x (conflict_here x xs ys d.0) in
      rw idle (only_one xs ys d.1)

  module _ (f : JobRun → JobRun) (ends : Ends f) where
    idle_behind :
        (ys : List JobRun)
        → any (conflicts run) ys ≡ false
        → any (is_running connector) (update_where (λ x. x.job_id == run.job_id) f ys) ≡ false
    idle_behind [] h = refl
    idle_behind (y ∷ ys) h =
        let rest = idle_behind ys (ground (arith, h)) in
        let idle : is_running connector y ≡ false = not-running y (ground (arith, h)) in
        let other : (y.job_id == run.job_id) ≡ false = ground (arith, h) in
        rw other (ground (arith, idle, rest))

    pub idle_ended :
        (xs ys : List JobRun)
        → Distinct conflicts (xs ++ run ∷ ys)
        → any (is_running connector) (update_where (λ x. x.job_id == run.job_id) f (xs ++ run ∷ ys))
          ≡ false
    idle_ended [] ys d =
        let stopped : is_running connector (f run) ≡ false = ground (arith, ends.stopped run) in
        rw (eq_refl run.job_id, stopped) (idle_behind ys d.0)
    idle_ended (x ∷ xs) ys d =
        let free : conflicts run x ≡ false = conflict_here x xs ys d.0 in
        let idle : is_running connector x ≡ false = not-running x free in
        let other : (x.job_id == run.job_id) ≡ false = ground (arith, free) in
        rw other (ground (arith, idle, idle_ended xs ys d.1))
