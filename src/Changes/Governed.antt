-- ===== src/Changes/Governed.antt =====
-- etl/load/source_changes.py: the lifecycle table against the states of the source rows.
use ok.Prelude.{
  String, ◌≡◌, refl, ◌≢◌, inl, inr, true, false, not, ◌&&◌, ◌||◌, List, [], ◌∷◌, arith, ◌==◌,
  eq_iff, any-append, All, All-append, delete_where, update_where, All-select_where,
  All-update_where, Bool-cases,
}
use ok.Storage.{State, SourceRecordRow, SourceLifecycleRow, Environment}
use ok.Permissions.{PrincipalContext}
use ok.Changes.{apply_inactive_change, restore_source}
use ok.Audit.{record_audit_event}
use ok.Lifecycle.{InactiveChange, has_lifecycle, lifecycle_row, set_lifecycle}

-- The row of a source with a lifecycle row is not active
abbrev pub RowHidden : List SourceLifecycleRow → SourceRecordRow → Type 0
RowHidden lifecycle row =
    has_lifecycle lifecycle row.source_ref ≡ true → row.lifecycle_state ≢ "active"

pub record IsGoverned (s : State) : Type 0 where
  pub hidden : All (RowHidden s.source_lifecycle) s.source_records
  pub inactive : All (λ row. row.state ≢ "active") s.source_lifecycle

has_lifecycle-update :
    (env : Environment) (c : InactiveChange) (rows : List SourceLifecycleRow) (ref : String)
    → has_lifecycle
        (update_where (λ row. row.source_ref == c.source_ref) (λ _. lifecycle_row env c) rows)
        ref
      ≡ has_lifecycle rows ref
has_lifecycle-update env c [] ref = refl
has_lifecycle-update env c (row ∷ rows) ref =
    ground (arith, has_lifecycle-update env c rows ref, eq_iff row.source_ref c.source_ref)

has_lifecycle-hit :
    (rows : List SourceLifecycleRow) (a b : String)
    → has_lifecycle rows a ≡ true
    → a ≡ b
    → has_lifecycle rows b ≡ true
has_lifecycle-hit rows a b h e = rw (← e) h

-- Only the ref of the change gets a lifecycle row.
pub has_lifecycle-set_lifecycle :
    (env : Environment) (c : InactiveChange) (rows : List SourceLifecycleRow) (ref : String)
    → has_lifecycle (set_lifecycle env c rows) ref
      ≡ (has_lifecycle rows ref || (c.source_ref == ref))
has_lifecycle-set_lifecycle env c rows ref = elim (Bool-cases (has_lifecycle rows c.source_ref)) [
  | inl e ↦ rw e (
      ground (
        arith,
        has_lifecycle-update env c rows ref,
        has_lifecycle-hit rows c.source_ref ref e,
        eq_iff c.source_ref ref,
      ))
  | inr e ↦
      rw e
        (ground (arith, any-append (λ row. row.source_ref == ref) rows (lifecycle_row env c ∷ [])))
]

-- Only the ref that is deleted loses its row.
pub has_lifecycle-delete_where :
    (rows : List SourceLifecycleRow) (ref other : String)
    → has_lifecycle (delete_where (λ row. row.source_ref == ref) rows) other
      ≡ (not (ref == other) && has_lifecycle rows other)
has_lifecycle-delete_where [] ref other = ground arith
has_lifecycle-delete_where (row ∷ rows) ref other = ground (
  arith,
  has_lifecycle-delete_where rows ref other,
  eq_iff row.source_ref ref,
  eq_iff row.source_ref other,
  eq_iff ref other,
)

module _ (env : Environment) (c : InactiveChange) (state : c.state ≢ "active") where
  other-has_lifecycle :
      (lifecycle : List SourceLifecycleRow) (ref : String)
      → has_lifecycle (set_lifecycle env c lifecycle) ref ≡ true
      → (ref == c.source_ref) ≡ false
      → has_lifecycle lifecycle ref ≡ true
  other-has_lifecycle lifecycle ref found other = ground (
    arith,
    has_lifecycle-set_lifecycle env c lifecycle ref,
    eq_iff ref c.source_ref,
    eq_iff c.source_ref ref,
  )

  set_lifecycle-inactive :
      (rows : List SourceLifecycleRow)
      → All (λ row. row.state ≢ "active") rows
      → All (λ row. row.state ≢ "active") (set_lifecycle env c rows)
  set_lifecycle-inactive rows h = elim (Bool-cases (has_lifecycle rows c.source_ref)) [
    | inl e ↦ rw e (
        All-update_where (λ row. row.state ≢ "active") (λ row. row.source_ref == c.source_ref)
          (λ _. lifecycle_row env c) (λ _ _ _. state) rows h)
    | inr e ↦
        rw e
          (All-append (λ row. row.state ≢ "active") rows (lifecycle_row env c ∷ []) h (state, tt))
  ]

  set_lifecycle-hidden :
      (lifecycle : List SourceLifecycleRow) (rows : List SourceRecordRow)
      → All (RowHidden lifecycle) rows
      → All (RowHidden (set_lifecycle env c lifecycle)) (
          update_where
            (λ row. row.source_ref == c.source_ref)
            (λ row. record row { lifecycle_state = c.state })
            rows)
  set_lifecycle-hidden lifecycle [] h = tt
  set_lifecycle-hidden lifecycle (row ∷ rows) h = (
    elim (Bool-cases (row.source_ref == c.source_ref)) [
      | inl e ↦ rw e (λ _. state)
      | inr e ↦ rw e (λ found. h.0 (other-has_lifecycle lifecycle row.source_ref found e))
    ],
    set_lifecycle-hidden lifecycle rows h.1,
  )

  pub apply_inactive_change-IsGoverned :
      (principal : PrincipalContext) (s : State)
      → IsGoverned s
      → IsGoverned (apply_inactive_change env principal c s)
  unfolding apply_inactive_change record_audit_event
  apply_inactive_change-IsGoverned principal s h = elim (Bool-cases (c.state == "deleted")) [
    | inl e ↦ rw e (record {
      hidden = set_lifecycle-hidden s.source_lifecycle s.source_records h.hidden;
      inactive = set_lifecycle-inactive s.source_lifecycle h.inactive;
    })
    | inr e ↦ rw e (record {
      hidden = set_lifecycle-hidden s.source_lifecycle s.source_records h.hidden;
      inactive = set_lifecycle-inactive s.source_lifecycle h.inactive;
    })
  ]

restored-hidden :
    (ref : String) (lifecycle : List SourceLifecycleRow) (rows : List SourceRecordRow)
    → All (RowHidden lifecycle) rows
    → All (RowHidden (delete_where (λ row. row.source_ref == ref) lifecycle)) (
        update_where
          (λ row. row.source_ref == ref)
          (λ row. record row { lifecycle_state = "active" })
          rows)
restored-hidden ref lifecycle [] h = tt
restored-hidden ref lifecycle (row ∷ rows) h = (
  elim (Bool-cases (row.source_ref == ref)) [
    | inl e ↦ rw e (λ found _. ground (
      arith,
      has_lifecycle-delete_where lifecycle ref row.source_ref,
      eq_iff row.source_ref ref,
      eq_iff ref row.source_ref,
    ))
    | inr e ↦
        rw e
          (λ found. h.0 (ground (arith, has_lifecycle-delete_where lifecycle ref row.source_ref)))
  ],
  restored-hidden ref lifecycle rows h.1,
)

-- A restored source has no lifecycle row left, so its row may be active.
pub restore_source-IsGoverned :
    (ref : String) (s : State) → IsGoverned s → IsGoverned (restore_source ref s)
unfolding restore_source
restore_source-IsGoverned ref s h = record {
  hidden = restored-hidden ref s.source_lifecycle s.source_records h.hidden;
  inactive =
      All-select_where (λ row. row.state ≢ "active") (λ row. not (row.source_ref == ref))
        s.source_lifecycle h.inactive;
}
