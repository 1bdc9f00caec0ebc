-- ===== src/Changes/Settled.antt =====
-- etl/load/source_changes.py: batches that name each source once, and the effect of one round of the
-- loop on the other sources.
use ok.Prelude.{
  String, ◌≡◌, refl, ◌≢◌, ◌⊎◌, inl, inr, true, false, List, [], ◌∷◌, ◌++◌, Option, none, some,
  arith, ◌==◌, eq_iff, All, get, get-pop, ◌or◌, Bool-cases,
}
use ok.Records.{SourceRecord, effective_lifecycle_state}
use ok.Permissions.{PrincipalContext}
use ok.Storage.{State, SourceLifecycleRow, Environment}
use ok.Audit.{record_audit_event}
use ok.Lifecycle.{InactiveChange, has_lifecycle, set_lifecycle}
use ok.Changes.{
  SourceChange, upsert, restore, LifecycleEntry, Loop, with_existing_lifecycle,
  apply_inactive_change, restore_source, upsert_record, restore_record,
}
use ok.Changes.Governed.{
  IsGoverned, has_lifecycle-set_lifecycle, has_lifecycle-delete_where,
  apply_inactive_change-IsGoverned, restore_source-IsGoverned,
}
use ok.Changes.Stored.{RecordHidden}

abbrev pub record_ref : Option SourceRecord → String
record_ref none = ""
record_ref (some r) = r.source_ref

-- the source that a change is about
abbrev pub key : SourceChange → String
key change = elim change.operation [
  | upsert ↦ record_ref change.source_record
  | _ ↦ change.source_ref or record_ref change.source_record
]

-- a change that restores a source brings a record of that source
abbrev pub Coherent : SourceChange → Type 0
Coherent change = elim change.operation [
  | restore ↦
      (change.source_record ≡ none)
      ⊎ ((change.source_ref or record_ref change.source_record) ≡ record_ref change.source_record)
  | _ ↦ Unit
]

-- a batch of coherent changes that names each source once
abbrev pub Settled : List SourceChange → Type 0
Settled [] = Unit
Settled (c ∷ rest) = Coherent c × All (λ d. key d ≢ key c) rest × Settled rest

abbrev pub table : Loop → List SourceLifecycleRow
table l = l.state.source_lifecycle

-- what a round about the source `k` may do
pub record IsRound (k : String) (l l' : Loop) : Type 0 where
  pub governed : IsGoverned l.state → IsGoverned l'.state
  pub others : (ref : String) → ref ≢ k → has_lifecycle (table l') ref ≡ has_lifecycle (table l) ref
  pub entries : (ref : String) → ref ≢ k → get l'.lifecycle ref ≡ get l.lifecycle ref
  pub inactive :
      ((ref : String) (e : LifecycleEntry) → get l.lifecycle ref ≡ some e → e.state ≢ "active")
      → (ref : String) (e : LifecycleEntry) → get l'.lifecycle ref ≡ some e
      → e.state ≢ "active"
  pub added :
      (l'.active_records ≡ l.active_records)
      ⊎ ((r : SourceRecord) × (l'.active_records ≡ l.active_records ++ r ∷ [])
          × (r.source_ref ≡ k)
          × RecordHidden (table l') r)

pub lifecycle-apply_inactive_change :
    (env : Environment) (principal : PrincipalContext) (c : InactiveChange) (s : State)
    → (apply_inactive_change env principal c s).source_lifecycle
      ≡ set_lifecycle env c s.source_lifecycle
unfolding apply_inactive_change record_audit_event
lifecycle-apply_inactive_change env principal c s = elim (Bool-cases (c.state == "deleted")) [
  | inl e ↦ rw e
  | inr e ↦ rw e
]

-- After a restore its source has no lifecycle row, and so no record of it has to hide.
pub restore-IsRound :
    (env : Environment) (principal : PrincipalContext) (k : String) (r : SourceRecord) (l : Loop)
    → r.source_ref ≡ k
    → IsRound k l (restore_record env principal k r l)
unfolding restore_record restore_source
restore-IsRound env principal k r l same = record {
  governed = restore_source-IsGoverned k l.state;
  others = λ ref other.
      ground (arith, has_lifecycle-delete_where l.state.source_lifecycle k ref, eq_iff k ref);
  entries = λ ref other. ground (arith, get-pop k ref l.lifecycle, eq_iff k ref);
  inactive = λ h ref e found. h ref e (ground (arith, get-pop k ref l.lifecycle));
  added = inr (
    r,
    refl,
    same,
    λ found _. ground (
      arith,
      has_lifecycle-delete_where l.state.source_lifecycle k r.source_ref,
      eq_iff k r.source_ref,
    ),
  );
}

pub set-others :
    (env : Environment) (principal : PrincipalContext) (c : InactiveChange) (s : State)
    (ref : String)
    → ref ≢ c.source_ref
    → has_lifecycle (apply_inactive_change env principal c s).source_lifecycle ref
      ≡ has_lifecycle s.source_lifecycle ref
set-others env principal c s ref other = rw lifecycle-apply_inactive_change (
    ground
      (arith, has_lifecycle-set_lifecycle env c s.source_lifecycle ref, eq_iff c.source_ref ref))

not_active : (s : String) → (s == "active") ≡ false → s ≢ "active"
not_active s h e = ground (arith, eq_iff s "active")

effective-existing :
    (r : SourceRecord) (e : LifecycleEntry)
    → e.state ≢ "active"
    → effective_lifecycle_state (record r { lifecycle_state = e.state }) ≢ "active"
unfolding effective_lifecycle_state
effective-existing r e h p = h (ground (arith, eq_iff e.state "active", p))

module _ (env : Environment) (principal : PrincipalContext) where
  -- a record of a source that the loop knows to be inactive keeps that state
  pub existing-IsRound :
      (r : SourceRecord) (e : LifecycleEntry) (l : Loop)
      → e.state ≢ "active"
      → IsRound r.source_ref l (upsert_record env principal r (some e) l)
  unfolding upsert_record with_existing_lifecycle
  existing-IsRound r e l h = record {
    governed = λ g. g;
    others = λ ref other. refl;
    entries = λ ref other. refl;
    inactive = λ keep. keep;
    added = inr (record r { lifecycle_state = e.state }, refl, refl, λ _. effective-existing r e h);
  }

  -- a record of a source that the loop does not know
  pub unknown-IsRound :
      (r : SourceRecord) (l : Loop)
      → ¬ (has_lifecycle (table l) r.source_ref ≡ true)
      → IsRound r.source_ref l (upsert_record env principal r none l)
  unfolding upsert_record with_existing_lifecycle
  unknown-IsRound r l unknown = elim (Bool-cases (effective_lifecycle_state r == "active")) [
    | inl e ↦ rw e (record {
      governed = λ g. g;
      others = λ ref other. refl;
      entries = λ ref other. refl;
      inactive = λ keep. keep;
      added = inr (r, refl, refl, λ found. absurd (unknown found));
    })
    | inr e ↦ rw e (record {
      governed = apply_inactive_change-IsGoverned env _ (not_active _ e) principal l.state;
      others = set-others env principal _ l.state;
      entries = λ ref other. refl;
      inactive = λ keep. keep;
      added = inr (r, refl, refl, λ _. not_active _ e);
    })
  ]
