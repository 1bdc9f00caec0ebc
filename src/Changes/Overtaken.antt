-- ===== src/Changes/Overtaken.antt =====
-- etl/load/source_changes.py: an upsert that is followed, in one batch, by a restriction of the same
-- source.
use mathlib.Core.Path.{subst}
use ok.Prelude.{
  ℕ, String, ◌≡◌, refl, ap, ◌∙◌, ◌≢◌, inl, inr, true, List, [], ◌∷◌, ◌++◌, Option, none, some,
  arith, eq_iff, eq_refl, any, All, update_where, upsert_row, get, return, ◌or◌, Bool-cases,
  if◌then◌else◌,
}
use ok.Records.{SourceRecord, effective_lifecycle_state}
use ok.Permissions.{PrincipalContext}
use ok.Storage.{State, SourceRecordRow, Environment}
use ok.Lifecycle.{InactiveChange, has_lifecycle}
use ok.Metadata.{
  same_ref, latest_source_records, store_source_records, write_source_records, record_row,
}
use ok.Context.{store_canonical_objects, canonical_object}
use ok.Context.Links.{entity_links}
use ok.Changes.Store.{with_raw_ref, store_active_records}
use ok.Changes.Settled.{lifecycle-apply_inactive_change}
use ok.Changes.Stored.{
  RecordHidden, SameSources-back, objects-SameSources, links-SameSources, store_units-back,
  with_raw_ref-back,
}
use ok.Changes.{
  SourceChange, LifecycleEntry, restore_record, upsert, restrict, change_of, Loop,
  lifecycle_state_by_ref, should_restore, with_existing_lifecycle, apply_inactive_change,
  upsert_record, upsert_change, inactive_change, inactive_state_for, target_source_ref,
  apply_change, apply_changes, finish, apply_source_changes,
}
use ok.Changes.Governed.{IsGoverned, RowHidden, has_lifecycle-set_lifecycle}

-- the batch: a record of a source, and a change that restricts that source
abbrev pub upsert_then_restrict : SourceRecord → String → List SourceChange
upsert_then_restrict r reason =
    change_of upsert (some r) "" "" ∷ change_of restrict none r.source_ref reason ∷ []

abbrev start : State → Loop
start s = record {
  state = s;
  lifecycle = lifecycle_state_by_ref s.source_lifecycle;
  active_records = [];
}

module _ (env : Environment) (principal : PrincipalContext) (r : SourceRecord) (reason : String)
    (s : State) where
  next_round :
      (c : SourceChange) (rest : List SourceChange) (l : Loop) {l' : Loop}
      → apply_change env principal c l ≡ return l'
      → apply_changes env principal (c ∷ rest) l ≡ apply_changes env principal rest l'
  unfolding apply_changes
  next_round c rest l e = rw (e, apply_changes)

  new_record :
      effective_lifecycle_state r ≡ "active"
      → upsert_record env principal r none (start s) ≡ record (start s) { active_records = r ∷ [] }
  unfolding upsert_record with_existing_lifecycle
  new_record active = rw active refl

  new_entry :
      (entry : Option LifecycleEntry)
      → entry ≡ none
      → effective_lifecycle_state r ≡ "active"
      → (if should_restore r entry
          then restore_record env principal r.source_ref r (start s)
          else upsert_record env principal r entry (start s))
        ≡ record (start s) { active_records = r ∷ [] }
  unfolding should_restore
  new_entry entry missing active = rw missing (new_record active)

  first_round :
      get (lifecycle_state_by_ref s.source_lifecycle) r.source_ref ≡ none
      → effective_lifecycle_state r ≡ "active"
      → apply_change env principal (change_of upsert (some r) "" "") (start s)
        ≡ return (record (start s) { active_records = r ∷ [] })
  unfolding apply_change upsert_change
  first_round missing active =
      ap return
        (new_entry (get (lifecycle_state_by_ref s.source_lifecycle) r.source_ref) missing active)

  abbrev restriction : SourceChange
  restriction = change_of restrict none r.source_ref reason

  second_round :
      (l : Loop)
      → r.source_ref ≢ ""
      → apply_change env principal restriction l
        ≡ return (inactive_change env principal restriction r.source_ref "restricted" l)
  unfolding apply_change inactive_state_for target_source_ref
  second_round l named = ground (arith, eq_iff r.source_ref "")

  rounds :
      get (lifecycle_state_by_ref s.source_lifecycle) r.source_ref ≡ none
      → effective_lifecycle_state r ≡ "active"
      → r.source_ref ≢ ""
      → apply_changes env principal (upsert_then_restrict r reason) (start s) ≡ (
        return tt,
        inactive_change env principal restriction r.source_ref "restricted"
            (record (start s) { active_records = r ∷ [] }),
      )
  unfolding apply_changes
  rounds missing active named =
      next_round _ (restriction ∷ []) (start s) (first_round missing active)
      ∙ next_round restriction [] (record (start s) { active_records = r ∷ [] })
          (second_round _ named)

All-append_right :
    (P : SourceRecordRow → Type 0) (xs ys : List SourceRecordRow) → All P (xs ++ ys) → All P ys
All-append_right P [] ys h = h
All-append_right P (x ∷ xs) ys h = All-append_right P xs ys h.1

All-updated :
    (P : SourceRecordRow → Type 0) (row : SourceRecordRow) (rows : List SourceRecordRow)
    → any (same_ref row) rows ≡ true
    → All P (update_where (same_ref row) (λ _. row) rows)
    → P row
All-updated P row [] e h = cc
All-updated P row (x ∷ rows) e h = elim (Bool-cases (same_ref row x)) [
  | inl same ↦ rw same at h.0
  | inr other ↦ All-updated P row rows (ground (arith, other, e)) h.1
]

-- the last row that is written stays
All-upsert_row :
    (P : SourceRecordRow → Type 0) (row : SourceRecordRow) (rows : List SourceRecordRow)
    → All P (upsert_row same_ref row rows)
    → P row
All-upsert_row P row rows h = elim (Bool-cases (any (same_ref row) rows)) [
  | inl e ↦ All-updated P row rows e (rw e at h)
  | inr e ↦ (All-append_right P rows (row ∷ []) (rw e at h)).0
]

-- What one record leaves in the table of source records, whatever becomes of its units.
single-RowHidden :
    (env : Environment) (max_words overlap_words : ℕ) (r : SourceRecord) (s : State)
    → IsGoverned (store_active_records env max_words overlap_words (r ∷ []) s).1
    → RecordHidden s.source_lifecycle r
unfolding store_active_records latest_source_records store_source_records write_source_records
    record_row
single-RowHidden env max_words overlap_words r s g =
    let r' = with_raw_ref s.raw_store r in
    let stored = store_source_records env (r' ∷ []) s in
    let objects = store_canonical_objects (canonical_object r' ∷ []) stored in
    let written = SameSources-back (objects-SameSources (canonical_object r' ∷ []) stored) (
      SameSources-back (links-SameSources (entity_links env (r' ∷ [])) objects)
        (store_units-back env (r' ∷ []) _ _ _ _ g)) in
    with_raw_ref-back s.source_lifecycle s.raw_store r
      (All-upsert_row (RowHidden s.source_lifecycle) (record_row env r') _ written.hidden)

-- A batch that upserts, as active, a source with a non-empty ref and without a lifecycle row, and
-- then restricts it, leaves a state in which some source with a lifecycle row is active, or some
-- lifecycle row says `active`.
pub upsert_then_restrict-not-IsGoverned :
    (env : Environment) (principal : PrincipalContext) (max_words overlap_words : ℕ)
    (r : SourceRecord) (reason : String) (s : State)
    → get (lifecycle_state_by_ref s.source_lifecycle) r.source_ref ≡ none
    → effective_lifecycle_state r ≡ "active"
    → r.source_ref ≢ ""
    → ¬ IsGoverned
        (apply_source_changes env principal max_words overlap_words
          (upsert_then_restrict r reason)
          s).1
unfolding apply_source_changes finish inactive_change
upsert_then_restrict-not-IsGoverned env principal max_words overlap_words r reason s missing active
      named g =
    let restricted : InactiveChange = record {
      source_ref = r.source_ref;
      state = "restricted";
      reason = reason or "restrict";
      replacement_ref = "";
      duplicate_group_ref = "";
    } in
    let left = apply_inactive_change env principal restricted s in
    let stored : IsGoverned (store_active_records env max_words overlap_words (r ∷ []) left).1 =
      subst (λ p. IsGoverned (finish env principal max_words overlap_words p).1)
        (rounds env principal r reason s missing active named) g in
    let found : has_lifecycle left.source_lifecycle r.source_ref ≡ true =
      rw lifecycle-apply_inactive_change (
        ground (
          arith,
          has_lifecycle-set_lifecycle env restricted s.source_lifecycle r.source_ref,
          eq_refl r.source_ref,
        )) in
    single-RowHidden env max_words overlap_words r left stored found active
