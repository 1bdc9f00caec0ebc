-- ===== src/Augmentation/Inspection/Seen.antt =====
-- retrieval/inspection.py, `inspect_source`: what an answer shows, and what it writes.
use ok.Prelude.{
  ◌≡◌, refl, inl, inr, List, [], ◌∷◌, ◌++◌, Option, none, some, ◌==◌, eq_iff, any, first,
  select_where, strip, Bool-cases, Result, return, raise,
}
use ok.Storage.{SourceRecordRow}
use ok.Augmentation.Python.{Floats}
use ok.Augmentation.Events.{ResultEvent}
use ok.Augmentation.Inspection.{
  InspectionEvent, InspectedSource, Inspection, not_found, inactive, inspected, InspectionRequest,
  inspection_event, inspected_source, record_inspection_event, inferred_rank, inspect_row,
  inspect_source,
}

module _ {F : Type 0} (num : Floats F) (request : InspectionRequest)
    (results : List (ResultEvent num)) where
  -- the answer shows an active row, and one event of the caller is written for it
  pub record Seen (rows : List SourceRecordRow) (before after : List InspectionEvent)
      (source : InspectedSource) : Type 0 where
    pub row : SourceRecordRow
    pub there : first (select_where (λ r. r.source_ref == strip request.source_ref) rows) ≡ some row
    pub active : row.lifecycle_state ≡ "active"
    pub shown :
        source
        ≡ inspected_source
            (strip request.source_ref)
            (inferred_rank num request (strip request.source_ref) results)
            request.new_id
            row
    pub written :
        after
        ≡ before
          ++ inspection_event request
              (strip request.source_ref)
              (inferred_rank num request (strip request.source_ref) results)
              row
            ∷ []

  -- what an answer shows is seen; any other answer, and an error, writes nothing
  abbrev pub Told :
      List SourceRecordRow
      → List InspectionEvent
      → Result Inspection × List InspectionEvent
      → Type 0
  Told rows before (return (inspected source), after) = Seen rows before after source
  Told rows before (return (not_found ref), after) = after ≡ before
  Told rows before (return (inactive ref state), after) = after ≡ before
  Told rows before (raise e, after) = after ≡ before

  row-Told :
      (rows : List SourceRecordRow) (events : List InspectionEvent) (found : Option SourceRecordRow)
      → first (select_where (λ r. r.source_ref == strip request.source_ref) rows) ≡ found
      → Told rows events (inspect_row num request (strip request.source_ref) results events found)
  unfolding inspect_row record_inspection_event
  row-Told rows events none e = refl
  row-Told rows events (some row) e = elim (Bool-cases (row.lifecycle_state == "active")) [
    | inl active ↦ elim (Bool-cases (any (λ old. old.event_id == request.new_id) events)) [
      | inl taken ↦ rw (active, taken) refl
      | inr free ↦
          rw (active, free)
            (record {
              row = row;
              there = e;
              active = (eq_iff row.lifecycle_state "active").0 active;
              shown = refl;
              written = refl;
            })
    ]
    | inr other ↦ rw other refl
  ]

  -- An inspection that shows a source shows the row of the trimmed ref, which is active, and writes
  -- one event with its ref, its rank and the principal; one that finds no row or an inactive one, and
  -- one that raises, writes nothing.
  pub inspect_source-Told :
      (rows : List SourceRecordRow) (events : List InspectionEvent)
      → Told rows events (inspect_source num request rows results events)
  unfolding inspect_source
  inspect_source-Told rows events = elim (Bool-cases (strip request.source_ref == "")) [
    | inl empty ↦ rw empty refl
    | inr full ↦ rw full (
        row-Told rows events
          (first (select_where (λ r. r.source_ref == strip request.source_ref) rows)) refl)
  ]
