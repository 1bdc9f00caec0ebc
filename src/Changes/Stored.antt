-- ===== src/Changes/Stored.antt =====
-- etl/load/source_changes.py: the storing of the records of a batch, against the lifecycle table.
use ok.Prelude.{
  ℕ, String, ◌≡◌, refl, ◌∙◌, ◌≢◌, inl, inr, true, List, [], ◌∷◌, map, Option, none, some, ◌==◌, All,
  All-mono, All-map, All-select_where, All-upsert_rows, Bool-cases, Result, return, raise,
}
use ok.Records.{SourceRecord, effective_lifecycle_state}
use ok.Storage.{
  State, SourceLifecycleRow, RetrievalRecordRow, RawFile, CanonicalObjectRow, EntityLinkRow,
  Environment,
}
use ok.Lifecycle.{has_lifecycle}
use ok.Retrieval.{replace_retrieval_records, replace_vector_index}
use ok.Metadata.Latest.{All-latest}
use ok.Metadata.{
  latest_source_records, record_row, write_source_records, store_source_records, same_ref,
}
use ok.Context.{store_canonical_objects, store_entity_links, canonical_object}
use ok.Context.Links.{entity_links}
use ok.Changes.Store.{with_raw_ref, store_units, store_active_records}
use ok.Changes.Governed.{IsGoverned, RowHidden}

-- a record of a source with a lifecycle row does not arrive active
abbrev pub RecordHidden : List SourceLifecycleRow → SourceRecord → Type 0
RecordHidden lifecycle r =
    has_lifecycle lifecycle r.source_ref ≡ true → effective_lifecycle_state r ≢ "active"

-- A reference and an effective state are all that the row of a record shows of it.
rows-hidden :
    (env : Environment) (lifecycle : List SourceLifecycleRow) (rs : List SourceRecord)
    → All (RecordHidden lifecycle) rs
    → All (RowHidden lifecycle) (map (record_row env) rs)
unfolding record_row
rows-hidden env lifecycle rs h = All-map (RowHidden lifecycle) (record_row env) rs h

write-IsGoverned :
    (env : Environment) (rs : List SourceRecord) (s : State)
    → All (RecordHidden s.source_lifecycle) rs
    → IsGoverned s
    → IsGoverned (write_source_records env rs s)
unfolding write_source_records
write-IsGoverned env rs s arrive h = record {
  hidden =
      All-upsert_rows (RowHidden s.source_lifecycle) same_ref (map (record_row env) rs) _
        (rows-hidden env s.source_lifecycle rs arrive)
        (All-select_where (RowHidden s.source_lifecycle) _ s.source_records h.hidden);
  inactive = h.inactive;
}

store-IsGoverned :
    (env : Environment) (rs : List SourceRecord) (s : State)
    → All (RecordHidden s.source_lifecycle) rs
    → IsGoverned s
    → IsGoverned (store_source_records env rs s)
unfolding store_source_records
store-IsGoverned env [] s arrive h = h
store-IsGoverned env (r ∷ rs) s arrive h =
    write-IsGoverned env (latest_source_records (r ∷ rs)) s
      (All-latest (RecordHidden s.source_lifecycle) (r ∷ rs) arrive) h

-- two states with the same source rows and lifecycle rows
pub record SameSources (s t : State) : Type 0 where
  pub rows : t.source_records ≡ s.source_records
  pub lifecycle : t.source_lifecycle ≡ s.source_lifecycle

SameSources-IsGoverned : {s t : State} → SameSources s t → IsGoverned s → IsGoverned t
SameSources-IsGoverned e h = record {
  hidden = rw (e.rows, e.lifecycle) h.hidden;
  inactive = rw e.lifecycle h.inactive;
}

pub SameSources-back : {s t : State} → SameSources s t → IsGoverned t → IsGoverned s
SameSources-back e h = record {
  hidden = rw (← e.rows, ← e.lifecycle) h.hidden;
  inactive = rw (← e.lifecycle) h.inactive;
}

pub objects-SameSources :
    (os : List CanonicalObjectRow) (s : State) → SameSources s (store_canonical_objects os s)
unfolding store_canonical_objects
objects-SameSources [] s = record { rows = refl; lifecycle = refl }
objects-SameSources (o ∷ os) s = record { rows = refl; lifecycle = refl }

pub links-SameSources :
    (ls : List EntityLinkRow) (s : State) → SameSources s (store_entity_links ls s)
unfolding store_entity_links
links-SameSources [] s = record { rows = refl; lifecycle = refl }
links-SameSources (l ∷ ls) s = record { rows = refl; lifecycle = refl }

units-SameSources :
    (refs : List String) (units : List RetrievalRecordRow) (s : State)
    → SameSources s (replace_retrieval_records refs units s)
unfolding replace_retrieval_records
units-SameSources [] units s = record { rows = refl; lifecycle = refl }
units-SameSources (ref ∷ refs) units s = record { rows = refl; lifecycle = refl }

index-SameSources :
    (env : Environment) (refs : List String) (units : List RetrievalRecordRow) (s : State)
    → SameSources s (replace_vector_index env refs units s)
unfolding replace_vector_index
index-SameSources env [] units s = record { rows = refl; lifecycle = refl }
index-SameSources env (ref ∷ refs) units s = record { rows = refl; lifecycle = refl }

-- The units, the index, the raw files and the legacy rows leave the sources as they are.
store_units-SameSources :
    (env : Environment) (rs : List SourceRecord) (replaced touched : List String)
    (p : Result (List RetrievalRecordRow)) (s : State)
    → SameSources s (store_units env rs replaced touched p s).1
unfolding store_units
store_units-SameSources env rs replaced touched (raise e) s = record {
  rows = refl;
  lifecycle = refl;
}
store_units-SameSources env rs replaced touched (return units) s =
    let t = replace_retrieval_records touched units s in
    let indexed = index-SameSources env touched units t in
    let replaced_units = units-SameSources touched units s in
    record {
      rows = indexed.rows ∙ replaced_units.rows;
      lifecycle = indexed.lifecycle ∙ replaced_units.lifecycle;
    }

pub store_units-back :
    (env : Environment) (rs : List SourceRecord) (replaced touched : List String)
    (p : Result (List RetrievalRecordRow)) (s : State)
    → IsGoverned (store_units env rs replaced touched p s).1
    → IsGoverned s
store_units-back env rs replaced touched p s =
    SameSources-back (store_units-SameSources env rs replaced touched p s)

with_raw_ref-hidden :
    (lifecycle : List SourceLifecycleRow) (store : Option (List RawFile)) (r : SourceRecord)
    → RecordHidden lifecycle r
    → RecordHidden lifecycle (with_raw_ref store r)
unfolding effective_lifecycle_state
with_raw_ref-hidden lifecycle none r h = h
with_raw_ref-hidden lifecycle (some _) r h = elim (Bool-cases (r.raw_ref == "")) [
  | inl e ↦ rw e h
  | inr e ↦ rw e h
]

pub with_raw_ref-back :
    (lifecycle : List SourceLifecycleRow) (store : Option (List RawFile)) (r : SourceRecord)
    → RecordHidden lifecycle (with_raw_ref store r)
    → RecordHidden lifecycle r
unfolding effective_lifecycle_state
with_raw_ref-back lifecycle none r h = h
with_raw_ref-back lifecycle (some _) r h = elim (Bool-cases (r.raw_ref == "")) [
  | inl e ↦ rw e at h
  | inr e ↦ rw e at h
]

-- Storing records that hide what the lifecycle table hides keeps that table in charge.
pub store_active_records-IsGoverned :
    (env : Environment) (max_words overlap_words : ℕ) (rs : List SourceRecord) (s : State)
    → All (RecordHidden s.source_lifecycle) rs
    → IsGoverned s
    → IsGoverned (store_active_records env max_words overlap_words rs s).1
unfolding store_active_records
store_active_records-IsGoverned env max_words overlap_words rs s arrive h =
    let latest = map (with_raw_ref s.raw_store) (latest_source_records rs) in
    let stored = store_source_records env latest s in
    let objects = store_canonical_objects (map canonical_object latest) stored in
    let hidden =
      All-map (RecordHidden s.source_lifecycle) (with_raw_ref s.raw_store)
        (latest_source_records rs)
        (All-mono (RecordHidden s.source_lifecycle) _
          (with_raw_ref-hidden s.source_lifecycle s.raw_store) (latest_source_records rs)
          (All-latest (RecordHidden s.source_lifecycle) rs arrive)) in
    SameSources-IsGoverned
      (store_units-SameSources env latest _ _ _
        (store_entity_links (entity_links env latest) objects))
      (SameSources-IsGoverned (links-SameSources (entity_links env latest) objects) (
        SameSources-IsGoverned (objects-SameSources (map canonical_object latest) stored)
          (store-IsGoverned env latest s hidden h)))
