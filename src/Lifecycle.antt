-- ===== src/Lifecycle.antt =====
-- governance/lifecycle.py: the lifecycle of a source, its removal from the legacy index, and the
-- retention of raw payloads.
pub mod Purge
use ok.Prelude.{
  lt_text, sort_by, Result, return, raise, ◌>>=◌, String, Bool, true, false, ◌&&◌, not, List, [],
  ◌∷◌, ◌++◌, map, Option, none, some, ◌==◌, any, select_where, delete_where, update_where, ℕ, leb,
  if◌then◌else◌,
}
use mathlib.Core.Option
use ok.Permissions.{PrincipalContext}
use ok.Storage.{State, SourceLifecycleRow, RawFile, Environment, delete_raw}
use ok.Audit.{record_audit_event, no_values}

-- the arguments of a change that makes a source inactive
pub record InactiveChange : Type 0 where
  pub source_ref : String
  pub state : String
  pub reason : String
  pub replacement_ref : String
  pub duplicate_group_ref : String

abbrev pub has_lifecycle : List SourceLifecycleRow → String → Bool
has_lifecycle rows ref = any (λ row. row.source_ref == ref) rows

abbrev pub lifecycle_row : Environment → InactiveChange → SourceLifecycleRow
lifecycle_row env c = record {
  source_ref = c.source_ref;
  state = c.state;
  reason = c.reason;
  replacement_ref = c.replacement_ref;
  duplicate_group_ref = c.duplicate_group_ref;
  recorded_at = env.now_iso;
}

-- an UPDATE of the row if there is one, and an INSERT if there is none
abbrev pub set_lifecycle :
    Environment → InactiveChange → List SourceLifecycleRow → List SourceLifecycleRow
set_lifecycle env c rows =
    if has_lifecycle rows c.source_ref
    then update_where (λ row. row.source_ref == c.source_ref) (λ _. lifecycle_row env c) rows
    else rows ++ lifecycle_row env c ∷ []

-- the raw payload goes with a deleted source alone
abbrev drop_deleted_raw : Environment → InactiveChange → State → State
drop_deleted_raw env c s =
    if c.state == "deleted"
    then record s { raw_store = Option.map (delete_raw env c.source_ref) s.raw_store }
    else s

unfoldable pub remove_source_from_retrieval :
    Environment → PrincipalContext → InactiveChange → State → State
remove_source_from_retrieval env principal c s =
    let removed = record s {
      emails = delete_where (λ row. row.source_ref == c.source_ref) s.emails;
      chunks = delete_where (λ row. row.source_ref == c.source_ref) s.chunks;
      source_lifecycle = set_lifecycle env c s.source_lifecycle;
      chunk_embeddings =
          Option.map (delete_where (λ row. row.source_ref == c.source_ref)) s.chunk_embeddings;
    } in
    (record_audit_event env "source_lifecycle" principal
      (record no_values { decision = c.state; reason = c.reason; source_refs = c.source_ref ∷ [] })
      (drop_deleted_raw env c removed)).1

-- `inactive_source_refs`
abbrev pub inactive_source_refs : List SourceLifecycleRow → List String
inactive_source_refs rows =
    map (λ row. row.source_ref) (select_where (λ row. not (row.state == "active")) rows)

-- whether a time is there and is not behind the cutoff
abbrev pub is_reached : ℕ → Option ℕ → Bool
is_reached cutoff none = false
is_reached cutoff (some recorded_at) = leb recorded_at cutoff

-- Whether a row is up for the purge. `parse` is `parse_iso_datetime` as seconds: it gives none for an
-- empty text, and raises a ValueError on one that is no time.
abbrev pub is_expired : (String → Result (Option ℕ)) → ℕ → SourceLifecycleRow → Result Bool
is_expired parse cutoff row =
    if row.state == "restricted"
    then (parse row.recorded_at >>= λ recorded_at. return (is_reached cutoff recorded_at))
    else return false

-- `purged.append`
abbrev pub with_purged :
    String → Result (List String) × List RawFile → Result (List String) × List RawFile
with_purged ref (purged, files) = ((purged >>= λ refs. return (ref ∷ refs)), files)

-- a round of the loop, on whether the row is up for the purge: what the loop does behind the file's
-- removal, or without it
abbrev pub after_row :
    String
    → List RawFile
    → Result (List String) × List RawFile
    → Result (List String) × List RawFile
    → Result Bool
    → Result (List String) × List RawFile
after_row ref files purged kept (raise e) = (raise e, files)
after_row ref files purged kept (return true) = with_purged ref purged
after_row ref files purged kept (return false) = kept

-- the loop over the rows; one that raises ends it, with the files that are left by then
unfoldable pub purge_rows :
    Environment
    → (String → Result (Option ℕ))
    → ℕ
    → List SourceLifecycleRow
    → List RawFile
    → Result (List String) × List RawFile
purge_rows env parse cutoff [] files = (return [], files)
purge_rows env parse cutoff (row ∷ rows) files =
    after_row row.source_ref files
      (purge_rows env parse cutoff rows (delete_raw env row.source_ref files))
      (purge_rows env parse cutoff rows files) (is_expired parse cutoff row)

-- `purge_expired_raw_sources`
unfoldable pub purge_expired_raw_sources :
    Environment → (String → Result (Option ℕ)) → ℕ → State → Result (List String) × State
unfolding purge_rows sort_by lt_text
purge_expired_raw_sources env parse cutoff s = elim s.raw_store [
  | none ↦ (return [], s)
  | some files ↦
      let (purged, left) = purge_rows env parse cutoff s.source_lifecycle files in
      ((purged >>= λ refs. return (sort_by lt_text refs)), record s { raw_store = some left })
]
