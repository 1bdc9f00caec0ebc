-- ===== src/Changes.antt =====
-- etl/load/source_changes.py: the one boundary by which sources enter, change and leave the state.
pub mod Store
pub mod Governed
pub mod Stored
pub mod Settled
pub mod Rounds
pub mod Batch
pub mod Overtaken
use mathlib.Core.Option
use ok.Prelude.{
  ℕ, String, Bool, true, false, not, ◌&&◌, ◌||◌, List, [], ◌∷◌, ◌++◌, map, Option, none, some, ◌==◌,
  is_empty, ◌or◌, delete_where, update_where, Dict, get, put, pop, Result, return, raise, ◌>>=◌,
  value_error, concat, if◌then◌else◌,
}
use ok.Records.{SourceRecord, effective_lifecycle_state, lifecycle_reason}
use ok.Permissions.{PrincipalContext}
use ok.Storage.{State, SourceLifecycleRow, Environment}
use ok.Lifecycle.{InactiveChange, remove_source_from_retrieval}
use ok.Changes.Store.{store_active_records}

pub data SourceChangeOperation : Type 0 where
  upsert delete restrict restore supersede duplicate : SourceChangeOperation

-- the operation as the text that the source writes into reasons and states
abbrev pub operation_name : SourceChangeOperation → String
operation_name upsert = "upsert"
operation_name delete = "delete"
operation_name restrict = "restrict"
operation_name restore = "restore"
operation_name supersede = "supersede"
operation_name duplicate = "duplicate"

-- `source_record` is the field `record` of the source.
pub record SourceChange : Type 0 where
  pub operation : SourceChangeOperation
  pub source_record : Option SourceRecord
  pub source_ref : String
  pub reason : String
  pub replacement_ref : String
  pub duplicate_group_ref : String

abbrev pub change_of : SourceChangeOperation → Option SourceRecord → String → String → SourceChange
change_of operation r ref reason = record {
  operation = operation;
  source_record = r;
  source_ref = ref;
  reason = reason;
  replacement_ref = "";
  duplicate_group_ref = "";
}

abbrev upsert_source_records : List SourceRecord → List SourceChange
upsert_source_records = map (λ r. change_of upsert (some r) "" "")

pub target_source_ref : SourceChange → Result String
target_source_ref change =
    if change.source_ref == ""
    then elim change.source_record [
      | some r ↦ return r.source_ref
      | none ↦ raise (
          value_error (
            concat (
              operation_name change.operation
              ∷ " source change requires source_ref or record"
              ∷ [])))
    ]
    else return change.source_ref

pub inactive_state_for : SourceChangeOperation → Result String
inactive_state_for restrict = return "restricted"
inactive_state_for delete = return "deleted"
inactive_state_for supersede = return "supersede"
inactive_state_for duplicate = return "duplicate"
inactive_state_for upsert = raise (value_error "upsert is not an inactive source change")
inactive_state_for restore = raise (value_error "restore is not an inactive source change")

-- what the loop remembers of a lifecycle row
pub record LifecycleEntry : Type 0 where
  pub state : String
  pub reason : String

-- `_source_lifecycle_state_by_ref`: the refs are the table's primary key
unfoldable pub lifecycle_state_by_ref : List SourceLifecycleRow → Dict LifecycleEntry
lifecycle_state_by_ref [] = []
lifecycle_state_by_ref (row ∷ rest) =
    (row.source_ref, record { state = row.state; reason = row.reason })
    ∷ lifecycle_state_by_ref rest

-- `_should_restore_from_active_import`
pub should_restore : SourceRecord → Option LifecycleEntry → Bool
should_restore r none = false
should_restore r (some entry) =
    (effective_lifecycle_state r == "active")
    && (((entry.state == "restricted") && (entry.reason == "permission_snapshot_missing"))
        || ((entry.state == "deleted") && (entry.reason == "missing_from_latest_snapshot")))

-- `_record_with_existing_lifecycle`
pub with_existing_lifecycle : SourceRecord → Option LifecycleEntry → SourceRecord
with_existing_lifecycle r none = r
with_existing_lifecycle r (some entry) = record r { lifecycle_state = entry.state }

-- `_apply_inactive_change`
pub apply_inactive_change : Environment → PrincipalContext → InactiveChange → State → State
unfolding remove_source_from_retrieval
apply_inactive_change env principal c s0 =
    let s = remove_source_from_retrieval env principal c s0 in
    record s {
      source_records =
          update_where (λ row. row.source_ref == c.source_ref)
            (λ row. record row { lifecycle_state = c.state }) s.source_records;
      source_identities = delete_where (λ row. row.source_ref == c.source_ref) s.source_identities;
      canonical_objects =
          update_where (λ row. row.object_ref == c.source_ref)
            (λ row. record row { lifecycle_state = c.state }) s.canonical_objects;
      entity_links =
          delete_where (λ row. (row.source_ref == c.source_ref) || (row.object_ref == c.source_ref))
            s.entity_links;
      retrieval_records =
          update_where (λ row. row.source_ref == c.source_ref)
            (λ row. record row { status = "inactive" }) s.retrieval_records;
    }

-- `_restore_source`
pub restore_source : String → State → State
restore_source ref s = record s {
  source_lifecycle = delete_where (λ row. row.source_ref == ref) s.source_lifecycle;
  source_records =
      update_where (λ row. row.source_ref == ref) (λ row. record row { lifecycle_state = "active" })
        s.source_records;
  canonical_objects =
      update_where (λ row. row.object_ref == ref) (λ row. record row { lifecycle_state = "active" })
        s.canonical_objects;
  retrieval_records =
      update_where (λ row. row.source_ref == ref) (λ row. record row { status = "stale" })
        s.retrieval_records;
}

-- the variables of the loop over the changes
pub record Loop : Type 0 where
  pub state : State
  pub lifecycle : Dict LifecycleEntry
  pub active_records : List SourceRecord

module _ (env : Environment) (principal : PrincipalContext) where
  -- the branch for a record that is not restored
  pub upsert_record : SourceRecord → Option LifecycleEntry → Loop → Loop
  upsert_record r entry l =
      let kept = with_existing_lifecycle r entry in
      record l {
        state = elim entry [
          | some _ ↦ l.state
          | none ↦
              if effective_lifecycle_state kept == "active"
              then l.state
              else apply_inactive_change env principal
                  (record {
                    source_ref = kept.source_ref;
                    state = effective_lifecycle_state kept;
                    reason = lifecycle_reason kept;
                    replacement_ref = "";
                    duplicate_group_ref = "";
                  })
                  l.state
        ];
        active_records = l.active_records ++ kept ∷ [];
      }

  pub restore_record : String → SourceRecord → Loop → Loop
  restore_record ref r l = record {
    state = restore_source ref l.state;
    lifecycle = pop ref l.lifecycle;
    active_records = l.active_records ++ r ∷ [];
  }

  pub upsert_change : SourceRecord → Loop → Loop
  upsert_change r l =
      let entry = get l.lifecycle r.source_ref in
      if should_restore r entry then restore_record r.source_ref r l else upsert_record r entry l

  pub inactive_change : SourceChange → String → String → Loop → Loop
  inactive_change change ref inactive_state l =
      let reason = change.reason or operation_name change.operation in
      record l {
        state =
            apply_inactive_change env principal
              (record {
                source_ref = ref;
                state = inactive_state;
                reason = reason;
                replacement_ref = change.replacement_ref;
                duplicate_group_ref = change.duplicate_group_ref;
              })
              l.state;
        lifecycle = put ref (record { state = inactive_state; reason = reason }) l.lifecycle;
      }

  -- One round of the loop: the error that it raises, or the variables behind it.
  pub apply_change : SourceChange → Loop → Result Loop
  apply_change change l = elim change.operation [
    | upsert ↦ elim change.source_record [
      | none ↦ raise (value_error "upsert source change requires record")
      | some r ↦ return (upsert_change r l)
    ]
    | restore ↦ elim change.source_record [
      | none ↦ raise (value_error "restore source change requires record")
      | some r ↦ (do
        ref ← target_source_ref change
        return (restore_record ref (record r { lifecycle_state = "active" }) l))
    ]
    | operation ↦ (do
      inactive_state ← inactive_state_for operation
      ref ← target_source_ref change
      return (inactive_change change ref inactive_state l))
  ]

  -- What earlier rounds wrote stays written when a round raises.
  pub apply_changes : List SourceChange → Loop → Result (Unit {0}) × Loop
  apply_changes [] l = (return tt, l)
  apply_changes (change ∷ rest) l = elim (apply_change change l) [
    | raise e ↦ (raise e, l)
    | return l' ↦ apply_changes rest l'
  ]

  module _ (max_words overlap_words : ℕ) where
    -- the end of `apply_source_changes`, behind the loop
    pub finish : Result (Unit {0}) × Loop → Result (Unit {0}) × State
    finish (raise e, l) = (raise e, l.state)
    finish (return _, l) = elim l.active_records [
      | [] ↦ (return tt, l.state)
      | r ∷ rest ↦ store_active_records env max_words overlap_words (r ∷ rest) l.state
    ]

    pub apply_source_changes : List SourceChange → State → Result (Unit {0}) × State
    apply_source_changes changes s = finish (
        apply_changes changes (record {
          state = s;
          lifecycle = lifecycle_state_by_ref s.source_lifecycle;
          active_records = [];
        }))
