-- ===== src/Metadata.antt =====
-- etl/load/source_metadata.py: how source records are stored, and which of them a principal may see.
pub mod Latest
pub mod Denied
use mathlib.Core.List.{reverse}
use ok.Prelude.{
  String, Bool, true, false, not, ◌&&◌, ◌||◌, List, [], ◌∷◌, ◌++◌, map, Option, none, some, ◌==◌,
  any, contains, concat, is_empty, select_where, delete_where, update_where, upsert_rows, ◌or◌,
  lt_text, first, sort_by, if◌then◌else◌,
}
use ok.Json.{
  Json, Fields, Items, JsonText, str, arr, obj, end, field, items, dumps, decode_permission_refs,
  decode_json_string_list,
}
use ok.Records.{SourceRecord, SourceIdentity, effective_lifecycle_state}
use ok.Permissions.{PrincipalContext, GroupInheritance, principal_permission_refs}
use ok.Storage.{State, SourceRecordRow, SourceIdentityRow, RetrievalRecordRow, Environment}

-- `isdisjoint`
abbrev disjoint : List String → List String → Bool
disjoint xs ys = not (any (λ x. contains ys x) xs)

-- the test by which `denied_source_refs` and `source_metadata` refuse a row
unfoldable pub is_denied : PrincipalContext → GroupInheritance → SourceRecordRow → Bool
is_denied principal inheritance row =
    let refs = decode_permission_refs row.permission_refs in
    any (λ _. true) refs && disjoint refs (principal_permission_refs principal inheritance)

unfoldable pub denied_source_refs :
    PrincipalContext → GroupInheritance → List SourceRecordRow → List String
denied_source_refs principal inheritance rows =
    map (λ row. row.source_ref) (select_where (is_denied principal inheritance) rows)

-- the payload of `source_record_checksum` that is hashed
abbrev checksum_payload : SourceRecord → Json
checksum_payload r = obj (
    field "source_system" (str r.source_system) (
      field "source_id" (str r.source_id) (
        field "record_type" (str r.record_type) (
          field "title" (str r.title) (
            field "body" (str r.body) (
              field "occurred_at" (str r.occurred_at) (
                field "updated_at" (str r.updated_at) (
                  field "author_ref" (str r.author_ref) (
                    field "source_url" (str r.source_url) (
                      field "thread_ref" (str r.thread_ref) (
                        field "permission_refs" (arr (items r.permission_refs)) (
                          field "permission_snapshot_status" (str r.permission_snapshot_status) (
                            field "attachment_refs" (arr (items r.attachment_refs)) (
                              field "identity_refs" (arr (items r.identity_refs)) (
                                field "lifecycle_state" (str r.lifecycle_state)
                                  (field "metadata" (obj r.metadata) end))))))))))))))))

unfoldable pub source_record_checksum : Environment → SourceRecord → String
source_record_checksum env r =
    if r.checksum == ""
    then concat ("sha256:" ∷ env.sha256_json (checksum_payload r) ∷ [])
    else r.checksum

-- a source's identity: its system and its id there
abbrev pub Identity : Type 0
Identity = String × String

abbrev pub same_identity : Identity → Identity → Bool
same_identity a b = (a.0 == b.0) && (a.1 == b.1)

abbrev pub has_identity : List Identity → Identity → Bool
has_identity ids a = any (λ b. same_identity b a) ids

abbrev pub record_identity : SourceRecord → Identity
record_identity r = (r.source_system, r.source_id)

abbrev row_identity : SourceRecordRow → Identity
row_identity row = (row.source_system, row.source_id)

-- the loop of `latest_source_records`, with the refs and the identities that it has seen
pub keep_unseen : List String → List Identity → List SourceRecord → List SourceRecord
keep_unseen refs ids [] = []
keep_unseen refs ids (r ∷ rest) =
    let seen = contains refs r.source_ref || has_identity ids (record_identity r) in
    let selected =
      keep_unseen (if seen then refs else r.source_ref ∷ refs)
        (if seen then ids else record_identity r ∷ ids) rest in
    if seen then selected else r ∷ selected

unfoldable pub latest_source_records : List SourceRecord → List SourceRecord
unfolding keep_unseen
latest_source_records records = reverse (keep_unseen [] [] (reverse records))

unfoldable pub record_row : Environment → SourceRecord → SourceRecordRow
record_row env r =
    let checksum = source_record_checksum env r in
    record {
      source_ref = r.source_ref;
      source_system = r.source_system;
      source_id = r.source_id;
      record_type = r.record_type;
      title = r.title;
      retrieval_text = r.body;
      author_ref = r.author_ref;
      occurred_at = r.occurred_at;
      updated_at = r.updated_at;
      source_url = r.source_url;
      thread_ref = r.thread_ref;
      permission_refs = dumps r.permission_refs;
      permission_snapshot_status = r.permission_snapshot_status;
      attachment_refs = dumps r.attachment_refs;
      identity_refs = dumps r.identity_refs;
      lifecycle_state = effective_lifecycle_state r;
      checksum = checksum;
      version = r.version or checksum;
      metadata_json = r.metadata;
      raw_ref = r.raw_ref;
    }

abbrev identity_row : SourceRecord → SourceIdentity → SourceIdentityRow
identity_row r i = record {
  source_ref = r.source_ref;
  source_system = i.source_system;
  identity_ref = i.identity_ref;
  identity_type = i.identity_type;
  value = i.value;
  display_name = i.display_name;
}

abbrev identity_rows : List SourceRecord → List SourceIdentityRow
identity_rows [] = []
identity_rows (r ∷ rest) = map (identity_row r) r.source_identities ++ identity_rows rest

-- the last row that passes a test, as a dictionary over the rows keeps it
abbrev last_match : (SourceRecordRow → Bool) → List SourceRecordRow → Option SourceRecordRow
last_match p [] = none
last_match p (row ∷ rest) = elim (last_match p rest) [
  | some found ↦ some found
  | none ↦ if p row then some row else none
]

-- `_source_record_row_changed`
unfoldable pub row_changed : List SourceRecordRow → SourceRecordRow → Bool
row_changed previous row = elim (last_match (λ old. old.source_ref == row.source_ref) previous) [
  | some old ↦ not (old.checksum == row.checksum)
  | none ↦ elim (last_match (λ old. same_identity (row_identity old) (row_identity row)) previous) [
    | some old ↦ not (old.checksum == row.checksum)
    | none ↦ false
  ]
]

abbrev pub same_ref : SourceRecordRow → SourceRecordRow → Bool
same_ref a b = a.source_ref == b.source_ref

abbrev same_identity_row : SourceIdentityRow → SourceIdentityRow → Bool
same_identity_row a b =
    (a.source_ref == b.source_ref)
    && (a.identity_ref == b.identity_ref)
    && (a.identity_type == b.identity_type)

abbrev pub refs_of : List SourceRecord → List String
refs_of = map (λ r. r.source_ref)

abbrev row_refs : List SourceRecordRow → List String
row_refs = map (λ row. row.source_ref)

-- the stored rows that have the identity of a record
abbrev previous_rows : List SourceRecord → List SourceRecordRow → List SourceRecordRow
previous_rows records =
    select_where (λ row. has_identity (map record_identity records) (row_identity row))

-- of these, the refs that no record has
abbrev pub replaced_refs : List SourceRecord → List SourceRecordRow → List String
replaced_refs records rows = row_refs (
    select_where (λ row. not (contains (refs_of records) row.source_ref))
      (previous_rows records rows))

-- the transaction of `store_source_records`, over records that are the latest
unfoldable pub write_source_records : Environment → List SourceRecord → State → State
unfolding record_row
write_source_records env records s =
    let rows = map (record_row env) records in
    let previous = previous_rows records s.source_records in
    let replaced = replaced_refs records s.source_records in
    let deleted = refs_of records ++ replaced in
    let changed = row_refs (select_where (row_changed previous) rows) ++ replaced in
    record s {
      source_records =
          upsert_rows same_ref rows
            (delete_where (λ row. contains deleted row.source_ref) s.source_records);
      source_identities =
          upsert_rows same_identity_row (identity_rows records)
            (delete_where (λ row. contains deleted row.source_ref) s.source_identities);
      retrieval_records =
          update_where (λ row. contains changed row.source_ref)
            (λ row. record row { status = "stale" }) s.retrieval_records;
    }

unfoldable pub store_source_records : Environment → List SourceRecord → State → State
unfolding write_source_records latest_source_records
store_source_records env [] s = s
store_source_records env (r ∷ rest) s =
    write_source_records env (latest_source_records (r ∷ rest)) s

-- `source_record_rows`: the rows in the order of their refs
unfoldable pub source_record_rows : List SourceRecordRow → List SourceRecordRow
unfolding sort_by lt_text
source_record_rows rows = sort_by (λ a b. lt_text a.source_ref b.source_ref) rows

-- the order of `source_identity_rows`
abbrev identity_before : SourceIdentityRow → SourceIdentityRow → Bool
identity_before a b =
    if a.source_ref == b.source_ref
    then (if a.identity_ref == b.identity_ref
        then lt_text a.identity_type b.identity_type
        else lt_text a.identity_ref b.identity_ref)
    else lt_text a.source_ref b.source_ref

-- `source_identity_rows`
unfoldable pub source_identity_rows : List SourceIdentityRow → List SourceIdentityRow
unfolding sort_by lt_text
source_identity_rows rows = sort_by identity_before rows

-- the columns that an allowed answer shows
pub record SourceView : Type 0 where
  pub source_ref : String
  pub source_system : String
  pub source_id : String
  pub record_type : String
  pub source_url : String
  pub thread_ref : String
  pub attachment_refs : List String
  pub lifecycle_state : String

abbrev source_view : SourceRecordRow → SourceView
source_view row = record {
  source_ref = row.source_ref;
  source_system = row.source_system;
  source_id = row.source_id;
  record_type = row.record_type;
  source_url = row.source_url;
  thread_ref = row.thread_ref;
  attachment_refs = sort_by lt_text (decode_json_string_list row.attachment_refs);
  lifecycle_state = row.lifecycle_state;
}

-- what `source_metadata` answers, by its status
pub data SourceMetadata : Type 0 where
  not_found : String → SourceMetadata
  denied : String → SourceMetadata
  allowed : SourceView → SourceMetadata

-- the answer for the first row
abbrev metadata_of :
    PrincipalContext → GroupInheritance → String → Option SourceRecordRow → SourceMetadata
metadata_of principal inheritance ref none = not_found ref
metadata_of principal inheritance ref (some row) =
    if is_denied principal inheritance row then denied ref else allowed (source_view row)

unfoldable pub source_metadata :
    PrincipalContext → GroupInheritance → String → List SourceRecordRow → SourceMetadata
unfolding is_denied sort_by lt_text
source_metadata principal inheritance ref rows =
    metadata_of principal inheritance ref (first (select_where (λ row. row.source_ref == ref) rows))
