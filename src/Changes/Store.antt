-- ===== src/Changes/Store.antt =====
-- `_store_active_records` of etl/load/source_changes.py: the records of a batch, once their
-- lifecycle is known, go into every table.
use mathlib.Core.Option
use ok.Prelude.{
  ℕ, String, not, ◌&&◌, List, [], ◌∷◌, ◌++◌, map, Option, none, some, ◌==◌, contains, delete_where,
  Result, return, raise, if◌then◌else◌,
}
use ok.Records.{SourceRecord, effective_lifecycle_state}
use ok.Storage.{
  State, RawFile, RetrievalRecordRow, Environment, record_payload, put_raw, delete_raw,
}
use ok.Lifecycle.{inactive_source_refs}
use ok.Retrieval.{prepare_retrieval_records, replace_retrieval_records, replace_vector_index}
use ok.Metadata.{
  source_record_checksum, latest_source_records, store_source_records, refs_of, replaced_refs,
}
use ok.Context.{canonical_object, store_canonical_objects, store_entity_links}
use ok.Context.Links.{entity_links}

-- `_records_with_raw_refs`
abbrev pub with_raw_ref : Option (List RawFile) → SourceRecord → SourceRecord
with_raw_ref none r = r
with_raw_ref (some _) r = if r.raw_ref == "" then record r { raw_ref = r.source_ref } else r

module _ (env : Environment) where
  -- the loop of `_store_raw_source_records` over the records
  put_active_raw : List String → List SourceRecord → List RawFile → List RawFile
  put_active_raw inactive [] files = files
  put_active_raw inactive (r ∷ rest) files = put_active_raw inactive rest (
      if not (contains inactive r.source_ref) && (effective_lifecycle_state r == "active")
      then put_raw env r.source_ref (record_payload r) files
      else files)

  -- its loop over the refs that the records replace
  pub delete_all_raw : List String → List RawFile → List RawFile
  delete_all_raw [] files = files
  delete_all_raw (ref ∷ refs) files = delete_all_raw refs (delete_raw env ref files)

  -- `_store_raw_source_records`
  store_raw_source_records : List SourceRecord → List String → State → State
  store_raw_source_records records replaced s = record s {
    raw_store =
        Option.map
          (λ files.
            put_active_raw (inactive_source_refs s.source_lifecycle) records
              (delete_all_raw replaced files))
          s.raw_store;
  }

  -- `delete_legacy_email_index_rows`
  delete_legacy_rows : List String → State → State
  delete_legacy_rows refs s = record s {
    emails = delete_where (λ row. contains refs row.source_ref) s.emails;
    chunks = delete_where (λ row. contains refs row.source_ref) s.chunks;
  }

  -- The units of a batch, once they are prepared, and the tables that follow them.
  unfoldable pub store_units :
      List SourceRecord
      → List String
      → List String
      → Result (List RetrievalRecordRow)
      → State
      → Result (Unit {0}) × State
  unfolding store_raw_source_records delete_legacy_rows put_active_raw
  store_units records replaced touched (raise e) s = (raise e, s)
  store_units records replaced touched (return units) s = (
    return tt,
    delete_legacy_rows touched (
        store_raw_source_records records replaced
          (replace_vector_index env touched units (replace_retrieval_records touched units s))),
  )

  module _ (max_words overlap_words : ℕ) where
    -- The source rows, objects and links are stored before the units are prepared, which may raise.
    store_latest_records : List SourceRecord → State → Result (Unit {0}) × State
    store_latest_records records s =
        let replaced = replaced_refs records s.source_records in
        store_units records replaced (refs_of records ++ replaced)
          (prepare_retrieval_records (source_record_checksum env) max_words overlap_words records)
          (store_entity_links (entity_links env records) (
            store_canonical_objects (map canonical_object records)
              (store_source_records env records s)))

    unfoldable pub store_active_records : List SourceRecord → State → Result (Unit {0}) × State
    unfolding store_latest_records store_units
    store_active_records records s =
        store_latest_records (map (with_raw_ref s.raw_store) (latest_source_records records)) s
