-- ===== src/Retrieval.antt =====
-- retrieval/embeddings.py (`chunk_text`), etl/load/retrieval_records.py and the writes of
-- retrieval/vector_search.py: the retrieval units of a record.
pub mod Chunks
use ok.Prelude.{
  ℕ, ◌+◌, String, Bool, not, List, [], ◌∷◌, ◌++◌, map, Option, none, some, ◌==◌, eqb, ◌&&◌,
  contains, concat, select_where, delete_where, upsert_rows, strip, join, codes, find, text_length,
  decimal4, is_empty, Result, return, raise, ◌>>=◌, if◌then◌else◌,
}
use ok.Records.{SourceRecord, SourceAttachment, effective_lifecycle_state}
use ok.Storage.{State, RetrievalRecordRow, EmbeddingRow, Environment}
use ok.Retrieval.Chunks.{Chunk, chunk_text}

abbrev attachment_part : SourceAttachment → String
attachment_part a = join "\n" (select_where (λ part. not (part == "")) (a.title ∷ a.text ∷ []))

-- `_retrieval_text`
pub retrieval_text : SourceRecord → String
retrieval_text r =
    let attachment_text =
      join "\n\n" (map attachment_part (select_where (λ a. not (a.text == "")) r.attachments)) in
    join "\n\n" (
      select_where (λ part. not (part == ""))
        (strip r.title ∷ strip r.body ∷ strip attachment_text ∷ []))

-- `_chunk_offsets`
chunk_offsets : String → String → ℕ × ℕ
chunk_offsets text chunk = elim (find (codes text) (codes chunk)) [
  | none ↦ (0, text_length chunk)
  | some start ↦ (start, start + text_length chunk)
]

retrieval_record : String → String → SourceRecord → Chunk → RetrievalRecordRow
retrieval_record checksum text r chunk =
    let (start, end) = chunk_offsets text chunk.text in
    record {
      retrieval_ref =
          concat
            ("retrieval:" ∷ r.source_ref ∷ ":" ∷ decimal4 chunk.chunk_index ∷ ":full_text" ∷ []);
      source_ref = r.source_ref;
      unit_index = chunk.chunk_index;
      start_offset = start;
      end_offset = end;
      index_kind = "full_text";
      status = "current";
      source_checksum = checksum;
      prepared_text = chunk.text;
      updated_at = "";
    }

module _ (checksum_of : SourceRecord → String) (max_words overlap_words : ℕ) where
  -- the units of one record
  pub record_units : SourceRecord → Result (List RetrievalRecordRow)
  record_units r =
      if effective_lifecycle_state r == "active"
      then (do
        chunks ← chunk_text (retrieval_text r) max_words overlap_words
        return (map (retrieval_record (checksum_of r) (retrieval_text r) r) chunks))
      else return []

  -- `_prepare_retrieval_records`
  pub prepare_retrieval_records : List SourceRecord → Result (List RetrievalRecordRow)
  prepare_retrieval_records [] = return []
  prepare_retrieval_records (r ∷ rest) = do
    units ← record_units r
    others ← prepare_retrieval_records rest
    return (units ++ others)

-- `replace_retrieval_records_for_sources`
unfoldable pub replace_retrieval_records : List String → List RetrievalRecordRow → State → State
replace_retrieval_records [] records s = s
replace_retrieval_records (ref ∷ refs) records s = record s {
  retrieval_records =
      delete_where (λ row. contains (ref ∷ refs) row.source_ref) s.retrieval_records ++ records;
}

abbrev same_chunk : EmbeddingRow → EmbeddingRow → Bool
same_chunk a b = (a.source_ref == b.source_ref) && eqb a.chunk_index b.chunk_index

-- a current unit with its embedding, as `_insert_chunks` writes it
abbrev embedding_row : Environment → RetrievalRecordRow → EmbeddingRow
embedding_row env row = record {
  source_ref = row.source_ref;
  chunk_index = row.unit_index;
  text = row.prepared_text;
  embedding = env.embed_text row.prepared_text;
}

-- the rows of `chunk_embeddings`, which the constructor of the index creates
abbrev embedding_rows : Option (List EmbeddingRow) → List EmbeddingRow
embedding_rows none = []
embedding_rows (some rows) = rows

-- `replace_vector_index_for_retrieval_records`
unfoldable pub replace_vector_index :
    Environment → List String → List RetrievalRecordRow → State → State
replace_vector_index env [] records s = s
replace_vector_index env (ref ∷ refs) records s =
    let chunks = map (embedding_row env) (select_where (λ row. row.status == "current") records) in
    record s {
      chunk_embeddings = some (
          upsert_rows same_chunk chunks (
            delete_where (λ row. contains (ref ∷ refs) row.source_ref)
              (embedding_rows s.chunk_embeddings)));
    }
