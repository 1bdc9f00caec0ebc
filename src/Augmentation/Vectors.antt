-- ===== src/Augmentation/Vectors.antt =====
-- retrieval/vector_search.py, `search`, and the rows that retrieval/augmentation.py takes from it.
use ok.Prelude.{
  ℕ, String, Bool, true, false, List, [], map, Option, none, some, ◌==◌, ltb, take, first,
  select_where, sort_by, lt_text, if◌then◌else◌,
}
use ok.Storage.{State, SourceRecordRow, EmbeddingRow}
use ok.Augmentation.Python.{Floats}

-- a row of the keyword search or of the vector search
pub record RankedRow : Type 0 where
  pub source_ref : String
  pub unit_index : ℕ
  pub subject : String
  pub body : String
  pub date : String

module _ {F : Type 0} (num : Floats F) where
  pub record VectorSearchResult : Type 0 where
    pub source_ref : String
    pub chunk_index : ℕ
    pub text : String
    pub score : F

  abbrev pub vector_result : String → EmbeddingRow → VectorSearchResult
  vector_result query row = record {
    source_ref = row.source_ref;
    chunk_index = row.chunk_index;
    text = row.text;
    score = num.similarity query row.embedding;
  }

  -- the key `(-score, source_ref, chunk_index)`
  abbrev pub vector_before : VectorSearchResult → VectorSearchResult → Bool
  vector_before a b =
      if num.less b.score a.score
      then true
      else if num.less a.score b.score
      then false
      else if a.source_ref == b.source_ref
      then ltb a.chunk_index b.chunk_index
      else lt_text a.source_ref b.source_ref

  abbrev stored_rows : Option (List EmbeddingRow) → List EmbeddingRow
  stored_rows none = []
  stored_rows (some rows) = rows

  -- `search`, over a table that is created where there is none
  unfoldable pub vector_search : String → ℕ → Option (List EmbeddingRow) → List VectorSearchResult
  unfolding sort_by lt_text
  vector_search query limit table =
      take limit (sort_by vector_before (map (vector_result query) (stored_rows table)))

  -- a row with the title and the date of its source, if it is stored
  abbrev ranked_of : VectorSearchResult → Option SourceRecordRow → RankedRow
  ranked_of r none = record {
    source_ref = r.source_ref;
    unit_index = r.chunk_index;
    subject = "";
    body = r.text;
    date = "";
  }
  ranked_of r (some row) = record {
    source_ref = r.source_ref;
    unit_index = r.chunk_index;
    subject = row.title;
    body = r.text;
    date = row.occurred_at;
  }

  abbrev pub ranked_row : List SourceRecordRow → VectorSearchResult → RankedRow
  ranked_row rows r = ranked_of r (
      if r.source_ref == ""
      then none
      else first (select_where (λ row. row.source_ref == r.source_ref) rows))

  -- `_vector_rows`, where the search raises nothing
  unfoldable pub vector_rows : String → ℕ → State → List RankedRow
  unfolding vector_search
  vector_rows query limit s = map (ranked_row s.source_records) (
      select_where (λ r. num.less (num.lit "0.0") r.score)
        (vector_search query limit s.chunk_embeddings))
