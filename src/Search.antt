-- ===== src/Search.antt =====
-- retrieval/search.py: the rows that a query finds.
pub mod Scores
pub mod Filtered
pub mod Edits
pub mod Snippets
pub mod Bounded
use ok.Prelude.{
  ℕ, ◌+◌, ◌-◌, ◌*◌, ◌/◌, String, Bool, true, false, not, ◌&&◌, ◌||◌, List, [], ◌∷◌, ◌++◌, map,
  Option, none, some, ◌==◌, eqb, ltb, leb, any, contains, length, take, select_where, concat, words,
  strip, join, lt_text, starts_with, codes, find, text_length, drop_text, decimal, is_empty, Result,
  return, raise, ◌>>=◌, min, if◌then◌else◌,
}
use ok.Storage.{State, SourceRecordRow, RetrievalRecordRow, Environment}
use ok.Search.Scores.{query_terms, match_score, fuzzy_match_score}

-- the columns of the join of a unit with the row of its source
pub record Candidate : Type 0 where
  pub source_ref : String
  pub title : String
  pub occurred_at : String
  pub prepared_text : String
  pub unit_index : ℕ

pub record SearchRow : Type 0 where
  pub source_ref : String
  pub subject : String
  pub body : String
  pub date : String

abbrev pub candidate : RetrievalRecordRow → SourceRecordRow → Candidate
candidate unit row = record {
  source_ref = row.source_ref;
  title = row.title;
  occurred_at = row.occurred_at;
  prepared_text = unit.prepared_text;
  unit_index = unit.unit_index;
}

-- the ON clause and the WHERE clauses of the statement
abbrev pub joins : List String → RetrievalRecordRow → SourceRecordRow → Bool
joins exclude unit row =
    (unit.source_ref == row.source_ref)
    && (unit.status == "current")
    && (row.lifecycle_state == "active")
    && not (contains exclude row.source_ref)

unfoldable pub unit_candidates :
    List String → RetrievalRecordRow → List SourceRecordRow → List Candidate
unit_candidates exclude unit rows = map (candidate unit) (select_where (joins exclude unit) rows)

unfoldable pub candidates :
    List String → List RetrievalRecordRow → List SourceRecordRow → List Candidate
candidates exclude [] rows = []
candidates exclude (unit ∷ units) rows =
    unit_candidates exclude unit rows ++ candidates exclude units rows

-- the sort key `(-score, occurred_at, source_ref, unit_index)`: whether `a` stands before `b`
pub record Scored : Type 0 where
  pub score : ℕ
  pub row : Candidate

abbrev pub before : Scored → Scored → Bool
before a b =
    if eqb a.score b.score
    then (if a.row.occurred_at == b.row.occurred_at
        then (if a.row.source_ref == b.row.source_ref
            then ltb a.row.unit_index b.row.unit_index
            else lt_text a.row.source_ref b.row.source_ref)
        else lt_text a.row.occurred_at b.row.occurred_at)
    else ltb b.score a.score

-- a stable sort by that key
unfoldable pub insert_scored : Scored → List Scored → List Scored
insert_scored a [] = a ∷ []
insert_scored a (b ∷ rest) =
    let below = insert_scored a rest in if before b a then b ∷ below else a ∷ b ∷ rest

unfoldable pub sort_scored : List Scored → List Scored
sort_scored [] = []
sort_scored (a ∷ rest) = insert_scored a (sort_scored rest)

-- `_snippet_text`
unfoldable pub strip_title : String → String → String
strip_title prepared_text title =
    let prefix = concat (title ∷ " " ∷ []) in
    if not (title == "") && starts_with prepared_text prefix
    then drop_text (text_length prefix) prepared_text
    else prepared_text

-- `_retrieval_record_row_to_search_row`
abbrev pub search_row : Candidate → SearchRow
search_row c = record {
  source_ref = c.source_ref;
  subject = c.title;
  body = strip_title c.prepared_text c.title;
  date = c.occurred_at;
}

-- the candidates with a positive score, the best first
unfoldable pub best_rows : (Candidate → ℕ) → ℕ → List Candidate → List SearchRow
best_rows score limit cs =
    map (λ s. search_row s.row)
      (take limit (
        sort_scored
          (select_where (λ s. ltb 0 s.score) (map (λ c. record { score = score c; row = c }) cs))))

-- the full-text search of PostgreSQL: `document @@ plainto_tsquery(query)` and `ts_rank`
pub record FullText : Type 0 where
  pub matches : String → String → Bool
  pub rank : String → String → ℕ

pub data Dialect : Type 0 where
  postgresql : FullText → Dialect
  other : Dialect

abbrev pub document : Candidate → String
document c = concat (c.title ∷ " " ∷ c.prepared_text ∷ " " ∷ c.source_ref ∷ [])

abbrev pub plain_row : Candidate → SearchRow
plain_row c = record {
  source_ref = c.source_ref;
  subject = c.title;
  body = c.prepared_text;
  date = c.occurred_at;
}

module _ (env : Environment) where
  -- `_retrieval_record_match_score`
  abbrev pub exact_score : List String → Candidate → ℕ
  exact_score terms c =
      match_score env c.title (concat (c.prepared_text ∷ " " ∷ c.source_ref ∷ [])) terms

  -- `_fuzzy_retrieval_record_match_score`
  abbrev pub fuzzy_score : List String → Candidate → ℕ
  fuzzy_score terms c =
      fuzzy_match_score env c.title terms * 5
      + fuzzy_match_score env c.source_ref terms * 4
      + fuzzy_match_score env c.prepared_text terms

  -- `_python_source_record_search_rows`
  unfoldable pub exact_rows : String → ℕ → List String → State → Result (List SearchRow)
  unfolding best_rows insert_scored sort_scored candidates unit_candidates strip_title drop_text
      lt_text query_terms match_score
  exact_rows query limit exclude s = do
    terms ← query_terms env query
    return (
        best_rows (exact_score terms) limit
          (candidates exclude s.retrieval_records s.source_records))

  -- `_fuzzy_source_record_search_rows`: `existing` has the keys of the rows that are found already
  unfoldable pub fuzzy_rows :
      String → ℕ → List String → List (String × String) → State → Result (List SearchRow)
  unfolding best_rows insert_scored sort_scored candidates unit_candidates strip_title drop_text
      lt_text query_terms fuzzy_match_score decimal
  fuzzy_rows query limit exclude existing s = do
    terms ← query_terms env query
    return (
        best_rows (fuzzy_score terms) limit (
          select_where
            (λ c. not (any (λ k. (k.0 == c.source_ref) && (k.1 == decimal c.unit_index)) existing))
            (candidates exclude s.retrieval_records s.source_records)))

  -- `row.get("unit_index", "0")`: a row that was found has no such column
  abbrev pub existing_keys : List SearchRow → List (String × String)
  existing_keys = map (λ row. (row.source_ref, "0"))

  -- `_postgres_source_record_search_rows`: the statement has the same join and filters, and the
  -- database matches and ranks the documents
  unfoldable pub postgres_rows :
      FullText → String → ℕ → List String → State → Result (List SearchRow)
  unfolding insert_scored sort_scored candidates unit_candidates lt_text query_terms
  postgres_rows text query limit exclude s = do
    terms ← query_terms env query
    return (
        map (λ x. plain_row x.row)
          (take limit (
            sort_scored (
              map (λ c. record { score = text.rank query (document c); row = c })
                (select_where (λ c. text.matches query (document c))
                  (candidates exclude s.retrieval_records s.source_records))))))

  -- the rows of the exact search, by the dialect of the database
  abbrev pub first_rows : Dialect → String → ℕ → List String → State → Result (List SearchRow)
  first_rows (postgresql text) query limit exclude s = postgres_rows text query limit exclude s
  first_rows other query limit exclude s = exact_rows query limit exclude s

  -- the rows that were found, and fuzzy ones where there is room
  abbrev pub fill_rows : String → ℕ → List String → State → List SearchRow → Result (List SearchRow)
  fill_rows query limit exclude s rows =
      if leb limit (length rows)
      then return rows
      else (fuzzy_rows query (limit - length rows) exclude (existing_keys rows) s >>= λ more.
          return (rows ++ more))

  -- `source_record_search_rows`
  unfoldable pub search_rows : Dialect → String → ℕ → List String → State → Result (List SearchRow)
  unfolding exact_rows postgres_rows fuzzy_rows
  search_rows dialect query limit exclude s =
      if ltb limit 1
      then return []
      else (first_rows dialect query limit exclude s >>= fill_rows query limit exclude s)
