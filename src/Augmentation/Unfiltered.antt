-- ===== src/Augmentation/Unfiltered.antt =====
-- retrieval/augmentation.py, the keyword search of `retrieve_augmentation` against the permissions of
-- the sources.
use mathlib.Core.Path.{fun_ext}
use ok.Prelude.{
  ℕ, String, ◌≡◌, refl, ap, inl, inr, List, [], ◌∷◌, ◌++◌, map, Bool-cases, ltb, ◌>>=◌,
}
use ok.Json.{JsonText}
use ok.Storage.{State, SourceRecordRow, RetrievalRecordRow, Environment}
use ok.Search.{
  SearchRow, Dialect, joins, candidate, unit_candidates, candidates, search_rows, first_rows,
  fill_rows, exact_rows, fuzzy_rows, postgres_rows, other, postgresql,
}
use ok.Augmentation.Python.{Floats, Library}
use ok.Augmentation.{Request, keyword_rows}

module _ (permissions : SourceRecordRow → JsonText) where
  abbrev with_refs : SourceRecordRow → SourceRecordRow
  with_refs row = record row { permission_refs = permissions row }

  -- the state with other permissions on every row of a source
  abbrev pub with_permissions : State → State
  with_permissions s = record s { source_records = map with_refs s.source_records }

  unit_candidates-with_refs :
      (exclude : List String) (unit : RetrievalRecordRow) (rows : List SourceRecordRow)
      → unit_candidates exclude unit (map with_refs rows) ≡ unit_candidates exclude unit rows
  unfolding unit_candidates
  unit_candidates-with_refs exclude unit [] = refl
  unit_candidates-with_refs exclude unit (row ∷ rows) = elim (Bool-cases (joins exclude unit row)) [
    | inl e ↦ rw e (ap (λ l. candidate unit row ∷ l) (unit_candidates-with_refs exclude unit rows))
    | inr e ↦ rw e (unit_candidates-with_refs exclude unit rows)
  ]

  candidates-with_refs :
      (exclude : List String) (units : List RetrievalRecordRow) (rows : List SourceRecordRow)
      → candidates exclude units (map with_refs rows) ≡ candidates exclude units rows
  unfolding candidates
  candidates-with_refs exclude [] rows = refl
  candidates-with_refs exclude (unit ∷ units) rows =
      rw (unit_candidates-with_refs exclude unit rows)
        (ap (λ l. unit_candidates exclude unit rows ++ l) (candidates-with_refs exclude units rows))

  module _ (env : Environment) where
    first_rows-with_permissions :
        (dialect : Dialect) (query : String) (limit : ℕ) (exclude : List String) (s : State)
        → first_rows env dialect query limit exclude (with_permissions s)
          ≡ first_rows env dialect query limit exclude s
    unfolding exact_rows postgres_rows
    first_rows-with_permissions (postgresql text) query limit exclude s =
        rw (candidates-with_refs exclude s.retrieval_records s.source_records) refl
    first_rows-with_permissions other query limit exclude s =
        rw (candidates-with_refs exclude s.retrieval_records s.source_records) refl

    fill_rows-with_permissions :
        (query : String) (limit : ℕ) (exclude : List String) (s : State) (rows : List SearchRow)
        → fill_rows env query limit exclude (with_permissions s) rows
          ≡ fill_rows env query limit exclude s rows
    unfolding fuzzy_rows
    fill_rows-with_permissions query limit exclude s rows =
        rw (candidates-with_refs exclude s.retrieval_records s.source_records) refl

    search_rows-with_permissions :
        (dialect : Dialect) (query : String) (limit : ℕ) (exclude : List String) (s : State)
        → search_rows env dialect query limit exclude (with_permissions s)
          ≡ search_rows env dialect query limit exclude s
    unfolding search_rows
    search_rows-with_permissions dialect query limit exclude s = elim (Bool-cases (ltb limit 1)) [
      | inl e ↦ rw e refl
      | inr e ↦
          rw (e, first_rows-with_permissions dialect query limit exclude s)
            (ap (λ k. first_rows env dialect query limit exclude s >>= k)
              (fun_ext (fill_rows-with_permissions query limit exclude s)))
    ]

-- The rows that the keyword search of a retrieval finds do not depend on the permissions of the
-- sources: with any other permissions on the rows of the sources they are the same.
pub keyword_rows-with_permissions :
    {F : Type 0} (num : Floats F) (env : Environment) (lib : Library)
    (permissions : SourceRecordRow → JsonText) (dialect : Dialect) (request : Request) (s : State)
    → keyword_rows num env lib dialect request (with_permissions permissions s)
      ≡ keyword_rows num env lib dialect request s
keyword_rows-with_permissions num env lib permissions dialect request s =
    rw
      (search_rows-with_permissions permissions env dialect request.query request.candidate_limit []
        s)
      refl
