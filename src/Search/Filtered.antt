-- ===== src/Search/Filtered.antt =====
-- retrieval/search.py: the rows of a search against its filters and its limit.
use mathlib.Core.Path.{subst}
use ok.Prelude.{
  ℕ, ◌-◌, ◌≤◌, String, ◌≡◌, inl, inr, Bool, true, not, ◌&&◌, List, [], ◌∷◌, arith, ◌==◌, ltb, leb,
  any, contains, length, length-append, length-map-take, All, All-append, All-take, All-map,
  All-mono, All-select_where, All-select_where_if, eq_refl, Bool-cases, return, >>=-eq-return,
  return_inj,
}
use ok.Storage.{State, SourceRecordRow, RetrievalRecordRow, Environment}
use ok.Search.{
  Candidate, SearchRow, candidate, joins, unit_candidates, candidates, Scored, before,
  insert_scored, sort_scored, search_row, best_rows, exact_score, fuzzy_score, exact_rows,
  fuzzy_rows, existing_keys, search_rows, Dialect, postgresql, other, postgres_rows, first_rows,
  fill_rows, plain_row, FullText, document,
}
use ok.Search.Scores.{query_terms}

-- A source that may be shown: it is not excluded, and some row of it is active.
abbrev pub is_shown : List String → List SourceRecordRow → String → Bool
is_shown exclude rows ref =
    not (contains exclude ref)
    && any (λ row. (row.source_ref == ref) && (row.lifecycle_state == "active")) rows

module _ {ℓ} (P : Scored → Type ℓ) where
  All-insert : (a : Scored) (rest : List Scored) → P a → All P rest → All P (insert_scored a rest)
  unfolding insert_scored
  All-insert a [] ha h = (ha, tt)
  All-insert a (b ∷ rest) ha h = elim (Bool-cases (before b a)) [
    | inl e ↦ rw e (h.0, All-insert a rest ha h.1)
    | inr e ↦ rw e (ha, h)
  ]

  All-sort : (rest : List Scored) → All P rest → All P (sort_scored rest)
  unfolding sort_scored
  All-sort [] h = tt
  All-sort (a ∷ rest) h = All-insert a (sort_scored rest) h.0 (All-sort rest h.1)

abbrev Shown : List String → List SourceRecordRow → String → Type 0
Shown exclude rows ref = is_shown exclude rows ref ≡ true

-- whether a row is of the source and active
abbrev pub is_active_row : String → SourceRecordRow → Bool
is_active_row ref row = (row.source_ref == ref) && (row.lifecycle_state == "active")

pub active-found :
    (rows : List SourceRecordRow)
    → All
        (λ row.
          (row.lifecycle_state == "active") ≡ true → any (is_active_row row.source_ref) rows ≡ true)
        rows
active-found [] = tt
active-found (r ∷ rows) = (
  λ active. ground (arith, eq_refl r.source_ref),
  All-mono _ _ (λ row h active. ground (arith, h active)) rows (active-found rows),
)

module _ (exclude : List String) (rows : List SourceRecordRow) where
  unit-Shown :
      (unit : RetrievalRecordRow)
      → All (λ c. Shown exclude rows c.source_ref) (unit_candidates exclude unit rows)
  unfolding unit_candidates
  unit-Shown unit =
      All-map (λ c. Shown exclude rows c.source_ref) (candidate unit) _
        (All-select_where_if (λ row. Shown exclude rows row.source_ref) (joins exclude unit) rows
          (All-mono _ _ (λ row found h. ground (arith, found (ground (arith, h)), h)) rows
            (active-found rows)))

  candidates-Shown :
      (units : List RetrievalRecordRow)
      → All (λ c. Shown exclude rows c.source_ref) (candidates exclude units rows)
  unfolding candidates
  candidates-Shown [] = tt
  candidates-Shown (unit ∷ units) =
      All-append (λ c. Shown exclude rows c.source_ref) (unit_candidates exclude unit rows) _
        (unit-Shown unit) (candidates-Shown units)

  abbrev ShownRow : SearchRow → Type 0
  ShownRow row = Shown exclude rows row.source_ref

  abbrev ShownScored : Scored → Type 0
  ShownScored x = Shown exclude rows x.row.source_ref

  best-Shown :
      (score : Candidate → ℕ) (limit : ℕ) (cs : List Candidate)
      → All (λ c. Shown exclude rows c.source_ref) cs
      → All ShownRow (best_rows score limit cs)
  unfolding best_rows
  best-Shown score limit cs h =
      All-map ShownRow (λ x. search_row x.row) _
        (All-take ShownScored limit _ (
          All-sort ShownScored _ (
            All-select_where ShownScored (λ x. ltb 0 x.score) _
              (All-map ShownScored (λ c. record { score = score c; row = c }) cs h))))

-- rows that may be shown, and no more of them than the limit
pub record Answers (exclude : List String) (s : State) (limit : ℕ) (found : List SearchRow)
    : Type 0 where
  pub shown : All (λ row. is_shown exclude s.source_records row.source_ref ≡ true) found
  pub bounded : length found ≤ limit

module _ (env : Environment) (query : String) (limit : ℕ) (exclude : List String) (s : State) where
  best-Answers :
      (score : Candidate → ℕ) (n : ℕ) (cs : List Candidate)
      → All (λ c. Shown exclude s.source_records c.source_ref) cs
      → Answers exclude s n (best_rows score n cs)
  unfolding best_rows
  best-Answers score n cs h = record {
    shown = best-Shown exclude s.source_records score n cs h;
    bounded = length-map-take (λ x. search_row x.row) n _;
  }

  exact-Answers :
      {found : List SearchRow}
      → exact_rows env query limit exclude s ≡ return found
      → Answers exclude s limit found
  unfolding exact_rows
  exact-Answers e =
      let (terms, _, done) = >>=-eq-return (query_terms env query) _ e in
      subst (Answers exclude s limit) (return_inj done) (
        best-Answers (exact_score env terms) limit _
          (candidates-Shown exclude s.source_records s.retrieval_records))

  fuzzy-Answers :
      (n : ℕ) (existing : List (String × String)) {found : List SearchRow}
      → fuzzy_rows env query n exclude existing s ≡ return found
      → Answers exclude s n found
  unfolding fuzzy_rows
  fuzzy-Answers n existing e =
      let (terms, _, done) = >>=-eq-return (query_terms env query) _ e in
      subst (Answers exclude s n) (return_inj done) (
        best-Answers (fuzzy_score env terms) n _ (
          All-select_where (λ c. Shown exclude s.source_records c.source_ref) _ _
            (candidates-Shown exclude s.source_records s.retrieval_records)))

  postgres-Answers :
      (text : FullText) {found : List SearchRow}
      → postgres_rows env text query limit exclude s ≡ return found
      → Answers exclude s limit found
  unfolding postgres_rows
  postgres-Answers text e =
      let (terms, _, done) = >>=-eq-return (query_terms env query) _ e in
      subst (Answers exclude s limit) (return_inj done) (record {
        shown =
            All-map (ShownRow exclude s.source_records) (λ x. plain_row x.row) _
              (All-take (ShownScored exclude s.source_records) limit _ (
                All-sort (ShownScored exclude s.source_records) _ (
                  All-map (ShownScored exclude s.source_records)
                    (λ c. record { score = text.rank query (document c); row = c }) _
                    (All-select_where (λ c. Shown exclude s.source_records c.source_ref) _ _
                      (candidates-Shown exclude s.source_records s.retrieval_records)))));
        bounded = length-map-take (λ x. plain_row x.row) limit _;
      })

  first-Answers :
      (dialect : Dialect) {found : List SearchRow}
      → first_rows env dialect query limit exclude s ≡ return found
      → Answers exclude s limit found
  first-Answers (postgresql text) e = postgres-Answers text e
  first-Answers other e = exact-Answers e

  fill-Answers :
      (rows found : List SearchRow)
      → Answers exclude s limit rows
      → fill_rows env query limit exclude s rows ≡ return found
      → Answers exclude s limit found
  fill-Answers rows found h e = elim (Bool-cases (leb limit (length rows))) [
    | inl full ↦ subst (Answers exclude s limit) (return_inj (rw full at e)) h
    | inr short ↦
        let (more, is_more, done) =
          >>=-eq-return
            (fuzzy_rows env query (limit - length rows) exclude (existing_keys env rows) s) _
            (rw short at e) in
        let extra = fuzzy-Answers (limit - length rows) _ is_more in
        subst (Answers exclude s limit) (return_inj done) (record {
          shown = All-append (ShownRow exclude s.source_records) rows more h.shown extra.shown;
          bounded = ground (arith, length-append rows more, h.bounded, extra.bounded);
        })
  ]

-- In either dialect, and for the fuzzy rows too: where a search returns rows, none is of an excluded
-- source, the source of each has an active row, and there are no more rows than the limit.
pub search_rows-Answers :
    (env : Environment) (dialect : Dialect) (query : String) (limit : ℕ) (exclude : List String)
    (s : State) {found : List SearchRow}
    → search_rows env dialect query limit exclude s ≡ return found
    → Answers exclude s limit found
unfolding search_rows
search_rows-Answers env dialect query limit exclude s e = elim (Bool-cases (ltb limit 1)) [
  | inl none_wanted ↦
      subst (Answers exclude s limit) (return_inj (rw none_wanted at e))
        (record { shown = tt; bounded = omega arith })
  | inr wanted ↦
      let (rows, is_first, filled) =
        >>=-eq-return (first_rows env dialect query limit exclude s) _ (rw wanted at e) in
      fill-Answers env query limit exclude s rows _
        (first-Answers env query limit exclude s dialect is_first) filled
]
