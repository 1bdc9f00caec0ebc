-- ===== src/Search/Snippets.antt =====
-- retrieval/search.py: a result of a search, and the snippet of its text.
use ok.Prelude.{
  ℕ, ◌+◌, ◌-◌, ◌/◌, String, List, [], ◌∷◌, Option, none, some, ◌==◌, ltb, min, codes, text_length,
  take_text, drop_text, concat, words, join, strip, find, Result, return, ◌>>=◌, if◌then◌else◌,
}
use ok.Storage.{Environment}
use ok.Search.Scores.{query_terms}

pub record SearchResult : Type 0 where
  pub source_ref : String
  pub subject : String
  pub date : String
  pub snippet : String

-- the first position of a term that the text holds; 0 if it holds none
unfoldable pub first_positions : List ℕ → List String → Option ℕ
first_positions text [] = none
first_positions text (term ∷ terms) =
    let others = first_positions text terms in
    elim (find text (codes term)) [
      | none ↦ others
      | some i ↦ elim others [ none ↦ some i | some j ↦ some (min i j) ]
    ]

abbrev pub first_index : Option ℕ → ℕ
first_index none = 0
first_index (some i) = i

abbrev pub window : ℕ
window = 160

-- the part of a text around a position, of at most the given width, with marks where it is cut
unfoldable pub cut_snippet : ℕ → String → ℕ → String
cut_snippet width text first =
    let start = first - width / 2 in
    let end = min (start + width) (text_length text) in
    let snippet = strip (take_text (end - start) (drop_text start text)) in
    let front = if ltb 0 start then concat ("... " ∷ snippet ∷ []) else snippet in
    if ltb end (text_length text) then concat (front ∷ " ..." ∷ []) else front

module _ (env : Environment) where
  -- `snippet_for`
  unfoldable pub snippet_for : String → String → Result String
  unfolding first_positions cut_snippet query_terms
  snippet_for text query =
      let normalized = join " " (words text) in
      if normalized == ""
      then return ""
      else (query_terms env query >>= λ terms. return (
          cut_snippet window normalized
            (first_index (first_positions (codes (env.lower normalized)) terms))))
