-- ===== src/Search/Scores.antt =====
-- The terms of a query and the scores of a text against them, of retrieval/search.py.
use ok.Prelude.{
  ℕ, zero, suc, ◌+◌, ◌-◌, String, Bool, true, false, ◌&&◌, ◌||◌, List, [], ◌∷◌, ◌==◌, eqb, ltb, leb,
  length, drop, codes, concat, words, strip, begins, select_where, Result, return, raise,
  value_error, if◌then◌else◌,
}
use Prim.Native.Char.{code}
use ok.Storage.{Environment}

-- `term.strip('"')`, from the front and then from the back
unfoldable pub lstrip_quotes : String → String
lstrip_quotes String.[] = ""
lstrip_quotes (String.◌∷◌ c s) =
    let rest = lstrip_quotes s in if eqb (code c) 34 then rest else String.◌∷◌ c s

unfoldable pub rstrip_quotes : String → String
rstrip_quotes String.[] = ""
rstrip_quotes (String.◌∷◌ c s) =
    let rest = rstrip_quotes s in if eqb (code c) 34 && (rest == "") then "" else String.◌∷◌ c rest

-- `haystack.count(term)`: matches do not overlap, and the empty term stands between all characters
unfoldable pub count_matches : ℕ → List ℕ → List ℕ → ℕ
count_matches zero text part = 0
count_matches (suc fuel) text part = elim text [
  | [] ↦ 0
  | c ∷ rest ↦
      let here = suc (count_matches fuel (drop (length part) (c ∷ rest)) part) in
      let later = count_matches fuel rest part in if begins (c ∷ rest) part then here else later
]

unfoldable pub count_text : List ℕ → List ℕ → ℕ
unfolding count_matches
count_text text [] = suc (length text)
count_text text (p ∷ part) = count_matches (suc (length text)) text (p ∷ part)

unfoldable pub sum_counts : List ℕ → List String → ℕ
sum_counts text [] = 0
sum_counts text (term ∷ terms) = count_text text (codes term) + sum_counts text terms

-- the runs of `[a-z0-9]` in a text
abbrev is_token_char : ℕ → Bool
is_token_char c = (leb 97 c && leb c 122) || (leb 48 c && leb c 57)

abbrev push : ℕ → List (List ℕ) → List (List ℕ)
push c [] = (c ∷ []) ∷ []
push c (t ∷ ts) = (c ∷ t) ∷ ts

unfoldable pub token_runs : List ℕ → List (List ℕ)
token_runs [] = [] ∷ []
token_runs (c ∷ s) = let rest = token_runs s in if is_token_char c then push c rest else [] ∷ rest

-- `re.findall(r"[a-z0-9]+", text)`
unfoldable pub tokens : List ℕ → List (List ℕ)
unfolding token_runs
tokens s = select_where (λ t. ltb 0 (length t)) (token_runs s)

abbrev pub eq_codes : List ℕ → List ℕ → Bool
eq_codes [] [] = true
eq_codes [] (b ∷ ys) = false
eq_codes (a ∷ xs) [] = false
eq_codes (a ∷ xs) (b ∷ ys) = eqb a b && eq_codes xs ys

-- `sum(a != b for a, b in zip(left, right))` of texts of one length
unfoldable pub mismatches : List ℕ → List ℕ → ℕ
mismatches [] ys = 0
mismatches (a ∷ xs) [] = 0
mismatches (a ∷ xs) (b ∷ ys) = (if eqb a b then 0 else 1) + mismatches xs ys

-- The loop over two indices, as a walk down both texts. A mismatch skips a character of the longer.
unfoldable pub walk : List ℕ → List ℕ → ℕ → Bool
walk [] right edits = true
walk (a ∷ left) [] edits = true
walk (a ∷ left) (b ∷ right) edits =
    let same = walk left right edits in
    let skipped = walk left (b ∷ right) (suc edits) in
    if eqb a b then same else if ltb 0 edits then false else skipped

-- `_is_one_edit_away`
unfoldable pub is_one_edit_away : List ℕ → List ℕ → Bool
unfolding mismatches walk
is_one_edit_away left right =
    if ltb 1 ((length left - length right) + (length right - length left))
    then false
    else if eq_codes left right
    then true
    else if eqb (length left) (length right)
    then leb (mismatches left right) 1
    else if ltb (length left) (length right)
    then walk right left 0
    else walk left right 0

-- what a token adds to the score of a term
unfoldable pub token_score : List ℕ → List ℕ → ℕ
unfolding is_one_edit_away
token_score term token =
    if eq_codes token term
    then 4
    else if leb 4 (length token) && is_one_edit_away token term
    then 2
    else if begins token term || begins term token
    then 1
    else 0

unfoldable pub tokens_score : List ℕ → List (List ℕ) → ℕ
tokens_score term [] = 0
tokens_score term (token ∷ rest) = token_score term token + tokens_score term rest

unfoldable pub terms_score : List String → List (List ℕ) → ℕ
terms_score [] ts = 0
terms_score (term ∷ rest) ts =
    (if ltb (length (codes term)) 4 then 0 else tokens_score (codes term) ts) + terms_score rest ts

module _ (env : Environment) where
  unfoldable pub clean_terms : List String → List String
  clean_terms [] = []
  clean_terms (w ∷ ws) = rstrip_quotes (lstrip_quotes (env.lower (strip w))) ∷ clean_terms ws

  -- `query_terms`: the words of a query are not empty, so none is dropped
  unfoldable pub query_terms : String → Result (List String)
  unfolding clean_terms lstrip_quotes rstrip_quotes
  query_terms query = elim (words query) [
    | [] ↦ raise (value_error "Search query must not be empty.")
    | w ∷ ws ↦ return (clean_terms (w ∷ ws))
  ]

  -- `_match_score`
  unfoldable pub match_score : String → String → List String → ℕ
  unfolding sum_counts count_text
  match_score subject body terms =
      sum_counts (codes (env.lower (concat (subject ∷ " " ∷ body ∷ [])))) terms

  -- `_fuzzy_match_score`
  unfoldable pub fuzzy_match_score : String → List String → ℕ
  unfolding tokens terms_score tokens_score token_score
  fuzzy_match_score value terms = terms_score terms (tokens (codes (env.casefold value)))
