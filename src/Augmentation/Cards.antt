-- ===== src/Augmentation/Cards.antt =====
-- retrieval/augmentation.py: the cards of the results, and the results that a budget of tokens holds.
use ok.Prelude.{
  ℕ, zero, suc, ◌+◌, ◌-◌, ◌/◌, String, List, [], ◌∷◌, Option, none, some, ◌==◌, eqb, ltb, leb, max,
  length, codes, begins, drop_text, text_length, concat, join, words, decimal, ◌or◌, ◌&&◌,
  if◌then◌else◌,
}
use ok.Augmentation.Python.{Floats, Library, Moment}
use ok.Augmentation.Rerank.{RetrievalCandidate}

-- `text.replace(part, " ")`, of a part that is not empty; the length of the text is enough fuel
unfoldable pub replace_part : ℕ → List ℕ → String → String
replace_part zero part s = s
replace_part (suc fuel) part String.[] = ""
replace_part (suc fuel) part (String.◌∷◌ c s) =
    let skipped = replace_part fuel part (drop_text (length part) (String.◌∷◌ c s)) in
    let kept = replace_part fuel part s in
    if begins (codes (String.◌∷◌ c s)) part then concat (" " ∷ skipped ∷ []) else String.◌∷◌ c kept

unfoldable pub replace : String → String → String
unfolding replace_part drop_text
replace part s = replace_part (suc (text_length s)) (codes part) s

-- `_display_snippet`
unfoldable pub display_snippet : String → String
unfolding replace join words
display_snippet snippet =
    join " " (words (replace "\\t" (replace "\\n" (replace "\\r\\n" snippet))))

-- `_source_date_label`
abbrev day_label : ℕ → ℕ → String
day_label today day =
    if eqb today day
    then "today"
    else if eqb today (suc day)
    then "yesterday"
    else if ltb day today
    then concat (decimal (today - day) ∷ " days ago" ∷ [])
    else if eqb day (suc today)
    then "tomorrow"
    else concat ("in " ∷ decimal (day - today) ∷ " days" ∷ [])

abbrev moment_label : ℕ → String → Option Moment → String
moment_label today value none = value
moment_label today value (some m) = concat (day_label today m.day ∷ " (" ∷ m.date ∷ ")" ∷ [])

-- `_estimate_tokens`
unfoldable pub estimate_tokens : String → ℕ
estimate_tokens value = max 1 ((text_length value + 3) / 4)

module _ {F : Type 0} (num : Floats F) (lib : Library) where
  unfoldable pub source_date_label : String → String
  unfolding decimal
  source_date_label value =
      if value == "" then "unknown" else moment_label lib.today value (lib.parse_moment value)

  -- `_agent_result_label`
  unfoldable pub agent_result_label : RetrievalCandidate num → String
  unfolding replace
  agent_result_label result = concat (
      (lib.title_case (replace "_" result.source_system) or "Source")
      ∷ " "
      ∷ (replace "_" result.record_type or "record")
      ∷ [])

  -- `_result_card_lines`
  unfoldable pub result_card_lines : ℕ → RetrievalCandidate num → List String
  unfolding agent_result_label source_date_label display_snippet join decimal
  result_card_lines index result =
      concat (
        "["
        ∷ decimal index
        ∷ "] "
        ∷ agent_result_label result
        ∷ " — "
        ∷ (result.title or "(untitled)")
        ∷ [])
      ∷ concat ("source_ref: " ∷ result.source_ref ∷ [])
      ∷ concat
          ("why_relevant: " ∷ (join ", " result.rerank_reasons or "specific source excerpt") ∷ [])
      ∷ concat ("date: " ∷ source_date_label result.occurred_at ∷ [])
      ∷ concat ("evidence: " ∷ display_snippet result.snippet ∷ [])
      ∷ ""
      ∷ []

  unfoldable pub card_tokens : ℕ → RetrievalCandidate num → ℕ
  unfolding result_card_lines estimate_tokens join
  card_tokens index result = estimate_tokens (join "\n" (result_card_lines index result))

  -- The loop of `_select_results_for_token_budget`, with the number of results that are selected and
  -- the tokens that they use.
  unfoldable pub select_within :
      ℕ → ℕ → ℕ → List (RetrievalCandidate num) → List (RetrievalCandidate num)
  unfolding card_tokens
  select_within budget selected used [] = []
  select_within budget selected used (result ∷ rest) =
      let spent = used + card_tokens (suc selected) result in
      let others = select_within budget (suc selected) spent rest in
      if ltb 0 selected && ltb budget spent
      then []
      else if leb budget spent
      then result ∷ []
      else result ∷ others

  -- `_select_results_for_token_budget`
  unfoldable pub select_results_for_token_budget :
      ℕ → List (RetrievalCandidate num) → List (RetrievalCandidate num)
  unfolding select_within
  select_results_for_token_budget budget results = select_within budget 0 0 results

  -- `_estimated_result_tokens`, from an index on
  unfoldable pub tokens_from : ℕ → List (RetrievalCandidate num) → ℕ
  unfolding card_tokens
  tokens_from index [] = 0
  tokens_from index (result ∷ rest) = card_tokens index result + tokens_from (suc index) rest

  unfoldable pub estimated_result_tokens : List (RetrievalCandidate num) → ℕ
  unfolding tokens_from
  estimated_result_tokens results = tokens_from 1 results
