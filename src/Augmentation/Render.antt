-- ===== src/Augmentation/Render.antt =====
-- retrieval/augmentation.py, `render_augmentation_block`: the text of a response.
use ok.Prelude.{
  ℕ, suc, String, Bool, ◌||◌, List, [], ◌∷◌, ◌++◌, map, length, ltb, concat, join, decimal, rstrip,
  if◌then◌else◌,
}
use ok.Storage.{Environment}
use ok.Augmentation.Python.{Floats, Library}
use ok.Augmentation.Rerank.{RetrievalCandidate}
use ok.Augmentation.Cards.{result_card_lines}
use ok.Augmentation.People.{RetrievalPerson, RetrievalPeopleBuckets}
use ok.Augmentation.Related.{RelatedFollowUpHint}
use ok.Augmentation.{RetrievalAugmentationResponse}

abbrev is_there : {A : Type 0} → List A → Bool
is_there xs = ltb 0 (length xs)

abbrev query_match_line : RetrievalPerson → String
query_match_line p = concat ("- " ∷ p.name ∷ " (" ∷ p.reason ∷ ") source_ref: " ∷ p.source_ref ∷ [])

abbrev related_line : RetrievalPerson → String
related_line p = concat (
    "- " ∷ p.name ∷ " (" ∷ p.reason ∷ "; related_to: " ∷ p.related_to ∷ ") source_ref: "
    ∷ p.source_ref ∷ [])

-- a heading and its lines, if there are any
abbrev section_lines : String → List String → List String
section_lines heading [] = []
section_lines heading (l ∷ ls) = heading ∷ l ∷ ls

-- `_people_bucket_lines`
unfoldable pub people_bucket_lines : RetrievalPeopleBuckets → List String
people_bucket_lines people =
    "People:"
    ∷ (section_lines "Possible query matches:" (map query_match_line people.possible_query_matches)
        ++ (section_lines "Related people hints:" (map related_line people.related_people)
            ++ "" ∷ []))

module _ {F : Type 0} (num : Floats F) (env : Environment) (lib : Library) where
  -- `_follow_up_hint_lines`, from an index on
  unfoldable pub hint_lines : ℕ → List (RelatedFollowUpHint num) → List String
  unfolding decimal
  hint_lines index [] = []
  hint_lines index (hint ∷ rest) =
      concat ("(" ∷ decimal index ∷ ") " ∷ hint.topic ∷ [])
      ∷ concat ("source_ref: " ∷ hint.source_ref ∷ [])
      ∷ ""
      ∷ hint_lines (suc index) rest

  unfoldable pub card_lines : ℕ → List (RetrievalCandidate num) → List String
  unfolding result_card_lines
  card_lines index [] = []
  card_lines index (result ∷ rest) =
      result_card_lines num lib index result ++ card_lines (suc index) rest

  abbrev no_result_lines : List String
  no_result_lines =
      "No relevant source excerpts found." ∷ ""
      ∷ "This usually means fourok has no imported context yet, the local runtime is not ready, or connectors have not imported data."
      ∷ "" ∷ "Next:" ∷ "  fourok status" ∷ "  fourok onboard" ∷ "" ∷ []

  unfoldable pub result_lines : RetrievalAugmentationResponse num env lib → List String
  unfolding hint_lines card_lines people_bucket_lines decimal
  result_lines response =
      concat (
        "Budget: "
        ∷ decimal response.estimated_tokens
        ∷ "/"
        ∷ decimal response.token_budget
        ∷ " estimated tokens"
        ∷ [])
      ∷ ""
      ∷ ((if is_there response.people.possible_query_matches
              || is_there response.people.related_people
            then people_bucket_lines response.people
            else [])
          ++ (card_lines 1 response.results
              ++ section_lines "You could also be interested in:"
                  (hint_lines 1 response.you_could_also_be_interested_in)))

  -- `render_augmentation_block`
  unfoldable pub render_augmentation_block : RetrievalAugmentationResponse num env lib → String
  unfolding result_lines join rstrip
  render_augmentation_block response =
      let body = if is_there response.results then result_lines response else no_result_lines in
      concat (
        rstrip (
          join "\n" (
            "fourok RETRIEVAL FOR AGENTS"
            ∷ ""
            ∷ "How to use this: Answer from these evidence cards only when relevant. Cite source_ref values for factual claims. Open decisive source_ref values with fourok.open before detailed claims, quotes, or behavioral inferences. If the evidence is weak or incomplete, say so."
            ∷ ""
            ∷ (body
                ++ ("Retrieval notes:"
                    ∷ map (λ note. concat ("- " ∷ note ∷ [])) response.limitations))))
        ∷ "\n"
        ∷ [])
