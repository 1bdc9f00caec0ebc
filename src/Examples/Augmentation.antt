-- ===== src/Examples/Augmentation.antt =====
-- A retrieval of excerpts over two pages of a thread.
use ok.Prelude.{
  ℕ, ◌+◌, ◌*◌, ◌≤◌, String, ◌≡◌, refl, inl, inr, [], ◌∷◌, map, Option, none, some, arith, ltb, ◌==◌,
  strip, Bool-cases, All, Distinct, length, Result, return, raise, if◌then◌else◌,
}
use ok.Storage.{test_environment}
use ok.Search.{other}
use ok.Augmentation.{Request, RetrievalAugmentationResponse, keyword_rows, retrieve_augmentation}
use ok.Augmentation.Python.{Floats, Library, MatchesInside}
use ok.Augmentation.Excerpts.{cut_all, title_prefixes, snippet_without_title_prefix}
use ok.Augmentation.Rerank.{RetrievalCandidate}
use ok.Augmentation.Cards.{select_results_for_token_budget}
use ok.Augmentation.Events.{Telemetry, record_result_events}
use ok.Augmentation.Related.{related_follow_up_hints}
use ok.Augmentation.Stripped.{Bare, snippet_without_title_prefix_ends}
use ok.Augmentation.Inspection.{InspectionRequest, inspect_source}
use ok.Augmentation.Inspection.Seen.{Told, inspect_source-Told}
use ok.Augmentation.Budget.{Fills, select_results_for_token_budget-Fills}
use ok.Augmentation.Hints.{IsFollowUp, related_follow_up_hints-IsFollowUp}
use ok.Augmentation.Recorded.{record_result_events_all_or_none}
use ok.Augmentation.Unfiltered.{with_permissions, keyword_rows-with_permissions}
use ok.Augmentation.Answered.{Bounded, retrieve_augmentation-Bounded}
use ok.Examples.Evidence.{thread_state}

-- whole numbers in place of floats
abbrev whole : Floats ℕ
whole = record {
  lit = λ s. 1;
  plus = λ a b. a + b;
  times = λ a b. a * b;
  inverse = λ n. 1;
  log1p = λ n. n;
  less = ltb;
  round = λ digits x. x;
  similarity = λ query vector. 1;
}

-- a match of a prefix of one character
unfoldable match_one : String → String → Option ℕ
match_one prefix String.[] = none
match_one prefix (String.◌∷◌ c s) = if prefix == String.◌∷◌ c String.[] then some 1 else none

abbrev simple : Library
simple = record {
  match_prefix = match_one;
  word_runs = λ text. [];
  title_case = λ text. text;
  parse_moment = λ text. none;
  seconds_since = λ text. none;
  today = 0;
}

simple-MatchesInside : MatchesInside simple
unfolding match_one
simple-MatchesInside prefix String.[] n e = cc
simple-MatchesInside prefix (String.◌∷◌ c s) n e =
    elim (Bool-cases (prefix == String.◌∷◌ c String.[])) [
      | inl same ↦ let one : 1 ≡ n = cc (rw same at e) in rw (← one) (omega arith, omega arith)
      | inr differ ↦ cc (rw differ at e)
    ]

abbrev request : Request
request = record {
  event_id = "event:1";
  query = "plan";
  token_budget = 60;
  candidate_limit = 10;
  retrievers = "keyword" ∷ [];
  canonical_objects = none;
  entity_links = none;
  job_runs = [];
}

abbrev no_telemetry : Telemetry whole
no_telemetry = record { query_events = []; result_events = [] }

abbrev no_response : RetrievalAugmentationResponse whole test_environment simple
no_response = record {
  status = "";
  results = [];
  limitations = [];
  people = record { possible_query_matches = []; related_people = [] };
  you_could_also_be_interested_in = [];
  token_budget = 0;
  estimated_tokens = 0;
  candidate_count = 0;
  retrieval_event_id = "";
}

abbrev response_or :
    Result (RetrievalAugmentationResponse whole test_environment simple)
    → RetrievalAugmentationResponse whole test_environment simple
response_or (raise e) = no_response
response_or (return r) = r

abbrev response : RetrievalAugmentationResponse whole test_environment simple
response =
    response_or
      (retrieve_augmentation whole test_environment simple other request thread_state
        no_telemetry).0

answered :
    (retrieve_augmentation whole test_environment simple other request thread_state no_telemetry).0
    ≡ return response
unfolding retrieve_augmentation
answered = refl

answer_shows : map (λ r. r.source_ref) response.results ≡ "wiki:page:1" ∷ []
unfolding retrieve_augmentation match_one
answer_shows = refl

retrieve_augmentation-Bounded_example : Bounded whole test_environment simple request response
retrieve_augmentation-Bounded_example =
    retrieve_augmentation-Bounded whole test_environment simple other request thread_state
      no_telemetry answered

keyword_rows-with_permissions_example :
    keyword_rows whole test_environment simple other request
      (with_permissions (λ row. none) thread_state)
    ≡ keyword_rows whole test_environment simple other request thread_state
keyword_rows-with_permissions_example =
    keyword_rows-with_permissions whole test_environment simple (λ row. none) other request
      thread_state

abbrev result : String → RetrievalCandidate whole
result ref = record {
  source_ref = ref;
  source_system = "wiki";
  record_type = "document";
  title = "plan";
  occurred_at = "";
  snippet = "launch plan";
  score = 1;
  retrievers = [];
  permission_refs = [];
  rerank_reasons = [];
  unit_index = 0;
}

select_results_for_token_budget-Fills_example :
    Fills whole simple 60 (result "wiki:page:1" ∷ result "wiki:page:2" ∷ []) (
      select_results_for_token_budget whole simple 60
        (result "wiki:page:1" ∷ result "wiki:page:2" ∷ []))
select_results_for_token_budget-Fills_example =
    select_results_for_token_budget-Fills whole simple 60
      (result "wiki:page:1" ∷ result "wiki:page:2" ∷ [])

record_result_events_all_or_none_example :
    (record_result_events whole "event:1"
      (result "wiki:page:1" ∷ result "wiki:page:1" ∷ [])
      no_telemetry).result_events
    ≡ []
record_result_events_all_or_none_example =
    record_result_events_all_or_none whole "event:1"
      (result "wiki:page:1" ∷ result "wiki:page:1" ∷ []) no_telemetry refl refl

snippet_without_title_prefix_ends_example :
    (snippet_without_title_prefix simple "p p launch" "p" "wiki:page:1"
      ≡ cut_all simple 20 (title_prefixes "p" "wiki:page:1") "p p launch")
    × Bare simple simple-MatchesInside
        (title_prefixes "p" "wiki:page:1")
        (snippet_without_title_prefix simple "p p launch" "p" "wiki:page:1")
unfolding strip
snippet_without_title_prefix_ends_example =
    snippet_without_title_prefix_ends simple simple-MatchesInside "p p launch" "p" "wiki:page:1" 20
      (omega arith)

related_follow_up_hints-IsFollowUp_example :
    All
      (IsFollowUp whole thread_state.source_records none none
        (result "wiki:page:1" ∷ result "wiki:page:2" ∷ [])
        (result "wiki:page:1" ∷ []))
      (related_follow_up_hints whole test_environment thread_state.source_records none none
        (result "wiki:page:1" ∷ result "wiki:page:2" ∷ [])
        (result "wiki:page:1" ∷ []))
    × Distinct
        (λ a b. a.source_ref == b.source_ref)
        (related_follow_up_hints whole test_environment thread_state.source_records none none
          (result "wiki:page:1" ∷ result "wiki:page:2" ∷ [])
          (result "wiki:page:1" ∷ []))
    × (length (
          related_follow_up_hints whole test_environment thread_state.source_records none none
            (result "wiki:page:1" ∷ result "wiki:page:2" ∷ [])
            (result "wiki:page:1" ∷ []))
        ≤ 5)
related_follow_up_hints-IsFollowUp_example =
    related_follow_up_hints-IsFollowUp whole test_environment thread_state.source_records none none
      (result "wiki:page:1" ∷ result "wiki:page:2" ∷ []) (result "wiki:page:1" ∷ [])

abbrev look : InspectionRequest
look = record {
  source_ref = " wiki:page:1 ";
  retrieval_event_id = some "event:1";
  rank = none;
  principal = none;
  new_id = "inspection:1";
}

inspect_source-Told_example :
    Told whole look [] thread_state.source_records []
      (inspect_source whole look thread_state.source_records [] [])
inspect_source-Told_example = inspect_source-Told whole look [] thread_state.source_records []
