-- ===== src/Augmentation.antt =====
-- retrieval/augmentation.py, `retrieve_augmentation`: the retrieval of source excerpts for agents.
pub mod Python
pub mod Excerpts
pub mod Stripped
pub mod Vectors
pub mod Candidates
pub mod Rerank
pub mod Cards
pub mod Budget
pub mod Diverse
pub mod People
pub mod Contexts
pub mod Leads
pub mod Short
pub mod Related
pub mod Hints
pub mod Events
pub mod Recorded
pub mod Unfiltered
pub mod Answered
pub mod Render
pub mod Inspection
use ok.Prelude.{
  ℕ, ◌+◌, String, Bool, true, false, not, List, [], ◌∷◌, ◌++◌, map, Option, none, some, ◌==◌, ltb,
  length, contains, concat, join, Result, return, raise, Error, ◌>>=◌, if◌then◌else◌,
}
use ok.Storage.{
  State, SourceRecordRow, CanonicalObjectRow, EntityLinkRow, EmbeddingRow, Environment,
}
use ok.Jobs.{JobRun}
use ok.Search.{Dialect, SearchRow, search_rows}
use ok.Augmentation.Python.{Floats, Library}
use ok.Augmentation.Vectors.{RankedRow, vector_rows}
use ok.Augmentation.Candidates.{Candidate, merge_ranked_rows, apply_graph_link_metrics}
use ok.Augmentation.Rerank.{RetrievalCandidate, rank_and_diversify}
use ok.Augmentation.Cards.{select_results_for_token_budget, estimated_result_tokens}
use ok.Augmentation.People.{RetrievalPeopleBuckets, people_buckets}
use ok.Augmentation.Related.{RelatedFollowUpHint, related_follow_up_hints}
use ok.Augmentation.Events.{
  QueryEvent, Telemetry, record_query_event, record_result_events, connector_import_notes,
}

-- the arguments of a retrieval, the id that it would give its event, and the tables that the state
-- of the governed context does not hold; the tables of objects and links may be left out
pub record Request : Type 0 where
  pub event_id : String
  pub query : String
  pub token_budget : ℕ
  pub candidate_limit : ℕ
  pub retrievers : List String
  pub canonical_objects : Option (List CanonicalObjectRow)
  pub entity_links : Option (List EntityLinkRow)
  pub job_runs : List JobRun

-- a row of the keyword search, which has no index of a unit
abbrev pub keyword_row : SearchRow → RankedRow
keyword_row row = record {
  source_ref = row.source_ref;
  unit_index = 0;
  subject = row.subject;
  body = row.body;
  date = row.date;
}

-- the number of different refs
unfoldable pub count_distinct : List String → ℕ
count_distinct [] = 0
count_distinct (ref ∷ rest) = (if contains rest ref then 0 else 1) + count_distinct rest

-- the event of a retrieval that failed
abbrev pub query_event : Request → String → ℕ → QueryEvent
query_event request status keyword_count = record {
  event_id = request.event_id;
  status = status;
  retriever_set = join "," request.retrievers;
  requested_limit = request.token_budget;
  candidate_limit = request.candidate_limit;
  pre_rerank_candidates = 0;
  keyword_candidates = keyword_count;
  vector_candidates = 0;
  distinct_sources = 0;
  returned_results = 0;
}

abbrev table_or_new : Option (List EmbeddingRow) → List EmbeddingRow
table_or_new none = []
table_or_new (some rows) = rows

-- the table that the vector index creates where there is none
abbrev pub with_index : Request → State → State
with_index request s =
    if contains request.retrievers "vector"
    then record s { chunk_embeddings = some (table_or_new s.chunk_embeddings) }
    else s

module _ {F : Type 0} (num : Floats F) (env : Environment) (lib : Library) where
  pub record RetrievalAugmentationResponse : Type 0 where
    pub status : String
    pub results : List (RetrievalCandidate num)
    pub limitations : List String
    pub people : RetrievalPeopleBuckets
    pub you_could_also_be_interested_in : List (RelatedFollowUpHint num)
    pub token_budget : ℕ
    pub estimated_tokens : ℕ
    pub candidate_count : ℕ
    pub retrieval_event_id : String

  -- what the retrievers have found
  pub record Retrieved : Type 0 where
    pub candidates : List (Candidate num)
    pub keyword_count : ℕ
    pub vector_count : ℕ
    pub limitations : List String

  -- the rows of the keyword search, if it is asked for
  abbrev pub keyword_rows : Dialect → Request → State → Result (List SearchRow)
  keyword_rows dialect request s =
      if contains request.retrievers "keyword"
      then search_rows env dialect request.query request.candidate_limit [] s
      else return []

  -- the candidates of both searches
  unfoldable pub retrieved : Request → State → List SearchRow → Retrieved
  unfolding merge_ranked_rows vector_rows
  retrieved request s rows =
      let by_keyword =
        merge_ranked_rows num env lib request.query "keyword" s.source_records 1
          (map keyword_row rows) [] in
      let found =
        if contains request.retrievers "vector"
        then vector_rows num request.query request.candidate_limit s
        else [] in
      record {
        candidates =
            merge_ranked_rows num env lib request.query "vector" s.source_records 1 found
              by_keyword;
        keyword_count = length rows;
        vector_count = length found;
        limitations =
            if contains request.retrievers "vector"
            then (if ltb 0 (length found)
                then []
                else "Semantic/vector candidates were unavailable or empty." ∷ [])
            else [];
      }

  abbrev searched_note : Request → String
  searched_note request =
      concat ("Searched " ∷ join " and " request.retrievers ∷ " candidates." ∷ [])

  abbrev result_notes : Request → List (RetrievalCandidate num) → List String
  result_notes request [] =
      searched_note request ∷ "No relevant source excerpts found for the selected retrievers." ∷ []
  result_notes request (r ∷ rest) = searched_note request ∷ []

  -- the results that are returned, of the candidates
  unfoldable pub ranked_results : Request → Retrieved → List (RetrievalCandidate num)
  unfolding rank_and_diversify apply_graph_link_metrics
  ranked_results request found =
      rank_and_diversify num env request.query
        (apply_graph_link_metrics num request.entity_links found.candidates)

  unfoldable pub selected_results : Request → Retrieved → List (RetrievalCandidate num)
  unfolding ranked_results select_results_for_token_budget
  selected_results request found =
      select_results_for_token_budget num lib request.token_budget (ranked_results request found)

  -- the event of a retrieval that succeeded
  abbrev pub succeeded_event : Request → Retrieved → QueryEvent
  succeeded_event request found = record {
    event_id = request.event_id;
    status = "succeeded";
    retriever_set = join "," request.retrievers;
    requested_limit = request.token_budget;
    candidate_limit = request.candidate_limit;
    pre_rerank_candidates = length found.candidates;
    keyword_candidates = found.keyword_count;
    vector_candidates = found.vector_count;
    distinct_sources = count_distinct (map (λ (c : Candidate num). c.source_ref) found.candidates);
    returned_results = length (selected_results request found);
  }

  unfoldable pub response_of : Request → State → Retrieved → String → RetrievalAugmentationResponse
  unfolding selected_results people_buckets related_follow_up_hints connector_import_notes
      estimated_result_tokens
  response_of request s found event_id =
      let ranked = ranked_results request found in
      let results = selected_results request found in
      record {
        status = "ok";
        results = results;
        limitations =
            found.limitations
            ++ (result_notes request results
                ++ ("Results are source excerpts, not a final answer."
                    ∷ connector_import_notes lib request.job_runs));
        people =
            people_buckets env lib num s.source_records request.query ranked results
              request.entity_links;
        you_could_also_be_interested_in =
            related_follow_up_hints num env s.source_records request.canonical_objects
              request.entity_links ranked results;
        token_budget = request.token_budget;
        estimated_tokens = estimated_result_tokens num lib results;
        candidate_count = length ranked;
        retrieval_event_id = event_id;
      }

  -- what follows the searches: the response, and the events of the query and of its results
  unfoldable pub finish :
      Request
      → State
      → Result (List SearchRow)
      → Telemetry num
      → Result RetrievalAugmentationResponse × Telemetry num
  unfolding retrieved response_of count_distinct record_query_event record_result_events
  finish request s (raise e) t =
      (raise e, (record_query_event num (query_event request "failed" 0) t).1)
  finish request s (return rows) t =
      let found = retrieved request s rows in
      let (event_id, logged) = record_query_event num (succeeded_event request found) t in
      (
        return (response_of request s found event_id),
        record_result_events num event_id (selected_results request found) logged,
      )

  -- the answer to a budget that holds nothing
  abbrev pub no_budget_response : Request → RetrievalAugmentationResponse
  no_budget_response request = record {
    status = "ok";
    results = [];
    limitations = "Token budget was below 1, so no source excerpts were returned." ∷ [];
    people = record { possible_query_matches = []; related_people = [] };
    you_could_also_be_interested_in = [];
    token_budget = request.token_budget;
    estimated_tokens = 0;
    candidate_count = 0;
    retrieval_event_id = "";
  }

  -- `retrieve_augmentation`
  unfoldable pub retrieve_augmentation :
      Dialect
      → Request
      → State
      → Telemetry num
      → Result RetrievalAugmentationResponse × State × Telemetry num
  unfolding finish search_rows record_query_event
  retrieve_augmentation dialect request s t =
      if ltb request.token_budget 1
      then (
        return (no_budget_response request),
        s,
        (record_query_event num (query_event request "succeeded" 0) t).1,
      )
      else elim (keyword_rows dialect request s) [
        | raise e ↦ let (answer, logged) = finish request s (raise e) t in (answer, s, logged)
        | return rows ↦
            let (answer, logged) = finish request (with_index request s) (return rows) t in
            (answer, with_index request s, logged)
      ]
