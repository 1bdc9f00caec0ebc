-- ===== src/Augmentation/Events.antt =====
-- retrieval/augmentation.py: the events that a retrieval stores about itself, and the notes on the
-- last imports.
use ok.Prelude.{
  ℕ, suc, ◌-◌, ◌/◌, String, Bool, not, ◌&&◌, List, [], ◌∷◌, ◌++◌, Option, none, some, ◌==◌, ltb,
  any, concat, join, decimal, select_where, lt_text, Dict, get, put, sort_by, text_length,
  take_text, drop_text, if◌then◌else◌,
}
use ok.Jobs.{JobRun}
use ok.Augmentation.Python.{Floats, Library}
use ok.Augmentation.Rerank.{RetrievalCandidate}

-- a row of `retrieval_query_events`; its time and the duration are not kept
pub record QueryEvent : Type 0 where
  pub event_id : String
  pub status : String
  pub retriever_set : String
  pub requested_limit : ℕ
  pub candidate_limit : ℕ
  pub pre_rerank_candidates : ℕ
  pub keyword_candidates : ℕ
  pub vector_candidates : ℕ
  pub distinct_sources : ℕ
  pub returned_results : ℕ

module _ {F : Type 0} (num : Floats F) where
  -- a row of `retrieval_result_events`, its lists as they are
  pub record ResultEvent : Type 0 where
    pub retrieval_query_event_id : String
    pub rank : ℕ
    pub source_ref : String
    pub source_system : String
    pub record_type : String
    pub score : F
    pub retrievers : List String
    pub rerank_reasons : List String

  pub record Telemetry : Type 0 where
    pub query_events : List QueryEvent
    pub result_events : List ResultEvent

  -- `_record_retrieval_query_event`: the id, or the empty text where the table has it already
  unfoldable pub record_query_event : QueryEvent → Telemetry → String × Telemetry
  record_query_event event t =
      if any (λ old. old.event_id == event.event_id) t.query_events
      then ("", t)
      else (event.event_id, record t { query_events = t.query_events ++ event ∷ [] })

  abbrev pub result_event : String → ℕ → RetrievalCandidate num → ResultEvent
  result_event id rank result = record {
    retrieval_query_event_id = id;
    rank = rank;
    source_ref = result.source_ref;
    source_system = result.source_system;
    record_type = result.record_type;
    score = result.score;
    retrievers = result.retrievers;
    rerank_reasons = result.rerank_reasons;
  }

  unfoldable pub result_events_from : String → ℕ → List (RetrievalCandidate num) → List ResultEvent
  result_events_from id rank [] = []
  result_events_from id rank (result ∷ rest) =
      result_event id rank result ∷ result_events_from id (suc rank) rest

  -- the primary key of the table
  abbrev pub same_result : ResultEvent → ResultEvent → Bool
  same_result a b =
      (a.retrieval_query_event_id == b.retrieval_query_event_id) && (a.source_ref == b.source_ref)

  -- INSERT of rows in one transaction: none where a key would stand twice
  unfoldable pub insert_results : List ResultEvent → List ResultEvent → Option (List ResultEvent)
  insert_results [] table = some table
  insert_results (event ∷ rest) table =
      let inserted = insert_results rest (table ++ event ∷ []) in
      if any (same_result event) table then none else inserted

  abbrev pub result_rows : List ResultEvent → Option (List ResultEvent) → List ResultEvent
  result_rows table none = table
  result_rows table (some rows) = rows

  -- `_record_retrieval_result_events`: an insert that fails is passed over
  unfoldable pub record_result_events :
      String → List (RetrievalCandidate num) → Telemetry → Telemetry
  unfolding result_events_from insert_results
  record_result_events id results t = if id == "" then t else record t {
    result_events =
        result_rows t.result_events
          (insert_results (result_events_from id 1 results) t.result_events);
  }

-- `_relative_age`, by the seconds since then
abbrev age_of : ℕ → String
age_of seconds =
    if ltb seconds 60
    then "just now"
    else if ltb (seconds / 60) 60
    then concat (decimal (seconds / 60) ∷ " min ago" ∷ [])
    else if ltb (seconds / 60 / 60) 24
    then concat (decimal (seconds / 60 / 60) ∷ " h ago" ∷ [])
    else concat (decimal (seconds / 60 / 60 / 24) ∷ " d ago" ∷ [])

abbrev age_or : Option ℕ → String
age_or none = "at unknown time"
age_or (some seconds) = age_of seconds

unfoldable pub relative_age : Library → String → String
unfolding decimal
relative_age lib finished_at = age_or (lib.seconds_since finished_at)

-- `name.removesuffix("-live")`
unfoldable pub without_live : String → String
unfolding take_text drop_text
without_live name =
    let front = text_length name - 5 in
    if (drop_text front name == "-live") && not (ltb (text_length name) 5)
    then take_text front name
    else name

-- `status = 'succeeded' AND finished_at != ''`, by `finished_at DESC, connector_name`
abbrev pub finished_before : JobRun → JobRun → Bool
finished_before a b =
    if a.finished_at == b.finished_at
    then lt_text a.connector_name b.connector_name
    else lt_text b.finished_at a.finished_at

-- `latest_by_source`: the first run of a source
unfoldable pub latest_by_source : Dict String → List JobRun → Dict String
unfolding without_live
latest_by_source d [] = d
latest_by_source d (run ∷ rest) =
    let source = without_live run.connector_name in
    latest_by_source
      (if source == ""
        then d
        else elim (get d source) [ none ↦ put source run.finished_at d | some _ ↦ d ])
      rest

unfoldable pub age_notes : Library → List (String × String) → List String
unfolding relative_age
age_notes lib [] = []
age_notes lib ((source, finished_at) ∷ rest) =
    concat (source ∷ " succeeded " ∷ relative_age lib finished_at ∷ []) ∷ age_notes lib rest

abbrev notes_of : List String → List String
notes_of [] = []
notes_of (n ∷ ns) = concat ("Connector imports: " ∷ join "; " (n ∷ ns) ∷ "." ∷ []) ∷ []

-- `_successful_connector_import_notes`, over the runs of the connectors
unfoldable pub connector_import_notes : Library → List JobRun → List String
unfolding latest_by_source age_notes join sort_by lt_text
connector_import_notes lib runs = notes_of (
    age_notes lib (
      sort_by (λ a b. lt_text a.0 b.0)
        (latest_by_source [] (
          sort_by finished_before (
            select_where (λ run. (run.status == "succeeded") && not (run.finished_at == ""))
              runs)))))
