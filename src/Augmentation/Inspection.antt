-- ===== src/Augmentation/Inspection.antt =====
-- retrieval/inspection.py, `inspect_source`: the reading of one source, and its event.
pub mod Seen
use ok.Prelude.{
  ℕ, String, Bool, true, false, not, ◌&&◌, List, [], ◌∷◌, ◌++◌, Option, none, some, ◌==◌, any,
  first, select_where, strip, Result, return, raise, value_error, integrity_error, if◌then◌else◌,
}
use ok.Permissions.{PrincipalContext, local_default}
use ok.Storage.{SourceRecordRow}
use ok.Augmentation.Python.{Floats}
use ok.Augmentation.Events.{ResultEvent}

-- a row of `retrieval_inspection_events`; its time is not kept
pub record InspectionEvent : Type 0 where
  pub event_id : String
  pub retrieval_query_event_id : String
  pub source_ref : String
  pub rank : Option ℕ
  pub source_system : String
  pub record_type : String
  pub human_id : String
  pub agent_id : String

-- what is shown of a source
pub record InspectedSource : Type 0 where
  pub source_ref : String
  pub source_system : String
  pub source_id : String
  pub record_type : String
  pub title : String
  pub occurred_at : String
  pub updated_at : String
  pub source_url : String
  pub thread_ref : String
  pub text : String
  pub inspection_event_id : String
  pub rank : Option ℕ

-- the answers, by their status
pub data Inspection : Type 0 where
  not_found : String → Inspection
  inactive : String → String → Inspection
  inspected : InspectedSource → Inspection

-- the arguments of an inspection; `new_id` is the id that its event gets
pub record InspectionRequest : Type 0 where
  pub source_ref : String
  pub retrieval_event_id : Option String
  pub rank : Option ℕ
  pub principal : Option PrincipalContext
  pub new_id : String

abbrev pub text_or_empty : Option String → String
text_or_empty none = ""
text_or_empty (some s) = s

abbrev pub principal_or_default : Option PrincipalContext → PrincipalContext
principal_or_default none = local_default
principal_or_default (some p) = p

abbrev pub inspection_event :
    InspectionRequest → String → Option ℕ → SourceRecordRow → InspectionEvent
inspection_event request ref rank row = record {
  event_id = request.new_id;
  retrieval_query_event_id = text_or_empty request.retrieval_event_id;
  source_ref = ref;
  rank = rank;
  source_system = row.source_system;
  record_type = row.record_type;
  human_id = (principal_or_default request.principal).human_id;
  agent_id = (principal_or_default request.principal).agent_id;
}

abbrev pub inspected_source : String → Option ℕ → String → SourceRecordRow → InspectedSource
inspected_source ref rank event_id row = record {
  source_ref = ref;
  source_system = row.source_system;
  source_id = row.source_id;
  record_type = row.record_type;
  title = row.title;
  occurred_at = row.occurred_at;
  updated_at = row.updated_at;
  source_url = row.source_url;
  thread_ref = row.thread_ref;
  text = row.retrieval_text;
  inspection_event_id = event_id;
  rank = rank;
}

-- `_record_retrieval_inspection_event`, under the primary key
unfoldable pub record_inspection_event :
    InspectionEvent → List InspectionEvent → Result String × List InspectionEvent
record_inspection_event event events =
    if any (λ old. old.event_id == event.event_id) events
    then (raise integrity_error, events)
    else (return event.event_id, events ++ event ∷ [])

module _ {F : Type 0} (num : Floats F) where
  abbrev rank_of_event : Option (ResultEvent num) → Option ℕ
  rank_of_event none = none
  rank_of_event (some event) = some event.rank

  -- `_retrieval_result_rank`
  unfoldable pub retrieval_result_rank : String → String → List (ResultEvent num) → Option ℕ
  retrieval_result_rank event_id ref results = rank_of_event (
      first (
        select_where (λ e. (e.retrieval_query_event_id == event_id) && (e.source_ref == ref))
          results))

  -- the rank that the caller gives, or the one of the result of the retrieval
  unfoldable pub inferred_rank : InspectionRequest → String → List (ResultEvent num) → Option ℕ
  unfolding retrieval_result_rank
  inferred_rank request ref results = elim request.rank [
    | some rank ↦ some rank
    | none ↦
        let event_id = text_or_empty request.retrieval_event_id in
        if event_id == "" then none else retrieval_result_rank event_id ref results
  ]

  -- the answer behind the insertion of the event
  abbrev pub answer_inspected :
      String
      → Option ℕ
      → SourceRecordRow
      → Result String × List InspectionEvent
      → Result Inspection × List InspectionEvent
  answer_inspected ref rank row (raise e, events) = (raise e, events)
  answer_inspected ref rank row (return event_id, events) =
      (return (inspected (inspected_source ref rank event_id row)), events)

  -- the answer on the row that was found
  unfoldable pub inspect_row :
      InspectionRequest
      → String
      → List (ResultEvent num)
      → List InspectionEvent
      → Option SourceRecordRow
      → Result Inspection × List InspectionEvent
  unfolding inferred_rank record_inspection_event
  inspect_row request ref results events none = (return (not_found ref), events)
  inspect_row request ref results events (some row) =
      if row.lifecycle_state == "active"
      then answer_inspected ref (inferred_rank request ref results) row (
          record_inspection_event
            (inspection_event request ref (inferred_rank request ref results) row) events)
      else (return (inactive ref row.lifecycle_state), events)

  -- `inspect_source`
  unfoldable pub inspect_source :
      InspectionRequest
      → List SourceRecordRow
      → List (ResultEvent num)
      → List InspectionEvent
      → Result Inspection × List InspectionEvent
  unfolding inspect_row strip
  inspect_source request rows results events =
      let ref = strip request.source_ref in
      if ref == ""
      then (raise (value_error "source_ref is required"), events)
      else inspect_row request ref results events
          (first (select_where (λ row. row.source_ref == ref) rows))
