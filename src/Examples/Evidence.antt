-- ===== src/Examples/Evidence.antt =====
-- An evidence pack over two pages of a thread, and two people of one first name.
use ok.Prelude.{String, ◌≡◌, refl, List, [], ◌∷◌, map, Result, return, raise}
use ok.Json.{dumps, end, field, str}
use ok.Permissions.{local_default}
use ok.Storage.{State, SourceRecordRow, CanonicalObjectRow, test_environment}
use ok.Changes.Governed.{IsGoverned}
use ok.Search.{other}
use ok.Evidence.{EvidencePack, build_evidence_pack}
use ok.Evidence.Buckets.{no_groups}
use ok.Evidence.Buckets.{threads, related_object_groups}
use ok.Evidence.Grouped.{group_of, named, related_object_groups_correct}
use ok.Metadata.{denied_source_refs}
use ok.Governance.{shown_records, SearchContextResponse, search_context}
use ok.Governance.Released.{ShowsReleased, search_context-ShowsOnly}
use ok.Examples.Governance.{page_row, one_page}

abbrev first_page : SourceRecordRow
first_page = record page_row { thread_ref = "wiki:thread:1" }

abbrev second_page : SourceRecordRow
second_page = record page_row {
  source_ref = "wiki:page:2";
  source_id = "2";
  title = "minutes";
  thread_ref = "wiki:thread:1";
}

abbrev person_row : String → String → SourceRecordRow
person_row ref name = record page_row {
  source_ref = ref;
  source_id = ref;
  record_type = "person";
  title = name;
}

abbrev object_of : String → SourceRecordRow → CanonicalObjectRow
object_of type row = record {
  object_ref = row.source_ref;
  object_type = type;
  title = row.title;
  source_refs = dumps (row.source_ref ∷ []);
  metadata_json = end;
  lifecycle_state = "active";
}

abbrev rows : List SourceRecordRow
rows =
    first_page
    ∷ second_page
    ∷ person_row "wiki:person:1" "plan byron"
    ∷ person_row "wiki:person:2" "plan lovelace"
    ∷ []

abbrev objects : List CanonicalObjectRow
objects =
    object_of "Document" first_page
    ∷ object_of "Document" second_page
    ∷ object_of "Person" (person_row "wiki:person:1" "plan byron")
    ∷ object_of "Person" (person_row "wiki:person:2" "plan lovelace")
    ∷ []

-- the first page names one of the people
abbrev pub thread_state : State
thread_state = record one_page {
  source_records = rows;
  canonical_objects = objects;
  entity_links =
      record {
        link_ref = "wiki:page:1->wiki:person:1:author";
        source_ref = "wiki:page:1";
        object_ref = "wiki:person:1";
        relationship_type = "author";
        confidence = 1;
        evidence_json = field "entity_ref" (str "employee:email:byron") end;
        reason = "deterministic_source_identity";
        status = "linked";
      }
      ∷ [];
}

thread_state-IsGoverned : IsGoverned thread_state
thread_state-IsGoverned = record {
  hidden = ((λ p. cc p), ((λ p. cc p), ((λ p. cc p), ((λ p. cc p), tt))));
  inactive = tt;
}

abbrev empty_pack : EvidencePack
empty_pack = record {
  query = "";
  summary = "";
  result_candidates = [];
  evidence_items = [];
  primary_objects = [];
  related_objects = [];
  related_object_groups = no_groups;
  entities = [];
  unresolved_candidates = [];
  limitations = [];
}

abbrev answer_or : Result SearchContextResponse → SearchContextResponse
answer_or (raise e) = record { results = []; evidence = empty_pack; audit_ref = "" }
answer_or (return r) = r

abbrev answer : SearchContextResponse
answer = answer_or (search_context test_environment other [] local_default "plan" 3 thread_state).0

answered :
    (search_context test_environment other [] local_default "plan" 3 thread_state).0 ≡ return answer
unfolding ok.Audit.record_audit_event ok.Context.Links.entity_links ok.Governance.evidence_pack
    ok.Governance.find_results ok.Governance.search_context ok.Json.decode_permission_refs
    ok.Metadata.denied_source_refs ok.Metadata.is_denied
answered = refl

answer_shows :
    (map (λ r. r.object_ref) answer.evidence.related_objects ≡ "wiki:person:1" ∷ "wiki:page:2" ∷ [])
    × (map (λ e. e.entity_ref) answer.evidence.entities ≡ "employee:email:byron" ∷ [])
    × (map (λ c. c.object_ref) answer.evidence.unresolved_candidates
        ≡ "wiki:person:1" ∷ "wiki:person:2" ∷ [])
unfolding ok.Audit.record_audit_event ok.Context.Links.entity_links ok.Governance.evidence_pack
    ok.Governance.find_results ok.Governance.search_context ok.Json.decode_permission_refs
    ok.Metadata.denied_source_refs ok.Metadata.is_denied
answer_shows = (refl, refl, refl)

search_context-ShowsOnly_example :
    ShowsReleased local_default [] thread_state
      (map
        (λ row. row.source_ref)
        (shown_records
          (denied_source_refs local_default [] thread_state.source_records)
          thread_state.source_records))
      answer.results
      answer.evidence
search_context-ShowsOnly_example =
    search_context-ShowsOnly test_environment other [] local_default "plan" 3 thread_state
      thread_state-IsGoverned answered

abbrev pack_or : Result EvidencePack → EvidencePack
pack_or (raise e) = empty_pack
pack_or (return p) = p

abbrev pack : EvidencePack
pack = pack_or (
    build_evidence_pack test_environment "plan" answer.results rows objects
      thread_state.entity_links)

related_object_groups_correct_example :
    group_of threads (related_object_groups pack.related_objects)
    ≡ named threads pack.related_objects
related_object_groups_correct_example = related_object_groups_correct threads pack.related_objects
