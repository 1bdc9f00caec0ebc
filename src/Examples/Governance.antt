-- ===== src/Examples/Governance.antt =====
-- A search over one page.
use ok.Prelude.{
  ℕ, String, ◌≡◌, refl, ◌≤◌, inl, inr, Bool, true, false, List, [], ◌∷◌, Option, none, some, Result,
  return, raise, All,
}
use ok.Json.{dumps, end, Fields, JsonText}
use ok.Records.{SourceRecord, source_record}
use ok.Permissions.{PrincipalContext, GroupInheritance, local_default}
use ok.Storage.{State, SourceRecordRow, empty_state, test_environment}
use ok.Changes.Governed.{IsGoverned}
use ok.Search.{Dialect, other, SearchRow, search_rows}
use ok.Search.Filtered.{Answers, search_rows-Answers}
use ok.Evidence.{EvidencePack}
use ok.Evidence.Buckets.{no_groups}
use ok.Governance.{SearchContextResponse, search_context}
use ok.Governance.Safe.{Releasable, search_context-Releasable, audited, search_context-audited}

abbrev pub page : SourceRecord
page = record (source_record "wiki:page:1" "wiki" "1" "document") {
  title = "plan";
  body = "launch plan";
}

abbrev pub page_row : SourceRecordRow
page_row = record {
  source_ref = "wiki:page:1";
  source_system = "wiki";
  source_id = "1";
  record_type = "document";
  title = "plan";
  retrieval_text = "launch plan";
  author_ref = "";
  occurred_at = "";
  updated_at = "";
  source_url = "";
  thread_ref = "";
  permission_refs = dumps [];
  permission_snapshot_status = "current";
  attachment_refs = dumps [];
  identity_refs = dumps [];
  lifecycle_state = "active";
  checksum = "digest";
  version = "";
  metadata_json = end;
  raw_ref = "";
}

abbrev pub one_page : State
one_page = record empty_state {
  source_records = page_row ∷ [];
  retrieval_records =
      record {
        retrieval_ref = "wiki:page:1:0";
        source_ref = "wiki:page:1";
        unit_index = 0;
        start_offset = 0;
        end_offset = 11;
        index_kind = "text";
        status = "current";
        source_checksum = "digest";
        prepared_text = "launch plan";
        updated_at = "";
      }
      ∷ [];
}

pub one_page-IsGoverned : IsGoverned one_page
one_page-IsGoverned = record { hidden = ((λ p. cc p), tt); inactive = tt }

abbrev one_pack : EvidencePack
one_pack = record {
  query = "plan";
  summary = "1 evidence item";
  result_candidates =
      record {
        source_ref = "wiki:page:1";
        title = "plan";
        snippet = "launch plan";
        timestamp = "";
        source_url = "";
        record_type = "document";
        source_system = "wiki";
        source_id = "1";
        ranking_reason = "keyword match in permission-filtered retrieval unit";
      }
      ∷ [];
  evidence_items =
      record {
        source_ref = "wiki:page:1";
        source_url = "";
        source_type = "document";
        record_type = "document";
        source_system = "wiki";
        source_id = "1";
        canonical_object_type = "";
        title = "plan";
        snippet = "launch plan";
        timestamp = "";
        updated_timestamp = "";
        linked_entities = [];
        permission_refs = [];
        why_included = "matched permission-filtered retrieval text";
      }
      ∷ [];
  primary_objects = [];
  related_objects = [];
  related_object_groups = no_groups;
  entities = [];
  unresolved_candidates = [];
  limitations =
      "related object expansion is limited to source-backed entity links and threads" ∷ [];
}

abbrev one_result : SearchContextResponse
one_result = record {
  results =
      record { source_ref = "wiki:page:1"; subject = "plan"; date = ""; snippet = "launch plan" }
      ∷ [];
  evidence = one_pack;
  audit_ref = "audit:search:1";
}

answered :
    (search_context test_environment other [] local_default "plan" 3 one_page).0 ≡ return one_result
unfolding ok.Audit.audit_events ok.Audit.record_audit_event ok.Changes.lifecycle_state_by_ref
    ok.Context.Links.entity_links ok.Context.canonical_object_rows ok.Context.entity_link_rows
    ok.Evidence.Buckets.append_in ok.Evidence.Buckets.bucket_of ok.Evidence.Buckets.group_objects
    ok.Evidence.Buckets.related_object_groups ok.Evidence.Entities.display_name
    ok.Evidence.Entities.entities ok.Evidence.Entities.entity_refs ok.Evidence.Entities.put_link
    ok.Evidence.Entities.put_links ok.Evidence.Entities.put_results ok.Evidence.Objects.decoded_list
    ok.Evidence.Objects.entity_ref ok.Evidence.Objects.json_list ok.Evidence.Objects.links_of
    ok.Evidence.Objects.object_by_source_ref ok.Evidence.Objects.put_visible
    ok.Evidence.Objects.records_of_thread ok.Evidence.Objects.source_by_ref
    ok.Evidence.Objects.source_record_for_ref ok.Evidence.Objects.visible_links
    ok.Evidence.People.all_ambiguous ok.Evidence.People.ambiguous ok.Evidence.People.candidates_of
    ok.Evidence.People.person_dedupe_key ok.Evidence.People.preferred_before
    ok.Evidence.People.preferred_person ok.Evidence.People.put_person
    ok.Evidence.People.source_priority ok.Evidence.People.term_runs ok.Evidence.People.text_terms
    ok.Evidence.People.unresolved_candidates ok.Evidence.People.unresolved_of_terms
    ok.Evidence.People.visit_named ok.Evidence.People.visit_people ok.Evidence.Related.add_at
    ok.Evidence.Related.add_linked_entities ok.Evidence.Related.add_linked_object
    ok.Evidence.Related.add_linked_objects ok.Evidence.Related.add_of_source
    ok.Evidence.Related.add_project ok.Evidence.Related.add_results ok.Evidence.Related.add_thread
    ok.Evidence.Related.most_confident ok.Evidence.Related.related_objects
    ok.Evidence.Related.relationship_types ok.Evidence.build_evidence_pack ok.Evidence.evidence_item
    ok.Evidence.evidence_items ok.Evidence.pack_of ok.Evidence.primary_object
    ok.Evidence.primary_objects ok.Evidence.result_candidate ok.Evidence.source_type
    ok.Evidence.summary ok.Governance.evidence_pack ok.Governance.find_results ok.Governance.respond
    ok.Governance.search_context ok.Governance.search_result ok.Governance.search_results
    ok.Governance.shown_records ok.Jobs.checkpoint_of ok.Jobs.connector_checkpoint ok.Jobs.input_of
    ok.Jobs.insert_run ok.Jobs.start_connector_job ok.Json.decode_json_string_list
    ok.Json.decode_permission_refs ok.Lifecycle.remove_source_from_retrieval
    ok.Metadata.denied_source_refs ok.Metadata.is_denied ok.Metadata.source_record_rows
    ok.Permissions.expand ok.Permissions.principal_permission_refs
    ok.Permissions.transitive_group_refs ok.Permissions.visit ok.Prelude.decimal
    ok.Prelude.decimal_fuel ok.Prelude.drop_text ok.Prelude.find ok.Prelude.get ok.Prelude.group_by
    ok.Prelude.index_by ok.Prelude.insert_by ok.Prelude.is_part ok.Prelude.join ok.Prelude.lstrip
    ok.Prelude.lt_codes ok.Prelude.lt_text ok.Prelude.pieces ok.Prelude.pop ok.Prelude.put
    ok.Prelude.rstrip ok.Prelude.sort_by ok.Prelude.sorted_set ok.Prelude.strip ok.Prelude.take_text
    ok.Prelude.values ok.Prelude.words ok.Records.effective_lifecycle_state
    ok.Records.lifecycle_reason ok.Search.Scores.clean_terms ok.Search.Scores.count_matches
    ok.Search.Scores.count_text ok.Search.Scores.fuzzy_match_score ok.Search.Scores.is_one_edit_away
    ok.Search.Scores.lstrip_quotes ok.Search.Scores.match_score ok.Search.Scores.mismatches
    ok.Search.Scores.query_terms ok.Search.Scores.rstrip_quotes ok.Search.Scores.sum_counts
    ok.Search.Scores.terms_score ok.Search.Scores.token_runs ok.Search.Scores.token_score
    ok.Search.Scores.tokens ok.Search.Scores.tokens_score ok.Search.Scores.walk
    ok.Search.Snippets.cut_snippet ok.Search.Snippets.first_positions ok.Search.Snippets.snippet_for
    ok.Search.best_rows ok.Search.candidates ok.Search.exact_rows ok.Search.fuzzy_rows
    ok.Search.insert_scored ok.Search.postgres_rows ok.Search.search_rows ok.Search.sort_scored
    ok.Search.strip_title ok.Search.unit_candidates
answered = refl

search_context-Releasable_example :
    All (λ r. Releasable local_default [] one_page r.source_ref) one_result.results × (1 ≤ 3)
search_context-Releasable_example =
    search_context-Releasable test_environment other [] local_default "plan" 3 one_page
      one_page-IsGoverned answered

search_context-audited_example :
    (search_context test_environment other [] local_default "plan" 3 one_page).1
    ≡ audited test_environment local_default "plan" one_result.results one_page
search_context-audited_example =
    search_context-audited test_environment other [] local_default "plan" 3 one_page answered

abbrev found_page : SearchRow
found_page = record {
  source_ref = "wiki:page:1";
  subject = "plan";
  body = "launch plan";
  date = "";
}

found :
    search_rows test_environment other "plan" 3 ("wiki:page:2" ∷ []) one_page
    ≡ return (found_page ∷ [])
unfolding ok.Prelude.decimal ok.Prelude.decimal_fuel ok.Prelude.drop_text ok.Prelude.lstrip
    ok.Prelude.lt_codes ok.Prelude.lt_text ok.Prelude.pieces ok.Prelude.rstrip ok.Prelude.strip
    ok.Prelude.words ok.Search.Scores.clean_terms ok.Search.Scores.count_matches
    ok.Search.Scores.count_text ok.Search.Scores.fuzzy_match_score ok.Search.Scores.is_one_edit_away
    ok.Search.Scores.lstrip_quotes ok.Search.Scores.match_score ok.Search.Scores.mismatches
    ok.Search.Scores.query_terms ok.Search.Scores.rstrip_quotes ok.Search.Scores.sum_counts
    ok.Search.Scores.terms_score ok.Search.Scores.token_runs ok.Search.Scores.token_score
    ok.Search.Scores.tokens ok.Search.Scores.tokens_score ok.Search.Scores.walk ok.Search.best_rows
    ok.Search.candidates ok.Search.exact_rows ok.Search.fuzzy_rows ok.Search.insert_scored
    ok.Search.postgres_rows ok.Search.search_rows ok.Search.sort_scored ok.Search.strip_title
    ok.Search.unit_candidates
found = refl

search_rows-Answers_example : Answers ("wiki:page:2" ∷ []) one_page 3 (found_page ∷ [])
search_rows-Answers_example =
    search_rows-Answers test_environment other "plan" 3 ("wiki:page:2" ∷ []) one_page found
