-- ===== src/Governance.antt =====
-- governance/context.py: the search of `GovernedContext`, from the query to the audit trail and the
-- evidence pack.
pub mod Answers
pub mod Safe
pub mod Released
use ok.Prelude.{
  ℕ, String, Bool, not, ◌&&◌, List, [], ◌∷◌, map, ◌==◌, length, contains, concat, decimal,
  select_where, Result, return, raise, ◌>>=◌,
}
use ok.Permissions.{PrincipalContext, GroupInheritance}
use ok.Storage.{State, SourceRecordRow, Environment}
use ok.Audit.{AuditValues, no_values, record_audit_event}
use ok.Metadata.{denied_source_refs, source_record_rows}
use ok.Context.{canonical_object_rows, entity_link_rows}
use ok.Evidence.{EvidencePack, build_evidence_pack}
use ok.Search.{SearchRow, Dialect, search_rows}
use ok.Search.Snippets.{SearchResult, snippet_for}

module _ (env : Environment) where
  unfoldable pub search_result : String → SearchRow → Result SearchResult
  search_result query row = snippet_for env row.body query >>= λ snippet. return (record {
    source_ref = row.source_ref;
    subject = row.subject;
    date = row.date;
    snippet = snippet;
  })

  unfoldable pub search_results : String → List SearchRow → Result (List SearchResult)
  search_results query [] = return []
  search_results query (row ∷ rows) =
      search_result query row >>= λ r. search_results query rows >>= λ rs. return (r ∷ rs)

  -- the rows of the search as results
  unfoldable pub find_results :
      Dialect → String → ℕ → List String → State → Result (List SearchResult)
  unfolding search_results search_result snippet_for search_rows
  find_results dialect query limit denied s =
      search_rows env dialect query limit denied s >>= search_results query

-- The answer; the fields of the evidence pack stand in it by themselves.
pub record SearchContextResponse : Type 0 where
  pub results : List SearchResult
  pub evidence : EvidencePack
  pub audit_ref : String

abbrev result_refs : List SearchResult → List String
result_refs = map (λ r. r.source_ref)

-- what the two events of a search record
abbrev pub search_values : String → List SearchResult → AuditValues
search_values query results = record no_values {
  query = query;
  result_count = length results;
  source_refs = result_refs results;
}

-- an event for the access to the sources, if any was found
abbrev pub record_access :
    Environment → PrincipalContext → String → List SearchResult → State → State
record_access env principal query [] s = s
record_access env principal query (r ∷ rest) s =
    (record_audit_event env "source_access" principal
      (record (search_values query (r ∷ rest)) { decision = "allowed" }) s).1

-- the source records that the evidence pack is built from
unfoldable pub shown_records : List String → List SourceRecordRow → List SourceRecordRow
unfolding source_record_rows
shown_records denied rows =
    select_where (λ row. not (contains denied row.source_ref) && (row.lifecycle_state == "active"))
      (source_record_rows rows)

-- the evidence pack of the results, over what the state holds
unfoldable pub evidence_pack :
    Environment → List String → String → List SearchResult → State → Result EvidencePack
unfolding build_evidence_pack shown_records canonical_object_rows entity_link_rows
evidence_pack env denied query results s =
    build_evidence_pack env query results (shown_records denied s.source_records)
      (canonical_object_rows s.canonical_objects) (entity_link_rows s.entity_links)

-- The response to the results, and the events that go with it. An error of the search leaves no
-- event; one of the evidence pack comes after the events.
unfoldable pub respond :
    Environment
    → List String
    → PrincipalContext
    → String
    → Result (List SearchResult)
    → State
    → Result SearchContextResponse × State
respond env denied principal query (raise e) s = (raise e, s)
respond env denied principal query (return results) s =
    let (id, searched) =
      record_audit_event env "search" principal (search_values query results) s in
    let accessed = record_access env principal query results searched in
    (
      evidence_pack env denied query results accessed >>= λ pack. return (record {
        results = results;
        evidence = pack;
        audit_ref = concat ("audit:search:" ∷ decimal id ∷ []);
      }),
      accessed,
    )

-- `search_context`
unfoldable pub search_context :
    Environment
    → Dialect
    → GroupInheritance
    → PrincipalContext
    → String
    → ℕ
    → State
    → Result SearchContextResponse × State
unfolding respond
search_context env dialect inheritance principal query limit s =
    let denied = denied_source_refs principal inheritance s.source_records in
    respond env denied principal query (find_results env dialect query limit denied s) s
