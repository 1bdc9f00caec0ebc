-- ===== src/Governance/Released.antt =====
-- governance/context.py, `search_context`: the evidence pack of an answer against the lifecycle and
-- the permissions of the sources.
use mathlib.Core.List.{Mem}
use mathlib.Core.Path.{subst}
use ok.Prelude.{
  ℕ, String, ◌≡◌, Bool, true, not, ◌&&◌, List, map, arith, ◌==◌, any, contains, contains-map-All,
  All, All-mono, All-sort_by, All-select_where_if, All-select_where, All-Mem, All-zip, sym, return,
}
use ok.Permissions.{PrincipalContext, GroupInheritance}
use ok.Storage.{State, SourceRecordRow, CanonicalObjectRow, Environment}
use ok.Metadata.{denied_source_refs, source_record_rows}
use ok.Context.{canonical_object_rows, entity_link_rows}
use ok.Changes.Governed.{IsGoverned}
use ok.Search.{Dialect}
use ok.Search.Filtered.{active-found, is_active_row}
use ok.Evidence.Objects.{decoded_list}
use ok.Evidence.Pack.{ShowsOnly, ShowsOnly-mono, build-ShowsOnly}
use ok.Evidence.Cited.{Each-All, ShownCandidate, ShownEvidence}
use ok.Evidence.{EvidencePack, ResultCandidate, EvidenceItem}
use ok.Search.Snippets.{SearchResult}
use ok.Governance.{SearchContextResponse, shown_records, evidence_pack, search_context}
use ok.Governance.Answers.{respond-results}
use ok.Governance.Safe.{Releasable, shown-May, search_context-Releasable}

-- A stored object that names a source which may be released to the principal.
pub record IsReleased (principal : PrincipalContext) (inheritance : GroupInheritance) (s : State)
    (o : CanonicalObjectRow) : Type 0 where
  pub source : String
  pub named : contains (decoded_list o.source_refs) source ≡ true
  pub member : Mem o (canonical_object_rows s.canonical_objects)
  pub released : Releasable principal inheritance s source

-- A stored record whose source may be released to the principal.
pub record IsReleasedRow (principal : PrincipalContext) (inheritance : GroupInheritance) (s : State)
    (row : SourceRecordRow) : Type 0 where
  pub member : Mem row s.source_records
  pub released : Releasable principal inheritance s row.source_ref

-- An evidence pack on results all of whose candidates, items, records and objects may be released.
pub record ShowsReleased (principal : PrincipalContext) (inheritance : GroupInheritance) (s : State)
    (visible : List String) (results : List SearchResult) (pack : EvidencePack) : Type 0 where
  pub shows :
      ShowsOnly
        (IsReleased principal inheritance s)
        (IsReleasedRow principal inheritance s)
        visible
        results
        pack
  pub candidates :
      All
        (λ (c : ResultCandidate). Releasable principal inheritance s c.source_ref)
        pack.result_candidates
  pub items :
      All
        (λ (i : EvidenceItem). Releasable principal inheritance s i.source_ref)
        pack.evidence_items

module _ (env : Environment) (principal : PrincipalContext) (inheritance : GroupInheritance)
    (s : State) (g : IsGoverned s) where
  abbrev denied : List String
  denied = denied_source_refs principal inheritance s.source_records

  abbrev is_shown_row : SourceRecordRow → Bool
  is_shown_row row = not (contains denied row.source_ref) && (row.lifecycle_state == "active")

  abbrev ShownMay : SourceRecordRow → Type 0
  ShownMay row = is_shown_row row ≡ true → Releasable principal inheritance s row.source_ref

  row-Releasable :
      (row : SourceRecordRow)
      → any (is_active_row row.source_ref) s.source_records ≡ true
      → is_shown_row row ≡ true
      → Releasable principal inheritance s row.source_ref
  row-Releasable row found shown =
      shown-May env principal inheritance s g row.source_ref (ground (arith, shown, found))

  shown_records-Mem : All (λ row. Mem row s.source_records) (shown_records denied s.source_records)
  unfolding shown_records source_record_rows
  shown_records-Mem =
      All-select_where (λ row. Mem row s.source_records) is_shown_row _
        (All-sort_by (λ row. Mem row s.source_records) _ s.source_records
          (All-Mem s.source_records))

  shown_records-Releasable :
      All
        (λ row. Releasable principal inheritance s row.source_ref)
        (shown_records denied s.source_records)
  unfolding shown_records source_record_rows
  shown_records-Releasable =
      All-select_where_if (λ row. Releasable principal inheritance s row.source_ref) is_shown_row _
        (All-sort_by ShownMay _ s.source_records (
          All-mono _ ShownMay
            (λ row active shown. row-Releasable row (active (ground (arith, shown))) shown)
            s.source_records (active-found s.source_records)))

  shown_records-IsReleasedRow :
      All (IsReleasedRow principal inheritance s) (shown_records denied s.source_records)
  shown_records-IsReleasedRow =
      All-zip _ _ (IsReleasedRow principal inheritance s)
        (λ row member released. record { member = member; released = released }) _ shown_records-Mem
        shown_records-Releasable

  visible-Releasable :
      (ref : String)
      → contains (map (λ row. row.source_ref) (shown_records denied s.source_records)) ref ≡ true
      → Releasable principal inheritance s ref
  visible-Releasable ref e =
      contains-map-All (Releasable principal inheritance s)
        (λ (row : SourceRecordRow). row.source_ref) (shown_records denied s.source_records) ref
        shown_records-Releasable e

-- what is shown of results that may be released may be released
released-ShowsReleased :
    (principal : PrincipalContext) (inheritance : GroupInheritance) (s : State)
    (visible : List String) (results : List SearchResult) (pack : EvidencePack)
    → All (λ r. Releasable principal inheritance s r.source_ref) results
    → ShowsOnly
        (IsReleased principal inheritance s)
        (IsReleasedRow principal inheritance s)
        visible
        results
        pack
    → ShowsReleased principal inheritance s visible results pack
released-ShowsReleased principal inheritance s visible results pack released shows =
    let may : String → Type 0 = Releasable principal inheritance s in
    let R = IsReleasedRow principal inheritance s in
    record {
      shows = shows;
      candidates =
          Each-All (ShownCandidate R visible) (λ r. may r.source_ref) (λ c. may c.source_ref)
            (λ r c shown h. subst may (sym shown.source_ref) h) results pack.result_candidates
            shows.candidates released;
      items =
          Each-All (ShownEvidence R visible) (λ r. may r.source_ref) (λ i. may i.source_ref)
            (λ r i shown h. subst may (sym shown.source_ref) h) results pack.evidence_items
            shows.items released;
    }

-- Where no source with a lifecycle row is active, and no lifecycle row says `active`, the evidence
-- pack of a search that answers has a candidate and an evidence item for each result, in the order of
-- the results, of sources that may be released to the principal: ones without a lifecycle row, with
-- an active row, and with no row that is refused to the principal. They show the result, and the
-- columns of a stored record of such a source, or empty ones where no record that is shown to the
-- principal is of the source. Each object that the pack names, as primary, as related, by an entity
-- or as a candidate, is a stored object that names at least one source that may be released; of a
-- primary object all source refs are shown, which may be others too. The unresolved candidates are
-- people, and there are at most ten of them and five related objects.
pub search_context-ShowsOnly :
    (env : Environment) (dialect : Dialect) (inheritance : GroupInheritance)
    (principal : PrincipalContext) (query : String) (limit : ℕ) (s : State)
    {response : SearchContextResponse}
    → IsGoverned s
    → (search_context env dialect inheritance principal query limit s).0 ≡ return response
    → let denied = denied_source_refs principal inheritance s.source_records in
      ShowsReleased principal inheritance s
        (map (λ row. row.source_ref) (shown_records denied s.source_records))
        response.results
        response.evidence
unfolding search_context evidence_pack
search_context-ShowsOnly env dialect inheritance principal query limit s {response} g e =
    let denied = denied_source_refs principal inheritance s.source_records in
    let built = (respond-results env denied principal query _ s e).1 in
    released-ShowsReleased principal inheritance s _ response.results response.evidence
      (search_context-Releasable env dialect inheritance principal query limit s g e).0
      (ShowsOnly-mono _ (IsReleased principal inheritance s) (IsReleasedRow principal inheritance s)
        _ response.results response.evidence
        (λ o p. record {
          source = p.source;
          named = p.named;
          member = p.member;
          released = visible-Releasable env principal inheritance s g p.source p.seen;
        })
        (build-ShowsOnly env query response.results (shown_records denied s.source_records)
          (canonical_object_rows s.canonical_objects) (IsReleasedRow principal inheritance s)
          (shown_records-IsReleasedRow env principal inheritance s g)
          (entity_link_rows s.entity_links) built))
