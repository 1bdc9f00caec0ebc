-- ===== src/Governance/Safe.antt =====
-- governance/context.py, `search_context`: its results against the lifecycle and the permissions of
-- their sources, and its audit trail.
use mathlib.Core.Path.{subst, ap₂}
use mathlib.Core.List.{append_assoc}
use ok.Prelude.{
  ℕ, suc, ◌+◌, ◌≤◌, String, ◌≡◌, sym, ap, inl, inr, true, false, List, [], ◌∷◌, ◌++◌, arith, eq_iff,
  any, contains, length, All, All-mono, Bool-cases, return, >>=-eq-return, return_inj,
}
use ok.Permissions.{PrincipalContext, GroupInheritance}
use ok.Storage.{State, SourceRecordRow, SourceLifecycleRow, AuditEventRow, Environment}
use ok.Lifecycle.{has_lifecycle}
use ok.Audit.{audit_row, record_audit_event}
use ok.Metadata.{denied_source_refs}
use ok.Metadata.Denied.{Open, not-denied-Open}
use ok.Changes.Governed.{IsGoverned, RowHidden}
use ok.Search.{SearchRow, Dialect, search_rows}
use ok.Search.Filtered.{is_shown, is_active_row, search_rows-Answers}
use ok.Search.Snippets.{SearchResult, snippet_for}
use ok.Governance.Answers.{respond-results}
use ok.Governance.{
  SearchContextResponse, search_result, search_results, find_results, search_values, respond,
  search_context,
}

-- A source that may be released to a principal: no lifecycle row holds it back, some row of it is
-- active, and every row of it is open to the principal.
pub record Releasable (principal : PrincipalContext) (inheritance : GroupInheritance) (s : State)
    (ref : String) : Type 0 where
  pub unrestricted : has_lifecycle s.source_lifecycle ref ≡ false
  pub active : any (is_active_row ref) s.source_records ≡ true
  pub permitted :
      All (λ row. row.source_ref ≡ ref → Open principal inheritance row) s.source_records

-- an active row of a governed state has no lifecycle row
active-unrestricted :
    (lifecycle : List SourceLifecycleRow) (rows : List SourceRecordRow) (ref : String)
    → All (RowHidden lifecycle) rows
    → any (is_active_row ref) rows ≡ true
    → has_lifecycle lifecycle ref ≡ false
active-unrestricted lifecycle [] ref h found = cc
active-unrestricted lifecycle (row ∷ rows) ref h found = elim (Bool-cases (is_active_row ref row)) [
  | inl e ↦ elim (Bool-cases (has_lifecycle lifecycle ref)) [
    | inr absent ↦ absent
    | inl present ↦
        let same : row.source_ref ≡ ref = ground (arith, eq_iff row.source_ref ref, e) in
        absurd (h.0 (rw same present) (ground (arith, eq_iff row.lifecycle_state "active", e)))
  ]
  | inr e ↦ active-unrestricted lifecycle rows ref h.1 (ground (arith, e, found))
]

module _ (env : Environment) (principal : PrincipalContext) (inheritance : GroupInheritance)
    (s : State) where
  abbrev pub May : String → Type 0
  May ref = Releasable principal inheritance s ref

  pub shown-May :
      IsGoverned s
      → (ref : String)
      → is_shown (denied_source_refs principal inheritance s.source_records) s.source_records ref
        ≡ true
      → May ref
  shown-May g ref h =
      let denied = denied_source_refs principal inheritance s.source_records in
      let active : any (is_active_row ref) s.source_records ≡ true = ground (arith, h) in
      let allowed : contains denied ref ≡ false = ground (arith, h) in
      record {
        unrestricted = active-unrestricted s.source_lifecycle s.source_records ref g.hidden active;
        active = active;
        permitted = not-denied-Open principal inheritance ref s.source_records allowed;
      }

  -- a result names the source of its row
  result_ref :
      (query : String) (row : SearchRow) {r : SearchResult}
      → search_result env query row ≡ return r
      → r.source_ref ≡ row.source_ref
  unfolding search_result
  result_ref query row e =
      let (snippet, _, done) = >>=-eq-return (snippet_for env row.body query) _ e in
      sym (ap (λ x. x.source_ref) (return_inj done))

  results-May :
      (query : String) (rows : List SearchRow) {found : List SearchResult}
      → All (λ row. May row.source_ref) rows
      → search_results env query rows ≡ return found
      → All (λ r. May r.source_ref) found
  unfolding search_results
  results-May query [] h e = subst (All (λ r. May r.source_ref)) (return_inj e) tt
  results-May query (row ∷ rows) h e =
      let (r, is_result, rest) = >>=-eq-return (search_result env query row) _ e in
      let (rs, are_results, done) = >>=-eq-return (search_results env query rows) _ rest in
      subst (All (λ r. May r.source_ref)) (return_inj done) (
        subst May (sym (result_ref query row is_result)) h.0,
        results-May query rows h.1 are_results,
      )

  results-length :
      (query : String) (rows : List SearchRow) {found : List SearchResult}
      → search_results env query rows ≡ return found
      → length found ≡ length rows
  unfolding search_results
  results-length query [] e = sym (ap length (return_inj e))
  results-length query (row ∷ rows) e =
      let (r, is_result, rest) = >>=-eq-return (search_result env query row) _ e in
      let (rs, are_results, done) = >>=-eq-return (search_results env query rows) _ rest in
      omega (arith, results-length query rows are_results, ap length (return_inj done))

  found-May :
      (dialect : Dialect) (query : String) (limit : ℕ) {found : List SearchResult}
      → IsGoverned s
      → find_results env dialect query limit
          (denied_source_refs principal inheritance s.source_records)
          s
        ≡ return found
      → All (λ r. May r.source_ref) found × (length found ≤ limit)
  unfolding find_results
  found-May dialect query limit g e =
      let denied = denied_source_refs principal inheritance s.source_records in
      let (rows, are_rows, rest) =
        >>=-eq-return (search_rows env dialect query limit denied s) _ e in
      let answers = search_rows-Answers env dialect query limit denied s are_rows in
      (
        results-May query rows
            (All-mono _ (λ row. May row.source_ref) (λ row h. shown-May g row.source_ref h) rows
              answers.shown)
            rest,
        omega (arith, results-length query rows rest, answers.bounded),
      )

-- Where no source with a lifecycle row is active, and no lifecycle row says `active`, each result of
-- a search that answers is of a source without a lifecycle row, with an active row, and with no row
-- that is refused to the principal, and there are no more results than the limit.
pub search_context-Releasable :
    (env : Environment) (dialect : Dialect) (inheritance : GroupInheritance)
    (principal : PrincipalContext) (query : String) (limit : ℕ) (s : State)
    {response : SearchContextResponse}
    → IsGoverned s
    → (search_context env dialect inheritance principal query limit s).0 ≡ return response
    → All (λ r. Releasable principal inheritance s r.source_ref) response.results
      × (length response.results ≤ limit)
unfolding search_context
search_context-Releasable env dialect inheritance principal query limit s g e =
    found-May env principal inheritance s dialect query limit g
      (respond-results env _ principal query _ s e).0

-- the events that a search appends
abbrev search_events :
    Environment → PrincipalContext → String → ℕ → List SearchResult → List AuditEventRow
search_events env principal query id [] =
    audit_row env id "search" principal (search_values query []) ∷ []
search_events env principal query id (r ∷ rest) =
    audit_row env id "search" principal (search_values query (r ∷ rest))
    ∷ audit_row env (suc id) "source_access" principal
        (record (search_values query (r ∷ rest)) { decision = "allowed" })
    ∷ []

-- the state behind a search that answers
abbrev pub audited : Environment → PrincipalContext → String → List SearchResult → State → State
audited env principal query found s =
    let events = search_events env principal query s.next_audit_id found in
    record s {
      audit_events = s.audit_events ++ events;
      next_audit_id = s.next_audit_id + length events;
    }

respond-audited :
    (env : Environment) (denied : List String) (principal : PrincipalContext) (query : String)
    (found : List SearchResult) (s : State)
    → (respond env denied principal query (return found) s).1 ≡ audited env principal query found s
unfolding respond record_audit_event
respond-audited env denied principal query [] s =
    ap
      (λ n. record s {
        audit_events = s.audit_events ++ search_events env principal query s.next_audit_id [];
        next_audit_id = n;
      })
      (omega arith)
respond-audited env denied principal query (r ∷ rest) s =
    ap₂ (λ events n. record s { audit_events = events; next_audit_id = n })
      (append_assoc s.audit_events _ _) (omega arith)

-- A search that answers changes nothing but the audit trail. It appends one event with the query,
-- the principal, the number of results and their refs, and a second, of the access, if there are
-- results.
pub search_context-audited :
    (env : Environment) (dialect : Dialect) (inheritance : GroupInheritance)
    (principal : PrincipalContext) (query : String) (limit : ℕ) (s : State)
    {response : SearchContextResponse}
    → (search_context env dialect inheritance principal query limit s).0 ≡ return response
    → (search_context env dialect inheritance principal query limit s).1
      ≡ audited env principal query response.results s
unfolding search_context
search_context-audited env dialect inheritance principal query limit s {response} e =
    let denied = denied_source_refs principal inheritance s.source_records in
    rw ((respond-results env denied principal query _ s e).0)
      (respond-audited env denied principal query response.results s)
