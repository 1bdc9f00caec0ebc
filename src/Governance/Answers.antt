-- ===== src/Governance/Answers.antt =====
-- governance/context.py, `search_context`: an answer against the search and the evidence pack.
use ok.Prelude.{
  String, ◌≡◌, refl, ◌∙◌, sym, ap, List, [], ◌∷◌, Result, return, raise, >>=-eq-return, return_inj,
}
use ok.Permissions.{PrincipalContext}
use ok.Storage.{State, Environment}
use ok.Audit.{record_audit_event}
use ok.Search.Snippets.{SearchResult}
use ok.Governance.{SearchContextResponse, search_values, record_access, evidence_pack, respond}

-- the events of a search leave what the evidence pack is built from
evidence_pack-accessed :
    (env : Environment) (denied : List String) (principal : PrincipalContext) (query : String)
    (found results : List SearchResult) (s : State)
    → evidence_pack env denied query results (
        record_access env principal query found
          (record_audit_event env "search" principal (search_values query found) s).1)
      ≡ evidence_pack env denied query results s
unfolding evidence_pack record_audit_event
evidence_pack-accessed env denied principal query [] results s = refl
evidence_pack-accessed env denied principal query (r ∷ rest) results s = refl

-- an answer has the results of the search, and their evidence pack
pub respond-results :
    (env : Environment) (denied : List String) (principal : PrincipalContext) (query : String)
    (found : Result (List SearchResult)) (s : State) {response : SearchContextResponse}
    → (respond env denied principal query found s).0 ≡ return response
    → (found ≡ return response.results)
      × (evidence_pack env denied query response.results s ≡ return response.evidence)
unfolding respond
respond-results env denied principal query (raise x) s e = cc
respond-results env denied principal query (return found) s {response} e =
    let searched = (record_audit_event env "search" principal (search_values query found) s).1 in
    let (pack, built, done) =
      >>=-eq-return
        (evidence_pack env denied query found (record_access env principal query found searched)) _
        e in
    let same : response.results ≡ found = sym (ap (λ r. r.results) (return_inj done)) in
    let its_pack : pack ≡ response.evidence = ap (λ r. r.evidence) (return_inj done) in
    (
      ap (λ r. return (r.results)) (return_inj done),
      rw same (
          sym (evidence_pack-accessed env denied principal query found found s)
          ∙ built
          ∙ ap return its_pack),
    )
