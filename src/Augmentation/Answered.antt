-- ===== src/Augmentation/Answered.antt =====
-- retrieval/augmentation.py, `retrieve_augmentation`: an answer against the budget, and what it leaves
-- behind.
use mathlib.Core.Path.{subst}
use ok.Prelude.{
  ℕ, zero, suc, ◌≤◌, String, ◌≡◌, inl, inr, ◌⊎◌, List, [], ◌∷◌, arith, ltb, length, length-take,
  take, Bool-cases, Result, return, raise, return_inj, Result-cases,
}
use ok.Storage.{State, Environment}
use ok.Search.{Dialect, SearchRow}
use ok.Augmentation.Python.{Floats, Library}
use ok.Augmentation.Candidates.{apply_graph_link_metrics}
use ok.Augmentation.Rerank.{RetrievalCandidate, count_ref, rank_and_diversify}
use ok.Augmentation.Cards.{select_results_for_token_budget, estimated_result_tokens}
use ok.Augmentation.Budget.{Fills, select_results_for_token_budget-Fills}
use ok.Augmentation.Diverse.{result_refs, rank_and_diversify_bound}
use ok.Augmentation.Events.{Telemetry}
use ok.Augmentation.{
  Request, RetrievalAugmentationResponse, Retrieved, keyword_rows, retrieved, ranked_results,
  selected_results, response_of, finish, with_index, retrieve_augmentation,
}

module _ {F : Type 0} (num : Floats F) where
  count_ref-take :
      (ref : String) (n : ℕ) (results : List (RetrievalCandidate num))
      → count_ref num ref (result_refs num (take n results))
        ≤ count_ref num ref (result_refs num results)
  count_ref-take ref zero results = omega arith
  count_ref-take ref (suc n) [] = omega arith
  count_ref-take ref (suc n) (r ∷ results) = omega (arith, count_ref-take ref n results)

  -- An answer that holds the budget, but for a first result alone, and no source more than twice.
  pub record Bounded (env : Environment) (lib : Library) (request : Request)
      (response : RetrievalAugmentationResponse num env lib) : Type 0 where
    pub within : (length response.results ≤ 1) ⊎ (response.estimated_tokens ≤ request.token_budget)
    pub diverse : (ref : String) → count_ref num ref (result_refs num response.results) ≤ 2
    pub counted : length response.results ≤ response.candidate_count

  Fills-length :
      (lib : Library) (budget : ℕ) (ranked selected : List (RetrievalCandidate num))
      → Fills num lib budget ranked selected
      → ((length selected ≤ 1) ⊎ (estimated_result_tokens num lib selected ≤ budget))
        × (length selected ≤ length ranked)
        × ((ref : String)
            → count_ref num ref (result_refs num selected)
              ≤ count_ref num ref (result_refs num ranked))
  Fills-length lib budget ranked selected f = (
    elim f.within [
      | inl few ↦ inl (rw f.front (omega (arith, length-take f.count ranked, few)))
      | inr fits ↦ inr fits
    ],
    rw f.front (omega (arith, length-take f.count ranked)),
    λ ref. rw f.front (count_ref-take ref f.count ranked),
  )

  module _ (env : Environment) (lib : Library) where
    response_of-Bounded :
        (request : Request) (s : State) (found : Retrieved num env lib) (id : String)
        → Bounded env lib request (response_of num env lib request s found id)
    unfolding response_of selected_results ranked_results
    response_of-Bounded request s found id =
        let candidates = apply_graph_link_metrics num request.entity_links found.candidates in
        let ranked = rank_and_diversify num env request.query candidates in
        let selected = select_results_for_token_budget num lib request.token_budget ranked in
        let (within, shorter, fewer) =
          Fills-length lib request.token_budget ranked selected
            (select_results_for_token_budget-Fills num lib request.token_budget ranked) in
        record {
          within = within;
          diverse = λ ref.
              omega
                (arith, fewer ref, rank_and_diversify_bound num env request.query candidates ref);
          counted = shorter;
        }

    finish-Bounded :
        (request : Request) (s : State) (rows : Result (List SearchRow)) (t : Telemetry num)
        {response : RetrievalAugmentationResponse num env lib}
        → (finish num env lib request s rows t).0 ≡ return response
        → Bounded env lib request response
    unfolding finish
    finish-Bounded request s (raise e) t h = cc
    finish-Bounded request s (return rows) t h =
        subst (Bounded env lib request) (return_inj h)
          (response_of-Bounded request s (retrieved num env lib request s rows) _)

    -- A retrieval that answers keeps the budget of tokens, unless its first result alone exceeds it
    -- and is the only one; it has at most two results of each source, and no more results than it
    -- counts as candidates.
    pub retrieve_augmentation-Bounded :
        (dialect : Dialect) (request : Request) (s : State) (t : Telemetry num)
        {response : RetrievalAugmentationResponse num env lib}
        → (retrieve_augmentation num env lib dialect request s t).0 ≡ return response
        → Bounded env lib request response
    unfolding retrieve_augmentation
    retrieve_augmentation-Bounded dialect request s t {response} h =
        elim (Bool-cases (ltb request.token_budget 1)) [
          | inl e ↦ subst (Bounded env lib request) (return_inj (rw e at h)) (record {
            within = inl (omega arith);
            diverse = λ ref. omega arith;
            counted = omega arith;
          })
          | inr e ↦ elim (Result-cases (keyword_rows num env lib dialect request s)) [
            | inl (x, raised) ↦
                let failed : (finish num env lib request s (raise x) t).0 ≡ return response =
                  rw (e, raised) at h in
                finish-Bounded request s (raise x) t failed
            | inr (rows, found) ↦
                let done : (finish num env lib request (with_index request s) (return rows) t).0
                    ≡ return response =
                  rw (e, found) at h in
                finish-Bounded request (with_index request s) (return rows) t done
          ]
        ]
