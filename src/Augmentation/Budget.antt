-- ===== src/Augmentation/Budget.antt =====
-- retrieval/augmentation.py, `_select_results_for_token_budget`: the selection against the budget.
use ok.Prelude.{
  ℕ, suc, ◌+◌, ◌≤◌, ◌<◌, ◌≡◌, refl, inl, inr, ◌⊎◌, ◌&&◌, ap, take, List, [], ◌∷◌, arith, ltb, leb,
  length, Bool-cases,
}
use ok.Augmentation.Python.{Floats, Library}
use ok.Augmentation.Rerank.{RetrievalCandidate}
use ok.Augmentation.Cards.{
  estimate_tokens, card_tokens, select_within, select_results_for_token_budget, tokens_from,
  estimated_result_tokens,
}

module _ {F : Type 0} (num : Floats F) (lib : Library) where
  abbrev tokens : ℕ → List (RetrievalCandidate num) → ℕ
  tokens = tokens_from num lib

  card_tokens_pos :
      (index : ℕ) (result : RetrievalCandidate num) → 0 < card_tokens num lib index result
  unfolding card_tokens estimate_tokens
  card_tokens_pos index result = omega arith

  first_pos :
      (index : ℕ) (rest : List (RetrievalCandidate num))
      → 0 < length rest
      → 0 < tokens index (take 1 rest)
  unfolding tokens_from
  first_pos index [] h = absurd (omega arith)
  first_pos index (result ∷ rest) h = omega (arith, card_tokens_pos index result)

  -- The longest run of results from the front that keeps the budget, where the card with the given
  -- index comes next and some tokens are used.
  record Longest (budget index used : ℕ) (results selected : List (RetrievalCandidate num))
      : Type 0 where
    pub count : ℕ
    pub front : selected ≡ take count results
    pub within : used + tokens index selected ≤ budget
    pub longest : count < length results → budget < used + tokens index (take (suc count) results)

  select_within-Longest :
      (budget selected used : ℕ) (results : List (RetrievalCandidate num))
      → 0 < selected
      → used ≤ budget
      → Longest budget
          (suc selected)
          used
          results
          (select_within num lib budget selected used results)
  unfolding select_within tokens_from
  select_within-Longest budget selected used [] h u = record {
    count = 0;
    front = refl;
    within = omega arith;
    longest = λ p. absurd (omega arith);
  }
  select_within-Longest budget selected used (result ∷ rest) h u =
      let spent : ℕ = used + card_tokens num lib (suc selected) result in
      elim (Bool-cases (ltb 0 selected && ltb budget spent)) [
        | inl over ↦ rw over (record {
          count = 0;
          front = refl;
          within = omega arith;
          longest = λ p. ground (arith, over);
        })
        | inr fits ↦
            let small : spent ≤ budget = ground (arith, fits, h) in
            elim (Bool-cases (leb budget spent)) [
              | inl full ↦
                  let reached : budget ≤ spent = ground (arith, full) in
                  rw (fits, full)
                    (record {
                      count = 1;
                      front = refl;
                      within = omega arith;
                      longest =
                          λ p. omega (arith, first_pos (suc (suc selected)) rest (omega arith));
                    })
              | inr room ↦
                  let more =
                    select_within-Longest budget (suc selected) spent rest (omega arith) small in
                  rw (fits, room)
                    (record {
                      count = suc more.count;
                      front = ap (λ l. result ∷ l) more.front;
                      within = omega (arith, more.within);
                      longest = λ p. omega (arith, more.longest (omega arith));
                    })
            ]
      ]

  -- The longest run of results from the front whose cards keep the budget, or the first result alone.
  pub record Fills (budget : ℕ) (results selected : List (RetrievalCandidate num)) : Type 0 where
    pub count : ℕ
    pub front : selected ≡ take count results
    pub some_result : 0 < length results → 0 < count
    pub within : (count ≤ 1) ⊎ (estimated_result_tokens num lib selected ≤ budget)
    pub longest :
        count < length results → budget < estimated_result_tokens num lib (take (suc count) results)

  -- What is selected for a budget of tokens is the longest run of results from the front whose cards
  -- keep the budget; only the first result may exceed it, and it is then alone. With one result more
  -- the cards would exceed the budget.
  pub select_results_for_token_budget-Fills :
      (budget : ℕ) (results : List (RetrievalCandidate num))
      → Fills budget results (select_results_for_token_budget num lib budget results)
  unfolding select_results_for_token_budget select_within estimated_result_tokens tokens_from
  select_results_for_token_budget-Fills budget [] = record {
    count = 0;
    front = refl;
    some_result = λ p. absurd (omega arith);
    within = inl (omega arith);
    longest = λ p. absurd (omega arith);
  }
  select_results_for_token_budget-Fills budget (result ∷ rest) =
      let spent : ℕ = 0 + card_tokens num lib 1 result in
      elim (Bool-cases (leb budget spent)) [
        | inl full ↦
            let reached : budget ≤ spent = ground (arith, full) in
            rw full (record {
              count = 1;
              front = refl;
              some_result = λ p. omega arith;
              within = inl (omega arith);
              longest = λ p. omega (arith, first_pos 2 rest (omega arith));
            })
        | inr room ↦
            let more =
              select_within-Longest budget 1 spent rest (omega arith) (ground (arith, room)) in
            rw room (record {
              count = suc more.count;
              front = ap (λ l. result ∷ l) more.front;
              some_result = λ p. omega arith;
              within = inr (omega (arith, more.within));
              longest = λ p. omega (arith, more.longest (omega arith));
            })
      ]
