-- ===== src/Augmentation/Rerank.antt =====
-- retrieval/reranker.py, and the ranking and diversification of retrieval/augmentation.py.
use ok.Prelude.{
  ℕ, ◌+◌, String, Bool, true, false, not, ◌&&◌, ◌||◌, List, [], ◌∷◌, ◌++◌, map, ◌==◌, ltb, leb,
  length, codes, text_length, take, any, contains, concat, words, is_part, select_where, sort_by,
  lt_text, sorted_set, if◌then◌else◌,
}
use ok.Storage.{Environment}
use ok.Search.Scores.{is_one_edit_away}
use ok.Evidence.People.{text_terms}
use ok.Augmentation.Python.{Floats}
use ok.Augmentation.Candidates.{Candidate}

-- `all(...)` over a list
abbrev pub every : (String → Bool) → List String → Bool
every p xs = not (any (λ x. not (p x)) xs)

module _ (env : Environment) where
  -- `_tokens`
  unfoldable pub title_tokens : String → List String
  unfolding text_terms
  title_tokens value = select_where (λ t. ltb 2 (text_length t)) (text_terms env value)

  abbrev token_matches : String → String → Bool
  token_matches query_token title_token =
      (query_token == title_token)
      || (leb 4 (text_length query_token)
          && leb 4 (text_length title_token)
          && is_one_edit_away (codes query_token) (codes title_token))

  -- `_has_token_match`
  unfoldable pub has_token_match : List String → List String → Bool
  unfolding is_one_edit_away
  has_token_match query_tokens titles = any (λ q. any (token_matches q) titles) query_tokens

  -- a text of which one of some parts is a part
  abbrev pub holds_one : List String → String → Bool
  holds_one parts value = any (λ part. is_part part value) parts

  module _ {F : Type 0} {num : Floats F} where
    -- `_is_current_priority_linear_work_item`
    unfoldable pub is_current_priority_linear_work_item : Candidate num → String → Bool
    unfolding is_part
    is_current_priority_linear_work_item row query =
        holds_one ("current" ∷ "priority" ∷ "priorities" ∷ "working on" ∷ []) (env.casefold query)
        && (env.casefold row.source_system == "linear")
        && contains ("work_item" ∷ "issue" ∷ "task" ∷ []) (env.casefold row.record_type)
        && holds_one ("priority" ∷ "priorities" ∷ "right now" ∷ "current" ∷ "this week" ∷ [])
            (env.casefold (concat (row.title ∷ " " ∷ row.snippet ∷ [])))

    -- `_is_person_title_token_match`
    unfoldable pub is_person_title_token_match : Candidate num → String → Bool
    unfolding has_token_match title_tokens
    is_person_title_token_match row query =
        (env.casefold row.record_type == "person")
        && has_token_match (title_tokens query) (title_tokens row.title)

    -- `_is_named_crm_person_query`
    unfoldable pub is_named_crm_person_query : Candidate num → String → Bool
    unfolding words is_part
    is_named_crm_person_query row query =
        let names = select_where (λ w. ltb 2 (text_length w)) (words query) in
        leb 2 (length names)
        && (env.casefold row.record_type == "person")
        && every (λ w. is_part (env.casefold w) (env.casefold row.title)) (take 2 names)

module _ {F : Type 0} (num : Floats F) where
  pub record RerankRule : Type 0 where
    pub name : String
    pub multiplier : F
    pub additive : F
    pub predicate : Candidate num → String → Bool

  -- `default_rerank_rules`
  abbrev pub default_rerank_rules : Environment → List RerankRule
  default_rerank_rules env =
      record {
        name = "boost_linear_work_item_for_current_priority_query";
        multiplier = num.lit "1.8";
        additive = num.lit "0.01";
        predicate = is_current_priority_linear_work_item env;
      }
      ∷ record {
        name = "boost_person_title_token_match";
        multiplier = num.lit "2.0";
        additive = num.lit "0.02";
        predicate = is_person_title_token_match env;
      }
      ∷ record {
        name = "boost_named_crm_person";
        multiplier = num.lit "1.4";
        additive = num.lit "0.004";
        predicate = is_named_crm_person_query env;
      }
      ∷ []

  -- a candidate with its score after the rules
  pub record Reranked : Type 0 where
    pub row : Candidate num
    pub rerank_score : F
    pub reasons : List String

  -- the loop over the rules, with the score and the reasons
  unfoldable pub apply_rules :
      List RerankRule → Candidate num → String → F × List String → F × List String
  apply_rules [] row query found = found
  apply_rules (rule ∷ rest) row query found = apply_rules rest row query (
      if rule.predicate row query
      then (num.plus (num.times found.0 rule.multiplier) rule.additive, found.1 ++ rule.name ∷ [])
      else found)

  abbrev reasons_or : List String → List String
  reasons_or [] = "specific source excerpt" ∷ []
  reasons_or (r ∷ rs) = r ∷ rs

  -- `_apply`
  unfoldable pub apply_rerank : List RerankRule → String → Candidate num → Reranked
  unfolding apply_rules
  apply_rerank rules query row =
      let found = apply_rules rules row query (row.score, row.rerank_reasons) in
      record { row = row; rerank_score = num.round 6 found.0; reasons = reasons_or found.1 }

  -- the key `(-rerank_score, occurred_at, source_ref)`
  abbrev pub reranked_before : Reranked → Reranked → Bool
  reranked_before a b =
      if num.less b.rerank_score a.rerank_score
      then true
      else if num.less a.rerank_score b.rerank_score
      then false
      else if a.row.occurred_at == b.row.occurred_at
      then lt_text a.row.source_ref b.row.source_ref
      else lt_text a.row.occurred_at b.row.occurred_at

  -- `rerank`
  unfoldable pub rerank : List RerankRule → String → List (Candidate num) → List Reranked
  unfolding apply_rerank sort_by lt_text
  rerank rules query rows = sort_by reranked_before (map (apply_rerank rules query) rows)

  pub record RetrievalCandidate : Type 0 where
    pub source_ref : String
    pub source_system : String
    pub record_type : String
    pub title : String
    pub occurred_at : String
    pub snippet : String
    pub score : F
    pub retrievers : List String
    pub permission_refs : List String
    pub rerank_reasons : List String
    pub unit_index : ℕ

  abbrev pub retrieval_candidate : Reranked → RetrievalCandidate
  retrieval_candidate r = record {
    source_ref = r.row.source_ref;
    source_system = r.row.source_system;
    record_type = r.row.record_type;
    title = r.row.title;
    occurred_at = r.row.occurred_at;
    snippet = r.row.snippet;
    score = num.round 6 r.rerank_score;
    retrievers = sorted_set r.row.retrievers;
    permission_refs = r.row.permission_refs;
    rerank_reasons = r.reasons;
    unit_index = r.row.unit_index;
  }

  -- `per_source_count.get(ref, 0)`, as the results that have the ref
  abbrev pub count_ref : String → List String → ℕ
  count_ref ref [] = 0
  count_ref ref (s ∷ rest) = (if s == ref then 1 else 0) + count_ref ref rest

  -- the loop that keeps two results of a source at most, with the refs of those that are kept
  unfoldable pub diversify : List String → List Reranked → List RetrievalCandidate
  unfolding sorted_set
  diversify kept [] = []
  diversify kept (r ∷ rest) =
      let full = leb 2 (count_ref r.row.source_ref kept) in
      let others = diversify (if full then kept else r.row.source_ref ∷ kept) rest in
      if full then others else retrieval_candidate r ∷ others

  -- `_rank_and_diversify`
  unfoldable pub rank_and_diversify :
      Environment → String → List (Candidate num) → List RetrievalCandidate
  unfolding rerank diversify is_current_priority_linear_work_item is_person_title_token_match
      is_named_crm_person_query
  rank_and_diversify env query candidates =
      diversify [] (rerank (default_rerank_rules env) query candidates)
