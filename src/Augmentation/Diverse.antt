-- ===== src/Augmentation/Diverse.antt =====
-- retrieval/augmentation.py, `_rank_and_diversify`: how often a source stands among the results.
use mathlib.Core.Path.{subst}
use ok.Prelude.{
  ◌+◌, ◌≤◌, ◌<◌, String, inl, inr, List, [], ◌∷◌, map, arith, ◌==◌, eq_iff, leb, Bool-cases,
}
use ok.Storage.{Environment}
use ok.Augmentation.Python.{Floats}
use ok.Augmentation.Candidates.{Candidate}
use ok.Augmentation.Rerank.{
  Reranked, RetrievalCandidate, count_ref, diversify, rerank, default_rerank_rules,
  rank_and_diversify,
}

module _ {F : Type 0} (num : Floats F) where
  -- the refs of some results
  abbrev pub result_refs : List (RetrievalCandidate num) → List String
  result_refs = map (λ r. r.source_ref)

  -- with those that are kept already, a source stands twice at most
  diversify_bound :
      (ref : String) (kept : List String) (rows : List (Reranked num))
      → count_ref num ref kept ≤ 2
      → count_ref num ref kept + count_ref num ref (result_refs (diversify num kept rows)) ≤ 2
  unfolding diversify
  diversify_bound ref kept [] h = omega arith
  diversify_bound ref kept (r ∷ rows) h =
      elim (Bool-cases (leb 2 (count_ref num r.row.source_ref kept))) [
        | inl full ↦ rw full (diversify_bound ref kept rows h)
        | inr room ↦
            let below : count_ref num r.row.source_ref kept < 2 = ground (arith, room) in
            rw room (elim (Bool-cases (r.row.source_ref == ref)) [
              | inl same ↦
                  let now : count_ref num ref kept < 2 =
                    subst (λ x. count_ref num x kept < 2) ((eq_iff r.row.source_ref ref).0 same)
                      below in
                  ground (
                    arith,
                    same,
                    now,
                    diversify_bound ref (r.row.source_ref ∷ kept) rows (ground (arith, same, now)),
                  )
              | inr differ ↦ ground (
                arith,
                differ,
                diversify_bound ref (r.row.source_ref ∷ kept) rows (ground (arith, differ, h)),
              )
            ])
      ]

  -- What a retrieval ranks has at most two results of each source.
  pub rank_and_diversify_bound :
      (env : Environment) (query : String) (candidates : List (Candidate num)) (ref : String)
      → count_ref num ref (result_refs (rank_and_diversify num env query candidates)) ≤ 2
  unfolding rank_and_diversify
  rank_and_diversify_bound env query candidates ref = omega (
    arith,
    diversify_bound ref [] (rerank num (default_rerank_rules num env) query candidates)
        (omega arith),
  )
