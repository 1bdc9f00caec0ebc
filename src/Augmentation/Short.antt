-- ===== src/Augmentation/Short.antt =====
-- retrieval/augmentation.py: the lengths of excerpts, and of the lists of people and hints.
use ok.Prelude.{
  ℕ, ◌-◌, ◌≤◌, String, inl, inr, [], ◌∷◌, arith, leb, text_length, text_length-append,
  text_length-rstrip, text_length-take_text, take_text, rstrip, concat, Bool-cases,
}
use ok.Storage.{Environment}
use ok.Augmentation.Python.{Library}
use ok.Augmentation.Excerpts.{
  normalize_evidence_text, compact_preserving_paragraphs, paragraph_snippet_for,
  snippet_without_title_prefix, evidence_snippet,
}

compact_bound :
    (limit : ℕ) (value : String)
    → 1 ≤ limit
    → text_length (compact_preserving_paragraphs limit value) ≤ limit
unfolding compact_preserving_paragraphs
compact_bound limit value h =
    let compacted = normalize_evidence_text value in
    elim (Bool-cases (leb (text_length compacted) limit)) [
      | inl e ↦ let fits : text_length compacted ≤ limit = ground (arith, e) in rw e fits
      | inr e ↦
          let cut = rstrip (take_text (limit - 1) compacted) in
          rw e (
            omega (
              arith,
              text_length-append cut (concat ("…" ∷ [])),
              text_length-append "…" "",
              text_length-rstrip (take_text (limit - 1) compacted),
              text_length-take_text (limit - 1) compacted,
            ))
    ]

-- An excerpt has at most 1200 characters, whatever the text, the title and the query are.
pub evidence_snippet_bounded :
    (env : Environment) (lib : Library) (value title query source_ref : String)
    → text_length (evidence_snippet env lib value title query source_ref) ≤ 1200
unfolding evidence_snippet
evidence_snippet_bounded env lib value title query source_ref =
    compact_bound 1200
      (paragraph_snippet_for env 900 (snippet_without_title_prefix lib value title source_ref)
        query)
      (omega arith)
