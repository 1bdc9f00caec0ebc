-- ===== src/Search/Bounded.antt =====
-- retrieval/search.py, `snippet_for`: the length of a snippet.
use ok.Prelude.{
  ℕ, ◌+◌, ◌-◌, ◌/◌, ◌≤◌, String, ◌≡◌, inl, inr, [], ◌∷◌, arith, ◌==◌, ltb, min, codes, text_length,
  text_length-append, text_length-take_text, text_length-strip, take_text, drop_text, concat, words,
  strip, Bool, true, false, Bool-cases, join, return, >>=-eq-return, return_inj, if◌then◌else◌,
}
use ok.Storage.{Environment}
use ok.Search.Scores.{query_terms}
use ok.Search.Snippets.{snippet_for, cut_snippet, window, first_positions, first_index}

-- a mark in front of a text or behind it makes it longer by four
front_bound :
    (cut : Bool) (s : String)
    → text_length (if cut then concat ("... " ∷ s ∷ []) else s) ≤ text_length s + 4
front_bound true s =
    omega (arith, text_length-append "... " (concat (s ∷ [])), text_length-append s "")
front_bound false s = omega arith

back_bound :
    (cut : Bool) (s : String)
    → text_length (if cut then concat (s ∷ " ..." ∷ []) else s) ≤ text_length s + 4
back_bound true s =
    omega (arith, text_length-append s (concat (" ..." ∷ [])), text_length-append " ..." "")
back_bound false s = omega arith

pub cut_snippet_bound :
    (width : ℕ) (text : String) (first : ℕ) → text_length (cut_snippet width text first) ≤ width + 8
unfolding cut_snippet
cut_snippet_bound width text first =
    let start : ℕ = first - width / 2 in
    let end : ℕ = min (start + width) (text_length text) in
    let snippet = strip (take_text (end - start) (drop_text start text)) in
    let front = if ltb 0 start then concat ("... " ∷ snippet ∷ []) else snippet in
    omega (
      arith,
      back_bound (ltb end (text_length text)) front,
      front_bound (ltb 0 start) snippet,
      text_length-strip (take_text (end - start) (drop_text start text)),
      text_length-take_text (end - start) (drop_text start text),
    )

-- The snippet of a text, where there is one, has at most 168 characters: 160 of the text, and four
-- for each side that is cut.
pub snippet_for_bounded :
    (env : Environment) (text query : String) {snippet : String}
    → snippet_for env text query ≡ return snippet
    → text_length snippet ≤ 168
unfolding snippet_for
snippet_for_bounded env text query {snippet} e = elim (Bool-cases (join " " (words text) == "")) [
  | inl empty ↦
      let none_left : "" ≡ snippet = return_inj (rw empty at e) in rw (← none_left) (omega arith)
  | inr full ↦
      let (terms, _, done) = >>=-eq-return (query_terms env query) _ (rw full at e) in
      let cut =
        cut_snippet_bound window (join " " (words text))
          (first_index (first_positions (codes (env.lower (join " " (words text)))) terms)) in
      rw (← return_inj done) (omega (arith, cut))
]
