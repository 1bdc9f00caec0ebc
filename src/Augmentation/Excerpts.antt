-- ===== src/Augmentation/Excerpts.antt =====
-- retrieval/augmentation.py: the excerpt of a source that a result shows.
use Prim.Native.Char.{code}
use ok.Prelude.{
  ℕ, zero, suc, ◌-◌, String, Bool, true, false, not, ◌&&◌, List, [], ◌∷◌, map, Option, none, some,
  ◌==◌, eqb, leb, codes, text_length, take_text, drop_text, concat, join, words, strip, lstrip,
  rstrip, select_where, if◌then◌else◌,
}
use ok.Storage.{Environment}
use ok.Search.Scores.{lstrip_quotes, rstrip_quotes}
use ok.Search.Snippets.{first_positions, first_index, cut_snippet}
use ok.Augmentation.Python.{Library}

-- `text.split("\n")`; the first line is the one that is being read
abbrev push_char : String → List String → List String
push_char c [] = c ∷ []
push_char c (l ∷ ls) = concat (c ∷ l ∷ []) ∷ ls

unfoldable pub lines : String → List String
lines String.[] = "" ∷ []
lines (String.◌∷◌ c s) =
    let rest = lines s in if eqb (code c) 10 then "" ∷ rest else push_char (String.◌∷◌ c "") rest

-- the loop over the lines: of blank lines between others one is kept
unfoldable pub keep_lines : Bool → List String → List String
keep_lines previous_blank [] = []
keep_lines previous_blank (line ∷ rest) =
    let others = keep_lines (line == "") rest in
    if line == "" then (if previous_blank then others else "" ∷ others) else line ∷ others

-- `while normalized and not normalized[-1]: normalized.pop()`
unfoldable pub pop_blank : List String → List String
pop_blank [] = []
pop_blank (line ∷ rest) =
    let others = pop_blank rest in
    elim others [ [] ↦ (if line == "" then [] else line ∷ []) | l ∷ ls ↦ line ∷ l ∷ ls ]

-- `_normalize_evidence_text`; a carriage return in front of a line's end is a space of the line
unfoldable pub normalize_evidence_text : String → String
unfolding lines keep_lines pop_blank join words
normalize_evidence_text value =
    join "\n" (pop_blank (keep_lines true (map (λ line. join " " (words line)) (lines value))))

-- `_compact_preserving_paragraphs`
unfoldable pub compact_preserving_paragraphs : ℕ → String → String
unfolding normalize_evidence_text rstrip take_text
compact_preserving_paragraphs limit value =
    let compacted = normalize_evidence_text value in
    if leb (text_length compacted) limit
    then compacted
    else concat (rstrip (take_text (limit - 1) compacted) ∷ "…" ∷ [])

-- `source_ref.rsplit(":", 1)[-1]`, of a text that holds a colon or not
abbrev last_part : String → Option String → String
last_part whole none = whole
last_part whole (some part) = part

unfoldable pub after_colon : String → Option String
after_colon String.[] = none
after_colon (String.◌∷◌ c s) = elim (after_colon s) [
  | some part ↦ some part
  | none ↦ if eqb (code c) 58 then some s else none
]

unfoldable pub identifier_of : String → String
unfolding after_colon
identifier_of source_ref = last_part source_ref (after_colon source_ref)

-- the prefixes that an excerpt must not repeat
unfoldable pub title_prefixes : String → String → List String
unfolding join words strip identifier_of
title_prefixes title source_ref =
    let identifier = identifier_of source_ref in
    map (λ part. join " " (words part))
      (select_where (λ part. not (strip part == ""))
        ((if not (identifier == "") && not (title == "")
            then concat (identifier ∷ " " ∷ title ∷ [])
            else "")
          ∷ title
          ∷ identifier
          ∷ []))

module _ (lib : Library) where
  -- one prefix: the text, and whether it changed
  abbrev pub cut_match : Option ℕ → String × Bool → String × Bool
  cut_match none found = found
  cut_match (some n) found = (lstrip (drop_text n found.0), true)

  -- the `for` over the prefixes
  unfoldable pub cut_prefixes : List String → String × Bool → String × Bool
  unfolding lstrip drop_text
  cut_prefixes [] found = found
  cut_prefixes (prefix ∷ rest) found =
      cut_prefixes rest (cut_match (lib.match_prefix prefix found.0) found)

  -- The `while changed`. Each round that changes the text makes it shorter, so its length is enough
  -- fuel.
  unfoldable pub cut_all : ℕ → List String → String → String
  unfolding cut_prefixes
  cut_all zero prefixes text = text
  cut_all (suc fuel) prefixes text =
      let found = cut_prefixes prefixes (text, false) in
      let more = cut_all fuel prefixes found.0 in if found.1 then more else found.0

  -- `_snippet_without_title_prefix`
  unfoldable pub snippet_without_title_prefix : String → String → String → String
  unfolding cut_all title_prefixes strip
  snippet_without_title_prefix value title source_ref =
      let evidence = strip value in
      cut_all (suc (text_length evidence)) (title_prefixes title source_ref) evidence

module _ (env : Environment) where
  -- `term.strip().casefold().strip('"')` of the words of a query
  unfoldable pub snippet_terms : List String → List String
  snippet_terms [] = []
  snippet_terms (w ∷ ws) = rstrip_quotes (lstrip_quotes (env.casefold (strip w))) ∷ snippet_terms ws

  -- `_paragraph_snippet_for`
  unfoldable pub paragraph_snippet_for : ℕ → String → String → String
  unfolding normalize_evidence_text snippet_terms first_positions cut_snippet words
  paragraph_snippet_for width value query =
      let normalized = normalize_evidence_text value in
      if normalized == ""
      then ""
      else cut_snippet width normalized (
          first_index
            (first_positions (codes (env.casefold normalized)) (snippet_terms (words query))))

  -- `_evidence_snippet`
  unfoldable pub evidence_snippet : Library → String → String → String → String → String
  unfolding paragraph_snippet_for snippet_without_title_prefix compact_preserving_paragraphs
  evidence_snippet lib value title query source_ref =
      compact_preserving_paragraphs 1200
        (paragraph_snippet_for 900 (snippet_without_title_prefix lib value title source_ref) query)
