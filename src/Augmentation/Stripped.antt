-- ===== src/Augmentation/Stripped.antt =====
-- retrieval/augmentation.py, `_snippet_without_title_prefix` and `_evidence_snippet`: the loop over the
-- prefixes, and the length of an excerpt.
use mathlib.Core.Path.{subst}
use ok.Prelude.{
  ℕ, zero, suc, ◌≤◌, ◌<◌, String, ◌≡◌, refl, sym, inl, inr, ◌⊎◌, Bool, true, false, List, [], ◌∷◌,
  none, some, arith, text_length, text_length-drop_text, text_length-lstrip, drop_text, lstrip,
  strip, All, Bool-cases, Option-cases,
}
use ok.Augmentation.Python.{Library, MatchesInside}
use ok.Augmentation.Excerpts.{cut_prefixes, cut_all, title_prefixes, snippet_without_title_prefix}

module _ (lib : Library) (inside : MatchesInside lib) where
  -- no prefix stands in front of a text
  abbrev pub Bare : List String → String → Type 0
  Bare prefixes text = All (λ prefix. lib.match_prefix prefix text ≡ none) prefixes

  -- a round of the `for`: it leaves a bare text alone, or makes the text shorter
  record Round (prefixes : List String) (before after : String × Bool) : Type 0 where
    pub no_longer : text_length after.0 ≤ text_length before.0
    pub unchanged :
        after.1 ≡ false → (before.1 ≡ false) × (after.0 ≡ before.0) × Bare prefixes before.0
    pub changed : after.1 ≡ true → (before.1 ≡ true) ⊎ (text_length after.0 < text_length before.0)

  cut_shorter :
      (text prefix : String) (n : ℕ)
      → lib.match_prefix prefix text ≡ some n
      → text_length (lstrip (drop_text n text)) < text_length text
  cut_shorter text prefix n e =
      let (positive, in_text) = inside prefix text n e in
      omega (arith, text_length-lstrip (drop_text n text), text_length-drop_text n text)

  cut_prefixes-Round :
      (prefixes : List String) (found : String × Bool)
      → Round prefixes found (cut_prefixes lib prefixes found)
  unfolding cut_prefixes
  cut_prefixes-Round [] found = record {
    no_longer = omega arith;
    unchanged = λ e. (e, refl, tt);
    changed = λ e. inl e;
  }
  cut_prefixes-Round (prefix ∷ prefixes) found =
      elim (Option-cases (lib.match_prefix prefix found.0)) [
        | inl missing ↦
            let rest = cut_prefixes-Round prefixes found in
            rw missing (record {
              no_longer = rest.no_longer;
              unchanged = λ e.
                  ((rest.unchanged e).0, (rest.unchanged e).1, (missing, (rest.unchanged e).2));
              changed = rest.changed;
            })
        | inr (n, there) ↦
            let cut = lstrip (drop_text n found.0) in
            let shorter = cut_shorter found.0 prefix n there in
            let rest = cut_prefixes-Round prefixes (cut, true) in
            rw there (record {
              no_longer = omega (arith, rest.no_longer, shorter);
              unchanged = λ e. cc (rest.unchanged e).0;
              changed = λ e. inr (omega (arith, rest.no_longer, shorter));
            })
      ]

  -- a round that changes a text makes it shorter
  round_shorter :
      (prefixes : List String) (text : String)
      → (cut_prefixes lib prefixes (text, false)).1 ≡ true
      → text_length (cut_prefixes lib prefixes (text, false)).0 < text_length text
  round_shorter prefixes text e = elim ((cut_prefixes-Round prefixes (text, false)).changed e) [
    | inl never ↦ cc never
    | inr shorter ↦ shorter
  ]

  -- enough fuel leaves a text that no prefix stands in front of
  cut_all-Bare :
      (fuel : ℕ) (prefixes : List String) (text : String)
      → text_length text < fuel
      → Bare prefixes (cut_all lib fuel prefixes text)
  unfolding cut_all
  cut_all-Bare zero prefixes text h = absurd (omega arith)
  cut_all-Bare (suc fuel) prefixes text h =
      let found = cut_prefixes lib prefixes (text, false) in
      let round = cut_prefixes-Round prefixes (text, false) in
      elim (Bool-cases found.1) [
        | inl changed ↦ rw changed (
            cut_all-Bare fuel prefixes found.0 (omega (arith, round_shorter prefixes text changed)))
        | inr same ↦
            rw same (subst (Bare prefixes) (sym (round.unchanged same).1) (round.unchanged same).2)
      ]

  -- beyond the length of the text more fuel changes nothing
  cut_all_enough :
      (fuel more : ℕ) (prefixes : List String) (text : String)
      → text_length text < fuel
      → text_length text < more
      → cut_all lib fuel prefixes text ≡ cut_all lib more prefixes text
  unfolding cut_all
  cut_all_enough zero more prefixes text h k = absurd (omega arith)
  cut_all_enough (suc fuel) zero prefixes text h k = absurd (omega arith)
  cut_all_enough (suc fuel) (suc more) prefixes text h k =
      let found = cut_prefixes lib prefixes (text, false) in
      elim (Bool-cases found.1) [
        | inl changed ↦
            let shorter = round_shorter prefixes text changed in
            rw changed (
              cut_all_enough fuel more prefixes found.0 (omega (arith, shorter))
                (omega (arith, shorter)))
        | inr same ↦ rw same refl
      ]

  -- The loop that removes the title in front of an excerpt ends, with any fuel beyond the length of
  -- the text in the same result, and no prefix of the title stands in front of that any more, where a
  -- match is not empty and ends in the text.
  pub snippet_without_title_prefix_ends :
      (value title source_ref : String) (fuel : ℕ)
      → text_length (strip value) < fuel
      → (snippet_without_title_prefix lib value title source_ref
          ≡ cut_all lib fuel (title_prefixes title source_ref) (strip value))
        × Bare
            (title_prefixes title source_ref)
            (snippet_without_title_prefix lib value title source_ref)
  unfolding snippet_without_title_prefix
  snippet_without_title_prefix_ends value title source_ref fuel h = (
    cut_all_enough (suc (text_length (strip value))) fuel (title_prefixes title source_ref)
        (strip value) (omega arith) h,
    cut_all-Bare (suc (text_length (strip value))) (title_prefixes title source_ref) (strip value)
        (omega arith),
  )
