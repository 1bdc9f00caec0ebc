-- ===== src/Retrieval/Chunks/Cover.antt =====
-- retrieval/embeddings.py, `chunk_text`: the chunks of a text against its words.
use ok.Prelude.{
  ℕ, zero, suc, ◌+◌, ◌-◌, ◌≤◌, ◌<◌, String, ◌≡◌, refl, sym, ap, ◌∙◌, inl, inr, true, false, List,
  [], ◌∷◌, ◌++◌, arith, leb, ltb, length, take, drop, length-take, length-drop, take-append-drop,
  words, All, Bool-cases, return,
}
use ok.Retrieval.Chunks.{Chunk, windows, number_chunks, chunk_words, chunk_text}

-- the words of windows, of which each further one repeats some of the one before
abbrev pub behind : ℕ → List (List String) → List String
behind overlap [] = []
behind overlap (w ∷ rest) = drop overlap w ++ behind overlap rest

abbrev glue : ℕ → List (List String) → List String
glue overlap [] = []
glue overlap (w ∷ rest) = w ++ behind overlap rest

module _ {A : Type 0} where
  drop-all : (n : ℕ) (xs : List A) → length xs ≤ n → drop n xs ≡ []
  drop-all zero [] h = refl
  drop-all zero (x ∷ xs) h = absurd (omega (arith, h))
  drop-all (suc n) [] h = refl
  drop-all (suc n) (x ∷ xs) h = drop-all n xs (omega (arith, h))

  take-all : (n : ℕ) (xs : List A) → length xs ≤ n → take n xs ≡ xs
  take-all zero [] h = refl
  take-all zero (x ∷ xs) h = absurd (omega (arith, h))
  take-all (suc n) [] h = refl
  take-all (suc n) (x ∷ xs) h = ap (λ r. x ∷ r) (take-all n xs (omega (arith, h)))

  drop-nil : (n : ℕ) → drop {A = A} n [] ≡ []
  drop-nil zero = refl
  drop-nil (suc n) = refl

  drop-drop : (m n : ℕ) (xs : List A) → drop m (drop n xs) ≡ drop (n + m) xs
  drop-drop m zero xs = ap (λ k. drop k xs) (omega arith)
  drop-drop m (suc n) [] = drop-nil m ∙ sym (drop-nil (suc n + m))
  drop-drop m (suc n) (x ∷ xs) =
      let next : suc (n + m) ≡ suc n + m = omega arith in
      drop-drop m n xs ∙ ap (λ k. drop k (x ∷ xs)) next

  drop-take-append : (m n : ℕ) (xs : List A) → m ≤ n → drop m (take n xs) ++ drop n xs ≡ drop m xs
  drop-take-append zero n xs h = take-append-drop n xs
  drop-take-append (suc m) zero xs h = absurd (omega (arith, h))
  drop-take-append (suc m) (suc n) [] h = refl
  drop-take-append (suc m) (suc n) (x ∷ xs) h = drop-take-append m n xs (omega (arith, h))

module _ (ws : List String) (max_words overlap : ℕ) (less : overlap < max_words) where
  abbrev step : ℕ
  step = max_words - overlap

  abbrev window_at : ℕ → List String
  window_at start = take max_words (drop start ws)

  abbrev windows_from : ℕ → ℕ → List (List String)
  windows_from fuel start = windows ws max_words step fuel start

  -- what is read behind a window ends where the text ends
  none_left :
      (start : ℕ) → leb (length ws) (start + max_words) ≡ true → drop max_words (drop start ws) ≡ []
  none_left start last =
      let reached : length ws ≤ start + max_words = ground (arith, last) in
      drop-all max_words (drop start ws) (omega (arith, length-drop start ws, reached))

  -- The windows from a start hold the words behind the overlap.
  windows-behind :
      (fuel start : ℕ)
      → start + overlap < length ws
      → length ws ≤ fuel + start
      → behind overlap (windows_from fuel start) ≡ drop (start + overlap) ws
  unfolding windows
  windows-behind zero start inside enough = absurd (omega (arith, inside, enough))
  windows-behind (suc fuel) start inside enough =
      let some_left : ltb start (length ws) ≡ true = ground (arith, inside) in
      let whole : drop overlap (window_at start) ++ drop max_words (drop start ws)
          ≡ drop (start + overlap) ws =
        drop-take-append overlap max_words (drop start ws) (omega (arith, less))
        ∙ drop-drop overlap start ws in
      elim (Bool-cases (leb (length ws) (start + max_words))) [
        | inl last ↦
            rw (some_left, last)
              (ap (λ r. drop overlap (window_at start) ++ r) (sym (none_left start last)) ∙ whole)
        | inr more ↦
            let ahead : start + max_words < length ws = ground (arith, more) in
            rw (some_left, more)
              (ap (λ r. drop overlap (window_at start) ++ r)
                  (windows-behind fuel (start + step) (omega (arith, ahead, less))
                      (omega (arith, enough, less))
                    ∙ ap (λ k. drop k ws) (next start)
                    ∙ sym (drop-drop max_words start ws))
                ∙ whole)
      ]
    where
      next : (start : ℕ) → start + step + overlap ≡ start + max_words
      next start = omega (arith, less)

  windows-glue :
      (fuel : ℕ)
      → 0 < length ws
      → length ws ≤ suc fuel
      → glue overlap (windows_from (suc fuel) 0) ≡ ws
  unfolding windows
  windows-glue fuel inside enough =
      let some_left : ltb 0 (length ws) ≡ true = ground (arith, inside) in
      elim (Bool-cases (leb (length ws) (0 + max_words))) [
        | inl last ↦
            rw (some_left, last)
              (ap (λ r. window_at 0 ++ r) (sym (none_left 0 last)) ∙ take-append-drop max_words ws)
        | inr more ↦
            let ahead : 0 + max_words < length ws = ground (arith, more) in
            let joined : 0 + step + overlap ≡ max_words = omega (arith, less) in
            rw (some_left, more)
              (ap (λ r. window_at 0 ++ r)
                  (windows-behind fuel (0 + step) (omega (arith, ahead, less))
                      (omega (arith, enough, less))
                    ∙ ap (λ k. drop k ws) joined)
                ∙ take-append-drop max_words ws)
      ]

  abbrev Fits : List String → Type 0
  Fits w = (1 ≤ length w) × (length w ≤ max_words)

  window_at-Fits : (start : ℕ) → start < length ws → Fits (window_at start)
  window_at-Fits start inside = (
    omega (arith, length-take max_words (drop start ws), length-drop start ws, less),
    omega (arith, length-take max_words (drop start ws)),
  )

  windows-Fits : (fuel start : ℕ) → All Fits (windows_from fuel start)
  unfolding windows
  windows-Fits zero start = tt
  windows-Fits (suc fuel) start =
      let rest = windows-Fits fuel (start + step) in
      elim (Bool-cases (ltb start (length ws))) [
        | inr past ↦ rw past tt
        | inl inside ↦
            let here = window_at-Fits start (ground (arith, inside)) in
            elim (Bool-cases (leb (length ws) (start + max_words))) [
              | inl last ↦ rw (inside, last) (here, tt)
              | inr more ↦ rw (inside, more) (here, rest)
            ]
      ]

-- what the chunks of words are to hold
pub record Covers (ws : List String) (max_words overlap : ℕ) (chunks : List Chunk) : Type 0 where
  pub windows_of : List (List String)
  pub numbered : chunks ≡ number_chunks 0 windows_of
  pub glued : glue overlap windows_of ≡ ws
  pub fitting : All (λ w. (1 ≤ length w) × (length w ≤ max_words)) windows_of

chunk_words-Covers :
    (ws : List String) (max_words overlap : ℕ)
    → overlap < max_words
    → (chunks : List Chunk) × (chunk_words ws max_words overlap ≡ return chunks)
      × Covers ws max_words overlap chunks
unfolding chunk_words number_chunks
chunk_words-Covers [] max_words overlap less =
    ([], refl, record { windows_of = []; numbered = refl; glued = refl; fitting = tt })
chunk_words-Covers (w ∷ ws) max_words overlap less =
    let allowed : leb max_words overlap ≡ false = ground (arith, less) in
    let found = windows (w ∷ ws) max_words (max_words - overlap) (length (w ∷ ws)) 0 in
    (
      number_chunks 0 found,
      rw allowed refl,
      record {
        windows_of = found;
        numbered = refl;
        glued =
            windows-glue (w ∷ ws) max_words overlap less (length ws) (omega arith) (omega arith);
        fitting = windows-Fits (w ∷ ws) max_words overlap less (length (w ∷ ws)) 0;
      },
    )

-- With an overlap below the maximum, a text is cut without an error into chunks numbered from 0.
-- None is empty or has more words than the maximum, and the first chunk with the others less their
-- overlaps is the words of the text, in order.
pub chunk_text-Covers :
    (text : String) (max_words overlap : ℕ)
    → overlap < max_words
    → (chunks : List Chunk) × (chunk_text text max_words overlap ≡ return chunks)
      × Covers (words text) max_words overlap chunks
unfolding chunk_text
chunk_text-Covers text max_words overlap less =
    chunk_words-Covers (words text) max_words overlap less
