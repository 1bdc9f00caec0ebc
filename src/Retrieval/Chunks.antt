-- ===== src/Retrieval/Chunks.antt =====
-- `chunk_text` of retrieval/embeddings.py: overlapping windows over the words of a text.
pub mod Cover
use ok.Prelude.{
  ℕ, zero, suc, ◌+◌, ◌-◌, String, List, [], ◌∷◌, map, leb, ltb, length, take, drop, words, join,
  Result, return, raise, value_error, if◌then◌else◌,
}

pub record Chunk : Type 0 where
  pub chunk_index : ℕ
  pub text : String

module _ (words : List String) (max_words step : ℕ) where
  -- The windows from `start` on. One window is read in each round.
  pub windows : ℕ → ℕ → List (List String)
  windows zero start = []
  windows (suc fuel) start =
      let window = take max_words (drop start words) in
      let rest = windows fuel (start + step) in
      if ltb start (length words)
      then (if leb (length words) (start + max_words) then window ∷ [] else window ∷ rest)
      else []

-- the chunks are numbered as they are appended
pub number_chunks : ℕ → List (List String) → List Chunk
number_chunks index [] = []
number_chunks index (window ∷ rest) =
    record { chunk_index = index; text = join " " window } ∷ number_chunks (suc index) rest

-- The chunks of the words of a text.
pub chunk_words : List String → ℕ → ℕ → Result (List Chunk)
unfolding windows number_chunks
chunk_words [] max_words overlap_words = return []
chunk_words (w ∷ ws) max_words overlap_words =
    if leb max_words overlap_words
    then raise (value_error "max_words must be greater than overlap_words")
    else return (
        number_chunks 0
          (windows (w ∷ ws) max_words (max_words - overlap_words) (length (w ∷ ws)) 0))

pub chunk_text : String → ℕ → ℕ → Result (List Chunk)
unfolding chunk_words
chunk_text text max_words overlap_words = chunk_words (words text) max_words overlap_words
