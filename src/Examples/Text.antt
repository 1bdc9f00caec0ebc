-- ===== src/Examples/Text.antt =====
-- A text of four words, cut into chunks of three that share one, and a word with a letter missing.
use ok.Prelude.{◌↔◌, true, codes, ◌≡◌, List, words, return, arith}
use ok.Search.Scores.{is_one_edit_away}
use ok.Search.Edits.{OneEdit, is_one_edit_away-OneEdit}
use ok.Retrieval.Chunks.{Chunk, chunk_text}
use ok.Retrieval.Chunks.Cover.{Covers, chunk_text-Covers}

chunk_text-Covers_example :
    (chunks : List Chunk) × (chunk_text "one two three four" 3 1 ≡ return chunks)
    × Covers (words "one two three four") 3 1 chunks
chunk_text-Covers_example = chunk_text-Covers "one two three four" 3 1 (omega arith)

is_one_edit_away-OneEdit_example :
    (is_one_edit_away (codes "launch") (codes "lanch") ≡ true)
    ↔ OneEdit (codes "launch") (codes "lanch")
is_one_edit_away-OneEdit_example = is_one_edit_away-OneEdit (codes "launch") (codes "lanch")
