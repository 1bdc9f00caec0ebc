-- ===== src/Augmentation/Python.antt =====
-- What retrieval/augmentation.py and retrieval/reranker.py take from Python and its libraries:
-- floats, regular expressions, dates and title case.
use ok.Prelude.{ℕ, ◌≤◌, ◌<◌, String, Bool, List, Option, some, ◌≡◌, text_length, if◌then◌else◌}

-- The floats that scores are computed in.
pub record Floats (F : Type 0) : Type 0 where
  -- a literal, by its text
  pub lit : String → F
  pub plus : F → F → F
  pub times : F → F → F
  -- `1.0 / n`
  pub inverse : ℕ → F
  -- `math.log1p(n)`
  pub log1p : ℕ → F
  pub less : F → F → Bool
  -- `round(x, digits)`
  pub round : ℕ → F → F
  -- the cosine similarity of the embedding of a query and a stored embedding
  pub similarity : String → String → F

-- `min(a, b)`
abbrev pub least : {F : Type 0} → Floats F → F → F → F
least num a b = if num.less b a then b else a

-- a moment in UTC: its day, counted from a fixed one, and the date of that day
pub record Moment : Type 0 where
  pub day : ℕ
  pub date : String

pub record Library : Type 0 where
  -- where the match of a prefix ends that stands in front of a text, in any case, up to a space or
  -- the end of the text
  pub match_prefix : String → String → Option ℕ
  -- `re.findall(r"[\w.+-]+", text)`
  pub word_runs : String → List String
  -- `str.title`
  pub title_case : String → String
  -- `datetime.fromisoformat`, in UTC; `none` where it raises
  pub parse_moment : String → Option Moment
  -- the seconds between a time and now, 0 for a time to come; `none` where it does not parse
  pub seconds_since : String → Option ℕ
  pub today : ℕ

-- A match of a prefix is not empty, and it ends in the text.
abbrev pub MatchesInside : Library → Type 0
MatchesInside lib =
    (prefix text : String) (n : ℕ)
    → lib.match_prefix prefix text ≡ some n
    → (0 < n) × (n ≤ text_length text)
