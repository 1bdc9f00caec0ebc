-- ===== src/Prelude/Text.antt =====
-- Texts as Python's `str` operations see them: split, strip, join and find over code points.
use Prim.Native.Nat.{ℕ, zero, suc, ◌/◌, ◌%◌}
use Prim.Native.Char.{Char, code}
use Prim.Native.String.{String}
use mathlib.Core.Path.{◌≡◌, refl}
use mathlib.Core.Bool.{Bool, true, false, ◌&&◌, ◌||◌, not}
use mathlib.Core.List.{List, [], ◌∷◌}
use mathlib.Core.Option.{Option, none, some}
use text.Mathlib.Text.{◌==◌}
use ok.Prelude.Tests.{leb, ltb, eqb, if◌then◌else◌}
use ok.Prelude.Lists.{concat, length}
use ok.Prelude.Tables.{select_where}

-- `str.isspace` on one code point
abbrev pub is_space : ℕ → Bool
is_space c =
    (leb 9 c && leb c 13)
    || (leb 28 c && leb c 32)
    || eqb c 133
    || eqb c 160
    || eqb c 5760
    || (leb 8192 c && leb c 8202)
    || eqb c 8232
    || eqb c 8233
    || eqb c 8239
    || eqb c 8287
    || eqb c 12288

-- the code points of a text
abbrev pub codes : String → List ℕ
codes String.[] = []
codes (String.◌∷◌ c s) = code c ∷ codes s

-- `len(text)`
abbrev pub text_length : String → ℕ
text_length s = length (codes s)

-- the first word of a text, up to the next space, and what comes behind that
abbrev push_char : Char → List String → List String
push_char c [] = String.◌∷◌ c "" ∷ []
push_char c (w ∷ ws) = String.◌∷◌ c w ∷ ws

-- Pieces between spaces, empty ones included; the first piece is the one that is being read.
unfoldable pub pieces : String → List String
pieces String.[] = "" ∷ []
pieces (String.◌∷◌ c s) =
    let rest = pieces s in if is_space (code c) then "" ∷ rest else push_char c rest

-- `text.split()`
unfoldable pub words : String → List String
unfolding pieces
words s = select_where (λ w. not (w == "")) (pieces s)

unfoldable pub lstrip : String → String
lstrip String.[] = ""
lstrip (String.◌∷◌ c s) = let rest = lstrip s in if is_space (code c) then rest else String.◌∷◌ c s

unfoldable pub rstrip : String → String
rstrip String.[] = ""
rstrip (String.◌∷◌ c s) =
    let rest = rstrip s in if is_space (code c) && (rest == "") then "" else String.◌∷◌ c rest

-- `text.strip()`
unfoldable pub strip : String → String
unfolding lstrip rstrip
strip s = rstrip (lstrip s)

-- `separator.join(parts)`
abbrev join_tail : String → List String → List String
join_tail separator [] = []
join_tail separator (p ∷ ps) = separator ∷ p ∷ join_tail separator ps

unfoldable pub join : String → List String → String
join separator [] = ""
join separator (p ∷ ps) = concat (p ∷ join_tail separator ps)

abbrev pub is_empty : String → Bool
is_empty s = s == ""

-- `a or b` on texts
infixr 30 ◌or◌
abbrev pub ◌or◌ : String → String → String
a or b = if a == "" then b else a

-- `xs begins with ps`
abbrev pub begins : List ℕ → List ℕ → Bool
begins xs [] = true
begins [] (p ∷ ps) = false
begins (x ∷ xs) (p ∷ ps) = eqb x p && begins xs ps

-- `text.find(part)` over code points; `none` is -1
unfoldable pub find : List ℕ → List ℕ → Option ℕ
find [] part = if begins [] part then some 0 else none
find (x ∷ xs) part =
    let rest = find xs part in
    if begins (x ∷ xs) part then some 0 else elim rest [ none ↦ none | some n ↦ some (suc n) ]

-- `part in text`
unfoldable pub is_part : String → String → Bool
unfolding find
is_part part s = elim (find (codes s) (codes part)) [ none ↦ false | some _ ↦ true ]

-- The order of Python texts, by code points: `a < b`.
unfoldable pub lt_codes : List ℕ → List ℕ → Bool
lt_codes xs [] = false
lt_codes [] (y ∷ ys) = true
lt_codes (x ∷ xs) (y ∷ ys) = if eqb x y then lt_codes xs ys else leb x y

unfoldable pub lt_text : String → String → Bool
unfolding lt_codes
lt_text a b = lt_codes (codes a) (codes b)

unfoldable pub le_text : String → String → Bool
unfolding lt_text
le_text a b = not (lt_text b a)

-- `text[n:]` and `text[:n]`
unfoldable pub drop_text : ℕ → String → String
drop_text zero s = s
drop_text (suc n) String.[] = ""
drop_text (suc n) (String.◌∷◌ c s) = drop_text n s

unfoldable pub take_text : ℕ → String → String
take_text zero s = ""
take_text (suc n) String.[] = ""
take_text (suc n) (String.◌∷◌ c s) = String.◌∷◌ c (take_text n s)

-- `str(n)`
abbrev digit : ℕ → String
digit d =
    if ltb d 5
    then (if eqb d 0
        then "0"
        else if eqb d 1
        then "1"
        else if eqb d 2
        then "2"
        else if eqb d 3
        then "3"
        else "4")
    else (if eqb d 5
        then "5"
        else if eqb d 6
        then "6"
        else if eqb d 7
        then "7"
        else if eqb d 8
        then "8"
        else "9")

unfoldable pub decimal_fuel : ℕ → ℕ → String
decimal_fuel zero n = ""
decimal_fuel (suc fuel) n =
    let front = decimal_fuel fuel (n / 10) in
    if ltb n 10 then digit n else concat (front ∷ digit (n % 10) ∷ [])

unfoldable pub decimal : ℕ → String
unfolding decimal_fuel
decimal n = decimal_fuel (suc n) n

-- `f"{n:04d}"`
pub decimal4 : ℕ → String
unfolding decimal
decimal4 n = concat (
    (if ltb n 10 then "000" else if ltb n 100 then "00" else if ltb n 1000 then "0" else "")
    ∷ decimal n
    ∷ [])

text_runs :
    (words " two  words\n" ≡ "two" ∷ "words" ∷ [])
    × (strip "  a b\n" ≡ "a b")
    × (join ", " ("a" ∷ "b" ∷ "c" ∷ []) ≡ "a, b, c")
    × (lt_text "2024-01-09" "2024-01-10" ≡ true)
    × (find (codes "banana") (codes "nan") ≡ some 2)
    × (decimal4 105 ≡ "0105")
unfolding words strip join lt_text find decimal4
text_runs = (refl, refl, refl, refl, refl, refl)
