-- ===== src/Access/Parts.antt =====
-- runtime/access.py, `_split_port_mapping`: the parts of a port mapping.
use mathlib.Core.Path.{subst}
use Prim.Native.Char.{Char}
use Prim.Native.String.{◌++◌ as append_text}
use text.Mathlib.TextLemmas.{nil-append, cons-append}
use ok.Prelude.{
  arith, sym, String, ◌≡◌, refl, ap, ◌∙◌, inl, inr, Bool, false, not, ◌&&◌, List, [], ◌∷◌, ◌==◌,
  eq_iff, join, Bool-cases, true, begins, codes,
}
use ok.Access.Ports.{is_char, onto_first, next_in_placeholder, split_from, split_port_mapping}

-- there is always a part
first_part :
    (in_placeholder : Bool) (s : String)
    → (p : String) × (ps : List String) × (split_from in_placeholder s ≡ p ∷ ps)
unfolding split_from
first_part b String.[] = ("", [], refl)
first_part b (String.◌∷◌ c s) = elim (Bool-cases (not b && is_char c ":")) [
  | inl cut ↦ ("", split_from (next_in_placeholder b c s) s, rw cut refl)
  | inr kept ↦
      let (p, ps, e) = first_part (next_in_placeholder b c s) s in
      (String.◌∷◌ c p, ps, rw kept (ap (onto_first c) e))
]

join_kept :
    (c : Char) (p : String) (ps : List String)
    → join ":" (onto_first c (p ∷ ps)) ≡ String.◌∷◌ c (join ":" (p ∷ ps))
unfolding join
join_kept c p ps = cons-append c p _

join_cut :
    (p : String) (ps : List String) → join ":" ("" ∷ p ∷ ps) ≡ append_text ":" (join ":" (p ∷ ps))
unfolding join
join_cut p ps = nil-append _

join_one : join ":" ("" ∷ []) ≡ ""
unfolding join
join_one = nil-append ""

joined : (in_placeholder : Bool) (s : String) → join ":" (split_from in_placeholder s) ≡ s
unfolding split_from
joined b String.[] = join_one
joined b (String.◌∷◌ c s) =
    let behind = joined (next_in_placeholder b c s) s in
    let (p, ps, e) = first_part (next_in_placeholder b c s) s in
    let rest : join ":" (p ∷ ps) ≡ s = rw e at behind in
    elim (Bool-cases (not b && is_char c ":")) [
      | inl cut ↦
          let colon : String.◌∷◌ c String.[] ≡ ":" =
            (eq_iff (String.◌∷◌ c String.[]) ":").0 (ground (arith, cut)) in
          rw (cut, e)
            (join_cut p ps
              ∙ ap (append_text ":") rest
              ∙ ap (λ t. append_text t s) (sym colon)
              ∙ cons-append c "" s
              ∙ ap (λ t. String.◌∷◌ c t) (nil-append s))
      | inr kept ↦ rw (kept, e) (join_kept c p ps ∙ ap (λ t. String.◌∷◌ c t) rest)
    ]

-- whether the text of a part goes on with an opening brace
abbrev opens_next : String → Bool
opens_next s = begins (codes s) (codes "{")

-- A part of a mapping, read from outside or from inside a placeholder: it has no colon outside a
-- placeholder, `${` opens one and `}` closes it. The last part alone may end inside one.
pub data Piece (last : Bool) : Bool → String → Type 0 where
  finished : Piece last false ""
  unclosed : last ≡ true → Piece last true ""
  plain :
      {c : Char} {s : String}
      → is_char c ":" ≡ false
      → (is_char c "$" && opens_next s) ≡ false
      → Piece last false s
      → Piece last false (String.◌∷◌ c s)
  opening :
      {c : Char} {s : String}
      → is_char c "$" ≡ true
      → opens_next s ≡ true
      → Piece last true s
      → Piece last false (String.◌∷◌ c s)
  inside :
      {c : Char} {s : String}
      → is_char c "}" ≡ false
      → Piece last true s
      → Piece last true (String.◌∷◌ c s)
  closing :
      {c : Char} {s : String}
      → is_char c "}" ≡ true
      → Piece last false s
      → Piece last true (String.◌∷◌ c s)

-- the parts, the first of which is read from where the mapping is
abbrev pub Pieces : Bool → List String → Type 0
Pieces b [] = Unit
Pieces b (p ∷ []) = Piece true b p
Pieces b (p ∷ q ∷ rest) = Piece false b p × Pieces false (q ∷ rest)

abbrev first_of : List String → String
first_of [] = ""
first_of (p ∷ ps) = p

-- a text that is cut or goes on begins like its first part
opens_next-first_part :
    (b : Bool) (s p : String) (ps : List String)
    → split_from b s ≡ p ∷ ps
    → opens_next s ≡ opens_next p
unfolding split_from
opens_next-first_part b String.[] p ps e = ap (λ l. opens_next (first_of l)) e
opens_next-first_part b (String.◌∷◌ c s) p ps e = elim (Bool-cases (not b && is_char c ":")) [
  | inl cut ↦
      let colon : String.◌∷◌ c String.[] ≡ ":" =
        (eq_iff (String.◌∷◌ c String.[]) ":").0 (ground (arith, cut)) in
      ap opens_next colon ∙ ap (λ l. opens_next (first_of l)) (rw cut at e)
  | inr kept ↦
      let (q, qs, behind) = first_part (next_in_placeholder b c s) s in
      ap (λ l. opens_next (first_of l)) (rw (kept, behind) at e)
]

-- a character in front of a part
onto-Piece :
    (last b : Bool) (c : Char) (p : String)
    → (not b && is_char c ":") ≡ false
    → Piece last (next_in_placeholder b c p) p
    → Piece last b (String.◌∷◌ c p)
onto-Piece last true c p kept h = elim (Bool-cases (is_char c "}")) [
  | inl closes ↦ closing closes (rw closes at h)
  | inr stays ↦ inside stays (rw stays at h)
]
onto-Piece last false c p kept h = elim (Bool-cases (is_char c "$" && opens_next p)) [
  | inl opens ↦ opening (ground (arith, opens)) (ground (arith, opens)) (rw opens at h)
  | inr stays ↦ plain kept stays (rw stays at h)
]

onto_first-Pieces :
    (b : Bool) (c : Char) (p : String) (ps : List String)
    → (not b && is_char c ":") ≡ false
    → Pieces (next_in_placeholder b c p) (p ∷ ps)
    → Pieces b (String.◌∷◌ c p ∷ ps)
onto_first-Pieces b c p [] kept h = onto-Piece true b c p kept h
onto_first-Pieces b c p (q ∷ rest) kept h = (onto-Piece false b c p kept h.0, h.1)

next-opens :
    (b : Bool) (c : Char) (s p : String)
    → opens_next s ≡ opens_next p
    → next_in_placeholder b c s ≡ next_in_placeholder b c p
next-opens true c s p e = refl
next-opens false c s p e = ap (λ o. is_char c "$" && o) e

-- a colon opens no placeholder
next-colon :
    (b : Bool) (c : Char) (s : String)
    → (not b && is_char c ":") ≡ true
    → (b ≡ false) × (next_in_placeholder b c s ≡ false)
next-colon true c s cut = cc cut
next-colon false c s cut =
    let colon : String.◌∷◌ c String.[] ≡ ":" =
      (eq_iff (String.◌∷◌ c String.[]) ":").0 (ground (arith, cut)) in
    (refl, ap (λ t. (t == "$") && opens_next s) colon)

-- a cut in front of the parts
cut-Pieces :
    (b : Bool) (p : String) (ps : List String)
    → b ≡ false
    → Pieces false (p ∷ ps)
    → Pieces b ("" ∷ p ∷ ps)
cut-Pieces true p ps h pieces = cc h
cut-Pieces false p ps h pieces = (finished, pieces)

split_from-Pieces : (b : Bool) (s : String) → Pieces b (split_from b s)
unfolding split_from
split_from-Pieces true String.[] = unclosed refl
split_from-Pieces false String.[] = finished
split_from-Pieces b (String.◌∷◌ c s) =
    let behind = split_from-Pieces (next_in_placeholder b c s) s in
    let (p, ps, e) = first_part (next_in_placeholder b c s) s in
    let pieces : Pieces (next_in_placeholder b c s) (p ∷ ps) =
      subst (Pieces (next_in_placeholder b c s)) e behind in
    elim (Bool-cases (not b && is_char c ":")) [
      | inl cut ↦
          let (outside, after) = next-colon b c s cut in
          rw (cut, e) (cut-Pieces b p ps outside (subst (λ n. Pieces n (p ∷ ps)) after pieces))
      | inr kept ↦
          rw (kept, e)
            (onto_first-Pieces b c p ps kept (
              subst (λ n. Pieces n (p ∷ ps))
                (next-opens b c s p (opens_next-first_part (next_in_placeholder b c s) s p ps e))
                pieces))
    ]

-- The parts of a port mapping, put together by colons, are the mapping; no part has a colon outside a
-- placeholder, and the last part alone may end inside one.
pub split_port_mapping-Pieces :
    (port_spec : String)
    → (join ":" (split_port_mapping port_spec) ≡ port_spec)
      × Pieces false (split_port_mapping port_spec)
unfolding split_port_mapping join
split_port_mapping-Pieces port_spec = elim (Bool-cases (port_spec == "")) [
  | inl empty ↦ rw empty (sym ((eq_iff port_spec "").0 empty), tt)
  | inr some_text ↦ rw some_text (joined false port_spec, split_from-Pieces false port_spec)
]
