-- ===== src/Search/Edits.antt =====
-- retrieval/search.py, `_is_one_edit_away`, against the texts that differ by one edit.
use ok.Prelude.{
  ℕ, suc, ◌+◌, ◌-◌, ◌≤◌, ◌≡◌, refl, sym, ap, ◌↔◌, ◌⊎◌, inl, inr, true, List, [], ◌∷◌, ◌++◌, arith,
  eqb, ltb, length, length-append, Bool-cases,
}
use ok.Search.Scores.{eq_codes, mismatches, walk, is_one_edit_away}

-- one text has one character more than the other
abbrev pub Inserted : List ℕ → List ℕ → Type 0
Inserted longer shorter =
    (p : List ℕ) × (s : List ℕ) × (c : ℕ) × (longer ≡ p ++ c ∷ s) × (shorter ≡ p ++ s)

-- the texts differ in one character at most
abbrev pub Replaced : List ℕ → List ℕ → Type 0
Replaced xs ys =
    (p : List ℕ) × (s : List ℕ) × (a : ℕ) × (b : ℕ) × (xs ≡ p ++ a ∷ s) × (ys ≡ p ++ b ∷ s)

abbrev pub OneEdit : List ℕ → List ℕ → Type 0
OneEdit left right =
    (left ≡ right) ⊎ (Replaced left right ⊎ (Inserted left right ⊎ Inserted right left))

cons_eq : {a b : ℕ} {xs ys : List ℕ} → a ≡ b → xs ≡ ys → a ∷ xs ≡ b ∷ ys
cons_eq same rest = cc

eq_codes_refl : (xs : List ℕ) → eq_codes xs xs ≡ true
eq_codes_refl [] = refl
eq_codes_refl (a ∷ xs) = ground (arith, eq_codes_refl xs)

eq_codes-eq : (xs ys : List ℕ) → eq_codes xs ys ≡ true → xs ≡ ys
eq_codes-eq [] [] h = refl
eq_codes-eq [] (b ∷ ys) h = cc
eq_codes-eq (a ∷ xs) [] h = cc
eq_codes-eq (a ∷ xs) (b ∷ ys) h =
    cons_eq (ground (arith, h)) (eq_codes-eq xs ys (ground (arith, h)))

-- characters that are equal, and those that are not
eqb-eq : (a b : ℕ) → eqb a b ≡ true → a ≡ b
eqb-eq a b h = ground (arith, h)

eqb_refl : (a : ℕ) → eqb a a ≡ true
eqb_refl a = ground arith

walk-same : (xs : List ℕ) (edits : ℕ) → walk xs xs edits ≡ true
unfolding walk
walk-same [] edits = refl
walk-same (a ∷ xs) edits = rw (eqb_refl a) (walk-same xs edits)

-- behind one edit, the rests are to be equal
walk-rest : (xs ys : List ℕ) → length xs ≡ length ys → walk xs ys 1 ≡ true → xs ≡ ys
unfolding walk
walk-rest [] [] e h = refl
walk-rest [] (b ∷ ys) e h = absurd (omega (arith, e))
walk-rest (a ∷ xs) [] e h = absurd (omega (arith, e))
walk-rest (a ∷ xs) (b ∷ ys) e h = elim (Bool-cases (eqb a b)) [
  | inl same ↦ cons_eq (eqb-eq a b same) (walk-rest xs ys (omega (arith, e)) (rw same at h))
  | inr differ ↦ cc (rw differ at h)
]

walk-Inserted :
    (xs ys : List ℕ) → length xs ≡ suc (length ys) → walk xs ys 0 ≡ true → Inserted xs ys
unfolding walk
walk-Inserted [] ys e h = absurd (omega (arith, e))
walk-Inserted (a ∷ []) [] e h = ([], [], a, refl, refl)
walk-Inserted (a ∷ c ∷ xs) [] e h = absurd (omega (arith, e))
walk-Inserted (a ∷ xs) (b ∷ ys) e h = elim (Bool-cases (eqb a b)) [
  | inl same ↦
      let (p, s, c, longer, shorter) = walk-Inserted xs ys (omega (arith, e)) (rw same at h) in
      (a ∷ p, s, c, ap (λ r. a ∷ r) longer, cons_eq (sym (eqb-eq a b same)) shorter)
  | inr differ ↦ (
    [],
    b ∷ ys,
    a,
    ap (λ r. a ∷ r) (walk-rest xs (b ∷ ys) (omega (arith, e)) (rw differ at h)),
    refl,
  )
]

-- a text against itself with a character before it
walk-first : (s : List ℕ) (c : ℕ) → walk (c ∷ s) s 0 ≡ true
unfolding walk
walk-first [] c = refl
walk-first (b ∷ s) c = elim (Bool-cases (eqb c b)) [
  | inl same ↦ rw same (walk-first s b)
  | inr differ ↦ rw differ (walk-same (b ∷ s) 1)
]

walk-inserted : (p s : List ℕ) (c : ℕ) → walk (p ++ c ∷ s) (p ++ s) 0 ≡ true
unfolding walk
walk-inserted [] s c = walk-first s c
walk-inserted (a ∷ p) s c = rw (eqb_refl a) (walk-inserted p s c)

mismatches-same : (xs : List ℕ) → mismatches xs xs ≡ 0
unfolding mismatches
mismatches-same [] = refl
mismatches-same (a ∷ xs) = rw (eqb_refl a) (omega (arith, mismatches-same xs))

mismatches-replaced : (p s : List ℕ) (a b : ℕ) → mismatches (p ++ a ∷ s) (p ++ b ∷ s) ≤ 1
unfolding mismatches
mismatches-replaced [] s a b = elim (Bool-cases (eqb a b)) [
  | inl same ↦ rw same (omega (arith, mismatches-same s))
  | inr differ ↦ rw differ (omega (arith, mismatches-same s))
]
mismatches-replaced (c ∷ p) s a b = rw (eqb_refl c) (omega (arith, mismatches-replaced p s a b))

no_mismatches : (xs ys : List ℕ) → length xs ≡ length ys → mismatches xs ys ≡ 0 → xs ≡ ys
unfolding mismatches
no_mismatches [] [] e h = refl
no_mismatches [] (b ∷ ys) e h = absurd (omega (arith, e))
no_mismatches (a ∷ xs) [] e h = absurd (omega (arith, e))
no_mismatches (a ∷ xs) (b ∷ ys) e h = elim (Bool-cases (eqb a b)) [
  | inl same ↦
      cons_eq (eqb-eq a b same)
        (no_mismatches xs ys (omega (arith, e)) (omega (arith, rw same at h)))
  | inr differ ↦ absurd (omega (arith, rw differ at h))
]

mismatches-Replaced :
    (xs ys : List ℕ) → length xs ≡ length ys → mismatches xs ys ≤ 1 → (xs ≡ ys) ⊎ Replaced xs ys
unfolding mismatches
mismatches-Replaced [] [] e h = inl refl
mismatches-Replaced [] (b ∷ ys) e h = absurd (omega (arith, e))
mismatches-Replaced (a ∷ xs) [] e h = absurd (omega (arith, e))
mismatches-Replaced (a ∷ xs) (b ∷ ys) e h = elim (Bool-cases (eqb a b)) [
  | inl same ↦ elim (mismatches-Replaced xs ys (omega (arith, e)) (omega (arith, rw same at h))) [
    | inl rest ↦ inl (cons_eq (eqb-eq a b same) rest)
    | inr (p, s, c, d, left, right) ↦
        inr (a ∷ p, s, c, d, ap (λ r. a ∷ r) left, cons_eq (sym (eqb-eq a b same)) right)
  ]
  | inr differ ↦
      let rest : xs ≡ ys = no_mismatches xs ys (omega (arith, e)) (omega (arith, rw differ at h)) in
      inr ([], xs, a, b, refl, ap (λ r. b ∷ r) (sym rest))
]

module _ (left right : List ℕ) where
  edit-same_length :
      length left ≡ length right → mismatches left right ≤ 1 → is_one_edit_away left right ≡ true
  unfolding is_one_edit_away
  edit-same_length e h = ground (arith, e, h)

  edit-longer :
      length left ≡ suc (length right)
      → walk left right 0 ≡ true
      → is_one_edit_away left right ≡ true
  unfolding is_one_edit_away
  edit-longer e h = ground (arith, e, h)

  edit-shorter :
      length right ≡ suc (length left)
      → walk right left 0 ≡ true
      → is_one_edit_away left right ≡ true
  unfolding is_one_edit_away
  edit-shorter e h = ground (arith, e, h)

  edit-OneEdit : is_one_edit_away left right ≡ true → OneEdit left right
  unfolding is_one_edit_away
  edit-OneEdit h =
      elim (Bool-cases (ltb 1 ((length left - length right) + (length right - length left)))) [
        | inl far ↦ cc (rw far at h)
        | inr near ↦ elim (Bool-cases (eq_codes left right)) [
          | inl same ↦ inl (eq_codes-eq left right same)
          | inr differ ↦ elim (Bool-cases (eqb (length left) (length right))) [
            | inl level ↦
                elim (mismatches-Replaced left right (ground (arith, level))
                  (ground (arith, near, differ, level, h))) [
                    | inl same ↦ inl same
                    | inr replaced ↦ inr (inl replaced)
                  ]
            | inr uneven ↦ elim (Bool-cases (ltb (length left) (length right))) [
              | inl short ↦ inr (
                  inr (
                    inr (
                      walk-Inserted right left (ground (arith, near, short))
                        (ground (arith, near, differ, uneven, short, h)))))
              | inr long ↦ inr (
                  inr (
                    inl (
                      walk-Inserted left right (ground (arith, near, uneven, long))
                        (ground (arith, near, differ, uneven, long, h)))))
            ]
          ]
        ]
      ]

Inserted-length : (xs ys : List ℕ) → Inserted xs ys → length xs ≡ suc (length ys)
Inserted-length xs ys (p, s, c, longer, shorter) =
    omega (arith, ap length longer, ap length shorter, length-append p (c ∷ s), length-append p s)

Inserted-walk : (xs ys : List ℕ) → Inserted xs ys → walk xs ys 0 ≡ true
Inserted-walk xs ys (p, s, c, longer, shorter) = rw (longer, shorter) (walk-inserted p s c)

Replaced-length : (xs ys : List ℕ) → Replaced xs ys → length xs ≡ length ys
Replaced-length xs ys (p, s, a, b, left, right) =
    omega (arith, ap length left, ap length right, length-append p (a ∷ s), length-append p (b ∷ s))

Replaced-mismatches : (xs ys : List ℕ) → Replaced xs ys → mismatches xs ys ≤ 1
Replaced-mismatches xs ys (p, s, a, b, left, right) = rw (left, right) (mismatches-replaced p s a b)

OneEdit-edit : (left right : List ℕ) → OneEdit left right → is_one_edit_away left right ≡ true
OneEdit-edit left right (inl same) =
    rw same (edit-same_length right right refl (omega (arith, mismatches-same right)))
OneEdit-edit left right (inr (inl replaced)) =
    edit-same_length left right (Replaced-length left right replaced)
      (Replaced-mismatches left right replaced)
OneEdit-edit left right (inr (inr (inl inserted))) =
    edit-longer left right (Inserted-length left right inserted) (Inserted-walk left right inserted)
OneEdit-edit left right (inr (inr (inr inserted))) =
    edit-shorter left right (Inserted-length right left inserted)
      (Inserted-walk right left inserted)

-- Two texts pass the test of the fuzzy search exactly when they are equal, or one character of the
-- one is replaced in the other, or one of them has one character more, at any place.
pub is_one_edit_away-OneEdit :
    (left right : List ℕ) → (is_one_edit_away left right ≡ true) ↔ OneEdit left right
is_one_edit_away-OneEdit left right = (edit-OneEdit left right, OneEdit-edit left right)
