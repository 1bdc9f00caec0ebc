-- ===== src/Prelude/Sort.antt =====
-- `sorted` and `list.sort`: a stable insertion sort by a test that says which of two stands before
-- the other, and sets of texts in their order.
use mathlib.Core.Path.{◌≡◌, refl, ◌∙◌, subst}
use text.Mathlib.Text.{◌==◌}
use text.Mathlib.TextEquality.{eq_iff}
use mathlib.Core.Logic.{inl, inr}
use mathlib.Core.Bool.{Bool, true, false, ◌||◌}
use mathlib.Core.List.{List, [], ◌∷◌}
use Prim.Native.String.{String}
use Prim.Native.Nat.{ℕ, zero, suc}
use native.Mathlib.Omega.{arith}
use ok.Prelude.Tests.{Bool-cases, if◌then◌else◌}
use ok.Prelude.Lists.{All, Distinct, any, contains, length, take}
use ok.Prelude.Text.{lt_text}

module _ {ℓ} {A : Type ℓ} where
  unfoldable pub insert_by : (A → A → Bool) → A → List A → List A
  insert_by before a [] = a ∷ []
  insert_by before a (b ∷ rest) =
      let below = insert_by before a rest in if before b a then b ∷ below else a ∷ b ∷ rest

  unfoldable pub sort_by : (A → A → Bool) → List A → List A
  unfolding insert_by
  sort_by before [] = []
  sort_by before (a ∷ rest) = insert_by before a (sort_by before rest)

module _ {ℓ κ} {A : Type ℓ} (P : A → Type κ) (before : A → A → Bool) where
  All-insert_by : (a : A) (xs : List A) → P a → All P xs → All P (insert_by before a xs)
  unfolding insert_by
  All-insert_by a [] ha h = (ha, tt)
  All-insert_by a (b ∷ rest) ha h = elim (Bool-cases (before b a)) [
    | inl e ↦ rw e (h.0, All-insert_by a rest ha h.1)
    | inr e ↦ rw e (ha, h)
  ]

  pub All-sort_by : (xs : List A) → All P xs → All P (sort_by before xs)
  unfolding sort_by
  All-sort_by [] h = tt
  All-sort_by (a ∷ xs) h = All-insert_by a (sort_by before xs) h.0 (All-sort_by xs h.1)

module _ {ℓ} {A : Type ℓ} (before : A → A → Bool) where
  any-insert_by :
      (p : A → Bool) (a : A) (xs : List A) → any p (insert_by before a xs) ≡ (p a || any p xs)
  unfolding insert_by
  any-insert_by p a [] = refl
  any-insert_by p a (b ∷ rest) = elim (Bool-cases (before b a)) [
    | inl e ↦ rw e (ground (arith, any-insert_by p a rest))
    | inr e ↦ rw e refl
  ]

  pub any-sort_by : (p : A → Bool) (xs : List A) → any p (sort_by before xs) ≡ any p xs
  unfolding sort_by
  any-sort_by p [] = refl
  any-sort_by p (a ∷ xs) = ground (arith, any-insert_by p a (sort_by before xs), any-sort_by p xs)

  length-insert_by : (a : A) (xs : List A) → length (insert_by before a xs) ≡ suc (length xs)
  unfolding insert_by
  length-insert_by a [] = refl
  length-insert_by a (b ∷ rest) = elim (Bool-cases (before b a)) [
    | inl e ↦ rw e (omega (arith, length-insert_by a rest))
    | inr e ↦ rw e refl
  ]

  pub length-sort_by : (xs : List A) → length (sort_by before xs) ≡ length xs
  unfolding sort_by
  length-sort_by [] = refl
  length-sort_by (a ∷ xs) = omega (arith, length-insert_by a (sort_by before xs), length-sort_by xs)

-- `sorted(set(texts))`
distinct_texts : List String → List String
distinct_texts [] = []
distinct_texts (s ∷ rest) =
    let others = distinct_texts rest in if contains rest s then others else s ∷ others

unfoldable pub sorted_set : List String → List String
unfolding distinct_texts sort_by lt_text
sorted_set texts = sort_by lt_text (distinct_texts texts)

contains-distinct_texts :
    (texts : List String) (a : String) → contains (distinct_texts texts) a ≡ contains texts a
unfolding distinct_texts
contains-distinct_texts [] a = refl
contains-distinct_texts (s ∷ rest) a =
    let behind = contains-distinct_texts rest a in
    elim (Bool-cases (contains rest s)) [
      | inl e ↦ elim (Bool-cases (s == a)) [
        | inl same ↦
            let listed : contains rest a ≡ true =
              subst (λ x. contains rest x ≡ true) ((eq_iff s a).0 same) e in
            rw (e, same) (behind ∙ listed)
        | inr other ↦ rw (e, other) behind
      ]
      | inr e ↦ rw e (ground (arith, behind))
    ]

pub contains-sorted_set :
    (texts : List String) (a : String) → contains (sorted_set texts) a ≡ contains texts a
unfolding sorted_set
contains-sorted_set texts a =
    any-sort_by lt_text (λ x. x == a) (distinct_texts texts) ∙ contains-distinct_texts texts a

-- no two elements of a sorted list or of its front are the same, if none of the list are
module _ {ℓ} {A : Type ℓ} (same : A → A → Bool) where
  any-take : (p : A → Bool) (n : ℕ) (xs : List A) → any p xs ≡ false → any p (take n xs) ≡ false
  any-take p zero xs h = refl
  any-take p (suc n) [] h = refl
  any-take p (suc n) (x ∷ xs) h =
      let rest : any p xs ≡ false = ground (arith, h) in ground (arith, h, any-take p n xs rest)

  pub Distinct-take : (n : ℕ) (xs : List A) → Distinct same xs → Distinct same (take n xs)
  Distinct-take zero xs d = tt
  Distinct-take (suc n) [] d = tt
  Distinct-take (suc n) (x ∷ xs) d = (any-take (same x) n xs d.0, Distinct-take n xs d.1)

  module _ (same_comm : (a b : A) → same a b ≡ same b a) (before : A → A → Bool) where
    Distinct-insert_by :
        (a : A) (xs : List A)
        → any (same a) xs ≡ false
        → Distinct same xs
        → Distinct same (insert_by before a xs)
    unfolding insert_by
    Distinct-insert_by a [] new d = (refl, tt)
    Distinct-insert_by a (b ∷ rest) new d = elim (Bool-cases (before b a)) [
      | inl e ↦ rw e (
        ground (arith, any-insert_by before (same b) a rest, same_comm a b, new, d.0),
        Distinct-insert_by a rest (ground (arith, new)) d.1,
      )
      | inr e ↦ rw e (new, d)
    ]

    pub Distinct-sort_by : (xs : List A) → Distinct same xs → Distinct same (sort_by before xs)
    unfolding sort_by
    Distinct-sort_by [] d = tt
    Distinct-sort_by (a ∷ xs) d =
        Distinct-insert_by a (sort_by before xs) (rw (any-sort_by before (same a) xs) d.0)
          (Distinct-sort_by xs d.1)

-- what holds of a sorted list holds of the list
module _ {ℓ κ} {A : Type ℓ} (P : A → Type κ) (before : A → A → Bool) where
  All-inserted : (a : A) (xs : List A) → All P (insert_by before a xs) → P a × All P xs
  unfolding insert_by
  All-inserted a [] h = h
  All-inserted a (b ∷ rest) h = elim (Bool-cases (before b a)) [
    | inl e ↦
        let split : P b × All P (insert_by before a rest) = rw e at h in
        let (own, others) = All-inserted a rest split.1 in (own, (split.0, others))
    | inr e ↦ rw e at h
  ]

  pub All-sorted : (xs : List A) → All P (sort_by before xs) → All P xs
  unfolding sort_by
  All-sorted [] h = tt
  All-sorted (a ∷ xs) h =
      let (own, others) = All-inserted a (sort_by before xs) h in (own, All-sorted xs others)
