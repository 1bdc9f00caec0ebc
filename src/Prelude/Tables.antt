-- ===== src/Prelude/Tables.antt =====
-- A database table as the list of its rows: SELECT ... WHERE, DELETE ... WHERE, UPDATE ... WHERE,
-- and INSERT ... ON CONFLICT DO UPDATE on a key.
use mathlib.Core.Path.{◌≡◌, refl, ap}
use mathlib.Core.Bool.{Bool, true, false, not, ◌&&◌}
use mathlib.Core.List.{List, [], ◌∷◌, ◌++◌}
use Prim.Native.String.{String}
use text.Mathlib.TextEquality.{eq_iff}
use native.Mathlib.Omega.{arith}
use ok.Prelude.Tests.{Bool-cases, if◌then◌else◌}
use mathlib.Core.Option.{Option, none, some}
use mathlib.Core.Logic.{inl, inr}
use Prim.Native.Nat.{suc, ◌≤◌}
use ok.Prelude.Lists.{length, any, contains, All, Distinct, All-intro, All-append}

module _ {ℓ} {A : Type ℓ} where
  abbrev pub select_where : (A → Bool) → List A → List A
  select_where p [] = []
  select_where p (x ∷ xs) = let rest = select_where p xs in if p x then x ∷ rest else rest

  abbrev pub delete_where : (A → Bool) → List A → List A
  delete_where p = select_where (λ x. not (p x))

  abbrev pub update_where : (A → Bool) → (A → A) → List A → List A
  update_where p f [] = []
  update_where p f (x ∷ xs) = (if p x then f x else x) ∷ update_where p f xs

  -- one row, where `same` says that two rows have the same key
  abbrev pub upsert_row : (A → A → Bool) → A → List A → List A
  upsert_row same r xs = if any (same r) xs then update_where (same r) (λ _. r) xs else xs ++ r ∷ []

  abbrev pub upsert_rows : (A → A → Bool) → List A → List A → List A
  upsert_rows same [] xs = xs
  upsert_rows same (r ∷ rs) xs = upsert_rows same rs (upsert_row same r xs)

  -- the first row of an answer
  abbrev pub first : List A → Option A
  first [] = none
  first (x ∷ xs) = some x

module _ {ℓ κ} {A : Type ℓ} (P : A → Type κ) (p : A → Bool) where
  pub All-select_where : (xs : List A) → All P xs → All P (select_where p xs)
  All-select_where [] h = tt
  All-select_where (x ∷ xs) h = elim (Bool-cases (p x)) [
    | inl e ↦ rw e (h.0, All-select_where xs h.1)
    | inr e ↦ rw e (All-select_where xs h.1)
  ]

  -- a row that passes the test has to satisfy the predicate
  pub All-select_where_if :
      (xs : List A) → All (λ x. p x ≡ true → P x) xs → All P (select_where p xs)
  All-select_where_if [] h = tt
  All-select_where_if (x ∷ xs) h = elim (Bool-cases (p x)) [
    | inl e ↦ rw e (h.0 e, All-select_where_if xs h.1)
    | inr e ↦ rw e (All-select_where_if xs h.1)
  ]

  pub All-update_where :
      (f : A → A)
      → ((x : A) → p x ≡ true → P x → P (f x))
      → (xs : List A) → All P xs
      → All P (update_where p f xs)
  All-update_where f keep [] h = tt
  All-update_where f keep (x ∷ xs) h = elim (Bool-cases (p x)) [
    | inl e ↦ rw e (keep x e h.0, All-update_where f keep xs h.1)
    | inr e ↦ rw e (h.0, All-update_where f keep xs h.1)
  ]

module _ {ℓ} {A : Type ℓ} where
  pub All-selected : (p : A → Bool) (xs : List A) → All (λ x. p x ≡ true) (select_where p xs)
  All-selected p xs = All-select_where_if (λ x. p x ≡ true) p xs (All-intro _ (λ x h. h) xs)

  pub any-select_where :
      (q p : A → Bool) (xs : List A) → any q (select_where p xs) ≡ any (λ x. p x && q x) xs
  any-select_where q p [] = refl
  any-select_where q p (x ∷ xs) = elim (Bool-cases (p x)) [
    | inl e ↦ rw e (rw (any-select_where q p xs))
    | inr e ↦ rw e (any-select_where q p xs)
  ]

module _ {ℓ} {A : Type ℓ} where
  pub length-update_where :
      (p : A → Bool) (f : A → A) (xs : List A) → length (update_where p f xs) ≡ length xs
  length-update_where p f [] = refl
  length-update_where p f (x ∷ xs) = ap suc (length-update_where p f xs)

  pub length-select_where : (p : A → Bool) (xs : List A) → length (select_where p xs) ≤ length xs
  length-select_where p [] = omega arith
  length-select_where p (x ∷ xs) = elim (Bool-cases (p x)) [
    | inl e ↦ rw e (omega (arith, length-select_where p xs))
    | inr e ↦ rw e (omega (arith, length-select_where p xs))
  ]

  pub select_where-none :
      (p : A → Bool) (xs : List A) → All (λ x. p x ≡ false) xs → select_where p xs ≡ []
  select_where-none p [] h = refl
  select_where-none p (x ∷ xs) h = rw (h.0, select_where-none p xs h.1) refl

  -- what is left of the rows with `q`, when the rows with `q` and `p` are deleted
  pub All-left :
      (q p : A → Bool) (xs : List A)
      → All (λ x. p x ≡ false) (select_where q (delete_where (λ x. q x && p x) xs))
  All-left q p [] = tt
  All-left q p (x ∷ xs) = elim (Bool-cases (q x)) [
    | inl hit ↦ elim (Bool-cases (p x)) [
      | inl gone ↦ rw (hit, gone) (All-left q p xs)
      | inr left ↦ rw (hit, left) (rw hit (left, All-left q p xs))
    ]
    | inr miss ↦ rw miss (rw miss (All-left q p xs))
  ]

  -- rows that are not deleted are selected as before
  pub select_where-delete_where :
      (q p : A → Bool) (xs : List A)
      → ((x : A) → q x ≡ true → p x ≡ false)
      → select_where q (delete_where p xs) ≡ select_where q xs
  select_where-delete_where q p [] kept = refl
  select_where-delete_where q p (x ∷ xs) kept =
      let behind = select_where-delete_where q p xs kept in
      elim (Bool-cases (q x)) [
        | inl hit ↦ rw (kept x hit, hit) (rw behind refl)
        | inr miss ↦ elim (Bool-cases (p x)) [
          | inl gone ↦ rw (gone, miss) behind
          | inr left ↦ rw (left, miss) behind
        ]
      ]

  pub any-selected_false :
      (q p : A → Bool) (xs : List A) → any q xs ≡ false → any q (select_where p xs) ≡ false
  any-selected_false q p [] h = refl
  any-selected_false q p (x ∷ xs) h =
      let behind = any-selected_false q p xs (ground (arith, h)) in
      elim (Bool-cases (p x)) [ inl e ↦ rw e (ground (arith, h, behind)) | inr e ↦ rw e behind ]

  pub Distinct-select_where :
      (same : A → A → Bool) (p : A → Bool) (xs : List A)
      → Distinct same xs
      → Distinct same (select_where p xs)
  Distinct-select_where same p [] d = tt
  Distinct-select_where same p (x ∷ xs) d =
      let behind = Distinct-select_where same p xs d.1 in
      elim (Bool-cases (p x)) [
        | inl e ↦ rw e (any-selected_false (same x) p xs d.0, behind)
        | inr e ↦ rw e behind
      ]

pub contains-select_where :
    (p : String → Bool) (xs : List String) (w : String)
    → contains (select_where p xs) w ≡ (p w && contains xs w)
contains-select_where p [] w = ground arith
contains-select_where p (x ∷ xs) w = ground (arith, contains-select_where p xs w, eq_iff x w)

module _ {ℓ κ} {A : Type ℓ} (P : A → Type κ) (same : A → A → Bool) where
  All-upsert_row : (r : A) (xs : List A) → P r → All P xs → All P (upsert_row same r xs)
  All-upsert_row r xs hr h = elim (Bool-cases (any (same r) xs)) [
    | inl e ↦ rw e (All-update_where P (same r) (λ _. r) (λ x _ _. hr) xs h)
    | inr e ↦ rw e (All-append P xs (r ∷ []) h (hr, tt))
  ]

  pub All-upsert_rows : (rs xs : List A) → All P rs → All P xs → All P (upsert_rows same rs xs)
  All-upsert_rows [] xs hr h = h
  All-upsert_rows (r ∷ rs) xs hr h =
      All-upsert_rows rs (upsert_row same r xs) hr.1 (All-upsert_row r xs hr.0 h)
