-- ===== src/Prelude/Lists.antt =====
-- Lists measured by native numbers, sets of texts as lists, and predicates on all elements.
use Prim.Native.Nat.{ℕ, zero, suc, ◌+◌, ◌-◌, ◌≤◌, min}
use Prim.Native.String.{String, ◌++◌ as append_text}
use mathlib.Core.Path.{◌≡◌, refl, ap, subst}
use mathlib.Core.Logic.{◌⊎◌, ◌↔◌, inl, inr}
use mathlib.Core.Bool.{Bool, true, false, ◌||◌}
use mathlib.Core.List.{
  List, [], ◌∷◌, ◌++◌, map, reverse, reverse-cons, Mem, mem-cons_self, mem-cons_of_mem,
}
use text.Mathlib.TextPositions.{eq_refl}
use ok.Prelude.Tests.{Bool-cases}
use native.Mathlib.Omega.{arith}
use text.Mathlib.Text.{◌==◌}
use text.Mathlib.TextEquality.{eq_iff}

module _ {ℓ} {A : Type ℓ} where
  abbrev pub length : List A → ℕ
  length [] = 0
  length (x ∷ xs) = suc (length xs)

  abbrev pub take : ℕ → List A → List A
  take zero xs = []
  take (suc n) [] = []
  take (suc n) (x ∷ xs) = x ∷ take n xs

  abbrev pub drop : ℕ → List A → List A
  drop zero xs = xs
  drop (suc n) [] = []
  drop (suc n) (x ∷ xs) = drop n xs

  abbrev pub any : (A → Bool) → List A → Bool
  any p [] = false
  any p (x ∷ xs) = p x || any p xs

  pub length-append : (xs ys : List A) → length (xs ++ ys) ≡ length xs + length ys
  length-append [] ys = omega arith
  length-append (x ∷ xs) ys = omega (arith, length-append xs ys)

  pub length-take : (n : ℕ) (xs : List A) → length (take n xs) ≡ min n (length xs)
  length-take zero xs = omega arith
  length-take (suc n) [] = omega arith
  length-take (suc n) (x ∷ xs) = omega (arith, length-take n xs)

  pub length-drop : (n : ℕ) (xs : List A) → length (drop n xs) ≡ length xs - n
  length-drop zero xs = omega arith
  length-drop (suc n) [] = omega arith
  length-drop (suc n) (x ∷ xs) = omega (arith, length-drop n xs)

  pub take-append-drop : (n : ℕ) (xs : List A) → take n xs ++ drop n xs ≡ xs
  take-append-drop zero xs = refl
  take-append-drop (suc n) [] = refl
  take-append-drop (suc n) (x ∷ xs) = rw (take-append-drop n xs)

  pub any-append : (p : A → Bool) (xs ys : List A) → any p (xs ++ ys) ≡ (any p xs || any p ys)
  any-append p [] ys = refl
  any-append p (x ∷ xs) ys = ground (arith, any-append p xs ys)

-- `x in xs`, for a set or a list of texts
abbrev pub contains : List String → String → Bool
contains xs a = any (λ x. x == a) xs

contains-cons :
    (x : String) (xs : List String) (a : String)
    → (contains (x ∷ xs) a ≡ true) ↔ ((x ≡ a) ⊎ (contains xs a ≡ true))
contains-cons x xs a = ground (arith, eq_iff x a)

-- a text that is put together from parts
abbrev pub concat : List String → String
concat [] = ""
concat (s ∷ ss) = append_text s (concat ss)

-- a predicate that holds at every element
module _ {ℓ κ} {A : Type ℓ} where
  abbrev pub All : (A → Type κ) → List A → Type κ
  All P [] = Unit
  All P (x ∷ xs) = P x × All P xs

  pub All-append : (P : A → Type κ) (xs ys : List A) → All P xs → All P ys → All P (xs ++ ys)
  All-append P [] ys hx hy = hy
  All-append P (x ∷ xs) ys hx hy = (hx.0, All-append P xs ys hx.1 hy)

  pub All-middle : (P : A → Type κ) (xs : List A) (x : A) (ys : List A) → All P (xs ++ x ∷ ys) → P x
  All-middle P [] x ys h = h.0
  All-middle P (z ∷ xs) x ys h = All-middle P xs x ys h.1

  pub All-take : (P : A → Type κ) (n : ℕ) (xs : List A) → All P xs → All P (take n xs)
  All-take P zero xs h = tt
  All-take P (suc n) [] h = tt
  All-take P (suc n) (x ∷ xs) h = (h.0, All-take P n xs h.1)

  pub All-intro : (P : A → Type κ) → ((x : A) → P x) → (xs : List A) → All P xs
  All-intro P h [] = tt
  All-intro P h (x ∷ xs) = (h x, All-intro P h xs)

module _ {ℓ κ μ} {A : Type ℓ} where
  pub All-mono :
      (P : A → Type κ) (Q : A → Type μ)
      → ((x : A) → P x → Q x)
      → (xs : List A) → All P xs
      → All Q xs
  All-mono P Q f [] h = tt
  All-mono P Q f (x ∷ xs) h = (f x h.0, All-mono P Q f xs h.1)

module _ {ℓ κ μ} {A : Type ℓ} {B : Type κ} where
  pub All-map :
      (P : B → Type μ) (f : A → B) (xs : List A) → All (λ x. P (f x)) xs → All P (map f xs)
  All-map P f [] h = tt
  All-map P f (x ∷ xs) h = (h.0, All-map P f xs h.1)

-- no two elements are the same
module _ {ℓ} {A : Type ℓ} (same : A → A → Bool) where
  abbrev pub Distinct : List A → Type 0
  Distinct [] = Unit
  Distinct (x ∷ xs) = (any (same x) xs ≡ false) × Distinct xs

module _ {ℓ} {A : Type ℓ} where
  pub any-reverse : (p : A → Bool) (xs : List A) → any p (reverse xs) ≡ any p xs
  any-reverse p [] = refl
  any-reverse p (x ∷ xs) =
      rw reverse-cons (ground (arith, any-append p (reverse xs) (x ∷ []), any-reverse p xs))

module _ {ℓ} {A : Type ℓ} (same : A → A → Bool) (same_comm : (a b : A) → same a b ≡ same b a) where
  pub Distinct-snoc :
      (xs : List A) (x : A)
      → Distinct same xs
      → any (same x) xs ≡ false
      → Distinct same (xs ++ x ∷ [])
  Distinct-snoc [] x d new = (refl, tt)
  Distinct-snoc (y ∷ ys) x d new = (
    ground (arith, any-append (same y) ys (x ∷ []), same_comm x y, d.0, new),
    Distinct-snoc ys x d.1 (ground (arith, new)),
  )

  pub Distinct-reverse : (xs : List A) → Distinct same xs → Distinct same (reverse xs)
  Distinct-reverse [] d = tt
  Distinct-reverse (x ∷ xs) d =
      rw reverse-cons
        (Distinct-snoc (reverse xs) x (Distinct-reverse xs d.1) (rw (any-reverse (same x) xs) d.0))

module _ {ℓ κ} {A : Type ℓ} (P : A → Type κ) where
  pub All-reverse : (xs : List A) → All P xs → All P (reverse xs)
  All-reverse [] h = tt
  All-reverse (x ∷ xs) h =
      rw reverse-cons (All-append P (reverse xs) (x ∷ []) (All-reverse xs h.1) (h.0, tt))

module _ {ℓ κ μ ν} {A : Type ℓ} where
  -- two predicates together give a third
  pub All-zip :
      (P : A → Type κ) (Q : A → Type μ) (R : A → Type ν)
      → ((x : A) → P x → Q x → R x)
      → (xs : List A) → All P xs
      → All Q xs
      → All R xs
  All-zip P Q R f [] hp hq = tt
  All-zip P Q R f (x ∷ xs) hp hq = (f x hp.0 hq.0, All-zip P Q R f xs hp.1 hq.1)

pub length-map {ℓ κ} :
    {A : Type ℓ} {B : Type κ} (f : A → B) (xs : List A) → length (map f xs) ≡ length xs
length-map f [] = refl
length-map f (x ∷ xs) = ap suc (length-map f xs)

pub length-map-take {ℓ κ} :
    {A : Type ℓ} {B : Type κ} (f : A → B) (n : ℕ) (xs : List A) → length (map f (take n xs)) ≤ n
length-map-take f n xs = omega (arith, length-map f (take n xs), length-take n xs)

-- each element of a list is in it
pub All-Mem {ℓ} : {A : Type ℓ} (xs : List A) → All (λ x. Mem x xs) xs
All-Mem [] = tt
All-Mem (x ∷ xs) = (
  mem-cons_self,
  All-mono (λ y. Mem y xs) (λ y. Mem y (x ∷ xs)) (λ y h. mem-cons_of_mem x h) xs (All-Mem xs),
)

-- a test that holds somewhere holds at an element
pub any-found :
    (p : String → Bool) (xs : List String)
    → any p xs ≡ true
    → (x : String) × (p x ≡ true) × (contains xs x ≡ true)
any-found p [] h = cc
any-found p (x ∷ xs) h = elim (Bool-cases (p x)) [
  | inl e ↦ (x, e, ground (arith, eq_refl x))
  | inr e ↦
      let (y, holds, listed) = any-found p xs (ground (arith, e, h)) in
      (y, holds, ground (arith, listed))
]

pub All-contained : (xs : List String) → All (λ x. contains xs x ≡ true) xs
All-contained [] = tt
All-contained (x ∷ xs) = (
  ground (arith, eq_refl x),
  All-mono (λ y. contains xs y ≡ true) (λ y. contains (x ∷ xs) y ≡ true) (λ y h. ground (arith, h))
      xs (All-contained xs),
)

-- what holds of every image holds of a text among the images
pub contains-map-All {ℓ κ} :
    {A : Type ℓ} (P : String → Type κ) (f : A → String) (xs : List A) (s : String)
    → All (λ x. P (f x)) xs
    → contains (map f xs) s ≡ true
    → P s
contains-map-All P f [] s h e = cc
contains-map-All P f (x ∷ xs) s h e = elim (Bool-cases (f x == s)) [
  | inl same ↦ subst P ((eq_iff (f x) s).0 same) h.0
  | inr differ ↦ contains-map-All P f xs s h.1 (ground (arith, e, differ))
]
