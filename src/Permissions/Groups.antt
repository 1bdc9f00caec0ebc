-- ===== src/Permissions/Groups.antt =====
-- governance/permissions.py: the inheritance of groups, and the inner loop of its worklist.
use ok.Prelude.{
  ℕ, ◌+◌, ◌≤◌, String, ◌≡◌, ◌↔◌, ◌⊎◌, true, false, List, [], ◌∷◌, arith, ◌==◌, eq_iff, eq_refl,
  contains, any-append, length, if◌then◌else◌,
}
use ok.Permissions.{GroupInheritance, parents_of, all_parents, is_group, visit}

-- A ref is inherited if it is a parent of a group that is held, or of a group that is inherited.
pub data Inherits (inheritance : GroupInheritance) (refs : List String) : String → Type 0 where
  direct :
      (child : String) {parent : String}
      → contains refs child ≡ true
      → is_group child ≡ true
      → contains (parents_of inheritance child) parent ≡ true
      → Inherits inheritance refs parent
  through :
      {child : String} {parent : String}
      → Inherits inheritance refs child
      → is_group child ≡ true
      → contains (parents_of inheritance child) parent ≡ true
      → Inherits inheritance refs parent

-- What the inner loop adds to the result, and to the stack.
pub expanded-visit :
    (ps pending expanded : List String) (w : String)
    → (contains (visit ps pending expanded).1 w ≡ true)
      ↔ ((contains expanded w ≡ true) ⊎ (contains ps w ≡ true))
unfolding visit
expanded-visit [] pending expanded w = ground arith
expanded-visit (p ∷ ps) pending expanded w = ground (
  arith,
  expanded-visit ps
      (if contains expanded p then pending else (if is_group p then p ∷ pending else pending))
      (if contains expanded p then expanded else p ∷ expanded) w,
  eq_iff p w,
)

pub pending-visit :
    (ps pending expanded : List String) (w : String)
    → (contains (visit ps pending expanded).0 w ≡ true) ↔ (
        (contains pending w ≡ true)
        ⊎ (is_group w ≡ true) × (contains ps w ≡ true) × (contains expanded w ≡ false))
unfolding visit
pending-visit [] pending expanded w = ground arith
pending-visit (p ∷ ps) pending expanded w = ground (
  arith,
  pending-visit ps
      (if contains expanded p then pending else (if is_group p then p ∷ pending else pending))
      (if contains expanded p then expanded else p ∷ expanded) w,
  eq_iff p w,
)

-- the entries of `all` that are not expanded yet
pub unseen : List String → List String → ℕ
unseen [] expanded = 0
unseen (p ∷ all) expanded = (if contains expanded p then 0 else 1) + unseen all expanded

unseen-cons-le :
    (all : List String) (expanded : List String) (p : String)
    → unseen all (p ∷ expanded) ≤ unseen all expanded
unfolding unseen
unseen-cons-le [] expanded p = omega arith
unseen-cons-le (q ∷ all) expanded p = ground (arith, unseen-cons-le all expanded p)

unseen-cons-lt :
    (all : List String) (expanded : List String) (p : String)
    → contains all p ≡ true
    → contains expanded p ≡ false
    → unseen all (p ∷ expanded) + 1 ≤ unseen all expanded
unfolding unseen
unseen-cons-lt [] expanded p h new = cc
unseen-cons-lt (q ∷ all) expanded p h new =
    ground (arith, unseen-cons-le all expanded p, unseen-cons-lt all expanded p, eq_iff q p)

pub unseen-le-length :
    (all : List String) (expanded : List String) → unseen all expanded ≤ length all
unfolding unseen
unseen-le-length [] expanded = omega arith
unseen-le-length (q ∷ all) expanded = ground (arith, unseen-le-length all expanded)

-- A visit puts on the stack no more than it takes out of what is not seen.
pub work-visit :
    (all ps pending expanded : List String)
    → ((w : String) → contains ps w ≡ true → contains all w ≡ true)
    → length (visit ps pending expanded).0 + unseen all (visit ps pending expanded).1
      ≤ length pending + unseen all expanded
unfolding visit
work-visit all [] pending expanded h = omega arith
work-visit all (p ∷ ps) pending expanded h = ground (
  arith,
  work-visit all ps
      (if contains expanded p then pending else (if is_group p then p ∷ pending else pending))
      (if contains expanded p then expanded else p ∷ expanded) (λ w m. h w (ground (arith, m))),
  unseen-cons-lt all expanded p (h p (ground (arith, eq_refl p))),
  unseen-cons-le all expanded p,
)

pub parents-in-all :
    (inheritance : GroupInheritance) (child w : String)
    → contains (parents_of inheritance child) w ≡ true
    → contains (all_parents inheritance) w ≡ true
parents-in-all [] child w h = cc
parents-in-all ((key, parents) ∷ rest) child w h =
    ground (arith, any-append (λ x. x == w) parents (all_parents rest), parents-in-all rest child w)
