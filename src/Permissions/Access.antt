-- ===== src/Permissions/Access.antt =====
-- governance/permissions.py, `principal_permission_refs`: the refs that a principal holds, directly
-- or by the inheritance of groups.
use ok.Prelude.{
  String, ◌≡◌, ◌↔◌, ◌⊎◌, inl, inr, true, List, [], ◌∷◌, arith, ◌==◌, eq_iff, any, any-append,
  contains, Bool-cases,
}
use ok.Permissions.{
  PrincipalContext, GroupInheritance, base_refs, transitive_group_refs, principal_permission_refs,
}
use ok.Permissions.Groups.{Inherits}
use ok.Permissions.Closure.{transitive_group_refs_correct}

-- the principal has the ref by itself or a role, or inherits it by its groups
abbrev pub Holds : PrincipalContext → GroupInheritance → String → Type 0
Holds principal inheritance ref =
    (contains (base_refs principal) ref ≡ true) ⊎ Inherits inheritance (base_refs principal) ref

-- A ref is among the permission refs of a principal exactly when it is the id or a role of the
-- principal, a role as a group, or inherited from these.
pub principal_permission_refs-Holds :
    (principal : PrincipalContext) (inheritance : GroupInheritance) (ref : String)
    → (contains (principal_permission_refs principal inheritance) ref ≡ true)
      ↔ Holds principal inheritance ref
unfolding principal_permission_refs
principal_permission_refs-Holds principal inheritance ref = ground (
  arith,
  any-append (λ x. x == ref) (base_refs principal)
      (transitive_group_refs (base_refs principal) inheritance),
  transitive_group_refs_correct (base_refs principal) inheritance ref,
)

-- a text of one list that the other holds
pub common :
    (xs ys : List String)
    → any (λ x. contains ys x) xs ≡ true
    → (ref : String) × (contains xs ref ≡ true) × (contains ys ref ≡ true)
common [] ys h = cc
common (x ∷ xs) ys h = elim (Bool-cases (contains ys x)) [
  | inl e ↦ (x, ground (arith, eq_iff x x), e)
  | inr e ↦
      let (ref, mine, yours) = common xs ys (ground (arith, e, h)) in
      (ref, ground (arith, mine), yours)
]

pub any-common :
    (xs ys : List String) (ref : String)
    → contains xs ref ≡ true
    → contains ys ref ≡ true
    → any (λ x. contains ys x) xs ≡ true
any-common [] ys ref mine yours = cc
any-common (x ∷ xs) ys ref mine yours = elim (Bool-cases (x == ref)) [
  | inl e ↦ rw ((eq_iff x ref).0 e) (ground (arith, yours))
  | inr e ↦ ground (arith, any-common xs ys ref (ground (arith, e, mine)) yours)
]
