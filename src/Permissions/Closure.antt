-- ===== src/Permissions/Closure.antt =====
-- governance/permissions.py, `transitive_group_refs`: its worklist against the inheritance of groups.
use ok.Prelude.{
  ℕ, zero, suc, ◌+◌, ◌≤◌, String, ◌≡◌, ◌↔◌, ◌⊎◌, inl, inr, true, List, [], ◌∷◌, arith, eq_iff,
  eq_refl, contains, length, select_where, contains-select_where,
}
use ok.Permissions.{
  GroupInheritance, parents_of, all_parents, is_group, visit, expand, rounds, transitive_group_refs,
}
use ok.Permissions.Groups.{
  Inherits, direct, through, expanded-visit, pending-visit, unseen, unseen-le-length, work-visit,
  parents-in-all,
}

module _ (inheritance : GroupInheritance) (refs : List String) where
  record Inv (pending expanded : List String) : Type 0 where
    sound : (w : String) → contains expanded w ≡ true → Inherits inheritance refs w
    stack :
        (w : String)
        → contains pending w ≡ true
        → (is_group w ≡ true) × ((contains refs w ≡ true) ⊎ (contains expanded w ≡ true))
    closed :
        (u v : String)
        → is_group u ≡ true
        → (contains refs u ≡ true) ⊎ (contains expanded u ≡ true)
        → contains (parents_of inheritance u) v ≡ true
        → (contains pending u ≡ true) ⊎ (contains expanded v ≡ true)

  Inherits-parent :
      (child v : String) (expanded : List String)
      → ((w : String) → contains expanded w ≡ true → Inherits inheritance refs w)
      → (contains refs child ≡ true) ⊎ (contains expanded child ≡ true)
      → is_group child ≡ true
      → contains (parents_of inheritance child) v ≡ true
      → Inherits inheritance refs v
  Inherits-parent child v expanded sound (inl held) group parent = direct child held group parent
  Inherits-parent child v expanded sound (inr old) group parent =
      through (sound child old) group parent

  module _ (child : String) (rest expanded : List String) (h : Inv (child ∷ rest) expanded) where
    held :
        (is_group child ≡ true) × ((contains refs child ≡ true) ⊎ (contains expanded child ≡ true))
    held = h.stack child (ground (arith, eq_refl child))

    visit_sound :
        (w : String)
        → contains (visit (parents_of inheritance child) rest expanded).1 w ≡ true
        → Inherits inheritance refs w
    visit_sound w m = elim ((expanded-visit (parents_of inheritance child) rest expanded w).0 m) [
      | inl old ↦ h.sound w old
      | inr new ↦ Inherits-parent child w expanded h.sound held.1 held.0 new
    ]

    visit-Inv :
        Inv
          (visit (parents_of inheritance child) rest expanded).0
          (visit (parents_of inheritance child) rest expanded).1
    visit-Inv = record {
      sound = visit_sound;
      stack = λ w m. ground (
        arith,
        pending-visit (parents_of inheritance child) rest expanded w,
        expanded-visit (parents_of inheritance child) rest expanded w,
        h.stack w,
      );
      closed = λ u v group active parent. ground (
        arith,
        pending-visit (parents_of inheritance child) rest expanded u,
        expanded-visit (parents_of inheritance child) rest expanded u,
        expanded-visit (parents_of inheritance child) rest expanded v,
        h.closed u v group,
        eq_iff child u,
      );
    }

  complete :
      (expanded : List String)
      → Inv [] expanded
      → {w : String} → Inherits inheritance refs w
      → contains expanded w ≡ true
  complete expanded h (direct child {parent} held group is_parent) =
      ground (arith, h.closed child parent group (inl held) is_parent)
  complete expanded h (through {child} {parent} i group is_parent) =
      ground (arith, h.closed child parent group (inr (complete expanded h i)) is_parent)

  expand_lem :
      (fuel : ℕ) (pending expanded : List String)
      → length pending + unseen (all_parents inheritance) expanded ≤ fuel
      → Inv pending expanded
      → (w : String)
      → (contains (expand fuel inheritance pending expanded) w ≡ true) ↔ Inherits inheritance refs w
  unfolding expand
  expand_lem zero [] expanded room h w = (h.sound w, complete expanded h)
  expand_lem (suc fuel) [] expanded room h w = (h.sound w, complete expanded h)
  expand_lem zero (child ∷ rest) expanded room h w = absurd (omega arith)
  expand_lem (suc fuel) (child ∷ rest) expanded room h w =
      let work =
        work-visit (all_parents inheritance) (parents_of inheritance child) rest expanded
          (parents-in-all inheritance child) in
      expand_lem fuel (visit (parents_of inheritance child) rest expanded).0
        (visit (parents_of inheritance child) rest expanded).1 (omega arith)
        (visit-Inv child rest expanded h) w

  Inv-start : Inv (select_where is_group refs) []
  Inv-start = record {
    sound = λ w m. cc;
    stack = λ w m. ground (arith, contains-select_where is_group refs w);
    closed = λ u v group active parent. ground (arith, contains-select_where is_group refs u);
  }

-- A ref is in `transitive_group_refs` exactly when it is inherited: it is a parent of a group
-- among the refs, or of a group that is itself inherited. The inheritance may have cycles.
pub transitive_group_refs_correct :
    (refs : List String) (inheritance : GroupInheritance) (w : String)
    → (contains (transitive_group_refs refs inheritance) w ≡ true) ↔ Inherits inheritance refs w
unfolding transitive_group_refs
transitive_group_refs_correct refs inheritance w =
    expand_lem inheritance refs (rounds inheritance (select_where is_group refs))
      (select_where is_group refs) [] (omega (arith, unseen-le-length (all_parents inheritance) []))
      (Inv-start inheritance refs) w
