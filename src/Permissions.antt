-- ===== src/Permissions.antt =====
-- governance/policy.py and governance/permissions.py: principals and their permission refs.
pub mod Groups
pub mod Closure
pub mod Identity
pub mod Access
use ok.Prelude.{
  ℕ, zero, suc, ◌+◌, String, Bool, not, List, [], ◌∷◌, ◌++◌, map, Option, none, some, ◌==◌,
  starts_with, contains, concat, length, select_where, if◌then◌else◌,
}

pub record PrincipalContext : Type 0 where
  pub human_id : String
  pub agent_id : String
  pub roles : List String

abbrev pub local_default : PrincipalContext
local_default = record {
  human_id = "local-human";
  agent_id = "local-agent";
  roles = "operator" ∷ [];
}

-- `group_inheritance`: the parents of each group
abbrev pub GroupInheritance : Type 0
GroupInheritance = List (String × List String)

-- `group_inheritance.get(child, ())`
abbrev pub parents_of : GroupInheritance → String → List String
parents_of [] child = []
parents_of ((key, parents) ∷ rest) child = if key == child then parents else parents_of rest child

-- every parent that some group names
abbrev pub all_parents : GroupInheritance → List String
all_parents [] = []
all_parents ((key, parents) ∷ rest) = parents ++ all_parents rest

abbrev pub is_group : String → Bool
is_group ref = starts_with ref "group:"

-- The inner loop over the parents of one group. `pending` is the stack, its top first.
unfoldable pub visit : List String → List String → List String → List String × List String
visit [] pending expanded = (pending, expanded)
visit (parent ∷ rest) pending expanded =
    let old = contains expanded parent in
    visit rest (if old then pending else (if is_group parent then parent ∷ pending else pending))
      (if old then expanded else parent ∷ expanded)

-- `while pending`, on fuel
unfoldable pub expand : ℕ → GroupInheritance → List String → List String → List String
expand zero inheritance pending expanded = expanded
expand (suc fuel) inheritance pending expanded = elim pending [
  | [] ↦ expanded
  | child ∷ rest ↦
      let next = visit (parents_of inheritance child) rest expanded in
      expand fuel inheritance next.0 next.1
]

-- each round takes one group off the stack, and each parent is put there once at most
abbrev pub rounds : GroupInheritance → List String → ℕ
rounds inheritance pending = length pending + length (all_parents inheritance)

unfoldable pub transitive_group_refs : List String → GroupInheritance → List String
unfolding expand visit
transitive_group_refs permission_refs inheritance =
    let pending = select_where is_group permission_refs in
    expand (rounds inheritance pending) inheritance pending []

abbrev pub base_refs : PrincipalContext → List String
base_refs principal =
    principal.human_id
    ∷ (principal.roles ++ map (λ role. concat ("group:" ∷ role ∷ [])) principal.roles)

unfoldable pub principal_permission_refs : PrincipalContext → GroupInheritance → List String
unfolding transitive_group_refs
principal_permission_refs principal inheritance =
    let refs = base_refs principal in refs ++ transitive_group_refs refs inheritance
