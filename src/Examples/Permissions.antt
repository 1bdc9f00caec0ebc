-- ===== src/Examples/Permissions.antt =====
-- Two groups that inherit from each other.
use ok.Prelude.{refl, return, ◌≡◌, ◌↔◌, true, false, [], ◌∷◌, contains}
use ok.Json.{dumps, Fields, field, end, str, arr, cons, nil}
use ok.Permissions.Identity.{principal_from_trusted_claims}
use ok.Permissions.{
  GroupInheritance, local_default, transitive_group_refs, principal_permission_refs,
}
use ok.Permissions.Groups.{Inherits}
use ok.Permissions.Closure.{transitive_group_refs_correct}
use ok.Permissions.Access.{Holds, principal_permission_refs-Holds}
use ok.Metadata.{is_denied}
use ok.Metadata.Denied.{Open, is_denied_iff}
use ok.Examples.Governance.{page_row}

abbrev teams : GroupInheritance
teams = ("group:operator", "group:staff" ∷ []) ∷ ("group:staff", "group:operator" ∷ []) ∷ []

transitive_group_refs_correct_example :
    (contains (transitive_group_refs ("group:operator" ∷ []) teams) "group:staff" ≡ true)
    ↔ Inherits teams ("group:operator" ∷ []) "group:staff"
transitive_group_refs_correct_example =
    transitive_group_refs_correct ("group:operator" ∷ []) teams "group:staff"

principal_permission_refs-Holds_example :
    (contains (principal_permission_refs local_default teams) "group:staff" ≡ true)
    ↔ Holds local_default teams "group:staff"
principal_permission_refs-Holds_example =
    principal_permission_refs-Holds local_default teams "group:staff"

is_denied_iff_example :
    (is_denied local_default teams
        (record page_row { permission_refs = dumps ("group:staff" ∷ []) })
      ≡ false)
    ↔ Open local_default teams (record page_row { permission_refs = dumps ("group:staff" ∷ []) })
is_denied_iff_example =
    is_denied_iff local_default teams
      (record page_row { permission_refs = dumps ("group:staff" ∷ []) })

-- the claims of a user in two groups, one of which is named twice
abbrev claims : Fields
claims =
    field "sub" (str "ada") (
      field "groups" (arr (cons (str "sales") (cons (str " sales ") (cons (str "legal") nil)))) end)

known_principal :
    principal_from_trusted_claims (λ text. text) claims "agent"
    ≡ return (record { human_id = "human:ada"; agent_id = "agent"; roles = "sales" ∷ "legal" ∷ [] })
unfolding principal_from_trusted_claims
known_principal = refl
