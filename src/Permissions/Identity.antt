-- ===== src/Permissions/Identity.antt =====
-- governance/identity.py, `principal_from_trusted_claims`: the principal of verified claims.
use ok.Prelude.{
  String, not, ◌||◌, List, [], ◌∷◌, ◌++◌, Option, none, some, ◌==◌, contains, concat, strip,
  select_where, Result, return, raise, value_error, ◌>>=◌, if◌then◌else◌,
}
use ok.Json.{Json, Fields, str, arr, obj, get_field, item_strings}
use ok.Permissions.{PrincipalContext}

-- `_strings`
unfoldable pub strings_of : Option Json → List String
strings_of (some (str value)) = value ∷ []
strings_of (some (arr xs)) = select_where (λ s. not (s == "")) (item_strings xs)
strings_of _ = []

-- `claims.get(name)`, where it is a text that is not empty
abbrev pub claim_text : Option Json → Option String
claim_text (some (str s)) = if s == "" then none else some s
claim_text _ = none

-- `_role_claims`
abbrev pub realm_roles : Option Json → List String
realm_roles (some (obj realm)) = strings_of (get_field realm "roles")
realm_roles _ = []

abbrev pub role_claims : Fields → List String
role_claims claims =
    strings_of (get_field claims "roles") ++ realm_roles (get_field claims "realm_access")

-- `_unique_strings`, behind the ones that are seen
unfoldable pub unique_strings : List String → List String → List String
unfolding strip
unique_strings seen [] = []
unique_strings seen (value ∷ values) =
    let known = (strip value == "") || contains seen (strip value) in
    let rest = unique_strings (if known then seen else strip value ∷ seen) values in
    if known then rest else strip value ∷ rest

abbrev pub roles_or : List String → List String
roles_or [] = "operator" ∷ []
roles_or (r ∷ rs) = r ∷ rs

module _ (casefold : String → String) where
  abbrev pub human_of : Option String → Option String → Result String
  human_of (some subject) email = return (concat ("human:" ∷ subject ∷ []))
  human_of none (some email) = return (concat ("human:email:" ∷ casefold (strip email) ∷ []))
  human_of none none = raise (value_error "trusted identity claims require sub or email")

  -- `_human_id`
  unfoldable pub human_id_of : Fields → Result String
  unfolding strip
  human_id_of claims =
      human_of (claim_text (get_field claims "sub")) (claim_text (get_field claims "email"))

  -- `principal_from_trusted_claims`
  unfoldable pub principal_from_trusted_claims : Fields → String → Result PrincipalContext
  unfolding human_id_of strings_of unique_strings
  principal_from_trusted_claims claims agent_id =
      if agent_id == ""
      then raise (value_error "agent_id is required")
      else human_id_of claims >>= λ human_id. return (record {
        human_id = human_id;
        agent_id = agent_id;
        roles =
            roles_or
              (unique_strings [] (strings_of (get_field claims "groups") ++ role_claims claims));
      })
