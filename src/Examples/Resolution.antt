-- ===== src/Examples/Resolution.antt =====
-- Two identities with one address, and a third of the same domain.
use ok.Prelude.{String, ◌≡◌, refl, List, [], ◌∷◌, get, ◌==◌}
use ok.Resolution.{
  LabeledIdentity, Matcher, exact_email_clusters, display_name_email_alias_clusters,
}
use ok.Resolution.Coarser.{display_name_email_alias_clusters-coarser}

abbrev identity : String → String → String → LabeledIdentity
identity ref value name = record {
  identity_ref = ref;
  source_system = "slack";
  identity_type = "email";
  value = value;
  display_name = name;
  expected_entity = name;
}

abbrev identities : List LabeledIdentity
identities =
    identity "slack:1" "ada@example.org" "Ada"
    ∷ identity "linear:1" " ada@example.org" "Ada"
    ∷ identity "crm:1" "a.lovelace@example.org" "Ada"
    ∷ []

-- names are similar if they are the same
abbrev matcher : Matcher
matcher = record { casefold = λ text. text; is_similar = λ a b. a == b }

one_address :
    get (exact_email_clusters matcher [] identities) "slack:1"
    ≡ get (exact_email_clusters matcher [] identities) "linear:1"
unfolding exact_email_clusters get
one_address = refl

one_person :
    get (display_name_email_alias_clusters matcher identities) "crm:1"
    ≡ get (display_name_email_alias_clusters matcher identities) "slack:1"
unfolding display_name_email_alias_clusters get
one_person = refl

display_name_email_alias_clusters-coarser_example :
    get (display_name_email_alias_clusters matcher identities) "slack:1"
    ≡ get (display_name_email_alias_clusters matcher identities) "linear:1"
display_name_email_alias_clusters-coarser_example =
    display_name_email_alias_clusters-coarser matcher identities "slack:1" "linear:1" refl refl
      one_address
