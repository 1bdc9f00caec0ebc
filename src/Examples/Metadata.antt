-- ===== src/Examples/Metadata.antt =====
-- A batch that names one page twice, and one of a page with its author.
use ok.Prelude.{map, ◌==◌, ◌≡◌, true, List, [], ◌∷◌, any, All, Distinct}
use ok.Records.{SourceRecord, source_record}
use ok.Metadata.{latest_source_records}
use ok.Metadata.Latest.{same_source, latest-Distinct, latest-covers}
use ok.Storage.{test_environment}
use ok.Context.Links.{entity_links}
use ok.Context.Links.Joined.{Joins, entity_links-Joins}
use ok.Examples.Governance.{page}

abbrev twice : List SourceRecord
twice = page ∷ record page { body = "new plan" } ∷ []

latest-Distinct_example : Distinct same_source (latest_source_records twice)
latest-Distinct_example = latest-Distinct twice

latest-covers_example : All (λ r. any (same_source r) (latest_source_records twice) ≡ true) twice
latest-covers_example = latest-covers twice

-- an author, and a page of that author
abbrev authored : List SourceRecord
authored =
    record page { author_ref = "7" }
    ∷ record (source_record "crm:person:7" "wiki" "7" "person") {
      title = "Ada King";
      source_identities =
          record {
            source_system = "wiki";
            identity_ref = "ada";
            identity_type = "email";
            value = "ada@example.com";
            display_name = "Ada King";
          }
          ∷ [];
    }
    ∷ []

entity_links-Joins_example :
    All (Joins (map (λ r. r.source_ref) authored)) (entity_links test_environment authored)
    × Distinct (λ a b. a.link_ref == b.link_ref) (entity_links test_environment authored)
entity_links-Joins_example = entity_links-Joins test_environment authored
