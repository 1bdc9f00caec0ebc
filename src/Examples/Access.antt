-- ===== src/Examples/Access.antt =====
-- A compose file that publishes the database on the loopback address.
use ok.Prelude.{String, ◌≡◌, refl, false, [], ◌∷◌, return, raise, type_error, join, All}
use ok.Json.{Json, Fields, obj, num, str, arr, cons, nil, field, end}
use ok.Access.{AccessReport, no_report, check_compose_access_boundary, entries}
use ok.Access.Ports.{split_port_mapping}
use ok.Access.Loopback.{IsLocal, check_compose_access_boundary-IsLocal}
use ok.Access.Parts.{Pieces, split_port_mapping-Pieces}

abbrev services : Fields
services =
    field "postgres"
      (obj (field "ports" (arr (cons (str "${HOST:-127.0.0.1}:5432:5432/tcp") nil)) end)) end

abbrev repr : Json → String
repr _ = ""

abbrev report : AccessReport
report = record {
  exposures =
      (
        record {
          service = "postgres";
          host_ip = "${HOST:-127.0.0.1}";
          published = "5432";
          target = "5432";
          protocol = "tcp";
        },
        "allowed",
      )
      ∷ [];
  violations = [];
  skipped_services = [];
}

checked : check_compose_access_boundary repr (field "services" (obj services) end) ≡ return report
unfolding check_compose_access_boundary
checked = refl

-- a service with some value for its ports
abbrev publishing : Json → Fields
publishing ports = field "services" (obj (field "web" (obj (field "ports" ports end)) end)) end

-- an integer is passed over, and a value that is not iterable raises
passed_over :
    (check_compose_access_boundary repr (publishing (arr (cons (num 80) nil))) ≡ return no_report)
    × (check_compose_access_boundary repr (publishing (num 80))
        ≡ raise (type_error "'int' object is not iterable"))
unfolding check_compose_access_boundary
passed_over = (refl, refl)

-- a placeholder is not cut
cut_outside :
    split_port_mapping "${HOST:-127.0.0.1}:5432:5432" ≡ "${HOST:-127.0.0.1}" ∷ "5432" ∷ "5432" ∷ []
unfolding split_port_mapping
cut_outside = refl

check_compose_access_boundary-IsLocal_example : All (IsLocal repr) (entries services)
check_compose_access_boundary-IsLocal_example =
    check_compose_access_boundary-IsLocal repr (field "services" (obj services) end) services report
      refl checked refl

split_port_mapping-Pieces_example :
    (join ":" (split_port_mapping "${HOST:-127.0.0.1}:5432:5432") ≡ "${HOST:-127.0.0.1}:5432:5432")
    × Pieces false (split_port_mapping "${HOST:-127.0.0.1}:5432:5432")
split_port_mapping-Pieces_example = split_port_mapping-Pieces "${HOST:-127.0.0.1}:5432:5432"
