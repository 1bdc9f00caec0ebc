-- ===== src/Access.antt =====
-- runtime/access.py, `check_compose_access_boundary`: the ports that a compose file publishes against
-- the ones that are allowed.
pub mod Ports
pub mod Loopback
pub mod Parts
use ok.Prelude.{
  ℕ, String, Bool, true, false, not, ◌&&◌, ◌||◌, List, [], ◌∷◌, ◌++◌, map, Option, none, some, ◌==◌,
  any, contains, decimal, lt_text, sort_by, sorted_set, Result, return, raise, value_error,
  type_error, ◌>>=◌, codes, ltb, if◌then◌else◌,
}
use ok.Json.{Json, Items, Fields, null, bool, num, str, arr, obj, nil, cons, end, field, get_field}
use ok.Access.Ports.{Exposure, exposure, normalized_exposure, starts_with}

-- an entry of `ALLOWED_EXPOSURES`, all of which are over TCP on the loopback address
abbrev local_port : String → String → Exposure
local_port service port = record {
  service = service;
  host_ip = "127.0.0.1";
  published = port;
  target = port;
  protocol = "tcp";
}

abbrev pub allowed_exposures : List Exposure
allowed_exposures =
    local_port "postgres" "5432"
    ∷ local_port "observability" "3000"
    ∷ local_port "observability" "3100"
    ∷ local_port "observability" "3200"
    ∷ local_port "observability" "4317"
    ∷ local_port "observability" "4318"
    ∷ local_port "cerbos" "3592"
    ∷ local_port "cerbos" "3593"
    ∷ local_port "dagster-webserver" "3001"
    ∷ []

-- whether the keys of two exposures are equal
abbrev pub same_exposure : Exposure → Exposure → Bool
same_exposure a b =
    (a.service == b.service)
    && (a.host_ip == b.host_ip)
    && (a.published == b.published)
    && (a.target == b.target)
    && (a.protocol == b.protocol)

-- `_is_allowed_dynamic_mcp`
abbrev pub is_allowed_dynamic_mcp : Exposure → Bool
is_allowed_dynamic_mcp e =
    (e.service == "mcp")
    && starts_with "127.0.0.1" e.host_ip
    && (e.target == "8010")
    && (e.protocol == "tcp")

abbrev pub is_allowed : Exposure → Bool
is_allowed e =
    any (same_exposure (normalized_exposure e)) allowed_exposures || is_allowed_dynamic_mcp e

abbrev pub broad_hosts : List String
broad_hosts = "" ∷ "0.0.0.0" ∷ "::" ∷ []

abbrev pub is_broad : Exposure → Bool
is_broad e = contains broad_hosts (normalized_exposure e).host_ip || contains broad_hosts e.host_ip

pub record Violation : Type 0 where
  pub exposure : Exposure
  pub reason : String

-- what the report says of the exposures, each with whether it is allowed, and of the services that
-- are passed over
pub record AccessReport : Type 0 where
  pub exposures : List (Exposure × String)
  pub violations : List Violation
  pub skipped_services : List (String × List String)

-- the violations of one exposure
abbrev pub violations_of : Exposure → List Violation
violations_of e =
    if is_broad e
    then record { exposure = e; reason = "broad_host_binding" } ∷ []
    else if is_allowed e
    then []
    else record { exposure = e; reason = "unexpected_exposure" } ∷ []

abbrev pub add_exposure : Option Exposure → AccessReport → AccessReport
add_exposure none report = report
add_exposure (some e) report = record report {
  exposures = report.exposures ++ (e, if is_allowed e then "allowed" else "unexpected") ∷ [];
  violations = report.violations ++ violations_of e;
}

-- the loop over the ports of a service
unfoldable pub check_ports : (Json → String) → String → Items → AccessReport → AccessReport
unfolding exposure normalized_exposure
check_ports repr service nil report = report
check_ports repr service (cons port ports) report =
    check_ports repr service ports (add_exposure (exposure repr service port) report)

-- `str(item)` on the items of a list
abbrev pub item_text : (Json → String) → Json → String
item_text repr null = "None"
item_text repr (bool b) = if b then "True" else "False"
item_text repr (num n) = decimal n
item_text repr (str s) = s
item_text repr (arr xs) = repr (arr xs)
item_text repr (obj fields) = repr (obj fields)

abbrev pub item_texts : (Json → String) → Items → List String
item_texts repr nil = []
item_texts repr (cons x xs) = item_text repr x ∷ item_texts repr xs

-- `_service_profiles`
abbrev pub service_profiles : (Json → String) → Option Json → List String
service_profiles repr (some (str s)) = if s == "" then [] else s ∷ []
service_profiles repr (some (arr xs)) = item_texts repr xs
service_profiles repr _ = []

-- the characters of a text, as texts
abbrev pub letters : String → Items
letters String.[] = nil
letters (String.◌∷◌ c s) = cons (str (String.◌∷◌ c String.[])) (letters s)

-- the keys of an object
abbrev pub field_names : Fields → Items
field_names end = nil
field_names (field k v rest) = cons (str k) (field_names rest)

-- what the loop over `service.get("ports") or []` goes through: the items of a list, the characters
-- of a text and the keys of an object; `true` and a number other than 0 raise a TypeError
abbrev pub ports_of : Option Json → Result Items
ports_of none = return nil
ports_of (some null) = return nil
ports_of (some (bool b)) =
    if b then raise (type_error "'bool' object is not iterable") else return nil
ports_of (some (num n)) =
    if ltb 0 n then raise (type_error "'int' object is not iterable") else return nil
ports_of (some (str s)) = return (letters s)
ports_of (some (arr ports)) = return ports
ports_of (some (obj fields)) = return (field_names fields)

-- one round of the loop over the services
unfoldable pub check_service : (Json → String) → String → Json → AccessReport → Result AccessReport
unfolding check_ports sorted_set decimal
check_service repr name (obj service) report =
    let profiles = service_profiles repr (get_field service "profiles") in
    if contains profiles "experiments"
    then return (record report {
      skipped_services = report.skipped_services ++ (name, sorted_set profiles) ∷ [];
    })
    else (ports_of (get_field service "ports") >>= λ ports.
        return (check_ports repr name ports report))
check_service repr name _ report = return report

abbrev pub entries : Fields → List (String × Json)
entries end = []
entries (field k v rest) = (k, v) ∷ entries rest

unfoldable pub check_services :
    (Json → String) → List (String × Json) → AccessReport → Result AccessReport
unfolding check_service
check_services repr [] report = return report
check_services repr ((name, service) ∷ rest) report =
    check_service repr name service report >>= λ so_far. check_services repr rest so_far

abbrev pub no_report : AccessReport
no_report = record { exposures = []; violations = []; skipped_services = [] }

-- `config.get("services", {})`
abbrev pub services_of : Option Json → Result Fields
services_of none = return end
services_of (some (obj services)) = return services
services_of (some _) = raise (value_error "rendered compose config must contain a services object")

-- `check_compose_access_boundary`, on the configuration
unfoldable pub check_compose_access_boundary : (Json → String) → Fields → Result AccessReport
unfolding check_services sort_by lt_text
check_compose_access_boundary repr config =
    services_of (get_field config "services") >>= λ services.
    check_services repr (sort_by (λ a b. lt_text a.0 b.0) (entries services)) no_report

-- `"ok" if not violations else "failed"`
abbrev pub status_of : AccessReport → String
status_of report = elim report.violations [ [] ↦ "ok" | v ∷ vs ↦ "failed" ]
