-- ===== src/Access/Loopback.antt =====
-- runtime/access.py: a report without violations against the ports that are published.
use mathlib.Core.Path.{subst}
use ok.Prelude.{
  String, ◌≡◌, refl, sym, inl, inr, true, false, List, [], ◌∷◌, ◌++◌, Option, none, some, arith,
  ◌==◌, eq_iff, any, contains, All, Bool-cases, Option-cases, return, return_inj, lt_text, sort_by,
  All-sorted, Result, raise, >>=-eq-return, if◌then◌else◌,
}
use ok.Json.{Json, Items, Fields, null, bool, num, str, arr, obj, nil, cons, get_field}
use ok.Access.{
  AccessReport, Violation, same_exposure, allowed_exposures, is_allowed, is_allowed_dynamic_mcp,
  is_broad, violations_of, add_exposure, check_ports, check_service, check_services,
  service_profiles, ports_of, entries, no_report, check_compose_access_boundary, status_of,
}
use ok.Access.Ports.{
  Exposure, exposure, normalize_port_expression, normalized_exposure, starts_with,
}

-- the address that a port is published on, with the default of a placeholder for it, is local
abbrev pub Loopback : Exposure → Type 0
Loopback e = starts_with "127.0.0.1" (normalized_exposure e).host_ip ≡ true

-- The exposures that the check reads from the ports of a service, unless it is an experiment.
abbrev found : Option Exposure → List Exposure → List Exposure
found none es = es
found (some e) es = e ∷ es

abbrev pub exposures_in : (Json → String) → String → Items → List Exposure
exposures_in repr name nil = []
exposures_in repr name (cons port ports) =
    found (exposure repr name port) (exposures_in repr name ports)

abbrev ports_or_none : Result Items → Items
ports_or_none (raise e) = nil
ports_or_none (return ports) = ports

abbrev pub published : (Json → String) → String → Json → List Exposure
published repr name (obj service) =
    if contains (service_profiles repr (get_field service "profiles")) "experiments"
    then []
    else exposures_in repr name (ports_or_none (ports_of (get_field service "ports")))
published repr name _ = []

local-Loopback :
    (e : Exposure)
    → any (same_exposure (normalized_exposure e)) allowed_exposures ≡ true
    → Loopback e
local-Loopback e listed =
    let local : ((normalized_exposure e).host_ip == "127.0.0.1") ≡ true = ground (arith, listed) in
    let equal : (normalized_exposure e).host_ip ≡ "127.0.0.1" =
      (eq_iff (normalized_exposure e).host_ip "127.0.0.1").0 local in
    rw equal refl

no_placeholder :
    (host : String) → starts_with "127.0.0.1" host ≡ true → starts_with "${" host ≡ false
no_placeholder String.[] h = cc
no_placeholder (String.◌∷◌ c s) h = ground (arith, h)

dynamic-Loopback : (e : Exposure) → is_allowed_dynamic_mcp e ≡ true → Loopback e
unfolding normalized_exposure normalize_port_expression
dynamic-Loopback e allowed =
    let local : starts_with "127.0.0.1" e.host_ip ≡ true = ground (arith, allowed) in
    rw (no_placeholder e.host_ip local) local

allowed-Loopback : (e : Exposure) → is_allowed e ≡ true → Loopback e
allowed-Loopback e allowed =
    elim (Bool-cases (any (same_exposure (normalized_exposure e)) allowed_exposures)) [
      | inl listed ↦ local-Loopback e listed
      | inr other ↦ dynamic-Loopback e (rw other at allowed)
    ]

unviolated-Loopback : (e : Exposure) → violations_of e ≡ [] → Loopback e
unviolated-Loopback e fine = elim (Bool-cases (is_broad e)) [
  | inl broad ↦ cc (rw broad at fine)
  | inr narrow ↦ elim (Bool-cases (is_allowed e)) [
    | inl allowed ↦ allowed-Loopback e allowed
    | inr other ↦ cc (rw (narrow, other) at fine)
  ]
]

append_empty {ℓ} : {A : Type ℓ} (xs ys : List A) → xs ++ ys ≡ [] → (xs ≡ []) × (ys ≡ [])
append_empty [] ys h = (refl, h)
append_empty (x ∷ xs) ys h = cc h

abbrev Fine : AccessReport → Type 0
Fine report = report.violations ≡ []

module _ (repr : Json → String) where
  ports-Loopback :
      (name : String) (ports : Items) (report : AccessReport)
      → Fine (check_ports repr name ports report)
      → Fine report × All Loopback (exposures_in repr name ports)
  unfolding check_ports
  ports-Loopback name nil report fine = (fine, tt)
  ports-Loopback name (cons port ports) report fine =
      elim (Option-cases (exposure repr name port)) [
        | inl absent ↦ rw absent (
            ports-Loopback name ports report
              (subst (λ o. Fine (check_ports repr name ports (add_exposure o report))) absent fine))
        | inr (e, present) ↦
            let (so_far, behind) = ports-Loopback name ports (add_exposure (some e) report) (
              subst (λ o. Fine (check_ports repr name ports (add_exposure o report))) present
                fine) in
            let (before, own) = append_empty report.violations (violations_of e) so_far in
            rw present (before, (unviolated-Loopback e own, behind))
      ]

  service-Loopback :
      (name : String) (service : Json) (report so_far : AccessReport)
      → check_service repr name service report ≡ return so_far
      → Fine so_far
      → Fine report × All Loopback (published repr name service)
  unfolding check_service
  service-Loopback name (obj service) report so_far e fine =
      elim (Bool-cases
        (contains (service_profiles repr (get_field service "profiles")) "experiments")) [
          | inl skipped ↦ rw skipped (subst Fine (sym (return_inj (rw skipped at e))) fine, tt)
          | inr checked ↦
              let (ports, found, done) =
                >>=-eq-return (ports_of (get_field service "ports")) _ (rw checked at e) in
              rw (checked, found)
                (ports-Loopback name ports report (subst Fine (sym (return_inj done)) fine))
        ]
  service-Loopback name null report so_far e fine = (subst Fine (sym (return_inj e)) fine, tt)
  service-Loopback name (bool b) report so_far e fine = (subst Fine (sym (return_inj e)) fine, tt)
  service-Loopback name (num n) report so_far e fine = (subst Fine (sym (return_inj e)) fine, tt)
  service-Loopback name (str s) report so_far e fine = (subst Fine (sym (return_inj e)) fine, tt)
  service-Loopback name (arr xs) report so_far e fine = (subst Fine (sym (return_inj e)) fine, tt)

  abbrev pub IsLocal : String × Json → Type 0
  IsLocal entry = All Loopback (published repr entry.0 entry.1)

  services-IsLocal :
      (services : List (String × Json)) (report final : AccessReport)
      → check_services repr services report ≡ return final
      → Fine final
      → Fine report × All IsLocal services
  unfolding check_services
  services-IsLocal [] report final e fine = (subst Fine (sym (return_inj e)) fine, tt)
  services-IsLocal ((name, service) ∷ rest) report final e fine =
      let (so_far, checked, behind) = >>=-eq-return (check_service repr name service report) _ e in
      let (own, others) = services-IsLocal rest so_far final behind fine in
      let (before, local) = service-Loopback name service report so_far checked own in
      (before, (local, others))

no_violations : (report : AccessReport) → status_of report ≡ "ok" → Fine report
no_violations report ok = empty_if_ok report.violations ok
  where
    empty_if_ok :
        (vs : List Violation)
        → (elim vs as (λ _. String) [ [] ↦ "ok" | v ∷ rest ↦ "failed" ]) ≡ "ok"
        → vs ≡ []
    empty_if_ok [] h = refl
    empty_if_ok (v ∷ vs) h = cc h

-- Where the report on the services of a compose file says "ok", each port mapping that the check
-- reads as an exposure, of a service that is not an experiment, is published on a local address, with
-- the defaults of placeholders for their values. Integers, mappings of more than three parts and other
-- values that the check reads as no exposure are passed over.
pub check_compose_access_boundary-IsLocal :
    (repr : Json → String) (config services : Fields) (report : AccessReport)
    → get_field config "services" ≡ some (obj services)
    → check_compose_access_boundary repr config ≡ return report
    → status_of report ≡ "ok"
    → All (IsLocal repr) (entries services)
unfolding check_compose_access_boundary
check_compose_access_boundary-IsLocal repr config services report there answered ok =
    All-sorted (IsLocal repr) (λ a b. lt_text a.0 b.0) (entries services)
      (services-IsLocal repr (sort_by (λ a b. lt_text a.0 b.0) (entries services)) no_report report
        (rw there at answered) (no_violations report ok)).1
