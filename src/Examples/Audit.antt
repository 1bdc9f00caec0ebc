-- ===== src/Examples/Audit.antt =====
-- The audit trail behind one search, and the purge of the raw file of a restricted page.
use ok.Prelude.{
  value_error, if◌then◌else◌, ◌==◌, select_where, sort_by, lt_text, true, false, Error, ◌⊎◌, Result,
  return, raise, ℕ, String, ◌≡◌, refl, not, ◌&&◌, List, [], ◌∷◌, map, Option, some, any, length,
}
use ok.Storage.{
  State, SourceLifecycleRow, RawFile, json_payload, empty_state, test_environment, exists_raw,
}
use ok.Json.{null}
use ok.Permissions.{local_default}
use ok.Audit.{record_audit_event, no_values, audit_summary, non_empty}
use ok.Audit.Counts.{CountsOf, audit_summary-CountsOf}
use ok.Lifecycle.{purge_expired_raw_sources}
use ok.Lifecycle.Purge.{
  asks, is_overdue, is_malformed, before_malformed, purge_expired_raw_sources-exists,
}

abbrev one_event : State
one_event = (record_audit_event test_environment "search" local_default no_values empty_state).1

audit_summary-CountsOf_example :
    let summary = audit_summary test_environment one_event in
    (summary.total_events ≡ length one_event.audit_events)
    × CountsOf (map (λ e. e.event_type) one_event.audit_events) summary.event_types
    × CountsOf (non_empty (map (λ e. e.decision) one_event.audit_events)) summary.decisions
    × CountsOf (non_empty (map (λ e. e.human_id) one_event.audit_events)) summary.humans
audit_summary-CountsOf_example = audit_summary-CountsOf test_environment one_event

abbrev one_file : List RawFile
one_file = record { path = "wiki:page:1"; payload = json_payload null } ∷ []

abbrev pub restricted : State
restricted = record empty_state {
  source_lifecycle =
      record {
        source_ref = "wiki:page:1";
        state = "restricted";
        reason = "legal";
        replacement_ref = "";
        duplicate_group_ref = "";
        recorded_at = "2026-01-01";
      }
      ∷ [];
  raw_store = some one_file;
}

-- a clock that reads one day
abbrev read_day : String → Result (Option ℕ)
read_day _ = return (some 1000)

purge_expired_raw_sources-exists_example :
    let outcome = (purge_expired_raw_sources test_environment read_day 2000 restricted).0 in
    let rows = restricted.source_lifecycle in
    ((left : List RawFile) × ((purge_expired_raw_sources test_environment read_day 2000
          restricted).1
        ≡ record restricted { raw_store = some left })
      × ((ref : String)
          → exists_raw test_environment ref left ≡ (
              not (
                any (asks read_day 2000 test_environment ref) (before_malformed read_day 2000 rows))
              && exists_raw test_environment ref one_file)))
    × (((any (is_malformed read_day 2000) rows ≡ false)
          × (outcome
              ≡ return (
                  sort_by lt_text
                    (map (λ row. row.source_ref) (select_where (is_overdue read_day 2000) rows)))))
        ⊎ ((any (is_malformed read_day 2000) rows ≡ true) × ((e : Error) × (outcome ≡ raise e))))
purge_expired_raw_sources-exists_example =
    purge_expired_raw_sources-exists read_day 2000 test_environment restricted one_file refl

-- a reader of times that knows no month 13
abbrev read_month : String → Result (Option ℕ)
read_month s =
    if s == "2026-13-01" then raise (value_error "Invalid isoformat string") else return (some 1000)

abbrev source_of : String → String → SourceLifecycleRow
source_of ref at = record {
  source_ref = ref;
  state = "restricted";
  reason = "legal";
  replacement_ref = "";
  duplicate_group_ref = "";
  recorded_at = at;
}

-- The purge stops at the malformed time; the file in front of it is gone, and the one behind it stays.
stopped :
    let s = record restricted {
      source_lifecycle =
          source_of "a" "2026-01-01" ∷ source_of "b" "2026-13-01" ∷ source_of "c" "2026-01-01" ∷ [];
      raw_store = some (
          record { path = "a"; payload = json_payload null }
          ∷ record { path = "c"; payload = json_payload null }
          ∷ []);
    } in
    let (outcome, s') = purge_expired_raw_sources test_environment read_month 2000 s in
    (outcome ≡ raise (value_error "Invalid isoformat string"))
    × (s'.raw_store ≡ some (record { path = "c"; payload = json_payload null } ∷ []))
unfolding purge_expired_raw_sources
stopped = (refl, refl)
