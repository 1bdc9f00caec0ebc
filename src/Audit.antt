-- ===== src/Audit.antt =====
-- governance/audit.py: the audit trail.
pub mod Counts
use ok.Prelude.{
  ℕ, suc, ◌+◌, String, Bool, true, not, ◌&&◌, List, [], ◌∷◌, ◌++◌, map, Option, none, some, ◌==◌,
  length, select_where, delete_where, join, is_empty, lt_text, if◌then◌else◌,
}
use ok.Permissions.{PrincipalContext}
use ok.Storage.{State, AuditEventRow, Environment}

-- the `values` of an event, with their defaults for the keys that a caller leaves out
pub record AuditValues : Type 0 where
  pub query : String
  pub token : String
  pub purpose : String
  pub decision : String
  pub reason : String
  pub policy_id : String
  pub policy_version : String
  pub result_count : ℕ
  pub source_refs : List String

abbrev pub no_values : AuditValues
no_values = record {
  query = "";
  token = "";
  purpose = "";
  decision = "";
  reason = "";
  policy_id = "";
  policy_version = "";
  result_count = 0;
  source_refs = [];
}

abbrev pub audit_row : Environment → ℕ → String → PrincipalContext → AuditValues → AuditEventRow
audit_row env id event_type principal v = record {
  id = id;
  event_type = event_type;
  query = v.query;
  token = v.token;
  purpose = v.purpose;
  human_id = principal.human_id;
  agent_id = principal.agent_id;
  decision = v.decision;
  reason = v.reason;
  policy_id = v.policy_id;
  policy_version = v.policy_version;
  result_count = v.result_count;
  source_refs = join "," v.source_refs;
  recorded_at = env.now_iso;
}

-- The event is appended under the next id. The result is that id, of the ref `audit:type:id`.
unfoldable pub record_audit_event :
    Environment → String → PrincipalContext → AuditValues → State → ℕ × State
record_audit_event env event_type principal v s = (
  s.next_audit_id,
  record s {
    audit_events = s.audit_events ++ audit_row env s.next_audit_id event_type principal v ∷ [];
    next_audit_id = suc s.next_audit_id;
  },
)

-- a filter that is set restricts the rows, and one that is empty does not
abbrev unless_empty : Option String → (String → Bool) → Bool
unless_empty none p = true
unless_empty (some v) p = if v == "" then true else p v

pub record AuditFilter : Type 0 where
  pub event_type : Option String
  pub source_ref : Option String
  pub token : Option String
  pub human_id : Option String

abbrev no_filter : AuditFilter
no_filter = record { event_type = none; source_ref = none; token = none; human_id = none }

abbrev pub passes : Environment → AuditFilter → AuditEventRow → Bool
passes env f row =
    unless_empty f.event_type (λ v. row.event_type == v)
    && unless_empty f.source_ref (λ v. env.like v row.source_refs)
    && unless_empty f.token (λ v. row.token == v)
    && unless_empty f.human_id (λ v. row.human_id == v)

-- `audit_events`: the rows are appended in the order of their ids.
unfoldable pub audit_events : Environment → AuditFilter → State → List AuditEventRow
audit_events env f s = select_where (passes env f) s.audit_events

-- `counts[key] = counts.get(key, 0) + 1`
bump : String → List (String × ℕ) → List (String × ℕ)
bump key [] = (key, 1) ∷ []
bump key ((k, n) ∷ rest) =
    let bumped = bump key rest in if k == key then (k, n + 1) ∷ rest else (k, n) ∷ bumped

count_values : List (String × ℕ) → List String → List (String × ℕ)
count_values counts [] = counts
count_values counts (value ∷ rest) = count_values (bump value counts) rest

-- `dict(sorted(counts.items()))`: the keys are distinct
insert_count : String × ℕ → List (String × ℕ) → List (String × ℕ)
insert_count c [] = c ∷ []
insert_count c (d ∷ rest) =
    let below = insert_count c rest in if lt_text d.0 c.0 then d ∷ below else c ∷ d ∷ rest

sort_counts : List (String × ℕ) → List (String × ℕ)
sort_counts [] = []
sort_counts (c ∷ rest) = insert_count c (sort_counts rest)

unfoldable pub counts : List String → List (String × ℕ)
unfolding bump count_values insert_count sort_counts lt_text
counts values = sort_counts (count_values [] values)

pub record AuditSummary : Type 0 where
  pub total_events : ℕ
  pub event_types : List (String × ℕ)
  pub decisions : List (String × ℕ)
  pub humans : List (String × ℕ)

abbrev pub non_empty : List String → List String
non_empty = select_where (λ v. not (v == ""))

unfoldable pub audit_summary : Environment → State → AuditSummary
unfolding audit_events counts
audit_summary env s =
    let events = audit_events env no_filter s in
    record {
      total_events = length events;
      event_types = counts (map (λ e. e.event_type) events);
      decisions = counts (non_empty (map (λ e. e.decision) events));
      humans = counts (non_empty (map (λ e. e.human_id) events));
    }

-- `purge_expired_audit_events`, up to the time that `cutoff` stands for
abbrev expired_event : String → AuditEventRow → Bool
expired_event cutoff row = not (is_empty row.recorded_at) && lt_text row.recorded_at cutoff

unfoldable pub purge_expired_audit_events : String → State → ℕ × State
purge_expired_audit_events cutoff s = (
  length (select_where (expired_event cutoff) s.audit_events),
  record s { audit_events = delete_where (expired_event cutoff) s.audit_events },
)
