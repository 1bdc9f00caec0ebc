-- ===== src/Retention.antt =====
-- runtime/retention.py: what the retention windows make eligible for deletion, and the purges of
-- webhook events and of backups.
pub mod Announced
pub mod Kept
use ok.Prelude.{
  ℕ, ◌-◌, String, Bool, true, false, not, ◌&&◌, List, [], ◌∷◌, map, Option, none, some, ◌==◌, ltb,
  contains, length, select_where, delete_where, sorted_set, sort_by, lt_text, le_text, text_length,
  drop_text, Result, return, raise, value_error, is_empty,
}
use ok.Storage.{State, SourceLifecycleRow, AuditEventRow}
use ok.Webhooks.{WebhookEvent, WebhookState}

pub data ℤ : Type 0 where
  pos : ℕ → ℤ
  negsuc : ℕ → ℤ

-- the retention windows of the configuration, and the directory of the backups
pub record RetentionConfig : Type 0 where
  pub raw_source_days : Option ℕ
  pub audit_event_days : Option ℕ
  pub backup_days : Option ℕ
  pub webhook_backlog_days : Option ℕ
  pub backup_path : Option String

-- the time that is a number of days before now, as `isoformat` writes it and as a number
pub record Clock : Type 0 where
  pub iso_before : ℕ → String
  pub before : ℕ → ℕ

-- an entry of the directory of the backups
pub record BackupFile : Type 0 where
  pub path : String
  pub is_file : Bool
  pub modified_at : ℕ

pub record Surface : Type 0 where
  pub status : String
  pub retention_days : Option ℕ
  pub total : Option ℕ
  pub eligible_for_deletion : Option ℕ
  pub by_column : List (String × ℕ)
  pub delete_command : Option String
  pub path : Option String
  pub scope : String

-- `_not_configured_surface`
abbrev pub not_configured_surface : String → Option ℕ → Surface
not_configured_surface scope total = record {
  status = "not_configured";
  retention_days = none;
  total = total;
  eligible_for_deletion = none;
  by_column = [];
  delete_command = none;
  path = none;
  scope = scope;
}

-- `_count_by_column`, of the values of the column
unfoldable count_by_column : List String → List (String × ℕ)
unfolding sorted_set
count_by_column values =
    map (λ value. (value, length (select_where (λ other. other == value) values)))
      (sorted_set values)

-- a surface that is never purged, with its rows by a column
abbrev counted_surface : List String → String → Surface
counted_surface values scope = record {
  status = "configured";
  retention_days = none;
  total = some (length values);
  eligible_for_deletion = none;
  by_column = count_by_column values;
  delete_command = none;
  path = none;
  scope = scope;
}

-- `_source_records_status`
unfoldable source_records_status : State → Surface
unfolding count_by_column
source_records_status s =
    counted_surface (map (λ row. row.lifecycle_state) s.source_records)
      "source records are retained or hidden through source lifecycle changes"

-- `_retrieval_units_status`
unfoldable retrieval_units_status : State → Surface
unfolding count_by_column
retrieval_units_status s =
    counted_surface (map (λ row. row.status) s.retrieval_records)
      "retrieval units are derived from source records and rebuilt or marked inactive"

-- a surface with a window
abbrev pub window_surface : ℕ → Option ℕ → ℕ → String → Option String → String → Surface
window_surface days total eligible command path scope = record {
  status = "configured";
  retention_days = some days;
  total = total;
  eligible_for_deletion = some eligible;
  by_column = [];
  delete_command = some command;
  path = path;
  scope = scope;
}

-- `state = 'restricted' AND recorded_at != '' AND recorded_at <= cutoff`
abbrev pub is_expired_raw : String → SourceLifecycleRow → Bool
is_expired_raw cutoff row =
    (row.state == "restricted") && not (row.recorded_at == "") && le_text row.recorded_at cutoff

-- `_raw_source_status`
unfoldable pub raw_source_status : Clock → RetentionConfig → State → Surface
unfolding le_text
raw_source_status clock config s = elim config.raw_source_days [
  | none ↦ not_configured_surface "raw source retention window is not configured" none
  | some days ↦
      window_surface days none
        (length (select_where (is_expired_raw (clock.iso_before days)) s.source_lifecycle))
        "purge-raw-retention" none "restricted raw source objects only"
]

-- `recorded_at != '' AND recorded_at < cutoff`
abbrev pub is_expired_audit : String → AuditEventRow → Bool
is_expired_audit cutoff row = not (is_empty row.recorded_at) && lt_text row.recorded_at cutoff

-- `_audit_event_status`
unfoldable pub audit_event_status : Clock → RetentionConfig → State → Surface
unfolding lt_text
audit_event_status clock config s = elim config.audit_event_days [
  | none ↦ not_configured_surface "audit retention window is not configured" none
  | some days ↦
      window_surface days none
        (length (select_where (is_expired_audit (clock.iso_before days)) s.audit_events))
        "purge-audit-retention" none "audit events older than the retention window"
]

-- `status IN ('succeeded', 'failed', 'invalid')`
abbrev pub is_finished : WebhookEvent → Bool
is_finished e = contains ("succeeded" ∷ "failed" ∷ "invalid" ∷ []) e.status

abbrev pub is_expired_webhook : String → WebhookEvent → Bool
is_expired_webhook cutoff e =
    is_finished e && not (e.processed_at == "") && lt_text e.processed_at cutoff

-- `purge_expired_webhook_events`
unfoldable pub purge_expired_webhook_events : Clock → ℤ → WebhookState → Result ℕ × WebhookState
unfolding lt_text
purge_expired_webhook_events clock (negsuc n) s =
    (raise (value_error "webhook backlog retention days must be non-negative"), s)
purge_expired_webhook_events clock (pos days) s = (
  return (length (select_where (is_expired_webhook (clock.iso_before days)) s.webhook_events)),
  record s {
    webhook_events = delete_where (is_expired_webhook (clock.iso_before days)) s.webhook_events;
  },
)

-- `_webhook_backlog_status`
unfoldable pub webhook_backlog_status : Clock → RetentionConfig → WebhookState → Surface
unfolding lt_text
webhook_backlog_status clock config s = elim config.webhook_backlog_days [
  | none ↦
      not_configured_surface "webhook backlog retention window is not configured"
        (some (length s.webhook_events))
  | some days ↦
      window_surface days (some (length s.webhook_events))
        (length (select_where (is_expired_webhook (clock.iso_before days)) s.webhook_events))
        "purge-webhook-retention" none "terminal webhook events older than the retention window"
]

-- `path.suffix == ".dump"`
abbrev has_dump_suffix : String → Bool
has_dump_suffix path =
    ltb 5 (text_length path) && (drop_text (text_length path - 5) path == ".dump")

abbrev entries : Option (List BackupFile) → List BackupFile
entries none = []
entries (some files) = files

abbrev pub is_dump : BackupFile → Bool
is_dump file = file.is_file && has_dump_suffix file.path

-- `_backup_dump_files`, of a directory that may not exist
unfoldable pub backup_dump_files : Option (List BackupFile) → List BackupFile
unfolding sort_by lt_text drop_text
backup_dump_files directory =
    sort_by (λ a b. lt_text a.path b.path) (select_where is_dump (entries directory))

-- `_backup_file_expired`
abbrev pub backup_file_expired : ℕ → BackupFile → Bool
backup_file_expired cutoff file = ltb file.modified_at cutoff

abbrev pub is_purged : ℕ → BackupFile → Bool
is_purged cutoff file = is_dump file && backup_file_expired cutoff file

abbrev pub unlinked : ℕ → Option (List BackupFile) → Option (List BackupFile)
unlinked cutoff none = none
unlinked cutoff (some files) = some (delete_where (is_purged cutoff) files)

-- `purge_expired_backups`
unfoldable pub purge_expired_backups :
    Clock → ℤ → Option (List BackupFile) → Result (List String) × Option (List BackupFile)
unfolding backup_dump_files
purge_expired_backups clock (negsuc n) directory =
    (raise (value_error "backup retention days must be non-negative"), directory)
purge_expired_backups clock (pos days) directory = (
  return (
      map (λ file. file.path)
        (select_where (backup_file_expired (clock.before days)) (backup_dump_files directory))),
  unlinked (clock.before days) directory,
)

-- `_backup_status`
unfoldable pub backup_status : Clock → RetentionConfig → Option (List BackupFile) → Surface
unfolding backup_dump_files
backup_status clock config directory = elim config.backup_days [
  | none ↦ not_configured_surface "backup retention window is not configured" none
  | some days ↦ elim config.backup_path [
    | none ↦ not_configured_surface "backup retention requires [backup].path" none
    | some path ↦
        window_surface days (some (length (backup_dump_files directory)))
          (length
            (select_where (backup_file_expired (clock.before days)) (backup_dump_files directory)))
          "purge-backup-retention" (some path)
          "PostgreSQL dump files older than the retention window"
  ]
]

pub record RetentionStatus : Type 0 where
  pub policy : RetentionConfig
  pub raw_sources : Surface
  pub source_records : Surface
  pub retrieval_units : Surface
  pub webhook_backlog : Surface
  pub audit_events : Surface
  pub telemetry : Surface
  pub backups : Surface

-- `retention_status`
unfoldable pub retention_status :
    Clock → RetentionConfig → WebhookState → Option (List BackupFile) → RetentionStatus
unfolding raw_source_status source_records_status retrieval_units_status webhook_backlog_status
    audit_event_status backup_status
retention_status clock config s directory = record {
  policy = config;
  raw_sources = raw_source_status clock config s.governed;
  source_records = source_records_status s.governed;
  retrieval_units = retrieval_units_status s.governed;
  webhook_backlog = webhook_backlog_status clock config s;
  audit_events = audit_event_status clock config s.governed;
  telemetry =
      record (not_configured_surface "managed by the configured OpenTelemetry backend" none) {
        status = "external";
      };
  backups = backup_status clock config directory;
}
