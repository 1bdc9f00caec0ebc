-- ===== src/Examples/Retention.antt =====
-- An inbox with an expired event and one that waits, and a directory with two backups.
use ok.Prelude.{
  ℕ, Result, ◌-◌, String, ◌≡◌, refl, not, true, List, [], ◌∷◌, Option, some, decimal, length,
  select_where, return, ◌>>=◌,
}
use ok.Json.{end}
use ok.Audit.{purge_expired_audit_events}
use ok.Storage.{test_environment}
use ok.Lifecycle.{purge_expired_raw_sources}
use ok.Webhooks.{WebhookEvent, WebhookState}
use ok.Retention.{
  pos, RetentionConfig, Clock, BackupFile, is_finished, purge_expired_webhook_events,
  purge_expired_backups, retention_status,
}
use ok.Retention.Announced.{Announces, retention_status-Announces}
use ok.Examples.Audit.{restricted}
use ok.Retention.Kept.{purge_expired_webhook_events-unfinished}

abbrev event : String → String → String → WebhookEvent
event id status processed_at = record {
  event_id = id;
  source_system = "wiki";
  source_object_id = "1";
  event_type = "page.hidden";
  operation = "restrict";
  idempotency_key = id;
  occurred_at = "";
  received_at = "1";
  actor_ref = "";
  raw_payload_ref = "";
  payload = end;
  status = status;
  attempt_count = 1;
  next_retry_at = "";
  error_class = "";
  error = "";
  processed_at = processed_at;
}

abbrev inbox : WebhookState
inbox = record {
  governed = restricted;
  webhook_events = event "evt-1" "succeeded" "2" ∷ event "evt-2" "pending" "" ∷ [];
}

abbrev directory : Option (List BackupFile)
directory = some (
    record { path = "old.dump"; is_file = true; modified_at = 2 }
    ∷ record { path = "new.dump"; is_file = true; modified_at = 9 }
    ∷ [])

-- the ninth day
abbrev clock : Clock
clock = record { iso_before = λ days. decimal (9 - days); before = λ days. 9 - days }

abbrev read_day : String → Result (Option ℕ)
read_day _ = return (some 4)

abbrev config : RetentionConfig
config = record {
  raw_source_days = some 5;
  audit_event_days = some 3;
  backup_days = some 2;
  webhook_backlog_days = some 4;
  backup_path = some "backups";
}

purged_one : (purge_expired_webhook_events clock (pos 4) inbox).0 ≡ return 1
unfolding purge_expired_webhook_events decimal
purged_one = refl

purged_old : (purge_expired_backups clock (pos 2) directory).0 ≡ return ("old.dump" ∷ [])
unfolding purge_expired_backups
purged_old = refl

-- the purge of the one raw file leaves its source announced
still_announced :
    let raw = purge_expired_raw_sources test_environment read_day 5 restricted in
    (raw.0 ≡ return ("wiki:page:1" ∷ []))
    × (raw.1.raw_store ≡ some [])
    × (let behind = retention_status clock config (record inbox { governed = raw.1 }) directory in
        behind.raw_sources.eligible_for_deletion ≡ some 1)
unfolding purge_expired_raw_sources retention_status decimal
still_announced = (refl, refl, refl)

retention_status-Announces_example :
    let audit = purge_expired_audit_events (clock.iso_before 3) inbox.governed in
    let webhooks = purge_expired_webhook_events clock (pos 4) inbox in
    let backups = purge_expired_backups clock (pos 2) directory in
    let raw = purge_expired_raw_sources test_environment read_day 5 inbox.governed in
    let now = retention_status clock config inbox directory in
    Announces now.webhook_backlog
      (retention_status clock config webhooks.1 directory).webhook_backlog
      webhooks.0
    × Announces now.audit_events
        (retention_status clock config (record inbox { governed = audit.1 }) directory).audit_events
        (return audit.0)
    × Announces now.backups
        (retention_status clock config inbox backups.1).backups
        (backups.0 >>= λ purged. return (length purged))
    × ((retention_status clock config (record inbox { governed = raw.1 }) directory).raw_sources
        ≡ now.raw_sources)
retention_status-Announces_example =
    retention_status-Announces clock config inbox directory 4 3 2 "backups" test_environment
      read_day 5 refl refl refl refl

purge_expired_webhook_events-unfinished_example :
    let s' = (purge_expired_webhook_events clock (pos 4) inbox).1 in
    (select_where (λ e. not (is_finished e)) s'.webhook_events
      ≡ select_where (λ e. not (is_finished e)) inbox.webhook_events)
    × (s'.governed ≡ restricted)
purge_expired_webhook_events-unfinished_example =
    purge_expired_webhook_events-unfinished clock (pos 4) inbox
