-- ===== src/Retention/Announced.antt =====
-- runtime/retention.py, `retention_status`, against the purges of runtime/retention.py,
-- governance/audit.py and governance/lifecycle.py.
use ok.Prelude.{
  ℕ, String, ◌≡◌, refl, ap, List, Option, none, some, Bool, not, false, arith, length, length-map,
  select_where, delete_where, select_where-none, All-left, All-selected, All-mono, All-sort_by, All,
  Result, return, ◌>>=◌, lt_text, sort_by, Option-cases, inl, inr,
}
use ok.Storage.{State, Environment}
use ok.Lifecycle.{purge_expired_raw_sources}
use ok.Audit.{purge_expired_audit_events}
use ok.Webhooks.{WebhookState}
use ok.Retention.{
  pos, RetentionConfig, Clock, BackupFile, Surface, is_dump, backup_file_expired, backup_dump_files,
  backup_status, audit_event_status, webhook_backlog_status, purge_expired_webhook_events,
  purge_expired_backups, unlinked, raw_source_status, retention_status,
}

-- nothing is left of rows that are deleted
none_left {ℓ} :
    {A : Type ℓ} (p : A → Bool) (xs : List A) → length (select_where p (delete_where p xs)) ≡ 0
none_left p xs = ap length (
    select_where-none p (delete_where p xs) (
      All-mono _ (λ x. p x ≡ false) (λ x kept. ground (arith, kept)) _
        (All-selected (λ x. not (p x)) xs)))

backups_left :
    (cutoff : ℕ) (directory : Option (List BackupFile))
    → All
        (λ file. backup_file_expired cutoff file ≡ false)
        (backup_dump_files (unlinked cutoff directory))
unfolding backup_dump_files sort_by
backups_left cutoff none = tt
backups_left cutoff (some files) =
    All-sort_by _ (λ a b. lt_text a.path b.path) _
      (All-left is_dump (backup_file_expired cutoff) files)

-- The number that a surface announces is the number that its purge deletes, and behind the purge
-- the surface announces none.
pub record Announces (before after : Surface) (deleted : Result ℕ) : Type 0 where
  pub count : ℕ
  pub announced : before.eligible_for_deletion ≡ some count
  pub as_many : deleted ≡ return count
  pub cleared : after.eligible_for_deletion ≡ some 0

-- the purge of the raw sources leaves the lifecycle rows
purge_expired_raw_sources-kept :
    (env : Environment) (parse : String → Result (Option ℕ)) (cutoff : ℕ) (s : State)
    → (purge_expired_raw_sources env parse cutoff s).1.source_lifecycle ≡ s.source_lifecycle
unfolding purge_expired_raw_sources
purge_expired_raw_sources-kept env parse cutoff s = elim (Option-cases s.raw_store) [
  | inl e ↦ rw e refl
  | inr (files, e) ↦ rw e refl
]

-- Where a window is configured, the status of the retention announces for the webhook events, for
-- the audit events and for the backups the number that the purge with that window deletes, and
-- behind the purge it announces none. For the raw sources it announces behind a purge, with whatever
-- cutoff, what it announced before.
pub retention_status-Announces :
    (clock : Clock) (config : RetentionConfig) (s : WebhookState)
    (directory : Option (List BackupFile)) (webhook_days audit_days backup_days : ℕ) (path : String)
    (env : Environment) (parse : String → Result (Option ℕ)) (cutoff : ℕ)
    → config.webhook_backlog_days ≡ some webhook_days
    → config.audit_event_days ≡ some audit_days
    → config.backup_days ≡ some backup_days
    → config.backup_path ≡ some path
    → let audit = purge_expired_audit_events (clock.iso_before audit_days) s.governed in
      let webhooks = purge_expired_webhook_events clock (pos webhook_days) s in
      let backups = purge_expired_backups clock (pos backup_days) directory in
      let raw = purge_expired_raw_sources env parse cutoff s.governed in
      let now = retention_status clock config s directory in
      Announces now.webhook_backlog
        (retention_status clock config webhooks.1 directory).webhook_backlog
        webhooks.0
      × Announces now.audit_events
          (retention_status clock config (record s { governed = audit.1 }) directory).audit_events
          (return audit.0)
      × Announces now.backups
          (retention_status clock config s backups.1).backups
          (backups.0 >>= λ purged. return (length purged))
      × ((retention_status clock config (record s { governed = raw.1 }) directory).raw_sources
          ≡ now.raw_sources)
unfolding retention_status raw_source_status webhook_backlog_status audit_event_status backup_status
    purge_expired_webhook_events purge_expired_audit_events purge_expired_backups
retention_status-Announces clock config s directory webhook_days audit_days backup_days path env
      parse cutoff webhook_set audit_set backup_set path_set =
    (
      record {
        count = _;
        announced = rw webhook_set refl;
        as_many = refl;
        cleared = rw webhook_set (ap some (none_left _ s.webhook_events));
      },
      record {
        count = _;
        announced = rw audit_set refl;
        as_many = refl;
        cleared = rw audit_set (ap some (none_left _ s.governed.audit_events));
      },
      record {
        count = _;
        announced = rw (backup_set, path_set) refl;
        as_many = ap return (length-map _ _);
        cleared =
            rw (backup_set, path_set)
              (ap some (
                ap length
                  (select_where-none _ _ (backups_left (clock.before backup_days) directory))));
      },
      ap (λ rows. raw_source_status clock config (record s.governed { source_lifecycle = rows }))
          (purge_expired_raw_sources-kept env parse cutoff s.governed),
    )
