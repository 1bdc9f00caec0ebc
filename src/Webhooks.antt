-- ===== src/Webhooks.antt =====
-- runtime/webhooks.py and storage/models/webhook_event.py: the inbox of source events. An event is
-- stored once, claimed in the order of its arrival, and applied to the governed context.
mod Queue
pub mod Readers
pub mod Inbox
pub mod Processed
pub mod Attempts
pub mod Bounded
mod Keys
pub mod Runs
pub mod Claimed
pub mod Retried
pub mod Drained
unfoldable pub use Queue.*
use ok.Prelude.{
  ℕ, suc, ◌+◌, ◌*◌, String, Bool, true, false, not, ◌&&◌, ◌||◌, List, [], ◌∷◌, ◌++◌, map, Option,
  none, some, ◌==◌, ◌or◌, concat, contains, any, ltb, max, take, length, first, select_where,
  update_where, lt_text, le_text, if◌then◌else◌, Result, return, raise, ◌>>=◌, Error, value_error,
  payload_error, type_error, integrity_error,
}
use ok.Json.{Fields, Json, get_field, obj, str, field, end}
use ok.Records.{SourceRecord}
use ok.Permissions.{PrincipalContext, local_default}
use ok.Storage.{State, Environment, Payload, RawFile, json_payload, put_raw}
use ok.Changes.{
  SourceChange, SourceChangeOperation, upsert, delete, restrict, restore, supersede, duplicate,
  change_of, apply_source_changes,
}
use ok.Webhooks.Readers.{text_field, source_record_from_payload}

-- the target of an event, and whether an event has one
abbrev event_ref : Fields → Option SourceRecord → String
event_ref payload none = text_field payload "source_ref"
event_ref payload (some r) = text_field payload "source_ref" or r.source_ref

abbrev has_no_target : Fields → Option SourceRecord → Bool
has_no_target payload none = text_field payload "source_ref" == ""
has_no_target payload (some r) = false

-- `_source_change_from_event`
source_change_from_event : WebhookEvent → Result SourceChange
unfolding source_record_from_payload operation_of
source_change_from_event event = source_record_from_payload event.payload >>= λ source_record.
    if has_no_target event.payload source_record
    then raise (payload_error "webhook lifecycle event requires source_ref or source_record")
    else (operation_of event.operation >>= λ operation. return (
        change_of operation source_record (event_ref event.payload source_record)
          (text_field event.payload "reason" or event.event_type)))

-- the class and the text of an exception; the text of a database error is the driver's
abbrev error_class_of : Error → String
error_class_of (value_error _) = "ValueError"
error_class_of (type_error _) = "TypeError"
error_class_of (payload_error _) = "WebhookPayloadError"
error_class_of integrity_error = "IntegrityError"

abbrev error_text : String → Error → String
error_text driver_message (value_error message) = message
error_text driver_message (type_error message) = message
error_text driver_message (payload_error message) = message
error_text driver_message integrity_error = driver_message

abbrev pub update_event :
    String → (WebhookEvent → WebhookEvent) → List WebhookEvent → List WebhookEvent
update_event id = update_where (λ e. e.event_id == id)

-- `_mark_succeeded`
abbrev succeeded_event : String → WebhookEvent → WebhookEvent
succeeded_event now e = record e { status = "succeeded"; processed_at = now; next_retry_at = "" }

-- `_mark_invalid`
abbrev invalid_event : String → String → WebhookEvent → WebhookEvent
invalid_event now message e = record e {
  status = "invalid";
  error_class = "WebhookPayloadError";
  error = message;
  processed_at = now;
  next_retry_at = "";
}

-- `_mark_failed`, of a row: it waits for the next attempt, or it has failed for good
abbrev pub failed_event : Bool → String → String → String → String → WebhookEvent → WebhookEvent
failed_event should_retry now retry_at class message e =
    if should_retry
    then record e {
      status = "pending";
      error_class = class;
      error = message;
      next_retry_at = retry_at;
      processed_at = "";
    }
    else record e {
      status = "failed";
      error_class = class;
      error = message;
      processed_at = now;
      next_retry_at = "";
    }

pub record Counts : Type 0 where
  pub claimed : ℕ
  pub succeeded : ℕ
  pub failed : ℕ
  pub invalid : ℕ

-- the arguments of a run over the inbox; times are in microseconds, and `iso` is `isoformat`
pub record Worker : Type 0 where
  pub limit : ℕ
  pub now : ℕ
  pub max_attempts : ℕ
  pub retry_delay_seconds : ℕ
  pub iso : ℕ → String
  pub driver_message : String
  pub max_words : ℕ
  pub overlap_words : ℕ

-- the raw file of an event
abbrev pub raw_payload : WebhookEventInput → Payload
raw_payload event = json_payload (
    obj (
      field "source_ref" (str (raw_payload_ref_of event)) (
        field "event_id" (str event.event_id) (
          field "source_system" (str event.source_system)
            (field "payload" (obj event.payload) end)))))

module _ (env : Environment) where
  -- the write to the raw store, where there is one
  abbrev pub write_raw : WebhookEventInput → Option (List RawFile) → Option (List RawFile)
  write_raw event none = none
  write_raw event (some files) =
      some (put_raw env (raw_payload_ref_of event) (raw_payload event) files)

  -- an event that is valid: the raw payload is written before the row is inserted
  abbrev pub store_event :
      String → WebhookEventInput → WebhookState → Result WebhookEvent × WebhookState
  store_event received_at event s =
      let inserted = insert_event (event_row received_at event) s.webhook_events in
      (
        inserted.0,
        record {
          governed = record s.governed { raw_store = write_raw event s.governed.raw_store };
          webhook_events = inserted.1;
        },
      )

  -- `enqueue_webhook_event`
  unfoldable pub enqueue_webhook_event :
      String → WebhookEventInput → WebhookState → Result WebhookEvent × WebhookState
  enqueue_webhook_event received_at event s = elim (validate_event event) [
    | raise e ↦ (raise e, s)
    | return _ ↦ store_event received_at event s
  ]

  -- the change of an event, applied for the local principal
  unfoldable pub apply_event : Worker → WebhookEvent → State → Result (Unit {0}) × State
  unfolding source_change_from_event
  apply_event worker event s = elim (source_change_from_event event) [
    | raise e ↦ (raise e, s)
    | return change ↦
        apply_source_changes env local_default worker.max_words worker.overlap_words (change ∷ []) s
  ]

  -- what a row becomes when its event was applied with an outcome
  abbrev pub settled_event : Worker → WebhookEvent → Result (Unit {0}) → WebhookEvent → WebhookEvent
  settled_event worker event outcome e = elim outcome [
    | return _ ↦ succeeded_event (worker.iso worker.now) e
    | raise (payload_error message) ↦ invalid_event (worker.iso worker.now) message e
    | raise error ↦
        failed_event (ltb event.attempt_count (max 1 worker.max_attempts)) (worker.iso worker.now)
          (worker.iso (worker.now + worker.retry_delay_seconds * 1_000_000)) (error_class_of error)
          (error_text worker.driver_message error) e
  ]

  abbrev pub count : Result (Unit {0}) → Counts → Counts
  count outcome c = elim outcome [
    | return _ ↦ record c { succeeded = suc c.succeeded }
    | raise (payload_error _) ↦ record c { invalid = suc c.invalid }
    | raise _ ↦ record c { failed = suc c.failed }
  ]

  pub process_events : Worker → List WebhookEvent → Counts → WebhookState → Counts × WebhookState
  process_events worker [] c s = (c, s)
  process_events worker (event ∷ rest) c s =
      let (outcome, governed) = apply_event worker event s.governed in
      process_events worker rest (count outcome c) (record {
        governed = governed;
        webhook_events =
            update_event event.event_id (settled_event worker event outcome) s.webhook_events;
      })

  -- `process_pending_webhook_events`
  pub process_pending_webhook_events : Worker → WebhookState → Counts × WebhookState
  unfolding claim_pending_events process_events
  process_pending_webhook_events worker s =
      let (claimed, events) =
        claim_pending_events worker.limit (worker.iso worker.now) s.webhook_events in
      process_events worker claimed
        (record { claimed = length claimed; succeeded = 0; failed = 0; invalid = 0 })
        (record s { webhook_events = events })
