-- ===== src/Webhooks/Queue.antt =====
-- runtime/webhooks.py and storage/models/webhook_event.py: the rows of the inbox, their insertion
-- and their claims.
use ok.Prelude.{
  ℕ, suc, String, Bool, ◌&&◌, ◌||◌, List, [], ◌∷◌, ◌++◌, map, Option, none, some, ◌==◌, ◌or◌,
  concat, any, take, first, select_where, update_where, lt_text, le_text, if◌then◌else◌, Result,
  return, raise, value_error,
}
use ok.Json.{Fields}
use ok.Storage.{State}
use ok.Changes.{SourceChangeOperation, upsert, delete, restrict, restore, supersede, duplicate}

pub record WebhookEvent : Type 0 where
  pub event_id : String
  pub source_system : String
  pub source_object_id : String
  pub event_type : String
  pub operation : String
  pub idempotency_key : String
  pub occurred_at : String
  pub received_at : String
  pub actor_ref : String
  pub raw_payload_ref : String
  pub payload : Fields
  pub status : String
  pub attempt_count : ℕ
  pub next_retry_at : String
  pub error_class : String
  pub error : String
  pub processed_at : String

pub record WebhookEventInput : Type 0 where
  pub event_id : String
  pub source_system : String
  pub event_type : String
  pub operation : String
  pub payload : Fields
  pub source_object_id : String
  pub idempotency_key : String
  pub occurred_at : String
  pub actor_ref : String

pub record WebhookState : Type 0 where
  pub governed : State
  pub webhook_events : List WebhookEvent

-- `_operation`
unfoldable pub operation_of : String → Result SourceChangeOperation
operation_of value =
    if value == "upsert"
    then return upsert
    else if value == "delete"
    then return delete
    else if value == "restrict"
    then return restrict
    else if value == "restore"
    then return restore
    else if value == "supersede"
    then return supersede
    else if value == "duplicate"
    then return duplicate
    else raise (value_error (concat ("unsupported source change operation: " ∷ value ∷ [])))

-- `_validate_event`
unfoldable pub validate_event : WebhookEventInput → Result SourceChangeOperation
unfolding operation_of
validate_event event =
    if event.event_id == ""
    then raise (value_error "webhook event requires event_id")
    else if event.source_system == ""
    then raise (value_error "webhook event requires source_system")
    else if event.event_type == ""
    then raise (value_error "webhook event requires event_type")
    else operation_of event.operation

-- the primary key and the unique constraint on the idempotency key
abbrev pub same_event : WebhookEvent → WebhookEvent → Bool
same_event new old = (old.event_id == new.event_id) || (old.idempotency_key == new.idempotency_key)

abbrev pub raw_payload_ref_of : WebhookEventInput → String
raw_payload_ref_of event =
    concat ("webhook:" ∷ event.source_system ∷ ":" ∷ event.event_id ∷ ":raw" ∷ [])

-- the row of an event that arrives
abbrev pub event_row : String → WebhookEventInput → WebhookEvent
event_row received_at event = record {
  event_id = event.event_id;
  source_system = event.source_system;
  source_object_id = event.source_object_id;
  event_type = event.event_type;
  operation = event.operation;
  idempotency_key = event.idempotency_key or event.event_id;
  occurred_at = event.occurred_at;
  received_at = received_at;
  actor_ref = event.actor_ref;
  raw_payload_ref = raw_payload_ref_of event;
  payload = event.payload;
  status = "pending";
  attempt_count = 0;
  next_retry_at = "";
  error_class = "";
  error = "";
  processed_at = "";
}

-- `_webhook_event_row` and `_webhook_event_by_idempotency`
abbrev pub event_by_id : String → List WebhookEvent → Option WebhookEvent
event_by_id id events = first (select_where (λ e. e.event_id == id) events)

-- `.one()` raises where there is no row or more than one; the constraint leaves at most one
abbrev pub event_by_idempotency : String → List WebhookEvent → Result WebhookEvent
event_by_idempotency key events = elim (select_where (λ e. e.idempotency_key == key) events) [
  | [] ↦ raise (value_error "No row was found when one was required")
  | e ∷ rest ↦ return e
]

abbrev pub found_or : Option WebhookEvent → Result WebhookEvent → Result WebhookEvent
found_or none other = other
found_or (some e) other = return e

abbrev pub existing_event : WebhookEvent → List WebhookEvent → Result WebhookEvent
existing_event row events =
    found_or (event_by_id row.event_id events) (event_by_idempotency row.idempotency_key events)

-- the insertion of a row, or the row that is there
abbrev pub insert_event : WebhookEvent → List WebhookEvent → Result WebhookEvent × List WebhookEvent
insert_event row events =
    if any (same_event row) events
    then (existing_event row events, events)
    else (return row, events ++ row ∷ [])

-- `_claim_pending_events`: whether a row is due
abbrev pub is_due : String → WebhookEvent → Bool
is_due current_time e =
    (e.status == "pending") && ((e.next_retry_at == "") || le_text e.next_retry_at current_time)

abbrev pub arrives_before : WebhookEvent → WebhookEvent → Bool
arrives_before a b =
    if a.received_at == b.received_at
    then lt_text a.event_id b.event_id
    else lt_text a.received_at b.received_at

-- `ORDER BY received_at, event_id`
abbrev pub insert_event_row : WebhookEvent → List WebhookEvent → List WebhookEvent
insert_event_row e [] = e ∷ []
insert_event_row e (x ∷ xs) =
    let behind = insert_event_row e xs in if arrives_before x e then x ∷ behind else e ∷ x ∷ xs

abbrev pub sort_events : List WebhookEvent → List WebhookEvent
sort_events [] = []
sort_events (e ∷ es) = insert_event_row e (sort_events es)

abbrev pub counted : WebhookEvent → WebhookEvent
counted e = record e { attempt_count = suc e.attempt_count }

abbrev pub is_claimed_by : WebhookEvent → WebhookEvent → Bool
is_claimed_by event e = (e.event_id == event.event_id) && (e.status == "pending")

abbrev pub in_work : WebhookEvent → WebhookEvent → WebhookEvent
in_work event e = record e {
  status = "processing";
  attempt_count = event.attempt_count;
  error_class = "";
  error = "";
}

abbrev pub mark_processing : WebhookEvent → List WebhookEvent → List WebhookEvent
mark_processing event = update_where (is_claimed_by event) (in_work event)

abbrev pub mark_all_processing : List WebhookEvent → List WebhookEvent → List WebhookEvent
mark_all_processing [] events = events
mark_all_processing (event ∷ rest) events = mark_all_processing rest (mark_processing event events)

unfoldable pub claim_pending_events :
    ℕ → String → List WebhookEvent → List WebhookEvent × List WebhookEvent
claim_pending_events limit current_time events =
    let rows = map counted (take limit (sort_events (select_where (is_due current_time) events))) in
    (rows, mark_all_processing rows events)

-- `webhook_event_rows`; no status, and the empty one, is every status
abbrev webhook_event_rows : Option String → List WebhookEvent → List WebhookEvent
webhook_event_rows none events = sort_events events
webhook_event_rows (some status) events =
    sort_events (select_where (λ e. (status == "") || (e.status == status)) events)
