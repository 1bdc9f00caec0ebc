-- ===== src/Webhooks/Inbox.antt =====
-- runtime/webhooks.py, `enqueue_webhook_event`: an event that is enqueued again.
use mathlib.Core.Path.{ap₂}
use ok.Prelude.{
  String, ◌≡◌, refl, ap, ◌∙◌, inl, inr, Bool, true, false, not, List, [], ◌∷◌, ◌++◌, arith, ◌==◌,
  eq_refl, any, any-append, Bool-cases, select_where, Option, none, some, Result, return, raise,
}
use ok.Changes.{SourceChangeOperation}
use ok.Storage.{Environment, RawFile, Payload, put_raw}
use ok.Webhooks.{
  WebhookEvent, WebhookEventInput, WebhookState, same_event, event_row, existing_event,
  insert_event, found_or, event_by_id, event_by_idempotency, enqueue_webhook_event, validate_event,
  raw_payload_ref_of, raw_payload, write_raw, store_event,
}

select-again :
    {A : Type 0} (p : A → Bool) (xs : List A)
    → select_where p (select_where p xs) ≡ select_where p xs
select-again p [] = refl
select-again p (x ∷ xs) = elim (Bool-cases (p x)) [
  | inl e ↦ rw (e, e, select-again p xs)
  | inr e ↦ rw (e, select-again p xs)
]

put_raw-again :
    (env : Environment) (ref : String) (payload : Payload) (files : List RawFile)
    → put_raw env ref payload (put_raw env ref payload files) ≡ put_raw env ref payload files
put_raw-again env ref payload files = rw (eq_refl (env.path_for ref)) (
    ap (λ rest. record { path = env.path_for ref; payload = payload } ∷ rest)
      (select-again (λ f. not (f.path == env.path_for ref)) files))

-- a new row is the first with its id
found_new :
    (row : WebhookEvent) (events : List WebhookEvent)
    → any (same_event row) events ≡ false
    → event_by_id row.event_id (events ++ row ∷ []) ≡ some row
found_new row [] h = rw (eq_refl row.event_id) refl
found_new row (e ∷ events) h =
    let other : (e.event_id == row.event_id) ≡ false = ground (arith, h) in
    rw other (found_new row events (ground (arith, h)))

-- the second insertion, of a row with the same id and key
insert-again :
    (row row' : WebhookEvent) (events : List WebhookEvent)
    → row'.event_id ≡ row.event_id
    → row'.idempotency_key ≡ row.idempotency_key
    → any (same_event row) events ≡ true
    → insert_event row' events ≡ (existing_event row events, events)
insert-again row row' events same_id same_key h = rw (same_id, same_key, h) refl

-- whether an insertion found the row or appended it
module _ (row : WebhookEvent) (events : List WebhookEvent) where
  insert-twice :
      (row' : WebhookEvent)
      → row'.event_id ≡ row.event_id
      → row'.idempotency_key ≡ row.idempotency_key
      → let (outcome, events') = insert_event row events in
        insert_event row' events' ≡ (outcome, events')
  insert-twice row' same_id same_key = elim (Bool-cases (any (same_event row) events)) [
    | inl there ↦ rw (there, insert-again row row' events same_id same_key there)
    | inr new ↦
        let there : any (same_event row) (events ++ row ∷ []) ≡ true =
          ground (arith, any-append (same_event row) events (row ∷ []), eq_refl row.event_id) in
        rw (new, insert-again row row' (events ++ row ∷ []) same_id same_key there)
          (ap
            (λ o. (
              found_or o (event_by_idempotency row.idempotency_key (events ++ row ∷ [])),
              events ++ row ∷ [],
            ))
            (found_new row events new))
  ]

module _ (env : Environment) (event : WebhookEventInput) where
  write_raw-again :
      (store : Option (List RawFile))
      → write_raw env event (write_raw env event store) ≡ write_raw env event store
  write_raw-again none = refl
  write_raw-again (some files) =
      ap some (put_raw-again env (raw_payload_ref_of event) (raw_payload event) files)

  enqueued :
      (received_at : String) (s : WebhookState) {operation : SourceChangeOperation}
      → validate_event event ≡ return operation
      → enqueue_webhook_event env received_at event s ≡ store_event env received_at event s
  unfolding enqueue_webhook_event
  enqueued received_at s valid =
      ap {A = Result SourceChangeOperation}
        (λ v. elim v [ raise e ↦ (raise e, s) | return _ ↦ store_event env received_at event s ])
        valid

  stored-again :
      (t t' : String) (s : WebhookState)
      → let first_time = store_event env t event s in
        store_event env t' event first_time.1 ≡ first_time
  stored-again t t' s =
      ap₂
        (λ inserted store. (
          inserted.0,
          record {
            governed = record s.governed { raw_store = store };
            webhook_events = inserted.1;
          },
        ))
        (insert-twice (event_row t event) s.webhook_events (event_row t' event) refl refl)
        (write_raw-again s.governed.raw_store)

-- A valid event that is enqueued a second time, at any time, is answered as at the first, and
-- changes nothing.
pub enqueue-again :
    (env : Environment) (event : WebhookEventInput) (t t' : String) (s : WebhookState)
    {operation : SourceChangeOperation}
    → validate_event event ≡ return operation
    → enqueue_webhook_event env t' event (enqueue_webhook_event env t event s).1
      ≡ enqueue_webhook_event env t event s
enqueue-again env event t t' s valid =
    rw (enqueued env event t s valid)
      (enqueued env event t' (store_event env t event s).1 valid ∙ stored-again env event t t' s)
