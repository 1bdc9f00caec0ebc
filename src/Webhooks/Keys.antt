-- ===== src/Webhooks/Keys.antt =====
-- runtime/webhooks.py: the ids and keys of the events, which a run over the inbox keeps.
use ok.Prelude.{
  String, ◌≡◌, refl, ap, ◌∙◌, inl, inr, Bool, true, false, ◌||◌, List, [], ◌∷◌, arith, length, ◌==◌,
  eq_iff, any, Distinct, Bool-cases, update_where, Result, return, raise, value_error,
  payload_error, type_error, integrity_error,
}
use ok.Storage.{Environment}
use ok.Webhooks.{
  WebhookEvent, WebhookState, Worker, Counts, same_event, is_claimed_by, in_work, mark_processing,
  mark_all_processing, claim_pending_events, settled_event, failed_event, apply_event,
  process_events, process_pending_webhook_events,
}

-- an update that keeps the keys of a row
record Keeps (f : WebhookEvent → WebhookEvent) : Type 0 where
  same_event_id : (e : WebhookEvent) → (f e).event_id ≡ e.event_id
  same_key : (e : WebhookEvent) → (f e).idempotency_key ≡ e.idempotency_key

module _ (p : WebhookEvent → Bool) (f : WebhookEvent → WebhookEvent) (keeps : Keeps f) where
  any-updated :
      (x : WebhookEvent) (events : List WebhookEvent)
      → any (same_event x) (update_where p f events) ≡ any (same_event x) events
  any-updated x [] = refl
  any-updated x (e ∷ events) =
      let behind = any-updated x events in
      elim (Bool-cases (p e)) [
        | inl hit ↦ rw (hit, keeps.same_event_id e, keeps.same_key e, behind)
        | inr miss ↦ rw (miss, behind)
      ]

  any-of_updated :
      (x : WebhookEvent) (events : List WebhookEvent)
      → any (same_event (f x)) events ≡ any (same_event x) events
  any-of_updated x [] = refl
  any-of_updated x (e ∷ events) =
      let behind = any-of_updated x events in
      rw (keeps.same_event_id x, keeps.same_key x)
        (ap (λ b. ((e.event_id == x.event_id) || (e.idempotency_key == x.idempotency_key)) || b)
          behind)

  Distinct-updated :
      (events : List WebhookEvent)
      → Distinct same_event events
      → Distinct same_event (update_where p f events)
  Distinct-updated [] d = tt
  Distinct-updated (x ∷ events) d =
      let behind = Distinct-updated events d.1 in
      let free = any-updated x events ∙ d.0 in
      elim (Bool-cases (p x)) [
        | inl hit ↦ rw hit (any-of_updated x (update_where p f events) ∙ free, behind)
        | inr miss ↦ rw miss (free, behind)
      ]

failed-Keeps :
    (again : Bool) (now retry_at class message : String)
    → Keeps (failed_event again now retry_at class message)
failed-Keeps true now retry_at class message = record {
  same_event_id = λ _. refl;
  same_key = λ _. refl;
}
failed-Keeps false now retry_at class message = record {
  same_event_id = λ _. refl;
  same_key = λ _. refl;
}

settled-Keeps :
    (env : Environment) (worker : Worker) (event : WebhookEvent) (outcome : Result (Unit {0}))
    → Keeps (settled_event env worker event outcome)
settled-Keeps env worker event (return _) = record {
  same_event_id = λ _. refl;
  same_key = λ _. refl;
}
settled-Keeps env worker event (raise (payload_error _)) = record {
  same_event_id = λ _. refl;
  same_key = λ _. refl;
}
settled-Keeps env worker event (raise (value_error _)) = failed-Keeps _ _ _ _ _
settled-Keeps env worker event (raise (type_error _)) = failed-Keeps _ _ _ _ _
settled-Keeps env worker event (raise integrity_error) = failed-Keeps _ _ _ _ _

mark_rows-Distinct :
    (rows events : List WebhookEvent)
    → Distinct same_event events
    → Distinct same_event (mark_all_processing rows events)
mark_rows-Distinct [] events d = d
mark_rows-Distinct (row ∷ rows) events d = mark_rows-Distinct rows (mark_processing row events) (
    Distinct-updated (is_claimed_by row) (in_work row)
      (record { same_event_id = λ _. refl; same_key = λ _. refl }) events d)

module _ (env : Environment) where
  process_events-Distinct :
      (worker : Worker) (rows : List WebhookEvent) (c : Counts) (s : WebhookState)
      → Distinct same_event s.webhook_events
      → Distinct same_event (process_events env worker rows c s).1.webhook_events
  unfolding process_events
  process_events-Distinct worker [] c s d = d
  process_events-Distinct worker (row ∷ rows) c s d = process_events-Distinct worker rows _ _ (
      Distinct-updated (λ e. e.event_id == row.event_id) _
        (settled-Keeps env worker row (apply_event env worker row s.governed).0) s.webhook_events d)

  pub process-Distinct :
      (worker : Worker) (s : WebhookState)
      → Distinct same_event s.webhook_events
      → Distinct same_event (process_pending_webhook_events env worker s).1.webhook_events
  unfolding process_pending_webhook_events claim_pending_events
  process-Distinct worker s d =
      let (rows, marked) =
        claim_pending_events worker.limit (worker.iso worker.now) s.webhook_events in
      process_events-Distinct worker rows
        (record { claimed = length rows; succeeded = 0; failed = 0; invalid = 0 })
        (record s { webhook_events = marked }) (mark_rows-Distinct rows s.webhook_events d)

pub same_event_comm : (a b : WebhookEvent) → same_event a b ≡ same_event b a
same_event_comm a b = ground (
  arith,
  eq_iff a.event_id b.event_id,
  eq_iff b.event_id a.event_id,
  eq_iff a.idempotency_key b.idempotency_key,
  eq_iff b.idempotency_key a.idempotency_key,
)
