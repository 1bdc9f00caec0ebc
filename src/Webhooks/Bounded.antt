-- ===== src/Webhooks/Bounded.antt =====
-- runtime/webhooks.py: the attempts of the events that a run over the inbox settles.
use ok.Prelude.{
  ℕ, ◌≤◌, String, ◌≡◌, refl, ◌∙◌, inl, inr, Bool, true, false, List, [], ◌∷◌, arith, All, All-mono,
  Distinct, Bool-cases, Result, return, raise, value_error, type_error, payload_error,
  integrity_error, ltb, max,
}
use ok.Storage.{Environment}
use ok.Webhooks.{
  WebhookEvent, WebhookState, Worker, Counts, same_event, settled_event, failed_event, apply_event,
  update_event, process_events, process_pending_webhook_events,
}
use ok.Webhooks.Attempts.{Bounded, Agreed, Counted, same_id, claim-Agreed}

-- A row that failed waits again only below the bound.
failed-Bounded :
    (most attempts : ℕ) (now retry_at class message : String) (x : WebhookEvent)
    → x.attempt_count ≡ attempts
    → x.attempt_count ≤ most
    → Bounded most (failed_event (ltb attempts most) now retry_at class message x)
failed-Bounded most attempts now retry_at class message x agrees few =
    elim (Bool-cases (ltb attempts most)) [
      | inl again ↦ rw again (few, λ _. ground (arith, again, agrees))
      | inr last ↦ rw last (few, λ waits. cc waits)
    ]

failed-attempt_count :
    (again : Bool) (now retry_at class message : String) (x : WebhookEvent)
    → (failed_event again now retry_at class message x).attempt_count ≡ x.attempt_count
failed-attempt_count true now retry_at class message x = refl
failed-attempt_count false now retry_at class message x = refl

failed-event_id :
    (again : Bool) (now retry_at class message : String) (x : WebhookEvent)
    → (failed_event again now retry_at class message x).event_id ≡ x.event_id
failed-event_id true now retry_at class message x = refl
failed-event_id false now retry_at class message x = refl

module _ (env : Environment) (worker : Worker) where
  abbrev most : ℕ
  most = max 1 worker.max_attempts

  settled-Bounded :
      (event : WebhookEvent) (outcome : Result (Unit {0})) (x : WebhookEvent)
      → x.attempt_count ≡ event.attempt_count
      → x.attempt_count ≤ most
      → Bounded most (settled_event env worker event outcome x)
  settled-Bounded event (return _) x agrees few = (few, λ waits. cc waits)
  settled-Bounded event (raise (payload_error _)) x agrees few = (few, λ waits. cc waits)
  settled-Bounded event (raise (value_error _)) x agrees few =
      failed-Bounded most event.attempt_count _ _ _ _ x agrees few
  settled-Bounded event (raise (type_error _)) x agrees few =
      failed-Bounded most event.attempt_count _ _ _ _ x agrees few
  settled-Bounded event (raise integrity_error) x agrees few =
      failed-Bounded most event.attempt_count _ _ _ _ x agrees few

  pub settled-attempt_count :
      (event : WebhookEvent) (outcome : Result (Unit {0})) (x : WebhookEvent)
      → (settled_event env worker event outcome x).attempt_count ≡ x.attempt_count
  settled-attempt_count event (return _) x = refl
  settled-attempt_count event (raise (payload_error _)) x = refl
  settled-attempt_count event (raise (value_error _)) x =
      failed-attempt_count (ltb event.attempt_count most) _ _ _ _ x
  settled-attempt_count event (raise (type_error _)) x =
      failed-attempt_count (ltb event.attempt_count most) _ _ _ _ x
  settled-attempt_count event (raise integrity_error) x =
      failed-attempt_count (ltb event.attempt_count most) _ _ _ _ x

  settled-event_id :
      (event : WebhookEvent) (outcome : Result (Unit {0})) (x : WebhookEvent)
      → (settled_event env worker event outcome x).event_id ≡ x.event_id
  settled-event_id event (return _) x = refl
  settled-event_id event (raise (payload_error _)) x = refl
  settled-event_id event (raise (value_error _)) x =
      failed-event_id (ltb event.attempt_count most) _ _ _ _ x
  settled-event_id event (raise (type_error _)) x =
      failed-event_id (ltb event.attempt_count most) _ _ _ _ x
  settled-event_id event (raise integrity_error) x =
      failed-event_id (ltb event.attempt_count most) _ _ _ _ x

  settle-Agreed :
      (event : WebhookEvent) (rows : List WebhookEvent) (outcome : Result (Unit {0}))
      (events : List WebhookEvent)
      → All (Agreed most (event ∷ rows)) events
      → All
          (Agreed most rows)
          (update_event event.event_id (settled_event env worker event outcome) events)
  settle-Agreed event rows outcome [] h = tt
  settle-Agreed event rows outcome (x ∷ events) h =
      let behind = settle-Agreed event rows outcome events h.1 in
      let (agrees, bounded) = h.0 in
      elim (Bool-cases (same_id x event)) [
        | inl same ↦ rw same (
          (
            All-mono (Counted x) (Counted (settled_event env worker event outcome x))
                (λ c counted same'.
                  settled-attempt_count event outcome x
                  ∙ counted (rw (settled-event_id event outcome x) at same'))
                rows agrees.1,
            settled-Bounded event outcome x (agrees.0 same) bounded.0,
          ),
          behind,
        )
        | inr other ↦ rw other ((agrees.1, bounded), behind)
      ]

  process-Agreed :
      (rows : List WebhookEvent) (c : Counts) (s : WebhookState)
      → All (Agreed most rows) s.webhook_events
      → All (Agreed most []) (process_events env worker rows c s).1.webhook_events
  unfolding process_events
  process-Agreed [] c s h = h
  process-Agreed (row ∷ rows) c s h =
      process-Agreed rows _ _
        (settle-Agreed row rows (apply_event env worker row s.governed).0 s.webhook_events h)

  pub process-Bounded :
      (s : WebhookState)
      → Distinct same_event s.webhook_events
      → All (Bounded most) s.webhook_events
      → All (Bounded most) (process_pending_webhook_events env worker s).1.webhook_events
  unfolding process_pending_webhook_events
  process-Bounded s d h =
      All-mono (Agreed most []) (Bounded most) (λ _ agreed. agreed.1) _
        (process-Agreed _ _ _
          (claim-Agreed most worker.limit (worker.iso worker.now) s.webhook_events d h))
