-- ===== src/Webhooks/Runs.antt =====
-- runtime/webhooks.py: the states of the inbox that enqueuing and runs of a worker lead to.
use mathlib.Core.Path.{subst}
use ok.Prelude.{
  ℕ, ◌≤◌, String, ◌≡◌, refl, sym, ap, ◌∙◌, inl, inr, [], ◌∷◌, ◌++◌, arith, any, All, All-append,
  Distinct, Distinct-snoc, Bool-cases, Result, return, raise, max,
}
use ok.Storage.{Environment, empty_state}
use ok.Webhooks.{
  WebhookEvent, WebhookEventInput, WebhookState, Worker, same_event, insert_event, event_row,
  store_event, enqueue_webhook_event, validate_event, process_pending_webhook_events,
}
use ok.Changes.{SourceChangeOperation}
use ok.Retention.{ℤ, Clock, purge_expired_webhook_events}
use ok.Retention.Kept.{purge-All, purge-Distinct}
use ok.Webhooks.Processed.{Idle, process_pending-settles}
use ok.Webhooks.Attempts.{Bounded}
use ok.Webhooks.Bounded.{process-Bounded}
use ok.Webhooks.Keys.{process-Distinct, same_event_comm}

-- what holds of the inbox between two operations
pub record IsOrderly (most : ℕ) (s : WebhookState) : Type 0 where
  pub distinct : Distinct same_event s.webhook_events
  pub bounded : All (Bounded most) s.webhook_events
  pub idle : All Idle s.webhook_events

insert-IsOrderly :
    (most : ℕ) (received_at : String) (event : WebhookEventInput) (s s' : WebhookState)
    → 1 ≤ most
    → IsOrderly most s
    → s'.webhook_events ≡ (insert_event (event_row received_at event) s.webhook_events).1
    → IsOrderly most s'
insert-IsOrderly most received_at event s s' positive o e =
    let row = event_row received_at event in
    elim (Bool-cases (any (same_event row) s.webhook_events)) [
      | inl known ↦
          let kept : s'.webhook_events ≡ s.webhook_events = e ∙ rw known refl in
          record {
            distinct = rw kept o.distinct;
            bounded = rw kept o.bounded;
            idle = rw kept o.idle;
          }
      | inr new ↦
          let grown : s'.webhook_events ≡ s.webhook_events ++ row ∷ [] = e ∙ rw new refl in
          record {
            distinct =
                rw grown
                  (Distinct-snoc same_event same_event_comm s.webhook_events row o.distinct new);
            bounded = rw grown (
                All-append (Bounded most) s.webhook_events (row ∷ []) o.bounded
                  ((omega arith, λ _. positive), tt));
            idle = rw grown (All-append Idle s.webhook_events (row ∷ []) o.idle (refl, tt));
          }
    ]

module _ (env : Environment) (most : ℕ) (received_at : String) (event : WebhookEventInput) where
  -- behind the validation
  validated-IsOrderly :
      (s : WebhookState) (v : Result SourceChangeOperation)
      → 1 ≤ most
      → IsOrderly most s
      → validate_event event ≡ v
      → IsOrderly most (enqueue_webhook_event env received_at event s).1
  unfolding enqueue_webhook_event
  validated-IsOrderly s v positive o e =
      subst (λ w. IsOrderly most (stored w).1) (sym e) (orderly v)
    where
      stored : Result SourceChangeOperation → Result WebhookEvent × WebhookState
      stored w = elim w [
        | raise error ↦ (raise error, s)
        | return _ ↦ store_event env received_at event s
      ]

      orderly : (w : Result SourceChangeOperation) → IsOrderly most (stored w).1
      orderly (raise error) = o
      orderly (return _) =
          insert-IsOrderly most received_at event s (store_event env received_at event s).1 positive
            o refl

module _ (env : Environment) (max_attempts : ℕ) where
  pub data Step : WebhookState → WebhookState → Type 0 where
    enqueue :
        (received_at : String) (event : WebhookEventInput) {s : WebhookState}
        → Step s (enqueue_webhook_event env received_at event s).1
    process :
        (worker : Worker) {s : WebhookState}
        → worker.max_attempts ≡ max_attempts
        → Step s (process_pending_webhook_events env worker s).1
    purge :
        (clock : Clock) (days : ℤ) {s : WebhookState}
        → Step s (purge_expired_webhook_events clock days s).1

  pub data Reachable : WebhookState → Type 0 where
    at_first : Reachable (record { governed = empty_state; webhook_events = [] })
    after : {s s' : WebhookState} → Reachable s → Step s s' → Reachable s'

  step-IsOrderly :
      {s s' : WebhookState}
      → Step s s'
      → IsOrderly (max 1 max_attempts) s
      → IsOrderly (max 1 max_attempts) s'
  step-IsOrderly (enqueue received_at event {s}) o =
      validated-IsOrderly env (max 1 max_attempts) received_at event s _ (omega arith) o refl
  step-IsOrderly (process worker {s} same) o =
      let most_is : max 1 worker.max_attempts ≡ max 1 max_attempts = ap (λ n. max 1 n) same in
      record {
        distinct = process-Distinct env worker s o.distinct;
        bounded =
            subst
              (λ n. All (Bounded n) (process_pending_webhook_events env worker s).1.webhook_events)
              most_is
              (process-Bounded env worker s o.distinct
                (subst (λ n. All (Bounded n) s.webhook_events) (sym most_is) o.bounded));
        idle = (process_pending-settles env worker s o.idle).0;
      }
  step-IsOrderly (purge clock days {s}) o = record {
    distinct = purge-Distinct clock days s o.distinct;
    bounded = purge-All (Bounded (max 1 max_attempts)) clock days s o.bounded;
    idle = purge-All Idle clock days s o.idle;
  }

-- Whatever events arrive, however often workers run and expired events are purged, with one maximum of attempts: no two events
-- have the same id or key, no event is tried more often than the maximum, or once, an event that
-- waits has a try left, and between runs no event is in work.
pub Reachable-IsOrderly :
    (env : Environment) (max_attempts : ℕ) (s : WebhookState)
    → Reachable env max_attempts s
    → IsOrderly (max 1 max_attempts) s
Reachable-IsOrderly env max_attempts s at_first = record { distinct = tt; bounded = tt; idle = tt }
Reachable-IsOrderly env max_attempts s (after {s = s0} r step) =
    step-IsOrderly env max_attempts step (Reachable-IsOrderly env max_attempts s0 r)
