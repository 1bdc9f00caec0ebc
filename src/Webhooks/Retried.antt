-- ===== src/Webhooks/Retried.antt =====
-- runtime/webhooks.py: the events that wait behind a run over the inbox.
use ok.Prelude.{
  ℕ, suc, ◌+◌, ◌*◌, ◌≤◌, String, ◌≡◌, refl, sym, ◌∙◌, inl, inr, Bool, true, false, List, [], ◌∷◌,
  arith, ◌==◌, eq_iff, contains, All, All-mono, All-zip, Distinct, Bool-cases, length,
  length-update_where, Result, return, raise, value_error, type_error, payload_error,
  integrity_error,
}
use ok.Storage.{Environment}
use ok.Webhooks.{
  WebhookEvent, WebhookState, Worker, Counts, same_event, is_claimed_by, in_work, mark_processing,
  mark_all_processing, claim_pending_events, settled_event, failed_event, apply_event, update_event,
  process_events, process_pending_webhook_events,
}
use ok.Webhooks.Attempts.{is_pending, Bounded}
use ok.Webhooks.Bounded.{settled-attempt_count}
use ok.Webhooks.Claimed.{ids, Ready, claim_clears, claimed_attempts}

-- an event that waits has been tried so often, and is due at a time
abbrev pub Waits : ℕ → String → WebhookEvent → Type 0
Waits k time e = is_pending e ≡ true → (k ≤ e.attempt_count) × (e.next_retry_at ≡ time)

-- while the claimed events are applied: those that are ahead have been tried so often
abbrev pub Ahead : ℕ → String → List WebhookEvent → WebhookEvent → Type 0
Ahead k time rows e = Waits k time e × (contains (ids rows) e.event_id ≡ true → k ≤ e.attempt_count)

-- the time of the next attempt of an event that fails in a run
abbrev pub retry_time : Worker → String
retry_time worker = worker.iso (worker.now + worker.retry_delay_seconds * 1_000_000)

failed-Waits :
    (k : ℕ) (again : Bool) (now retry_at class message : String) (e : WebhookEvent)
    → k ≤ e.attempt_count
    → Waits k retry_at (failed_event again now retry_at class message e)
failed-Waits k true now retry_at class message e many = λ waits. (many, refl)
failed-Waits k false now retry_at class message e many = λ waits. cc waits

module _ (env : Environment) (worker : Worker) where
  settled-Waits :
      (k : ℕ) (event : WebhookEvent) (outcome : Result (Unit {0})) (e : WebhookEvent)
      → k ≤ e.attempt_count
      → Waits k (retry_time worker) (settled_event env worker event outcome e)
  settled-Waits k event (return _) e many = λ waits. cc waits
  settled-Waits k event (raise (payload_error _)) e many = λ waits. cc waits
  settled-Waits k event (raise (value_error _)) e many = failed-Waits k _ _ _ _ _ e many
  settled-Waits k event (raise (type_error _)) e many = failed-Waits k _ _ _ _ _ e many
  settled-Waits k event (raise integrity_error) e many = failed-Waits k _ _ _ _ _ e many

  settle-Ahead :
      (k : ℕ) (row : WebhookEvent) (rows : List WebhookEvent) (outcome : Result (Unit {0}))
      (events : List WebhookEvent)
      → All (Ahead k (retry_time worker) (row ∷ rows)) events
      → All
          (Ahead k (retry_time worker) rows)
          (update_event row.event_id (settled_event env worker row outcome) events)
  settle-Ahead k row rows outcome [] h = tt
  settle-Ahead k row rows outcome (e ∷ events) h =
      let behind = settle-Ahead k row rows outcome events h.1 in
      elim (Bool-cases (e.event_id == row.event_id)) [
        | inl same ↦
            let many : k ≤ e.attempt_count = h.0.1 (
              ground
                (arith, same, eq_iff e.event_id row.event_id, eq_iff row.event_id e.event_id)) in
            rw same (
              (
                settled-Waits k row outcome e many,
                λ known. rw (settled-attempt_count env worker row outcome e) many,
              ),
              behind,
            )
        | inr other ↦ rw other ((h.0.0, λ known. h.0.1 (ground (arith, known))), behind)
      ]

  pub process-Waits :
      (k : ℕ) (rows : List WebhookEvent) (c : Counts) (s : WebhookState)
      → All (Ahead k (retry_time worker) rows) s.webhook_events
      → All (Waits k (retry_time worker)) (process_events env worker rows c s).1.webhook_events
  unfolding process_events
  process-Waits k [] c s h = All-mono _ (Waits k (retry_time worker)) (λ e ahead. ahead.0) _ h
  process-Waits k (row ∷ rows) c s h =
      process-Waits k rows _ _
        (settle-Ahead k row rows (apply_event env worker row s.governed).0 s.webhook_events h)

  length-process :
      (rows : List WebhookEvent) (c : Counts) (s : WebhookState)
      → length (process_events env worker rows c s).1.webhook_events ≡ length s.webhook_events
  unfolding process_events
  length-process [] c s = refl
  length-process (row ∷ rows) c s =
      length-process rows _ _
      ∙ length-update_where (λ e. e.event_id == row.event_id)
          (settled_event env worker row (apply_event env worker row s.governed).0) s.webhook_events

length-marked :
    (rows events : List WebhookEvent) → length (mark_all_processing rows events) ≡ length events
length-marked [] events = refl
length-marked (row ∷ rows) events =
    length-marked rows (mark_processing row events)
    ∙ length-update_where (is_claimed_by row) (in_work row) events

-- a run that is large enough, at a time when each event that waits is due
module _ (env : Environment) (most k : ℕ) (worker : Worker) (s : WebhookState)
    (enough : length s.webhook_events ≤ worker.limit)
    (ready : All (Ready (worker.iso worker.now)) s.webhook_events)
    (distinct : Distinct same_event s.webhook_events)
    (bounded : All (Bounded most) s.webhook_events)
    (old : All (λ e. is_pending e ≡ true → k ≤ e.attempt_count) s.webhook_events) where
  pub run-Waits :
      All
        (Waits (suc k) (retry_time worker))
        (process_pending_webhook_events env worker s).1.webhook_events
  unfolding process_pending_webhook_events
  run-Waits =
      let (rows, marked) =
        claim_pending_events worker.limit (worker.iso worker.now) s.webhook_events in
      process-Waits env worker (suc k) rows _ _ (
        All-zip (λ e. is_pending e ≡ false) _ (Ahead (suc k) (retry_time worker) rows)
          (λ e done many. ((λ waits. cc (sym done ∙ waits)), many)) marked
          (claim_clears worker.limit (worker.iso worker.now) s.webhook_events enough ready)
          (claimed_attempts most k worker.limit (worker.iso worker.now) s.webhook_events distinct
            bounded old))

pub length-run :
    (env : Environment) (worker : Worker) (s : WebhookState)
    → length (process_pending_webhook_events env worker s).1.webhook_events
      ≡ length s.webhook_events
unfolding process_pending_webhook_events claim_pending_events
length-run env worker s =
    let (rows, marked) =
      claim_pending_events worker.limit (worker.iso worker.now) s.webhook_events in
    length-process env worker rows
      (record { claimed = length rows; succeeded = 0; failed = 0; invalid = 0 })
      (record s { webhook_events = marked })
    ∙ length-marked rows s.webhook_events
