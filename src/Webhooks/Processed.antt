-- ===== src/Webhooks/Processed.antt =====
-- runtime/webhooks.py, `process_pending_webhook_events`: what a run over the inbox claims.
use ok.Prelude.{
  ℕ, suc, ◌+◌, ◌≤◌, String, ◌≡◌, refl, sym, ◌∙◌, inl, inr, Bool, true, false, List, [], ◌∷◌, map,
  arith, ◌==◌, eq_iff, eq_refl, contains, All, All-mono, All-update_where, Bool-cases, length, take,
  length-map-take, select_where, Result, return, raise, value_error, type_error, payload_error,
  integrity_error, ltb, max,
}
use ok.Storage.{Environment}
use ok.Webhooks.{
  WebhookEvent, WebhookState, Worker, is_claimed_by, in_work, Counts, counted, is_due, sort_events,
  mark_processing, mark_all_processing, claim_pending_events, settled_event, failed_event, count,
  apply_event, update_event, process_events, process_pending_webhook_events,
}

abbrev is_processing : WebhookEvent → Bool
is_processing e = e.status == "processing"

abbrev pub Idle : WebhookEvent → Type 0
Idle e = is_processing e ≡ false

abbrev ids : List WebhookEvent → List String
ids = map (λ e. e.event_id)

-- a row in work is one of the claimed ones
abbrev Waiting : List String → WebhookEvent → Type 0
Waiting claimed e = is_processing e ≡ true → contains claimed e.event_id ≡ true

-- a row that is marked has the id of the claimed one
mark-Waiting :
    (claimed : List String) (event : WebhookEvent) (events : List WebhookEvent)
    → contains claimed event.event_id ≡ true
    → All (Waiting claimed) events
    → All (Waiting claimed) (mark_processing event events)
mark-Waiting claimed event events known h =
    All-update_where (Waiting claimed) (is_claimed_by event) (in_work event)
      (λ e hit _ _.
        let same : e.event_id ≡ event.event_id =
          ground (arith, hit, eq_iff e.event_id event.event_id) in
        rw same known)
      events h

contains_more :
    (xs : List String) (x a : String) → contains xs a ≡ true → contains (x ∷ xs) a ≡ true
contains_more xs x a h = ground (arith, h)

mark_rows-Waiting :
    (claimed : List String) (rows events : List WebhookEvent)
    → All (λ e. contains claimed e.event_id ≡ true) rows
    → All (Waiting claimed) events
    → All (Waiting claimed) (mark_all_processing rows events)
mark_rows-Waiting claimed [] events known h = h
mark_rows-Waiting claimed (row ∷ rows) events known h =
    mark_rows-Waiting claimed rows (mark_processing row events) known.1
      (mark-Waiting claimed row events known.0 h)

own_ids : (rows : List WebhookEvent) → All (λ e. contains (ids rows) e.event_id ≡ true) rows
own_ids [] = tt
own_ids (row ∷ rows) = (
  ground (arith, eq_refl row.event_id),
  All-mono _ (λ e. contains (ids (row ∷ rows)) e.event_id ≡ true)
      (λ e h. contains_more (ids rows) row.event_id e.event_id h) rows (own_ids rows),
)

failed-Idle :
    (should_retry : Bool) (now retry_at class message : String) (e : WebhookEvent)
    → Idle (failed_event should_retry now retry_at class message e)
failed-Idle true now retry_at class message e = refl
failed-Idle false now retry_at class message e = refl

-- no outcome leaves a row in work
settled-Idle :
    (env : Environment) (worker : Worker) (event : WebhookEvent) (outcome : Result (Unit {0}))
    (e : WebhookEvent)
    → Idle (settled_event env worker event outcome e)
settled-Idle env worker event (return _) e = refl
settled-Idle env worker event (raise (payload_error _)) e = refl
settled-Idle env worker event (raise (value_error m)) e =
    failed-Idle (ltb event.attempt_count (max 1 worker.max_attempts)) _ _ _ _ e
settled-Idle env worker event (raise (type_error m)) e =
    failed-Idle (ltb event.attempt_count (max 1 worker.max_attempts)) _ _ _ _ e
settled-Idle env worker event (raise integrity_error) e =
    failed-Idle (ltb event.attempt_count (max 1 worker.max_attempts)) _ _ _ _ e

-- an update that keeps ids
module _ (id : String) (rest : List String) (f : WebhookEvent → WebhookEvent) where
  update-Waiting :
      ((e : WebhookEvent) → Idle (f e))
      → (events : List WebhookEvent) → All (Waiting (id ∷ rest)) events
      → All (Waiting rest) (update_event id f events)
  update-Waiting idle [] h = tt
  update-Waiting idle (e ∷ events) h =
      let behind = update-Waiting idle events h.1 in
      elim (Bool-cases (e.event_id == id)) [
        | inl same ↦ rw same (λ busy. cc (sym (idle e) ∙ busy), behind)
        | inr other ↦ rw other (
          λ busy.
              let known : contains (id ∷ rest) e.event_id ≡ true = h.0 busy in
              ground (arith, known, other, eq_iff id e.event_id, eq_iff e.event_id id),
          behind,
        )
      ]

count_all : Counts → ℕ
count_all c = c.succeeded + c.failed + c.invalid

counted_once :
    (env : Environment) (outcome : Result (Unit {0})) (c : Counts)
    → (count_all (count env outcome c) ≡ suc (count_all c))
      × ((count env outcome c).claimed ≡ c.claimed)
unfolding count_all
counted_once env (return _) c = (omega arith, refl)
counted_once env (raise (payload_error _)) c = (omega arith, refl)
counted_once env (raise (value_error _)) c = (omega arith, refl)
counted_once env (raise (type_error _)) c = (omega arith, refl)
counted_once env (raise integrity_error) c = (omega arith, refl)

module _ (env : Environment) (worker : Worker) where
  process-Idle :
      (rows : List WebhookEvent) (c : Counts) (s : WebhookState)
      → All (Waiting (ids rows)) s.webhook_events
      → All Idle (process_events env worker rows c s).1.webhook_events
  unfolding process_events
  process-Idle [] c s h =
      All-mono (Waiting []) Idle
        (λ e waits. elim (Bool-cases (is_processing e)) [
          | inl busy ↦ cc (waits busy)
          | inr idle ↦ idle
        ])
        s.webhook_events h
  process-Idle (row ∷ rows) c s h =
      let outcome = (apply_event env worker row s.governed).0 in
      process-Idle rows _ _ (
        update-Waiting row.event_id (ids rows) (settled_event env worker row outcome)
          (settled-Idle env worker row outcome) s.webhook_events h)

  process-counts :
      (rows : List WebhookEvent) (c : Counts) (s : WebhookState)
      → (count_all (process_events env worker rows c s).0 ≡ count_all c + length rows)
        × ((process_events env worker rows c s).0.claimed ≡ c.claimed)
  unfolding process_events
  process-counts [] c s = (omega arith, refl)
  process-counts (row ∷ rows) c s =
      let outcome = (apply_event env worker row s.governed).0 in
      let (once, kept) = counted_once env outcome c in
      let (sum, claimed) = process-counts rows (count env outcome c) _ in
      (omega (arith, sum, once), claimed ∙ kept)

claimed-Waiting :
    (limit : ℕ) (now : String) (events : List WebhookEvent)
    → All Idle events
    → let (rows, marked) = claim_pending_events limit now events in
      All (Waiting (ids rows)) marked × (length rows ≤ limit)
unfolding claim_pending_events
claimed-Waiting limit now events h =
    let due = sort_events (select_where (is_due now) events) in
    let rows = map counted (take limit due) in
    (
      mark_rows-Waiting (ids rows) rows events (own_ids rows)
          (All-mono Idle (Waiting (ids rows)) (λ e idle busy. cc (sym idle ∙ busy)) events h),
      length-map-take counted limit due,
    )

-- Where no event is in work, a run over the inbox leaves none in work, whatever its changes raise.
-- It counts each event that it claims once, as succeeded, failed or invalid, and claims no more
-- than its limit.
pub process_pending-settles :
    (env : Environment) (worker : Worker) (s : WebhookState)
    → All Idle s.webhook_events
    → let (counts, s') = process_pending_webhook_events env worker s in
      All Idle s'.webhook_events
      × (counts.succeeded + counts.failed + counts.invalid ≡ counts.claimed)
      × (counts.claimed ≤ worker.limit)
unfolding process_pending_webhook_events count_all
process_pending-settles env worker s h =
    let (rows, events) =
      claim_pending_events worker.limit (worker.iso worker.now) s.webhook_events in
    let none_yet : Counts = record {
      claimed = length rows;
      succeeded = 0;
      failed = 0;
      invalid = 0;
    } in
    let (waiting, bounded) =
      claimed-Waiting worker.limit (worker.iso worker.now) s.webhook_events h in
    let (sum, claimed) =
      process-counts env worker rows none_yet (record s { webhook_events = events }) in
    (
      process-Idle env worker rows none_yet (record s { webhook_events = events }) waiting,
      omega (arith, sum, claimed),
      omega (arith, claimed, bounded),
    )
