-- ===== src/Examples/Webhooks.antt =====
-- An event that arrives twice, and the run of a worker that applies it.
use ok.Prelude.{
  List, ◌∷◌, false, arith, length, le_text, ◌≡◌, refl, ◌≤◌, ◌+◌, decimal, [], return, All,
}
use ok.Json.{end, field, str}
use ok.Storage.{empty_state, test_environment}
use ok.Changes.{restrict}
use ok.Webhooks.{
  WebhookEvent, WebhookEventInput, WebhookState, Worker, Counts, validate_event,
  enqueue_webhook_event, process_pending_webhook_events,
}
use ok.Webhooks.Inbox.{enqueue-again}
use ok.Webhooks.Processed.{Idle, process_pending-settles}
use ok.Webhooks.Attempts.{is_pending}
use ok.Webhooks.Claimed.{Ready}
use ok.Webhooks.Drained.{run_all, Suits, Spaced, run_all-drains}
use ok.Webhooks.Retried.{retry_time}
use ok.Webhooks.Runs.{Reachable, at_first, after, enqueue, process, IsOrderly, Reachable-IsOrderly}

abbrev takedown : WebhookEventInput
takedown = record {
  event_id = "evt-1";
  source_system = "wiki";
  event_type = "page.hidden";
  operation = "restrict";
  payload = field "source_ref" (str "wiki:page:1") end;
  source_object_id = "1";
  idempotency_key = "";
  occurred_at = "";
  actor_ref = "";
}

abbrev no_events : WebhookState
no_events = record { governed = empty_state; webhook_events = [] }

abbrev worker : Worker
worker = record {
  limit = 10;
  now = 5;
  max_attempts = 3;
  retry_delay_seconds = 60;
  iso = decimal;
  driver_message = "constraint failed";
  max_words = 90;
  overlap_words = 15;
}

valid : validate_event takedown ≡ return restrict
unfolding ok.Webhooks.validate_event ok.Webhooks.operation_of
valid = refl

abbrev queued : WebhookState
queued = (enqueue_webhook_event test_environment "1" takedown no_events).1

enqueue-again_example :
    enqueue_webhook_event test_environment "2" takedown queued
    ≡ enqueue_webhook_event test_environment "1" takedown no_events
enqueue-again_example = enqueue-again test_environment takedown "1" "2" no_events valid

queued-Reachable : Reachable test_environment 3 queued
queued-Reachable = after at_first (enqueue "1" takedown)

process_pending-settles_example :
    let (counts, s') = process_pending_webhook_events test_environment worker queued in
    All Idle s'.webhook_events
    × (counts.succeeded + counts.failed + counts.invalid ≡ counts.claimed)
    × (counts.claimed ≤ 10)
process_pending-settles_example =
    process_pending-settles test_environment worker queued
      (Reachable-IsOrderly test_environment 3 queued queued-Reachable).idle

Reachable-IsOrderly_example :
    IsOrderly 3 (process_pending_webhook_events test_environment worker queued).1
Reachable-IsOrderly_example =
    Reachable-IsOrderly test_environment 3
      (process_pending_webhook_events test_environment worker queued).1
      (after queued-Reachable (process worker refl))

-- the runs of the worker in the next minutes
abbrev later_runs : List Worker
later_runs = record worker { now = 60_000_005 } ∷ record worker { now = 120_000_005 } ∷ []

later_runs-Spaced : Spaced (retry_time worker) later_runs
unfolding le_text decimal
later_runs-Spaced = (refl, (refl, tt))

queued-Ready : All (Ready (worker.iso worker.now)) queued.webhook_events
unfolding enqueue_webhook_event validate_event
queued-Ready = ((λ waits. refl), tt)

large_enough : All (Suits 3 (length queued.webhook_events)) (worker ∷ later_runs)
unfolding enqueue_webhook_event validate_event
large_enough = ((refl, omega arith), ((refl, omega arith), ((refl, omega arith), tt)))

run_all-drains_example :
    All
      (λ e. (is_pending e ≡ false) × Idle e)
      (run_all test_environment (worker ∷ later_runs) queued).webhook_events
run_all-drains_example =
    run_all-drains test_environment 3 worker later_runs queued queued-Reachable large_enough
      queued-Ready later_runs-Spaced (omega arith)
