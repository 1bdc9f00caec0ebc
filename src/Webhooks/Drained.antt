-- ===== src/Webhooks/Drained.antt =====
-- runtime/webhooks.py: runs of a worker, one behind the other, until no event waits.
use mathlib.Core.Path.{subst}
use ok.Prelude.{
  All-intro, ℕ, suc, ◌+◌, ◌≤◌, String, ◌≡◌, sym, inl, inr, true, false, List, [], ◌∷◌, arith, All,
  All-mono, All-zip, Bool-cases, length, le_text, max,
}
use ok.Storage.{Environment}
use ok.Webhooks.{WebhookEvent, WebhookState, Worker, process_pending_webhook_events}
use ok.Webhooks.Attempts.{is_pending, Bounded}
use ok.Webhooks.Claimed.{Ready}
use ok.Webhooks.Processed.{Idle}
use ok.Webhooks.Runs.{Reachable, after, process, Reachable-IsOrderly}
use ok.Webhooks.Retried.{Waits, retry_time, run-Waits, length-run}

-- runs one behind the other
abbrev pub run_all : Environment → List Worker → WebhookState → WebhookState
run_all env [] s = s
run_all env (worker ∷ workers) s =
    run_all env workers (process_pending_webhook_events env worker s).1

-- a run with the given maximum of attempts that may claim so many events
abbrev pub Suits : ℕ → ℕ → Worker → Type 0
Suits max_attempts size worker = (worker.max_attempts ≡ max_attempts) × (size ≤ worker.limit)

-- each run starts when the time has come at which the events that failed in the run before are due
abbrev pub Spaced : String → List Worker → Type 0
Spaced time [] = Unit
Spaced time (worker ∷ workers) =
    (le_text time (worker.iso worker.now) ≡ true) × Spaced (retry_time worker) workers

Waits-Ready :
    (k : ℕ) (time now : String) (e : WebhookEvent)
    → le_text time now ≡ true
    → Waits k time e
    → Ready now e
Waits-Ready k time now e reached waits pending =
    rw (waits pending).1 (ground (arith, pending, reached))

module _ (env : Environment) (max_attempts : ℕ) where
  -- nothing waits any more, once an event that waits would have all its attempts behind it
  out_of_tries :
      (k : ℕ) (time : String) (s : WebhookState)
      → Reachable env max_attempts s
      → max 1 max_attempts ≤ k
      → All (Waits k time) s.webhook_events
      → All (λ e. (is_pending e ≡ false) × Idle e) s.webhook_events
  out_of_tries k time s r all waits =
      let orderly = Reachable-IsOrderly env max_attempts s r in
      All-zip (λ e. Bounded (max 1 max_attempts) e × Waits k time e) Idle
        (λ e. (is_pending e ≡ false) × Idle e)
        (λ e facts idle. (
          elim (Bool-cases (is_pending e)) [
            | inl pending ↦ absurd (omega (arith, all, facts.0.1 pending, (facts.1 pending).0))
            | inr done ↦ done
          ],
          idle,
        ))
        s.webhook_events
        (All-zip (Bounded (max 1 max_attempts)) (Waits k time) _ (λ e b w. (b, w)) s.webhook_events
          orderly.bounded waits)
        orderly.idle

  drains :
      (workers : List Worker) (k : ℕ) (time : String) (s : WebhookState)
      → Reachable env max_attempts s
      → All (Suits max_attempts (length s.webhook_events)) workers
      → Spaced time workers
      → max 1 max_attempts ≤ k + length workers
      → All (Waits k time) s.webhook_events
      → All (λ e. (is_pending e ≡ false) × Idle e) (run_all env workers s).webhook_events
  drains [] k time s r suit spaced many waits = out_of_tries k time s r (omega (arith, many)) waits
  drains (worker ∷ workers) k time s r suit spaced many waits =
      let orderly = Reachable-IsOrderly env max_attempts s r in
      let next = (process_pending_webhook_events env worker s).1 in
      drains workers (suc k) (retry_time worker) next (after r (process worker suit.0.0))
        (subst (λ n. All (Suits max_attempts n) workers) (sym (length-run env worker s)) suit.1)
        spaced.1 (omega (arith, many))
        (run-Waits env (max 1 max_attempts) k worker s suit.0.1
          (All-mono (Waits k time) (Ready (worker.iso worker.now))
            (λ e. Waits-Ready k time (worker.iso worker.now) e spaced.0) s.webhook_events waits)
          orderly.distinct orderly.bounded
          (All-mono (Waits k time) (λ e. is_pending e ≡ true → k ≤ e.attempt_count)
            (λ e w pending. (w pending).0) s.webhook_events waits))

-- In a reachable state in which each event that waits is due: after as many runs as an event may be
-- tried, each able to claim the whole inbox and each at a time at which the failures of the run
-- before are due again, no event waits and none is in work, whatever the changes raise.
pub run_all-drains :
    (env : Environment) (max_attempts : ℕ) (first : Worker) (rest : List Worker) (s : WebhookState)
    → Reachable env max_attempts s
    → All (Suits max_attempts (length s.webhook_events)) (first ∷ rest)
    → All (Ready (first.iso first.now)) s.webhook_events
    → Spaced (retry_time first) rest
    → max 1 max_attempts ≤ length (first ∷ rest)
    → All (λ e. (is_pending e ≡ false) × Idle e) (run_all env (first ∷ rest) s).webhook_events
run_all-drains env max_attempts first rest s r suit ready spaced many =
    let orderly = Reachable-IsOrderly env max_attempts s r in
    drains env max_attempts rest 1 (retry_time first) (process_pending_webhook_events env first s).1
      (after r (process first suit.0.0))
      (subst (λ n. All (Suits max_attempts n) rest) (sym (length-run env first s)) suit.1) spaced
      (omega (arith, many))
      (run-Waits env (max 1 max_attempts) 0 first s suit.0.1 ready orderly.distinct orderly.bounded
        (All-intro _ (λ e _. omega arith) s.webhook_events))
