-- ===== src/Retention/Kept.antt =====
-- runtime/retention.py, `purge_expired_webhook_events`: what the purge keeps of the inbox.
use ok.Prelude.{
  ◌≡◌, refl, Bool, not, arith, select_where, select_where-delete_where, All, All-select_where,
  Distinct, Distinct-select_where,
}
use ok.Webhooks.{WebhookEvent, WebhookState, same_event}
use ok.Retention.{
  ℤ, pos, negsuc, Clock, is_finished, is_expired_webhook, purge_expired_webhook_events,
}

abbrev unfinished : WebhookEvent → Bool
unfinished e = not (is_finished e)

-- An event that has not succeeded, failed or been found invalid is kept by a purge with any number
-- of days, in its place, and nothing of the governed context changes.
pub purge_expired_webhook_events-unfinished :
    (clock : Clock) (days : ℤ) (s : WebhookState)
    → let s' = (purge_expired_webhook_events clock days s).1 in
      (select_where unfinished s'.webhook_events ≡ select_where unfinished s.webhook_events)
      × (s'.governed ≡ s.governed)
unfolding purge_expired_webhook_events
purge_expired_webhook_events-unfinished clock (negsuc n) s = (refl, refl)
purge_expired_webhook_events-unfinished clock (pos days) s = (
  select_where-delete_where unfinished (is_expired_webhook (clock.iso_before days)) s.webhook_events
      (λ e waits. ground (arith, waits)),
  refl,
)

pub purge-All :
    (P : WebhookEvent → Type 0) (clock : Clock) (days : ℤ) (s : WebhookState)
    → All P s.webhook_events
    → All P (purge_expired_webhook_events clock days s).1.webhook_events
unfolding purge_expired_webhook_events
purge-All P clock (negsuc n) s h = h
purge-All P clock (pos days) s h = All-select_where P _ s.webhook_events h

pub purge-Distinct :
    (clock : Clock) (days : ℤ) (s : WebhookState)
    → Distinct same_event s.webhook_events
    → Distinct same_event (purge_expired_webhook_events clock days s).1.webhook_events
unfolding purge_expired_webhook_events
purge-Distinct clock (negsuc n) s d = d
purge-Distinct clock (pos days) s d = Distinct-select_where same_event _ s.webhook_events d
