-- ===== src/Webhooks/Tests.antt =====
-- Cycles of src/agents/webhooks.ts on a small table, and the uses of the theorems there.
use scientific_protocol.Common.{
  ℕ, ◌+◌, ◌≤◌, ◌≡◌, refl, Option, none, some, [], ◌∷◌, length, All, ◌==◌, if◌then◌else◌,
}
use scientific_protocol.Review.Evaluation.Parts.{decimal}
use scientific_protocol.Webhooks.{
  SubscriptionStatus, Subscription, Delivery, WebhookStore, trim_response_body,
  compute_agent_webhook_retry_delay_ms, enqueue_agent_webhook_delivery,
  read_due_agent_webhook_deliveries,
}
use scientific_protocol.Webhooks.Dispatch.{
  Sent, answered, broken, Counts, settle_sent, dispatch_delivery, dispatch_all,
  dispatch_due_agent_webhook_deliveries,
}
use scientific_protocol.Webhooks.Attempts.{
  IsBounded, enqueues, dispatches, Reach, here, next, Reach-IsBounded,
}
use scientific_protocol.Webhooks.Settled.{IsSettled, cycle_settles}

abbrev subscribed : WebhookStore
subscribed = record {
  subscriptions =
      (
        1,
        record {
          agent_id = "a";
          failure_reason = none;
          last_delivery_at = none;
          signing_secret = "s";
          status = SubscriptionStatus.active;
          target_url = "https://a";
          updated_at = 0;
        },
      )
      ∷ [];
  deliveries = [];
  next_delivery = 0;
}

abbrev enqueued : WebhookStore
enqueued =
    (enqueue_agent_webhook_delivery 10 "e2" "claim" 9 "{}" 1
      (enqueue_agent_webhook_delivery 10 "e1" "claim" 8 "{}" 1 subscribed).1).1

-- The first event is accepted, any other refused.
abbrev send : Delivery → Option Subscription → Sent
send delivery subscription =
    if delivery.occurred_at == 8 then answered 204 "" "v1" else broken "timeout"

abbrev cycle : ℕ → WebhookStore → Counts × WebhookStore
cycle now s = dispatch_due_agent_webhook_deliveries now send (some 2) none s

-- What the tests run.
webhooks : Unit {0}
unfolding enqueue_agent_webhook_delivery read_due_agent_webhook_deliveries trim_response_body
    compute_agent_webhook_retry_delay_ms settle_sent dispatch_delivery dispatch_all
    dispatch_due_agent_webhook_deliveries decimal
webhooks = tt

-- The first cycle delivers one and puts the other off; nothing is due before its time; the next attempt is the last.
cycles :
    ((cycle 10 enqueued).0 ≡ record { attempted = 2; delivered = 1; failed = 0; retrying = 1 })
    × ((cycle 15009 (cycle 10 enqueued).1).0
        ≡ record { attempted = 0; delivered = 0; failed = 0; retrying = 0 })
    × ((cycle 15010 (cycle 10 enqueued).1).0
        ≡ record { attempted = 1; delivered = 0; failed = 1; retrying = 0 })
unfolding webhooks
cycles = (refl, refl, refl)

abbrev cycled_Reach : Reach (some 2) subscribed (cycle 10 enqueued).1
cycled_Reach =
    next (next (next here (enqueues 10 "e1" "claim" 8 "{}" 1)) (enqueues 10 "e2" "claim" 9 "{}" 1))
      (dispatches 10 send none)

Reach-IsBounded_example : IsBounded 2 (cycle 10 enqueued).1.deliveries
Reach-IsBounded_example = Reach-IsBounded (some 2) cycled_Reach tt

cycle_settles_example :
    ((cycle 10 enqueued).0.attempted ≡ length (read_due_agent_webhook_deliveries 10 none enqueued))
    × ((cycle 10 enqueued).0.attempted
        ≡ (cycle 10 enqueued).0.delivered
          + (cycle 10 enqueued).0.failed
          + (cycle 10 enqueued).0.retrying)
    × (length (read_due_agent_webhook_deliveries 10 none enqueued) ≤ 100)
    × All
        (λ row. IsSettled 10 row.0 (cycle 10 enqueued).1.deliveries)
        (read_due_agent_webhook_deliveries 10 none enqueued)
cycle_settles_example = cycle_settles 10 send (some 2) none enqueued
