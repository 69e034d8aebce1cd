-- ===== src/Webhooks/Dispatch.antt =====
-- `dispatchDueAgentWebhookDeliveries` of src/agents/webhooks.ts. The request to the target is the parameter `send`. The
-- clock stands still during a cycle, and the database answers every statement: a statement that fails is not modelled,
-- neither inside the `try` block, where the delivery would be put off or failed as after a broken request, nor outside it,
-- where the cycle would end.
use Prim.Native.String.{◌++◌ as ◌<>◌}
use scientific_protocol.Common.{
  ℕ, suc, ◌+◌, min, max, Bool, ◌&&◌, Option, none, some, [], ◌∷◌, String, or_else, ltb, leb,
  if◌then◌else◌,
}
use scientific_protocol.Table.{Table, get}
use scientific_protocol.Review.Evaluation.Parts.{decimal}
use scientific_protocol.Webhooks.{
  Subscription, Delivery, WebhookStore, compute_agent_webhook_retry_delay_ms, is_active,
  read_due_agent_webhook_deliveries, delivered_row, retrying_row, failed_row, mark_delivery,
  note_agent_webhook_subscription_delivery, trim_response_body,
}

-- What comes of a request: an answer with its status and body, and the signature sent, or an error.
pub data Sent : Type 0 where
  answered : (response_status : ℕ) (response_body signature : String) → Sent
  broken : (error : String) → Sent

pub record Counts : Type 0 where
  pub attempted : ℕ
  pub delivered : ℕ
  pub failed : ℕ
  pub retrying : ℕ

abbrev pub no_counts : Counts
no_counts = record { attempted = 0; delivered = 0; failed = 0; retrying = 0 }

pub data Fate : Type 0 where
  as_delivered as_failed as_retrying : Fate

abbrev pub count_fate : Fate → Counts → Counts
count_fate as_delivered c = record c { attempted = suc c.attempted; delivered = suc c.delivered }
count_fate as_failed c = record c { attempted = suc c.attempted; failed = suc c.failed }
count_fate as_retrying c = record c { attempted = suc c.attempted; retrying = suc c.retrying }

-- `Math.max(1, Math.min(input.maxAttempts ?? 5, 20))`
abbrev pub max_attempts_of : Option ℕ → ℕ
max_attempts_of max_attempts = max 1 (min (or_else max_attempts 5) 20)

abbrev pub is_success : ℕ → Bool
is_success status = leb 200 status && ltb status 300

module _ (now max_attempts delivery_id : ℕ) (delivery : Delivery) where
  -- A request without success: the delivery fails for good, or waits for the next attempt.
  abbrev pub retry_or_fail :
      (body : Option String) (status : Option ℕ) (signature : Option String) (reason : String)
      (subscription_id : ℕ)
      → WebhookStore
      → Fate × WebhookStore
  retry_or_fail body status signature reason subscription_id s =
      let attempts = delivery.attempts + 1 in
      if leb max_attempts attempts
      then (
        as_failed,
        note_agent_webhook_subscription_delivery now (some reason) none subscription_id
            (mark_delivery delivery_id (failed_row now attempts body status signature) s),
      )
      else (
        as_retrying,
        mark_delivery delivery_id
            (retrying_row now attempts (now + compute_agent_webhook_retry_delay_ms attempts) body
              status signature)
            s,
      )

  unfoldable pub settle_sent : Sent → WebhookStore → Fate × WebhookStore
  unfolding decimal compute_agent_webhook_retry_delay_ms trim_response_body
  settle_sent (answered status body signature) s =
      let trimmed = trim_response_body (some body) in
      if is_success status
      then (
        as_delivered,
        note_agent_webhook_subscription_delivery now none (some now) delivery.subscription_id (
            mark_delivery delivery_id
              (delivered_row now (delivery.attempts + 1) trimmed (some status) signature) s),
      )
      else retry_or_fail trimmed (some status) (some signature)
          ("delivery_failed:" <> decimal status) delivery.subscription_id s
  settle_sent (broken error) s =
      retry_or_fail (some error) none none "delivery_failed:network" delivery.subscription_id s

  -- One round of the loop.
  unfoldable pub dispatch_delivery :
      (Delivery → Option Subscription → Sent) → WebhookStore → Fate × WebhookStore
  unfolding settle_sent
  dispatch_delivery send s =
      let subscription = get delivery.subscription_id s.subscriptions in
      if is_active subscription then settle_sent (send delivery subscription) s else (
        as_failed,
        mark_delivery delivery_id
            (failed_row now (delivery.attempts + 1) (some "subscription_inactive") none none) s,
      )

unfoldable pub dispatch_all :
    (now max_attempts : ℕ) (send : Delivery → Option Subscription → Sent)
    → Table Delivery
    → Counts
    → WebhookStore
    → Counts × WebhookStore
unfolding dispatch_delivery
dispatch_all now max_attempts send [] counts s = (counts, s)
dispatch_all now max_attempts send ((delivery_id, delivery) ∷ rest) counts s =
    let (fate, s') = dispatch_delivery now max_attempts delivery_id delivery send s in
    dispatch_all now max_attempts send rest (count_fate fate counts) s'

unfoldable pub dispatch_due_agent_webhook_deliveries :
    (now : ℕ) (send : Delivery → Option Subscription → Sent) (max_attempts limit : Option ℕ)
    → WebhookStore
    → Counts × WebhookStore
unfolding dispatch_all read_due_agent_webhook_deliveries
dispatch_due_agent_webhook_deliveries now send max_attempts limit s =
    dispatch_all now (max_attempts_of max_attempts) send
      (read_due_agent_webhook_deliveries now limit s) no_counts s
