-- ===== src/Webhooks.antt =====
-- The webhook subscriptions and deliveries of src/agents/webhooks.ts. Keys are numbers; `now` is NOW() and the clock of
-- the process, in milliseconds, which stands still during a call.
mod Rows
pub mod Dispatch
mod Attempts
mod Settled
mod Tests
use Prim.Native.String.{◌++◌ as ◌<>◌}
use scientific_protocol.Common.{
  ℕ, zero, suc, ◌+◌, ◌*◌, ◌-◌, ◌≤◌, min, max, Bool, true, false, not, ◌||◌, ◌&&◌, ◌==◌, Option,
  none, some, List, [], ◌∷◌, take, String, str_eq, or_else, ltb, leb, slice, units, if◌then◌else◌,
}
use scientific_protocol.Table.{Table, get, update, least_key}
use Rows.{SubscriptionStatus, DeliveryStatus, Subscription, Delivery, WebhookStore}
pub use Rows.*

-- `body.length` counts UTF-16 units, as `slice` does.
unfoldable pub trim_response_body : Option String → Option String
trim_response_body none = none
trim_response_body (some body) =
    some (if leb (units body) 4096 then body else slice 4096 body <> "…")

abbrev pub power_of_two : ℕ → ℕ
power_of_two zero = 1
power_of_two (suc n) = 2 * power_of_two n

unfoldable pub compute_agent_webhook_retry_delay_ms : ℕ → ℕ
compute_agent_webhook_retry_delay_ms attempts =
    min (60000 * 60) (15000 * power_of_two (max 1 attempts - 1))

abbrev pub new_delivery :
    ℕ
    → (event_id event_type : String) (occurred_at : ℕ) (payload : String) (subscription_id : ℕ)
    → Delivery
new_delivery now event_id event_type occurred_at payload subscription_id = record {
  attempts = 0;
  created_at = now;
  delivered_at = none;
  event_id = event_id;
  event_type = event_type;
  last_attempted_at = none;
  next_attempt_at = now;
  occurred_at = occurred_at;
  payload = payload;
  response_body = none;
  response_status = none;
  signature = none;
  status = DeliveryStatus.pending;
  subscription_id = subscription_id;
  updated_at = now;
}

abbrev pub touch_delivery : ℕ → Delivery → Delivery
touch_delivery now delivery = record delivery { updated_at = now }

-- An event that is enqueued already for the subscription keeps its delivery.
unfoldable pub enqueue_agent_webhook_delivery :
    ℕ
    → (event_id event_type : String) (occurred_at : ℕ) (payload : String) (subscription_id : ℕ)
    → WebhookStore
    → ℕ × WebhookStore
enqueue_agent_webhook_delivery now event_id event_type occurred_at payload subscription_id s =
    elim (least_key
      (λ delivery. delivery.subscription_id == subscription_id && str_eq delivery.event_id event_id)
      s.deliveries) [
        | some delivery_id ↦ (
          delivery_id,
          record s { deliveries = update delivery_id (touch_delivery now) s.deliveries },
        )
        | none ↦ (
          s.next_delivery,
          record s {
            deliveries =
                (
                  s.next_delivery,
                  new_delivery now event_id event_type occurred_at payload subscription_id,
                )
                ∷ s.deliveries;
            next_delivery = suc s.next_delivery;
          },
        )
      ]

abbrev pub is_waiting : Delivery → Bool
is_waiting delivery = elim delivery.status [
  | DeliveryStatus.pending ↦ true
  | DeliveryStatus.retrying ↦ true
  | _ ↦ false
]

abbrev pub is_active : Option Subscription → Bool
is_active none = false
is_active (some subscription) = elim subscription.status [
  | SubscriptionStatus.active ↦ true
  | SubscriptionStatus.inactive ↦ false
]

-- The WHERE of the due deliveries.
abbrev pub is_due : ℕ → Table Subscription → Delivery → Bool
is_due now subscriptions delivery =
    is_waiting delivery
    && leb delivery.next_attempt_at now
    && is_active (get delivery.subscription_id subscriptions)

abbrev pub due_rows : ℕ → Table Subscription → Table Delivery → Table Delivery
due_rows now subscriptions [] = []
due_rows now subscriptions ((delivery_id, delivery) ∷ rows) =
    let rest = due_rows now subscriptions rows in
    if is_due now subscriptions delivery then (delivery_id, delivery) ∷ rest else rest

abbrev pub is_earlier : ℕ × Delivery → ℕ × Delivery → Bool
is_earlier (i, left) (j, right) =
    ltb left.next_attempt_at right.next_attempt_at
    || (left.next_attempt_at == right.next_attempt_at && ltb i j)

abbrev pub insert_delivery : ℕ × Delivery → Table Delivery → Table Delivery
insert_delivery d [] = d ∷ []
insert_delivery d (e ∷ rest) =
    let later = insert_delivery d rest in if is_earlier e d then e ∷ later else d ∷ e ∷ rest

abbrev pub sort_deliveries : Table Delivery → Table Delivery
sort_deliveries [] = []
sort_deliveries (d ∷ rest) = insert_delivery d (sort_deliveries rest)

-- `Math.max(1, Math.min(options.limit ?? 20, 100))`
abbrev pub due_limit : Option ℕ → ℕ
due_limit limit = max 1 (min (or_else limit 20) 100)

unfoldable pub read_due_agent_webhook_deliveries : ℕ → Option ℕ → WebhookStore → Table Delivery
read_due_agent_webhook_deliveries now limit s =
    take (due_limit limit) (sort_deliveries (due_rows now s.subscriptions s.deliveries))

abbrev pub or_kept : Option String → Option String → Option String
or_kept none kept = kept
or_kept (some text) kept = some text

abbrev pub delivered_row :
    ℕ
    → (attempts : ℕ) (body : Option String) (status : Option ℕ) (signature : String) → Delivery
    → Delivery
delivered_row now attempts body status signature delivery = record delivery {
  attempts = attempts;
  status = DeliveryStatus.delivered;
  last_attempted_at = some now;
  delivered_at = some now;
  response_status = status;
  response_body = trim_response_body body;
  signature = some signature;
  updated_at = now;
}

abbrev pub retrying_row :
    ℕ
    → (attempts next_attempt_at : ℕ) (body : Option String) (status : Option ℕ)
      (signature : Option String)
    → Delivery
    → Delivery
retrying_row now attempts next_attempt_at body status signature delivery = record delivery {
  attempts = attempts;
  status = DeliveryStatus.retrying;
  next_attempt_at = next_attempt_at;
  last_attempted_at = some now;
  response_status = status;
  response_body = trim_response_body body;
  signature = or_kept signature delivery.signature;
  updated_at = now;
}

abbrev pub failed_row :
    ℕ
    → (attempts : ℕ) (body : Option String) (status : Option ℕ) (signature : Option String)
    → Delivery
    → Delivery
failed_row now attempts body status signature delivery = record delivery {
  attempts = attempts;
  status = DeliveryStatus.failed;
  last_attempted_at = some now;
  response_status = status;
  response_body = trim_response_body body;
  signature = or_kept signature delivery.signature;
  updated_at = now;
}

-- The three `markAgentWebhookDelivery…` are this UPDATE with the rows above.
abbrev pub mark_delivery : ℕ → (Delivery → Delivery) → WebhookStore → WebhookStore
mark_delivery delivery_id f s = record s { deliveries = update delivery_id f s.deliveries }

abbrev pub note_agent_webhook_subscription_delivery :
    ℕ
    → (failure_reason : Option String) (last_delivery_at : Option ℕ) (subscription_id : ℕ)
    → WebhookStore
    → WebhookStore
note_agent_webhook_subscription_delivery now failure_reason last_delivery_at subscription_id s =
    record s {
      subscriptions =
          update subscription_id
            (λ subscription. record subscription {
              last_delivery_at = elim last_delivery_at [
                | none ↦ subscription.last_delivery_at
                | some at ↦ some at
              ];
              failure_reason = failure_reason;
              updated_at = now;
            })
            s.subscriptions;
    }
