-- ===== src/Webhooks/Rows.antt =====
-- The rows of src/agents/webhooks.ts.
use scientific_protocol.Common.{ℕ, Option, String}
use scientific_protocol.Table.{Table}

pub data SubscriptionStatus : Type 0 where
  active inactive : SubscriptionStatus

pub data DeliveryStatus : Type 0 where
  delivered failed pending retrying : DeliveryStatus

-- `agent_webhook_subscriptions`, as far as the deliveries read and write it.
pub record Subscription : Type 0 where
  pub agent_id : String
  pub failure_reason : Option String
  pub last_delivery_at : Option ℕ
  pub signing_secret : String
  pub status : SubscriptionStatus
  pub target_url : String
  pub updated_at : ℕ

-- `agent_webhook_deliveries`; the payload is the text of the JSON.
pub record Delivery : Type 0 where
  pub attempts : ℕ
  pub created_at : ℕ
  pub delivered_at : Option ℕ
  pub event_id : String
  pub event_type : String
  pub last_attempted_at : Option ℕ
  pub next_attempt_at : ℕ
  pub occurred_at : ℕ
  pub payload : String
  pub response_body : Option String
  pub response_status : Option ℕ
  pub signature : Option String
  pub status : DeliveryStatus
  pub subscription_id : ℕ
  pub updated_at : ℕ

pub record WebhookStore : Type 0 where
  pub subscriptions : Table Subscription
  pub deliveries : Table Delivery
  pub next_delivery : ℕ
