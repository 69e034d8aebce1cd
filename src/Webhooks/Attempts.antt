-- ===== src/Webhooks/Attempts.antt =====
-- The attempts of the deliveries of src/agents/webhooks.ts.
use Prim.Native.String.{◌++◌ as ◌<>◌}
use scientific_protocol.Review.Evaluation.Parts.{decimal}
use scientific_protocol.Common.{
  if◌then◌else◌, ℕ, zero, suc, ◌+◌, ◌≤◌, ◌<◌, arith, true, ◌&&◌, ◌==◌, ◌≡◌, inl, inr, Bool-cases,
  Option-cases, Option, none, some, [], ◌∷◌, take, String, str_eq, All, leb, if-elim,
}
use scientific_protocol.Table.{Table, get, update, least_key}
use scientific_protocol.Webhooks.{
  Subscription, Delivery, WebhookStore, compute_agent_webhook_retry_delay_ms, is_waiting, is_active,
  is_due, due_rows, insert_delivery, is_earlier, sort_deliveries, due_limit,
  read_due_agent_webhook_deliveries, delivered_row, retrying_row, failed_row, trim_response_body,
  enqueue_agent_webhook_delivery,
}
use scientific_protocol.Webhooks.Dispatch.{
  Sent, answered, broken, Counts, max_attempts_of, is_success, retry_or_fail, settle_sent,
  dispatch_delivery, dispatch_all, dispatch_due_agent_webhook_deliveries,
}

-- No delivery has more attempts than the most, and one that waits has fewer.
abbrev pub IsBoundedRow : ℕ → ℕ × Delivery → Type 0
IsBoundedRow most (k, d) = d.attempts + (if is_waiting d then 1 else 0) ≤ most

abbrev pub IsBounded : ℕ → Table Delivery → Type 0
IsBounded most = All (IsBoundedRow most)

pub All-update :
    (P : ℕ × Delivery → Type 0) (k : ℕ) (f : Delivery → Delivery) (rows : Table Delivery)
    → ((j : ℕ) (d : Delivery) → P (j, d) → P (j, f d))
    → All P rows
    → All P (update k f rows)
All-update P k f [] h v = tt
All-update P k f ((j, d) ∷ rows) h (a, b) =
    (if-elim (λ x. P (j, x)) (j == k) (λ e. h j d a) (λ e. a), All-update P k f rows h b)

pub All-take :
    (P : ℕ × Delivery → Type 0) (n : ℕ) (rows : Table Delivery) → All P rows → All P (take n rows)
All-take P zero rows h = tt
All-take P (suc n) [] h = tt
All-take P (suc n) (d ∷ rows) (a, b) = (a, All-take P n rows b)

All-insert :
    (P : ℕ × Delivery → Type 0) (d : ℕ × Delivery) (rows : Table Delivery)
    → P d
    → All P rows
    → All P (insert_delivery d rows)
All-insert P d [] h v = (h, tt)
All-insert P d (e ∷ rest) h (a, b) =
    if-elim (All P) (is_earlier e d) (λ x. (a, All-insert P d rest h b)) (λ x. (h, (a, b)))

pub All-sort :
    (P : ℕ × Delivery → Type 0) (rows : Table Delivery) → All P rows → All P (sort_deliveries rows)
All-sort P [] h = tt
All-sort P (d ∷ rows) (a, b) = All-insert P d (sort_deliveries rows) a (All-sort P rows b)

All-due :
    (P Q : ℕ × Delivery → Type 0) (now : ℕ) (subs : Table Subscription) (rows : Table Delivery)
    → ((j : ℕ) (d : Delivery) → P (j, d) → is_due now subs d ≡ true → Q (j, d))
    → All P rows
    → All Q (due_rows now subs rows)
All-due P Q now subs [] f h = tt
All-due P Q now subs ((j, d) ∷ rows) f (a, b) =
    if-elim (All Q) (is_due now subs d) (λ e. (f j d a e, All-due P Q now subs rows f b))
      (λ e. All-due P Q now subs rows f b)

-- A delivery that is due has an attempt left.
abbrev HasLeft : ℕ → ℕ × Delivery → Type 0
HasLeft most (k, d) = d.attempts < most

due-HasLeft :
    (most now : ℕ) (limit : Option ℕ) (s : WebhookStore)
    → IsBounded most s.deliveries
    → All (HasLeft most) (read_due_agent_webhook_deliveries now limit s)
unfolding read_due_agent_webhook_deliveries
due-HasLeft most now limit s v = All-take _ (due_limit limit) _ (
    All-sort _ _ (
      All-due (IsBoundedRow most) (HasLeft most) now s.subscriptions s.deliveries
        (λ j d h e. ground (arith, h, e)) v))

-- What holds of the tables after each of the ways in which a round may end, holds after it.
pub round_rule :
    (P : Table Delivery → Type 0) (now most k : ℕ) (d : Delivery)
    (send : Delivery → Option Subscription → Sent) (s : WebhookStore)
    → ((body : Option String) (status : Option ℕ) (signature : String)
        → P (update k (delivered_row now (d.attempts + 1) body status signature) s.deliveries))
    → ((body : Option String) (status : Option ℕ) (signature : Option String)
        → P (update k (failed_row now (d.attempts + 1) body status signature) s.deliveries))
    → ((body : Option String) (status : Option ℕ) (signature : Option String)
        → d.attempts + 1 < most
        → P (
            update k
              (retrying_row now
                (d.attempts + 1)
                (now + compute_agent_webhook_retry_delay_ms (d.attempts + 1))
                body
                status
                signature)
              s.deliveries))
    → P (dispatch_delivery now most k d send s).1.deliveries
unfolding dispatch_delivery settle_sent
round_rule P now most k d send s good bad again =
    elim (Bool-cases (is_active (get d.subscription_id s.subscriptions))) [
      | inr e ↦ rw (dispatch_delivery, e) (bad (some "subscription_inactive") none none)
      | inl e ↦ rw (dispatch_delivery, e) (settled (send d (get d.subscription_id s.subscriptions)))
    ]
  where
    retried :
        (body : Option String) (status : Option ℕ) (signature : Option String) (reason : String)
        (j : ℕ)
        → P (retry_or_fail now most k d body status signature reason j s).1.deliveries
    retried body status signature reason j = elim (Bool-cases (leb most (d.attempts + 1))) [
      | inl e ↦ rw e (bad body status signature)
      | inr e ↦ rw e (again body status signature (ground (arith, e)))
    ]

    settled : (sent : Sent) → P (settle_sent now most k d sent s).1.deliveries
    settled (broken error) =
        retried (some error) none none "delivery_failed:network" d.subscription_id
    settled (answered status body signature) = elim (Bool-cases (is_success status)) [
      | inl e ↦ rw (settle_sent, e) (good (trim_response_body (some body)) (some status) signature)
      | inr e ↦
          rw (settle_sent, e)
            (retried (trim_response_body (some body)) (some status) (some signature)
              ("delivery_failed:" <> decimal status) d.subscription_id)
    ]

round-IsBounded :
    (now most k : ℕ) (d : Delivery) (send : Delivery → Option Subscription → Sent)
    (s : WebhookStore)
    → d.attempts < most
    → IsBounded most s.deliveries
    → IsBounded most (dispatch_delivery now most k d send s).1.deliveries
round-IsBounded now most k d send s left v =
    round_rule (IsBounded most) now most k d send s
      (λ body status signature. All-update _ k _ s.deliveries (λ j e h. omega (arith, left)) v)
      (λ body status signature. All-update _ k _ s.deliveries (λ j e h. omega (arith, left)) v)
      (λ body status signature more. All-update _ k _ s.deliveries (λ j e h. omega (arith, more)) v)

dispatch_all-IsBounded :
    (now most : ℕ) (send : Delivery → Option Subscription → Sent) (due : Table Delivery)
    (counts : Counts) (s : WebhookStore)
    → All (HasLeft most) due
    → IsBounded most s.deliveries
    → IsBounded most (dispatch_all now most send due counts s).1.deliveries
unfolding dispatch_all
dispatch_all-IsBounded now most send [] counts s h v = v
dispatch_all-IsBounded now most send ((k, d) ∷ due) counts s (a, b) v =
    dispatch_all-IsBounded now most send due _ (dispatch_delivery now most k d send s).1 b
      (round-IsBounded now most k d send s a v)

enqueue-IsBounded :
    (most now : ℕ) (event_id event_type : String) (occurred_at : ℕ) (payload : String)
    (subscription_id : ℕ) (s : WebhookStore)
    → 1 ≤ most
    → IsBounded most s.deliveries
    → IsBounded most
        (enqueue_agent_webhook_delivery now event_id event_type occurred_at payload subscription_id
          s).1.deliveries
unfolding enqueue_agent_webhook_delivery
enqueue-IsBounded most now event_id event_type occurred_at payload subscription_id s h v =
    elim (Option-cases (
      least_key
        (λ delivery.
          delivery.subscription_id == subscription_id && str_eq delivery.event_id event_id)
        s.deliveries)) [
          | inr (k, e) ↦
              rw (enqueue_agent_webhook_delivery, e) (All-update _ k _ s.deliveries (λ j d x. x) v)
          | inl e ↦ rw (enqueue_agent_webhook_delivery, e) (h, v)
        ]

-- The calls: deliveries are enqueued, and cycles run, all with the same most attempts.
pub data Step (max_attempts : Option ℕ) : WebhookStore → WebhookStore → Type 0 where
  enqueues :
      {s : WebhookStore} (now : ℕ) (event_id event_type : String) (occurred_at : ℕ)
      (payload : String) (subscription_id : ℕ)
      → Step max_attempts s
          (enqueue_agent_webhook_delivery now event_id event_type occurred_at payload
            subscription_id s).1
  dispatches :
      {s : WebhookStore} (now : ℕ) (send : Delivery → Option Subscription → Sent) (limit : Option ℕ)
      → Step max_attempts s (dispatch_due_agent_webhook_deliveries now send max_attempts limit s).1

pub data Reach (max_attempts : Option ℕ) (s : WebhookStore) : WebhookStore → Type 0 where
  here : Reach max_attempts s s
  next :
      {t u : WebhookStore} → Reach max_attempts s t → Step max_attempts t u → Reach max_attempts s u

Step-IsBounded :
    (max_attempts : Option ℕ) {s t : WebhookStore}
    → Step max_attempts s t
    → IsBounded (max_attempts_of max_attempts) s.deliveries
    → IsBounded (max_attempts_of max_attempts) t.deliveries
unfolding dispatch_due_agent_webhook_deliveries
Step-IsBounded max_attempts
      (enqueues {s} now event_id event_type occurred_at payload subscription_id) v =
    enqueue-IsBounded (max_attempts_of max_attempts) now event_id event_type occurred_at payload
      subscription_id s (omega arith) v
Step-IsBounded max_attempts (dispatches {s} now send limit) v =
    dispatch_all-IsBounded now (max_attempts_of max_attempts) send _ _ s
      (due-HasLeft (max_attempts_of max_attempts) now limit s v) v

-- In every history of enqueued deliveries and dispatch cycles with the same setting, whatever the targets answer, no
-- delivery has more attempts than the setting allows, and one that still waits has fewer.
pub Reach-IsBounded :
    (max_attempts : Option ℕ) {s t : WebhookStore}
    → Reach max_attempts s t
    → IsBounded (max_attempts_of max_attempts) s.deliveries
    → IsBounded (max_attempts_of max_attempts) t.deliveries
Reach-IsBounded max_attempts here v = v
Reach-IsBounded max_attempts (next r st) v =
    Step-IsBounded max_attempts st (Reach-IsBounded max_attempts r v)
