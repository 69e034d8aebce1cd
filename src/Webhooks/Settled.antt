-- ===== src/Webhooks/Settled.antt =====
-- What a cycle of src/agents/webhooks.ts leaves of the deliveries that were due.
use scientific_protocol.Common.{
  if◌then◌else◌, ℕ, zero, suc, ◌+◌, ◌-◌, ◌≤◌, max, arith, Bool, true, false, ◌&&◌, ◌==◌, ◌≡◌, refl,
  Option, [], ◌∷◌, length, length-take, All, leb,
}
use scientific_protocol.Table.{Table, update}
use scientific_protocol.Webhooks.{
  Subscription, Delivery, WebhookStore, is_waiting, power_of_two,
  compute_agent_webhook_retry_delay_ms, read_due_agent_webhook_deliveries, due_limit,
  sort_deliveries, due_rows,
}
use scientific_protocol.Webhooks.Dispatch.{
  Sent, Counts, Fate, as_delivered, as_failed, as_retrying, count_fate, no_counts, max_attempts_of,
  dispatch_delivery, dispatch_all, dispatch_due_agent_webhook_deliveries,
}
use scientific_protocol.Webhooks.Attempts.{All-update, round_rule}

power_of_two-pos : (n : ℕ) → 1 ≤ power_of_two n
power_of_two-pos zero = omega arith
power_of_two-pos (suc n) = omega (arith, power_of_two-pos n)

retry_delay_bounds :
    (attempts : ℕ)
    → (15000 ≤ compute_agent_webhook_retry_delay_ms attempts)
      × (compute_agent_webhook_retry_delay_ms attempts ≤ 3600000)
unfolding compute_agent_webhook_retry_delay_ms
retry_delay_bounds attempts =
    let pos = power_of_two-pos (max 1 attempts - 1) in (omega (arith, pos), omega arith)

-- The row waits for a time that has come.
abbrev pub is_overdue : ℕ → Delivery → Bool
is_overdue now d = is_waiting d && leb d.next_attempt_at now

-- No row of the key is overdue.
abbrev pub IsSettled : ℕ → ℕ → Table Delivery → Type 0
IsSettled now k = All (λ row. (row.0 == k && is_overdue now row.1) ≡ false)

settle-update :
    (now k : ℕ) (f : Delivery → Delivery) (rows : Table Delivery)
    → ((d : Delivery) → is_overdue now (f d) ≡ false)
    → IsSettled now k (update k f rows)
settle-update now k f [] h = tt
settle-update now k f ((j, d) ∷ rows) h = (settled_row (j == k), settle-update now k f rows h)
  where
    settled_row : (same : Bool) → (same && is_overdue now (if same then f d else d)) ≡ false
    settled_row true = h d
    settled_row false = refl

round-IsSettled :
    (now most k : ℕ) (d : Delivery) (send : Delivery → Option Subscription → Sent)
    (s : WebhookStore)
    → IsSettled now k (dispatch_delivery now most k d send s).1.deliveries
round-IsSettled now most k d send s =
    round_rule (IsSettled now k) now most k d send s
      (λ body status signature. settle-update now k _ s.deliveries (λ e. refl))
      (λ body status signature. settle-update now k _ s.deliveries (λ e. refl))
      (λ body status signature more.
        settle-update now k _ s.deliveries (λ e. later _ (retry_delay_bounds (d.attempts + 1)).0))
  where
    later : (delay : ℕ) → 15000 ≤ delay → (true && leb (now + delay) now) ≡ false
    later delay h = ground (arith, h)

round_keeps :
    (now most j k : ℕ) (d : Delivery) (send : Delivery → Option Subscription → Sent)
    (s : WebhookStore)
    → IsSettled now j s.deliveries
    → IsSettled now j (dispatch_delivery now most k d send s).1.deliveries
round_keeps now most j k d send s v =
    round_rule (IsSettled now j) now most k d send s
      (λ body status signature. All-update _ k _ s.deliveries (λ i e h. ground arith) v)
      (λ body status signature. All-update _ k _ s.deliveries (λ i e h. ground arith) v)
      (λ body status signature more.
        All-update _ k _ s.deliveries
          (λ i e h. later (i == j) _ (retry_delay_bounds (d.attempts + 1)).0) v)
  where
    later :
        (same : Bool) (delay : ℕ)
        → 15000 ≤ delay
        → (same && (true && leb (now + delay) now)) ≡ false
    later same delay h = ground (arith, h)

rounds_keep :
    (now most j : ℕ) (send : Delivery → Option Subscription → Sent) (due : Table Delivery)
    (counts : Counts) (s : WebhookStore)
    → IsSettled now j s.deliveries
    → IsSettled now j (dispatch_all now most send due counts s).1.deliveries
unfolding dispatch_all
rounds_keep now most j send [] counts s v = v
rounds_keep now most j send ((k, d) ∷ due) counts s v =
    rounds_keep now most j send due _ (dispatch_delivery now most k d send s).1
      (round_keeps now most j k d send s v)

rounds_settle :
    (now most : ℕ) (send : Delivery → Option Subscription → Sent) (due : Table Delivery)
    (counts : Counts) (s : WebhookStore)
    → All (λ row. IsSettled now row.0 (dispatch_all now most send due counts s).1.deliveries) due
unfolding dispatch_all
rounds_settle now most send [] counts s = tt
rounds_settle now most send ((k, d) ∷ due) counts s = (
  rounds_keep now most k send due _ (dispatch_delivery now most k d send s).1
      (round-IsSettled now most k d send s),
  rounds_settle now most send due _ (dispatch_delivery now most k d send s).1,
)

count_fate_sum :
    (fate : Fate) (c : Counts)
    → c.attempted ≡ c.delivered + c.failed + c.retrying
    → ((count_fate fate c).attempted
        ≡ (count_fate fate c).delivered + (count_fate fate c).failed + (count_fate fate c).retrying)
      × ((count_fate fate c).attempted ≡ suc c.attempted)
count_fate_sum as_delivered c h = (omega (arith, h), refl)
count_fate_sum as_failed c h = (omega (arith, h), refl)
count_fate_sum as_retrying c h = (omega (arith, h), refl)

rounds_count :
    (now most : ℕ) (send : Delivery → Option Subscription → Sent) (due : Table Delivery)
    (c : Counts) (s : WebhookStore)
    → c.attempted ≡ c.delivered + c.failed + c.retrying
    → ((dispatch_all now most send due c s).0.attempted ≡ c.attempted + length due)
      × ((dispatch_all now most send due c s).0.attempted
          ≡ (dispatch_all now most send due c s).0.delivered
            + (dispatch_all now most send due c s).0.failed
            + (dispatch_all now most send due c s).0.retrying)
unfolding dispatch_all
rounds_count now most send [] c s h = (omega arith, h)
rounds_count now most send ((k, d) ∷ due) c s h =
    let fate = (dispatch_delivery now most k d send s).0 in
    let (sum, more) = count_fate_sum fate c h in
    let (total, parts) =
      rounds_count now most send due (count_fate fate c) (dispatch_delivery now most k d send s).1
        sum in
    (omega (arith, total, more), parts)

-- A cycle attempts each delivery that it reads as due, at most a hundred, counts it as delivered, failed or retrying,
-- and leaves none of them overdue, whatever the targets answer.
pub cycle_settles :
    (now : ℕ) (send : Delivery → Option Subscription → Sent) (max_attempts limit : Option ℕ)
    (s : WebhookStore)
    → ((dispatch_due_agent_webhook_deliveries now send max_attempts limit s).0.attempted
        ≡ length (read_due_agent_webhook_deliveries now limit s))
      × ((dispatch_due_agent_webhook_deliveries now send max_attempts limit s).0.attempted
          ≡ (dispatch_due_agent_webhook_deliveries now send max_attempts limit s).0.delivered
            + (dispatch_due_agent_webhook_deliveries now send max_attempts limit s).0.failed
            + (dispatch_due_agent_webhook_deliveries now send max_attempts limit s).0.retrying)
      × (length (read_due_agent_webhook_deliveries now limit s) ≤ 100)
      × All
          (λ row.
            IsSettled now row.0
              (dispatch_due_agent_webhook_deliveries now send max_attempts limit s).1.deliveries)
          (read_due_agent_webhook_deliveries now limit s)
unfolding dispatch_due_agent_webhook_deliveries read_due_agent_webhook_deliveries
cycle_settles now send max_attempts limit s =
    let due = read_due_agent_webhook_deliveries now limit s in
    let (total, parts) =
      rounds_count now (max_attempts_of max_attempts) send due no_counts s refl in
    (
      omega (arith, total),
      parts,
      omega (
        arith,
        length-take (due_limit limit) (sort_deliveries (due_rows now s.subscriptions s.deliveries)),
      ),
      rounds_settle now (max_attempts_of max_attempts) send due no_counts s,
    )
