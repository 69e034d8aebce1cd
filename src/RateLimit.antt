-- ===== src/RateLimit.antt =====
-- The request limits of src/api/rate-limit.ts. `Date.now()` is an argument, the key of a bucket is the text that the
-- source builds from scope and client, and the `Map` is a list of pairs with one entry for a key.
use scientific_protocol.Common.{
  ℕ, suc, ◌+◌, ◌-◌, ◌/◌, max, Bool, true, false, ◌||◌, not, Option, none, some, List, [], ◌∷◌,
  String, str_eq, length, filter, ltb, leb, ◌==◌, if◌then◌else◌,
}
mod Window
mod Tests

pub record RateLimitRecord : Type 0 where
  pub count : ℕ
  pub reset_at : ℕ

-- A rule with a number below 0 acts as one with 0.
pub record ApiRateLimitRule : Type 0 where
  pub max_requests : ℕ
  pub window_ms : ℕ

abbrev pub Buckets : Type 0
Buckets = List (String × RateLimitRecord)

pub record Headers : Type 0 where
  pub limit : ℕ
  pub remaining : ℕ
  pub reset : ℕ
  pub retry_after : Option ℕ

pub record Decision : Type 0 where
  pub allowed : Bool
  pub retry_after_seconds : ℕ
  pub headers : Option Headers

abbrev pub lookup : String → Buckets → Option RateLimitRecord
lookup key [] = none
lookup key ((k, r) ∷ rest) = if str_eq k key then some r else lookup key rest

abbrev pub store : String → RateLimitRecord → Buckets → Buckets
store key r [] = (key, r) ∷ []
store key r ((k, old) ∷ rest) = if str_eq k key then (k, r) ∷ rest else (k, old) ∷ store key r rest

-- The records that have run out are dropped when there are 256 keys.
abbrev pub purge : ℕ → Buckets → Buckets
purge now buckets =
    if leb 256 (length buckets)
    then filter (λ entry. not (leb entry.1.reset_at now)) buckets
    else buckets

abbrev pub current_record : ℕ → ApiRateLimitRule → Option RateLimitRecord → RateLimitRecord
current_record now rule none = record { count = 0; reset_at = now + rule.window_ms }
current_record now rule (some existing) =
    if leb existing.reset_at now
    then record { count = 0; reset_at = now + rule.window_ms }
    else existing

-- `Math.ceil(n / 1000)`
abbrev pub seconds : ℕ → ℕ
seconds n = (n + 999) / 1000

abbrev pub is_off : ApiRateLimitRule → Bool
is_off rule = rule.max_requests == 0 || rule.window_ms == 0

unfoldable pub consume_rate_limit :
    (now : ℕ) (bucket_key : String) → ApiRateLimitRule → Buckets → Decision × Buckets
consume_rate_limit now bucket_key rule buckets =
    if is_off rule
    then (record { allowed = true; retry_after_seconds = 0; headers = none }, buckets)
    else (let kept = purge now buckets in
        let old = current_record now rule (lookup bucket_key kept) in
        let current = record old { count = suc old.count } in
        let retry = max 1 (seconds (current.reset_at - now)) in
        let over = ltb rule.max_requests current.count in
        (
          record {
            allowed = not over;
            retry_after_seconds = retry;
            headers = some (record {
              limit = rule.max_requests;
              remaining = rule.max_requests - current.count;
              reset = seconds current.reset_at;
              retry_after = if over then some retry else none;
            });
          },
          store bucket_key current kept,
        ))

-- A run of requests, each with its time and key.
abbrev pub Request : Type 0
Request = ℕ × String

-- How many of the requests of a key are let through.
unfoldable pub allowed_requests : ApiRateLimitRule → String → List Request → Buckets → ℕ
allowed_requests rule key [] buckets = 0
allowed_requests rule key (request ∷ rest) buckets =
    let (decision, buckets') = consume_rate_limit request.0 request.1 rule buckets in
    let later = allowed_requests rule key rest buckets' in
    if str_eq request.1 key then (if decision.allowed then suc later else later) else later
