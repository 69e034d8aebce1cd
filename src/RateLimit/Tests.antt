-- ===== src/RateLimit/Tests.antt =====
-- Runs of the request limit.
use scientific_protocol.Common.{◌+◌, ◌≤◌, List, [], ◌∷◌, ◌≡◌, refl, arith}
use scientific_protocol.RateLimit.{
  ApiRateLimitRule, Buckets, Request, consume_rate_limit, allowed_requests,
}
use scientific_protocol.RateLimit.Window.{window_bound}

abbrev two_each_minute : ApiRateLimitRule
two_each_minute = record { max_requests = 2; window_ms = 60000 }

abbrev opened : Buckets
opened = (consume_rate_limit 1000 "a" two_each_minute []).1

abbrev requests : List Request
requests = (2000, "a") ∷ (2500, "b") ∷ (3000, "a") ∷ (60999, "a") ∷ []

-- The first request used one of the two, so that one of these three is let through.
one_more : allowed_requests two_each_minute "a" requests opened ≡ 1
unfolding consume_rate_limit allowed_requests
one_more = refl

-- The window begins anew when it has run out.
next_window : allowed_requests two_each_minute "a" ((61000, "a") ∷ []) opened ≡ 1
unfolding consume_rate_limit allowed_requests
next_window = refl

window_bound_example : allowed_requests two_each_minute "a" requests opened + 1 ≤ 2
unfolding consume_rate_limit
window_bound_example =
    window_bound two_each_minute "a" (record { count = 1; reset_at = 61000 }) requests opened refl
      refl (omega arith, (omega arith, (omega arith, (omega arith, tt))))
