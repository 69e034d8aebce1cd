-- ===== src/RateLimit/Window.antt =====
-- How many requests a window of src/api/rate-limit.ts lets through.
use scientific_protocol.Common.{
  ℕ, suc, ◌+◌, ◌≤◌, ◌<◌, max, Bool, true, false, not, some, List, [], ◌∷◌, String, str_eq, length,
  filter, ltb, leb, or_else, if◌then◌else◌, arith, ◌≡◌, refl, sym, ap, subst, ◌∙◌, All, inl, inr,
  Bool-cases, if-elim, eq_iff, eq_refl,
}
use scientific_protocol.RateLimit.{
  RateLimitRecord, ApiRateLimitRule, Buckets, Request, lookup, store, purge, current_record, is_off,
  consume_rate_limit, allowed_requests,
}

lookup-filter :
    (p : String × RateLimitRecord → Bool) (key : String) {r : RateLimitRecord} (buckets : Buckets)
    → lookup key buckets ≡ some r
    → ((k : String) → p (k, r) ≡ true)
    → lookup key (filter p buckets) ≡ some r
lookup-filter p key [] e h = e
lookup-filter p key {r} ((k, r') ∷ rest) e h = elim (Bool-cases (str_eq k key)) [
  | inl q ↦
      let same = ap (λ o. or_else o r') (rw q at e) in
      rw (subst (λ x. p (k, x) ≡ true) (sym same) (h k), q) (ap some same)
  | inr q ↦ elim (Bool-cases (p (k, r'))) [
    | inl w ↦ rw (w, q) (lookup-filter p key rest (rw q at e) h)
    | inr w ↦ rw w (lookup-filter p key rest (rw q at e) h)
  ]
]

lookup-store_same :
    (key : String) (r : RateLimitRecord) (buckets : Buckets)
    → lookup key (store key r buckets) ≡ some r
lookup-store_same key r [] = rw (eq_refl key) refl
lookup-store_same key r ((k, old) ∷ rest) = elim (Bool-cases (str_eq k key)) [
  | inl e ↦ rw (e, e) refl
  | inr e ↦ rw (e, e) (lookup-store_same key r rest)
]

lookup-store_other :
    (key other : String) (r : RateLimitRecord) (buckets : Buckets)
    → str_eq other key ≡ false
    → lookup key (store other r buckets) ≡ lookup key buckets
lookup-store_other key other r [] h = rw h refl
lookup-store_other key other r ((k, old) ∷ rest) h = elim (Bool-cases (str_eq k other)) [
  | inl q ↦
      let apart = subst (λ x. str_eq x key ≡ false) (sym ((eq_iff k other).0 q)) h in
      rw (q, apart) refl
  | inr q ↦ elim (Bool-cases (str_eq k key)) [
    | inl w ↦ rw (q, w) refl
    | inr w ↦ rw (q, w) (lookup-store_other key other r rest h)
  ]
]

-- A record that has not run out stays where it is.
lookup-purge :
    (now : ℕ) (key : String) {r : RateLimitRecord} (buckets : Buckets)
    → now < r.reset_at
    → lookup key buckets ≡ some r
    → lookup key (purge now buckets) ≡ some r
lookup-purge now key {r} buckets live e =
    if-elim (λ b. lookup key b ≡ some r) (leb 256 (length buckets))
      (λ h.
        lookup-filter (λ entry. not (leb entry.1.reset_at now)) key buckets e
          (λ k. ground (arith, live)))
      (λ h. e)

current_live :
    (now : ℕ) (rule : ApiRateLimitRule) (r : RateLimitRecord)
    → now < r.reset_at
    → current_record now rule (some r) ≡ r
current_live now rule r live = rw (not_over r.reset_at now live) refl
  where
    not_over : (a b : ℕ) → b < a → leb a b ≡ false
    not_over a b h = ground (arith, h)

-- A request of the key in its window is counted, and let through exactly when the count stays within the rule.
consume_same :
    (now : ℕ) (key : String) (rule : ApiRateLimitRule) {r : RateLimitRecord} (buckets : Buckets)
    → is_off rule ≡ false
    → now < r.reset_at
    → lookup key buckets ≡ some r
    → ((consume_rate_limit now key rule buckets).0.allowed
        ≡ not (ltb rule.max_requests (suc r.count)))
      × (lookup key (consume_rate_limit now key rule buckets).1
          ≡ some (record r { count = suc r.count }))
unfolding consume_rate_limit
consume_same now key rule {r} buckets on live e =
    rw (consume_rate_limit, on, lookup-purge now key buckets live e, current_live now rule r live)
      (refl, lookup-store_same key (record r { count = suc r.count }) (purge now buckets))

consume_other :
    (now : ℕ) (key other : String) (rule : ApiRateLimitRule) {r : RateLimitRecord}
    (buckets : Buckets)
    → str_eq other key ≡ false
    → now < r.reset_at
    → lookup key buckets ≡ some r
    → lookup key (consume_rate_limit now other rule buckets).1 ≡ some r
unfolding consume_rate_limit
consume_other now key other rule {r} buckets apart live e = elim (Bool-cases (is_off rule)) [
  | inl off ↦ rw (consume_rate_limit, off) e
  | inr on ↦
      rw (consume_rate_limit, on)
        (lookup-store_other key other _ (purge now buckets) apart
          ∙ lookup-purge now key buckets live e)
]

counted_in :
    (most count later : ℕ) (allowed : Bool)
    → allowed ≡ not (ltb most (suc count))
    → later + suc count ≤ max most (suc count)
    → (if allowed then suc later else later) + count ≤ max most count
counted_in most count later allowed e h = ground (arith, e, h)

-- The requests of a key, among requests of any keys, that are let through before the record of the key runs out are,
-- with those that the record has counted, at most the number of the rule, or that count where it is larger.
pub window_bound :
    (rule : ApiRateLimitRule) (key : String) (r : RateLimitRecord) (requests : List Request)
    (buckets : Buckets)
    → is_off rule ≡ false
    → lookup key buckets ≡ some r
    → All (λ request. request.0 < r.reset_at) requests
    → allowed_requests rule key requests buckets + r.count ≤ max rule.max_requests r.count
unfolding allowed_requests
window_bound rule key r [] buckets on e live = omega arith
window_bound rule key r (request ∷ rest) buckets on e live =
    elim (Bool-cases (str_eq request.1 key)) [
      | inr apart ↦ rw apart (
          window_bound rule key r rest (consume_rate_limit request.0 request.1 rule buckets).1 on
            (consume_other request.0 key request.1 rule buckets apart live.0 e) live.1)
      | inl same ↦
          let counted =
            subst
              (λ k.
                ((consume_rate_limit request.0 k rule buckets).0.allowed
                  ≡ not (ltb rule.max_requests (suc r.count)))
                × (lookup key (consume_rate_limit request.0 k rule buckets).1
                    ≡ some (record r { count = suc r.count })))
              (sym ((eq_iff request.1 key).0 same))
              (consume_same request.0 key rule buckets on live.0 e) in
          rw same (
            counted_in rule.max_requests r.count _ _ counted.0 (
              window_bound rule key (record r { count = suc r.count }) rest
                (consume_rate_limit request.0 request.1 rule buckets).1 on counted.1 live.1))
    ]
