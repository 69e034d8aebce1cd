-- ===== src/Rewards/Division.antt =====
-- What the division of a pool in src/rewards/policy.ts keeps to.
use native.Mathlib.Nat.{add-mul, mul-add, div-mul-le_self, lt-div-mul-add, le_of_mul-le-mul_right}
use scientific_protocol.Common.{
  ℕ, suc, ◌+◌, ◌*◌, ◌/◌, ◌≤◌, ◌<◌, true, false, ◌||◌, Option, List, [], ◌∷◌, ◌==◌, if◌then◌else◌,
  arith, if-elim, ◌≡◌, refl, sym, ap, length, subst, ◌∙◌,
}
use scientific_protocol.Rewards.Policy.{
  WorkKind, RewardTargetCandidate, RewardTargetAllocation, derive_reward_targets_for_group,
  distributable_pool_wei, raw_target, sum_of, allocate, is_none_left, clamp_integer,
  market_pressure, market_pressure_bps, policy_config, attention_pressure, bps_scale,
}

not_zero : (n : ℕ) → (n == 0) ≡ false → 0 < n
not_zero n h = ground (arith, h)

clamp-in :
    (value low high : ℕ)
    → low ≤ high
    → (low ≤ clamp_integer value low high) × (clamp_integer value low high ≤ high)
clamp-in value low high h = ground (arith, h)

regrouped : (a s n : ℕ) → a + s + suc n ≡ a + 1 + (s + n)
regrouped a s n = omega arith

regroup : (a s n t : ℕ) → (a + s + suc n) * t ≡ a * t + t + (s + n) * t
regroup a s n t =
    omega (arith, ap (λ k. k * t) (regrouped a s n), add-mul (a + 1) (s + n) t, add-mul a 1 t)

module _ {ℓ} {A : Type ℓ} (f : A → ℕ) (d total : ℕ) where
  shares_at_most : (xs : List A) → sum_of (λ x. d * f x / total) xs * total ≤ d * sum_of f xs
  shares_at_most [] = omega arith
  shares_at_most (x ∷ xs) = omega (
    arith,
    add-mul (d * f x / total) (sum_of (λ x. d * f x / total) xs) total,
    mul-add d (f x) (sum_of f xs),
    div-mul-le_self (d * f x) total,
    shares_at_most xs,
  )

  -- Rounding loses less than one wei for each share.
  shares_at_least :
      0 < total
      → (xs : List A) → d * sum_of f xs ≤ (sum_of (λ x. d * f x / total) xs + length xs) * total
  shares_at_least p [] = omega arith
  shares_at_least p (x ∷ xs) =
      let share = d * f x / total in
      let rest = sum_of (λ x. d * f x / total) xs in
      omega (
        arith,
        regroup share rest (length xs) total,
        mul-add d (f x) (sum_of f xs),
        lt-div-mul-add {a = d * f x} {b = total} p,
        shares_at_least p xs,
      )

sum-allocate :
    (target : RewardTargetCandidate → ℕ) (candidates : List RewardTargetCandidate)
    → sum_of (λ a. a.target_total_wei) (allocate target candidates) ≡ sum_of target candidates
sum-allocate target [] = refl
sum-allocate target (c ∷ cs) = ap (λ n. target c + n) (sum-allocate target cs)

sum_zero : {A : Type 0} (xs : List A) → sum_of (λ x. 0) xs ≡ 0
sum_zero [] = refl
sum_zero (x ∷ xs) = omega (arith, sum_zero xs)

module _ (kind : WorkKind) (attention : Option ℕ) (pool : ℕ) where
  distributable_le : distributable_pool_wei kind attention pool ≤ pool
  unfolding distributable_pool_wei
  distributable_le = (clamp-in _ 0 pool (omega arith)).1

empty_pool :
    {A : Type 0} (raw : A → ℕ) (d : ℕ) (xs : List A)
    → (d == 0 || is_none_left xs) ≡ true
    → 0 < sum_of raw xs
    → d ≡ 0
empty_pool raw d [] e p = omega (arith, p)
empty_pool raw d (x ∷ xs) e p = ground (arith, e)

-- The choice among the three returns, for any raw targets and pool.
module _ (raw : RewardTargetCandidate → ℕ) (d : ℕ) (candidates : List RewardTargetCandidate) where
  abbrev total : ℕ
  total = sum_of raw candidates

  abbrev chosen : List RewardTargetAllocation
  chosen =
      if d == 0 || is_none_left candidates
      then allocate (λ c. 0) candidates
      else (if total == 0
          then allocate (λ c. 0) candidates
          else allocate (λ c. d * raw c / total) candidates)

  abbrev asked : List RewardTargetAllocation → ℕ
  asked = sum_of (λ a. a.target_total_wei)

  nothing_asked : asked (allocate (λ c. 0) candidates) ≡ 0
  nothing_asked = sum-allocate (λ c. 0) candidates ∙ sum_zero candidates

  divided_at_most : 0 < total → asked (allocate (λ c. d * raw c / total) candidates) ≤ d
  divided_at_most p =
      le_of_mul-le-mul_right {k = total}
        (subst (λ n. n * total ≤ d * total) (sym (sum-allocate (λ c. d * raw c / total) candidates))
          (shares_at_most raw d total candidates))
        p

  divided_at_least :
      0 < total → d ≤ asked (allocate (λ c. d * raw c / total) candidates) + length candidates
  divided_at_least p =
      le_of_mul-le-mul_right {k = total}
        (subst (λ n. d * total ≤ (n + length candidates) * total)
          (sym (sum-allocate (λ c. d * raw c / total) candidates))
          (shares_at_least raw d total p candidates))
        p

  chosen_at_most : asked chosen ≤ d
  chosen_at_most =
      if-elim (λ l. asked l ≤ d) (d == 0 || is_none_left candidates)
        (λ e. omega (arith, nothing_asked))
        λ e.
          if-elim (λ l. asked l ≤ d) (total == 0) (λ z. omega (arith, nothing_asked))
            λ z. divided_at_most (not_zero total z)

  chosen_at_least : 0 < total → d ≤ asked chosen + length candidates
  chosen_at_least p =
      if-elim (λ l. d ≤ asked l + length candidates) (d == 0 || is_none_left candidates)
        (λ e. omega (arith, empty_pool raw d candidates e p))
        λ e.
          if-elim (λ l. d ≤ asked l + length candidates) (total == 0) (λ z. ground (arith, p, z))
            λ z. divided_at_least p

-- Every allocation list that the code returns asks for at most the distributable pool, which is at most the balance of
-- the pool.
pub targets_within_pool :
    (kind : WorkKind) (attention : Option ℕ) (pool : ℕ) (candidates : List RewardTargetCandidate)
    → (sum_of
          (λ a. a.target_total_wei)
          (derive_reward_targets_for_group attention candidates pool kind).allocations
        ≤ (derive_reward_targets_for_group attention candidates pool kind).distributable_pool_wei)
      × ((derive_reward_targets_for_group attention candidates pool kind).distributable_pool_wei
          ≤ pool)
unfolding derive_reward_targets_for_group
targets_within_pool kind attention pool candidates = (
  chosen_at_most (raw_target kind attention pool) (distributable_pool_wei kind attention pool)
      candidates,
  distributable_le kind attention pool,
)

-- Where some candidate has a raw target, the allocations leave at most one wei of the distributable pool for each
-- candidate.
pub pool_spent :
    (kind : WorkKind) (attention : Option ℕ) (pool : ℕ) (candidates : List RewardTargetCandidate)
    → 0 < sum_of (raw_target kind attention pool) candidates
    → (derive_reward_targets_for_group attention candidates pool kind).distributable_pool_wei
      ≤ sum_of
          (λ a. a.target_total_wei)
          (derive_reward_targets_for_group attention candidates pool kind).allocations
        + length candidates
unfolding derive_reward_targets_for_group
pool_spent kind attention pool candidates p =
    chosen_at_least (raw_target kind attention pool) (distributable_pool_wei kind attention pool)
      candidates p

-- The market pressure is from 5000 to 25000 basis points.
pub market_pressure_in :
    (kind : WorkKind) (attention : Option ℕ) (pool : ℕ) (candidates : List RewardTargetCandidate)
    → (5000 ≤ (derive_reward_targets_for_group attention candidates pool kind).market_pressure_bps)
      × ((derive_reward_targets_for_group attention candidates pool kind).market_pressure_bps
          ≤ 25000)
unfolding derive_reward_targets_for_group market_pressure
market_pressure_in kind attention pool candidates =
    clamp-in
      (market_pressure_bps pool (policy_config kind).funding_target_wei
        * attention_pressure kind attention pool
        / bps_scale)
      5000 25000 (omega arith)
