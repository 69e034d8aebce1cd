-- ===== src/Rewards/Order.antt =====
-- How the targets of src/rewards/policy.ts follow the quality of the work.
use native.Mathlib.Nat.{
  mul-zero, zero-div, mul-le-mul_left, mul-le-mul_right, le-div_iff_mul-le, div-mul-le_self,
}
use scientific_protocol.Common.{
  ℕ, ◌*◌, ◌/◌, ◌≤◌, ◌<◌, false, ◌||◌, Option, List, ltb, ◌==◌, if◌then◌else◌, arith, if-elim, ◌≡◌,
  refl, ap, ◌∙◌,
}
use scientific_protocol.Rewards.Policy.{
  WorkKind, RewardTargetCandidate, RewardTargetAllocation, derive_reward_targets_for_group,
  distributable_pool_wei, raw_target, sum_of, allocate, is_none_left, market_pressure,
  policy_config,
}

-- One target for each quality: the returned list gives each candidate the value of one function, which does not fall
-- when the quality rises, and which is 0 below the minimum quality of the kind.
pub record IsFair (minimum : ℕ) (candidates : List RewardTargetCandidate)
    (allocations : List RewardTargetAllocation) : Type 0 where
  pub target : RewardTargetCandidate → ℕ
  pub gives : allocations ≡ allocate target candidates
  pub rises : (a b : RewardTargetCandidate) → a.quality_bps ≤ b.quality_bps → target a ≤ target b
  pub unqualified : (a : RewardTargetCandidate) → a.quality_bps < minimum → target a ≡ 0

not_zero : (n : ℕ) → (n == 0) ≡ false → 0 < n
not_zero n h = ground (arith, h)

div_mono : (a b k : ℕ) → 0 < k → a ≤ b → a / k ≤ b / k
div_mono a b k p h = (le-div_iff_mul-le p).1 (omega (arith, div-mul-le_self a k, h))

share_mono : (d k : ℕ) {x y : ℕ} → 0 < k → x ≤ y → d * x / k ≤ d * y / k
share_mono d k p h = div_mono _ _ k p (mul-le-mul_left d h)

nothing_shared : (d k : ℕ) → d * 0 / k ≡ 0
nothing_shared d k = ap (λ n. n / k) (mul-zero d) ∙ zero-div k

test_mono :
    (a b minimum : ℕ) {x y : ℕ}
    → a ≤ b
    → x ≤ y
    → (if ltb a minimum then 0 else x) ≤ (if ltb b minimum then 0 else y)
test_mono a b minimum h k = ground (arith, h, k)

test_zero : (a minimum x : ℕ) → a < minimum → (if ltb a minimum then 0 else x) ≡ 0
test_zero a minimum x h = ground (arith, h)

module _ (kind : WorkKind) (attention : Option ℕ) (pool : ℕ) where
  raw_mono :
      (a b : RewardTargetCandidate)
      → a.quality_bps ≤ b.quality_bps
      → raw_target kind attention pool a ≤ raw_target kind attention pool b
  unfolding raw_target
  raw_mono a b h =
      test_mono a.quality_bps b.quality_bps (policy_config kind).minimum_quality_bps h (
        div_mono _ _ 100000000 (omega arith) (
          mul-le-mul_right (market_pressure kind attention pool)
            (mul-le-mul_left (policy_config kind).base_reward_wei h)))

  raw_zero :
      (a : RewardTargetCandidate)
      → a.quality_bps < (policy_config kind).minimum_quality_bps
      → raw_target kind attention pool a ≡ 0
  unfolding raw_target
  raw_zero a h = test_zero a.quality_bps (policy_config kind).minimum_quality_bps _ h

module _ (minimum : ℕ) (candidates : List RewardTargetCandidate) where
  none-IsFair : IsFair minimum candidates (allocate (λ c. 0) candidates)
  none-IsFair = record {
    target = λ c. 0;
    gives = refl;
    rises = λ a b h. omega arith;
    unqualified = λ a h. refl;
  }

  shares-IsFair :
      (raw : RewardTargetCandidate → ℕ) (d k : ℕ)
      → 0 < k
      → ((a b : RewardTargetCandidate) → a.quality_bps ≤ b.quality_bps → raw a ≤ raw b)
      → ((a : RewardTargetCandidate) → a.quality_bps < minimum → raw a ≡ 0)
      → IsFair minimum candidates (allocate (λ c. d * raw c / k) candidates)
  shares-IsFair raw d k p rises zero_below = record {
    target = λ c. d * raw c / k;
    gives = refl;
    rises = λ a b h. share_mono d k p (rises a b h);
    unqualified = λ a h. rw (zero_below a h) (nothing_shared d k);
  }

-- The targets of a group follow the quality of its candidates, whatever the pool and the pressure.
pub targets-IsFair :
    (kind : WorkKind) (attention : Option ℕ) (pool : ℕ) (candidates : List RewardTargetCandidate)
    → IsFair
        (policy_config kind).minimum_quality_bps
        candidates
        (derive_reward_targets_for_group attention candidates pool kind).allocations
unfolding derive_reward_targets_for_group
targets-IsFair kind attention pool candidates =
    let minimum = (policy_config kind).minimum_quality_bps in
    let raw = raw_target kind attention pool in
    let d = distributable_pool_wei kind attention pool in
    if-elim (IsFair minimum candidates) (d == 0 || is_none_left candidates)
      (λ e. none-IsFair minimum candidates)
      λ e.
        if-elim (IsFair minimum candidates) (sum_of raw candidates == 0)
          (λ z. none-IsFair minimum candidates)
          λ z.
            shares-IsFair minimum candidates raw d (sum_of raw candidates)
              (not_zero (sum_of raw candidates) z) (raw_mono kind attention pool)
              (raw_zero kind attention pool)
