-- ===== src/Rewards/Tests.antt =====
-- The division of a review pool among three candidates.
use scientific_protocol.Common.{filter, ◌+◌, ◌≤◌, none, some, List, [], ◌∷◌, map, ◌≡◌, refl, arith}
use scientific_protocol.Rewards.Policy.{
  WorkKind, RewardTargetCandidate, derive_reward_targets_for_group, distributable_pool_wei,
  raw_target, market_pressure, market_pressure_bps, sum_of,
}
use scientific_protocol.Rewards.Division.{targets_within_pool, pool_spent}
use scientific_protocol.Work.Scheduling.{schedule_items}
use scientific_protocol.Work.Examples.{both}
use scientific_protocol.Rewards.Demand.{
  build_claim_reward_work_demand_signals, uncovered_demand_sum, kind_eq, kind_of,
}
use scientific_protocol.Rewards.Order.{IsFair, targets-IsFair}

rewards_lem : Unit {0}
unfolding derive_reward_targets_for_group distributable_pool_wei raw_target market_pressure
    market_pressure_bps
rewards_lem = tt

abbrev reviews : List RewardTargetCandidate
reviews =
    record { item_id = "1"; quality_bps = 10000 }
    ∷ record { item_id = "2"; quality_bps = 5000 }
    ∷ record { item_id = "3"; quality_bps = 6000 }
    ∷ []

-- The second is below the minimum; the others share 60 of the 100 units of the pool as 10 to 6.
shares :
    map
      (λ a. a.target_total_wei)
      (derive_reward_targets_for_group none reviews 100 WorkKind.review).allocations
    ≡ 37 ∷ 0 ∷ 22 ∷ []
unfolding rewards_lem
shares = refl

targets_within_pool_example :
    (sum_of
        (λ a. a.target_total_wei)
        (derive_reward_targets_for_group none reviews 100 WorkKind.review).allocations
      ≤ (derive_reward_targets_for_group none reviews 100 WorkKind.review).distributable_pool_wei)
    × ((derive_reward_targets_for_group none reviews 100 WorkKind.review).distributable_pool_wei
        ≤ 100)
targets_within_pool_example = targets_within_pool WorkKind.review none 100 reviews

pool_spent_example :
    (derive_reward_targets_for_group none reviews 100 WorkKind.review).distributable_pool_wei
    ≤ sum_of
        (λ a. a.target_total_wei)
        (derive_reward_targets_for_group none reviews 100 WorkKind.review).allocations
      + 3
unfolding rewards_lem
pool_spent_example = pool_spent WorkKind.review none 100 reviews (omega arith)

targets-IsFair_example :
    IsFair 6000 reviews
      (derive_reward_targets_for_group (some 12000) reviews 100 WorkKind.review).allocations
targets-IsFair_example = targets-IsFair WorkKind.review (some 12000) 100 reviews

-- The demand of the two items of Work/Examples: the scan asks for two more submissions, the synthesis waits.
uncovered_demand_sum_example :
    (build_claim_reward_work_demand_signals
      (some (schedule_items both))
      WorkKind.review).uncovered_demand
    ≡ sum_of
        (λ entry. entry.scheduling.desired_additional_claims)
        (filter (λ entry. kind_eq (kind_of entry) WorkKind.review) (schedule_items both))
uncovered_demand_sum_example = uncovered_demand_sum (schedule_items both) WorkKind.review
