-- ===== src/Rewards/Policy.antt =====
-- src/rewards/policy.ts and src/rewards/types.ts: amounts are in wei, shares in basis points. `bigint` amounts come from
-- unsigned words of the contracts, so that they are natural numbers, and `/` is the division that rounds down.
use scientific_protocol.Common.{
  ℕ, ◌+◌, ◌*◌, ◌/◌, Bool, true, false, ◌||◌, Option, List, [], ◌∷◌, map, String, or_else, ltb, ◌==◌,
  if◌then◌else◌,
}
use scientific_protocol.Work.Types.{ReviewTaskType, WorkItemKind, SourceType}

-- `ClaimRewardWorkKind`
pub data WorkKind : Type 0 where
  challenge forecast maintenance replication review synthesis : WorkKind

pub reward_work_kind_for_review_task_type : ReviewTaskType → WorkKind
reward_work_kind_for_review_task_type ReviewTaskType.certification_synthesis_check =
    WorkKind.synthesis
reward_work_kind_for_review_task_type _ = WorkKind.review

-- The cast of the source type in the source is not checked there: another source type than a review's is no synthesis.
pub reward_work_kind_for_work_item : WorkItemKind → SourceType → WorkKind
reward_work_kind_for_work_item WorkItemKind.review_task (SourceType.of_review task_type) =
    reward_work_kind_for_review_task_type task_type
reward_work_kind_for_work_item WorkItemKind.review_task _ = WorkKind.review
reward_work_kind_for_work_item WorkItemKind.replication_job _ = WorkKind.replication
reward_work_kind_for_work_item WorkItemKind.artifact_maintenance _ = WorkKind.maintenance

pub record PolicyConfig : Type 0 where
  pub base_reward_wei : ℕ
  pub distribution_fraction_bps : ℕ
  pub funding_target_wei : ℕ
  pub minimum_quality_bps : ℕ

abbrev pub milli_ether : ℕ
milli_ether = 1000000000000000

abbrev pub policy_config : WorkKind → PolicyConfig
policy_config WorkKind.challenge = record {
  base_reward_wei = 8 * milli_ether;
  distribution_fraction_bps = 6000;
  funding_target_wei = 80 * milli_ether;
  minimum_quality_bps = 6500;
}
policy_config WorkKind.forecast = record {
  base_reward_wei = 4 * milli_ether;
  distribution_fraction_bps = 4000;
  funding_target_wei = 40 * milli_ether;
  minimum_quality_bps = 6000;
}
policy_config WorkKind.maintenance = record {
  base_reward_wei = 3 * milli_ether;
  distribution_fraction_bps = 5000;
  funding_target_wei = 30 * milli_ether;
  minimum_quality_bps = 7000;
}
policy_config WorkKind.replication = record {
  base_reward_wei = 10 * milli_ether;
  distribution_fraction_bps = 7000;
  funding_target_wei = 100 * milli_ether;
  minimum_quality_bps = 7500;
}
policy_config WorkKind.review = record {
  base_reward_wei = 5 * milli_ether;
  distribution_fraction_bps = 6000;
  funding_target_wei = 50 * milli_ether;
  minimum_quality_bps = 6000;
}
policy_config WorkKind.synthesis = record {
  base_reward_wei = 6 * milli_ether;
  distribution_fraction_bps = 5000;
  funding_target_wei = 60 * milli_ether;
  minimum_quality_bps = 7500;
}

pub record RewardTargetCandidate : Type 0 where
  pub item_id : String
  pub quality_bps : ℕ

pub record RewardTargetAllocation : Type 0 where
  pub item_id : String
  pub target_total_wei : ℕ

abbrev pub bps_scale : ℕ
bps_scale = 10000

abbrev pub clamp_integer : (value low high : ℕ) → ℕ
clamp_integer value low high =
    if ltb value low then low else (if ltb high value then high else value)

unfoldable pub market_pressure_bps : (pool_balance_wei funding_target_wei : ℕ) → ℕ
market_pressure_bps pool_balance_wei funding_target_wei =
    if funding_target_wei == 0
    then 10000
    else clamp_integer (pool_balance_wei * bps_scale / funding_target_wei) 5000 20000

-- The constants of `deriveRewardTargetsForGroup` before its first return.
module _ (kind : WorkKind) (attention_pressure_bps : Option ℕ) (pool_balance_wei : ℕ) where
  abbrev pub attention_pressure : ℕ
  attention_pressure = or_else attention_pressure_bps 10000

  unfoldable pub market_pressure : ℕ
  market_pressure =
      clamp_integer
        (market_pressure_bps pool_balance_wei (policy_config kind).funding_target_wei
          * attention_pressure
          / bps_scale)
        5000 25000

  unfoldable pub distributable_pool_wei : ℕ
  distributable_pool_wei =
      clamp_integer
        (pool_balance_wei
          * (policy_config kind).distribution_fraction_bps
          / bps_scale
          * attention_pressure
          / bps_scale)
        0 pool_balance_wei

  unfoldable pub raw_target : RewardTargetCandidate → ℕ
  raw_target candidate =
      if ltb candidate.quality_bps (policy_config kind).minimum_quality_bps
      then 0
      else (policy_config kind).base_reward_wei
        * candidate.quality_bps
        * market_pressure
        / (bps_scale * bps_scale)

pub record RewardTargets : Type 0 where
  pub allocations : List RewardTargetAllocation
  pub distributable_pool_wei : ℕ
  pub market_pressure_bps : ℕ

abbrev pub sum_of {ℓ} : {A : Type ℓ} → (A → ℕ) → List A → ℕ
sum_of f [] = 0
sum_of f (x ∷ xs) = f x + sum_of f xs

abbrev pub is_none_left {ℓ} : {A : Type ℓ} → List A → Bool
is_none_left [] = true
is_none_left (x ∷ xs) = false

abbrev pub allocate :
    (RewardTargetCandidate → ℕ) → List RewardTargetCandidate → List RewardTargetAllocation
allocate target candidates =
    map (λ c. record { item_id = c.item_id; target_total_wei = target c }) candidates

-- An `attentionPressureBps` that is absent is `none`. The sum of the raw targets is a divisor only where it is not 0.
unfoldable pub derive_reward_targets_for_group :
    (attention_pressure_bps : Option ℕ) (candidates : List RewardTargetCandidate)
    (pool_balance_wei : ℕ)
    → WorkKind
    → RewardTargets
derive_reward_targets_for_group attention_pressure_bps candidates pool_balance_wei kind =
    let pool = distributable_pool_wei kind attention_pressure_bps pool_balance_wei in
    let raw = raw_target kind attention_pressure_bps pool_balance_wei in
    let total = sum_of raw candidates in
    record {
      allocations =
          (if pool == 0 || is_none_left candidates
            then allocate (λ c. 0) candidates
            else (if total == 0
                then allocate (λ c. 0) candidates
                else allocate (λ c. pool * raw c / total) candidates));
      distributable_pool_wei = pool;
      market_pressure_bps = market_pressure kind attention_pressure_bps pool_balance_wei;
    }
