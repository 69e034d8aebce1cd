-- ===== src/Review/Calibration.antt =====
-- src/review/calibration.ts: how well each agent's verdicts agreed with the outcomes of claims. A submission is its key
-- and its row, and a claim its identity and its status number.
mod History
mod Credits
mod Entries
mod Mean
mod Tests
use scientific_protocol.Common.{
  ℕ, suc, ◌+◌, ◌-◌, ◌*◌, ◌/◌, min, max, Bool, true, false, not, ◌||◌, ◌&&◌, Option, none, some,
  List, [], ◌∷◌, map, ◌++◌, String, str_eq, is_empty, or_else, ltb, ◌==◌, if◌then◌else◌,
}
use scientific_protocol.Work.Types.{ReviewTaskType}
use scientific_protocol.Review.{Verdict, ReviewSubmission}

-- `clampBps` of the quotient of two numbers: Math.round takes the nearest whole number, and a half up.
abbrev pub clamp_bps_of : ℕ → ℕ → ℕ
clamp_bps_of value divisor = max 0 (min 10000 ((2 * value + divisor) / (2 * divisor)))

abbrev pub claim_outcome_support_bps : ℕ → Option ℕ
claim_outcome_support_bps status =
    if status == 3
    then some 7000
    else (if status == 4
        then some 9000
        else (if status == 5 then some 2000 else (if status == 6 then some 500 else none)))

abbrev pub submission_support_signal_bps : Verdict → ℕ
submission_support_signal_bps Verdict.pass = 8500
submission_support_signal_bps Verdict.inconclusive = 5000
submission_support_signal_bps Verdict.flag = 2000
submission_support_signal_bps Verdict.fail = 1500

abbrev pub calibration_weight_bps : Option ℕ → ℕ
calibration_weight_bps none = 10000
calibration_weight_bps (some average) = clamp_bps_of (4000 * 10000 + average * 6000) 10000

-- `AgentReviewCalibrationContributionView`
pub record Contribution : Type 0 where
  pub calibration_bps : ℕ
  pub claim_id : String
  pub claim_status : ℕ
  pub created_at : ℕ
  pub outcome_support_bps : ℕ
  pub predicted_support_bps : ℕ
  pub review_type : ReviewTaskType
  pub reviewer_actor : String
  pub submission_id : ℕ
  pub verdict : Verdict

-- `AgentCalibrationHistoryEntry`
pub record AgentCalibration : Type 0 where
  pub agent_id : String
  pub average_calibration_bps : Option ℕ
  pub contributions : List Contribution
  pub reviewer_actor : Option String
  pub samples : ℕ
  pub weight_bps : ℕ

abbrev pub default_agent_calibration : String → Option String → AgentCalibration
default_agent_calibration agent_id reviewer_actor = record {
  agent_id = agent_id;
  average_calibration_bps = none;
  contributions = [];
  reviewer_actor = reviewer_actor;
  samples = 0;
  weight_bps = 10000;
}

pub record Outcome : Type 0 where
  pub claim_status : ℕ
  pub outcome_support_bps : ℕ

abbrev pub is_excluded : Option String → String → Bool
is_excluded none claim_id = false
is_excluded (some excluded) claim_id = str_eq claim_id excluded

-- The outcome that a claim puts in the Map.
abbrev pub outcome_at : ℕ → Option Outcome
outcome_at status = elim (claim_outcome_support_bps status) [
  | none ↦ none
  | some support ↦ some (record { claim_status = status; outcome_support_bps = support })
]

-- A look in the Map: the last claim of the identity that has an outcome.
abbrev pub outcome_of : Option String → List (String × ℕ) → String → Option Outcome
outcome_of excluded [] claim_id = none
outcome_of excluded ((held, status) ∷ claims) claim_id =
    elim (outcome_of excluded claims claim_id) [
      | some outcome ↦ some outcome
      | none ↦
          if str_eq held claim_id && not (is_excluded excluded held)
          then outcome_at status
          else none
    ]

abbrev pub contribution_to : ℕ → ReviewSubmission → String → Outcome → Contribution
contribution_to submission_id submission claim_id outcome =
    let predicted = submission_support_signal_bps submission.verdict in
    let support = outcome.outcome_support_bps in
    record {
      calibration_bps = max 0 (min 10000 (10000 - (max predicted support - min predicted support)));
      claim_id = claim_id;
      claim_status = outcome.claim_status;
      created_at = submission.created_at;
      outcome_support_bps = support;
      predicted_support_bps = predicted;
      review_type = submission.review_type;
      reviewer_actor = submission.reviewer_actor;
      submission_id = submission_id;
      verdict = submission.verdict;
    }

-- A text, unless it is missing or empty.
abbrev pub truthy : Option String → Option String
truthy none = none
truthy (some text) = if is_empty text then none else some text

module _ (outcome_for : String → Option Outcome) where
  abbrev pub contribution_at : ℕ → ReviewSubmission → Option String → Option Contribution
  contribution_at submission_id submission none = none
  contribution_at submission_id submission (some claim_id) = elim (outcome_for claim_id) [
    | none ↦ none
    | some outcome ↦ some (contribution_to submission_id submission claim_id outcome)
  ]

  -- The agent and the contribution of a submission, unless the loop skips it.
  unfoldable pub contribution_of : ℕ × ReviewSubmission → Option (String × Contribution)
  contribution_of (submission_id, submission) = elim (truthy submission.reviewer_agent_id) [
    | none ↦ none
    | some agent ↦ elim (contribution_at submission_id submission (truthy submission.claim_id)) [
      | none ↦ none
      | some contribution ↦ some (agent, contribution)
    ]
  ]

pub record Aggregate : Type 0 where
  pub contributions : List Contribution
  pub reviewer_actor : Option String

abbrev pub Aggregates : Type 0
Aggregates = List (String × Aggregate)

abbrev pub add_to : Contribution → Aggregate → Aggregate
add_to contribution aggregate = record {
  contributions = aggregate.contributions ++ contribution ∷ [];
  reviewer_actor = some (or_else aggregate.reviewer_actor contribution.reviewer_actor);
}

abbrev pub empty_aggregate : Aggregate
empty_aggregate = record { contributions = []; reviewer_actor = none }

-- `aggregates.set(agent, …)`: a Map keeps the place of a key that it has.
abbrev pub set_aggregate : String → Contribution → Aggregates → Aggregates
set_aggregate agent contribution [] = (agent, add_to contribution empty_aggregate) ∷ []
set_aggregate agent contribution ((held, aggregate) ∷ rest) =
    let later = set_aggregate agent contribution rest in
    if str_eq held agent
    then (held, add_to contribution aggregate) ∷ rest
    else (held, aggregate) ∷ later

abbrev pub add_contribution : Option (String × Contribution) → Aggregates → Aggregates
add_contribution none aggregates = aggregates
add_contribution (some (agent, contribution)) aggregates =
    set_aggregate agent contribution aggregates

-- The loop over the submissions.
unfoldable pub aggregate_all :
    (String → Option Outcome) → List (ℕ × ReviewSubmission) → Aggregates → Aggregates
unfolding contribution_of
aggregate_all outcome_for [] aggregates = aggregates
aggregate_all outcome_for (submission ∷ rest) aggregates =
    aggregate_all outcome_for rest
      (add_contribution (contribution_of outcome_for submission) aggregates)

abbrev pub total_calibration : List Contribution → ℕ
total_calibration [] = 0
total_calibration (contribution ∷ rest) = contribution.calibration_bps + total_calibration rest

abbrev pub samples_of : List Contribution → ℕ
samples_of [] = 0
samples_of (contribution ∷ rest) = suc (samples_of rest)

abbrev pub average_of : List Contribution → Option ℕ
average_of contributions =
    if ltb 0 (samples_of contributions)
    then some (clamp_bps_of (total_calibration contributions) (samples_of contributions))
    else none

-- `follows a b` stands for `b.localeCompare(a) < 0` on the texts of two keys.
module _ (follows : ℕ → ℕ → Bool) where
  abbrev pub comes_first : Contribution → Contribution → Bool
  comes_first left right =
      ltb right.created_at left.created_at
      || (left.created_at == right.created_at && follows left.submission_id right.submission_id)

  abbrev pub insert_contribution : Contribution → List Contribution → List Contribution
  insert_contribution c [] = c ∷ []
  insert_contribution c (d ∷ rest) =
      let later = insert_contribution c rest in if comes_first d c then d ∷ later else c ∷ d ∷ rest

  unfoldable pub sort_contributions : List Contribution → List Contribution
  sort_contributions [] = []
  sort_contributions (c ∷ rest) = insert_contribution c (sort_contributions rest)

  unfoldable pub history_entry : String × Aggregate → AgentCalibration
  unfolding sort_contributions
  history_entry (agent_id, aggregate) =
      let contributions = sort_contributions aggregate.contributions in
      let average = average_of contributions in
      record {
        agent_id = agent_id;
        average_calibration_bps = average;
        contributions = contributions;
        reviewer_actor = aggregate.reviewer_actor;
        samples = samples_of contributions;
        weight_bps = calibration_weight_bps average;
      }

  unfoldable pub build_agent_calibration_history :
      (claims : List (String × ℕ)) (submissions : List (ℕ × ReviewSubmission))
      (excluded : Option String)
      → List AgentCalibration
  unfolding history_entry aggregate_all
  build_agent_calibration_history claims submissions excluded =
      map history_entry (aggregate_all (outcome_of excluded claims) submissions [])
