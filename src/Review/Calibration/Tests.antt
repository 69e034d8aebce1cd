-- ===== src/Review/Calibration/Tests.antt =====
-- A calibration of src/review/calibration.ts on three submissions, and the uses of the theorems there.
use scientific_protocol.Common.{ℕ, ◌≡◌, refl, none, some, List, [], ◌∷◌, String, ltb, min, length}
use scientific_protocol.Work.Types.{ReviewTaskType}
use scientific_protocol.Review.{Verdict, ReviewSubmission}
use scientific_protocol.Review.Calibration.{
  contribution_of, aggregate_all, sort_contributions, history_entry,
  build_agent_calibration_history,
}
use scientific_protocol.Review.Calibration.History.{average_in, samples_in}
use scientific_protocol.Review.Calibration.Credits.{credits}
use scientific_protocol.Review.Calibration.Entries.{entries_of}
use scientific_protocol.Review.Calibration.Mean.{IsMean, sum, history-credits}

abbrev by : String → String → Verdict → ReviewSubmission
by agent claim_id verdict = record {
  claim_id = some claim_id;
  confidence_bps = 5000;
  created_at = 10;
  dimensions = λ d. none;
  evidence_artifact_key = none;
  payload = "{}";
  result_artifact_key = none;
  review_type = ReviewTaskType.stats_sanity_check;
  reviewer_actor = agent;
  reviewer_agent_id = some agent;
  run_id = none;
  schema_version = "v1";
  source_id = none;
  task_id = 0;
  verdict = verdict;
}

abbrev claims : List (String × ℕ)
claims = ("c1", 4) ∷ ("c2", 6) ∷ ("c3", 1) ∷ []

abbrev submissions : List (ℕ × ReviewSubmission)
submissions =
    (1, by "a" "c1" Verdict.pass)
    ∷ (2, by "b" "c1" Verdict.fail)
    ∷ (3, by "a" "c2" Verdict.inconclusive)
    ∷ (4, by "a" "c3" Verdict.pass)
    ∷ []

-- 9500 for the pass, 5500 for the doubt; the open claim counts for nothing.
mean :
    (average_in "a" (build_agent_calibration_history ltb claims submissions none) ≡ some 7500)
    × (samples_in "a" (build_agent_calibration_history ltb claims submissions none) ≡ 2)
unfolding build_agent_calibration_history history_entry aggregate_all contribution_of
    sort_contributions
mean = (refl, refl)

history-credits_example :
    let history = build_agent_calibration_history ltb claims submissions none in
    let earned = credits none claims "a" submissions in
    (IsMean (length earned) (sum earned) (average_in "a" history))
    × (samples_in "a" history ≡ length earned)
    × (entries_of "a" history ≡ min 1 (length earned))
history-credits_example = history-credits ltb claims submissions none "a"

-- The credits of the two submissions that count.
earned_credits : credits none claims "a" submissions ≡ 9500 ∷ 5500 ∷ []
unfolding credits
earned_credits = refl
