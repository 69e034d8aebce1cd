-- ===== src/Review/Evaluation/Tests.antt =====
-- Evaluations of src/review/evaluate.ts on small inputs, and the uses of the theorems there.
use scientific_protocol.Common.{arith, ◌≡◌, refl, none, some, [], ◌∷◌}
use scientific_protocol.Work.Types.{ReviewTaskType}
use scientific_protocol.Review.{Dimension, Verdict, CreateInput, ReviewTask, new_task}
use scientific_protocol.Review.Submission.{new_submission}
use scientific_protocol.Review.Evaluation.Parts.{EvaluationInput, decimal}
use scientific_protocol.Review.Evaluation.Artifacts.{artifact_completeness}
use scientific_protocol.Review.Evaluation.Evidence.{contradiction_of, certification_synthesis}
use scientific_protocol.Review.Evaluation.{evaluate_review_task, submission_of, score_of}
use scientific_protocol.Review.Evaluation.Verdicts.{Agree, evaluate_review_task-Agree}
use scientific_protocol.Review.Evaluation.Stored.{VectorInRange, evaluated_stored}

abbrev request : ReviewTaskType → CreateInput
request task_type = record {
  claim_id = some "c1";
  consensus_policy = record {
    max_submissions = none;
    min_submissions = none;
    require_distinct_agents = none;
  };
  input_artifact_keys = none;
  requested_by = "owner";
  required_capabilities = none;
  schema_version = none;
  scope_key = none;
  source_id = none;
  source_subject_id = none;
  source_subject_type = none;
  task_type = task_type;
}

abbrev task : ReviewTaskType → ReviewTask
task task_type = new_task 10 (request task_type) "c1"

-- Twelve artifacts, with a manuscript and code, three challenges of which two are open, and a ready vector.
abbrev input : EvaluationInput
input = record {
  artifact_types = 5 ∷ 1 ∷ [];
  artifacts_count = 12;
  challenge_count = 3;
  challenges_open = 2;
  vector =
      record { dimension = Dimension.certification_readiness; score_bps = some 7600 }
      ∷ record { dimension = Dimension.challenge_pressure; score_bps = none }
      ∷ [];
  replication_count = 0;
  supportive_replications = 0;
}

twelve : (artifact_completeness input).summary ≡ "12 artifacts are attached to the claim."
unfolding artifact_completeness decimal
twelve = refl

complete : (artifact_completeness input).verdict ≡ Verdict.pass
unfolding artifact_completeness
complete = refl

flagged :
    ((contradiction_of (task ReviewTaskType.contradiction_scan) input).verdict ≡ Verdict.flag)
    × (score_of
          (contradiction_of (task ReviewTaskType.contradiction_scan) input).dimensions
          Dimension.challenge_pressure
        ≡ some 8000)
unfolding contradiction_of
flagged = (refl, refl)

certified : (certification_synthesis input).verdict ≡ Verdict.pass
unfolding certification_synthesis
certified = refl

evaluate_review_task-Agree_example :
    Agree (evaluate_review_task (task ReviewTaskType.contradiction_scan) input)
evaluate_review_task-Agree_example =
    evaluate_review_task-Agree (task ReviewTaskType.contradiction_scan) input

in_range : VectorInRange input.vector
in_range = (omega arith, (omega arith, tt))

evaluated_stored_example :
    ((d : Dimension)
      → (new_submission
            (λ text. text)
            20
            (submission_of
              (evaluate_review_task (task ReviewTaskType.contradiction_scan) input)
              "{}"
              "k"
              "w"
              (some "a")
              0
              0)
            (task ReviewTaskType.contradiction_scan)).dimensions
          d
        ≡ score_of
            (evaluate_review_task (task ReviewTaskType.contradiction_scan) input).dimensions
            d)
    × ((new_submission
          (λ text. text)
          20
          (submission_of
            (evaluate_review_task (task ReviewTaskType.contradiction_scan) input)
            "{}"
            "k"
            "w"
            (some "a")
            0
            0)
          (task ReviewTaskType.contradiction_scan)).confidence_bps
        ≡ (evaluate_review_task (task ReviewTaskType.contradiction_scan) input).confidence_bps)
evaluated_stored_example =
    evaluated_stored (λ text. text) 20 (task ReviewTaskType.contradiction_scan) input "{}" "k" "w"
      (some "a") 0 0 in_range
