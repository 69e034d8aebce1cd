-- ===== src/Review/Evaluation/Stored.antt =====
-- What the worker of src/review/worker.ts stores of an evaluation.
use scientific_protocol.Common.{
  ℕ, ◌≤◌, arith, ◌≡◌, refl, ap, inl, inr, Option-cases, Option, some, List, [], ◌∷◌, String,
  or_else,
}
use scientific_protocol.Work.Types.{ReviewTaskType}
use scientific_protocol.Review.{Dimension, ReviewTask, normalize_dimension_scores, clamp_integer}
use scientific_protocol.Review.Submission.{new_submission}
use scientific_protocol.Review.Evaluation.Parts.{EvaluationInput, VectorEntry, Scores, vector_score}
use scientific_protocol.Review.Evaluation.Artifacts.{
  artifact_completeness, artifact_integrity, method_consistency, stats_sanity,
  replication_readiness,
}
use scientific_protocol.Review.Evaluation.Evidence.{
  contradiction_of, benchmark_rerun, certification_synthesis,
}
use scientific_protocol.Review.Evaluation.{
  evaluate_type, evaluate_review_task, score_of, raw_scores, submission_of,
}

-- All scores are in range.
abbrev pub InRange : Scores → Type 0
InRange [] = Unit
InRange ((dimension, score) ∷ rest) = (score ≤ 10000) × InRange rest

abbrev pub VectorInRange : List VectorEntry → Type 0
VectorInRange [] = Unit
VectorInRange (entry ∷ rest) = (or_else entry.score_bps 0 ≤ 10000) × VectorInRange rest

vector_score-le :
    (vector : List VectorEntry) (d : Dimension)
    → VectorInRange vector
    → vector_score vector d ≤ 10000
vector_score-le [] d h = omega arith
vector_score-le (entry ∷ rest) d (h, k) = ground (arith, h, vector_score-le rest d k)

evaluated-InRange :
    (type : ReviewTaskType) (task : ReviewTask) (input : EvaluationInput)
    → VectorInRange input.vector
    → InRange (evaluate_type type task input).dimensions
unfolding artifact_completeness artifact_integrity method_consistency stats_sanity
    replication_readiness contradiction_of benchmark_rerun certification_synthesis
evaluated-InRange ReviewTaskType.artifact_completeness_check task input h = (omega arith, tt)
evaluated-InRange ReviewTaskType.artifact_integrity_check task input h = (omega arith, tt)
evaluated-InRange ReviewTaskType.method_consistency_check task input h = (omega arith, tt)
evaluated-InRange ReviewTaskType.stats_sanity_check task input h = (omega arith, tt)
evaluated-InRange ReviewTaskType.replication_readiness_check task input h = (omega arith, tt)
evaluated-InRange ReviewTaskType.contradiction_scan task input h = (omega arith, (omega arith, tt))
evaluated-InRange ReviewTaskType.benchmark_rerun_check task input h = (omega arith, tt)
evaluated-InRange ReviewTaskType.claim_extraction_check task input h = tt
evaluated-InRange ReviewTaskType.claim_extraction_synthesis_check task input h = tt
evaluated-InRange ReviewTaskType.certification_synthesis_check task input h =
    let le : (d : Dimension) → vector_score input.vector d ≤ 10000 =
      λ d. vector_score-le input.vector d h in
    (
      le Dimension.certification_readiness,
      (
        le Dimension.review_coverage,
        (
          le Dimension.review_diversity,
          (
            le Dimension.review_freshness,
            (
              le Dimension.contradiction_pressure,
              (
                le Dimension.challenge_pressure,
                (le Dimension.forecast_support, (le Dimension.replication_support, tt)),
              ),
            ),
          ),
        ),
      ),
    )

confidence-le :
    (type : ReviewTaskType) (task : ReviewTask) (input : EvaluationInput)
    → (evaluate_type type task input).confidence_bps ≤ 10000
unfolding artifact_completeness artifact_integrity method_consistency stats_sanity
    replication_readiness contradiction_of benchmark_rerun certification_synthesis
confidence-le ReviewTaskType.artifact_completeness_check task input = ground arith
confidence-le ReviewTaskType.artifact_integrity_check task input = ground arith
confidence-le ReviewTaskType.method_consistency_check task input = ground arith
confidence-le ReviewTaskType.stats_sanity_check task input = ground arith
confidence-le ReviewTaskType.replication_readiness_check task input = ground arith
confidence-le ReviewTaskType.contradiction_scan task input = ground arith
confidence-le ReviewTaskType.benchmark_rerun_check task input = ground arith
confidence-le ReviewTaskType.claim_extraction_check task input = ground arith
confidence-le ReviewTaskType.claim_extraction_synthesis_check task input = ground arith
confidence-le ReviewTaskType.certification_synthesis_check task input = ground arith

clamped : (n : ℕ) → n ≤ 10000 → clamp_integer (some n) 0 10000 0 ≡ n
clamped n h = omega (arith, h)

score-le :
    (scores : Scores) (d : Dimension) (n : ℕ)
    → InRange scores
    → score_of scores d ≡ some n
    → n ≤ 10000
score-le [] d n h e = ground (arith, e)
score-le ((held, score) ∷ rest) d n (h, k) e = ground (arith, h, e, score-le rest d n k)

kept :
    (scores : Scores) (d : Dimension)
    → InRange scores
    → normalize_dimension_scores (raw_scores scores) d ≡ score_of scores d
unfolding normalize_dimension_scores
kept scores d h = elim (Option-cases (score_of scores d)) [
  | inl e ↦ rw (normalize_dimension_scores, e) refl
  | inr (n, e) ↦ rw (normalize_dimension_scores, e) (ap some (clamped n (score-le scores d n h e)))
]

-- The submission of a worker holds the scores and the confidence of its evaluation unchanged, when the scores of the
-- review vector are at most 10000 basis points.
pub evaluated_stored :
    (lower : String → String) (now : ℕ) (task : ReviewTask) (input : EvaluationInput)
    (report key actor : String) (agent_id : Option String) (run_id task_id : ℕ)
    → VectorInRange input.vector
    → (((d : Dimension)
          → (new_submission lower now
                (submission_of
                  (evaluate_review_task task input)
                  report
                  key
                  actor
                  agent_id
                  run_id
                  task_id)
                task).dimensions
              d
            ≡ score_of (evaluate_review_task task input).dimensions d)
        × ((new_submission lower now
              (submission_of
                (evaluate_review_task task input)
                report
                key
                actor
                agent_id
                run_id
                task_id)
              task).confidence_bps
            ≡ (evaluate_review_task task input).confidence_bps))
unfolding submission_of
evaluated_stored lower now task input report key actor agent_id run_id task_id h = (
  λ d. kept _ d (evaluated-InRange task.task_type task input h),
  clamped _ (confidence-le task.task_type task input),
)
