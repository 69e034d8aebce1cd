-- ===== src/Review/Evaluation/Evidence.antt =====
-- The checks of src/review/evaluate.ts that read challenges, replications and the review vector.
use Prim.Native.String.{◌++◌ as ◌<>◌}
use scientific_protocol.Common.{◌+◌, ◌*◌, not, ◌||◌, [], ◌∷◌, ltb, leb, if◌then◌else◌}
use scientific_protocol.Review.{Dimension, Verdict, Severity, ReviewTask, task_is_open}
use scientific_protocol.Review.Evaluation.Parts.{
  Evaluation, EvaluationInput, clamp_bps, has_artifact_type, vector_score, decimal, issue_if,
}

unfoldable pub contradiction_of : ReviewTask → EvaluationInput → Evaluation
contradiction_of task input =
    let pressure = clamp_bps (
      input.challenge_count * 1500
      + input.challenges_open * 1500
      + (if task_is_open task then 500 else 0)) in
    record {
      confidence_bps = 6000;
      dimensions =
          (Dimension.challenge_pressure, pressure)
          ∷ (Dimension.contradiction_pressure, pressure)
          ∷ [];
      issues =
          issue_if (leb 6000 pressure) "contradiction" Severity.high
            "Open contradiction pressure is elevated enough to block quiet certification.";
      summary =
          if leb 6000 pressure
          then "Challenge and contradiction pressure is elevated."
          else "No strong contradiction signal dominates the current record.";
      verdict = if leb 6000 pressure then Verdict.flag else Verdict.pass;
    }

unfoldable pub benchmark_rerun : EvaluationInput → Evaluation
unfolding decimal
benchmark_rerun input =
    let has = has_artifact_type input.artifact_types in
    let replicated = ltb 0 input.replication_count in
    let score = clamp_bps (
      if ltb 0 input.supportive_replications
      then 8600
      else (if replicated then 5200 else (if has 1 || has 4 then 5500 else 2000))) in
    record {
      confidence_bps = if replicated then 8500 else 5500;
      dimensions = (Dimension.replication_support, score) ∷ [];
      issues =
          issue_if (not replicated) "no_rerun_recorded" Severity.medium
            "No replication result is recorded yet for this claim.";
      summary =
          if replicated
          then decimal input.replication_count <> " replication result(s) are already recorded."
          else "No benchmark rerun has been recorded yet.";
      verdict =
          if leb 8000 score
          then Verdict.pass
          else (if replicated then Verdict.inconclusive else Verdict.fail);
    }

unfoldable pub certification_synthesis : EvaluationInput → Evaluation
certification_synthesis input =
    let score = vector_score input.vector in
    let readiness = score Dimension.certification_readiness in
    let contradiction = score Dimension.contradiction_pressure in
    let challenge = score Dimension.challenge_pressure in
    let blocked = leb 6000 contradiction || leb 6000 challenge in
    record {
      confidence_bps = 7000;
      dimensions =
          (Dimension.certification_readiness, readiness)
          ∷ (Dimension.review_coverage, score Dimension.review_coverage)
          ∷ (Dimension.review_diversity, score Dimension.review_diversity)
          ∷ (Dimension.review_freshness, score Dimension.review_freshness)
          ∷ (Dimension.contradiction_pressure, contradiction)
          ∷ (Dimension.challenge_pressure, challenge)
          ∷ (Dimension.forecast_support, score Dimension.forecast_support)
          ∷ (Dimension.replication_support, score Dimension.replication_support)
          ∷ [];
      issues =
          issue_if blocked "certification_blocker" Severity.high
            "Current contradiction or challenge pressure blocks certification from being quiet.";
      summary =
          if leb 7500 readiness
          then "The current claim review vector clears provisional certification thresholds."
          else "The current claim review vector has not yet cleared certification thresholds.";
      verdict =
          if blocked
          then Verdict.flag
          else (if leb 7500 readiness then Verdict.pass else Verdict.inconclusive);
    }
