-- ===== src/Review/Evaluation/Artifacts.antt =====
-- The checks of src/review/evaluate.ts that read the artifacts of a claim.
use Prim.Native.String.{◌++◌ as ◌<>◌}
use scientific_protocol.Common.{◌+◌, not, ◌||◌, ◌&&◌, [], ◌∷◌, ltb, leb, if◌then◌else◌}
use scientific_protocol.Review.{Dimension, Verdict, Severity}
use scientific_protocol.Review.Evaluation.Parts.{
  Evaluation, EvaluationInput, clamp_bps, has_artifact_type, decimal, issue_if,
}

unfoldable pub artifact_completeness : EvaluationInput → Evaluation
unfolding decimal
artifact_completeness input =
    let some_there = ltb 0 input.artifacts_count in
    let has = has_artifact_type input.artifact_types in
    let score = clamp_bps (
      (if some_there then 5000 else 0)
      + (if has 5 then 1500 else 0)
      + (if has 1 || has 4 then 1500 else 0)
      + (if has 2 then 1000 else 0)
      + (if has 6 then 500 else 0)) in
    record {
      confidence_bps = if some_there then 8000 else 9000;
      dimensions = (Dimension.artifact_completeness, score) ∷ [];
      issues =
          issue_if (not some_there) "missing_artifacts" Severity.high
            "The claim has no attached artifacts to evaluate for completeness.";
      summary =
          if some_there
          then decimal input.artifacts_count <> " artifacts are attached to the claim."
          else "No artifacts are currently attached to the claim.";
      verdict =
          if leb 8000 score
          then Verdict.pass
          else (if some_there then Verdict.inconclusive else Verdict.fail);
    }

unfoldable pub artifact_integrity : EvaluationInput → Evaluation
artifact_integrity input =
    let some_there = ltb 0 input.artifacts_count in
    record {
      confidence_bps = 7500;
      dimensions = (Dimension.artifact_integrity, clamp_bps (if some_there then 8500 else 0)) ∷ [];
      issues =
          issue_if (not some_there) "integrity_unverifiable" Severity.medium
            "Artifact integrity cannot be checked before the claim has any attached artifacts.";
      summary =
          if some_there
          then "Artifacts expose typed digests and URIs suitable for integrity checks."
          else "No artifact commitments are available for integrity checks.";
      verdict = if some_there then Verdict.pass else Verdict.fail;
    }

unfoldable pub method_consistency : EvaluationInput → Evaluation
method_consistency input =
    let has = has_artifact_type input.artifact_types in
    let score = clamp_bps (if has 5 then (if has 1 || has 4 then 7800 else 6300) else 2500) in
    record {
      confidence_bps = if has 5 then 6800 else 4000;
      dimensions = (Dimension.method_consistency, score) ∷ [];
      issues =
          issue_if (not (has 5)) "missing_method_context" Severity.medium
            "Method consistency review is weak without a manuscript or structured method artifact.";
      summary =
          if has 5
          then "A manuscript artifact is present for method-focused review."
          else "Method consistency review is limited because no manuscript artifact is present.";
      verdict =
          if leb 7000 score
          then Verdict.pass
          else (if has 5 then Verdict.inconclusive else Verdict.fail);
    }

unfoldable pub stats_sanity : EvaluationInput → Evaluation
stats_sanity input =
    let manuscript = has_artifact_type input.artifact_types 5 in
    let score =
      clamp_bps
        (if manuscript then (if ltb 0 input.replication_count then 7200 else 5800) else 2000) in
    record {
      confidence_bps = if manuscript then 6500 else 3500;
      dimensions = (Dimension.statistical_sanity, score) ∷ [];
      issues =
          issue_if (not manuscript) "missing_statistical_context" Severity.medium
            "No manuscript artifact is present for a meaningful statistical sanity pass.";
      summary =
          if manuscript
          then "The claim has enough manuscript context for a basic statistical pass."
          else "The claim lacks enough manuscript context for a meaningful statistical pass.";
      verdict =
          if leb 7000 score
          then Verdict.pass
          else (if manuscript then Verdict.inconclusive else Verdict.fail);
    }

unfoldable pub replication_readiness : EvaluationInput → Evaluation
replication_readiness input =
    let some_there = ltb 0 input.artifacts_count in
    let has = has_artifact_type input.artifact_types in
    let score = clamp_bps (
      if has 1 && (has 2 || has 4)
      then 8500
      else (if has 1 || has 4 then 7000 else (if some_there then 4500 else 0))) in
    record {
      confidence_bps = 7800;
      dimensions = (Dimension.reproducibility_readiness, score) ∷ [];
      issues =
          issue_if (ltb score 7000) "execution_readiness"
            (if some_there then Severity.medium else Severity.high)
            (if some_there
              then "Artifacts exist, but the execution bundle is incomplete for reliable reruns."
              else "No reproducibility artifacts are present.");
      summary =
          if leb 7000 score
          then "The artifact bundle looks runnable enough for downstream replication."
          else "The artifact bundle is not yet strong enough for reliable downstream replication.";
      verdict =
          if leb 7500 score
          then Verdict.pass
          else (if ltb 0 score then Verdict.inconclusive else Verdict.fail);
    }
