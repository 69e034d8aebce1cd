-- ===== src/Review/Evaluation.antt =====
-- `evaluateReviewTask` of src/review/evaluate.ts, and the submission that src/review/worker.ts makes of it. All scores
-- are whole numbers here, so that Math.round changes none.
pub mod Parts
pub mod Artifacts
pub mod Evidence
mod Verdicts
mod Stored
mod Tests
use scientific_protocol.Common.{
  ℕ, zero, suc, ◌+◌, ◌*◌, ◌/◌, ◌%◌, min, max, Bool, true, false, not, ◌||◌, ◌&&◌, Option, none,
  some, List, [], ◌∷◌, map, String, or_else, ltb, leb, ◌==◌, if◌then◌else◌,
}
use scientific_protocol.Work.Types.{ReviewTaskType}
use scientific_protocol.Review.{Dimension, Verdict, Severity, ReviewTask, RawScores, task_is_open}
use scientific_protocol.Review.Submission.{SubmissionInput, IssueInput}
use scientific_protocol.Review.Evaluation.Parts.{
  EvaluationIssue, Scores, Evaluation, VectorEntry, EvaluationInput, clamp_bps, has_artifact_type,
  place, vector_score, decimal, issue_if,
}
use scientific_protocol.Review.Evaluation.Artifacts.{
  artifact_completeness, artifact_integrity, method_consistency, stats_sanity,
  replication_readiness,
}
use scientific_protocol.Review.Evaluation.Evidence.{
  contradiction_of, benchmark_rerun, certification_synthesis,
}

abbrev pub claim_extraction : Evaluation
claim_extraction = record {
  confidence_bps = 7200;
  dimensions = [];
  issues = [];
  summary = "Extraction work proposes a candidate atomic claim from the source snapshot.";
  verdict = Verdict.pass;
}

abbrev pub claim_extraction_synthesis : Evaluation
claim_extraction_synthesis = record {
  confidence_bps = 6800;
  dimensions = [];
  issues = [];
  summary = "Synthesis work clusters extraction candidates into a publication-ready proposal.";
  verdict = Verdict.inconclusive;
}

abbrev pub evaluate_type : ReviewTaskType → ReviewTask → EvaluationInput → Evaluation
evaluate_type ReviewTaskType.artifact_completeness_check task input = artifact_completeness input
evaluate_type ReviewTaskType.artifact_integrity_check task input = artifact_integrity input
evaluate_type ReviewTaskType.method_consistency_check task input = method_consistency input
evaluate_type ReviewTaskType.stats_sanity_check task input = stats_sanity input
evaluate_type ReviewTaskType.replication_readiness_check task input = replication_readiness input
evaluate_type ReviewTaskType.contradiction_scan task input = contradiction_of task input
evaluate_type ReviewTaskType.benchmark_rerun_check task input = benchmark_rerun input
evaluate_type ReviewTaskType.claim_extraction_check task input = claim_extraction
evaluate_type ReviewTaskType.claim_extraction_synthesis_check task input =
    claim_extraction_synthesis
evaluate_type ReviewTaskType.certification_synthesis_check task input =
    certification_synthesis input

abbrev pub evaluate_review_task : ReviewTask → EvaluationInput → Evaluation
evaluate_review_task task input = evaluate_type task.task_type task input

-- The score that a `Record<string, number>` of these holds.
abbrev pub score_of : Scores → Dimension → Option ℕ
score_of [] dimension = none
score_of ((held, score) ∷ rest) dimension =
    let later = score_of rest dimension in
    if place held == place dimension then some score else later

abbrev pub as_raw : Option ℕ → Option (Option ℕ)
as_raw none = none
as_raw (some score) = some (some score)

abbrev pub raw_scores : Scores → RawScores
raw_scores scores dimension = as_raw (score_of scores dimension)

abbrev pub issue_input : EvaluationIssue → IssueInput
issue_input issue = record {
  artifact_anchor = none;
  category = issue.category;
  severity = issue.severity;
  status = none;
  summary = issue.summary;
}

-- The call of `recordReviewSubmission` by the worker: `report` is the JSON of the payload.
unfoldable pub submission_of :
    Evaluation
    → (report key reviewer_actor : String) (agent_id : Option String) (run_id task_id : ℕ)
    → SubmissionInput
submission_of evaluation report key reviewer_actor agent_id run_id task_id = record {
  claim_id = none;
  confidence_bps = some evaluation.confidence_bps;
  dimensions = raw_scores evaluation.dimensions;
  evidence_artifact_key = none;
  issues = map issue_input evaluation.issues;
  payload = some report;
  result_artifact_key = some key;
  review_type = none;
  reviewer_actor = reviewer_actor;
  reviewer_agent_id = agent_id;
  run_id = some run_id;
  schema_version = none;
  source_id = none;
  task_id = task_id;
  verdict = evaluation.verdict;
}
