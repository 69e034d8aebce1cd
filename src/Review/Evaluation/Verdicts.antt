-- ===== src/Review/Evaluation/Verdicts.antt =====
-- How the verdicts of src/review/evaluate.ts and their issues agree.
use scientific_protocol.Common.{not, arith, Bool, true, false, ◌||◌, ◌≡◌, refl, List, [], ◌∷◌}
use scientific_protocol.Work.Types.{ReviewTaskType}
use scientific_protocol.Review.{Verdict, Severity, ReviewTask}
use scientific_protocol.Review.Evaluation.Parts.{Evaluation, EvaluationInput, EvaluationIssue}
use scientific_protocol.Review.Evaluation.Artifacts.{
  artifact_completeness, artifact_integrity, method_consistency, stats_sanity,
  replication_readiness,
}
use scientific_protocol.Review.Evaluation.Evidence.{
  contradiction_of, benchmark_rerun, certification_synthesis,
}
use scientific_protocol.Review.Evaluation.{evaluate_type, evaluate_review_task}

-- Verdict and issues: a failing or flagging verdict has an issue, and a passing one has none of high severity.
abbrev pub is_negative : Verdict → Bool
is_negative Verdict.fail = true
is_negative Verdict.flag = true
is_negative Verdict.pass = false
is_negative Verdict.inconclusive = false

abbrev pub is_passing : Verdict → Bool
is_passing Verdict.pass = true
is_passing _ = false

abbrev pub is_high : Severity → Bool
is_high Severity.high = true
is_high Severity.critical = true
is_high _ = false

abbrev pub has_high : List EvaluationIssue → Bool
has_high [] = false
has_high (issue ∷ rest) = is_high issue.severity || has_high rest

abbrev pub has_issue : List EvaluationIssue → Bool
has_issue [] = false
has_issue (issue ∷ rest) = true

abbrev pub Agree : Evaluation → Type 0
Agree e =
    ((not (is_negative e.verdict) || has_issue e.issues) ≡ true)
    × ((not (is_passing e.verdict) || not (has_high e.issues)) ≡ true)

artifact_completeness-Agree : (input : EvaluationInput) → Agree (artifact_completeness input)
unfolding artifact_completeness
artifact_completeness-Agree input = (ground arith, ground arith)

method_consistency-Agree : (input : EvaluationInput) → Agree (method_consistency input)
unfolding method_consistency
method_consistency-Agree input = (ground arith, ground arith)

certification_synthesis-Agree : (input : EvaluationInput) → Agree (certification_synthesis input)
unfolding certification_synthesis
certification_synthesis-Agree input = (ground arith, ground arith)

artifact_integrity-Agree : (input : EvaluationInput) → Agree (artifact_integrity input)
unfolding artifact_integrity
artifact_integrity-Agree input = (ground arith, ground arith)

stats_sanity-Agree : (input : EvaluationInput) → Agree (stats_sanity input)
unfolding stats_sanity
stats_sanity-Agree input = (ground arith, ground arith)

replication_readiness-Agree : (input : EvaluationInput) → Agree (replication_readiness input)
unfolding replication_readiness
replication_readiness-Agree input = (ground arith, ground arith)

contradiction_of-Agree :
    (task : ReviewTask) (input : EvaluationInput) → Agree (contradiction_of task input)
unfolding contradiction_of
contradiction_of-Agree task input = (ground arith, ground arith)

benchmark_rerun-Agree : (input : EvaluationInput) → Agree (benchmark_rerun input)
unfolding benchmark_rerun
benchmark_rerun-Agree input = (ground arith, ground arith)

type-Agree :
    (type : ReviewTaskType) (task : ReviewTask) (input : EvaluationInput)
    → Agree (evaluate_type type task input)
type-Agree ReviewTaskType.artifact_completeness_check task input = artifact_completeness-Agree input
type-Agree ReviewTaskType.artifact_integrity_check task input = artifact_integrity-Agree input
type-Agree ReviewTaskType.method_consistency_check task input = method_consistency-Agree input
type-Agree ReviewTaskType.stats_sanity_check task input = stats_sanity-Agree input
type-Agree ReviewTaskType.replication_readiness_check task input = replication_readiness-Agree input
type-Agree ReviewTaskType.contradiction_scan task input = contradiction_of-Agree task input
type-Agree ReviewTaskType.benchmark_rerun_check task input = benchmark_rerun-Agree input
type-Agree ReviewTaskType.claim_extraction_check task input = (refl, refl)
type-Agree ReviewTaskType.claim_extraction_synthesis_check task input = (refl, refl)
type-Agree ReviewTaskType.certification_synthesis_check task input =
    certification_synthesis-Agree input

-- For every type of task, an evaluation that fails or flags reports an issue, and one that passes reports none of high
-- severity.
pub evaluate_review_task-Agree :
    (task : ReviewTask) (input : EvaluationInput) → Agree (evaluate_review_task task input)
evaluate_review_task-Agree task input = type-Agree task.task_type task input
