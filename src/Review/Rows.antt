-- ===== src/Review/Rows.antt =====
-- The rows of the review tables, as src/review/types.ts and src/review/store.ts declare them, and the normalization of
-- what comes from JSON. A number that is missing or not finite is `none`; one that is there is a natural number, the floor
-- of what JSON has, since a negative one is raised to the minimum, which is not negative.
use scientific_protocol.Common.{
  ℕ, max, min, Bool, true, false, Option, none, some, List, map, filter, String, str_eq, trim,
  is_empty, not, or_else,
}
use scientific_protocol.Lease.{RunStatus}
use scientific_protocol.Review.PolicyJson.{RawPolicy, to_raw}
use scientific_protocol.Work.Types.{ReviewTaskType}
use scientific_protocol.Work.Policy.{ReviewConsensusPolicy}
use scientific_protocol.Work.Status.{ReviewTaskStatus}
use scientific_protocol.Table.{Table}

pub data SubjectType : Type 0 where
  of_claim of_source_record : SubjectType

pub data Verdict : Type 0 where
  fail flag inconclusive pass : Verdict

pub data Severity : Type 0 where
  critical high low medium : Severity

pub data IssueStatus : Type 0 where
  dismissed opened resolved responded : IssueStatus

-- `ClaimReviewVectorDimension`
pub data Dimension : Type 0 where
  artifact_completeness : Dimension
  artifact_integrity : Dimension
  certification_readiness : Dimension
  challenge_pressure : Dimension
  contradiction_pressure : Dimension
  forecast_support : Dimension
  method_consistency : Dimension
  replication_support : Dimension
  reproducibility_readiness : Dimension
  review_coverage : Dimension
  review_diversity : Dimension
  review_freshness : Dimension
  statistical_sanity : Dimension

abbrev pub DimensionScores : Type 0
DimensionScores = Dimension → Option ℕ

-- The scores that a reviewer sends: a dimension may be missing, and what is there may be no number.
abbrev pub RawScores : Type 0
RawScores = Dimension → Option (Option ℕ)

abbrev pub clamp_integer : Option ℕ → (minimum maximum fallback : ℕ) → ℕ
clamp_integer none minimum maximum fallback = fallback
clamp_integer (some value) minimum maximum fallback = max minimum (min maximum value)

unfoldable pub normalize_consensus_policy : RawPolicy → ReviewConsensusPolicy
normalize_consensus_policy raw =
    let least = clamp_integer raw.min_submissions 1 10 1 in
    record {
      max_submissions = clamp_integer raw.max_submissions least 10 (max 1 least);
      min_submissions = least;
      require_distinct_agents = or_else raw.require_distinct_agents false;
    }

unfoldable pub normalize_string_array : List String → List String
normalize_string_array texts = filter (λ text. not (is_empty text)) (map trim texts)

unfoldable pub normalize_dimension_scores : RawScores → DimensionScores
normalize_dimension_scores raw dimension = elim (raw dimension) [
  | none ↦ none
  | some score ↦ some (clamp_integer score 0 10000 0)
]

-- `review_tasks`
pub record ReviewTask : Type 0 where
  pub claim_id : Option String
  pub completed_at : Option ℕ
  pub consensus_policy : RawPolicy
  pub created_at : ℕ
  pub failure_reason : Option String
  pub input_artifact_keys : List String
  pub requested_by : String
  pub required_capabilities : List String
  pub result_artifact_key : Option String
  pub schema_version : String
  pub scope_key : String
  pub source_id : Option String
  pub subject_id : String
  pub subject_type : SubjectType
  pub status : ReviewTaskStatus
  pub task_type : ReviewTaskType
  pub updated_at : ℕ

-- `review_task_runs`
pub record ReviewRun : Type 0 where
  pub agent_id : Option String
  pub failure_reason : Option String
  pub finished_at : Option ℕ
  pub last_heartbeat_at : Option ℕ
  pub started_at : ℕ
  pub status : RunStatus
  pub task_id : ℕ
  pub worker_id : String

-- `review_submissions`; the payload is the text of the JSON.
pub record ReviewSubmission : Type 0 where
  pub claim_id : Option String
  pub confidence_bps : ℕ
  pub created_at : ℕ
  pub dimensions : DimensionScores
  pub evidence_artifact_key : Option String
  pub payload : String
  pub result_artifact_key : Option String
  pub review_type : ReviewTaskType
  pub reviewer_actor : String
  pub reviewer_agent_id : Option String
  pub run_id : Option ℕ
  pub schema_version : String
  pub source_id : Option String
  pub task_id : ℕ
  pub verdict : Verdict

-- `review_issues`
pub record ReviewIssue : Type 0 where
  pub artifact_anchor : String
  pub category : String
  pub severity : Severity
  pub status : IssueStatus
  pub submission_id : ℕ
  pub summary : String

pub record ReviewStore : Type 0 where
  pub tasks : Table ReviewTask
  pub runs : Table ReviewRun
  pub submissions : Table ReviewSubmission
  pub issues : List ReviewIssue
  pub next_task : ℕ
  pub next_run : ℕ
  pub next_submission : ℕ

abbrev pub policy_of : ReviewTask → ReviewConsensusPolicy
policy_of task = normalize_consensus_policy task.consensus_policy

-- `mapReviewTaskRow`: the JSON columns are normalized again when they are read.
abbrev pub map_review_task_row : ReviewTask → ReviewTask
map_review_task_row row = record row {
  consensus_policy = to_raw (policy_of row);
  input_artifact_keys = normalize_string_array row.input_artifact_keys;
  required_capabilities = normalize_string_array row.required_capabilities;
}

abbrev pub task_is_open : ReviewTask → Bool
task_is_open task = elim task.status [ ReviewTaskStatus.opened ↦ true | _ ↦ false ]

abbrev pub run_is_running : ReviewRun → Bool
run_is_running run = elim run.status [ RunStatus.running ↦ true | _ ↦ false ]

abbrev pub type_text : ReviewTaskType → String
type_text ReviewTaskType.artifact_completeness_check = "artifact_completeness_check"
type_text ReviewTaskType.artifact_integrity_check = "artifact_integrity_check"
type_text ReviewTaskType.benchmark_rerun_check = "benchmark_rerun_check"
type_text ReviewTaskType.certification_synthesis_check = "certification_synthesis_check"
type_text ReviewTaskType.claim_extraction_check = "claim_extraction_check"
type_text ReviewTaskType.claim_extraction_synthesis_check = "claim_extraction_synthesis_check"
type_text ReviewTaskType.contradiction_scan = "contradiction_scan"
type_text ReviewTaskType.method_consistency_check = "method_consistency_check"
type_text ReviewTaskType.replication_readiness_check = "replication_readiness_check"
type_text ReviewTaskType.stats_sanity_check = "stats_sanity_check"

abbrev pub same_subject : SubjectType → SubjectType → Bool
same_subject SubjectType.of_claim SubjectType.of_claim = true
same_subject SubjectType.of_source_record SubjectType.of_source_record = true
same_subject _ _ = false

-- The column is the given text: `column = $n`, which a missing column does not meet.
abbrev pub column_is : String → Option String → Bool
column_is text none = false
column_is text (some column) = str_eq column text
