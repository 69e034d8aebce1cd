-- ===== src/Review/Submission.antt =====
-- `recordReviewSubmission` of src/review/store.ts.
use scientific_protocol.Common.{
  ℕ, ◌+◌, Bool, true, false, ◌&&◌, not, Option, none, some, List, ◌∷◌, ◌++◌, map, String, str_eq,
  or_else, is_empty, ltb, leb, ◌==◌, if◌then◌else◌, Result, ok, thrown,
}
use scientific_protocol.Lease.{RunStatus}
use scientific_protocol.Table.{Table, get, update}
use scientific_protocol.Work.Types.{ReviewTaskType}
use scientific_protocol.Work.Status.{ReviewTaskStatus}
use scientific_protocol.Review.{
  Verdict, Severity, IssueStatus, RawScores, ReviewTask, ReviewRun, ReviewSubmission, ReviewIssue,
  ReviewStore, ReviewError, review_task_not_found, review_task_run_not_found,
  review_task_run_not_running, review_task_run_agent_mismatch, review_task_agent_already_submitted,
  clamp_integer, normalize_dimension_scores, policy_of, map_review_task_row, read_review_task,
  run_is_running, submitted, submitted_by,
}

pub record IssueInput : Type 0 where
  pub artifact_anchor : Option String
  pub category : String
  pub severity : Severity
  pub status : Option IssueStatus
  pub summary : String

pub record SubmissionInput : Type 0 where
  pub claim_id : Option String
  pub confidence_bps : Option ℕ
  pub dimensions : RawScores
  pub evidence_artifact_key : Option String
  pub issues : List IssueInput
  pub payload : Option String
  pub result_artifact_key : Option String
  pub review_type : Option ReviewTaskType
  pub reviewer_actor : String
  pub reviewer_agent_id : Option String
  pub run_id : Option ℕ
  pub schema_version : Option String
  pub source_id : Option String
  pub task_id : ℕ
  pub verdict : Verdict

-- Both agents are given, and differ.
abbrev pub agents_differ : Option String → Option String → Bool
agents_differ none held = false
agents_differ (some agent) none = false
agents_differ (some agent) (some holder) =
    not (is_empty agent) && not (is_empty holder) && not (str_eq agent holder)

-- The tests of the run.
abbrev pub check_held : SubmissionInput → ReviewRun → Result ReviewError (Unit {0})
check_held input run =
    if not (run.task_id == input.task_id)
    then thrown review_task_run_not_found
    else (if not (run_is_running run)
        then thrown review_task_run_not_running
        else (if agents_differ input.reviewer_agent_id run.agent_id
            then thrown review_task_run_agent_mismatch
            else ok tt))

abbrev pub check_found : SubmissionInput → Option ReviewRun → Result ReviewError (Unit {0})
check_found input none = thrown review_task_run_not_found
check_found input (some run) = check_held input run

abbrev pub check_given :
    SubmissionInput → Table ReviewRun → Option ℕ → Result ReviewError (Unit {0})
check_given input runs none = ok tt
check_given input runs (some run_id) = check_found input (get run_id runs)

abbrev pub check_run : SubmissionInput → ReviewStore → Result ReviewError (Unit {0})
check_run input s = check_given input s.runs input.run_id

-- Has the agent, where the policy wants distinct ones, submitted already?
abbrev pub submits_twice : SubmissionInput → ReviewTask → ReviewStore → Bool
submits_twice input task s = elim input.reviewer_agent_id [
  | none ↦ false
  | some agent ↦
      not (is_empty agent)
      && (policy_of task).require_distinct_agents
      && ltb 0 (submitted_by s input.task_id agent)
]

-- `a ?? b ?? null`
abbrev pub first_given : Option String → Option String → Option String
first_given none b = b
first_given (some a) b = some a

abbrev pub complete_run : ℕ → Option ℕ → Table ReviewRun → Table ReviewRun
complete_run now none runs = runs
complete_run now (some run_id) runs =
    update run_id (λ run. record run { status = RunStatus.completed; finished_at = some now }) runs

abbrev pub complete_task : ℕ → Option String → ReviewTask → ReviewTask
complete_task now result_artifact_key task = record task {
  status = ReviewTaskStatus.completed;
  result_artifact_key = first_given result_artifact_key task.result_artifact_key;
  updated_at = now;
  completed_at = some (or_else task.completed_at now);
}

abbrev pub keep_task : ℕ → Option String → ReviewTask → ReviewTask
keep_task now result_artifact_key task = record task {
  result_artifact_key = first_given result_artifact_key task.result_artifact_key;
  updated_at = now;
}

-- The two UPDATEs of the task.
abbrev pub settle : ℕ → Option String → Bool → ReviewTask → ReviewTask
settle now result_artifact_key true task = complete_task now result_artifact_key task
settle now result_artifact_key false task = keep_task now result_artifact_key task

-- The key of the submission, its row, and the task.
pub record Recorded : Type 0 where
  pub submission_id : ℕ
  pub submission : Option ReviewSubmission
  pub task : Option ReviewTask

-- `lower` is the function of the database.
module _ (lower : String → String) where
  abbrev pub new_submission : ℕ → SubmissionInput → ReviewTask → ReviewSubmission
  new_submission now input task = record {
    claim_id = first_given input.claim_id task.claim_id;
    confidence_bps = clamp_integer input.confidence_bps 0 10000 0;
    created_at = now;
    dimensions = normalize_dimension_scores input.dimensions;
    evidence_artifact_key = input.evidence_artifact_key;
    payload = or_else input.payload "{}";
    result_artifact_key = input.result_artifact_key;
    review_type = or_else input.review_type task.task_type;
    reviewer_actor = lower input.reviewer_actor;
    reviewer_agent_id = input.reviewer_agent_id;
    run_id = input.run_id;
    schema_version = or_else input.schema_version task.schema_version;
    source_id = first_given input.source_id task.source_id;
    task_id = input.task_id;
    verdict = input.verdict;
  }

  abbrev pub new_issue : ℕ → IssueInput → ReviewIssue
  new_issue submission_id issue = record {
    artifact_anchor = or_else issue.artifact_anchor "{}";
    category = issue.category;
    severity = issue.severity;
    status = or_else issue.status IssueStatus.opened;
    submission_id = submission_id;
    summary = issue.summary;
  }

  -- The inserts, the end of the run, and the update of the task by the count of its submissions.
  abbrev pub add_submission : ℕ → SubmissionInput → ReviewTask → ReviewStore → ReviewStore
  add_submission now input task s = record s {
    submissions = (s.next_submission, new_submission now input task) ∷ s.submissions;
    issues = map (new_issue s.next_submission) input.issues ++ s.issues;
    next_submission = s.next_submission + 1;
    runs = complete_run now input.run_id s.runs;
  }

  abbrev pub settle_task : ℕ → SubmissionInput → ReviewTask → ReviewStore → ReviewStore
  settle_task now input task s = record s {
    tasks =
        update input.task_id
          (settle now input.result_artifact_key
            (leb (policy_of task).min_submissions (submitted s input.task_id)))
          s.tasks;
  }

  unfoldable pub record_review_submission :
      ℕ → SubmissionInput → ReviewStore → Result ReviewError Recorded × ReviewStore
  unfolding read_review_task
  record_review_submission now input s = elim (get input.task_id s.tasks) [
    | none ↦ (thrown review_task_not_found, s)
    | some row ↦ elim (check_run input s) [
      | thrown e ↦ (thrown e, s)
      | ok done ↦
          let task = map_review_task_row row in
          if submits_twice input task s
          then (thrown review_task_agent_already_submitted, s)
          else (let s' = settle_task now input task (add_submission now input task s) in
              (
                ok (record {
                  submission_id = s.next_submission;
                  submission = get s.next_submission s'.submissions;
                  task = read_review_task input.task_id s';
                }),
                s',
              ))
    ]
  ]
