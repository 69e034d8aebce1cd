-- ===== src/Review.antt =====
-- The review tasks of src/review/store.ts: several agents lease runs of one task, submit, and complete it by consensus.
-- Each operation is a transaction on the tables; `now` is NOW(), in milliseconds, and an error that rolls back leaves
-- the tables as they were. Keys are numbers, and the JSON columns without a schema are their texts.
mod PolicyJson
mod Rows
mod Creation
pub mod Leases
pub mod Submission
pub mod Consensus
mod Policy
mod Effects
mod Moves
mod Submitting
mod Refinement
mod Distinct
mod Outcomes
mod RunKeys
mod Left
mod Stranded
pub mod Evaluation
pub mod Calibration
mod Tests
unfoldable pub use PolicyJson.*
unfoldable pub use Rows.*
unfoldable pub use Creation.*
use scientific_protocol.Common.{
  ℕ, ◌+◌, ◌-◌, ◌≤◌, max, min, Bool, true, false, ◌&&◌, ◌||◌, not, Option, none, some, List, [], ◌∷◌,
  ◌++◌, map, take, filter, String, str_eq, trim, is_empty, or_else, ltb, leb, ◌==◌, if◌then◌else◌,
  Result, ok, thrown,
}
use scientific_protocol.Lease.{RunStatus, Candidate, sort_candidates}
use scientific_protocol.Table.{Table, get, update, count, least_key}
use scientific_protocol.Work.Types.{ReviewTaskType}
use scientific_protocol.Work.Status.{ReviewTaskStatus}
use Creation.{is_truthy, read_review_task, filled}
use Rows.{
  SubjectType, Verdict, Severity, IssueStatus, clamp_integer, normalize_consensus_policy,
  normalize_dimension_scores, normalize_string_array, ReviewTask, ReviewRun, ReviewSubmission,
  ReviewIssue, ReviewStore, policy_of, map_review_task_row, task_is_open, run_is_running, type_text,
  same_subject, column_is,
}

-- `countReviewTaskCompletedSubmissions` and `countReviewTaskRunningRuns`
abbrev pub submissions_of : ℕ → ReviewSubmission → Bool
submissions_of task_id submission = submission.task_id == task_id

abbrev pub running_of : ℕ → ReviewRun → Bool
running_of task_id run = run.task_id == task_id && run_is_running run

abbrev pub submitted : ReviewStore → ℕ → ℕ
submitted s task_id = count (submissions_of task_id) s.submissions

abbrev pub running : ReviewStore → ℕ → ℕ
running s task_id = count (running_of task_id) s.runs

-- The submissions, and the running runs, of one agent on a task.
abbrev pub submitted_by : ReviewStore → ℕ → String → ℕ
submitted_by s task_id agent_id =
    count (λ sub. sub.task_id == task_id && column_is agent_id sub.reviewer_agent_id) s.submissions

abbrev pub running_by : ReviewStore → ℕ → String → ℕ
running_by s task_id agent_id =
    count (λ run. run.task_id == task_id && column_is agent_id run.agent_id && run_is_running run)
      s.runs

-- Has the agent, where the policy wants distinct ones, a submission or a running run already?
abbrev pub claims_twice : ReviewStore → ReviewTask → ℕ → Option String → Bool
claims_twice s task task_id agent_id = elim agent_id [
  | none ↦ false
  | some agent ↦
      not (is_empty agent)
      && (policy_of task).require_distinct_agents
      && (ltb 0 (submitted_by s task_id agent) || ltb 0 (running_by s task_id agent))
]

abbrev pub touch_task : ℕ → ReviewTask → ReviewTask
touch_task now task = record task { updated_at = now }

abbrev pub new_run : ℕ → (task_id : ℕ) → Option String → String → ReviewRun
new_run now task_id agent_id worker_id = record {
  agent_id = agent_id;
  failure_reason = none;
  finished_at = none;
  last_heartbeat_at = some now;
  started_at = now;
  status = RunStatus.running;
  task_id = task_id;
  worker_id = worker_id;
}

-- The tests of a claim, after the row is read, in their order.
abbrev pub may_claim : ReviewStore → ReviewTask → ℕ → Option String → Bool
may_claim s task task_id agent_id =
    let most = (policy_of task).max_submissions in
    task_is_open task
    && ltb (submitted s task_id) most
    && ltb (submitted s task_id + running s task_id) most
    && not (claims_twice s task task_id agent_id)

abbrev pub add_run : ℕ → ℕ → Option String → String → ReviewStore → ReviewStore
add_run now task_id agent_id worker_id s = record s {
  runs = (s.next_run, new_run now task_id agent_id worker_id) ∷ s.runs;
  next_run = s.next_run + 1;
  tasks = update task_id (touch_task now) s.tasks;
}

-- The key and the row of the run, and the task, or nothing.
unfoldable pub claim_review_task_by_id :
    ℕ
    → (agent_id : Option String) (task_id : ℕ) (worker_id : String) → ReviewStore
    → Option (ℕ × ReviewRun × Option ReviewTask) × ReviewStore
unfolding read_review_task
claim_review_task_by_id now agent_id task_id worker_id s = elim (get task_id s.tasks) [
  | none ↦ (none, s)
  | some row ↦
      if may_claim s row task_id agent_id
      then (let s' = add_run now task_id agent_id worker_id s in
          (
            some (s.next_run, new_run now task_id agent_id worker_id, read_review_task task_id s'),
            s',
          ))
      else (none, s)
]

abbrev pub end_run : RunStatus → Option String → ℕ → ReviewRun → ReviewRun
end_run status failure_reason now run = record run {
  status = status;
  failure_reason = failure_reason;
  finished_at = some now;
}

unfoldable pub fail_review_task_run :
    ℕ
    → (failure_reason : String) (run_id task_id : ℕ) → ReviewStore
    → Option ReviewRun × ReviewStore
fail_review_task_run now failure_reason run_id task_id s =
    let s' = record s {
      runs = update run_id (end_run RunStatus.failed (some failure_reason) now) s.runs;
      tasks = update task_id (touch_task now) s.tasks;
    } in
    (get run_id s'.runs, s')

-- `$3::text IS NULL OR column = $3`
abbrev pub matches : Option String → Option String → Bool
matches none column = true
matches (some text) column = column_is text column

-- Is the run a running one of the task, which is open, and the caller's?
abbrev pub may_beat : ReviewStore → Option String → ℕ → ℕ → Option String → Bool
may_beat s agent_id run_id task_id worker_id = elim (get run_id s.runs) [
  | none ↦ false
  | some run ↦
      run.task_id == task_id
      && run_is_running run
      && elim (get task_id s.tasks) [ none ↦ false | some task ↦ task_is_open task ]
      && matches agent_id run.agent_id
      && matches worker_id (some run.worker_id)
]
