-- ===== src/Review/Creation.antt =====
-- `createReviewTask` and `readReviewTask` of src/review/store.ts, and what the operations there throw.
use scientific_protocol.Common.{
  ℕ, ◌+◌, Bool, false, ◌&&◌, not, Option, none, some, List, [], ◌∷◌, String, str_eq, trim, is_empty,
  or_else, if◌then◌else◌, Result, ok, thrown,
}
use scientific_protocol.Table.{get, least_key}
use scientific_protocol.Work.Types.{ReviewTaskType}
use scientific_protocol.Work.Status.{ReviewTaskStatus}
use scientific_protocol.Review.PolicyJson.{RawPolicy, to_raw}
use scientific_protocol.Review.Rows.{
  SubjectType, normalize_consensus_policy, ReviewTask, ReviewStore, map_review_task_row,
  task_is_open, type_text, same_subject,
}

-- What the operations throw.
pub data ReviewError : Type 0 where
  review_task_subject_required : ReviewError
  review_task_not_found : ReviewError
  review_task_run_not_found : ReviewError
  review_task_run_not_running : ReviewError
  review_task_run_agent_mismatch : ReviewError
  review_task_agent_already_submitted : ReviewError

-- `text?.trim() || null`
abbrev pub filled : Option String → Option String
filled none = none
filled (some text) = if is_empty (trim text) then none else some (trim text)

-- A text that is neither missing nor empty.
abbrev pub is_truthy : Option String → Bool
is_truthy none = false
is_truthy (some text) = not (is_empty text)

pub record CreateInput : Type 0 where
  pub claim_id : Option String
  pub consensus_policy : RawPolicy
  pub input_artifact_keys : Option (List String)
  pub requested_by : String
  pub required_capabilities : Option (List String)
  pub schema_version : Option String
  pub scope_key : Option String
  pub source_id : Option String
  pub source_subject_id : Option String
  pub source_subject_type : Option SubjectType
  pub task_type : ReviewTaskType

abbrev pub scope_of : CreateInput → String
scope_of input = or_else (filled input.scope_key) (type_text input.task_type)

abbrev pub subject_of : CreateInput → Option String
subject_of input = elim (or_else input.source_subject_type SubjectType.of_claim) [
  | SubjectType.of_source_record ↦ elim (filled input.source_subject_id) [
    | none ↦ filled input.source_id
    | some text ↦ some text
  ]
  | SubjectType.of_claim ↦ filled input.claim_id
]

-- The SELECT of an open task with the same identity.
abbrev pub has_identity : SubjectType → String → ReviewTaskType → String → ReviewTask → Bool
has_identity subject_type subject_id task_type scope_key task =
    same_subject task.subject_type subject_type
    && str_eq task.subject_id subject_id
    && str_eq (type_text task.task_type) (type_text task_type)
    && str_eq task.scope_key scope_key
    && task_is_open task

abbrev pub new_task : ℕ → CreateInput → String → ReviewTask
new_task now input subject_id = record {
  claim_id = filled input.claim_id;
  completed_at = none;
  consensus_policy = to_raw (normalize_consensus_policy input.consensus_policy);
  created_at = now;
  failure_reason = none;
  input_artifact_keys = or_else input.input_artifact_keys [];
  requested_by = input.requested_by;
  required_capabilities = or_else input.required_capabilities [];
  result_artifact_key = none;
  schema_version = or_else input.schema_version "review-task.v1";
  scope_key = scope_of input;
  source_id = filled input.source_id;
  subject_id = subject_id;
  subject_type = or_else input.source_subject_type SubjectType.of_claim;
  status = ReviewTaskStatus.opened;
  task_type = input.task_type;
  updated_at = now;
}

unfoldable pub read_review_task : ℕ → ReviewStore → Option ReviewTask
read_review_task task_id s = elim (get task_id s.tasks) [
  | none ↦ none
  | some row ↦ some (map_review_task_row row)
]

unfoldable pub create_review_task :
    ℕ → CreateInput → ReviewStore → Result ReviewError (ℕ × Option ReviewTask) × ReviewStore
unfolding read_review_task
create_review_task now input s = elim (subject_of input) [
  | none ↦ (thrown review_task_subject_required, s)
  | some subject_id ↦
      elim (least_key
        (has_identity (or_else input.source_subject_type SubjectType.of_claim) subject_id
          input.task_type (scope_of input))
        s.tasks) [
          | some task_id ↦ (ok (task_id, read_review_task task_id s), s)
          | none ↦
              let s' = record s {
                tasks = (s.next_task, new_task now input subject_id) ∷ s.tasks;
                next_task = s.next_task + 1;
              } in
              (ok (s.next_task, read_review_task s.next_task s'), s')
        ]
]
