-- ===== src/Maintenance/Rows.antt =====
-- The rows of the maintenance tasks and their runs, as coordinator/store.ts declares them, and what its SQL statements
-- write into a row.
use scientific_protocol.Common.{
  ℕ, Bool, true, false, ◌&&◌, ◌||◌, Option, none, some, String, str_eq, or_else,
}
use scientific_protocol.Lease.{ItemStatus, RunStatus, Columns, Store, is_open, is_assigned}

pub data TaskType : Type 0 where
  audit repair : TaskType

-- `ArtifactMaintenanceTaskView`; its `taskId` is the key.
pub record MaintenanceTask : Type 0 where
  pub artifact_key : String
  pub assigned_agent_id : Option String
  pub assigned_at : Option ℕ
  pub assigned_worker : Option String
  pub completed_at : Option ℕ
  pub created_at : ℕ
  pub failure_reason : Option String
  pub repair_locator : Option String
  pub repair_source_replica_key : Option String
  pub requested_by : String
  pub result_artifact_key : Option String
  pub status : ItemStatus
  pub target_provider : Option String
  pub target_replica_key : Option String
  pub task_type : TaskType
  pub updated_at : ℕ

-- `ArtifactMaintenanceTaskRunView`; its `runId` is the key.
pub record MaintenanceRun : Type 0 where
  pub agent_id : Option String
  pub failure_reason : Option String
  pub finished_at : Option ℕ
  pub last_heartbeat_at : Option ℕ
  pub started_at : ℕ
  pub status : RunStatus
  pub summary_artifact_key : Option String
  pub task_id : ℕ
  pub worker_id : String

abbrev pub TaskStore : Type 0
TaskStore = Store MaintenanceTask MaintenanceRun

abbrev pub columns : Columns MaintenanceTask MaintenanceRun
columns = record {
  item_status = λ task. task.status;
  run_status = λ run. run.status;
  run_item = λ run. run.task_id;
  run_beat = λ run. or_else run.last_heartbeat_at run.started_at;
}

-- What `expectPresent` throws.
pub data StoreError : Type 0 where
  task_missing : ℕ → StoreError
  run_missing : ℕ → StoreError

pub record ClaimedTask : Type 0 where
  pub task_id : ℕ
  pub task : MaintenanceTask
  pub run_id : ℕ
  pub run : MaintenanceRun

abbrev pub type_eq : TaskType → TaskType → Bool
type_eq audit audit = true
type_eq repair repair = true
type_eq _ _ = false

-- `status IN ('open', 'assigned')`
abbrev pub is_active : ItemStatus → Bool
is_active status = is_open status || is_assigned status

-- The key under which the live tasks are unique.
abbrev pub same_identity : String → TaskType → Option String → MaintenanceTask → Bool
same_identity artifact_key task_type target_replica_key task =
    str_eq task.artifact_key artifact_key
    && type_eq task.task_type task_type
    && str_eq (or_else task.target_replica_key "") (or_else target_replica_key "")

abbrev pub new_task :
    (now : ℕ) (artifact_key requested_by : String)
    (target_provider target_replica_key : Option String)
    → TaskType
    → MaintenanceTask
new_task now artifact_key requested_by target_provider target_replica_key task_type = record {
  artifact_key = artifact_key;
  assigned_agent_id = none;
  assigned_at = none;
  assigned_worker = none;
  completed_at = none;
  created_at = now;
  failure_reason = none;
  repair_locator = none;
  repair_source_replica_key = none;
  requested_by = requested_by;
  result_artifact_key = none;
  status = ItemStatus.opened;
  target_provider = target_provider;
  target_replica_key = target_replica_key;
  task_type = task_type;
  updated_at = now;
}

-- SET status = 'assigned', …
abbrev pub assign_task :
    (now : ℕ) (agent_id : Option String) (worker_id : String) → MaintenanceTask → MaintenanceTask
assign_task now agent_id worker_id task = record task {
  status = ItemStatus.assigned;
  assigned_worker = some worker_id;
  assigned_agent_id = agent_id;
  assigned_at = some now;
  updated_at = now;
}

-- INSERT INTO artifact_maintenance_task_runs
abbrev pub new_run : (now : ℕ) (agent_id : Option String) (worker_id : String) → ℕ → MaintenanceRun
new_run now agent_id worker_id task_id = record {
  agent_id = agent_id;
  failure_reason = none;
  finished_at = none;
  last_heartbeat_at = some now;
  started_at = now;
  status = RunStatus.running;
  summary_artifact_key = none;
  task_id = task_id;
  worker_id = worker_id;
}

-- `$3::text IS NULL OR task_type = $3`
abbrev pub of_type : Option TaskType → MaintenanceTask → Bool
of_type none task = true
of_type (some task_type) task = type_eq task.task_type task_type

abbrev pub complete_task :
    (now : ℕ) (repair_locator repair_source_replica_key : Option String)
    (result_artifact_key : String)
    → MaintenanceTask
    → MaintenanceTask
complete_task now repair_locator repair_source_replica_key result_artifact_key task = record task {
  status = ItemStatus.completed;
  result_artifact_key = some result_artifact_key;
  repair_source_replica_key = repair_source_replica_key;
  repair_locator = repair_locator;
  completed_at = some now;
  updated_at = now;
}

abbrev pub complete_run : (now : ℕ) (result_artifact_key : String) → MaintenanceRun → MaintenanceRun
complete_run now result_artifact_key run = record run {
  status = RunStatus.completed;
  summary_artifact_key = some result_artifact_key;
  finished_at = some now;
}

abbrev pub fail_task : ℕ → String → MaintenanceTask → MaintenanceTask
fail_task now reason task = record task {
  status = ItemStatus.failed;
  failure_reason = some reason;
  updated_at = now;
}

abbrev pub fail_run : ℕ → String → MaintenanceRun → MaintenanceRun
fail_run now reason run = record run {
  status = RunStatus.failed;
  failure_reason = some reason;
  finished_at = some now;
}

-- `$3::text IS NULL OR column = $3`
abbrev pub matches : Option String → Option String → Bool
matches none column = true
matches (some a) none = false
matches (some a) (some b) = str_eq b a

abbrev pub owns_run : (agent_id worker_id : Option String) → MaintenanceRun → Bool
owns_run agent_id worker_id run =
    matches agent_id run.agent_id && matches worker_id (some run.worker_id)

abbrev pub touch_task : ℕ → MaintenanceTask → MaintenanceTask
touch_task now task = record task { updated_at = now }

abbrev pub beat_run : ℕ → MaintenanceRun → MaintenanceRun
beat_run now run = record run { last_heartbeat_at = some now }

abbrev pub reopen_task : ℕ → MaintenanceTask → MaintenanceTask
reopen_task now task = record task {
  status = ItemStatus.opened;
  assigned_worker = none;
  assigned_agent_id = none;
  assigned_at = none;
  updated_at = now;
}

abbrev pub time_out_run : ℕ → MaintenanceRun → MaintenanceRun
time_out_run now run = record run {
  status = RunStatus.failed;
  failure_reason = some "heartbeat_timeout";
  finished_at = some now;
}
