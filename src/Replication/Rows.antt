-- ===== src/Replication/Rows.antt =====
-- The rows of the replication jobs and their runs, as coordinator/store.ts declares them, and what its SQL statements
-- write into a row.
use scientific_protocol.Common.{
  ℕ, Bool, true, false, Option, none, some, String, str_eq, or_else, ◌&&◌,
}
use scientific_protocol.Lease.{ItemStatus, RunStatus, Columns, Store}

-- `ReplicationJobView`; its `jobId` is the key.
pub record ReplicationJob : Type 0 where
  pub assigned_agent_id : Option String
  pub assigned_at : Option ℕ
  pub assigned_worker : Option String
  pub claim_id : String
  pub completed_at : Option ℕ
  pub created_at : ℕ
  pub evidence_hash : Option String
  pub evidence_uri : Option String
  pub failure_reason : Option String
  pub onchain_replication_id : Option String
  pub requested_by : String
  pub request_id : Option String
  pub result_artifact_key : Option String
  pub result_hash : Option String
  pub spec_hash : String
  pub spec_uri : Option String
  pub status : ItemStatus
  pub submission_actor : Option String
  pub submission_tx_hash : Option String
  pub submitted_at : Option ℕ
  pub updated_at : ℕ

-- `ReplicationJobRunView`; its `runId` is the key.
pub record ReplicationJobRun : Type 0 where
  pub agent_id : Option String
  pub evidence_hash : Option String
  pub evidence_uri : Option String
  pub execution_manifest_hash : Option String
  pub failure_reason : Option String
  pub finished_at : Option ℕ
  pub job_id : ℕ
  pub last_heartbeat_at : Option ℕ
  pub request_id : Option String
  pub result_artifact_key : Option String
  pub result_hash : Option String
  pub started_at : ℕ
  pub status : RunStatus
  pub submission_tx_hash : Option String
  pub worker_id : String

abbrev pub JobStore : Type 0
JobStore = Store ReplicationJob ReplicationJobRun

abbrev pub columns : Columns ReplicationJob ReplicationJobRun
columns = record {
  item_status = λ job. job.status;
  run_status = λ run. run.status;
  run_item = λ run. run.job_id;
  run_beat = λ run. or_else run.last_heartbeat_at run.started_at;
}

-- What `expectPresent` throws.
pub data StoreError : Type 0 where
  job_missing : ℕ → StoreError
  run_missing : ℕ → StoreError

pub record ClaimedJob : Type 0 where
  pub job_id : ℕ
  pub job : ReplicationJob
  pub run_id : ℕ
  pub run : ReplicationJobRun

-- SET status = 'assigned', …
abbrev pub assign_job :
    (now : ℕ) (agent_id : Option String) (worker_id : String) → ReplicationJob → ReplicationJob
assign_job now agent_id worker_id job = record job {
  status = ItemStatus.assigned;
  assigned_worker = some worker_id;
  assigned_agent_id = agent_id;
  assigned_at = some now;
  updated_at = now;
}

-- INSERT INTO replication_job_runs
abbrev pub new_run :
    (now : ℕ) (agent_id : Option String) (worker_id : String) → ℕ → ReplicationJobRun
new_run now agent_id worker_id job_id = record {
  agent_id = agent_id;
  evidence_hash = none;
  evidence_uri = none;
  execution_manifest_hash = none;
  failure_reason = none;
  finished_at = none;
  job_id = job_id;
  last_heartbeat_at = some now;
  request_id = none;
  result_artifact_key = none;
  result_hash = none;
  started_at = now;
  status = RunStatus.running;
  submission_tx_hash = none;
  worker_id = worker_id;
}

pub record JobResult : Type 0 where
  pub evidence_hash : String
  pub evidence_uri : String
  pub execution_manifest_hash : String
  pub onchain_replication_id : Option String
  pub request_id : Option String
  pub result_artifact_key : String
  pub result_hash : String
  pub submission_actor : Option String
  pub submission_tx_hash : Option String

-- COALESCE(a, b)
abbrev pub coalesce : Option String → Option String → Option String
coalesce none b = b
coalesce (some a) b = some a

abbrev pub complete_job : ℕ → JobResult → ReplicationJob → ReplicationJob
complete_job now input job = record job {
  status = ItemStatus.completed;
  request_id = coalesce input.request_id job.request_id;
  result_artifact_key = some input.result_artifact_key;
  result_hash = some input.result_hash;
  evidence_hash = some input.evidence_hash;
  evidence_uri = some input.evidence_uri;
  onchain_replication_id = input.onchain_replication_id;
  submission_tx_hash = input.submission_tx_hash;
  submission_actor = input.submission_actor;
  submitted_at = some now;
  completed_at = some now;
  updated_at = now;
}

abbrev pub complete_run : ℕ → JobResult → ReplicationJobRun → ReplicationJobRun
complete_run now input run = record run {
  status = RunStatus.completed;
  request_id = coalesce input.request_id run.request_id;
  execution_manifest_hash = some input.execution_manifest_hash;
  result_artifact_key = some input.result_artifact_key;
  result_hash = some input.result_hash;
  evidence_hash = some input.evidence_hash;
  evidence_uri = some input.evidence_uri;
  submission_tx_hash = input.submission_tx_hash;
  finished_at = some now;
}

abbrev pub fail_job : ℕ → String → Option String → ReplicationJob → ReplicationJob
fail_job now reason request_id job = record job {
  status = ItemStatus.failed;
  request_id = coalesce request_id job.request_id;
  failure_reason = some reason;
  updated_at = now;
}

abbrev pub fail_run : ℕ → String → Option String → ReplicationJobRun → ReplicationJobRun
fail_run now reason request_id run = record run {
  status = RunStatus.failed;
  request_id = coalesce request_id run.request_id;
  failure_reason = some reason;
  finished_at = some now;
}

-- `$3::text IS NULL OR column = $3`
abbrev pub matches : Option String → Option String → Bool
matches none column = true
matches (some a) none = false
matches (some a) (some b) = str_eq b a

abbrev pub touch_job : ℕ → ReplicationJob → ReplicationJob
touch_job now job = record job { updated_at = now }

abbrev pub beat_run : ℕ → ReplicationJobRun → ReplicationJobRun
beat_run now run = record run { last_heartbeat_at = some now }

-- May this caller renew the run?
abbrev pub owns_run : (agent_id worker_id : Option String) → ReplicationJobRun → Bool
owns_run agent_id worker_id run =
    matches agent_id run.agent_id && matches worker_id (some run.worker_id)

abbrev pub reopen_job : ℕ → ReplicationJob → ReplicationJob
reopen_job now job = record job {
  status = ItemStatus.opened;
  assigned_worker = none;
  assigned_agent_id = none;
  assigned_at = none;
  updated_at = now;
}

abbrev pub time_out_run : ℕ → ReplicationJobRun → ReplicationJobRun
time_out_run now run = record run {
  status = RunStatus.failed;
  failure_reason = some "heartbeat_timeout";
  finished_at = some now;
}
