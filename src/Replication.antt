-- ===== src/Replication.antt =====
-- The queue of replication jobs: src/coordinator/store.ts, tables `replication_jobs` and
-- `replication_job_runs`. `now` is the NOW() of the transaction, in milliseconds; keys are numbers.
mod Rows
pub mod Invariant
pub mod Claims
pub mod Expiry
pub mod Completion
pub mod Stranded
mod Tests
pub use Rows.*
use scientific_protocol.Common.{
  ℕ, ◌+◌, ◌-◌, Bool, true, false, Option, none, some, List, map, String, str_eq, or_else, min, max,
  ◌&&◌, Result, ok, thrown, slice, if◌then◌else◌, ◌==◌,
}
use scientific_protocol.Lease.{
  ItemStatus, RunStatus, Columns, Store, Candidate, insert_item, claim, finish, next_open, renew,
  stale_candidates, expire_all, expired_rows,
}
use Rows.{
  ReplicationJob, ReplicationJobRun, JobStore, columns, StoreError, job_missing, run_missing,
  ClaimedJob, assign_job, new_run, JobResult, coalesce, complete_job, complete_run, fail_job,
  fail_run, matches, touch_job, beat_run, owns_run, reopen_job, time_out_run,
}

pub read_replication_job : ℕ → JobStore → Result StoreError ReplicationJob
read_replication_job job_id s = elim (s.items job_id) [
  | none ↦ thrown (job_missing job_id)
  | some job ↦ ok job
]

pub create_replication_job :
    (now : ℕ) (claim_id requested_by spec_hash : String) (spec_uri : Option String)
    → JobStore
    → Result StoreError ReplicationJob × JobStore
unfolding read_replication_job
create_replication_job now claim_id requested_by spec_hash spec_uri s =
    let s' =
      insert_item columns
        (record {
          assigned_agent_id = none;
          assigned_at = none;
          assigned_worker = none;
          claim_id = claim_id;
          completed_at = none;
          created_at = now;
          evidence_hash = none;
          evidence_uri = none;
          failure_reason = none;
          onchain_replication_id = none;
          requested_by = requested_by;
          request_id = none;
          result_artifact_key = none;
          result_hash = none;
          spec_hash = spec_hash;
          spec_uri = spec_uri;
          status = ItemStatus.opened;
          submission_actor = none;
          submission_tx_hash = none;
          submitted_at = none;
          updated_at = now;
        })
        s in
    (read_replication_job s.next_item s', s')

-- The two reads behind a claim.
pub read_claimed : (job_id run_id : ℕ) → JobStore → Result StoreError (Option ClaimedJob)
read_claimed job_id run_id s = elim (s.items job_id) [
  | none ↦ thrown (job_missing job_id)
  | some job ↦ elim (s.runs run_id) [
    | none ↦ thrown (run_missing run_id)
    | some run ↦ ok (some (record { job_id = job_id; job = job; run_id = run_id; run = run }))
  ]
]

module _ (now : ℕ) (agent_id : Option String) (worker_id : String) where
  pub claim_replication_job_by_id : ℕ → JobStore → Result StoreError (Option ClaimedJob) × JobStore
  unfolding read_claimed
  claim_replication_job_by_id job_id s =
      let (run_id, s') =
        claim columns job_id (assign_job now agent_id worker_id)
          (new_run now agent_id worker_id job_id) s in
      (elim run_id [ none ↦ ok none | some r ↦ read_claimed job_id r s' ], s')

  pub claim_next_open_replication_job :
      (locked : ℕ → Bool) → JobStore → Result StoreError (Option ClaimedJob) × JobStore
  claim_next_open_replication_job locked s = elim (next_open columns locked (λ _. true) s) [
    | none ↦ (ok none, s)
    | some job_id ↦ claim_replication_job_by_id job_id s
  ]

pub complete_replication_job :
    ℕ → (job_id run_id : ℕ) → JobResult → JobStore → Result StoreError ReplicationJob × JobStore
unfolding read_replication_job
complete_replication_job now job_id run_id input s =
    let s' = finish columns job_id (complete_job now input) run_id (complete_run now input) s in
    (read_replication_job job_id s', s')

pub fail_replication_job :
    ℕ
    → (job_id run_id : ℕ) (failure_reason : String) (request_id : Option String) → JobStore
    → Result StoreError ReplicationJob × JobStore
unfolding read_replication_job
fail_replication_job now job_id run_id failure_reason request_id s =
    let reason = slice 2000 failure_reason in
    let s' =
      finish columns job_id (fail_job now reason request_id) run_id (fail_run now reason request_id)
        s in
    (read_replication_job job_id s', s')

pub heartbeat_replication_job_run :
    ℕ
    → (agent_id worker_id : Option String) (job_id run_id : ℕ) → JobStore
    → Option ReplicationJobRun × JobStore
heartbeat_replication_job_run now agent_id worker_id job_id run_id s =
    let (updated, s') =
      renew columns (owns_run agent_id worker_id) job_id (touch_job now) run_id (beat_run now) s in
    (if updated then s'.runs run_id else none, s')

-- `Math.max(1, Math.min(input.limit ?? 50, 200))`
pub reap_limit : Option ℕ → ℕ
reap_limit limit = max 1 (min (or_else limit 50) 200)

-- A difference below zero is before every time stamp, and so is 0.
pub expire_stale_replication_job_runs :
    (now : ℕ) (locked : ℕ → Bool) (limit : Option ℕ) (stale_after_ms : ℕ)
    → JobStore
    → List (ReplicationJobRun × ReplicationJob) × JobStore
unfolding reap_limit
expire_stale_replication_job_runs now locked limit stale_after_ms s =
    let picked = stale_candidates columns locked (now - stale_after_ms) (reap_limit limit) s in
    (
      expired_rows columns (reopen_job now) (time_out_run now) picked s,
      expire_all columns (reopen_job now) (time_out_run now) picked s,
    )
