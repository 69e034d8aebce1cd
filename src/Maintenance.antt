-- ===== src/Maintenance.antt =====
-- The queue of artifact maintenance tasks: src/coordinator/store.ts, tables
-- `artifact_maintenance_tasks` and `artifact_maintenance_task_runs`. `now` is the NOW() of the
-- transaction, in milliseconds; keys are numbers.
mod Rows
pub mod Invariant
pub mod Live
pub mod Identity
pub mod Creation
mod Tests
pub use Rows.*
use scientific_protocol.Common.{
  ℕ, ◌+◌, ◌-◌, Bool, true, false, ◌&&◌, ◌||◌, not, Option, none, some, List, String, str_eq,
  or_else, min, max, Result, ok, thrown, slice, if◌then◌else◌,
}
use scientific_protocol.Lease.{
  ItemStatus, RunStatus, Columns, Store, is_open, is_assigned, first_key, row_passes, insert_item,
  claim, finish, next_open, renew, stale_candidates, expire_all, expired_rows,
}
use Rows.{
  TaskType, audit, repair, MaintenanceTask, MaintenanceRun, TaskStore, columns, StoreError,
  task_missing, run_missing, ClaimedTask, type_eq, is_active, same_identity, new_task, assign_task,
  new_run, of_type, complete_task, complete_run, fail_task, fail_run, matches, owns_run, touch_task,
  beat_run, reopen_task, time_out_run,
}

pub read_task : ℕ → TaskStore → Result StoreError (ℕ × MaintenanceTask)
read_task task_id s = elim (s.items task_id) [
  | none ↦ thrown (task_missing task_id)
  | some task ↦ ok (task_id, task)
]

-- The SELECT of a live task with the same identity.
pub existing_task : String → TaskType → Option String → TaskStore → Option ℕ
existing_task artifact_key task_type target_replica_key s = first_key s.next_item 0 λ k.
    row_passes
      (λ task.
        is_active task.status && same_identity artifact_key task_type target_replica_key task)
      (s.items k)

pub create_artifact_maintenance_task :
    (now : ℕ) (artifact_key requested_by : String)
    (target_provider target_replica_key : Option String)
    → TaskType
    → TaskStore
    → Result StoreError (ℕ × MaintenanceTask) × TaskStore
unfolding read_task
create_artifact_maintenance_task now artifact_key requested_by target_provider target_replica_key
      task_type s =
    elim (existing_task artifact_key task_type target_replica_key s) [
      | some task_id ↦ (read_task task_id s, s)
      | none ↦
          let s' =
            insert_item columns
              (new_task now artifact_key requested_by target_provider target_replica_key task_type)
              s in
          (read_task s.next_item s', s')
    ]

-- The two reads behind a claim.
pub read_claimed : (task_id run_id : ℕ) → TaskStore → Result StoreError (Option ClaimedTask)
read_claimed task_id run_id s = elim (s.items task_id) [
  | none ↦ thrown (task_missing task_id)
  | some task ↦ elim (s.runs run_id) [
    | none ↦ thrown (run_missing run_id)
    | some run ↦ ok (some (record { task_id = task_id; task = task; run_id = run_id; run = run }))
  ]
]

module _ (now : ℕ) (agent_id : Option String) (worker_id : String) where
  pub claim_artifact_maintenance_task_by_id :
      ℕ → TaskStore → Result StoreError (Option ClaimedTask) × TaskStore
  unfolding read_claimed
  claim_artifact_maintenance_task_by_id task_id s =
      let (run_id, s') =
        claim columns task_id (assign_task now agent_id worker_id)
          (new_run now agent_id worker_id task_id) s in
      (elim run_id [ none ↦ ok none | some r ↦ read_claimed task_id r s' ], s')

  pub claim_next_open_artifact_maintenance_task :
      (locked : ℕ → Bool)
      → Option TaskType
      → TaskStore
      → Result StoreError (Option ClaimedTask) × TaskStore
  claim_next_open_artifact_maintenance_task locked task_type s =
      elim (next_open columns locked (of_type task_type) s) [
        | none ↦ (ok none, s)
        | some task_id ↦ claim_artifact_maintenance_task_by_id task_id s
      ]

pub complete_artifact_maintenance_task :
    (now : ℕ) (repair_locator repair_source_replica_key : Option String)
    (result_artifact_key : String) (run_id task_id : ℕ)
    → TaskStore
    → Result StoreError (ℕ × MaintenanceTask) × TaskStore
unfolding read_task
complete_artifact_maintenance_task now repair_locator repair_source_replica_key result_artifact_key
      run_id task_id s =
    let s' =
      finish columns task_id
        (complete_task now repair_locator repair_source_replica_key result_artifact_key) run_id
        (complete_run now result_artifact_key) s in
    (read_task task_id s', s')

pub fail_artifact_maintenance_task :
    ℕ
    → (failure_reason : String) (run_id task_id : ℕ) → TaskStore
    → Result StoreError (ℕ × MaintenanceTask) × TaskStore
unfolding read_task
fail_artifact_maintenance_task now failure_reason run_id task_id s =
    let reason = slice 2000 failure_reason in
    let s' = finish columns task_id (fail_task now reason) run_id (fail_run now reason) s in
    (read_task task_id s', s')

pub heartbeat_artifact_maintenance_task_run :
    ℕ
    → (agent_id worker_id : Option String) (run_id task_id : ℕ) → TaskStore
    → Option MaintenanceRun × TaskStore
heartbeat_artifact_maintenance_task_run now agent_id worker_id run_id task_id s =
    let (updated, s') =
      renew columns (owns_run agent_id worker_id) task_id (touch_task now) run_id (beat_run now)
        s in
    (if updated then s'.runs run_id else none, s')

-- `Math.max(1, Math.min(input.limit ?? 50, 200))`
pub reap_limit : Option ℕ → ℕ
reap_limit limit = max 1 (min (or_else limit 50) 200)

-- A difference below zero is before every time stamp, and so is 0.
pub expire_stale_artifact_maintenance_task_runs :
    (now : ℕ) (locked : ℕ → Bool) (limit : Option ℕ) (stale_after_ms : ℕ)
    → TaskStore
    → List (MaintenanceRun × MaintenanceTask) × TaskStore
unfolding reap_limit
expire_stale_artifact_maintenance_task_runs now locked limit stale_after_ms s =
    let picked = stale_candidates columns locked (now - stale_after_ms) (reap_limit limit) s in
    (
      expired_rows columns (reopen_task now) (time_out_run now) picked s,
      expire_all columns (reopen_task now) (time_out_run now) picked s,
    )
