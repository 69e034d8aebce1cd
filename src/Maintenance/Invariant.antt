-- ===== src/Maintenance/Invariant.antt =====
-- Every state that the queue of maintenance tasks reaches is valid.
use scientific_protocol.Common.{
  ℕ, ◌≡◌, refl, Bool, true, Option, none, String, arith, inl, inr, Option-cases,
}
use scientific_protocol.Lease.{leases, next_open}
use scientific_protocol.Lease.Invariant.{IsValid, insert_item-IsValid, claim-IsValid}
use scientific_protocol.Lease.Claims.{renew-IsValid}
use scientific_protocol.Lease.Expiry.{
  IsLease, All-stale_candidates, candidate-IsLease, expire_all-IsValid, end_lease-IsValid,
}
use scientific_protocol.Maintenance.{
  TaskStore, columns, TaskType, existing_task, of_type, create_artifact_maintenance_task,
  claim_artifact_maintenance_task_by_id, claim_next_open_artifact_maintenance_task,
  complete_artifact_maintenance_task, fail_artifact_maintenance_task,
  heartbeat_artifact_maintenance_task_run, expire_stale_artifact_maintenance_task_runs, assign_task,
  new_run, reopen_task, time_out_run,
}

abbrev pub empty_store : TaskStore
empty_store = record { items = λ _. none; runs = λ _. none; next_item = 1; next_run = 1 }

-- One committed transaction. A worker that completes or fails a task holds its lease.
pub data Step : TaskStore → TaskStore → Type 0 where
  create :
      {s : TaskStore} (now : ℕ) (artifact_key requested_by : String)
      (target_provider target_replica_key : Option String) (task_type : TaskType)
      → Step s
          (create_artifact_maintenance_task now artifact_key requested_by target_provider
            target_replica_key task_type s).1
  claim_by_id :
      {s : TaskStore} (now : ℕ) (agent_id : Option String) (worker_id : String) (task_id : ℕ)
      → Step s (claim_artifact_maintenance_task_by_id now agent_id worker_id task_id s).1
  claim_next :
      {s : TaskStore} (now : ℕ) (agent_id : Option String) (worker_id : String) (locked : ℕ → Bool)
      (task_type : Option TaskType)
      → Step s
          (claim_next_open_artifact_maintenance_task now agent_id worker_id locked task_type s).1
  heartbeat :
      {s : TaskStore} (now : ℕ) (agent_id worker_id : Option String) (run_id task_id : ℕ)
      → Step s (heartbeat_artifact_maintenance_task_run now agent_id worker_id run_id task_id s).1
  complete :
      {s : TaskStore} (now : ℕ) (repair_locator repair_source_replica_key : Option String)
      (result_artifact_key : String) (run_id task_id : ℕ)
      → leases columns s run_id task_id ≡ true
      → Step s
          (complete_artifact_maintenance_task now repair_locator repair_source_replica_key
            result_artifact_key run_id task_id s).1
  fail :
      {s : TaskStore} (now : ℕ) (failure_reason : String) (run_id task_id : ℕ)
      → leases columns s run_id task_id ≡ true
      → Step s (fail_artifact_maintenance_task now failure_reason run_id task_id s).1
  expire :
      {s : TaskStore} (now : ℕ) (locked : ℕ → Bool) (limit : Option ℕ) (stale_after_ms : ℕ)
      → Step s (expire_stale_artifact_maintenance_task_runs now locked limit stale_after_ms s).1

pub data Reach (s : TaskStore) : TaskStore → Type 0 where
  here : Reach s s
  next : {t u : TaskStore} → Reach s t → Step t u → Reach s u

empty_store-IsValid : IsValid columns empty_store
empty_store-IsValid = ground arith

claim_by_id-IsValid :
    {s : TaskStore} (now : ℕ) (agent_id : Option String) (worker_id : String) (task_id : ℕ)
    → IsValid columns s
    → IsValid columns (claim_artifact_maintenance_task_by_id now agent_id worker_id task_id s).1
unfolding claim_artifact_maintenance_task_by_id
claim_by_id-IsValid now agent_id worker_id task_id v =
    claim-IsValid columns task_id (assign_task now agent_id worker_id)
      (new_run now agent_id worker_id task_id) v (λ task. refl) refl refl

pub expire-IsValid :
    {s : TaskStore} (now : ℕ) (locked : ℕ → Bool) (limit : Option ℕ) (stale_after_ms : ℕ)
    → IsValid columns s
    → IsValid columns
        (expire_stale_artifact_maintenance_task_runs now locked limit stale_after_ms s).1
unfolding expire_stale_artifact_maintenance_task_runs
expire-IsValid {s} now locked limit stale_after_ms v =
    expire_all-IsValid columns (reopen_task now) (time_out_run now) (λ _. refl) (λ _. refl) _ s v
      (All-stale_candidates columns (IsLease columns s) locked _ _ s
        λ r _ e. candidate-IsLease columns _ r v e)

pub create-IsValid :
    {s : TaskStore} (now : ℕ) (artifact_key requested_by : String)
    (target_provider target_replica_key : Option String) (task_type : TaskType)
    → IsValid columns s
    → IsValid columns
        (create_artifact_maintenance_task now artifact_key requested_by target_provider
          target_replica_key task_type s).1
unfolding create_artifact_maintenance_task
create-IsValid {s} now a q p t ty v = elim (Option-cases (existing_task a ty t s)) [
  | inl e ↦ rw (e, create_artifact_maintenance_task) (insert_item-IsValid columns _ v refl)
  | inr (k, e) ↦ rw (e, create_artifact_maintenance_task) v
]

-- Every transaction keeps the invariant.
pub Step-IsValid : {s t : TaskStore} → Step s t → IsValid columns s → IsValid columns t
unfolding claim_next_open_artifact_maintenance_task heartbeat_artifact_maintenance_task_run
    complete_artifact_maintenance_task fail_artifact_maintenance_task
Step-IsValid (create now a q p t ty) v = create-IsValid now a q p t ty v
Step-IsValid (claim_by_id now a w k) v = claim_by_id-IsValid now a w k v
Step-IsValid {s} (claim_next now a w locked ty) v =
    elim (Option-cases (next_open columns locked (of_type ty) s)) [
      | inl e ↦ rw (e, claim_next_open_artifact_maintenance_task) v
      | inr (k, e) ↦
          rw (e, claim_next_open_artifact_maintenance_task) (claim_by_id-IsValid now a w k v)
    ]
Step-IsValid (heartbeat now a w r k) v =
    renew-IsValid columns _ k r _ _ v (λ _. refl) (λ _. refl) (λ _. refl)
Step-IsValid {s} (complete now x y z r k l) v =
    end_lease-IsValid columns s k r _ _ v l (λ _. refl) (λ _. refl)
Step-IsValid {s} (fail now reason r k l) v =
    end_lease-IsValid columns s k r _ _ v l (λ _. refl) (λ _. refl)
Step-IsValid (expire now locked limit ms) v = expire-IsValid now locked limit ms v

-- In every state that the queue reaches from the empty tables, where only the holder of a lease completes or fails its
-- task, a running run belongs to an assigned
-- task, no two running runs share a task, every assigned task has a running run, and the next keys are
-- unused.
pub Reach-IsValid_of_tasks : {s : TaskStore} → Reach empty_store s → IsValid columns s
Reach-IsValid_of_tasks here = empty_store-IsValid
Reach-IsValid_of_tasks (next r st) = Step-IsValid st (Reach-IsValid_of_tasks r)
