-- ===== src/Replication/Invariant.antt =====
-- Every state that the queue of replication jobs reaches is valid.
use scientific_protocol.Common.{
  ℕ, ◌≡◌, refl, Bool, true, Option, none, String, arith, inl, inr, Option-cases,
}
use scientific_protocol.Lease.{leases, next_open}
use scientific_protocol.Lease.Invariant.{IsValid, insert_item-IsValid, claim-IsValid}
use scientific_protocol.Lease.Claims.{renew-IsValid}
use scientific_protocol.Lease.Expiry.{
  IsLease, All-stale_candidates, candidate-IsLease, expire_all-IsValid, end_lease-IsValid,
}
use scientific_protocol.Replication.{
  JobStore, columns, JobResult, create_replication_job, claim_replication_job_by_id,
  claim_next_open_replication_job, complete_replication_job, fail_replication_job,
  heartbeat_replication_job_run, expire_stale_replication_job_runs, assign_job, new_run, reopen_job,
  time_out_run,
}

abbrev pub empty_store : JobStore
empty_store = record { items = λ _. none; runs = λ _. none; next_item = 1; next_run = 1 }

-- One committed transaction. A worker that completes or fails a job holds its lease.
pub data Step : JobStore → JobStore → Type 0 where
  create :
      {s : JobStore} (now : ℕ) (claim_id requested_by spec_hash : String) (spec_uri : Option String)
      → Step s (create_replication_job now claim_id requested_by spec_hash spec_uri s).1
  claim_by_id :
      {s : JobStore} (now : ℕ) (agent_id : Option String) (worker_id : String) (job_id : ℕ)
      → Step s (claim_replication_job_by_id now agent_id worker_id job_id s).1
  claim_next :
      {s : JobStore} (now : ℕ) (agent_id : Option String) (worker_id : String) (locked : ℕ → Bool)
      → Step s (claim_next_open_replication_job now agent_id worker_id locked s).1
  heartbeat :
      {s : JobStore} (now : ℕ) (agent_id worker_id : Option String) (job_id run_id : ℕ)
      → Step s (heartbeat_replication_job_run now agent_id worker_id job_id run_id s).1
  complete :
      {s : JobStore} (now job_id run_id : ℕ) (input : JobResult)
      → leases columns s run_id job_id ≡ true
      → Step s (complete_replication_job now job_id run_id input s).1
  fail :
      {s : JobStore} (now job_id run_id : ℕ) (reason : String) (request_id : Option String)
      → leases columns s run_id job_id ≡ true
      → Step s (fail_replication_job now job_id run_id reason request_id s).1
  expire :
      {s : JobStore} (now : ℕ) (locked : ℕ → Bool) (limit : Option ℕ) (stale_after_ms : ℕ)
      → Step s (expire_stale_replication_job_runs now locked limit stale_after_ms s).1

pub data Reach (s : JobStore) : JobStore → Type 0 where
  here : Reach s s
  next : {t u : JobStore} → Reach s t → Step t u → Reach s u

empty_store-IsValid : IsValid columns empty_store
empty_store-IsValid = ground arith

claim_by_id-IsValid :
    {s : JobStore} (now : ℕ) (agent_id : Option String) (worker_id : String) (job_id : ℕ)
    → IsValid columns s
    → IsValid columns (claim_replication_job_by_id now agent_id worker_id job_id s).1
unfolding claim_replication_job_by_id
claim_by_id-IsValid now agent_id worker_id job_id v =
    claim-IsValid columns job_id (assign_job now agent_id worker_id)
      (new_run now agent_id worker_id job_id) v (λ job. refl) refl refl

pub expire-IsValid :
    {s : JobStore} (now : ℕ) (locked : ℕ → Bool) (limit : Option ℕ) (stale_after_ms : ℕ)
    → IsValid columns s
    → IsValid columns (expire_stale_replication_job_runs now locked limit stale_after_ms s).1
unfolding expire_stale_replication_job_runs
expire-IsValid {s} now locked limit stale_after_ms v =
    expire_all-IsValid columns (reopen_job now) (time_out_run now) (λ _. refl) (λ _. refl) _ s v
      (All-stale_candidates columns (IsLease columns s) locked _ _ s
        λ r _ e. candidate-IsLease columns _ r v e)

-- Every transaction keeps the invariant.
pub Step-IsValid : {s t : JobStore} → Step s t → IsValid columns s → IsValid columns t
unfolding create_replication_job complete_replication_job fail_replication_job
    claim_next_open_replication_job heartbeat_replication_job_run
Step-IsValid (create now c q h u) v = insert_item-IsValid columns _ v refl
Step-IsValid (claim_by_id now a w k) v = claim_by_id-IsValid now a w k v
Step-IsValid {s} (claim_next now a w locked) v =
    elim (Option-cases (next_open columns locked (λ _. true) s)) [
      | inl e ↦ rw (e, claim_next_open_replication_job) v
      | inr (k, e) ↦ rw (e, claim_next_open_replication_job) (claim_by_id-IsValid now a w k v)
    ]
Step-IsValid (heartbeat now a w k r) v =
    renew-IsValid columns _ k r _ _ v (λ _. refl) (λ _. refl) (λ _. refl)
Step-IsValid {s} (complete now k r input l) v =
    end_lease-IsValid columns s k r _ _ v l (λ _. refl) (λ _. refl)
Step-IsValid {s} (fail now k r reason q l) v =
    end_lease-IsValid columns s k r _ _ v l (λ _. refl) (λ _. refl)
Step-IsValid (expire now locked limit ms) v = expire-IsValid now locked limit ms v

-- In every state that the queue reaches from the empty tables, where only the holder of a lease completes or fails its
-- job, a running run belongs to an assigned
-- job, no two running runs share a job, every assigned job has a running run, and the next keys are
-- unused.
pub Reach-IsValid : {s : JobStore} → Reach empty_store s → IsValid columns s
Reach-IsValid here = empty_store-IsValid
Reach-IsValid (next r st) = Step-IsValid st (Reach-IsValid r)
