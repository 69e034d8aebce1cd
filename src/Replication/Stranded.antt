-- ===== src/Replication/Stranded.antt =====
-- What follows when a worker that has lost its lease completes the job all the same: a defect of the two UPDATE
-- statements of `completeReplicationJob`, each of which names its own key only.
use scientific_protocol.Common.{
  ℕ, ◌<◌, ◌≡◌, refl, ◌≢◌, Bool, true, false, Option, String, arith, inl, inr, Option-cases,
  Bool-cases, leb,
}
use scientific_protocol.Lease.{finish, leases, item_is, is_assigned, next_open}
use scientific_protocol.Lease.Invariant.{IsValid, leases-finish}
use scientific_protocol.Lease.Stranded.{
  is_done, IsStranded, done-not_assigned, insert_item-IsStranded, claim-IsStranded,
  finish-IsStranded, renew-IsStranded, expire_all-IsStranded,
}
use scientific_protocol.Replication.{
  JobStore, columns, JobResult, create_replication_job, claim_replication_job_by_id,
  claim_next_open_replication_job, complete_replication_job, fail_replication_job,
  heartbeat_replication_job_run, expire_stale_replication_job_runs, assign_job, new_run, reopen_job,
  time_out_run, complete_job, complete_run,
}

-- One committed transaction of any caller, but for the completion and the failure of the run `x` itself. A completion or a
-- failure names any job and any other run.
pub data OtherStep (x : ℕ) : JobStore → JobStore → Type 0 where
  create :
      {s : JobStore} (now : ℕ) (claim_id requested_by spec_hash : String) (spec_uri : Option String)
      → OtherStep x s (create_replication_job now claim_id requested_by spec_hash spec_uri s).1
  claim_by_id :
      {s : JobStore} (now : ℕ) (agent_id : Option String) (worker_id : String) (job_id : ℕ)
      → OtherStep x s (claim_replication_job_by_id now agent_id worker_id job_id s).1
  claim_next :
      {s : JobStore} (now : ℕ) (agent_id : Option String) (worker_id : String) (locked : ℕ → Bool)
      → OtherStep x s (claim_next_open_replication_job now agent_id worker_id locked s).1
  heartbeat :
      {s : JobStore} (now : ℕ) (agent_id worker_id : Option String) (job_id run_id : ℕ)
      → OtherStep x s (heartbeat_replication_job_run now agent_id worker_id job_id run_id s).1
  complete :
      {s : JobStore} (now job_id run_id : ℕ) (input : JobResult)
      → run_id ≢ x
      → OtherStep x s (complete_replication_job now job_id run_id input s).1
  fail :
      {s : JobStore} (now job_id run_id : ℕ) (reason : String) (request_id : Option String)
      → run_id ≢ x
      → OtherStep x s (fail_replication_job now job_id run_id reason request_id s).1
  expire :
      {s : JobStore} (now : ℕ) (locked : ℕ → Bool) (limit : Option ℕ) (stale_after_ms : ℕ)
      → OtherStep x s (expire_stale_replication_job_runs now locked limit stale_after_ms s).1

-- A history of such transactions.
pub data OtherSteps (x : ℕ) (s : JobStore) : JobStore → Type 0 where
  here : OtherSteps x s s
  next : {t u : JobStore} → OtherSteps x s t → OtherStep x t u → OtherSteps x s u

claim_by_id-IsStranded :
    {x k : ℕ} {s : JobStore} (now : ℕ) (agent_id : Option String) (worker_id : String) (job_id : ℕ)
    → IsStranded columns x k s
    → IsStranded columns x k (claim_replication_job_by_id now agent_id worker_id job_id s).1
unfolding claim_replication_job_by_id
claim_by_id-IsStranded now a w j v =
    claim-IsStranded columns v j (assign_job now a w) (new_run now a w j) refl refl

OtherStep-IsStranded :
    {x k : ℕ} {s t : JobStore}
    → OtherStep x s t
    → IsStranded columns x k s
    → IsStranded columns x k t
unfolding create_replication_job complete_replication_job fail_replication_job
    claim_next_open_replication_job heartbeat_replication_job_run expire_stale_replication_job_runs
OtherStep-IsStranded (create now c q h u) v = insert_item-IsStranded columns v _
OtherStep-IsStranded (claim_by_id now a w j) v = claim_by_id-IsStranded now a w j v
OtherStep-IsStranded {s} (claim_next now a w locked) v =
    elim (Option-cases (next_open columns locked (λ _. true) s)) [
      | inl e ↦ rw (e, claim_next_open_replication_job) v
      | inr (j, e) ↦ rw (e, claim_next_open_replication_job) (claim_by_id-IsStranded now a w j v)
    ]
OtherStep-IsStranded (heartbeat now a w j r) v =
    renew-IsStranded columns v _ j r _ _ (λ _. refl) (λ _. refl) (λ _. refl)
OtherStep-IsStranded (complete now j r input ne) v =
    finish-IsStranded columns v j r _ _ ne (λ _. refl) (λ _. refl)
OtherStep-IsStranded (fail now j r reason q ne) v =
    finish-IsStranded columns v j r _ _ ne (λ _. refl) (λ _. refl)
OtherStep-IsStranded (expire now locked limit ms) v =
    expire_all-IsStranded columns (reopen_job now) (time_out_run now) (λ _. refl) (λ _. refl) locked
      _ _ v

OtherSteps-IsStranded :
    {x k : ℕ} {s t : JobStore}
    → OtherSteps x s t
    → IsStranded columns x k s
    → IsStranded columns x k t
OtherSteps-IsStranded here v = v
OtherSteps-IsStranded (next h st) v = OtherStep-IsStranded st (OtherSteps-IsStranded h v)

run_in_use :
    (s : JobStore) (x k : ℕ) → IsValid columns s → leases columns s x k ≡ true → x < s.next_run
run_in_use s x k v l = elim (Bool-cases (leb s.next_run x)) [
  | inl e ↦ ground (arith, v.fresh_run x (ground arith), l)
  | inr e ↦ ground arith
]

item_in_use :
    (s : JobStore) (x k : ℕ) → IsValid columns s → leases columns s x k ≡ true → k < s.next_item
item_in_use s x k v l = elim (Bool-cases (leb s.next_item k)) [
  | inl e ↦ ground (arith, v.fresh_item k (ground arith), v.held x k l)
  | inr e ↦ ground arith
]

completed_done :
    (now k r x : ℕ) (input : JobResult) (s : JobStore)
    → IsValid columns s
    → leases columns s x k ≡ true
    → item_is columns is_done (complete_replication_job now k r input s).1 k ≡ true
unfolding complete_replication_job finish
completed_done now k r x input s v l = elim (Option-cases (s.items k)) [
  | inl e ↦ ground (arith, v.held x k l)
  | inr (job, e) ↦ ground arith
]

completed-IsStranded :
    (now k r x : ℕ) (input : JobResult) (s : JobStore)
    → IsValid columns s
    → leases columns s x k ≡ true
    → r ≢ x
    → IsStranded columns x k (complete_replication_job now k r input s).1
completed-IsStranded now k r x input s v l ne = record {
  runs_on =
      unfold complete_replication_job in
      ground (
        arith,
        leases-finish columns s k r (complete_job now input) (complete_run now input) x k
            (λ _. refl),
        l,
      );
  done = completed_done now k r x input s v l;
  old_run = unfold complete_replication_job finish in run_in_use s x k v l;
  old_item = unfold complete_replication_job finish in item_in_use s x k v l;
}

-- In a state that satisfies the invariant the run `x` leases a job, and a worker completes the job in the name of another
-- run. Then after every history of further transactions, heartbeats and reapings at any time and with any limit among them,
-- that has no completion or failure of `x` itself, `x` still runs for the job, and the job is not assigned.
pub stale_completion_strands :
    (now k r x : ℕ) (input : JobResult) (s t : JobStore)
    → IsValid columns s
    → leases columns s x k ≡ true
    → r ≢ x
    → OtherSteps x (complete_replication_job now k r input s).1 t
    → (leases columns t x k ≡ true) × (item_is columns is_assigned t k ≡ false)
stale_completion_strands now k r x input s t v l ne h =
    let stranded = OtherSteps-IsStranded h (completed-IsStranded now k r x input s v l ne) in
    (stranded.runs_on, done-not_assigned columns t k stranded.done)
