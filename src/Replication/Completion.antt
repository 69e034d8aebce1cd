-- ===== src/Replication/Completion.antt =====
-- The end of a replication run by its worker.
use scientific_protocol.Common.{
  if◌then◌else◌, ◌==◌, ℕ, ◌≡◌, refl, true, false, Option, none, some, String, arith, ==_iff, ok,
}
use scientific_protocol.Lease.{leases, item_is, is_assigned, finish}
use scientific_protocol.Lease.Invariant.{IsValid, leases-finish, assigned-finish}
use scientific_protocol.Replication.{
  ReplicationJob, JobStore, columns, JobResult, complete_replication_job, complete_job,
  complete_run, claim_replication_job_by_id, read_replication_job,
}
use scientific_protocol.Replication.Claims.{claim_not_open}

module _ (now k r : ℕ) (input : JobResult) (s : JobStore) where
  abbrev ended : JobStore
  ended = (complete_replication_job now k r input s).1

  leases-ended :
      (x j : ℕ) → leases columns ended x j ≡ (if r == x then false else leases columns s x j)
  unfolding complete_replication_job
  leases-ended x j =
      leases-finish columns s k r (complete_job now input) (complete_run now input) x j (λ _. refl)

  -- After a completion the job's row is completed.
  ended_row :
      (job : ReplicationJob)
      → s.items k ≡ some job
      → ended.items k ≡ some (complete_job now input job)
  unfolding complete_replication_job finish
  ended_row job e = rw ((==_iff k k).1 refl) (rw e)

  ended_answer :
      (job : ReplicationJob)
      → s.items k ≡ some job
      → (complete_replication_job now k r input s).0 ≡ ok (complete_job now input job)
  unfolding complete_replication_job finish
  ended_answer job e = rw ((==_iff k k).1 refl, read_replication_job) (rw (e, read_replication_job))

  ended_unassigned : item_is columns is_assigned ended k ≡ false
  unfolding complete_replication_job
  ended_unassigned = ground (
    arith,
    assigned-finish columns s k r (complete_job now input) (complete_run now input) k (λ _. refl),
  )

-- The worker that holds the lease of a job completes it: the caller gets the job with the results
-- written in, no run leases the job any more, and no later claim of it succeeds.
pub complete_ends_lease :
    (now k r : ℕ) (input : JobResult) (s : JobStore) (job : ReplicationJob) (later : ℕ)
    (agent_id : Option String) (worker_id : String)
    → IsValid columns s
    → s.items k ≡ some job
    → leases columns s r k ≡ true
    → let (answer, s') = complete_replication_job now k r input s in
      (answer ≡ ok (complete_job now input job))
      × ((x : ℕ) → leases columns s' x k ≡ false)
      × (claim_replication_job_by_id later agent_id worker_id k s' ≡ (ok none, s'))
complete_ends_lease now k r input s job later agent_id worker_id v e l =
    let row = ended_row now k r input s job e in
    (
      ended_answer now k r input s job e,
      λ x. ground (arith, leases-ended now k r input s x k, v.exclusive x r k),
      claim_not_open later agent_id worker_id k (ended now k r input s) (rw row),
    )
