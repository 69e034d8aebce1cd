-- ===== src/Replication/Claims.antt =====
-- What a claim of a replication job gives, and to whom.
use scientific_protocol.Common.{
  ℕ, ◌<◌, ◌≡◌, refl, Bool, true, false, Option, none, some, String, arith, inl, inr, Option-cases,
  ok, ◌==◌, ◌⊎◌, ==_iff,
}
use scientific_protocol.Lease.{ItemStatus, is_takeable, leases, item_is, is_open, next_open}
use scientific_protocol.Lease.Invariant.{IsValid, claimed, leases-eq-false_of_open}
use scientific_protocol.Lease.Claims.{
  claim-of_open, claim-of_not_open, claimed-sole, next_open-eq-some, next_open-eq-none,
}
use scientific_protocol.Replication.{
  ReplicationJob, ReplicationJobRun, JobStore, ClaimedJob, columns, claim_replication_job_by_id,
  claim_next_open_replication_job, assign_job, new_run, read_claimed,
}

read_claimed_lem :
    (k r : ℕ) (s : JobStore) (job : ReplicationJob) (run : ReplicationJobRun)
    → s.items k ≡ some job
    → s.runs r ≡ some run
    → read_claimed k r s ≡ ok (some (record { job_id = k; job = job; run_id = r; run = run }))
unfolding read_claimed
read_claimed_lem k r s job run e f = rw (e, read_claimed) (rw (f, read_claimed))

module _ (now : ℕ) (agent_id : Option String) (worker_id : String) where
  -- The store after a claim of the job.
  abbrev pub taken : ℕ → JobStore → JobStore
  taken k s =
      claimed columns s k (assign_job now agent_id worker_id) (new_run now agent_id worker_id k)

  -- The answer to a claim of an open job.
  abbrev pub grant : ℕ → ReplicationJob → JobStore → ClaimedJob
  grant k job s = record {
    job_id = k;
    job = assign_job now agent_id worker_id job;
    run_id = s.next_run;
    run = new_run now agent_id worker_id k;
  }

  claim_open :
      (k : ℕ) (s : JobStore) (job : ReplicationJob)
      → s.items k ≡ some job
      → is_open job.status ≡ true
      → claim_replication_job_by_id now agent_id worker_id k s
        ≡ (ok (some (grant k job s)), taken k s)
  unfolding claim_replication_job_by_id
  claim_open k s job e o =
      let first =
        claim-of_open columns s k (assign_job now agent_id worker_id)
          (new_run now agent_id worker_id k) (rw e o) in
      let same = (==_iff k k).1 refl in
      let fresh = (==_iff s.next_run s.next_run).1 refl in
      rw (first, first)
        (rw (
          read_claimed_lem k s.next_run (taken k s) (assign_job now agent_id worker_id job)
            (new_run now agent_id worker_id k) (rw (same, e)) (rw fresh)))

  pub claim_not_open :
      (k : ℕ) (s : JobStore)
      → item_is columns is_open s k ≡ false
      → claim_replication_job_by_id now agent_id worker_id k s ≡ (ok none, s)
  unfolding claim_replication_job_by_id
  claim_not_open k s e = rw (
      claim-of_not_open columns s k (assign_job now agent_id worker_id)
        (new_run now agent_id worker_id k) e)

-- A claim of an open job in a valid store assigns it to the caller and starts one run, the only one
-- that leases the job then; none did before, and every later claim of the job gets nothing.
pub claim_exclusive :
    (now : ℕ) (agent_id : Option String) (worker_id : String) (later : ℕ) (rival : Option String)
    (rival_worker : String) (k : ℕ) (s : JobStore) (job : ReplicationJob)
    → IsValid columns s
    → s.items k ≡ some job
    → job.status ≡ ItemStatus.opened
    → let (answer, s') = claim_replication_job_by_id now agent_id worker_id k s in
      (answer ≡ ok (some (grant now agent_id worker_id k job s)))
      × ((r : ℕ) → leases columns s r k ≡ false)
      × ((r : ℕ) → leases columns s' r k ≡ (s.next_run == r))
      × (claim_replication_job_by_id later rival rival_worker k s' ≡ (ok none, s'))
claim_exclusive now agent_id worker_id later rival rival_worker k s job v e o =
    let open_k : item_is columns is_open s k ≡ true = rw e (rw o) in
    rw (claim_open now agent_id worker_id k s job e (rw o)) (
      refl,
      λ r. leases-eq-false_of_open columns v r k open_k,
      λ r.
          claimed-sole columns s k (assign_job now agent_id worker_id)
            (new_run now agent_id worker_id k) v open_k refl refl r,
      claim_not_open later rival rival_worker k (taken now agent_id worker_id k s)
          (rw ((==_iff k k).1 refl) (rw e)),
    )

-- Every open job is takeable.
any_open :
    (s : JobStore) (k : ℕ)
    → is_takeable columns (λ _. true) s k ≡ false
    → item_is columns is_open s k ≡ false
any_open s k h = elim (Option-cases (s.items k)) [
  | inl e ↦ ground arith
  | inr (job, e) ↦ ground arith
]

takeable_open :
    (s : JobStore) (k : ℕ)
    → is_takeable columns (λ _. true) s k ≡ true
    → item_is columns is_open s k ≡ true
takeable_open s k h = elim (Option-cases (s.items k)) [
  | inl e ↦ ground arith
  | inr (job, e) ↦ ground arith
]

-- The next claim takes the open job with the least key that no other transaction locks, as a claim of
-- that job by its key does; with no such job it gets nothing and changes nothing.
pub claim_next_least :
    (now : ℕ) (agent_id : Option String) (worker_id : String) (locked : ℕ → Bool) (s : JobStore)
    → IsValid columns s
    → let outcome = claim_next_open_replication_job now agent_id worker_id locked s in
      ((k : ℕ) × (locked k ≡ false)
        × (item_is columns is_open s k ≡ true)
        × ((j : ℕ) → j < k → locked j ≡ false → item_is columns is_open s j ≡ false)
        × (outcome ≡ claim_replication_job_by_id now agent_id worker_id k s))
      ⊎ (((j : ℕ) → locked j ≡ false → item_is columns is_open s j ≡ false)
          × (outcome ≡ (ok none, s)))
unfolding claim_next_open_replication_job
claim_next_least now agent_id worker_id locked s v =
    elim (Option-cases (next_open columns locked (λ _. true) s)) [
      | inl e ↦ inr (
        λ j free. any_open s j (next_open-eq-none columns locked (λ _. true) s v e j free),
        rw (e, claim_next_open_replication_job),
      )
      | inr (k, e) ↦
          let (free_k, open_k, least) = next_open-eq-some columns locked (λ _. true) s k e in
          inl (
            k,
            free_k,
            takeable_open s k open_k,
            λ j l free. any_open s j (least j l free),
            rw (e, claim_next_open_replication_job),
          )
    ]
