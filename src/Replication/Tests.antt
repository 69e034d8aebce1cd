-- ===== src/Replication/Tests.antt =====
-- Runs of the replication queue on small stores, and its theorems at such stores.
use scientific_protocol.Common.{ℕ, ◌<◌, ◌≡◌, refl, ◌⊎◌, true, false, none, some, arith, ok, ◌==◌}
use scientific_protocol.Lease.{
  ItemStatus, leases, item_is, is_open, is_assigned, claim, finish, insert_item, renew, next_open,
  stale_candidates, expire_all, expired_rows, is_stale, stale_runs,
}
use scientific_protocol.Lease.Invariant.{IsValid}
use scientific_protocol.Replication.{
  ReplicationJob, JobStore, JobResult, columns, create_replication_job, claim_replication_job_by_id,
  claim_next_open_replication_job, complete_replication_job, heartbeat_replication_job_run,
  fail_replication_job, expire_stale_replication_job_runs, complete_job, reap_limit, assign_job,
  new_run, beat_run,
}
use scientific_protocol.Replication.Invariant.{empty_store, Step, Reach, Reach-IsValid}
use scientific_protocol.Replication.Claims.{claim_exclusive, claim_next_least, grant}
use scientific_protocol.Replication.Expiry.{expire_frees_stale, heartbeat_protects}
use scientific_protocol.Replication.Completion.{complete_ends_lease}
use scientific_protocol.Replication.Stranded.{OtherStep, OtherSteps, stale_completion_strands}

-- What the tests run.
replication : Unit {0}
unfolding create_replication_job claim_replication_job_by_id claim_next_open_replication_job
    complete_replication_job heartbeat_replication_job_run fail_replication_job
    expire_stale_replication_job_runs claim finish insert_item renew next_open stale_candidates
    expire_all expired_rows stale_runs is_stale
replication = tt

-- One open job, made at time 100.
abbrev queue : JobStore
queue = (create_replication_job 100 "7" "0xa" "0xspec" none empty_store).1

-- A worker claims it at time 200.
abbrev leased : JobStore
leased = (claim_replication_job_by_id 200 (some "3") "w1" 1 queue).1

-- At time 900 it is reaped, and another worker claims it.
abbrev leased_again : JobStore
leased_again =
    (claim_replication_job_by_id 950 none "w2" 1
      (expire_stale_replication_job_runs 900 (λ _. false) none 500 leased).1).1

-- The row of the open job.
abbrev open_job : ReplicationJob
open_job = record {
  assigned_agent_id = none;
  assigned_at = none;
  assigned_worker = none;
  claim_id = "7";
  completed_at = none;
  created_at = 100;
  evidence_hash = none;
  evidence_uri = none;
  failure_reason = none;
  onchain_replication_id = none;
  requested_by = "0xa";
  request_id = none;
  result_artifact_key = none;
  result_hash = none;
  spec_hash = "0xspec";
  spec_uri = none;
  status = ItemStatus.opened;
  submission_actor = none;
  submission_tx_hash = none;
  submitted_at = none;
  updated_at = 100;
}

abbrev result : JobResult
result = record {
  evidence_hash = "e";
  evidence_uri = "u";
  execution_manifest_hash = "m";
  onchain_replication_id = none;
  request_id = none;
  result_artifact_key = "k";
  result_hash = "h";
  submission_actor = none;
  submission_tx_hash = none;
}

abbrev queue_Reach : Reach empty_store queue
queue_Reach = Reach.next Reach.here (Step.create 100 "7" "0xa" "0xspec" none)

abbrev leased_Reach : Reach empty_store leased
leased_Reach = Reach.next queue_Reach (Step.claim_by_id 200 (some "3") "w1" 1)

abbrev leased_again_Reach : Reach empty_store leased_again
leased_again_Reach =
    Reach.next (Reach.next leased_Reach (Step.expire 900 (λ _. false) none 500))
      (Step.claim_by_id 950 none "w2" 1)

stale_run_is_reaped :
    (leases columns leased 1 1 ≡ true)
    × (leases columns leased_again 1 1 ≡ false)
    × (leases columns leased_again 2 1 ≡ true)
unfolding replication
stale_run_is_reaped = (refl, refl, refl)

Reach-IsValid_example : IsValid columns leased
Reach-IsValid_example = Reach-IsValid leased_Reach

claim_exclusive_example :
    let (answer, s') = claim_replication_job_by_id 200 (some "3") "w1" 1 queue in
    let job : ReplicationJob = open_job in
    (answer ≡ ok (some (grant 200 (some "3") "w1" 1 job queue)))
    × ((r : ℕ) → leases columns queue r 1 ≡ false)
    × ((r : ℕ) → leases columns s' r 1 ≡ (queue.next_run == r))
    × (claim_replication_job_by_id 201 none "w2" 1 s' ≡ (ok none, s'))
unfolding replication
claim_exclusive_example =
    claim_exclusive 200 (some "3") "w1" 201 none "w2" 1 queue open_job (Reach-IsValid queue_Reach)
      refl refl

claim_next_least_example :
    let outcome = claim_next_open_replication_job 200 none "w" (λ _. false) queue in
    ((k : ℕ) × (false ≡ false)
      × (item_is columns is_open queue k ≡ true)
      × ((j : ℕ) → j < k → false ≡ false → item_is columns is_open queue j ≡ false)
      × (outcome ≡ claim_replication_job_by_id 200 none "w" k queue))
    ⊎ (((j : ℕ) → false ≡ false → item_is columns is_open queue j ≡ false)
        × (outcome ≡ (ok none, queue)))
claim_next_least_example =
    claim_next_least 200 none "w" (λ _. false) queue (Reach-IsValid queue_Reach)

expire_frees_stale_example :
    let s' = (expire_stale_replication_job_runs 900 (λ _. false) none 500 leased).1 in
    (item_is columns is_open s' 1 ≡ true) × ((j : ℕ) → leases columns s' 1 j ≡ false)
unfolding replication reap_limit
expire_frees_stale_example =
    expire_frees_stale 900 (λ _. false) none 500 leased 1 1 (Reach-IsValid leased_Reach) refl refl
      refl (omega arith)

heartbeat_protects_example :
    let s' = (heartbeat_replication_job_run 600 (some "3") none 1 1 leased).1 in
    let s'' = (expire_stale_replication_job_runs 900 (λ _. false) none 500 s').1 in
    (leases columns s' 1 1 ≡ true) × (s''.runs 1 ≡ s'.runs 1) × (s''.items 1 ≡ s'.items 1)
unfolding replication
heartbeat_protects_example =
    heartbeat_protects 600 (some "3") none 1 1 leased (beat_run 600 (new_run 200 (some "3") "w1" 1))
      900 (λ _. false) none 500 (Reach-IsValid leased_Reach) refl (omega arith)

complete_ends_lease_example :
    let (answer, s') = complete_replication_job 700 1 1 result leased in
    (answer ≡ ok (complete_job 700 result (assign_job 200 (some "3") "w1" open_job)))
    × ((x : ℕ) → leases columns s' x 1 ≡ false)
    × (claim_replication_job_by_id 800 none "w2" 1 s' ≡ (ok none, s'))
unfolding replication
complete_ends_lease_example =
    complete_ends_lease 700 1 1 result leased (assign_job 200 (some "3") "w1" open_job) 800 none
      "w2" (Reach-IsValid leased_Reach) refl refl

two_leases : leases columns leased_again 2 1 ≡ true
unfolding replication
two_leases = refl

-- The first worker completes the job all the same; the second beats, and the reaper runs much later.
abbrev completed_by_stale : JobStore
completed_by_stale = (complete_replication_job 960 1 1 result leased_again).1

abbrev much_later : JobStore
much_later =
    (expire_stale_replication_job_runs 99_000 (λ _. false) none 500
      (heartbeat_replication_job_run 970 none (some "w2") 1 2 completed_by_stale).1).1

much_later_steps : OtherSteps 2 completed_by_stale much_later
much_later_steps =
    OtherSteps.next (OtherSteps.next OtherSteps.here (OtherStep.heartbeat 970 none (some "w2") 1 2))
      (OtherStep.expire 99_000 (λ _. false) none 500)

stale_completion_strands_example :
    (leases columns much_later 2 1 ≡ true) × (item_is columns is_assigned much_later 1 ≡ false)
stale_completion_strands_example =
    stale_completion_strands 960 1 1 2 result leased_again much_later
      (Reach-IsValid leased_again_Reach) two_leases (omega arith) much_later_steps
