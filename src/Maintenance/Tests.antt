-- ===== src/Maintenance/Tests.antt =====
-- Runs of the maintenance queue on small stores, and its theorems at such stores.
use scientific_protocol.Common.{◌≡◌, refl, true, false, none, some}
use scientific_protocol.Lease.{
  leases, claim, finish, insert_item, renew, next_open, stale_candidates, expire_all, expired_rows,
  is_stale, stale_runs, first_key,
}
use scientific_protocol.Lease.Invariant.{IsValid}
use scientific_protocol.Maintenance.{
  TaskStore, audit, repair, columns, create_artifact_maintenance_task, existing_task,
  claim_artifact_maintenance_task_by_id, claim_next_open_artifact_maintenance_task,
  complete_artifact_maintenance_task, fail_artifact_maintenance_task,
  expire_stale_artifact_maintenance_task_runs, heartbeat_artifact_maintenance_task_run,
}
use scientific_protocol.Maintenance.Invariant.{empty_store, Step, Reach, Reach-IsValid_of_tasks}
use scientific_protocol.Maintenance.Identity.{Reach-IsDistinct}
use scientific_protocol.Maintenance.Live.{IsDistinct}
use scientific_protocol.Maintenance.Creation.{create_twice}

-- What the tests run.
maintenance : Unit {0}
unfolding create_artifact_maintenance_task existing_task claim_artifact_maintenance_task_by_id
    claim_next_open_artifact_maintenance_task complete_artifact_maintenance_task
    fail_artifact_maintenance_task heartbeat_artifact_maintenance_task_run
    expire_stale_artifact_maintenance_task_runs claim finish insert_item renew next_open
    stale_candidates expire_all expired_rows stale_runs is_stale first_key
maintenance = tt

abbrev audited : TaskStore
audited = (create_artifact_maintenance_task 10 "art" "0xa" none none audit empty_store).1

abbrev queue : TaskStore
queue = (create_artifact_maintenance_task 20 "art" "0xa" none (some "r2") repair audited).1

-- The next repair is taken, past the older audit.
abbrev leased : TaskStore
leased = (claim_next_open_artifact_maintenance_task 30 none "w" (λ _. false) (some repair) queue).1

abbrev leased_Reach : Reach empty_store leased
leased_Reach =
    Reach.next
      (Reach.next (Reach.next Reach.here (Step.create 10 "art" "0xa" none none audit))
        (Step.create 20 "art" "0xa" none (some "r2") repair))
      (Step.claim_next 30 none "w" (λ _. false) (some repair))

takes_the_repair : (leases columns leased 1 2 ≡ true) × (leases columns leased 1 1 ≡ false)
unfolding maintenance
takes_the_repair = (refl, refl)

-- A missing target and the empty one are the same.
empty_target_is_missing :
    (create_artifact_maintenance_task 40 "art" "0xb" none (some "") audit queue).1 ≡ queue
unfolding maintenance
empty_target_is_missing = refl

Reach-IsValid_of_tasks_example : IsValid columns leased
Reach-IsValid_of_tasks_example = Reach-IsValid_of_tasks leased_Reach

Reach-IsDistinct_example : IsDistinct leased
Reach-IsDistinct_example = Reach-IsDistinct leased_Reach

create_twice_example :
    create_artifact_maintenance_task 50 "art" "0xb" none
      (some "r3")
      repair
      (create_artifact_maintenance_task 40 "art" "0xa" (some "p") (some "r3") repair leased).1
    ≡ create_artifact_maintenance_task 40 "art" "0xa" (some "p") (some "r3") repair leased
create_twice_example =
    create_twice leased 40 "art" "0xa" (some "p") (some "r3") repair 50 "0xb" none
      (Reach-IsValid_of_tasks leased_Reach) (Reach-IsDistinct leased_Reach)
