-- ===== src/Work/Status.antt =====
-- The statuses of items in src/work/graph.ts, from the rows of the queues and of the review tasks.
use scientific_protocol.Common.{
  Bool, true, false, ◌≡◌, refl, sym, ◌∙◌, arith, List, [], ◌∷◌, any, filter, length, if◌then◌else◌,
}
use scientific_protocol.Lease.{ItemStatus}
use scientific_protocol.Work.Types.{WorkStatus, WorkRun}
use scientific_protocol.Work.Orchestration.{
  OrchestrationInput, derive_claim_work_orchestration, run_is_running, active_runs,
}
use scientific_protocol.Work.Capacity.{can_claim_iff}

-- `ReviewTaskStatus` of src/review/types.ts
pub data ReviewTaskStatus : Type 0 where
  canceled completed escalated opened : ReviewTaskStatus

abbrev pub is_any_running : List WorkRun → Bool
is_any_running runs = any run_is_running runs

abbrev pub review_status : ReviewTaskStatus → WorkStatus
review_status ReviewTaskStatus.opened = WorkStatus.opened
review_status ReviewTaskStatus.completed = WorkStatus.completed
review_status ReviewTaskStatus.escalated = WorkStatus.escalated
review_status ReviewTaskStatus.canceled = WorkStatus.canceled

unfoldable pub to_review_status : ReviewTaskStatus → List WorkRun → WorkStatus
to_review_status status runs =
    if is_any_running runs then WorkStatus.leased else review_status status

abbrev pub queue_status : ItemStatus → WorkStatus
queue_status ItemStatus.opened = WorkStatus.opened
queue_status ItemStatus.assigned = WorkStatus.leased
queue_status ItemStatus.completed = WorkStatus.completed
queue_status ItemStatus.failed = WorkStatus.failed

unfoldable pub to_replication_status : ItemStatus → List WorkRun → WorkStatus
to_replication_status status runs =
    if is_any_running runs then WorkStatus.leased else queue_status status

unfoldable pub to_maintenance_status : ItemStatus → List WorkRun → WorkStatus
to_maintenance_status status runs =
    if is_any_running runs then WorkStatus.leased else queue_status status

none_running :
    (runs : List WorkRun) → is_any_running runs ≡ false → length (filter run_is_running runs) ≡ 0
none_running [] h = refl
none_running (run ∷ runs) h = ground (arith, h, none_running runs)

open_queue :
    (running : Bool) (status : ItemStatus)
    → (if running then WorkStatus.leased else queue_status status) ≡ WorkStatus.opened
    → (running ≡ false) × (status ≡ ItemStatus.opened)
open_queue running status h = ground (arith, h)

-- A replication job that the work graph lets agents claim is open in the queue and has no running run.
pub claimable_job_open :
    (input : OrchestrationInput) (status : ItemStatus)
    → input.status ≡ to_replication_status status input.runs
    → (derive_claim_work_orchestration input).can_claim ≡ true
    → (status ≡ ItemStatus.opened) × (active_runs input ≡ 0)
unfolding to_replication_status
claimable_job_open input status e h =
    let opened =
      open_queue (is_any_running input.runs) status (sym e ∙ ((can_claim_iff input).0 h).0) in
    (opened.1, none_running input.runs opened.0)
