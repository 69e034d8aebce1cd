-- ===== src/Work/Tests.antt =====
-- Runs of the work graph on concrete items.
use scientific_protocol.Common.{
  units, ltb, if◌then◌else◌, arith, String, ℕ, [], ◌∷◌, some, trim, ◌+◌, ◌≤◌, ◌<◌, true, false, not,
  ◌&&◌, ◌≡◌, refl, ◌↔◌, inr, some, any,
}
use scientific_protocol.Work.Types.{
  WorkItemKind, SourceType, WorkLane, WorkStatus, ScheduledItem, WorkStatus, OrchestrationAction,
  RoutingTier, is_synthesis,
}
use scientific_protocol.Work.Policy.{
  agent_actions_for_work_item, build_replication_work_policy, agent_actions_for_work_item,
  lane_for_review_task,
}
use scientific_protocol.Work.Orchestration.{
  active_runs, OrchestrationInput, derive_claim_work_orchestration, derive_claim_work_orchestration,
  distinct_contributor_count, escalation_threshold_for_work_item, closed_recommendation_for_status,
  max_allowed, active_runs,
}
use scientific_protocol.Work.Routing.{
  derive_claim_work_routing, has_blocking_non_synthesis_work, tier_for_priority,
  lane_priority_boost, is_sibling,
}
use scientific_protocol.Work.Scheduling.{
  derive_claim_work_scheduling, unresolved_upstream_items, strategy_for_item, is_settled,
  route_item, route_items,
}
use scientific_protocol.Work.Capacity.{can_claim_iff, HasRoom, IsPresent}
use scientific_protocol.Work.Decision.{recommendation_justified, Justifies}
use scientific_protocol.Work.Priority.{priority_lem, unblocked_first}
use scientific_protocol.Work.Readiness.{
  ready_lem, asked_within_policy, synthesis_waits, routing_block_counted, IsCoherent, IsReady,
}
use scientific_protocol.Lease.{ItemStatus}
use scientific_protocol.Work.Selection.{
  Sign, opposite, compare_claim_work_items_for_selection, compare-opposite,
}
use scientific_protocol.Work.Status.{to_replication_status, claimable_job_open}
use scientific_protocol.Work.Examples.{
  failed_run, scan, synthesis, scan_input, scan, synthesis, both, done,
}

work_lem : Unit {0}
unfolding derive_claim_work_orchestration distinct_contributor_count
    escalation_threshold_for_work_item closed_recommendation_for_status derive_claim_work_routing
    has_blocking_non_synthesis_work tier_for_priority lane_priority_boost
    derive_claim_work_scheduling unresolved_upstream_items strategy_for_item
    agent_actions_for_work_item lane_for_review_task trim
work_lem = tt

scan_runs :
    (derive_claim_work_orchestration scan_input).recommended_action ≡ OrchestrationAction.reassign
unfolding work_lem
scan_runs = refl

can_claim_iff_example : ((derive_claim_work_orchestration scan_input).can_claim ≡ true) ↔ (
    (scan_input.status ≡ WorkStatus.opened)
    × IsPresent scan_input.agent_actions.claim
    × HasRoom
        (max_allowed scan_input)
        (scan_input.successful_contribution_count + active_runs scan_input))
can_claim_iff_example = can_claim_iff scan_input

recommendation_justified_example :
    Justifies scan_input
      (derive_claim_work_orchestration scan_input)
      (derive_claim_work_orchestration scan_input).recommended_action
    × (((derive_claim_work_orchestration scan_input).should_escalate ≡ true) ↔ (
        (derive_claim_work_orchestration scan_input).recommended_action
        ≡ OrchestrationAction.escalate))
recommendation_justified_example = recommendation_justified scan_input

priority_lem_example :
    ((derive_claim_work_routing scan both).priority_bps ≤ 10000)
    × ((derive_claim_work_routing scan both).tier
        ≡ tier_for_priority (derive_claim_work_routing scan both).priority_bps)
    × (((derive_claim_work_routing scan both).tier ≡ RoutingTier.hold)
        ↔ (scan.orchestration.can_claim ≡ false))
priority_lem_example = priority_lem scan both

unblocked_first_example :
    (derive_claim_work_routing synthesis both).priority_bps
    < (derive_claim_work_routing scan both).priority_bps
unfolding work_lem
unblocked_first_example = unblocked_first scan synthesis both refl (inr refl) refl refl

ready_lem_example :
    IsCoherent (derive_claim_work_scheduling (route_item both scan) (route_items both))
    × (((derive_claim_work_scheduling (route_item both scan) (route_items both)).auto_claimable
          ≡ true)
        ↔ (IsReady (route_item both scan) (route_items both)))
ready_lem_example = ready_lem (route_item both scan) (route_items both)

asked_within_policy_example :
    (derive_claim_work_scheduling
        (route_item both scan)
        (route_items both)).desired_additional_claims
      + 1
      + active_runs scan_input
    ≤ 3
unfolding work_lem
asked_within_policy_example =
    asked_within_policy scan_input 3 (route_item both scan) (route_items both) refl refl refl

-- The scan asks for two more contributors.
scan_asks :
    (derive_claim_work_scheduling
      (route_item both scan)
      (route_items both)).desired_additional_claims
    ≡ 2
unfolding work_lem
scan_asks = refl

synthesis_waits_example :
    any
      (λ entry.
        is_sibling synthesis entry.item
        && not (is_synthesis entry.item.lane)
        && not (is_settled entry.item.status))
      (route_items done)
    ≡ false
unfolding work_lem
synthesis_waits_example = synthesis_waits (route_item done synthesis) (route_items done) refl refl

routing_block_counted_example :
    (0
      < (derive_claim_work_scheduling
          (route_item both synthesis)
          (route_items both)).unresolved_dependency_count)
    × ((derive_claim_work_scheduling (route_item both synthesis) (route_items both)).blocker
        ≡ some "dependency_blocked")
unfolding work_lem
routing_block_counted_example = routing_block_counted synthesis both refl

-- Texts by their lengths, in place of the order of a locale.
abbrev by_length : String → String → Sign
by_length a b =
    let m = units a in
    let n = units b in if ltb m n then Sign.before else (if ltb n m then Sign.after else Sign.same)

by_length-opposite : (a b : String) → by_length a b ≡ opposite (by_length b a)
unfolding opposite
by_length-opposite a b = by_size (units a) (units b)
  where
    by_size :
        (m n : ℕ)
        → (if ltb m n then Sign.before else (if ltb n m then Sign.after else Sign.same))
          ≡ opposite (if ltb n m then Sign.before else (if ltb m n then Sign.after else Sign.same))
    by_size m n = ground arith

abbrev scheduled_scan : ScheduledItem
scheduled_scan = record {
  routed = route_item both scan;
  scheduling = derive_claim_work_scheduling (route_item both scan) (route_items both);
}

abbrev scheduled_synthesis : ScheduledItem
scheduled_synthesis = record {
  routed = route_item both synthesis;
  scheduling = derive_claim_work_scheduling (route_item both synthesis) (route_items both);
}

compare-opposite_example :
    compare_claim_work_items_for_selection by_length scheduled_scan scheduled_synthesis
    ≡ opposite (compare_claim_work_items_for_selection by_length scheduled_synthesis scheduled_scan)
compare-opposite_example =
    compare-opposite by_length by_length-opposite scheduled_scan scheduled_synthesis

abbrev job_input : OrchestrationInput
job_input = record {
  agent_actions =
      agent_actions_for_work_item WorkItemKind.replication_job SourceType.of_replication;
  kind = WorkItemKind.replication_job;
  lane = WorkLane.execution;
  policy = some build_replication_work_policy;
  runs = failed_run ∷ [];
  status = WorkStatus.opened;
  successful_contributor_agent_ids = [];
  successful_contribution_count = 0;
}

claimable_job_open_example : (ItemStatus.opened ≡ ItemStatus.opened) × (active_runs job_input ≡ 0)
unfolding work_lem build_replication_work_policy to_replication_status
claimable_job_open_example = claimable_job_open job_input ItemStatus.opened refl refl
