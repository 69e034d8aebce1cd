-- ===== src/Work/Scheduling.antt =====
-- src/work/scheduling.ts, and the two passes of `finalizeWorkItems` in src/work/graph.ts: whether a worker may claim an
-- item without asking, and how many claims are wanted.
use scientific_protocol.Common.{
  ℕ, ◌-◌, min, Bool, true, false, ◌&&◌, ◌||◌, not, none, some, List, [], map, String, length,
  filter, any, or_else, ltb, if◌then◌else◌,
}
use scientific_protocol.Work.Types.{
  WorkStatus, WorkItem, RoutedItem, ScheduledItem, SchedulingView, SchedulingStrategy, is_escalated,
  is_failed, is_synthesis, is_reassign,
}
use scientific_protocol.Work.Routing.{is_sibling, derive_claim_work_routing}

unfoldable pub strategy_for_item : WorkItem → SchedulingStrategy
strategy_for_item item =
    if is_synthesis item.lane
    then SchedulingStrategy.synthesis
    else (if item.orchestration.requires_distinct_contributors
        then SchedulingStrategy.distinct
        else (if ltb 1 (or_else item.orchestration.remaining_contributor_slots 0)
              || ltb 1 item.orchestration.contributors_needed
            then SchedulingStrategy.parallel
            else SchedulingStrategy.single))

abbrev pub is_settled : WorkStatus → Bool
is_settled WorkStatus.completed = true
is_settled WorkStatus.canceled = true
is_settled _ = false

abbrev pub unresolved_upstream_dependency : WorkItem → Bool
unresolved_upstream_dependency item =
    if is_synthesis item.lane then false else (if is_settled item.status then false else true)

unfoldable pub unresolved_upstream_items : WorkItem → List RoutedItem → List RoutedItem
unresolved_upstream_items current items =
    if not (is_synthesis current.lane)
    then []
    else filter
        (λ entry. is_sibling current entry.item && unresolved_upstream_dependency entry.item) items

module _ (current : RoutedItem) (items : List RoutedItem) where
  -- The local constants of `deriveClaimWorkScheduling`.
  abbrev pub minimum_after_active : ℕ
  minimum_after_active =
      current.item.orchestration.minimum_contributors_needed
      - current.item.orchestration.active_run_count

  abbrev pub target_after_active : ℕ
  target_after_active =
      current.item.orchestration.target_contributors_needed
      - current.item.orchestration.active_run_count

  abbrev pub needs_minimum : Bool
  needs_minimum = ltb 0 minimum_after_active

  abbrev pub needs_redundant : Bool
  needs_redundant = not needs_minimum && ltb 0 target_after_active

  abbrev pub prefers_fresh : Bool
  prefers_fresh =
      current.item.orchestration.requires_distinct_contributors && ltb 0 target_after_active

  abbrev pub prefers_reassignment : Bool
  prefers_reassignment = is_reassign current.item.orchestration.recommended_action

  abbrev pub desired_claims : ℕ
  desired_claims = elim current.item.orchestration.remaining_contributor_slots [
    | none ↦ target_after_active
    | some slots ↦ min slots target_after_active
  ]

  -- `reassignmentPreferred` is never given by the callers, so that it is false.
  abbrev pub blocked_scheduling :
      (blocker : String) (blocking_item_ids : List String) (reason : String)
      (unresolved_dependency_count : ℕ)
      → SchedulingView
  blocked_scheduling blocker blocking_item_ids reason unresolved_dependency_count = record {
    auto_claimable = false;
    blocker = some blocker;
    blocking_item_ids = blocking_item_ids;
    desired_additional_claims = 0;
    needs_minimum_coverage = needs_minimum;
    needs_redundant_coverage = needs_redundant;
    prefers_fresh_contributor = prefers_fresh;
    reassignment_preferred = false;
    reason = reason;
    strategy = strategy_for_item current.item;
    unresolved_dependency_count = unresolved_dependency_count;
  }

  abbrev pub dependency_reason : List RoutedItem → String
  dependency_reason upstream =
      if any (λ entry. is_escalated entry.item.status || entry.item.orchestration.should_escalate)
        upstream
      then "upstream claim work still needs manual escalation handling before synthesis is useful"
      else (if any (λ entry. is_failed entry.item.status) upstream
          then "upstream claim work still needs reassignment or repair before synthesis is useful"
          else "upstream evaluation, execution, or maintenance work is still unresolved")

  abbrev pub ready_reason : String
  ready_reason =
      if prefers_reassignment
      then "item is scheduler-ready for reassignment after earlier runs ended without a useful result"
      else (if prefers_fresh && needs_minimum
          then "item is scheduler-ready and still needs a fresh distinct contributor to reach minimum corroboration"
          else (if prefers_fresh && needs_redundant
              then "minimum corroboration is already satisfied, but scheduler still wants a fresh distinct contributor for stronger redundancy"
              else (if needs_minimum
                  then (if ltb 1 desired_claims
                      then "item is scheduler-ready and still sits below its minimum corroboration target"
                      else "item is scheduler-ready for another contribution to reach minimum corroboration")
                  else (if ltb 1 desired_claims
                      then "minimum corroboration is satisfied, but the scheduler still sees uncovered parallel corroboration demand"
                      else "minimum corroboration is satisfied, but the scheduler still wants one more corroborating contribution"))))

  abbrev pub ready_scheduling : SchedulingView
  ready_scheduling = record {
    auto_claimable = true;
    blocker = none;
    blocking_item_ids = [];
    desired_additional_claims = desired_claims;
    needs_minimum_coverage = needs_minimum;
    needs_redundant_coverage = needs_redundant;
    prefers_fresh_contributor = prefers_fresh;
    reassignment_preferred = prefers_reassignment;
    reason = ready_reason;
    strategy = strategy_for_item current.item;
    unresolved_dependency_count = 0;
  }

  unfoldable pub derive_claim_work_scheduling : SchedulingView
  derive_claim_work_scheduling =
      let upstream = unresolved_upstream_items current.item items in
      if ltb 0 (length upstream)
      then blocked_scheduling "dependency_blocked" (map (λ entry. entry.item.item_id) upstream)
          (dependency_reason upstream) (length upstream)
      else (if current.item.orchestration.should_escalate
          then blocked_scheduling "escalation_required" []
              "manual escalation should happen before more automatic claims" 0
          else (if not current.item.orchestration.can_claim
              then blocked_scheduling "not_claimable" [] current.item.orchestration.status_reason 0
              else (if current.routing.blocked_by_open_work
                  then blocked_scheduling "dependency_blocked" []
                      "prerequisite lower-lane work is still open" 0
                  else (if not (ltb 0 desired_claims)
                      then blocked_scheduling "policy_satisfied" []
                          (if ltb 0 current.item.orchestration.target_contributors_needed
                            then "existing active runs already cover the current corroboration target"
                            else "current policy already has enough successful contributions")
                          0
                      else ready_scheduling))))

-- The two passes of `finalizeWorkItems`.
abbrev pub route_item : List WorkItem → WorkItem → RoutedItem
route_item items item = record { item = item; routing = derive_claim_work_routing item items }

abbrev pub route_items : List WorkItem → List RoutedItem
route_items items = map (route_item items) items

abbrev pub schedule_items : List WorkItem → List ScheduledItem
schedule_items items =
    let routed = route_items items in
    map (λ entry. record { routed = entry; scheduling = derive_claim_work_scheduling entry routed })
      routed
