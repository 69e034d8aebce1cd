-- ===== src/Work/Routing.antt =====
-- src/work/routing.ts: the priority of an item in basis points. The sums are natural numbers, so that `Math.round` and
-- `Math.max(0, …)` change nothing; `rationale.unshift` is a cons.
use scientific_protocol.Common.{
  ℕ, ◌+◌, ◌-◌, ◌*◌, min, Bool, true, false, ◌&&◌, ◌||◌, not, Option, none, some, List, [], ◌∷◌,
  ◌++◌, String, str_eq, any, ltb, leb, if◌then◌else◌,
}
use scientific_protocol.Maintenance.{TaskType}
use scientific_protocol.Work.Types.{
  WorkItemKind, WorkLane, SourceType, OrchestrationAction, OrchestrationView, RoutingTier,
  RoutingView, WorkItem, is_opened, is_leased, is_synthesis,
}

abbrev pub clamp_priority : ℕ → ℕ
clamp_priority value = min 10000 value

unfoldable pub tier_for_priority : ℕ → RoutingTier
tier_for_priority priority_bps =
    if leb 8500 priority_bps
    then RoutingTier.critical
    else (if leb 6500 priority_bps
        then RoutingTier.high
        else (if leb 4000 priority_bps
            then RoutingTier.normal
            else (if ltb 0 priority_bps then RoutingTier.low else RoutingTier.hold)))

abbrev pub lane_boost : WorkLane → ℕ
lane_boost WorkLane.maintenance = 700
lane_boost WorkLane.execution = 650
lane_boost WorkLane.evaluation = 500
lane_boost WorkLane.synthesis = 200

unfoldable pub lane_priority_boost : WorkItemKind → WorkLane → SourceType → ℕ
lane_priority_boost WorkItemKind.artifact_maintenance lane
      (SourceType.of_maintenance TaskType.repair) =
    900
lane_priority_boost WorkItemKind.replication_job lane source_type = 800
lane_priority_boost _ lane _ = lane_boost lane

-- `===` on texts that may be null.
abbrev pub same_claim : Option String → Option String → Bool
same_claim none none = true
same_claim (some a) (some b) = str_eq a b
same_claim _ _ = false

abbrev pub is_blocking_claim_work : WorkItem → Bool
is_blocking_claim_work item =
    not (str_eq item.item_id "")
    && (is_opened item.status || is_leased item.status)
    && not (is_synthesis item.lane)
    && (item.orchestration.can_claim || ltb 0 item.orchestration.active_run_count)

-- The test that both derivations put first: another item of the same claim.
abbrev pub is_sibling : WorkItem → WorkItem → Bool
is_sibling current item =
    not (str_eq item.item_id current.item_id) && same_claim item.claim_id current.claim_id

unfoldable pub has_blocking_non_synthesis_work : List WorkItem → WorkItem → Bool
has_blocking_non_synthesis_work items current =
    if not (is_synthesis current.lane)
    then false
    else any (λ item. is_sibling current item && is_blocking_claim_work item) items

-- What each of the `if` statements of `deriveClaimWorkRouting` adds to the priority, with its line of the rationale.
abbrev pub Contribution : Type 0
Contribution = ℕ × List String

abbrev pub action_part : OrchestrationAction → Contribution
action_part OrchestrationAction.reassign = (7200, "reopened after earlier runs failed" ∷ [])
action_part OrchestrationAction.claim =
    (6000, "currently claimable through the generic runtime" ∷ [])
action_part _ = (0, [])

abbrev pub need_part : OrchestrationView → Contribution
need_part o =
    if ltb 0 o.minimum_contributors_needed
    then (if o.requires_distinct_contributors && ltb 0 o.distinct_contributor_shortfall
        then (
          min 1600 (o.distinct_contributor_shortfall * 800),
          "scheduler still needs additional distinct contributors to reach minimum corroboration"
              ∷ [],
        )
        else (
          min 1400 (o.minimum_contributors_needed * 700),
          "claim state still needs additional contributions to reach minimum corroboration" ∷ [],
        ))
    else (if ltb 0 o.target_contributors_needed
        then (if o.requires_distinct_contributors
            then (
              min 900 (o.target_contributors_needed * 350),
              "scheduler still wants an additional distinct corroborating contribution" ∷ [],
            )
            else (
              min 800 (o.target_contributors_needed * 300),
              "scheduler still wants additional corroborating redundancy" ∷ [],
            ))
        else (0, []))

abbrev pub time_out_part : OrchestrationView → Contribution
time_out_part o =
    if ltb 0 o.timed_out_run_count
    then (min 1000 (o.timed_out_run_count * 400), "previous lease timed out" ∷ [])
    else (0, [])

abbrev pub failure_part : OrchestrationView → Contribution
failure_part o =
    if ltb o.timed_out_run_count o.failed_run_count
    then (
      min 800 ((o.failed_run_count - o.timed_out_run_count) * 250),
      "previous attempts ended without a successful contribution" ∷ [],
    )
    else (0, [])

abbrev pub raw_priority : WorkItem → ℕ
raw_priority item =
    let o = item.orchestration in
    (action_part o.recommended_action).0
    + lane_priority_boost item.kind item.lane item.source_type
    + (need_part o).0
    + (time_out_part o).0
    + (failure_part o).0

abbrev pub rationale_of : OrchestrationView → List String
rationale_of o =
    (action_part o.recommended_action).1
    ++ (need_part o).1
    ++ (time_out_part o).1
    ++ (failure_part o).1

unfoldable pub derive_claim_work_routing : WorkItem → List WorkItem → RoutingView
derive_claim_work_routing item items =
    let blocked = has_blocking_non_synthesis_work items item in
    if not item.orchestration.can_claim
    then record {
      blocked_by_open_work = blocked;
      priority_bps = 0;
      rationale = item.orchestration.status_reason ∷ [];
      tier = RoutingTier.hold;
    }
    else (let priority =
          clamp_priority (if blocked then min (raw_priority item) 1500 else raw_priority item) in
        record {
          blocked_by_open_work = blocked;
          priority_bps = priority;
          rationale =
              (if blocked
                then "waiting on lower-level open work before synthesis is useful"
                  ∷ rationale_of item.orchestration
                else rationale_of item.orchestration);
          tier = tier_for_priority priority;
        })
