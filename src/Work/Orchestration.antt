-- ===== src/Work/Orchestration.antt =====
-- src/work/orchestration.ts: what an item still needs. The counts of a policy are natural numbers, so that
-- `positiveOrZero (a - b)` is the subtraction that stops at 0.
use scientific_protocol.Common.{
  ℕ, suc, ◌+◌, ◌-◌, Bool, true, false, ◌&&◌, ◌||◌, not, Option, none, some, List, [], ◌∷◌, map,
  String, str_eq, trim, is_empty, or_else, length, filter, any, ltb, leb, ◌==◌, if◌then◌else◌,
}
use scientific_protocol.Lease.{RunStatus}
use scientific_protocol.Work.Types.{
  WorkItemKind, WorkLane, WorkStatus, WorkPolicy, OrchestrationAction, OrchestrationView, WorkRun,
  AgentActions, is_opened, is_leased, is_escalated,
}

pub record OrchestrationInput : Type 0 where
  pub agent_actions : AgentActions
  pub kind : WorkItemKind
  pub lane : WorkLane
  pub policy : Option WorkPolicy
  pub runs : List WorkRun
  pub status : WorkStatus
  pub successful_contributor_agent_ids : List String
  pub successful_contribution_count : ℕ

unfoldable pub escalation_threshold_for_work_item : WorkItemKind → WorkLane → ℕ
escalation_threshold_for_work_item WorkItemKind.artifact_maintenance lane = 2
escalation_threshold_for_work_item _ WorkLane.synthesis = 1
escalation_threshold_for_work_item _ _ = 2

-- `new Set(texts).size`
abbrev pub set_size : List String → ℕ
set_size [] = 0
set_size (text ∷ texts) =
    let rest = set_size texts in if any (str_eq text) texts then rest else suc rest

unfoldable pub distinct_contributor_count : List String → ℕ
distinct_contributor_count agent_ids =
    set_size (filter (λ agent_id. not (is_empty agent_id)) (map trim agent_ids))

unfoldable pub closed_recommendation_for_status : WorkStatus → Option OrchestrationAction
closed_recommendation_for_status WorkStatus.completed = some OrchestrationAction.complete
closed_recommendation_for_status WorkStatus.failed = some OrchestrationAction.closed
closed_recommendation_for_status WorkStatus.canceled = some OrchestrationAction.closed
closed_recommendation_for_status WorkStatus.escalated = some OrchestrationAction.escalate
closed_recommendation_for_status _ = none

pub status_reason_from_closed_state : WorkStatus → Option String
status_reason_from_closed_state WorkStatus.completed =
    some "work item reached a terminal completed state"
status_reason_from_closed_state WorkStatus.failed = some "work item reached a terminal failed state"
status_reason_from_closed_state WorkStatus.canceled =
    some "work item was canceled and is no longer claimable"
status_reason_from_closed_state WorkStatus.escalated =
    some "work item has been escalated for manual or higher-trust handling"
status_reason_from_closed_state _ = none

abbrev pub run_is_running : WorkRun → Bool
run_is_running run = elim run.status [ RunStatus.running ↦ true | _ ↦ false ]

abbrev pub run_is_completed : WorkRun → Bool
run_is_completed run = elim run.status [ RunStatus.completed ↦ true | _ ↦ false ]

abbrev pub run_is_failed : WorkRun → Bool
run_is_failed run = elim run.status [ RunStatus.failed ↦ true | _ ↦ false ]

abbrev pub run_timed_out : WorkRun → Bool
run_timed_out run = elim run.failure_reason [ none ↦ false | some r ↦ str_eq r "heartbeat_timeout" ]

abbrev pub slots_left : Option ℕ → (used active : ℕ) → Option ℕ
slots_left none used active = none
slots_left (some n) used active = some (n - used - active)

-- `remainingContributorSlots === null || remainingContributorSlots > 0`
abbrev pub has_slot : Option ℕ → Bool
has_slot none = true
has_slot (some n) = ltb 0 n

abbrev pub is_given {ℓ} : {A : Type ℓ} → Option A → Bool
is_given none = false
is_given (some a) = true

-- The local constants of `deriveClaimWorkOrchestration`, before its branches.
module _ (input : OrchestrationInput) where
  abbrev pub active_runs : ℕ
  active_runs = length (filter run_is_running input.runs)

  abbrev pub failed_runs : List WorkRun
  failed_runs = filter run_is_failed input.runs

  abbrev pub timed_out_runs : ℕ
  timed_out_runs = length (filter run_timed_out failed_runs)

  abbrev pub min_wanted : ℕ
  min_wanted = elim input.policy [ none ↦ 0 | some p ↦ or_else p.min_contributors 0 ]

  abbrev pub max_allowed : Option ℕ
  max_allowed = elim input.policy [ none ↦ none | some p ↦ p.max_contributors ]

  abbrev pub requires_distinct : Bool
  requires_distinct = elim input.policy [ none ↦ false | some p ↦ p.require_distinct_agents ]

  -- What counts towards the policy.
  abbrev pub contributions : ℕ
  contributions =
      if requires_distinct
      then distinct_contributor_count input.successful_contributor_agent_ids
      else input.successful_contribution_count

  abbrev pub minimum_needed : ℕ
  minimum_needed = min_wanted - contributions

  abbrev pub target_needed : ℕ
  target_needed = or_else max_allowed min_wanted - contributions

  abbrev pub remaining_slots : Option ℕ
  remaining_slots = slots_left max_allowed input.successful_contribution_count active_runs

  abbrev pub claim_open : Bool
  claim_open =
      is_opened input.status && is_given input.agent_actions.claim && has_slot remaining_slots

  abbrev pub reassignable : Bool
  reassignable =
      is_opened input.status
      && active_runs == 0
      && ltb 0 (length failed_runs)
      && claim_open
      && ltb 0 target_needed

  abbrev pub exhausted : Bool
  exhausted =
      let threshold = escalation_threshold_for_work_item input.kind input.lane in
      is_escalated input.status
      || (is_opened input.status
          && active_runs == 0
          && ltb 0 minimum_needed
          && (leb threshold timed_out_runs || leb (threshold + 1) (length failed_runs)))

  abbrev pub reassign_reason : String
  reassign_reason =
      if not (minimum_needed == 0)
      then (if requires_distinct && ltb 0 minimum_needed
          then "previous runs ended without enough distinct contributors and the item can be reassigned"
          else "previous runs ended without enough successful contributions and the item can be reassigned")
      else (if requires_distinct && ltb 0 target_needed
          then "minimum corroboration is satisfied, but a fresh distinct contributor is still useful before this work item is considered well-covered"
          else "minimum corroboration is satisfied, but another corroborating contribution is still useful before this work item is considered well-covered")

  abbrev pub claim_reason : String
  claim_reason =
      if not (minimum_needed == 0)
      then (if requires_distinct && ltb 0 minimum_needed
          then "item is open and still needs additional distinct contributors"
          else "item is open and still needs additional contributions")
      else (if requires_distinct && ltb 0 target_needed
          then "item reached its minimum threshold but can still accept another distinct corroborating contribution"
          else (if ltb 0 target_needed
              then "item reached its minimum threshold but can still accept another corroborating contribution"
              else "item is open and can accept more contributions"))

  -- The four fields in which the returned records differ.
  abbrev pub view :
      (can_claim can_reassign : Bool)
      → OrchestrationAction
      → (status_reason : String) → OrchestrationView
  view can_claim can_reassign recommended_action status_reason = record {
    active_run_count = active_runs;
    attempt_count = length input.runs;
    can_claim = can_claim;
    can_reassign = can_reassign;
    completed_run_count = length (filter run_is_completed input.runs);
    contributors_needed = minimum_needed;
    distinct_contributor_count = distinct_contributor_count input.successful_contributor_agent_ids;
    distinct_contributor_shortfall = if requires_distinct then minimum_needed else 0;
    failed_run_count = length failed_runs;
    minimum_contributors_needed = minimum_needed;
    minimum_satisfied = minimum_needed == 0;
    recommended_action = recommended_action;
    remaining_contributor_slots = remaining_slots;
    requires_distinct_contributors = requires_distinct;
    should_escalate = exhausted;
    status_reason = status_reason;
    successful_contribution_count = input.successful_contribution_count;
    target_contributors_needed = target_needed;
    target_satisfied = target_needed == 0;
    timed_out_run_count = timed_out_runs;
  }

  -- The returns after the one of a closed status.
  abbrev pub open_view : OrchestrationView
  open_view =
      if exhausted
      then view claim_open reassignable OrchestrationAction.escalate
          "item exhausted its current retry path without enough successful contributions"
      else (if ltb 0 active_runs || is_leased input.status
          then view claim_open false OrchestrationAction.wait
              "work is currently leased to an active agent run"
          else (if reassignable
              then view claim_open reassignable OrchestrationAction.reassign reassign_reason
              else (if claim_open
                  then view claim_open reassignable OrchestrationAction.claim claim_reason
                  else view claim_open reassignable OrchestrationAction.wait
                      "item is open but currently has no available contributor slots")))

  unfoldable pub derive_claim_work_orchestration : OrchestrationView
  derive_claim_work_orchestration = elim (closed_recommendation_for_status input.status) [
    | some recommendation ↦
        view false false recommendation
          (or_else (status_reason_from_closed_state input.status) "work item is not claimable")
    | none ↦ open_view
  ]
