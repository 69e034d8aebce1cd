-- ===== src/Work/Types.antt =====
-- The views of src/work/types.ts. A count or a share is a natural number, a time stamp the text that the server sends.
-- `WorkItem` is an item before routing and scheduling, as `Omit` makes it in the source.
use scientific_protocol.Common.{ℕ, Bool, true, false, Option, List, String}
use scientific_protocol.Lease.{RunStatus}
use scientific_protocol.Maintenance.{TaskType}

-- `ReviewTaskType` of src/review/types.ts
pub data ReviewTaskType : Type 0 where
  artifact_completeness_check : ReviewTaskType
  artifact_integrity_check : ReviewTaskType
  benchmark_rerun_check : ReviewTaskType
  certification_synthesis_check : ReviewTaskType
  claim_extraction_check : ReviewTaskType
  claim_extraction_synthesis_check : ReviewTaskType
  contradiction_scan : ReviewTaskType
  method_consistency_check : ReviewTaskType
  replication_readiness_check : ReviewTaskType
  stats_sanity_check : ReviewTaskType

pub data WorkItemKind : Type 0 where
  artifact_maintenance replication_job review_task : WorkItemKind

pub data WorkLane : Type 0 where
  evaluation execution maintenance synthesis : WorkLane

pub data WorkStatus : Type 0 where
  canceled completed escalated failed leased opened : WorkStatus

pub data SourceType : Type 0 where
  of_maintenance : TaskType → SourceType
  of_review : ReviewTaskType → SourceType
  of_replication : SourceType

pub record WorkPolicy : Type 0 where
  pub max_contributors : Option ℕ
  pub min_contributors : Option ℕ
  pub require_distinct_agents : Bool
  pub required_capabilities : List String

pub data OrchestrationAction : Type 0 where
  claim closed complete escalate reassign wait : OrchestrationAction

pub record OrchestrationView : Type 0 where
  pub active_run_count : ℕ
  pub attempt_count : ℕ
  pub can_claim : Bool
  pub can_reassign : Bool
  pub completed_run_count : ℕ
  pub contributors_needed : ℕ
  pub distinct_contributor_count : ℕ
  pub distinct_contributor_shortfall : ℕ
  pub failed_run_count : ℕ
  pub minimum_contributors_needed : ℕ
  pub minimum_satisfied : Bool
  pub recommended_action : OrchestrationAction
  pub remaining_contributor_slots : Option ℕ
  pub requires_distinct_contributors : Bool
  pub should_escalate : Bool
  pub status_reason : String
  pub successful_contribution_count : ℕ
  pub target_contributors_needed : ℕ
  pub target_satisfied : Bool
  pub timed_out_run_count : ℕ

pub data RoutingTier : Type 0 where
  critical high hold low normal : RoutingTier

pub record RoutingView : Type 0 where
  pub blocked_by_open_work : Bool
  pub priority_bps : ℕ
  pub rationale : List String
  pub tier : RoutingTier

pub data SchedulingStrategy : Type 0 where
  distinct parallel single synthesis : SchedulingStrategy

pub record SchedulingView : Type 0 where
  pub auto_claimable : Bool
  pub blocker : Option String
  pub blocking_item_ids : List String
  pub desired_additional_claims : ℕ
  pub needs_minimum_coverage : Bool
  pub needs_redundant_coverage : Bool
  pub prefers_fresh_contributor : Bool
  pub reassignment_preferred : Bool
  pub reason : String
  pub strategy : SchedulingStrategy
  pub unresolved_dependency_count : ℕ

pub record WorkRun : Type 0 where
  pub agent_id : Option String
  pub failure_reason : Option String
  pub finished_at : Option String
  pub last_heartbeat_at : Option String
  pub run_id : String
  pub started_at : String
  pub status : RunStatus
  pub worker_id : String

pub data ResultType : Type 0 where
  artifact_report replication_result review_submission : ResultType

pub record WorkResult : Type 0 where
  pub artifact_key : Option String
  pub confidence_bps : Option ℕ
  pub created_at : Option String
  pub label : String
  pub summary : String
  pub type : ResultType
  pub verdict : Option String

pub data AgentRequestAction : Type 0 where
  artifact_task_audit_submission : AgentRequestAction
  artifact_task_claim : AgentRequestAction
  artifact_task_heartbeat : AgentRequestAction
  artifact_task_repair_submission : AgentRequestAction
  replication_job_claim : AgentRequestAction
  replication_job_heartbeat : AgentRequestAction
  replication_job_submission : AgentRequestAction
  review_task_claim : AgentRequestAction
  review_task_heartbeat : AgentRequestAction
  review_task_submission : AgentRequestAction

pub record AgentActions : Type 0 where
  pub claim : Option AgentRequestAction
  pub heartbeat : Option AgentRequestAction
  pub submit : List AgentRequestAction

pub record WorkItem : Type 0 where
  pub active_run : Option WorkRun
  pub agent_actions : AgentActions
  pub claim_id : Option String
  pub completed_at : Option String
  pub created_at : String
  pub description : String
  pub item_id : String
  pub kind : WorkItemKind
  pub lane : WorkLane
  pub orchestration : OrchestrationView
  pub policy : Option WorkPolicy
  pub related_artifact_keys : List String
  pub result : Option WorkResult
  pub runs : List WorkRun
  pub scope_key : Option String
  pub source_type : SourceType
  pub status : WorkStatus
  pub subject_id : String
  pub title : String
  pub updated_at : Option String

-- An item with its routing, and the whole of `ClaimWorkItemView`.
pub record RoutedItem : Type 0 where
  pub item : WorkItem
  pub routing : RoutingView

pub record ScheduledItem : Type 0 where
  pub routed : RoutedItem
  pub scheduling : SchedulingView

-- The literal comparisons of the source.
abbrev pub is_opened : WorkStatus → Bool
is_opened WorkStatus.opened = true
is_opened _ = false

abbrev pub is_leased : WorkStatus → Bool
is_leased WorkStatus.leased = true
is_leased _ = false

abbrev pub is_escalated : WorkStatus → Bool
is_escalated WorkStatus.escalated = true
is_escalated _ = false

abbrev pub is_failed : WorkStatus → Bool
is_failed WorkStatus.failed = true
is_failed _ = false

abbrev pub is_synthesis : WorkLane → Bool
is_synthesis WorkLane.synthesis = true
is_synthesis _ = false

abbrev pub is_reassign : OrchestrationAction → Bool
is_reassign OrchestrationAction.reassign = true
is_reassign _ = false
