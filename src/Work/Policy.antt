-- ===== src/Work/Policy.antt =====
-- src/work/policy.ts: who may work on an item, with how many, and through which agent requests.
use scientific_protocol.Common.{ℕ, Bool, true, false, some, List, [], ◌∷◌, String}
use scientific_protocol.Maintenance.{TaskType}
use scientific_protocol.Work.Types.{
  ReviewTaskType, WorkItemKind, WorkLane, SourceType, WorkPolicy, AgentRequestAction, AgentActions,
}

-- `ReviewConsensusPolicy` of src/review/types.ts
pub record ReviewConsensusPolicy : Type 0 where
  pub max_submissions : ℕ
  pub min_submissions : ℕ
  pub require_distinct_agents : Bool

unfoldable pub default_review_consensus_policy : ReviewTaskType → ReviewConsensusPolicy
default_review_consensus_policy task_type = elim task_type [
  | ReviewTaskType.certification_synthesis_check ↦ only_one
  | ReviewTaskType.claim_extraction_synthesis_check ↦ only_one
  | ReviewTaskType.benchmark_rerun_check ↦ only_one
  | ReviewTaskType.claim_extraction_check ↦ distinct_up_to 4
  | ReviewTaskType.contradiction_scan ↦ distinct_up_to 3
  | ReviewTaskType.method_consistency_check ↦ distinct_up_to 3
  | ReviewTaskType.stats_sanity_check ↦ distinct_up_to 3
  | _ ↦ distinct_up_to 2
]
  where
    only_one : ReviewConsensusPolicy
    only_one = record { max_submissions = 1; min_submissions = 1; require_distinct_agents = false }

    distinct_up_to : ℕ → ReviewConsensusPolicy
    distinct_up_to n = record {
      max_submissions = n;
      min_submissions = 2;
      require_distinct_agents = true;
    }

unfoldable pub required_capabilities_for_review_task : ReviewTaskType → List String
required_capabilities_for_review_task task_type = elim task_type [
  | ReviewTaskType.artifact_completeness_check ↦ "artifact-access" ∷ "content-integrity" ∷ []
  | ReviewTaskType.artifact_integrity_check ↦ "artifact-access" ∷ "content-integrity" ∷ []
  | ReviewTaskType.benchmark_rerun_check ↦ "execution" ∷ "benchmark-rerun" ∷ []
  | ReviewTaskType.claim_extraction_check ↦ "claim-extraction" ∷ "literature-scan" ∷ []
  | ReviewTaskType.claim_extraction_synthesis_check ↦ "claim-synthesis" ∷ []
  | ReviewTaskType.contradiction_scan ↦ "literature-scan" ∷ "claim-comparison" ∷ []
  | ReviewTaskType.method_consistency_check ↦ "method-analysis" ∷ []
  | ReviewTaskType.replication_readiness_check ↦ "artifact-analysis" ∷ "execution-readiness" ∷ []
  | ReviewTaskType.stats_sanity_check ↦ "statistics" ∷ []
  | ReviewTaskType.certification_synthesis_check ↦ "claim-aggregation" ∷ []
]

unfoldable pub required_capabilities_for_artifact_maintenance_task : TaskType → List String
required_capabilities_for_artifact_maintenance_task TaskType.repair = "artifact-repair" ∷ []
required_capabilities_for_artifact_maintenance_task TaskType.audit = "artifact-audit" ∷ []

unfoldable pub lane_for_review_task : ReviewTaskType → WorkLane
lane_for_review_task task_type = elim task_type [
  | ReviewTaskType.certification_synthesis_check ↦ WorkLane.synthesis
  | ReviewTaskType.claim_extraction_synthesis_check ↦ WorkLane.synthesis
  | ReviewTaskType.benchmark_rerun_check ↦ WorkLane.execution
  | _ ↦ WorkLane.evaluation
]

-- The fields of a review task that its policy comes from are arguments.
unfoldable pub build_review_work_policy : ReviewConsensusPolicy → List String → WorkPolicy
build_review_work_policy consensus_policy required_capabilities = record {
  max_contributors = some consensus_policy.max_submissions;
  min_contributors = some consensus_policy.min_submissions;
  require_distinct_agents = consensus_policy.require_distinct_agents;
  required_capabilities = required_capabilities;
}

unfoldable pub build_artifact_maintenance_work_policy : TaskType → WorkPolicy
build_artifact_maintenance_work_policy task_type = record {
  max_contributors = some 1;
  min_contributors = some 1;
  require_distinct_agents = false;
  required_capabilities = required_capabilities_for_artifact_maintenance_task task_type;
}

unfoldable pub build_replication_work_policy : WorkPolicy
build_replication_work_policy = record {
  max_contributors = some 1;
  min_contributors = some 1;
  require_distinct_agents = false;
  required_capabilities = "execution" ∷ [];
}

-- The last return of the source, for a kind that is none of the three, is not reached.
unfoldable pub agent_actions_for_work_item : WorkItemKind → SourceType → AgentActions
agent_actions_for_work_item kind source_type = elim kind [
  | WorkItemKind.review_task ↦ record {
    claim = some AgentRequestAction.review_task_claim;
    heartbeat = some AgentRequestAction.review_task_heartbeat;
    submit = AgentRequestAction.review_task_submission ∷ [];
  }
  | WorkItemKind.artifact_maintenance ↦ record {
    claim = some AgentRequestAction.artifact_task_claim;
    heartbeat = some AgentRequestAction.artifact_task_heartbeat;
    submit = submit_action source_type ∷ [];
  }
  | WorkItemKind.replication_job ↦ record {
    claim = some AgentRequestAction.replication_job_claim;
    heartbeat = some AgentRequestAction.replication_job_heartbeat;
    submit = AgentRequestAction.replication_job_submission ∷ [];
  }
]
  where
    submit_action : SourceType → AgentRequestAction
    submit_action (SourceType.of_maintenance TaskType.repair) =
        AgentRequestAction.artifact_task_repair_submission
    submit_action _ = AgentRequestAction.artifact_task_audit_submission
