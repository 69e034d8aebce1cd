-- ===== src/Work/Examples.antt =====
-- Items of a work graph for the tests.
use scientific_protocol.Common.{true, false, List, [], ◌∷◌, none, some, String}
use scientific_protocol.Lease.{RunStatus}
use scientific_protocol.Work.Types.{
  ReviewTaskType, WorkItemKind, WorkLane, SourceType, WorkStatus, WorkPolicy, WorkRun, WorkItem,
}
use scientific_protocol.Work.Policy.{agent_actions_for_work_item, lane_for_review_task}
use scientific_protocol.Work.Orchestration.{OrchestrationInput, derive_claim_work_orchestration}

abbrev pub failed_run : WorkRun
failed_run = record {
  agent_id = some "agent-a";
  failure_reason = some "heartbeat_timeout";
  finished_at = some "2026-01-02T00:00:00Z";
  last_heartbeat_at = none;
  run_id = "1";
  started_at = "2026-01-01T00:00:00Z";
  status = RunStatus.failed;
  worker_id = "worker-a";
}

abbrev pub scan_policy : WorkPolicy
scan_policy = record {
  max_contributors = some 3;
  min_contributors = some 2;
  require_distinct_agents = true;
  required_capabilities = "literature-scan" ∷ [];
}

-- A contradiction scan with one accepted submission and one run that timed out.
abbrev pub scan_input : OrchestrationInput
scan_input = record {
  agent_actions =
      agent_actions_for_work_item WorkItemKind.review_task
        (SourceType.of_review ReviewTaskType.contradiction_scan);
  kind = WorkItemKind.review_task;
  lane = WorkLane.evaluation;
  policy = some scan_policy;
  runs = failed_run ∷ [];
  status = WorkStatus.opened;
  successful_contributor_agent_ids = " agent-b" ∷ "" ∷ "agent-b" ∷ [];
  successful_contribution_count = 1;
}

abbrev pub synthesis_input : OrchestrationInput
synthesis_input = record {
  agent_actions =
      agent_actions_for_work_item WorkItemKind.review_task
        (SourceType.of_review ReviewTaskType.certification_synthesis_check);
  kind = WorkItemKind.review_task;
  lane = WorkLane.synthesis;
  policy = some (record {
    max_contributors = some 1;
    min_contributors = some 1;
    require_distinct_agents = false;
    required_capabilities = [];
  });
  runs = [];
  status = WorkStatus.opened;
  successful_contributor_agent_ids = [];
  successful_contribution_count = 0;
}

-- An item of claim 7 with the given input.
abbrev pub item_of : String → ReviewTaskType → OrchestrationInput → WorkItem
item_of item_id task_type input = record {
  active_run = none;
  agent_actions = input.agent_actions;
  claim_id = some "7";
  completed_at = none;
  created_at = "2026-01-01T00:00:00Z";
  description = "";
  item_id = item_id;
  kind = input.kind;
  lane = lane_for_review_task task_type;
  orchestration = derive_claim_work_orchestration input;
  policy = input.policy;
  related_artifact_keys = [];
  result = none;
  runs = input.runs;
  scope_key = none;
  source_type = SourceType.of_review task_type;
  status = input.status;
  subject_id = "claim:7";
  title = "";
  updated_at = none;
}

abbrev pub scan : WorkItem
scan = item_of "review_task:1" ReviewTaskType.contradiction_scan scan_input

abbrev pub synthesis : WorkItem
synthesis = item_of "review_task:2" ReviewTaskType.certification_synthesis_check synthesis_input

abbrev pub both : List WorkItem
both = scan ∷ synthesis ∷ []

abbrev pub done : List WorkItem
done = (record scan { status = WorkStatus.completed }) ∷ synthesis ∷ []
