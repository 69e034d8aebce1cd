-- ===== src/Sources/Rows.antt =====
-- The rows of src/sources/store.ts and the types of src/sources/types.ts. Keys are numbers; texts of the JSON columns
-- are their JSON.
use scientific_protocol.Common.{ℕ, Option, List, String, Bool}
use scientific_protocol.Table.{Table}

pub data SourceRecordStatus : Type 0 where
  discovered extracting published ready_for_publication rejected snapshotted : SourceRecordStatus

pub data DiscoveryMode : Type 0 where
  agent_discovered user_submitted : DiscoveryMode

-- `SourceExtractionCandidate`; `anchors` are the pairs of label and text.
pub record Candidate : Type 0 where
  pub anchors : List (String × String)
  pub candidate_id : String
  pub claim_type : String
  pub confidence_bps : ℕ
  pub created_at : ℕ
  pub methodology : String
  pub reviewer_agent_id : Option String
  pub scope : String
  pub statement : String
  pub submission_id : ℕ
  pub task_id : ℕ

-- `SourcePublicationCluster`
pub record Cluster : Type 0 where
  pub average_confidence_bps : ℕ
  pub cluster_key : String
  pub distinct_agents : ℕ
  pub member_count : ℕ
  pub methodology : String
  pub scope : String
  pub statement : String

-- `SourceAutoPublicationDecision`; the ratio is the pair of the numbers that are divided.
pub record Decision : Type 0 where
  pub competing_strength_ratio : Option (ℕ × ℕ)
  pub reason : String
  pub should_publish : Bool
  pub winning_cluster : Option Cluster

-- `source_records`, as far as the publication reads and writes it.
pub record Source : Type 0 where
  pub discovery_mode : DiscoveryMode
  pub published_claim_id : Option String
  pub status : SourceRecordStatus
  pub submitted_by_actor : Option String
  pub updated_at : ℕ

pub data AttemptStatus : Type 0 where
  claim_ready completed pending reconciliation_required : AttemptStatus

pub data PublicationMode : Type 0 where
  automatic manual : PublicationMode

-- `source_publication_attempts`, keyed by the source, which is unique there.
pub record Attempt : Type 0 where
  pub candidate_id : String
  pub claim_id : Option String
  pub created_at : ℕ
  pub last_error : Option String
  pub publication_mode : PublicationMode
  pub status : AttemptStatus
  pub transaction_hashes : Option String
  pub updated_at : ℕ

-- `source_publication_decisions`
pub record DecisionRow : Type 0 where
  pub competing_strength_ratio : Option (ℕ × ℕ)
  pub decision_artifact_key : Option String
  pub published_claim_id : Option String
  pub reason : String
  pub should_publish : Bool
  pub source_id : ℕ
  pub winning_cluster : Option Cluster

pub record SourceStore : Type 0 where
  pub sources : Table Source
  pub attempts : Table Attempt
  pub decisions : List DecisionRow
