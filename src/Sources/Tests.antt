-- ===== src/Sources/Tests.antt =====
-- Publications of src/sources on small inputs, and the uses of the theorems there.
use scientific_protocol.Common.{
  false, arith, ◌≤◌, true, ◌≡◌, refl, none, some, List, [], ◌∷◌, String, ok, thrown, All, trim,
  is_space,
}
use scientific_protocol.Sources.Rows.{
  SourceRecordStatus, DiscoveryMode, Candidate, Cluster, Source, SourceStore,
}
use scientific_protocol.Sources.Decision.{
  decide_source_auto_publication, sort_clusters, normalize_text, group_all, cluster_of,
}
use scientific_protocol.Sources.Threshold.{IsSupported, Trails, publishes-IsSupported}
use scientific_protocol.Sources.Publication.{
  reserve_source_publication_attempt, mark_source_publication_claim_ready,
  mark_source_publication_reconciliation_required, mark_source_publication_attempt_completed,
  mark_source_published, update_source_record_status, record_source_publication_decision,
}
use scientific_protocol.Sources.Attempting.{
  Creation, published_as, after_checkpoint, after_creation, conclude, create_for, resume,
  reserve_and_create, decline, publish_winner, follow_cluster, follow_decision,
  attempt_source_auto_publication,
}
use scientific_protocol.Sources.Winner.{third_part}
use scientific_protocol.Sources.Ingestion.{
  reserve_source_ingestion_attempt, complete_source_ingestion_attempt,
  fail_source_ingestion_attempt,
}
use scientific_protocol.Sources.Ingesting.{lease_exclusive}
use scientific_protocol.Sources.Once.{Call, called, creations, creations-le}

abbrev lower : String → String
lower text = text

abbrev by : String → String → Candidate
by agent statement = record {
  anchors = ("p1", "quote") ∷ [];
  candidate_id = agent;
  claim_type = "effect";
  confidence_bps = 8000;
  created_at = 1;
  methodology = "rct";
  reviewer_agent_id = some agent;
  scope = "adults";
  statement = statement;
  submission_id = 1;
  task_id = 1;
}

abbrev two : String → List Candidate
two statement = by "a" statement ∷ by "b" statement ∷ []

abbrev source : Source
source = record {
  discovery_mode = DiscoveryMode.agent_discovered;
  published_claim_id = none;
  status = SourceRecordStatus.extracting;
  submitted_by_actor = none;
  updated_at = 0;
}

abbrev store : SourceStore
store = record { sources = (7, source) ∷ []; attempts = []; decisions = [] }

abbrev call : Creation → String → Call
call creation statement = record {
  create = λ candidate. creation;
  candidates = two statement;
  now = 5;
  artifact_key = none;
  source_id = 7;
}

abbrev fails : Creation
fails = record { checkpoint = none; result = thrown "rpc" }

abbrev publishes : Creation
publishes = record { checkpoint = some ("c9", "{}"); result = ok (published_as "c9") }

-- What the tests run.
sources : Unit {0}
unfolding decide_source_auto_publication sort_clusters normalize_text trim is_space
    attempt_source_auto_publication follow_decision follow_cluster publish_winner decline
    reserve_and_create resume create_for after_creation conclude third_part after_checkpoint
    reserve_source_publication_attempt mark_source_publication_claim_ready
    mark_source_publication_reconciliation_required mark_source_publication_attempt_completed
    mark_source_published update_source_record_status record_source_publication_decision
sources = tt

agreed : (decide_source_auto_publication lower (two "x helps")).should_publish ≡ true
unfolding sources
agreed = refl

-- A claim is published; after a failure it waits for a person.
published :
    ((called lower (call publishes "x helps") store).creation ≡ some (by "a" "x helps"))
    × ((called lower
          (call publishes "x helps")
          (called lower (call fails "x helps") store).store).creation
        ≡ none)
unfolding sources
published = (refl, refl)

-- A bar in the statement shifts the parts of the key, so that the winning candidate is not found.
barred :
    ((decide_source_auto_publication lower (two "x|y")).should_publish ≡ true)
    × ((called lower (call publishes "x|y") store).creation ≡ none)
unfolding sources
barred = (refl, refl)

publishes-IsSupported_example :
    (w : Cluster) × ((decide_source_auto_publication lower (two "x helps")).winning_cluster
      ≡ some w)
    × IsSupported (group_all lower (two "x helps") []) w
    × All (λ group. Trails w (cluster_of group)) (group_all lower (two "x helps") [])
publishes-IsSupported_example = publishes-IsSupported lower (two "x helps") agreed

creations-le_example :
    creations lower 7
      (call fails "x helps" ∷ call publishes "x helps" ∷ call publishes "x helps" ∷ [])
      store
    ≤ 1
creations-le_example =
    creations-le lower 7
      (call fails "x helps" ∷ call publishes "x helps" ∷ call publishes "x helps" ∷ []) store

leased : (reserve_source_ingestion_attempt 10 7 100 "a" []).0.0 ≡ true
unfolding reserve_source_ingestion_attempt
leased = refl

lease_exclusive_example :
    ((reserve_source_ingestion_attempt 50 7 300 "b"
        (reserve_source_ingestion_attempt 10 7 100 "a" []).1).0.0
      ≡ false)
    × (complete_source_ingestion_attempt 50 7 "b" 3
          (reserve_source_ingestion_attempt 10 7 100 "a" []).1
        ≡ (false, (reserve_source_ingestion_attempt 10 7 100 "a" []).1))
    × (fail_source_ingestion_attempt 50 7 "late" "b"
          (reserve_source_ingestion_attempt 10 7 100 "a" []).1
        ≡ (reserve_source_ingestion_attempt 10 7 100 "a" []).1)
    × ((complete_source_ingestion_attempt 200 7 "a" 3
          (reserve_source_ingestion_attempt 10 7 100 "a" []).1).0
        ≡ true)
    × ((reserve_source_ingestion_attempt 300 7 100 "c"
          (complete_source_ingestion_attempt 200 7 "a" 3
            (reserve_source_ingestion_attempt 10 7 100 "a" []).1).1).1
        ≡ (complete_source_ingestion_attempt 200 7 "a" 3
            (reserve_source_ingestion_attempt 10 7 100 "a" []).1).1)
lease_exclusive_example =
    lease_exclusive 10 7 100 "a" "b" "c" "late" [] 50 300 200 3 leased (omega arith) refl
