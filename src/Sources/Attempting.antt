-- ===== src/Sources/Attempting.antt =====
-- `attemptSourceAutoPublication` of src/sources/auto-publish.ts. The creation of a claim is the parameter `createClaim`
-- of the source: what it does is an argument here. The writes of artifacts and of the read model, and the
-- signer, are taken to return, and the identity of a claim not to be empty.
use scientific_protocol.Common.{
  ℕ, Bool, true, false, not, ◌||◌, Option, none, some, List, String, str_eq, Result, ok, thrown,
  if◌then◌else◌,
}
use scientific_protocol.Table.{get}
use scientific_protocol.Sources.Rows.{
  SourceRecordStatus, Candidate, Cluster, Decision, Source, AttemptStatus, PublicationMode, Attempt,
  DecisionRow, SourceStore,
}
use scientific_protocol.Sources.Decision.{decide_source_auto_publication}
use scientific_protocol.Sources.Publication.{
  reserve_source_publication_attempt, mark_source_publication_claim_ready,
  mark_source_publication_reconciliation_required, mark_source_publication_attempt_completed,
  mark_source_published, update_source_record_status, record_source_publication_decision,
}
use scientific_protocol.Sources.Winner.{third_part, find_winner}

-- How `createClaim` ends: it awaits the bond of the author, or the claim is published.
pub data Created : Type 0 where
  awaiting_author_bond : Created
  published_as : String → Created

-- What a call of it does: the checkpoint that it hands to `onClaimReady`, a claim with the transactions, if it gets
-- that far, and how it ends.
pub record Creation : Type 0 where
  pub checkpoint : Option (String × String)
  pub result : Result String Created

unfoldable pub after_checkpoint :
    ℕ → (source_id : ℕ) → Option (String × String) → SourceStore → SourceStore
unfolding mark_source_publication_claim_ready
after_checkpoint now source_id none s = s
after_checkpoint now source_id (some (claim_id, hashes)) s =
    mark_source_publication_claim_ready now claim_id source_id hashes s

pub record Published : Type 0 where
  pub published_claim_id : Option String
  pub reason : String
  pub source : Option Source

-- A call: what it returns or throws, the store after it, and the candidate that it calls `createClaim` for.
pub record Attempted : Type 0 where
  pub outcome : Result String Published
  pub store : SourceStore
  pub creation : Option Candidate

abbrev pub is_automatic : PublicationMode → Bool
is_automatic PublicationMode.automatic = true
is_automatic PublicationMode.manual = false

abbrev pub is_ready : Attempt → Bool
is_ready attempt = elim attempt.status [
  | AttemptStatus.claim_ready ↦ elim attempt.claim_id [ none ↦ false | some claim_id ↦ true ]
  | _ ↦ false
]

abbrev pub conflicts : Candidate → Attempt → Bool
conflicts candidate attempt =
    not (str_eq attempt.candidate_id candidate.candidate_id)
    || not (is_automatic attempt.publication_mode)

module _ (now : ℕ) (artifact_key : Option String) (source_id : ℕ) (source : Source)
    (decision : Decision) where
  abbrev pub nothing_published : String → SourceStore → Result String Published
  nothing_published reason s =
      ok (record { published_claim_id = none; reason = reason; source = get source_id s.sources })

  abbrev pub decision_row : Option String → String → Bool → DecisionRow
  decision_row published reason publishes = record {
    competing_strength_ratio = decision.competing_strength_ratio;
    decision_artifact_key = artifact_key;
    published_claim_id = published;
    reason = reason;
    should_publish = publishes;
    source_id = source_id;
    winning_cluster = decision.winning_cluster;
  }

  -- The end of the call, after the attempt.
  unfoldable pub conclude :
      Option Candidate → Option String → String → Bool → SourceStore → Attempted
  unfolding mark_source_publication_attempt_completed mark_source_published
      update_source_record_status record_source_publication_decision
  conclude creation none reason publishes s =
      let s' =
        update_source_record_status now source_id SourceRecordStatus.ready_for_publication s in
      record {
        outcome = nothing_published reason s';
        store = record_source_publication_decision (decision_row none reason publishes) s';
        creation = creation;
      }
  conclude creation (some claim_id) reason publishes s =
      let s' = mark_source_published now claim_id source_id s in
      record {
        outcome = ok (record {
          published_claim_id = some claim_id;
          reason = reason;
          source = get source_id s'.sources;
        });
        store =
            mark_source_publication_attempt_completed now source_id (
              record_source_publication_decision (decision_row (some claim_id) reason publishes)
                s');
        creation = creation;
      }

  -- How the call goes on after `createClaim`.
  unfoldable pub after_creation : Candidate → Result String Created → SourceStore → Attempted
  unfolding mark_source_publication_reconciliation_required conclude
  after_creation candidate (thrown error) s = record {
    outcome = thrown error;
    store = mark_source_publication_reconciliation_required now error source_id s;
    creation = some candidate;
  }
  after_creation candidate (ok awaiting_author_bond) s =
      conclude (some candidate) none "awaiting_author_bond" false s
  after_creation candidate (ok (published_as claim_id)) s =
      conclude (some candidate) (some claim_id) decision.reason decision.should_publish s

  unfoldable pub create_for : Candidate → Creation → SourceStore → Attempted
  unfolding after_checkpoint after_creation
  create_for candidate creation s =
      after_creation candidate creation.result
        (after_checkpoint now source_id creation.checkpoint s)

  -- An earlier call made the attempt.
  unfoldable pub resume : Candidate → Attempt → SourceStore → Attempted
  unfolding conclude
  resume candidate attempt s =
      if conflicts candidate attempt
      then record {
        outcome = ok (record {
          published_claim_id = none;
          reason = "publication_attempt_conflict";
          source = some source;
        });
        store = s;
        creation = none;
      }
      else (if not (is_ready attempt)
          then record {
            outcome = ok (record {
              published_claim_id = none;
              reason = "publication_requires_reconciliation";
              source = some source;
            });
            store = s;
            creation = none;
          }
          else conclude none none "awaiting_author_bond" false s)

  unfoldable pub reserve_and_create : (Candidate → Creation) → Candidate → SourceStore → Attempted
  unfolding resume create_for reserve_source_publication_attempt
  reserve_and_create create candidate s =
      let ((attempt, created), s') =
        reserve_source_publication_attempt now candidate.candidate_id PublicationMode.automatic
          source_id s in
      if created then create_for candidate (create candidate) s' else resume candidate attempt s'

  -- No winning candidate, or no decision to publish.
  unfoldable pub decline : SourceStore → Attempted
  unfolding conclude record_source_publication_decision
  decline s = elim decision.winning_cluster [
    | some cluster ↦ conclude none none decision.reason decision.should_publish s
    | none ↦ record {
      outcome =
          ok (record { published_claim_id = none; reason = decision.reason; source = some source });
      store =
          record_source_publication_decision
            (decision_row none decision.reason decision.should_publish) s;
      creation = none;
    }
  ]

  unfoldable pub publish_winner :
      (Candidate → Creation) → Cluster → List Candidate → SourceStore → Attempted
  unfolding reserve_and_create conclude third_part
  publish_winner create cluster candidates s = elim (find_winner cluster candidates) [
    | none ↦ conclude none none "winning_candidate_not_found" false s
    | some candidate ↦ reserve_and_create create candidate s
  ]

  -- By the winning cluster, and whether it is to be published.
  unfoldable pub follow_cluster :
      Option Cluster → Bool → (Candidate → Creation) → List Candidate → SourceStore → Attempted
  unfolding publish_winner decline
  follow_cluster none publishes create candidates s = decline s
  follow_cluster (some cluster) false create candidates s = decline s
  follow_cluster (some cluster) true create candidates s =
      publish_winner create cluster candidates s

  unfoldable pub follow_decision : (Candidate → Creation) → List Candidate → SourceStore → Attempted
  unfolding follow_cluster
  follow_decision = follow_cluster decision.winning_cluster decision.should_publish

-- `candidates` are the extraction candidates of the source, and `artifact_key` the key of the artifact of the decision.
unfoldable pub attempt_source_auto_publication :
    (lower : String → String) (create : Candidate → Creation) (candidates : List Candidate)
    (now : ℕ) (artifact_key : Option String) (source_id : ℕ)
    → SourceStore
    → Attempted
unfolding decide_source_auto_publication follow_decision
attempt_source_auto_publication lower create candidates now artifact_key source_id s =
    elim (get source_id s.sources) [
      | none ↦ record {
        outcome =
            ok (record { published_claim_id = none; reason = "source_not_found"; source = none });
        store = s;
        creation = none;
      }
      | some source ↦ elim source.published_claim_id [
        | some claim_id ↦ record {
          outcome = ok (record {
            published_claim_id = some claim_id;
            reason = "already_published";
            source = some source;
          });
          store = s;
          creation = none;
        }
        | none ↦
            follow_decision now artifact_key source_id source
              (decide_source_auto_publication lower candidates) create candidates s
      ]
    ]
