-- ===== src/Sources/Publication.antt =====
-- The publication attempts of src/sources/store.ts, one for each source, and the other writes of a publication.
use scientific_protocol.Common.{ℕ, Bool, true, false, Option, none, some, ◌∷◌, String, slice}
use scientific_protocol.Table.{get, update}
use scientific_protocol.Sources.Rows.{
  SourceRecordStatus, AttemptStatus, PublicationMode, Attempt, DecisionRow, SourceStore,
}

abbrev pub new_attempt : ℕ → String → PublicationMode → Attempt
new_attempt now candidate_id publication_mode = record {
  candidate_id = candidate_id;
  claim_id = none;
  created_at = now;
  last_error = none;
  publication_mode = publication_mode;
  status = AttemptStatus.pending;
  transaction_hashes = none;
  updated_at = now;
}

abbrev pub read_source_publication_attempt : ℕ → SourceStore → Option Attempt
read_source_publication_attempt source_id s = get source_id s.attempts

-- The attempt of the source, and whether this call made it.
unfoldable pub reserve_source_publication_attempt :
    ℕ
    → (candidate_id : String) → PublicationMode
    → (source_id : ℕ) → SourceStore
    → (Attempt × Bool) × SourceStore
reserve_source_publication_attempt now candidate_id publication_mode source_id s =
    elim (get source_id s.attempts) [
      | some attempt ↦ ((attempt, false), s)
      | none ↦
          let attempt = new_attempt now candidate_id publication_mode in
          ((attempt, true), record s { attempts = (source_id, attempt) ∷ s.attempts })
    ]

abbrev pub claim_ready_attempt : ℕ → String → String → Attempt → Attempt
claim_ready_attempt now claim_id hashes attempt = record attempt {
  claim_id = some claim_id;
  transaction_hashes = some hashes;
  status = AttemptStatus.claim_ready;
  last_error = none;
  updated_at = now;
}

unfoldable pub mark_source_publication_claim_ready :
    ℕ
    → (claim_id : String) (source_id : ℕ) (transaction_hashes : String) → SourceStore
    → SourceStore
mark_source_publication_claim_ready now claim_id source_id hashes s = record s {
  attempts = update source_id (claim_ready_attempt now claim_id hashes) s.attempts;
}

abbrev pub reconcile_attempt : ℕ → String → Attempt → Attempt
reconcile_attempt now error attempt = elim attempt.status [
  | AttemptStatus.pending ↦ record attempt {
    status = AttemptStatus.reconciliation_required;
    last_error = some (slice 2000 error);
    updated_at = now;
  }
  | _ ↦ attempt
]

unfoldable pub mark_source_publication_reconciliation_required :
    ℕ → (error : String) (source_id : ℕ) → SourceStore → SourceStore
mark_source_publication_reconciliation_required now error source_id s = record s {
  attempts = update source_id (reconcile_attempt now error) s.attempts;
}

abbrev pub completed_attempt : ℕ → Attempt → Attempt
completed_attempt now attempt = elim attempt.claim_id [
  | none ↦ attempt
  | some claim_id ↦ record attempt {
    status = AttemptStatus.completed;
    last_error = none;
    updated_at = now;
  }
]

unfoldable pub mark_source_publication_attempt_completed :
    ℕ → (source_id : ℕ) → SourceStore → SourceStore
mark_source_publication_attempt_completed now source_id s = record s {
  attempts = update source_id (completed_attempt now) s.attempts;
}

unfoldable pub mark_source_published :
    ℕ → (claim_id : String) (source_id : ℕ) → SourceStore → SourceStore
mark_source_published now claim_id source_id s = record s {
  sources =
      update source_id
        (λ source. record source {
          published_claim_id = some claim_id;
          status = SourceRecordStatus.published;
          updated_at = now;
        })
        s.sources;
}

unfoldable pub update_source_record_status :
    ℕ → (source_id : ℕ) → SourceRecordStatus → SourceStore → SourceStore
update_source_record_status now source_id status s = record s {
  sources =
      update source_id (λ source. record source { status = status; updated_at = now }) s.sources;
}

unfoldable pub record_source_publication_decision : DecisionRow → SourceStore → SourceStore
record_source_publication_decision row s = record s { decisions = row ∷ s.decisions }
