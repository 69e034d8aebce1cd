-- ===== src/Sources/Kept.antt =====
-- What the branches of src/sources/auto-publish.ts keep of the attempts.
use scientific_protocol.Common.{
  ℕ, arith, Bool, true, false, ==_iff, ◌≡◌, refl, ap, ◌∙◌, inl, inr, Bool-cases, Option-cases,
  Option, none, some, List, ◌∷◌, String, Result, ok, thrown,
}
use scientific_protocol.Table.{Table, get, update, get-update}
use scientific_protocol.Sources.Rows.{
  Candidate, Cluster, Decision, Source, Attempt, PublicationMode, SourceStore,
}
use scientific_protocol.Sources.Decision.{decide_source_auto_publication}
use scientific_protocol.Sources.Publication.{
  new_attempt, reserve_source_publication_attempt, mark_source_publication_claim_ready,
  mark_source_publication_reconciliation_required, mark_source_publication_attempt_completed,
  mark_source_published, update_source_record_status, record_source_publication_decision,
}
use scientific_protocol.Sources.Attempting.{
  Creation, Created, awaiting_author_bond, published_as, after_checkpoint, Attempted, is_ready,
  conclude, after_creation, conflicts, create_for, resume, reserve_and_create, decline,
  publish_winner, follow_cluster, follow_decision, attempt_source_auto_publication,
}
use scientific_protocol.Sources.Winner.{find_winner}

abbrev pub is_there : Option Attempt → Bool
is_there none = false
is_there (some attempt) = true

-- Is there an attempt of the source?
abbrev pub is_attempted : ℕ → SourceStore → Bool
is_attempted k s = is_there (get k s.attempts)

there-update :
    (k j : ℕ) (f : Attempt → Attempt) (rows : Table Attempt)
    → is_there (get k (update j f rows)) ≡ is_there (get k rows)
there-update k j f rows = ground (arith, get-update k j f rows)

abbrev Same : SourceStore → SourceStore → Type 0
Same s t = (k : ℕ) → is_attempted k t ≡ is_attempted k s

-- The attempts of no source are lost, and a call that creates a claim is the first for its source, and leaves its
-- attempt.
pub record IsOnce (source_id : ℕ) (s : SourceStore) (out : Attempted) : Type 0 where
  pub keeps : (k : ℕ) → is_attempted k s ≡ true → is_attempted k out.store ≡ true
  pub first : (c : Candidate) → out.creation ≡ some c → is_attempted source_id s ≡ false
  pub leaves : (c : Candidate) → out.creation ≡ some c → is_attempted source_id out.store ≡ true

idle-IsOnce :
    (source_id : ℕ) (s : SourceStore) (out : Attempted)
    → Same s out.store
    → out.creation ≡ none
    → IsOnce source_id s out
idle-IsOnce source_id s out h e = record {
  keeps = λ k x. h k ∙ x;
  first = λ c f. ground (arith, e, f);
  leaves = λ c f. ground (arith, e, f);
}

module _ (now : ℕ) (key : Option String) (source_id : ℕ) (source : Source)
    (decision : Decision) where
  conclude-Same :
      (creation : Option Candidate) (published : Option String) (reason : String) (publishes : Bool)
      (s : SourceStore)
      → Same s
          (conclude now key source_id source decision creation published reason publishes s).store
  unfolding conclude mark_source_publication_attempt_completed mark_source_published
      update_source_record_status record_source_publication_decision
  conclude-Same creation none reason publishes s k = refl
  conclude-Same creation (some claim_id) reason publishes s k =
      there-update k source_id _ s.attempts

  conclude-creation :
      (creation : Option Candidate) (published : Option String) (reason : String) (publishes : Bool)
      (s : SourceStore)
      → (conclude now key source_id source decision creation published reason publishes s).creation
        ≡ creation
  unfolding conclude
  conclude-creation creation none reason publishes s = refl
  conclude-creation creation (some claim_id) reason publishes s = refl

  checkpoint-Same :
      (checkpoint : Option (String × String)) (s : SourceStore)
      → Same s (after_checkpoint now source_id checkpoint s)
  unfolding after_checkpoint mark_source_publication_claim_ready
  checkpoint-Same none s k = refl
  checkpoint-Same (some (claim_id, hashes)) s k = there-update k source_id _ s.attempts

  after_creation-Same :
      (candidate : Candidate) (result : Result String Created) (s : SourceStore)
      → Same s (after_creation now key source_id source decision candidate result s).store
  unfolding after_creation mark_source_publication_reconciliation_required
  after_creation-Same candidate (thrown error) s k = there-update k source_id _ s.attempts
  after_creation-Same candidate (ok awaiting_author_bond) s k =
      conclude-Same (some candidate) none "awaiting_author_bond" false s k
  after_creation-Same candidate (ok (published_as claim_id)) s k =
      conclude-Same (some candidate) (some claim_id) decision.reason decision.should_publish s k

  create_for-Same :
      (candidate : Candidate) (creation : Creation) (s : SourceStore)
      → Same s (create_for now key source_id source decision candidate creation s).store
  unfolding create_for
  create_for-Same candidate creation s k =
      after_creation-Same candidate creation.result
        (after_checkpoint now source_id creation.checkpoint s) k
      ∙ checkpoint-Same creation.checkpoint s k

  concluded-IsOnce :
      (published : Option String) (reason : String) (publishes : Bool) (s : SourceStore)
      → IsOnce source_id s
          (conclude now key source_id source decision none published reason publishes s)
  concluded-IsOnce published reason publishes s =
      idle-IsOnce source_id s _ (conclude-Same none published reason publishes s)
        (conclude-creation none published reason publishes s)

  resume-IsOnce :
      (candidate : Candidate) (attempt : Attempt) (s : SourceStore)
      → IsOnce source_id s (resume now key source_id source decision candidate attempt s)
  unfolding resume
  resume-IsOnce candidate attempt s = elim (Bool-cases (conflicts candidate attempt)) [
    | inl e ↦ rw (resume, e) (idle-IsOnce source_id s _ (λ k. refl) refl)
    | inr e ↦ elim (Bool-cases (is_ready attempt)) [
      | inl f ↦ rw (resume, e, f) (concluded-IsOnce none "awaiting_author_bond" false s)
      | inr f ↦ rw (resume, e, f) (idle-IsOnce source_id s _ (λ k. refl) refl)
    ]
  ]

  decline-IsOnce :
      (s : SourceStore) → IsOnce source_id s (decline now key source_id source decision s)
  unfolding decline record_source_publication_decision
  decline-IsOnce s = elim (Option-cases decision.winning_cluster) [
    | inl e ↦ rw (decline, e) (idle-IsOnce source_id s _ (λ k. refl) refl)
    | inr (cluster, e) ↦
        rw (decline, e) (concluded-IsOnce none decision.reason decision.should_publish s)
  ]

  reserve-IsOnce :
      (create : Candidate → Creation) (candidate : Candidate) (s : SourceStore)
      → IsOnce source_id s (reserve_and_create now key source_id source decision create candidate s)
  unfolding reserve_and_create reserve_source_publication_attempt
  reserve-IsOnce create candidate s = elim (Option-cases (get source_id s.attempts)) [
    | inr (attempt, e) ↦
        rw (reserve_and_create, reserve_source_publication_attempt, e)
          (resume-IsOnce candidate attempt s)
    | inl e ↦
        let reserved = record s {
          attempts =
              (source_id, new_attempt now candidate.candidate_id PublicationMode.automatic)
              ∷ s.attempts;
        } in
        rw (reserve_and_create, reserve_source_publication_attempt, e)
          (record {
            keeps =
                λ k x. create_for-Same candidate (create candidate) reserved k ∙ ground (arith, x);
            first = λ c f. ap is_there e;
            leaves = λ c f.
                create_for-Same candidate (create candidate) reserved source_id
                ∙ rw ((==_iff source_id source_id).1 refl) refl;
          })
  ]

  publish-IsOnce :
      (create : Candidate → Creation) (cluster : Cluster) (candidates : List Candidate)
      (s : SourceStore)
      → IsOnce source_id s
          (publish_winner now key source_id source decision create cluster candidates s)
  unfolding publish_winner
  publish-IsOnce create cluster candidates s =
      elim (Option-cases (find_winner cluster candidates)) [
        | inl e ↦
            rw (publish_winner, e) (concluded-IsOnce none "winning_candidate_not_found" false s)
        | inr (candidate, e) ↦ rw (publish_winner, e) (reserve-IsOnce create candidate s)
      ]

  cluster-IsOnce :
      (winning : Option Cluster) (publishes : Bool) (create : Candidate → Creation)
      (candidates : List Candidate) (s : SourceStore)
      → IsOnce source_id s
          (follow_cluster now key source_id source decision winning publishes create candidates s)
  unfolding follow_cluster
  cluster-IsOnce none publishes create candidates s = decline-IsOnce s
  cluster-IsOnce (some cluster) false create candidates s = decline-IsOnce s
  cluster-IsOnce (some cluster) true create candidates s =
      publish-IsOnce create cluster candidates s

  follow-IsOnce :
      (create : Candidate → Creation) (candidates : List Candidate) (s : SourceStore)
      → IsOnce source_id s (follow_decision now key source_id source decision create candidates s)
  unfolding follow_decision
  follow-IsOnce = cluster-IsOnce decision.winning_cluster decision.should_publish

module _ (lower : String → String) where
  pub attempt-IsOnce :
      (create : Candidate → Creation) (candidates : List Candidate) (now : ℕ) (key : Option String)
      (source_id : ℕ) (s : SourceStore)
      → IsOnce source_id s
          (attempt_source_auto_publication lower create candidates now key source_id s)
  unfolding attempt_source_auto_publication
  attempt-IsOnce create candidates now key source_id s =
      elim (Option-cases (get source_id s.sources)) [
        | inl e ↦
            rw (attempt_source_auto_publication, e) (idle-IsOnce source_id s _ (λ k. refl) refl)
        | inr (source, e) ↦ elim (Option-cases source.published_claim_id) [
          | inr (claim_id, f) ↦
              rw (attempt_source_auto_publication, e, f)
                (idle-IsOnce source_id s _ (λ k. refl) refl)
          | inl f ↦
              rw (attempt_source_auto_publication, e, f)
                (follow-IsOnce now key source_id source
                  (decide_source_auto_publication lower candidates) create candidates s)
        ]
      ]
