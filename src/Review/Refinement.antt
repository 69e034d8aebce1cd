-- ===== src/Review/Refinement.antt =====
-- The review tables implement the consensus of Review/Consensus: src/review/store.ts.
use scientific_protocol.Common.{
  ltb, Bool-cases, inl, inr, arith, ℕ, ◌+◌, ◌≤◌, Bool, ◌≡◌, refl, ap, subst, Option, some, [],
  String,
}
use scientific_protocol.Table.{get}
use scientific_protocol.Review.{
  ReviewTask, ReviewStore, policy_of, task_is_open, CreateInput, create_review_task,
  claim_review_task_by_id, fail_review_task_run, submitted, running,
}
use scientific_protocol.Review.Leases.{heartbeat_review_task_run, expire_stale_review_task_runs}
use scientific_protocol.Review.Submission.{SubmissionInput, record_review_submission}
use scientific_protocol.Review.Consensus.{Move, stay, IsAgreedIf, Move-IsAgreed, Counter, IsAgreed}
use scientific_protocol.Review.Effects.{
  frame, counter, view, fail-Shrinks, heartbeat-Shrinks, expire-Shrinks,
}
use scientific_protocol.Review.Submitting.{
  record_rule, check_run-eq-ok, recorded-IsKeyed, recorded-Move,
}
use scientific_protocol.Review.Moves.{
  IsKeyed, shrunk-Move, shrunk-IsKeyed, create_rule, claim_rule, inserted-Move, inserted-IsKeyed,
  leased, leased-Move, leased-IsKeyed,
}

abbrev pub empty_store : ReviewStore
empty_store = record {
  tasks = [];
  runs = [];
  submissions = [];
  issues = [];
  next_task = 0;
  next_run = 0;
  next_submission = 0;
}

-- The operations, by any callers. A submission names its run, as the API and the worker of src/review do.
pub data Step (lower : String → String) : ReviewStore → ReviewStore → Type 0 where
  creates :
      {s : ReviewStore} (now : ℕ) (input : CreateInput)
      → Step lower s (create_review_task now input s).1
  claims :
      {s : ReviewStore} (now : ℕ) (agent_id : Option String) (task_id : ℕ) (worker_id : String)
      → Step lower s (claim_review_task_by_id now agent_id task_id worker_id s).1
  fails :
      {s : ReviewStore} (now : ℕ) (reason : String) (run_id task_id : ℕ)
      → Step lower s (fail_review_task_run now reason run_id task_id s).1
  beats :
      {s : ReviewStore} (now : ℕ) (agent_id : Option String) (run_id task_id : ℕ)
      (worker_id : Option String)
      → Step lower s (heartbeat_review_task_run now agent_id run_id task_id worker_id s).1
  expires :
      {s : ReviewStore} (now : ℕ) (locked : ℕ → Bool) (limit : Option ℕ) (stale_after_ms : ℕ)
      → Step lower s (expire_stale_review_task_runs now locked limit stale_after_ms s).1
  submits :
      {s : ReviewStore} (now : ℕ) (input : SubmissionInput) (run_id : ℕ)
      → input.run_id ≡ some run_id
      → Step lower s (record_review_submission lower now input s).1

pub data Reach (lower : String → String) (s : ReviewStore) : ReviewStore → Type 0 where
  here : Reach lower s s
  next : {t u : ReviewStore} → Reach lower s t → Step lower t u → Reach lower s u

module _ (lower : String → String) where
  submit-IsKeyed :
      (now : ℕ) (input : SubmissionInput) (r : ℕ) (s : ReviewStore)
      → input.run_id ≡ some r
      → IsKeyed s
      → IsKeyed (record_review_submission lower now input s).1
  submit-IsKeyed now input r s e v = record_rule IsKeyed lower now input s v λ row found c d.
      let (run, leased, held) = check_run-eq-ok input s r e c in
      recorded-IsKeyed lower now input r s row e found run leased held v

  submit-Move :
      (now : ℕ) (input : SubmissionInput) (r : ℕ) (s : ReviewStore) (k : ℕ)
      → input.run_id ≡ some r
      → Move (view s k) (view (record_review_submission lower now input s).1 k)
  submit-Move now input r s k e =
      record_rule (λ t. Move (view s k) (view t k)) lower now input s stay
        λ row found c d.
          let (run, leased, held) = check_run-eq-ok input s r e c in
          recorded-Move lower now input r s row e found run leased held k

  pub Step-IsKeyed : {s t : ReviewStore} → Step lower s t → IsKeyed s → IsKeyed t
  Step-IsKeyed (creates {s} now input) v =
      create_rule IsKeyed now input s v (λ sid. inserted-IsKeyed now input sid s v)
  Step-IsKeyed (claims {s} now agent j w) v =
      claim_rule IsKeyed now agent j w s v (λ t e m. leased-IsKeyed now agent j w s t e v)
  Step-IsKeyed (fails {s} now reason r k) v = shrunk-IsKeyed (fail-Shrinks now reason r k s) v
  Step-IsKeyed (beats {s} now agent r k w) v =
      shrunk-IsKeyed (heartbeat-Shrinks now agent r k w s) v
  Step-IsKeyed (expires {s} now locked limit ms) v =
      shrunk-IsKeyed (expire-Shrinks now locked limit ms s) v
  Step-IsKeyed (submits {s} now input r e) v = submit-IsKeyed now input r s e v

  -- Where keys are fresh, each operation, a submission naming its run, makes one move of the consensus, or none, on each
  -- task.
  pub Step-Move :
      {s t : ReviewStore} → Step lower s t → IsKeyed s → (k : ℕ) → Move (view s k) (view t k)
  Step-Move (creates {s} now input) v k =
      create_rule (λ t. Move (view s k) (view t k)) now input s stay
        (λ sid. inserted-Move now input sid s v k)
  Step-Move (claims {s} now agent j w) v k =
      claim_rule (λ t. Move (view s k) (view t k)) now agent j w s stay
        (λ t e m. leased-Move now agent j w s t e m k)
  Step-Move (fails {s} now reason r j) v k = shrunk-Move k (fail-Shrinks now reason r j s)
  Step-Move (beats {s} now agent r j w) v k = shrunk-Move k (heartbeat-Shrinks now agent r j w s)
  Step-Move (expires {s} now locked limit ms) v k =
      shrunk-Move k (expire-Shrinks now locked limit ms s)
  Step-Move (submits {s} now input r e) v k = submit-Move now input r s k e

  pub Reach-IsKeyed : {s : ReviewStore} → Reach lower empty_store s → IsKeyed s
  Reach-IsKeyed here = record { fresh = λ k le. refl; owned = λ k e. (refl, refl) }
  Reach-IsKeyed (next r st) = Step-IsKeyed st (Reach-IsKeyed r)

  reached-IsAgreedIf :
      {s : ReviewStore} → Reach lower empty_store s → (k : ℕ) → IsAgreedIf (view s k)
  reached-IsAgreedIf here k = tt
  reached-IsAgreedIf (next r st) k =
      Move-IsAgreed (Step-Move st (Reach-IsKeyed r) k) (reached-IsAgreedIf r k)

open_exactly : (c : Counter) → IsAgreed c → c.is_open ≡ ltb c.submitted c.policy.min_submissions
open_exactly c v = elim (Bool-cases c.is_open) [
  | inl e ↦ ground (arith, e, v.open_below e)
  | inr e ↦ ground (arith, e, v.closed_from e)
]

-- In every history of the operations that starts with empty tables, where each submission names its run, a task is
-- open exactly while it has fewer submissions than its policy wants, and its submissions and running runs together
-- never exceed the most that the policy allows.
pub Reach-IsAgreed :
    (lower : String → String) {s : ReviewStore}
    → Reach lower empty_store s
    → (k : ℕ) (row : ReviewTask) → get k s.tasks ≡ some row
    → (task_is_open row ≡ ltb (submitted s k) (policy_of row).min_submissions)
      × (submitted s k + running s k ≤ (policy_of row).max_submissions)
Reach-IsAgreed lower {s} r k row e =
    let v =
      subst IsAgreedIf (ap (λ o. counter (frame o) (submitted s k) (running s k)) e)
        (reached-IsAgreedIf lower r k) in
    (open_exactly _ v, v.within)
