-- ===== src/Review/Distinct.antt =====
-- A policy of src/review/store.ts that wants distinct agents: no agent submits twice.
use scientific_protocol.Common.{
  ℕ, suc, ◌≤◌, arith, Bool, true, false, ◌&&◌, not, ◌≡◌, refl, ap, subst, ◌∙◌, inl, inr, ◌⊎◌,
  Bool-cases, Option-cases, Option, none, some, List, [], ◌∷◌, String, ◌==◌, ==_iff, str_eq, eq_iff,
  is_empty, if◌then◌else◌, ltb,
}
use scientific_protocol.Lease.{Candidate}
use scientific_protocol.Table.{get, count-le}
use scientific_protocol.Review.{
  ReviewTask, ReviewStore, policy_of, running, map_review_task_row, submitted_by, submitted,
  column_is, may_beat, fail_review_task_run,
}
use scientific_protocol.Review.Policy.{normalize-to_raw}
use scientific_protocol.Review.Leases.{
  heartbeat_review_task_run, time_out, expire_all, expire_stale_review_task_runs,
}
use scientific_protocol.Review.Submission.{
  SubmissionInput, submits_twice, settle_task, add_submission,
}
use scientific_protocol.Review.Submitting.{record_rule}
use scientific_protocol.Review.Consensus.{Counter, Move, stay, create, lease, release, submit}
use scientific_protocol.Review.Effects.{frame, counter}
use scientific_protocol.Review.Moves.{IsKeyed, create_rule, claim_rule}
use scientific_protocol.Review.Refinement.{
  Step, creates, claims, fails, beats, expires, submits, Reach, here, next, empty_store, Step-Move,
  Reach-IsKeyed,
}

-- An agent's submissions to a task do not grow, unless the task is there and, where it wants distinct agents, the
-- agent has at most one afterwards.
abbrev Fair : ReviewStore → ReviewStore → ℕ → String → Type 0
Fair s t k agent =
    (submitted_by t k agent ≤ submitted_by s k agent)
    ⊎ ((row : ReviewTask) × (get k s.tasks ≡ some row)
        × ((policy_of row).require_distinct_agents ≡ true → submitted_by t k agent ≤ 1))

same-Fair :
    (s t : ReviewStore) (k : ℕ) (agent : String) → t.submissions ≡ s.submissions → Fair s t k agent
same-Fair s t k agent h = inl (rw h (omega arith))

expire_all-submissions :
    (now : ℕ) (cs : List Candidate) (s : ReviewStore)
    → (expire_all now cs s).1.submissions ≡ s.submissions
unfolding expire_all
expire_all-submissions now [] s = refl
expire_all-submissions now (c ∷ cs) s = expire_all-submissions now cs (time_out now c s)

expire-submissions :
    (now : ℕ) (locked : ℕ → Bool) (limit : Option ℕ) (ms : ℕ) (s : ReviewStore)
    → (expire_stale_review_task_runs now locked limit ms s).1.submissions ≡ s.submissions
unfolding expire_stale_review_task_runs
expire-submissions now locked limit ms s = expire_all-submissions now _ s

heartbeat-Fair :
    (now : ℕ) (a : Option String) (r j : ℕ) (w : Option String) (s : ReviewStore) (k : ℕ)
    (agent : String)
    → Fair s (heartbeat_review_task_run now a r j w s).1 k agent
unfolding heartbeat_review_task_run
heartbeat-Fair now a r j w s k agent = elim (Bool-cases (may_beat s a r j w)) [
  | inl e ↦ rw (heartbeat_review_task_run, e) (inl (omega arith))
  | inr e ↦ rw (heartbeat_review_task_run, e) (inl (omega arith))
]

fail-Fair :
    (now : ℕ) (reason : String) (r j : ℕ) (s : ReviewStore) (k : ℕ) (agent : String)
    → Fair s (fail_review_task_run now reason r j s).1 k agent
unfolding fail_review_task_run
fail-Fair now reason r j s k agent = inl (omega arith)

first_time :
    (a : String) (distinct : Bool) (n : ℕ)
    → is_empty a ≡ false
    → distinct ≡ true
    → (not (is_empty a) && distinct && ltb 0 n) ≡ false
    → n ≡ 0
first_time a distinct n e d h = ground (arith, e, d, h)

module _ (lower : String → String) (now : ℕ) (input : SubmissionInput) (s : ReviewStore)
    (row : ReviewTask) (found : get input.task_id s.tasks ≡ some row)
    (once : submits_twice input (map_review_task_row row) s ≡ false) where
  abbrev recorded : ReviewStore
  recorded =
      settle_task lower now input (map_review_task_row row)
        (add_submission lower now input (map_review_task_row row) s)

  own_submission :
      (agent : String)
      → is_empty agent ≡ false
      → input.reviewer_agent_id ≡ some agent
      → (policy_of row).require_distinct_agents ≡ true
      → submitted_by s input.task_id agent ≡ 0
  own_submission agent filled e distinct =
      first_time agent (policy_of (map_review_task_row row)).require_distinct_agents _ filled
        (ap (λ p. p.require_distinct_agents) (normalize-to_raw row.consensus_policy) ∙ distinct)
        (rw e at once)

  counted :
      (k : ℕ) (agent : String)
      → submitted_by recorded k agent ≡ (
          if input.task_id == k && column_is agent input.reviewer_agent_id
          then suc (submitted_by s k agent)
          else submitted_by s k agent)
  counted k agent = refl

  apart :
      (k : ℕ) (agent : String)
      → (input.task_id == k && column_is agent input.reviewer_agent_id) ≡ false
      → Fair s recorded k agent
  apart k agent e = inl (rw (counted k agent, e) (omega arith))

  own-Fair :
      (agent : String)
      → is_empty agent ≡ false
      → input.reviewer_agent_id ≡ some agent
      → Fair s recorded input.task_id agent
  own-Fair agent filled e = inr (
    row,
    found,
    λ distinct.
        rw (counted input.task_id agent, e, own_submission agent filled e distinct) (ground arith),
  )

  recorded-Fair : (k : ℕ) (agent : String) → is_empty agent ≡ false → Fair s recorded k agent
  recorded-Fair k agent filled = elim (Bool-cases (input.task_id == k)) [
    | inr e ↦ apart k agent (ground (arith, e))
    | inl e ↦ elim (Option-cases input.reviewer_agent_id) [
      | inl f ↦ apart k agent (rw f (ground arith))
      | inr (a, f) ↦ elim (Bool-cases (str_eq a agent)) [
        | inr g ↦ apart k agent (rw (f, g) (ground arith))
        | inl g ↦
            subst (λ j. Fair s recorded j agent) ((==_iff input.task_id k).0 e)
              (own-Fair agent filled (f ∙ ap some ((eq_iff a agent).0 g)))
      ]
    ]
  ]

module _ (lower : String → String) where
  Step-Fair :
      {s t : ReviewStore}
      → Step lower s t
      → (k : ℕ) (agent : String) → is_empty agent ≡ false
      → Fair s t k agent
  Step-Fair (creates {s} now input) k agent filled =
      create_rule (λ t. Fair s t k agent) now input s (same-Fair s s k agent refl)
        (λ sid. inl (omega arith))
  Step-Fair (claims {s} now a j w) k agent filled =
      claim_rule (λ t. Fair s t k agent) now a j w s (same-Fair s s k agent refl)
        (λ t e m. inl (omega arith))
  Step-Fair (fails {s} now reason r j) k agent filled = fail-Fair now reason r j s k agent
  Step-Fair (beats {s} now a r j w) k agent filled = heartbeat-Fair now a r j w s k agent
  Step-Fair (expires {s} now locked limit ms) k agent filled =
      same-Fair s (expire_stale_review_task_runs now locked limit ms s).1 k agent
        (expire-submissions now locked limit ms s)
  Step-Fair (submits {s} now input r e) k agent filled =
      record_rule (λ t. Fair s t k agent) lower now input s (same-Fair s s k agent refl)
        λ row found c d. recorded-Fair lower now input s row found d k agent filled

Move-policy :
    {a b : Option Counter}
    → Move a b
    → (d : Counter) → b ≡ some d
    → (a ≡ none) ⊎ ((c : Counter) × (a ≡ some c) × (c.policy ≡ d.policy))
Move-policy (stay {c}) d e = inr (d, e, refl)
Move-policy (create o x y p) d e = inl refl
Move-policy (lease {c} o h q) d e = inr (c, refl, ground (arith, q, e))
Move-policy (release {c} left h q) d e = inr (c, refl, ground (arith, q, e))
Move-policy (submit {c} left h q) d e = inr (c, refl, ground (arith, q, e))

by-le : (s : ReviewStore) (k : ℕ) (agent : String) → submitted_by s k agent ≤ submitted s k
by-le s k agent = count-le _ _ s.submissions (λ sub h. ground (arith, h))

abbrev Distinct : ReviewStore → Type 0
Distinct s =
    (k : ℕ) (agent : String) (row : ReviewTask)
    → is_empty agent ≡ false
    → get k s.tasks ≡ some row
    → (policy_of row).require_distinct_agents ≡ true
    → submitted_by s k agent ≤ 1

module _ (lower : String → String) {s t : ReviewStore} (st : Step lower s t) (v : IsKeyed s) where
  step-policy :
      (k : ℕ) (before after : ReviewTask)
      → get k s.tasks ≡ some before
      → get k t.tasks ≡ some after
      → policy_of before ≡ policy_of after
  step-policy k before after e f =
      elim (Move-policy (Step-Move lower st v k) _
        (ap (λ o. counter (frame o) (submitted t k) (running t k)) f)) [
          | inl n ↦ ground (arith, n, e)
          | inr (c, same, p) ↦ ground (arith, same, e, p)
        ]

  Step-Distinct : Distinct s → Distinct t
  Step-Distinct h k agent row filled found wanted = elim (Option-cases (get k s.tasks)) [
    | inl n ↦ elim (Step-Fair lower st k agent filled) [
      | inl le ↦ omega (arith, le, by-le s k agent, (v.owned k n).0)
      | inr (old, there, x) ↦ ground (arith, n, there)
    ]
    | inr (old, e) ↦
        let wanted_before =
          ap (λ p. p.require_distinct_agents) (step-policy k old row e found) ∙ wanted in
        elim (Step-Fair lower st k agent filled) [
          | inl le ↦ omega (arith, le, h k agent old filled e wanted_before)
          | inr (row', there, x) ↦ x (ground (arith, e, there, wanted_before))
        ]
  ]

-- Where the policy of a task wants distinct agents, no agent ever has two submissions to it, in any history of the
-- operations that starts with empty tables and where each submission names its run.
pub Reach-submitted_by-le :
    (lower : String → String) {s : ReviewStore}
    → Reach lower empty_store s
    → (k : ℕ) (agent : String) (row : ReviewTask) → is_empty agent ≡ false
    → get k s.tasks ≡ some row
    → (policy_of row).require_distinct_agents ≡ true
    → submitted_by s k agent ≤ 1
Reach-submitted_by-le lower here k agent row filled found wanted = omega arith
Reach-submitted_by-le lower (next r st) k agent row filled found wanted =
    Step-Distinct lower st (Reach-IsKeyed lower r) (Reach-submitted_by-le lower r) k agent row
      filled found wanted
