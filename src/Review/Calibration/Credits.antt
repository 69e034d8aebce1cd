-- ===== src/Review/Calibration/Credits.antt =====
-- The history of src/review/calibration.ts against a description of its own: the credits that an agent earns.
use scientific_protocol.Common.{
  max, min, ℕ, ◌+◌, ◌-◌, max, min, arith, Bool, true, false, not, ◌&&◌, ◌≡◌, refl, ap, ◌∙◌, inl,
  inr, Bool-cases, Option-cases, Option, none, some, List, [], ◌∷◌, String, str_eq, is_empty,
  if◌then◌else◌,
}
use scientific_protocol.Review.{ReviewSubmission}
use scientific_protocol.Review.Calibration.{
  Contribution, Outcome, outcome_of, is_excluded, claim_outcome_support_bps,
  submission_support_signal_bps, contribution_of,
}
use scientific_protocol.Review.Calibration.History.{by_agent, if_agent}

-- The support of a claim: a pass over the list of claims, in which each later one that names the claim, is not excluded
-- and has a final status takes the place of the earlier ones. `before` is the support so far.
abbrev pub support_after :
    (excluded : Option String) (claim_id : String) (before : Option ℕ)
    → List (String × ℕ)
    → Option ℕ
support_after excluded claim_id before [] = before
support_after excluded claim_id before ((held, status) ∷ claims) =
    support_after excluded claim_id
      (if str_eq held claim_id && not (is_excluded excluded held)
        then (elim (claim_outcome_support_bps status) [ none ↦ before | some s ↦ some s ])
        else before)
      claims

-- Ten thousand less the distance of two shares.
abbrev pub agreement : ℕ → ℕ → ℕ
agreement a b = 10000 - ((a - b) + (b - a))

-- Is the agent, who has a name, the reviewer?
abbrev pub reviewed_by : String → Option String → Bool
reviewed_by agent none = false
reviewed_by agent (some reviewer) = not (is_empty reviewer) && str_eq reviewer agent

abbrev pub add_credit : Bool → Option ℕ → List ℕ → List ℕ
add_credit true (some credit) rest = credit ∷ rest
add_credit _ _ rest = rest

module _ (excluded : Option String) (claims : List (String × ℕ)) where
  -- The credit of a verdict on a claim: none, where the claim is not named or has no support.
  abbrev pub credit_on : ℕ → Option String → Option ℕ
  credit_on signal none = none
  credit_on signal (some claim_id) =
      if is_empty claim_id then none else elim (support_after excluded claim_id none claims) [
        | none ↦ none
        | some support ↦ some (agreement support signal)
      ]

  -- The credits of one agent, in the order of its submissions.
  unfoldable pub credits : String → List (ℕ × ReviewSubmission) → List ℕ
  credits agent [] = []
  credits agent ((_, submission) ∷ rest) =
      add_credit (reviewed_by agent submission.reviewer_agent_id)
        (credit_on (submission_support_signal_bps submission.verdict) submission.claim_id)
        (credits agent rest)

abbrev support_of : Option ℕ → Option Outcome → Option ℕ
support_of before none = before
support_of before (some outcome) = some outcome.outcome_support_bps

outcome_step :
    (before support : Option ℕ) (named : Bool) (status : ℕ)
    → support ≡ claim_outcome_support_bps status
    → (if named then (elim support [ none ↦ before | some s ↦ some s ]) else before)
      ≡ support_of before (
          if named
          then elim support [
            | none ↦ none
            | some s ↦ some (record { claim_status = status; outcome_support_bps = s })
          ]
          else none)
outcome_step before none true status e = refl
outcome_step before (some s) true status e = refl
outcome_step before support false status e = refl

support_after-outcome_of :
    (excluded : Option String) (claim_id : String) (claims : List (String × ℕ)) (before : Option ℕ)
    → support_after excluded claim_id before claims
      ≡ support_of before (outcome_of excluded claims claim_id)
support_after-outcome_of excluded claim_id [] before = refl
support_after-outcome_of excluded claim_id ((held, status) ∷ claims) before =
    support_after-outcome_of excluded claim_id claims _
    ∙ (elim (Option-cases (outcome_of excluded claims claim_id)) [
      | inr (o, e) ↦ rw e refl
      | inl e ↦ rw e (
          outcome_step before (claim_outcome_support_bps status)
            (str_eq held claim_id && not (is_excluded excluded held)) status refl)
    ])

agreement_lem : (p s : ℕ) → max 0 (min 10000 (10000 - (max p s - min p s))) ≡ agreement s p
agreement_lem p s = omega arith

abbrev pub scores : List Contribution → List ℕ
scores [] = []
scores (c ∷ rest) = c.calibration_bps ∷ scores rest

credited :
    (named : Bool) (support signal : ℕ) (rest : List Contribution) (c : Contribution)
    → c.calibration_bps ≡ max 0 (min 10000 (10000 - (max signal support - min signal support)))
    → scores (if named then c ∷ rest else rest)
      ≡ add_credit named (some (agreement support signal)) (scores rest)
credited true support signal rest c e = ap (λ n. n ∷ scores rest) (e ∙ agreement_lem signal support)
credited false support signal rest c e = refl

module _ (excluded : Option String) (claims : List (String × ℕ)) (agent : String) where
  scores_step :
      (id : ℕ) (submission : ReviewSubmission) (rest : List Contribution)
      → scores (if_agent agent (contribution_of (outcome_of excluded claims) (id, submission)) rest)
        ≡ add_credit
            (reviewed_by agent submission.reviewer_agent_id)
            (credit_on excluded claims
              (submission_support_signal_bps submission.verdict)
              submission.claim_id)
            (scores rest)
  unfolding contribution_of
  scores_step id submission rest = elim (Option-cases submission.reviewer_agent_id) [
    | inl e ↦ rw e refl
    | inr (reviewer, e) ↦ elim (Bool-cases (is_empty reviewer)) [
      | inl n ↦ rw (contribution_of, e) (rw n refl)
      | inr n ↦ elim (Option-cases submission.claim_id) [
        | inl f ↦ rw (contribution_of, e) (rw n (rw f (ground arith)))
        | inr (claim_id, f) ↦ elim (Bool-cases (is_empty claim_id)) [
          | inl m ↦ rw (contribution_of, e) (rw n (rw f (rw m (ground arith))))
          | inr m ↦ elim (Option-cases (outcome_of excluded claims claim_id)) [
            | inl o ↦
                rw (contribution_of, e)
                  (rw n (
                    rw f (
                      rw m (
                        rw (support_after-outcome_of excluded claim_id claims none, o)
                          (ground arith)))))
            | inr (outcome, o) ↦
                rw (contribution_of, e)
                  (rw n (
                    rw f (
                      rw m (
                        rw (support_after-outcome_of excluded claim_id claims none, o)
                          (credited (str_eq reviewer agent) outcome.outcome_support_bps
                            (submission_support_signal_bps submission.verdict) rest _ refl)))))
          ]
        ]
      ]
    ]
  ]

  pub scores-by_agent :
      (submissions : List (ℕ × ReviewSubmission))
      → scores (by_agent (outcome_of excluded claims) agent submissions)
        ≡ credits excluded claims agent submissions
  unfolding by_agent credits
  scores-by_agent [] = refl
  scores-by_agent ((id, submission) ∷ rest) =
      scores_step id submission _
      ∙ ap
          (add_credit (reviewed_by agent submission.reviewer_agent_id) (
            credit_on excluded claims (submission_support_signal_bps submission.verdict)
              submission.claim_id))
          (scores-by_agent rest)
