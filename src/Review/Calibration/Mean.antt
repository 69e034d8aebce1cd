-- ===== src/Review/Calibration/Mean.antt =====
-- The mean of the credits of one agent, in the history of src/review/calibration.ts.
use native.Mathlib.Nat.{div-mul-le_self, lt-div-mul-add, div-lt_iff_lt-mul}
use scientific_protocol.Common.{
  suc, refl, ℕ, ◌+◌, ◌*◌, ◌/◌, ◌≤◌, ◌<◌, min, arith, Bool, true, false, ◌≡◌, ap, ◌∙◌, inl, inr,
  Bool-cases, Option-cases, Option, none, some, List, [], ◌∷◌, String, is_empty, or_else, ltb,
  if◌then◌else◌, length,
}
use scientific_protocol.Review.{ReviewSubmission}
use scientific_protocol.Review.Calibration.{
  Contribution, outcome_of, submission_support_signal_bps, total_calibration, samples_of,
  clamp_bps_of, build_agent_calibration_history, aggregate_all,
}
use scientific_protocol.Review.Calibration.History.{
  average_in, samples_in, by_agent, history-by_agent,
}
use scientific_protocol.Review.Calibration.Credits.{
  credits, scores, scores-by_agent, credit_on, support_after, reviewed_by, add_credit,
}
use scientific_protocol.Review.Calibration.Entries.{
  entries_of, entries_of-map, places-aggregate_all, placed_lem,
}

abbrev pub sum : List ℕ → ℕ
sum [] = 0
sum (n ∷ rest) = n + sum rest

-- The mean of `n` numbers with the given total, rounded to the nearest whole number and a half up; none of no number.
abbrev pub IsMean : (n total : ℕ) → Option ℕ → Type 0
IsMean n total none = n ≡ 0
IsMean n total (some mean) =
    (0 < n) × (mean * (2 * n) ≤ 2 * total + n) × (2 * total + n < mean * (2 * n) + 2 * n)

clamp_inert :
    (n total : ℕ) → 0 < n → total ≤ 10000 * n → IsMean n total (some (clamp_bps_of total n))
clamp_inert n total p h =
    let positive : 0 < 2 * n = omega (arith, p) in
    let low = div-mul-le_self (2 * total + n) (2 * n) in
    let high = lt-div-mul-add {a = 2 * total + n} {b = 2 * n} positive in
    let small : (2 * total + n) / (2 * n) < 10001 =
      (div-lt_iff_lt-mul positive).1 (omega (arith, p, h)) in
    let same : clamp_bps_of total n ≡ (2 * total + n) / (2 * n) = omega (arith, small) in
    rw same (p, low, high)

added_le :
    (named : Bool) (credit : Option ℕ) (rest : List ℕ)
    → or_else credit 0 ≤ 10000
    → sum rest ≤ 10000 * length rest
    → sum (add_credit named credit rest) ≤ 10000 * length (add_credit named credit rest)
added_le true (some c) rest h k = omega (arith, h, k)
added_le true none rest h k = k
added_le false credit rest h k = k

credit_le :
    (excluded : Option String) (claims : List (String × ℕ)) (signal : ℕ) (claim : Option String)
    → or_else (credit_on excluded claims signal claim) 0 ≤ 10000
credit_le excluded claims signal none = omega arith
credit_le excluded claims signal (some claim_id) = elim (Bool-cases (is_empty claim_id)) [
  | inl e ↦ rw e (omega arith)
  | inr e ↦ elim (Option-cases (support_after excluded claim_id none claims)) [
    | inl f ↦ rw (e, f) (omega arith)
    | inr (support, f) ↦ rw (e, f) (omega arith)
  ]
]

sum-credits-le :
    (excluded : Option String) (claims : List (String × ℕ)) (agent : String)
    (submissions : List (ℕ × ReviewSubmission))
    → sum (credits excluded claims agent submissions)
      ≤ 10000 * length (credits excluded claims agent submissions)
unfolding credits
sum-credits-le excluded claims agent [] = omega arith
sum-credits-le excluded claims agent ((id, submission) ∷ rest) =
    added_le (reviewed_by agent submission.reviewer_agent_id) _ _
      (credit_le excluded claims (submission_support_signal_bps submission.verdict)
        submission.claim_id)
      (sum-credits-le excluded claims agent rest)

clamp_bps_of-IsMean :
    (n total : ℕ)
    → total ≤ 10000 * n
    → IsMean n total (if ltb 0 n then some (clamp_bps_of total n) else none)
clamp_bps_of-IsMean n total h = elim (Bool-cases (ltb 0 n)) [
  | inl e ↦ rw e (clamp_inert n total (ground arith) h)
  | inr e ↦ rw e (ground arith)
]

scores_lem :
    (cs : List Contribution)
    → (total_calibration cs ≡ sum (scores cs)) × (samples_of cs ≡ length (scores cs))
scores_lem [] = (refl, refl)
scores_lem (c ∷ rest) =
    let (total, samples) = scores_lem rest in
    (ap (λ n. c.calibration_bps + n) total, ap suc samples)

-- An agent's entry of the history has the mean of its credits, rounded to the nearest whole number and a half up, and
-- their number; it has one entry if it has credits, and else none. Its credits come from the submissions that name it as
-- the reviewer and name a claim with a final status that is not excluded: each is ten thousand less the distance between
-- the support of the verdict and that of the last such status of the claim.
pub history-credits :
    (follows : ℕ → ℕ → Bool) (claims : List (String × ℕ))
    (submissions : List (ℕ × ReviewSubmission)) (excluded : Option String) (agent : String)
    → let history = build_agent_calibration_history follows claims submissions excluded in
      let earned = credits excluded claims agent submissions in
      (IsMean (length earned) (sum earned) (average_in agent history))
      × (samples_in agent history ≡ length earned)
      × (entries_of agent history ≡ min 1 (length earned))
unfolding build_agent_calibration_history
history-credits follows claims submissions excluded agent =
    let own = by_agent (outcome_of excluded claims) agent submissions in
    let same = scores-by_agent excluded claims agent submissions in
    let total : total_calibration own ≡ sum (credits excluded claims agent submissions) =
      (scores_lem own).0 ∙ ap sum same in
    let samples : samples_of own ≡ length (credits excluded claims agent submissions) =
      (scores_lem own).1 ∙ ap length same in
    let (average, number) = history-by_agent follows claims submissions excluded agent in
    (
      rw (average, total, samples)
          (clamp_bps_of-IsMean _ _ (sum-credits-le excluded claims agent submissions)),
      number ∙ samples,
      entries_of-map follows agent (aggregate_all (outcome_of excluded claims) submissions [])
          ∙ places-aggregate_all (outcome_of excluded claims) agent submissions []
          ∙ placed_lem own
          ∙ ap (λ l. min 1 (length l)) same,
    )
