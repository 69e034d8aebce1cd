-- ===== src/Review/Calibration/History.antt =====
-- The loop of src/review/calibration.ts against a search for the submissions of one agent.
use mathlib.Core.List.{append-nil, append_assoc}
use scientific_protocol.Common.{
  ℕ, suc, ◌+◌, arith, Bool, true, false, ◌≡◌, refl, sym, ap, ◌∙◌, inl, inr, Bool-cases, Option,
  none, some, List, [], ◌∷◌, map, ◌++◌, String, str_eq, eq_iff, if◌then◌else◌,
}
use scientific_protocol.Review.{ReviewSubmission}
use scientific_protocol.Review.Calibration.{
  Contribution, AgentCalibration, Outcome, outcome_of, contribution_of, Aggregates, set_aggregate,
  add_contribution, aggregate_all, total_calibration, samples_of, average_of, insert_contribution,
  sort_contributions, history_entry, build_agent_calibration_history, comes_first,
}

abbrev pub if_agent :
    String → Option (String × Contribution) → List Contribution → List Contribution
if_agent agent none rest = rest
if_agent agent (some (held, contribution)) rest =
    if str_eq held agent then contribution ∷ rest else rest

-- The contributions of one agent: its submissions to claims with an outcome, in their order.
unfoldable pub by_agent :
    (String → Option Outcome) → String → List (ℕ × ReviewSubmission) → List Contribution
by_agent outcome_for agent [] = []
by_agent outcome_for agent (submission ∷ rest) =
    if_agent agent (contribution_of outcome_for submission) (by_agent outcome_for agent rest)

abbrev pub average_in : String → List AgentCalibration → Option ℕ
average_in agent [] = none
average_in agent (entry ∷ rest) =
    let later = average_in agent rest in
    if str_eq entry.agent_id agent then entry.average_calibration_bps else later

abbrev pub samples_in : String → List AgentCalibration → ℕ
samples_in agent [] = 0
samples_in agent (entry ∷ rest) =
    let later = samples_in agent rest in
    if str_eq entry.agent_id agent then entry.samples else later

abbrev held : String → Aggregates → List Contribution
held agent [] = []
held agent ((key, aggregate) ∷ rest) =
    let later = held agent rest in if str_eq key agent then aggregate.contributions else later

apart : (k key : String) → str_eq k key ≡ false → str_eq key k ≡ false
apart k key e = elim (Bool-cases (str_eq key k)) [
  | inr f ↦ f
  | inl f ↦ ground (arith, e, (eq_iff k key).1 (sym ((eq_iff key k).0 f)))
]

pub other_key :
    (k key agent : String) → str_eq k key ≡ false → str_eq k agent ≡ true → str_eq key agent ≡ false
other_key k key agent e f = ap (λ x. str_eq key x) (sym ((eq_iff k agent).0 f)) ∙ apart k key e

held-set_aggregate :
    (agent key : String) (c : Contribution) (aggregates : Aggregates)
    → held agent (set_aggregate key c aggregates)
      ≡ (if str_eq key agent then held agent aggregates ++ c ∷ [] else held agent aggregates)
held-set_aggregate agent key c [] = ground arith
held-set_aggregate agent key c ((k, a) ∷ rest) = elim (Bool-cases (str_eq k key)) [
  | inl e ↦ ground (arith, e, ap (λ x. str_eq x agent) ((eq_iff k key).0 e))
  | inr e ↦ elim (Bool-cases (str_eq k agent)) [
    | inr f ↦ ground (arith, e, f, held-set_aggregate agent key c rest)
    | inl f ↦ ground (arith, e, f, other_key k key agent e f)
  ]
]

sum-insert :
    (follows : ℕ → ℕ → Bool) (c : Contribution) (rest : List Contribution)
    → (total_calibration (insert_contribution follows c rest)
        ≡ c.calibration_bps + total_calibration rest)
      × (samples_of (insert_contribution follows c rest) ≡ suc (samples_of rest))
sum-insert follows c [] = (refl, refl)
sum-insert follows c (d ∷ rest) = elim (Bool-cases (comes_first follows d c)) [
  | inl e ↦
      rw e
        (omega (arith, (sum-insert follows c rest).0), omega (arith, (sum-insert follows c rest).1))
  | inr e ↦ rw e (refl, refl)
]

sum-sort :
    (follows : ℕ → ℕ → Bool) (cs : List Contribution)
    → (total_calibration (sort_contributions follows cs) ≡ total_calibration cs)
      × (samples_of (sort_contributions follows cs) ≡ samples_of cs)
unfolding sort_contributions
sum-sort follows [] = (refl, refl)
sum-sort follows (c ∷ rest) =
    let (total, samples) = sum-insert follows c (sort_contributions follows rest) in
    let (total', samples') = sum-sort follows rest in
    (omega (arith, total, total'), omega (arith, samples, samples'))

held-aggregate_all :
    (outcome_for : String → Option Outcome) (agent : String)
    (submissions : List (ℕ × ReviewSubmission)) (aggregates : Aggregates)
    → held agent (aggregate_all outcome_for submissions aggregates)
      ≡ held agent aggregates ++ by_agent outcome_for agent submissions
unfolding aggregate_all by_agent
held-aggregate_all outcome_for agent [] aggregates = sym (append-nil (held agent aggregates))
held-aggregate_all outcome_for agent (submission ∷ rest) aggregates =
    held-aggregate_all outcome_for agent rest
      (add_contribution (contribution_of outcome_for submission) aggregates)
    ∙ held-add (contribution_of outcome_for submission) aggregates (by_agent outcome_for agent rest)
  where
    held-add :
        (o : Option (String × Contribution)) (aggregates : Aggregates) (later : List Contribution)
        → held agent (add_contribution o aggregates) ++ later
          ≡ held agent aggregates ++ if_agent agent o later
    held-add none aggregates later = refl
    held-add (some (key, c)) aggregates later = elim (Bool-cases (str_eq key agent)) [
      | inl e ↦
          rw (held-set_aggregate agent key c aggregates, e)
            (append_assoc (held agent aggregates) (c ∷ []) later)
      | inr e ↦ rw (held-set_aggregate agent key c aggregates, e) refl
    ]

average_same :
    (follows : ℕ → ℕ → Bool) (cs : List Contribution)
    → average_of (sort_contributions follows cs) ≡ average_of cs
average_same follows cs = rw ((sum-sort follows cs).0, (sum-sort follows cs).1) refl

entries :
    (follows : ℕ → ℕ → Bool) (agent : String) (aggregates : Aggregates)
    → (average_in agent (map (history_entry follows) aggregates)
        ≡ average_of (held agent aggregates))
      × (samples_in agent (map (history_entry follows) aggregates)
          ≡ samples_of (held agent aggregates))
unfolding history_entry
entries follows agent [] = (refl, refl)
entries follows agent ((key, a) ∷ rest) = elim (Bool-cases (str_eq key agent)) [
  | inr e ↦ rw e (entries follows agent rest)
  | inl e ↦
      let (total, samples) = sum-sort follows a.contributions in
      rw e (average_same follows a.contributions, samples)
]

-- The code's own mean of the contributions of one agent.
pub history-by_agent :
    (follows : ℕ → ℕ → Bool) (claims : List (String × ℕ))
    (submissions : List (ℕ × ReviewSubmission)) (excluded : Option String) (agent : String)
    → (average_in agent (build_agent_calibration_history follows claims submissions excluded)
        ≡ average_of (by_agent (outcome_of excluded claims) agent submissions))
      × (samples_in agent (build_agent_calibration_history follows claims submissions excluded)
          ≡ samples_of (by_agent (outcome_of excluded claims) agent submissions))
unfolding build_agent_calibration_history
history-by_agent follows claims submissions excluded agent =
    let aggregates = aggregate_all (outcome_of excluded claims) submissions [] in
    let same : held agent aggregates ≡ by_agent (outcome_of excluded claims) agent submissions =
      held-aggregate_all (outcome_of excluded claims) agent submissions [] in
    let (average, samples) = entries follows agent aggregates in
    (average ∙ ap average_of same, samples ∙ ap samples_of same)
