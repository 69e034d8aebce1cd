-- ===== src/Review/Calibration/Entries.antt =====
-- How often an agent stands in the history of src/review/calibration.ts.
use scientific_protocol.Common.{
  ℕ, suc, max, min, arith, Bool, ◌≡◌, refl, ap, ◌∙◌, inl, inr, Bool-cases, Option, none, some, List,
  [], ◌∷◌, map, String, str_eq, if◌then◌else◌, length, eq_iff,
}
use scientific_protocol.Review.{ReviewSubmission}
use scientific_protocol.Review.Calibration.{
  AgentCalibration, Contribution, Outcome, contribution_of, Aggregates, set_aggregate,
  add_contribution, aggregate_all, history_entry,
}
use scientific_protocol.Review.Calibration.History.{other_key, by_agent, if_agent}
use scientific_protocol.Review.Calibration.Credits.{scores}

-- How many entries of the history are the agent's?
abbrev pub entries_of : String → List AgentCalibration → ℕ
entries_of agent [] = 0
entries_of agent (entry ∷ rest) =
    let later = entries_of agent rest in if str_eq entry.agent_id agent then suc later else later

-- How many of the aggregates are the agent's?
abbrev pub places : String → Aggregates → ℕ
places agent [] = 0
places agent ((key, aggregate) ∷ rest) =
    let later = places agent rest in if str_eq key agent then suc later else later

places-set_aggregate :
    (agent key : String) (c : Contribution) (aggregates : Aggregates)
    → places agent (set_aggregate key c aggregates)
      ≡ (if str_eq key agent then max 1 (places agent aggregates) else places agent aggregates)
places-set_aggregate agent key c [] = ground arith
places-set_aggregate agent key c ((k, a) ∷ rest) = elim (Bool-cases (str_eq k key)) [
  | inl e ↦ ground (arith, e, ap (λ x. str_eq x agent) ((eq_iff k key).0 e))
  | inr e ↦ elim (Bool-cases (str_eq k agent)) [
    | inr f ↦ ground (arith, e, f, places-set_aggregate agent key c rest)
    | inl f ↦ ground (arith, e, f, other_key k key agent e f, places-set_aggregate agent key c rest)
  ]
]

abbrev pub placed : ℕ → List Contribution → ℕ
placed n [] = n
placed n (c ∷ rest) = max 1 n

placed_twice : (n : ℕ) (cs : List Contribution) → placed (max 1 n) cs ≡ max 1 n
placed_twice n [] = refl
placed_twice n (c ∷ cs) = omega arith

places-add :
    (agent : String) (o : Option (String × Contribution)) (aggregates : Aggregates)
    (later : List Contribution)
    → placed (places agent (add_contribution o aggregates)) later
      ≡ placed (places agent aggregates) (if_agent agent o later)
places-add agent none aggregates later = refl
places-add agent (some (key, c)) aggregates later = elim (Bool-cases (str_eq key agent)) [
  | inl e ↦
      rw (places-set_aggregate agent key c aggregates, e)
        (placed_twice (places agent aggregates) later)
  | inr e ↦ rw (places-set_aggregate agent key c aggregates, e) refl
]

pub places-aggregate_all :
    (outcome_for : String → Option Outcome) (agent : String)
    (submissions : List (ℕ × ReviewSubmission)) (aggregates : Aggregates)
    → places agent (aggregate_all outcome_for submissions aggregates)
      ≡ placed (places agent aggregates) (by_agent outcome_for agent submissions)
unfolding aggregate_all by_agent
places-aggregate_all outcome_for agent [] aggregates = refl
places-aggregate_all outcome_for agent (submission ∷ rest) aggregates =
    places-aggregate_all outcome_for agent rest
      (add_contribution (contribution_of outcome_for submission) aggregates)
    ∙ places-add agent (contribution_of outcome_for submission) aggregates
        (by_agent outcome_for agent rest)

pub entries_of-map :
    (follows : ℕ → ℕ → Bool) (agent : String) (aggregates : Aggregates)
    → entries_of agent (map (history_entry follows) aggregates) ≡ places agent aggregates
unfolding history_entry
entries_of-map follows agent [] = refl
entries_of-map follows agent ((key, a) ∷ rest) = ground (arith, entries_of-map follows agent rest)

pub placed_lem : (cs : List Contribution) → placed 0 cs ≡ min 1 (length (scores cs))
placed_lem [] = refl
placed_lem (c ∷ cs) = omega arith
