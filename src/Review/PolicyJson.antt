-- ===== src/Review/PolicyJson.antt =====
-- The consensus policies of src/review/store.ts as JSON: `serializeJson`, and what `normalizeConsensusPolicy` reads of a
-- JSON value.
use scientific_protocol.Common.{
  ℕ, Bool, Option, none, some, List, [], ◌∷◌, String, str_eq, if◌then◌else◌,
}
use scientific_protocol.Work.Policy.{ReviewConsensusPolicy}

-- The properties of a JSON value that are read. A number that is missing or not finite is `none`.
pub record RawPolicy : Type 0 where
  pub max_submissions : Option ℕ
  pub min_submissions : Option ℕ
  pub require_distinct_agents : Option Bool

-- A member of a JSON object, as far as `normalizeConsensusPolicy` tells values apart. A number is
-- a natural one, the floor of what JSON has, since a negative one is raised to the minimum, which is not negative.
pub data Member : Type 0 where
  null nested : Member
  boolean : Bool → Member
  number : ℕ → Member
  a_text : String → Member

-- A JSON value: an object with its members, or anything else (an array, which has none of the names read, among it).
pub data Json : Type 0 where
  object : List (String × Member) → Json
  other : Json

-- The value of a property; a missing one is undefined.
abbrev pub member : String → List (String × Member) → Option Member
member name [] = none
member name ((held, value) ∷ rest) =
    let later = member name rest in if str_eq held name then some value else later

-- Number.isFinite
abbrev pub finite_number : Option Member → Option ℕ
finite_number (some (Member.number n)) = some n
finite_number _ = none

-- `typeof … === "boolean"`
abbrev pub boolean_value : Option Member → Option Bool
boolean_value (some (Member.boolean b)) = some b
boolean_value _ = none

-- What `normalizeConsensusPolicy` reads of a JSON value.
abbrev pub read_policy : Json → RawPolicy
read_policy (Json.object members) = record {
  max_submissions = finite_number (member "maxSubmissions" members);
  min_submissions = finite_number (member "minSubmissions" members);
  require_distinct_agents = boolean_value (member "requireDistinctAgents" members);
}
read_policy Json.other = record {
  max_submissions = none;
  min_submissions = none;
  require_distinct_agents = none;
}

-- `serializeJson` of a policy, as the JSONB column holds it.
abbrev pub policy_json : ReviewConsensusPolicy → Json
policy_json policy = Json.object (
    ("maxSubmissions", Member.number policy.max_submissions)
    ∷ ("minSubmissions", Member.number policy.min_submissions)
    ∷ ("requireDistinctAgents", Member.boolean policy.require_distinct_agents)
    ∷ [])

-- A policy that is stored and then read.
abbrev pub to_raw : ReviewConsensusPolicy → RawPolicy
to_raw policy = read_policy (policy_json policy)
