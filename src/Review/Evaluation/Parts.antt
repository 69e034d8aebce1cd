-- ===== src/Review/Evaluation/Parts.antt =====
-- What the checks of src/review/evaluate.ts share: their inputs, what they return, and numbers as texts.
use Prim.Native.String.{◌++◌ as ◌<>◌}
use scientific_protocol.Common.{
  ℕ, zero, suc, ◌/◌, ◌%◌, min, max, Bool, true, false, ◌||◌, Option, List, [], ◌∷◌, String, or_else,
  ltb, ◌==◌, if◌then◌else◌,
}
use scientific_protocol.Review.{Dimension, Verdict, Severity}

pub record EvaluationIssue : Type 0 where
  pub category : String
  pub severity : Severity
  pub summary : String

abbrev pub Scores : Type 0
Scores = List (Dimension × ℕ)

-- `ReviewTaskEvaluation`
pub record Evaluation : Type 0 where
  pub confidence_bps : ℕ
  pub dimensions : Scores
  pub issues : List EvaluationIssue
  pub summary : String
  pub verdict : Verdict

-- `ClaimReviewVectorEntry`, as far as the evaluation reads it.
pub record VectorEntry : Type 0 where
  pub dimension : Dimension
  pub score_bps : Option ℕ

-- `ReviewTaskEvaluationInput`; the number `claimStatus` is not read.
pub record EvaluationInput : Type 0 where
  pub artifact_types : List ℕ
  pub artifacts_count : ℕ
  pub challenge_count : ℕ
  pub challenges_open : ℕ
  pub vector : List VectorEntry
  pub replication_count : ℕ
  pub supportive_replications : ℕ

abbrev pub clamp_bps : ℕ → ℕ
clamp_bps value = max 0 (min 10000 value)

abbrev pub has_artifact_type : List ℕ → ℕ → Bool
has_artifact_type [] artifact_type = false
has_artifact_type (held ∷ rest) artifact_type =
    held == artifact_type || has_artifact_type rest artifact_type

-- The place of a dimension in `CLAIM_REVIEW_VECTOR_DIMENSIONS`.
abbrev pub place : Dimension → ℕ
place Dimension.artifact_completeness = 0
place Dimension.artifact_integrity = 1
place Dimension.certification_readiness = 2
place Dimension.challenge_pressure = 3
place Dimension.contradiction_pressure = 4
place Dimension.forecast_support = 5
place Dimension.method_consistency = 6
place Dimension.replication_support = 7
place Dimension.reproducibility_readiness = 8
place Dimension.review_coverage = 9
place Dimension.review_diversity = 10
place Dimension.review_freshness = 11
place Dimension.statistical_sanity = 12

-- `vector.find((entry) => entry.dimension === dimension)?.scoreBps ?? 0`
abbrev pub vector_score : List VectorEntry → Dimension → ℕ
vector_score [] dimension = 0
vector_score (entry ∷ rest) dimension =
    let later = vector_score rest dimension in
    if place entry.dimension == place dimension then or_else entry.score_bps 0 else later

digit : ℕ → String → String
digit n String.[] = String.[]
digit zero (String.◌∷◌ c s) = String.◌∷◌ c String.[]
digit (suc n) (String.◌∷◌ c s) = digit n s

digits : ℕ → ℕ → String → String
digits zero n text = text
digits (suc fuel) n text =
    let more = digits fuel (n / 10) (digit (n % 10) "0123456789" <> text) in
    if ltb n 10 then digit n "0123456789" <> text else more

-- `${n}`: a safe integer has at most sixteen digits.
unfoldable pub decimal : ℕ → String
unfolding digits digit
decimal n = digits 16 n ""

abbrev pub issue_if : Bool → String → Severity → String → List EvaluationIssue
issue_if true category severity summary =
    record { category = category; severity = severity; summary = summary } ∷ []
issue_if false category severity summary = []
