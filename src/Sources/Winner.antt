-- ===== src/Sources/Winner.antt =====
-- The candidate of the winning cluster, in src/sources/auto-publish.ts.
use Prim.Native.Char.{code}
use scientific_protocol.Common.{
  Bool, false, ◌&&◌, ◌==◌, Option, none, some, List, [], ◌∷◌, String, str_eq, if◌then◌else◌,
}
use scientific_protocol.Sources.Rows.{Candidate, Cluster}

after_bar : String → Option String
after_bar String.[] = none
after_bar (String.◌∷◌ c s) = let later = after_bar s in if code c == 124 then some s else later

until_bar : String → String
until_bar String.[] = String.[]
until_bar (String.◌∷◌ c s) =
    let later = until_bar s in if code c == 124 then String.[] else String.◌∷◌ c later

-- `text.split("|")[2]`
unfoldable pub third_part : String → Option String
unfolding after_bar until_bar
third_part text = elim (after_bar text) [
  | none ↦ none
  | some rest ↦ elim (after_bar rest) [ none ↦ none | some last ↦ some (until_bar last) ]
]

abbrev pub is_part : Option String → String → Bool
is_part none text = false
is_part (some part) text = str_eq text part

abbrev pub is_winner : Cluster → Candidate → Bool
is_winner cluster candidate =
    str_eq candidate.statement cluster.statement
    && str_eq candidate.scope cluster.scope
    && is_part (third_part cluster.cluster_key) candidate.claim_type

abbrev pub find_winner : Cluster → List Candidate → Option Candidate
find_winner cluster [] = none
find_winner cluster (candidate ∷ rest) =
    let later = find_winner cluster rest in
    if is_winner cluster candidate then some candidate else later
