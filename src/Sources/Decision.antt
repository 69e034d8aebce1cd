-- ===== src/Sources/Decision.antt =====
-- `decideSourceAutoPublication` of src/sources/canonicalize.ts. `lower` is String.prototype.toLowerCase.
use Prim.Native.String.{◌++◌ as ◌<>◌}
use scientific_protocol.Common.{
  ℕ, suc, ◌+◌, ◌*◌, ◌/◌, Bool, true, false, not, ◌||◌, ◌&&◌, Option, none, some, List, [], ◌∷◌, map,
  ◌++◌, String, str_eq, trim, is_space, is_empty, or_else, ltb, leb, length, if◌then◌else◌,
}
use scientific_protocol.Review.Evaluation.Parts.{clamp_bps}
use scientific_protocol.Sources.Rows.{Candidate, Cluster, Decision}

-- A run of white space, which begins at a character that follows none, becomes one space.
collapse : Bool → String → String
collapse inside String.[] = String.[]
collapse inside (String.◌∷◌ c s) =
    let in_space = collapse true s in
    let in_text = collapse false s in
    if is_space c then (if inside then in_space else " " <> in_space) else String.◌∷◌ c in_text

unfoldable pub normalize_text : String → String
unfolding collapse trim is_space
normalize_text value = collapse false (trim value)

-- The clusters of candidates, in the order of a Map.
abbrev pub Groups : Type 0
Groups = List (String × List Candidate)

abbrev pub add_member : String → Candidate → Groups → Groups
add_member key candidate [] = (key, candidate ∷ []) ∷ []
add_member key candidate ((held, members) ∷ rest) =
    let later = add_member key candidate rest in
    if str_eq held key then (held, members ++ candidate ∷ []) ∷ rest else (held, members) ∷ later

abbrev pub members_of : String → Groups → List Candidate
members_of key [] = []
members_of key ((held, members) ∷ rest) =
    let later = members_of key rest in if str_eq held key then members else later

abbrev pub agents_of : List Candidate → List String
agents_of [] = []
agents_of (candidate ∷ rest) =
    let later = agents_of rest in
    let agent = trim (or_else candidate.reviewer_agent_id "") in
    if is_empty agent then later else agent ∷ later

abbrev pub holds : String → List String → Bool
holds text [] = false
holds text (held ∷ rest) = str_eq held text || holds text rest

-- The size of the Set of the texts.
abbrev pub distinct : List String → ℕ
distinct [] = 0
distinct (text ∷ rest) = let later = distinct rest in if holds text rest then later else suc later

abbrev pub total_confidence : List Candidate → ℕ
total_confidence [] = 0
total_confidence (candidate ∷ rest) = clamp_bps candidate.confidence_bps + total_confidence rest

abbrev pub first_text : (Candidate → String) → List Candidate → String
first_text read [] = ""
first_text read (candidate ∷ rest) = read candidate

-- Math.round of the mean takes the nearest whole number, and a half up.
abbrev pub cluster_of : String × List Candidate → Cluster
cluster_of (key, members) = record {
  average_confidence_bps = (2 * total_confidence members + length members) / (2 * length members);
  cluster_key = key;
  distinct_agents = distinct (agents_of members);
  member_count = length members;
  methodology = first_text (λ candidate. candidate.methodology) members;
  scope = first_text (λ candidate. candidate.scope) members;
  statement = first_text (λ candidate. candidate.statement) members;
}

abbrev pub cluster_strength : Cluster → ℕ
cluster_strength cluster = cluster.member_count * cluster.average_confidence_bps

abbrev pub insert_cluster : Cluster → List Cluster → List Cluster
insert_cluster c [] = c ∷ []
insert_cluster c (d ∷ rest) =
    let later = insert_cluster c rest in
    if ltb (cluster_strength c) (cluster_strength d) then d ∷ later else c ∷ d ∷ rest

-- The stable sort, the strongest first.
unfoldable pub sort_clusters : List Cluster → List Cluster
sort_clusters [] = []
sort_clusters (c ∷ rest) = insert_cluster c (sort_clusters rest)

abbrev pub ratio_of : Cluster → List Cluster → Option (ℕ × ℕ)
ratio_of winner [] = none
ratio_of winner (competing ∷ rest) =
    if ltb 0 (cluster_strength winner)
    then some (cluster_strength competing, cluster_strength winner)
    else none

-- The quotient is at least 0.8.
abbrev pub too_strong : Option (ℕ × ℕ) → Bool
too_strong none = false
too_strong (some (competing, winning)) = leb (4 * winning) (5 * competing)

abbrev pub is_anchored : List Candidate → Bool
is_anchored [] = true
is_anchored (candidate ∷ rest) = ltb 0 (length candidate.anchors) && is_anchored rest

abbrev pub no_candidates : Decision
no_candidates = record {
  competing_strength_ratio = none;
  reason = "No extraction candidates were submitted.";
  should_publish = false;
  winning_cluster = none;
}

abbrev pub decided : Option (ℕ × ℕ) → Cluster → Bool → String → Decision
decided ratio winner publishes reason = record {
  competing_strength_ratio = ratio;
  reason = reason;
  should_publish = publishes;
  winning_cluster = some winner;
}

abbrev pub decide_ranked : Groups → List Cluster → Decision
decide_ranked groups [] = no_candidates
decide_ranked groups (winner ∷ rest) =
    let ratio = ratio_of winner rest in
    if too_strong ratio
    then decided ratio winner false
        "Competing extraction clusters are still too strong to auto-publish safely."
    else (if ltb winner.distinct_agents 2
        then decided ratio winner false
            "The leading extraction cluster still needs additional distinct agents."
        else (if ltb winner.average_confidence_bps 7000
            then decided ratio winner false
                "The leading extraction cluster is still below the confidence threshold."
            else (if not (is_anchored (members_of winner.cluster_key groups))
                then decided ratio winner false
                    "The leading extraction cluster is missing anchored source support."
                else decided ratio winner true
                    "The leading extraction cluster clears the auto-publication policy.")))

abbrev pub ranked_clusters : Groups → List Cluster
ranked_clusters groups = sort_clusters (map cluster_of groups)

module _ (lower : String → String) where
  abbrev pub normalize_lower : String → String
  normalize_lower value = lower (normalize_text value)

  abbrev pub candidate_cluster_key : Candidate → String
  candidate_cluster_key candidate =
      normalize_lower candidate.statement
      <> ("|" <> (normalize_lower candidate.scope <> ("|" <> normalize_lower candidate.claim_type)))

  abbrev pub group_all : List Candidate → Groups → Groups
  group_all [] groups = groups
  group_all (candidate ∷ rest) groups =
      group_all rest (add_member (candidate_cluster_key candidate) candidate groups)

  unfoldable pub decide_source_auto_publication : List Candidate → Decision
  unfolding sort_clusters normalize_text
  decide_source_auto_publication candidates =
      let groups = group_all candidates [] in decide_ranked groups (ranked_clusters groups)
