-- ===== src/Sources/Threshold.antt =====
-- When src/sources/canonicalize.ts publishes without a person.
use Prim.Native.Nat.mul
use scientific_protocol.Common.{
  ℕ, zero, suc, ◌*◌, ◌≤◌, ◌<◌, arith, true, false, ◌≡◌, refl, ap, subst, ◌⊎◌, inl, inr, Bool-cases,
  some, List, [], ◌∷◌, map, String, ltb, length, All, All-map, All-mono, if◌then◌else◌, if-elim,
}
use scientific_protocol.Sources.Rows.{Candidate, Cluster}
use scientific_protocol.Sources.Decision.{
  Groups, members_of, agents_of, distinct, cluster_of, cluster_strength, insert_cluster,
  sort_clusters, ratio_of, too_strong, is_anchored, decide_ranked, group_all, ranked_clusters,
  decide_source_auto_publication,
}

module _ (P : Cluster → Type 0) where
  into-insert : (c : Cluster) (cs : List Cluster) → P c → All P cs → All P (insert_cluster c cs)
  into-insert c [] h k = (h, k)
  into-insert c (d ∷ rest) h (k, l) =
      if-elim (All P) (ltb (cluster_strength c) (cluster_strength d))
        (λ e. (k, into-insert c rest h l)) (λ e. (h, (k, l)))

  out-insert : (c : Cluster) (cs : List Cluster) → All P (insert_cluster c cs) → P c × All P cs
  out-insert c [] h = h
  out-insert c (d ∷ rest) h = elim (Bool-cases (ltb (cluster_strength c) (cluster_strength d))) [
    | inr e ↦
        let (a, b) =
          subst (All P) (ap (λ b. if b then d ∷ insert_cluster c rest else c ∷ d ∷ rest) e) h in
        (a, b)
    | inl e ↦
        let (a, b) =
          subst (All P) (ap (λ b. if b then d ∷ insert_cluster c rest else c ∷ d ∷ rest) e) h in
        let (x, y) = out-insert c rest b in (x, (a, y))
  ]

  into-sort : (cs : List Cluster) → All P cs → All P (sort_clusters cs)
  unfolding sort_clusters
  into-sort [] h = h
  into-sort (c ∷ rest) (h, k) = into-insert c (sort_clusters rest) h (into-sort rest k)

  out-sort : (cs : List Cluster) → All P (sort_clusters cs) → All P cs
  unfolding sort_clusters
  out-sort [] h = h
  out-sort (c ∷ rest) h = let (x, y) = out-insert c (sort_clusters rest) h in (x, out-sort rest y)

abbrev Below : ℕ → List Cluster → Type 0
Below n = All (λ c. cluster_strength c ≤ n)

abbrev Sorted : List Cluster → Type 0
Sorted [] = Unit
Sorted (c ∷ rest) = Below (cluster_strength c) rest × Sorted rest

lower-Below : (m n : ℕ) (cs : List Cluster) → m ≤ n → Below m cs → Below n cs
lower-Below m n [] h k = k
lower-Below m n (c ∷ rest) h (k, l) = (omega (arith, h, k), lower-Below m n rest h l)

insert-Sorted : (c : Cluster) (cs : List Cluster) → Sorted cs → Sorted (insert_cluster c cs)
insert-Sorted c [] h = (tt, tt)
insert-Sorted c (d ∷ rest) (h, k) =
    if-elim Sorted (ltb (cluster_strength c) (cluster_strength d))
      (λ e. (into-insert _ c rest (ground (arith, e)) h, insert-Sorted c rest k))
      (λ e.
        let le : cluster_strength d ≤ cluster_strength c = ground (arith, e) in
        ((le, lower-Below _ _ rest le h), (h, k)))

sort-Sorted : (cs : List Cluster) → Sorted (sort_clusters cs)
unfolding sort_clusters
sort-Sorted [] = tt
sort-Sorted (c ∷ rest) = insert-Sorted c (sort_clusters rest) (sort-Sorted rest)

distinct-le : (texts : List String) → distinct texts ≤ length texts
distinct-le [] = omega arith
distinct-le (text ∷ rest) = ground (arith, distinct-le rest)

agents_of-le : (members : List Candidate) → length (agents_of members) ≤ length members
agents_of-le [] = omega arith
agents_of-le (candidate ∷ rest) = ground (arith, agents_of-le rest)

cluster_members :
    (group : String × List Candidate)
    → (cluster_of group).distinct_agents ≤ (cluster_of group).member_count
cluster_members (key, members) =
    omega (arith, distinct-le (agents_of members), agents_of-le members)

-- What a cluster that is published has: two agents, the confidence, and anchors.
pub record IsSupported (groups : Groups) (w : Cluster) : Type 0 where
  pub agents : 2 ≤ w.distinct_agents
  pub confident : 7000 ≤ w.average_confidence_bps
  pub anchored : is_anchored (members_of w.cluster_key groups) ≡ true

decide_parts :
    (groups : Groups) (w : Cluster) (rest : List Cluster)
    → (decide_ranked groups (w ∷ rest)).should_publish ≡ true
    → (too_strong (ratio_of w rest) ≡ false) × IsSupported groups w
decide_parts groups w rest h = (
  ground (arith, h),
  record {
    agents = ground (arith, h);
    confident = ground (arith, h);
    anchored = ground (arith, h);
  },
)

decided_winner :
    (groups : Groups) (w : Cluster) (rest : List Cluster)
    → (decide_ranked groups (w ∷ rest)).winning_cluster ≡ some w
decided_winner groups w rest = ground arith

abbrev pub Trails : Cluster → Cluster → Type 0
Trails w c = (c ≡ w) ⊎ (5 * cluster_strength c < 4 * cluster_strength w)

positive : (a m n : ℕ) → 2 ≤ a → a ≤ m → 7000 ≤ n → 0 < m * n
positive a zero n h k l = omega (arith, h, k)
positive a (suc m) n h k l = rw (mul.suc m n) (omega (arith, l))

trail_rest :
    (w : Cluster) (rest : List Cluster)
    → Sorted (w ∷ rest)
    → 0 < cluster_strength w
    → too_strong (ratio_of w rest) ≡ false
    → All (Trails w) rest
trail_rest w [] s h k = tt
trail_rest w (d ∷ rest) (a, (b, c)) h k =
    let lead : 5 * cluster_strength d < 4 * cluster_strength w = ground (arith, h, k) in
    (inr lead, All-mono _ (Trails w) rest (λ e le. inr (omega (arith, le, lead))) b)

ranked_lem :
    (groups : Groups) (ranked : List Cluster)
    → Sorted ranked
    → All (λ c. c.distinct_agents ≤ c.member_count) ranked
    → (decide_ranked groups ranked).should_publish ≡ true
    → (w : Cluster) × ((decide_ranked groups ranked).winning_cluster ≡ some w)
      × IsSupported groups w
      × All (Trails w) ranked
ranked_lem groups [] s m h = ground (arith, h)
ranked_lem groups (w ∷ rest) s (m, n) h =
    let (weak, supported) = decide_parts groups w rest h in
    (
      w,
      decided_winner groups w rest,
      supported,
      (inl refl, trail_rest w rest s (positive _ _ _ supported.agents m supported.confident) weak),
    )

-- Where the decision is to publish, the winning cluster has at least two distinct agents, a mean confidence of at least
-- 7000 basis points and anchors in each member, and any other cluster of the candidates has less than four fifths of its strength.
pub publishes-IsSupported :
    (lower : String → String) (candidates : List Candidate)
    → (decide_source_auto_publication lower candidates).should_publish ≡ true
    → (w : Cluster) × ((decide_source_auto_publication lower candidates).winning_cluster ≡ some w)
      × IsSupported (group_all lower candidates []) w
      × All (λ group. Trails w (cluster_of group)) (group_all lower candidates [])
unfolding decide_source_auto_publication
publishes-IsSupported lower candidates h =
    let groups = group_all lower candidates [] in
    let (w, won, supported, trails) =
      ranked_lem groups (ranked_clusters groups) (sort-Sorted (map cluster_of groups))
        (into-sort _ (map cluster_of groups) (All-map _ cluster_of groups (all_members groups)))
        h in
    (w, won, supported, unmapped w groups (out-sort _ (map cluster_of groups) trails))
  where
    all_members :
        (groups : Groups)
        → All (λ group. (cluster_of group).distinct_agents ≤ (cluster_of group).member_count) groups
    all_members [] = tt
    all_members (group ∷ rest) = (cluster_members group, all_members rest)

    unmapped :
        (w : Cluster) (groups : Groups)
        → All (Trails w) (map cluster_of groups)
        → All (λ group. Trails w (cluster_of group)) groups
    unmapped w [] k = tt
    unmapped w (group ∷ rest) (a, b) = (a, unmapped w rest b)
