-- ===== src/Review/Policy.antt =====
-- The consensus policies of src/review/store.ts.
use scientific_protocol.Common.{ℕ, ◌≤◌, max, arith, ◌≡◌, refl, Option, none, some}
use scientific_protocol.Work.Policy.{ReviewConsensusPolicy}
use scientific_protocol.Review.{
  Json, RawPolicy, normalize_consensus_policy, clamp_integer, to_raw, read_policy, policy_json,
}

clamp_bounds :
    (value : Option ℕ) (low high fallback : ℕ)
    → low ≤ high
    → low ≤ fallback
    → fallback ≤ high
    → (low ≤ clamp_integer value low high fallback) × (clamp_integer value low high fallback ≤ high)
clamp_bounds none low high fallback a b c = (b, c)
clamp_bounds (some v) low high fallback a b c = (omega arith, omega (arith, a))

clamp_same :
    (v low high fallback : ℕ) → low ≤ v → v ≤ high → clamp_integer (some v) low high fallback ≡ v
clamp_same v low high fallback h k = omega (arith, h, k)

pub policy_bounds :
    (raw : RawPolicy)
    → (1 ≤ (normalize_consensus_policy raw).min_submissions)
      × ((normalize_consensus_policy raw).min_submissions
          ≤ (normalize_consensus_policy raw).max_submissions)
      × ((normalize_consensus_policy raw).max_submissions ≤ 10)
unfolding normalize_consensus_policy
policy_bounds raw =
    let least = clamp_bounds raw.min_submissions 1 10 1 (omega arith) (omega arith) (omega arith) in
    let most =
      clamp_bounds raw.max_submissions (clamp_integer raw.min_submissions 1 10 1) 10
        (max 1 (clamp_integer raw.min_submissions 1 10 1)) least.1 (omega arith)
        (omega (arith, least.1)) in
    (least.0, most.0, most.1)

stored_lem :
    (p : ReviewConsensusPolicy)
    → (1 ≤ p.min_submissions) × (p.min_submissions ≤ p.max_submissions) × (p.max_submissions ≤ 10)
    → normalize_consensus_policy (to_raw p) ≡ p
unfolding normalize_consensus_policy
stored_lem p h =
    let least = clamp_same p.min_submissions 1 10 1 h.0 (omega (arith, h.1, h.2)) in
    rw (least, clamp_same p.max_submissions p.min_submissions 10 (max 1 p.min_submissions) h.1 h.2)
      refl

pub normalize-to_raw :
    (raw : RawPolicy)
    → normalize_consensus_policy (to_raw (normalize_consensus_policy raw))
      ≡ normalize_consensus_policy raw
normalize-to_raw raw = stored_lem (normalize_consensus_policy raw) (policy_bounds raw)

-- Every JSON value is read as a policy that wants at least one submission, allows no fewer than it wants, and allows at
-- most ten. Conversely a policy `p` within these bounds is read back unchanged from the JSON that it is stored as.
pub stored_policy :
    (json : Json) (p : ReviewConsensusPolicy)
    → 1 ≤ p.min_submissions
    → p.min_submissions ≤ p.max_submissions
    → p.max_submissions ≤ 10
    → let q = normalize_consensus_policy (read_policy json) in
      (1 ≤ q.min_submissions)
      × (q.min_submissions ≤ q.max_submissions)
      × (q.max_submissions ≤ 10)
      × (normalize_consensus_policy (read_policy (policy_json p)) ≡ p)
stored_policy json p a b c =
    let bounds = policy_bounds (read_policy json) in
    (bounds.0, bounds.1, bounds.2, stored_lem p (a, b, c))
