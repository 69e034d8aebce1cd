-- ===== src/Rewards/Demand.antt =====
-- The demand signals of src/rewards/policy.ts: what the schedule of a work graph says of each kind of work. The record
-- that is keyed by the kinds is a function of the kind.
use scientific_protocol.Common.{
  ℕ, ◌+◌, ◌*◌, ◌≤◌, min, arith, Bool, true, false, ◌≡◌, refl, ◌∙◌, Option, none, some, List, [],
  ◌∷◌, filter, if◌then◌else◌, Bool-cases, inl, inr,
}
use scientific_protocol.Work.Types.{ScheduledItem}
use scientific_protocol.Rewards.Policy.{WorkKind, reward_work_kind_for_work_item, sum_of}

-- `ClaimRewardWorkDemandSignal`; its kind is the argument of the function.
pub record DemandSignal : Type 0 where
  pub fresh_contributor_items : ℕ
  pub minimum_coverage_items : ℕ
  pub reassignment_ready_items : ℕ
  pub redundancy_target_items : ℕ
  pub scheduler_pressure_bps : ℕ
  pub uncovered_demand : ℕ

abbrev pub empty_work_demand_signal : DemandSignal
empty_work_demand_signal = record {
  fresh_contributor_items = 0;
  minimum_coverage_items = 0;
  reassignment_ready_items = 0;
  redundancy_target_items = 0;
  scheduler_pressure_bps = 10000;
  uncovered_demand = 0;
}

unfoldable pub compute_scheduler_pressure_bps : DemandSignal → ℕ
compute_scheduler_pressure_bps signal = min 20000 (
    10000
    + min 3000 (signal.minimum_coverage_items * 1200)
    + min 1800 (signal.reassignment_ready_items * 900)
    + min 1200 (signal.fresh_contributor_items * 600)
    + min 1000 (signal.uncovered_demand * 450)
    + min 800 (signal.redundancy_target_items * 250))

abbrev pub kind_eq : WorkKind → WorkKind → Bool
kind_eq WorkKind.challenge WorkKind.challenge = true
kind_eq WorkKind.forecast WorkKind.forecast = true
kind_eq WorkKind.maintenance WorkKind.maintenance = true
kind_eq WorkKind.replication WorkKind.replication = true
kind_eq WorkKind.review WorkKind.review = true
kind_eq WorkKind.synthesis WorkKind.synthesis = true
kind_eq _ _ = false

abbrev pub one_if : Bool → ℕ
one_if true = 1
one_if false = 0

abbrev pub kind_of : ScheduledItem → WorkKind
kind_of entry = reward_work_kind_for_work_item entry.routed.item.kind entry.routed.item.source_type

-- What the body of the loop adds to the signal of the kind of the item.
abbrev pub count_item : ScheduledItem → DemandSignal → DemandSignal
count_item entry signal = record signal {
  minimum_coverage_items =
      signal.minimum_coverage_items + one_if entry.scheduling.needs_minimum_coverage;
  redundancy_target_items =
      signal.redundancy_target_items + one_if entry.scheduling.needs_redundant_coverage;
  fresh_contributor_items =
      signal.fresh_contributor_items + one_if entry.scheduling.prefers_fresh_contributor;
  reassignment_ready_items =
      signal.reassignment_ready_items + one_if entry.scheduling.reassignment_preferred;
  uncovered_demand = signal.uncovered_demand + entry.scheduling.desired_additional_claims;
}

abbrev pub Signals : Type 0
Signals = WorkKind → DemandSignal

-- The loop over the items of the graph.
unfoldable pub count_items : List ScheduledItem → Signals → Signals
count_items [] by_kind = by_kind
count_items (entry ∷ rest) by_kind =
    count_items rest
      λ kind. if kind_eq (kind_of entry) kind then count_item entry (by_kind kind) else by_kind kind

-- A graph that is missing is `none`.
unfoldable pub build_claim_reward_work_demand_signals : Option (List ScheduledItem) → Signals
build_claim_reward_work_demand_signals none kind = empty_work_demand_signal
build_claim_reward_work_demand_signals (some items) kind =
    let signal = count_items items (λ k. empty_work_demand_signal) kind in
    record signal { scheduler_pressure_bps = compute_scheduler_pressure_bps signal }

counted_uncovered :
    (items : List ScheduledItem) (by_kind : Signals) (kind : WorkKind)
    → (count_items items by_kind kind).uncovered_demand
      ≡ (by_kind kind).uncovered_demand
        + sum_of
            (λ entry. entry.scheduling.desired_additional_claims)
            (filter (λ entry. kind_eq (kind_of entry) kind) items)
unfolding count_items
counted_uncovered [] by_kind kind = omega arith
counted_uncovered (entry ∷ rest) by_kind kind =
    counted_uncovered rest _ kind ∙ (elim (Bool-cases (kind_eq (kind_of entry) kind)) [
      | inl e ↦ rw e (omega arith)
      | inr e ↦ rw e refl
    ])

pressure_in :
    (signal : DemandSignal)
    → (10000 ≤ compute_scheduler_pressure_bps signal)
      × (compute_scheduler_pressure_bps signal ≤ 20000)
unfolding compute_scheduler_pressure_bps
pressure_in signal = (omega arith, omega arith)

-- The uncovered demand of a kind is the sum of the claims that the scheduler asks for on the items of that kind.
pub uncovered_demand_sum :
    (items : List ScheduledItem) (kind : WorkKind)
    → (build_claim_reward_work_demand_signals (some items) kind).uncovered_demand
      ≡ sum_of
          (λ entry. entry.scheduling.desired_additional_claims)
          (filter (λ entry. kind_eq (kind_of entry) kind) items)
unfolding build_claim_reward_work_demand_signals
uncovered_demand_sum items kind =
    omega (arith, counted_uncovered items (λ k. empty_work_demand_signal) kind)

-- The scheduler pressure of every kind is from 10000 to 20000 basis points, with a graph and without.
pub scheduler_pressure_in :
    (graph : Option (List ScheduledItem)) (kind : WorkKind)
    → (10000 ≤ (build_claim_reward_work_demand_signals graph kind).scheduler_pressure_bps)
      × ((build_claim_reward_work_demand_signals graph kind).scheduler_pressure_bps ≤ 20000)
unfolding build_claim_reward_work_demand_signals
scheduler_pressure_in none kind = (omega arith, omega arith)
scheduler_pressure_in (some items) kind =
    pressure_in (count_items items (λ k. empty_work_demand_signal) kind)
