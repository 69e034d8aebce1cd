-- ===== src/Work/Priority.antt =====
-- The priorities of src/work/routing.ts.
use scientific_protocol.Common.{
  subst, ◌∙◌, ap, ℕ, ◌≤◌, ◌<◌, min, arith, Bool, true, false, ◌≡◌, refl, sym, ◌⊎◌, ◌↔◌, inl, inr,
  Bool-cases, if◌then◌else◌, List,
}
use scientific_protocol.Work.Types.{
  WorkItem, WorkItemKind, WorkLane, SourceType, OrchestrationAction, RoutingTier,
}
use scientific_protocol.Work.Routing.{
  derive_claim_work_routing, has_blocking_non_synthesis_work, tier_for_priority,
  lane_priority_boost, raw_priority,
}

capped :
    (b : Bool) (n : ℕ) {p : ℕ} → b ≡ true → p ≡ min 10000 (if b then min n 1500 else n) → p ≤ 1500
capped b n h e = ground (arith, e, h)

uncapped :
    (b : Bool) (n : ℕ) {p q : ℕ}
    → b ≡ false
    → p ≡ min 10000 (if b then min n 1500 else n)
    → 6000 ≤ n
    → q ≤ 1500
    → q < p
uncapped b n h e above low = ground (arith, h, e, above, low)

lane_boost-positive :
    (kind : WorkItemKind) (lane : WorkLane) (source_type : SourceType)
    → 0 < lane_priority_boost kind lane source_type
unfolding lane_priority_boost
lane_boost-positive kind lane source_type = ground arith

raw-positive : (item : WorkItem) → 0 < raw_priority item
raw-positive item = omega (arith, lane_boost-positive item.kind item.lane item.source_type)

pub tier_hold_iff : (n : ℕ) → (tier_for_priority n ≡ RoutingTier.hold) ↔ (n ≡ 0)
unfolding tier_for_priority
tier_hold_iff n = ground arith

not_hold : (n : ℕ) → 0 < n → tier_for_priority n ≡ RoutingTier.hold → ⊥
not_hold n h e = omega (arith, h, (tier_hold_iff n).0 e)

-- The returns of the derivation.
module _ (item : WorkItem) (items : List WorkItem) where
  pub routed_blocked :
      (derive_claim_work_routing item items).blocked_by_open_work
      ≡ has_blocking_non_synthesis_work items item
  unfolding derive_claim_work_routing
  routed_blocked = elim (Bool-cases item.orchestration.can_claim) [
    | inl h ↦ rw (derive_claim_work_routing, h) refl
    | inr h ↦ rw (derive_claim_work_routing, h) refl
  ]

  routed_held :
      item.orchestration.can_claim ≡ false
      → ((derive_claim_work_routing item items).priority_bps ≡ 0)
        × ((derive_claim_work_routing item items).tier ≡ RoutingTier.hold)
  unfolding derive_claim_work_routing
  routed_held h = rw (derive_claim_work_routing, h) (refl, refl)

  routed_priority :
      item.orchestration.can_claim ≡ true
      → (derive_claim_work_routing item items).priority_bps
        ≡ min 10000 (
            if has_blocking_non_synthesis_work items item
            then min (raw_priority item) 1500
            else raw_priority item)
  unfolding derive_claim_work_routing
  routed_priority h = rw (derive_claim_work_routing, h) refl

  routed_tier :
      item.orchestration.can_claim ≡ true
      → (derive_claim_work_routing item items).tier
        ≡ tier_for_priority (derive_claim_work_routing item items).priority_bps
  unfolding derive_claim_work_routing
  routed_tier h = rw (derive_claim_work_routing, h) refl

clamped :
    (b : Bool) (n : ℕ)
    → 0 < n
    → (min 10000 (if b then min n 1500 else n) ≤ 10000)
      × (0 < min 10000 (if b then min n 1500 else n))
clamped true n h = (omega arith, omega arith)
clamped false n h = (omega arith, omega arith)

-- A priority is at most 10000; its tier is the one of the priority; and it is 0, whose tier is `hold`, exactly when the
-- item cannot be claimed.
pub priority_lem :
    (item : WorkItem) (items : List WorkItem)
    → ((derive_claim_work_routing item items).priority_bps ≤ 10000)
      × ((derive_claim_work_routing item items).tier
          ≡ tier_for_priority (derive_claim_work_routing item items).priority_bps)
      × (((derive_claim_work_routing item items).tier ≡ RoutingTier.hold)
          ↔ (item.orchestration.can_claim ≡ false))
priority_lem item items = elim (Bool-cases item.orchestration.can_claim) [
  | inl h ↦
      let bounds = clamped (has_blocking_non_synthesis_work items item) _ (raw-positive item) in
      let priority = routed_priority item items h in
      (
        omega (arith, priority, bounds.0),
        routed_tier item items h,
        (
          (λ e.
              elim (not_hold _ (subst (λ n. 0 < n) (sym priority) bounds.1)
                (sym (routed_tier item items h) ∙ e)) [ ]),
          λ e. ground (arith, e, h),
        ),
      )
  | inr h ↦
      let held = routed_held item items h in
      (
        omega (arith, held.0),
        held.1 ∙ sym (ap tier_for_priority held.0 ∙ (tier_hold_iff 0).1 refl),
        ((λ e. h), λ e. held.1),
      )
]

blocked_at_most :
    (item : WorkItem) (items : List WorkItem)
    → (derive_claim_work_routing item items).blocked_by_open_work ≡ true
    → (derive_claim_work_routing item items).priority_bps ≤ 1500
blocked_at_most item items k = elim (Bool-cases item.orchestration.can_claim) [
  | inr h ↦ omega (arith, (routed_held item items h).0)
  | inl h ↦ capped _ _ (sym (routed_blocked item items) ∙ k) (routed_priority item items h)
]

action_at_least :
    (item : WorkItem)
    → (item.orchestration.recommended_action ≡ OrchestrationAction.claim)
      ⊎ (item.orchestration.recommended_action ≡ OrchestrationAction.reassign)
    → 6000 ≤ raw_priority item
action_at_least item (inl e) = rw e (omega arith)
action_at_least item (inr e) = rw e (omega arith)

-- An item that can be claimed, whose recommended action is to claim or to reassign, and that waits on nothing has a
-- higher priority than every item that waits on open work.
pub unblocked_first :
    (item other : WorkItem) (items : List WorkItem)
    → item.orchestration.can_claim ≡ true
    → (item.orchestration.recommended_action ≡ OrchestrationAction.claim)
      ⊎ (item.orchestration.recommended_action ≡ OrchestrationAction.reassign)
    → (derive_claim_work_routing item items).blocked_by_open_work ≡ false
    → (derive_claim_work_routing other items).blocked_by_open_work ≡ true
    → (derive_claim_work_routing other items).priority_bps
      < (derive_claim_work_routing item items).priority_bps
unblocked_first item other items h r b k =
    let low = blocked_at_most other items k in
    let above = action_at_least item r in
    uncapped _ _ (sym (routed_blocked item items) ∙ b) (routed_priority item items h) above low
