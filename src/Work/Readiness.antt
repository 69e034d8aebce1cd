-- ===== src/Work/Readiness.antt =====
-- When src/work/scheduling.ts lets workers claim an item without asking, and what it then promises.
use scientific_protocol.Work.Priority.{routed_blocked}
use scientific_protocol.Common.{
  inl, inr, Bool-cases, ◌-◌, ◌∷◌, or_else, any-filter-map, String, ℕ, ◌+◌, ◌≤◌, ◌<◌, min, arith,
  Bool, true, false, not, ◌&&◌, ◌||◌, ◌≡◌, refl, sym, ap, ◌∙◌, ◌↔◌, ltb, if◌then◌else◌, List, [],
  if-elim, Option, none, some, length, filter, any,
}
use scientific_protocol.Work.Types.{
  WorkLane, WorkStatus, WorkItem, RoutedItem, SchedulingView, is_synthesis, is_opened, is_leased,
}
use scientific_protocol.Work.Orchestration.{
  OrchestrationInput, derive_claim_work_orchestration, max_allowed, active_runs, slots_left,
}
use scientific_protocol.Work.Capacity.{slots_eq}
use scientific_protocol.Work.Routing.{
  derive_claim_work_routing, has_blocking_non_synthesis_work, is_sibling, is_blocking_claim_work,
}
use scientific_protocol.Work.Scheduling.{
  target_after_active, route_item, ready_scheduling, derive_claim_work_scheduling,
  unresolved_upstream_items, unresolved_upstream_dependency, is_settled, desired_claims,
  route_items,
}

-- The three signs of a ready item agree.
pub record IsCoherent (view : SchedulingView) : Type 0 where
  pub no_blocker : (view.auto_claimable ≡ true) ↔ (view.blocker ≡ none)
  pub some_wanted : (view.auto_claimable ≡ true) ↔ (0 < view.desired_additional_claims)

-- What the branches of the scheduler have left of a ready item.
record Checks (current : RoutedItem) (items : List RoutedItem) (view : SchedulingView)
    : Type 0 where
  upstream_done : length (unresolved_upstream_items current.item items) ≡ 0
  not_escalated : current.item.orchestration.should_escalate ≡ false
  claimable : current.item.orchestration.can_claim ≡ true
  not_blocked : current.routing.blocked_by_open_work ≡ false
  wants_claims : 0 < desired_claims current items
  asks : view.desired_additional_claims ≡ desired_claims current items

not_leb : (n : ℕ) → not (ltb 0 n) ≡ false → 0 < n
not_leb n h = ground arith

none_left : (n : ℕ) → ltb 0 n ≡ false → n ≡ 0
none_left n h = ground arith

is_true : (b : Bool) → not b ≡ false → b ≡ true
is_true b h = ground arith

module _ (current : RoutedItem) (items : List RoutedItem) where
  abbrev Checked : SchedulingView → Type 0
  Checked view = IsCoherent view × ((view.auto_claimable ≡ true) → Checks current items view)

  blocked-Checked :
      (view : SchedulingView)
      → view.auto_claimable ≡ false
      → ((b : String) × (view.blocker ≡ some b))
      → view.desired_additional_claims ≡ 0
      → Checked view
  blocked-Checked view h b d = (
    record {
      no_blocker = ((λ e. ground (arith, e, h)), λ e. ground (arith, sym e ∙ b.1));
      some_wanted = ((λ e. ground (arith, e, h)), λ e. ground (arith, e, d));
    },
    λ e. ground (arith, e, h),
  )

  ready-Checked :
      ltb 0 (length (unresolved_upstream_items current.item items)) ≡ false
      → current.item.orchestration.should_escalate ≡ false
      → not current.item.orchestration.can_claim ≡ false
      → current.routing.blocked_by_open_work ≡ false
      → not (ltb 0 (desired_claims current items)) ≡ false
      → Checked (ready_scheduling current items)
  ready-Checked u s c b d =
      let wanted = not_leb (desired_claims current items) d in
      (
        record { no_blocker = ((λ e. refl), λ e. refl); some_wanted = ((λ e. wanted), λ e. refl) },
        λ e. record {
          upstream_done = none_left _ u;
          not_escalated = s;
          claimable = is_true _ c;
          not_blocked = b;
          wants_claims = wanted;
          asks = refl;
        },
      )

  derive-Checked : Checked (derive_claim_work_scheduling current items)
  unfolding derive_claim_work_scheduling
  derive-Checked =
      if-elim Checked (ltb 0 (length (unresolved_upstream_items current.item items)))
        (λ e. blocked-Checked _ refl (_, refl) refl)
        λ u.
          if-elim Checked current.item.orchestration.should_escalate
            (λ e. blocked-Checked _ refl (_, refl) refl)
            λ s.
              if-elim Checked (not current.item.orchestration.can_claim)
                (λ e. blocked-Checked _ refl (_, refl) refl)
                λ c.
                  if-elim Checked current.routing.blocked_by_open_work
                    (λ e. blocked-Checked _ refl (_, refl) refl)
                    λ b.
                      if-elim Checked (not (ltb 0 (desired_claims current items)))
                        (λ e. blocked-Checked _ refl (_, refl) refl) λ d. ready-Checked u s c b d

zero_not_ltb : (n : ℕ) → n ≡ 0 → ltb 0 n ≡ false
zero_not_ltb n h = ground arith

-- Does a synthesis item have another item of its claim, outside the synthesis lane, that is neither completed nor
-- canceled?
abbrev pub waits_upstream : WorkItem → List RoutedItem → Bool
waits_upstream item items =
    is_synthesis item.lane
    && any
        (λ entry.
          is_sibling item entry.item
          && not (is_synthesis entry.item.lane)
          && not (is_settled entry.item.status))
        items

-- Is the contributor limit, where there is one, not used up?
abbrev pub has_slot : Option ℕ → Bool
has_slot none = true
has_slot (some n) = ltb 0 n

-- What a ready item is, in the terms of the items alone.
pub record IsReady (current : RoutedItem) (items : List RoutedItem) : Type 0 where
  pub nothing_upstream : waits_upstream current.item items ≡ false
  pub not_escalated : current.item.orchestration.should_escalate ≡ false
  pub claimable : current.item.orchestration.can_claim ≡ true
  pub not_blocked : current.routing.blocked_by_open_work ≡ false
  pub below_target :
      current.item.orchestration.active_run_count
      < current.item.orchestration.target_contributors_needed
  pub slot_left : has_slot current.item.orchestration.remaining_contributor_slots ≡ true

upstream_parts :
    (a b c : Bool)
    → (a && not b && not c) ≡ (a && (if b then false else (if c then false else true)))
upstream_parts a b c = ground arith

any-congr :
    (p q : RoutedItem → Bool) (items : List RoutedItem)
    → ((entry : RoutedItem) → p entry ≡ q entry)
    → any p items ≡ ltb 0 (length (filter q items))
any-congr p q [] h = refl
any-congr p q (x ∷ xs) h = elim (Bool-cases (q x)) [
  | inl e ↦ ground (arith, h x, e)
  | inr e ↦ rw (h x, e) (any-congr p q xs h)
]

upstream-waits :
    (item : WorkItem) (items : List RoutedItem)
    → ltb 0 (length (unresolved_upstream_items item items)) ≡ waits_upstream item items
unfolding unresolved_upstream_items
upstream-waits item items = elim (Bool-cases (is_synthesis item.lane)) [
  | inr e ↦ rw e refl
  | inl e ↦ rw e (
      sym (
        any-congr _ _ items λ entry.
          upstream_parts (is_sibling item entry.item) (is_synthesis entry.item.lane)
            (is_settled entry.item.status)))
]

wanted-slot :
    (slots : Option ℕ) (t a : ℕ)
    → 0 < (elim slots [ none ↦ t - a | some k ↦ min k (t - a) ])
    → (a < t) × (has_slot slots ≡ true)
wanted-slot none t a h = ground arith
wanted-slot (some k) t a h = ground arith

slot-wanted :
    (slots : Option ℕ) (t a : ℕ)
    → a < t
    → has_slot slots ≡ true
    → ltb 0 (elim slots [ none ↦ t - a | some k ↦ min k (t - a) ]) ≡ true
slot-wanted none t a h e = ground arith
slot-wanted (some k) t a h e = ground arith

module _ (current : RoutedItem) (items : List RoutedItem) where
  Checks-IsReady : {view : SchedulingView} → Checks current items view → IsReady current items
  Checks-IsReady c =
      let slots =
        wanted-slot current.item.orchestration.remaining_contributor_slots
          current.item.orchestration.target_contributors_needed
          current.item.orchestration.active_run_count c.wants_claims in
      record {
        nothing_upstream = sym (upstream-waits current.item items) ∙ zero_not_ltb _ c.upstream_done;
        not_escalated = c.not_escalated;
        claimable = c.claimable;
        not_blocked = c.not_blocked;
        below_target = slots.0;
        slot_left = slots.1;
      }

  ready_view :
      IsReady current items
      → derive_claim_work_scheduling current items ≡ ready_scheduling current items
  unfolding derive_claim_work_scheduling
  ready_view r =
      rw
        (
          derive_claim_work_scheduling,
          upstream-waits current.item items,
          r.nothing_upstream,
          r.not_escalated,
          r.claimable,
          r.not_blocked,
          slot-wanted _ _ _ r.below_target r.slot_left,
        )
        refl

  -- A ready item has no blocker and more claims are wanted of it; an item that is not ready has a blocker and none are
  -- wanted. An item is ready exactly when it is not a synthesis item with another item of its claim, outside the
  -- synthesis lane, that is neither completed nor canceled, it needs no escalation, can be claimed and waits on no open
  -- work, its active runs are fewer than the contributors still needed, and its contributor limit, where it has one, is
  -- not used up.
  pub ready_lem :
      IsCoherent (derive_claim_work_scheduling current items)
      × (((derive_claim_work_scheduling current items).auto_claimable ≡ true)
          ↔ (IsReady current items))
  ready_lem =
      let checked = derive-Checked current items in
      (
        checked.0,
        (λ h. Checks-IsReady (checked.1 h), λ r. ap (λ v. v.auto_claimable) (ready_view r)),
      )

asked_in_slots :
    (slots : Option ℕ) (n used active target : ℕ) {asked : ℕ}
    → slots ≡ slots_left (some n) used active
    → asked ≡ elim slots [ none ↦ target | some k ↦ min k target ]
    → 0 < asked
    → asked + used + active ≤ n
asked_in_slots none n used active target e a p = ground (arith, e)
asked_in_slots (some k) n used active target e a p = omega (arith, ap (λ o. or_else o 0) e, a, p)

-- A ready item whose view was derived from a policy with a maximum of n contributors keeps to it: the claims that the
-- scheduler asks for, the successful contributions and the active runs are together at most n.
pub asked_within_policy :
    (input : OrchestrationInput) (n : ℕ) (current : RoutedItem) (items : List RoutedItem)
    → current.item.orchestration ≡ derive_claim_work_orchestration input
    → max_allowed input ≡ some n
    → (derive_claim_work_scheduling current items).auto_claimable ≡ true
    → (derive_claim_work_scheduling current items).desired_additional_claims
        + input.successful_contribution_count
        + active_runs input
      ≤ n
asked_within_policy input n current items e m h =
    let ready = (derive-Checked current items).1 h in
    asked_in_slots current.item.orchestration.remaining_contributor_slots n _ _
      (target_after_active current items)
      (ap (λ o. o.remaining_contributor_slots) e
        ∙ slots_eq input
        ∙ ap (λ l. slots_left l input.successful_contribution_count (active_runs input)) m)
      ready.asks (omega (arith, ready.asks, ready.wants_claims))

-- A ready synthesis item has every other item of its claim, outside the synthesis lane, completed or canceled.
pub synthesis_waits :
    (current : RoutedItem) (items : List RoutedItem)
    → is_synthesis current.item.lane ≡ true
    → (derive_claim_work_scheduling current items).auto_claimable ≡ true
    → any
        (λ entry.
          is_sibling current.item entry.item
          && not (is_synthesis entry.item.lane)
          && not (is_settled entry.item.status))
        items
      ≡ false
synthesis_waits current items s h =
    let ready = Checks-IsReady current items ((derive-Checked current items).1 h) in
    rw s at ready.nothing_upstream

positive : (n : ℕ) → 0 < n → ltb 0 n ≡ true
positive n h = ground arith

blocking_parts :
    (sibling a : Bool) (lane : WorkLane) (status : WorkStatus) (b : Bool)
    → (sibling && (a && (is_opened status || is_leased status) && not (is_synthesis lane) && b))
      ≡ true
    → (sibling
        && (if is_synthesis lane then false else (if is_settled status then false else true)))
      ≡ true
blocking_parts sibling a lane status b h = ground arith

blocking_unresolved :
    (item : WorkItem) (sibling : Bool)
    → (sibling && is_blocking_claim_work item) ≡ true
    → (sibling && unresolved_upstream_dependency item) ≡ true
blocking_unresolved item sibling h = blocking_parts _ _ item.lane item.status _ h

not_synthesis_clear :
    (lane rest : Bool) → (if not lane then false else rest) ≡ true → (lane ≡ true) × (rest ≡ true)
not_synthesis_clear lane rest h = ground arith

block_counted :
    (item : WorkItem) (items : List WorkItem)
    → has_blocking_non_synthesis_work items item ≡ true
    → 0 < length (unresolved_upstream_items item (route_items items))
unfolding has_blocking_non_synthesis_work unresolved_upstream_items
block_counted item items h =
    let parts = not_synthesis_clear (is_synthesis item.lane) _ h in
    rw parts.0 (
      any-filter-map _ _ (route_item items) items (λ a. blocking_unresolved a (is_sibling item a))
        parts.1)

-- Where the routing sees open work below a synthesis item, the scheduler, which reads the same items after their routing,
-- counts it among the unresolved dependencies and names it as the blocker.
pub routing_block_counted :
    (item : WorkItem) (items : List WorkItem)
    → (derive_claim_work_routing item items).blocked_by_open_work ≡ true
    → (0
        < (derive_claim_work_scheduling
            (route_item items item)
            (route_items items)).unresolved_dependency_count)
      × ((derive_claim_work_scheduling (route_item items item) (route_items items)).blocker
          ≡ some "dependency_blocked")
unfolding derive_claim_work_scheduling
routing_block_counted item items h =
    let counted = block_counted item items (sym (routed_blocked item items) ∙ h) in
    rw (derive_claim_work_scheduling, positive _ counted) (counted, refl)
