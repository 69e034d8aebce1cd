-- ===== src/Work/Capacity.antt =====
-- Who may claim an item, and how many: src/work/orchestration.ts with src/work/scheduling.ts.
use scientific_protocol.Common.{
  and3-true, subst, ℕ, ◌+◌, ◌<◌, arith, true, Option, none, some, ◌≡◌, refl, ◌↔◌,
}
use scientific_protocol.Work.Types.{OrchestrationView, WorkStatus, is_opened}
use scientific_protocol.Work.Orchestration.{
  is_given, has_slot, slots_left, OrchestrationInput, derive_claim_work_orchestration, claim_open,
  max_allowed, active_runs, remaining_slots,
}
use scientific_protocol.Work.Branches.{
  Branch, closed_branch, escalate_branch, leased_branch, reassign_branch, claim_branch, full_branch,
  derive-Branch,
}

-- A slot is left under the maximum, where there is one.
pub HasRoom : Option ℕ → ℕ → Type 0
HasRoom none used = Unit
HasRoom (some n) used = used < n

pub IsPresent {ℓ} : {A : Type ℓ} → Option A → Type 0
IsPresent none = ⊥
IsPresent (some a) = Unit

module _ (input : OrchestrationInput) where
  can_claim_lem : (o : OrchestrationView) → Branch input o → o.can_claim ≡ claim_open input
  can_claim_lem o (closed_branch a r h n) = rw n refl
  can_claim_lem o (escalate_branch r h e) = refl
  can_claim_lem o (leased_branch r e l) = refl
  can_claim_lem o (reassign_branch r e h) = refl
  can_claim_lem o (claim_branch r e h c) = refl
  can_claim_lem o (full_branch r e c) = refl

  pub can_claim_eq : (derive_claim_work_orchestration input).can_claim ≡ claim_open input
  can_claim_eq = can_claim_lem _ (derive-Branch input)

  slots_lem :
      (o : OrchestrationView)
      → Branch input o
      → o.remaining_contributor_slots ≡ remaining_slots input
  slots_lem o (closed_branch a r h n) = refl
  slots_lem o (escalate_branch r h e) = refl
  slots_lem o (leased_branch r e l) = refl
  slots_lem o (reassign_branch r e h) = refl
  slots_lem o (claim_branch r e h c) = refl
  slots_lem o (full_branch r e c) = refl

  pub slots_eq :
      (derive_claim_work_orchestration input).remaining_contributor_slots ≡ remaining_slots input
  slots_eq = slots_lem _ (derive-Branch input)

opened_iff : (status : WorkStatus) → (is_opened status ≡ true) ↔ (status ≡ WorkStatus.opened)
opened_iff status = ((λ h. ground arith), λ h. rw h refl)

IsPresent-iff {ℓ} : {A : Type ℓ} (o : Option A) → (is_given o ≡ true) ↔ IsPresent o
unfolding IsPresent
IsPresent-iff none = ((λ h. ground arith), λ h. elim h [ ])
IsPresent-iff (some a) = ((λ h. tt), λ h. refl)

room_iff :
    (limit : Option ℕ) (used active : ℕ)
    → (has_slot (slots_left limit used active) ≡ true) ↔ HasRoom limit (used + active)
unfolding HasRoom
room_iff none used active = ((λ h. tt), λ h. refl)
room_iff (some n) used active = ((λ h. ground arith), λ h. ground arith)

-- An item can be claimed exactly when its status is open, its kind has a claim request, and, where the policy has a
-- maximum, the successful contributions and the active runs together are below it.
pub can_claim_iff :
    (input : OrchestrationInput)
    → ((derive_claim_work_orchestration input).can_claim ≡ true) ↔ (
        (input.status ≡ WorkStatus.opened)
        × IsPresent input.agent_actions.claim
        × HasRoom (max_allowed input) (input.successful_contribution_count + active_runs input))
unfolding HasRoom IsPresent
can_claim_iff input = rw (can_claim_eq input) (
  (λ h.
      let parts =
        and3-true (is_opened input.status) (is_given input.agent_actions.claim)
          (has_slot (remaining_slots input)) h in
      (
        (opened_iff input.status).0 parts.0,
        (IsPresent-iff input.agent_actions.claim).0 parts.1,
        (room_iff (max_allowed input) _ _).0 parts.2,
      )),
  λ h.
      rw
        (
          h.0,
          (IsPresent-iff input.agent_actions.claim).1 h.1,
          (room_iff (max_allowed input) _ _).1 h.2,
        )
        refl,
)

-- An item that may be claimed with a maximum of contributors has fewer successful contributions and active runs.
pub claim_below_maximum :
    (input : OrchestrationInput) (n : ℕ)
    → (derive_claim_work_orchestration input).can_claim ≡ true
    → max_allowed input ≡ some n
    → input.successful_contribution_count + active_runs input < n
unfolding HasRoom
claim_below_maximum input n h e =
    subst (λ limit. HasRoom limit (input.successful_contribution_count + active_runs input)) e
      ((can_claim_iff input).0 h).2
