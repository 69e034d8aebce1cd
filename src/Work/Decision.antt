-- ===== src/Work/Decision.antt =====
-- The recommended action of src/work/orchestration.ts.
use scientific_protocol.Common.{
  ℕ, ◌<◌, arith, Bool, true, false, ◌&&◌, ◌||◌, some, ◌≡◌, refl, sym, ◌⊎◌, ◌↔◌, inl, inr, ltb, ◌==◌,
  or_else, length, subst, ap, String,
}
use scientific_protocol.Work.Types.{
  WorkStatus, OrchestrationAction, OrchestrationView, is_opened, is_leased, is_escalated,
}
use scientific_protocol.Work.Orchestration.{
  is_given, has_slot, OrchestrationInput, derive_claim_work_orchestration,
  closed_recommendation_for_status, claim_open, active_runs, failed_runs, remaining_slots,
  target_needed, view,
}
use scientific_protocol.Work.Branches.{
  Branch, closed_branch, escalate_branch, leased_branch, reassign_branch, claim_branch, full_branch,
  derive-Branch,
}

-- What a recommendation says of the item.
pub Justifies : OrchestrationInput → OrchestrationView → OrchestrationAction → Type 0
Justifies input o OrchestrationAction.escalate = o.should_escalate ≡ true
Justifies input o OrchestrationAction.reassign =
    (o.can_claim ≡ true)
    × (o.can_reassign ≡ true)
    × (o.active_run_count ≡ 0)
    × (0 < o.failed_run_count)
    × (0 < o.target_contributors_needed)
Justifies input o OrchestrationAction.claim = (o.can_claim ≡ true) × (o.can_reassign ≡ false)
Justifies input o OrchestrationAction.wait = (o.can_claim ≡ false) ⊎ (0 < o.active_run_count)
Justifies input o OrchestrationAction.complete = input.status ≡ WorkStatus.completed
Justifies input o OrchestrationAction.closed =
    (input.status ≡ WorkStatus.failed) ⊎ (input.status ≡ WorkStatus.canceled)

-- What a test of five parts gives.
reassignable_parts :
    (a d : Bool) (active failed target : ℕ)
    → (a && active == 0 && ltb 0 failed && d && ltb 0 target) ≡ true
    → (d ≡ true) × (active ≡ 0) × (0 < failed) × (0 < target)
reassignable_parts a d active failed target h = ground arith

leased-closed :
    (status : WorkStatus) (active : ℕ) (a b : Bool)
    → (ltb 0 active || is_leased status) ≡ true
    → ((is_opened status && a && b) ≡ false) ⊎ (0 < active)
leased-closed status active a b h = ground arith

not_exhausted :
    (status : WorkStatus) (a b c : Bool) {r : OrchestrationAction}
    → closed_recommendation_for_status status ≡ some r
    → (is_escalated status || (is_opened status && a && b && c)) ≡ true
    → OrchestrationAction.escalate ≡ r
unfolding closed_recommendation_for_status
not_exhausted status a b c h e = ground arith

module _ (input : OrchestrationInput) where
  closed-Justifies :
      (status : WorkStatus) (a : OrchestrationAction) (r : String)
      → input.status ≡ status
      → closed_recommendation_for_status status ≡ some a
      → Justifies input (view input false false a r) a
  unfolding Justifies closed_recommendation_for_status
  closed-Justifies WorkStatus.completed a r e h =
      subst (λ a. Justifies input (view input false false a r) a) (ap (λ o. or_else o a) h) e
  closed-Justifies WorkStatus.failed a r e h =
      subst (λ a. Justifies input (view input false false a r) a) (ap (λ o. or_else o a) h) (inl e)
  closed-Justifies WorkStatus.canceled a r e h =
      subst (λ a. Justifies input (view input false false a r) a) (ap (λ o. or_else o a) h) (inr e)
  closed-Justifies WorkStatus.escalated a r e h =
      subst (λ a. Justifies input (view input false false a r) a) (ap (λ o. or_else o a) h)
        (rw e refl)
  closed-Justifies WorkStatus.leased a r e h = ground (arith, h)
  closed-Justifies WorkStatus.opened a r e h = ground (arith, h)

  Branch-Justifies :
      (o : OrchestrationView) → Branch input o → Justifies input o o.recommended_action
  unfolding Justifies
  Branch-Justifies o (closed_branch a r h n) = closed-Justifies input.status a r refl h
  Branch-Justifies o (escalate_branch r h e) = e
  Branch-Justifies o (leased_branch r e l) =
      leased-closed input.status (active_runs input) (is_given input.agent_actions.claim)
        (has_slot (remaining_slots input)) l
  Branch-Justifies o (reassign_branch r e h) =
      let parts =
        reassignable_parts (is_opened input.status) (claim_open input) (active_runs input)
          (length (failed_runs input)) (target_needed input) h in
      (parts.0, h, parts.1, parts.2, parts.3)
  Branch-Justifies o (claim_branch r e h c) = (c, h)
  Branch-Justifies o (full_branch r e c) = inl c

  Branch-escalates :
      (o : OrchestrationView)
      → Branch input o
      → o.should_escalate ≡ true
      → o.recommended_action ≡ OrchestrationAction.escalate
  Branch-escalates o (closed_branch a r h n) x = sym (not_exhausted input.status _ _ _ h x)
  Branch-escalates o (escalate_branch r h e) x = refl
  Branch-escalates o (leased_branch r e l) x = ground (arith, e, x)
  Branch-escalates o (reassign_branch r e h) x = ground (arith, e, x)
  Branch-escalates o (claim_branch r e h c) x = ground (arith, e, x)
  Branch-escalates o (full_branch r e c) x = ground (arith, e, x)

-- The recommended action is justified by the rest of the view: a reassignment only when the item may be claimed, has no
-- active run, a failed one, and still wants contributors; a claim only when it may be claimed; waiting only when it may
-- not or somebody is at work; a closing word only for the status it names; and an escalation exactly when the view
-- says that the item should be escalated.
pub recommendation_justified :
    (input : OrchestrationInput)
    → Justifies input
        (derive_claim_work_orchestration input)
        (derive_claim_work_orchestration input).recommended_action
      × (((derive_claim_work_orchestration input).should_escalate ≡ true) ↔ (
          (derive_claim_work_orchestration input).recommended_action
          ≡ OrchestrationAction.escalate))
unfolding Justifies
recommendation_justified input =
    let o = derive_claim_work_orchestration input in
    let justified = Branch-Justifies input o (derive-Branch input) in
    (
      justified,
      (
        Branch-escalates input o (derive-Branch input),
        λ e. subst (λ a. Justifies input o a) e justified,
      ),
    )
