-- ===== src/Work/Branches.antt =====
-- The returns of `deriveClaimWorkOrchestration` in src/work/orchestration.ts, each with its condition.
use scientific_protocol.Common.{
  if-elim, String, arith, true, false, ◌||◌, none, some, ◌≡◌, inl, inr, Option-cases, ltb,
}
use scientific_protocol.Work.Types.{OrchestrationView, OrchestrationAction, is_opened, is_leased}
use scientific_protocol.Work.Orchestration.{
  open_view, view, OrchestrationInput, derive_claim_work_orchestration,
  closed_recommendation_for_status, claim_open, reassignable, exhausted, active_runs,
}

module _ (input : OrchestrationInput) where
  -- The returns of the derivation, each with the condition under which it is reached.
  pub data Branch : OrchestrationView → Type 0 where
    closed_branch :
        (a : OrchestrationAction) (r : String)
        → closed_recommendation_for_status input.status ≡ some a
        → is_opened input.status ≡ false
        → Branch (view input false false a r)
    escalate_branch :
        (r : String)
        → closed_recommendation_for_status input.status ≡ none
        → exhausted input ≡ true
        → Branch (view input (claim_open input) (reassignable input) OrchestrationAction.escalate r)
    leased_branch :
        (r : String)
        → exhausted input ≡ false
        → (ltb 0 (active_runs input) || is_leased input.status) ≡ true
        → Branch (view input (claim_open input) false OrchestrationAction.wait r)
    reassign_branch :
        (r : String)
        → exhausted input ≡ false
        → reassignable input ≡ true
        → Branch (view input (claim_open input) (reassignable input) OrchestrationAction.reassign r)
    claim_branch :
        (r : String)
        → exhausted input ≡ false
        → reassignable input ≡ false
        → claim_open input ≡ true
        → Branch (view input (claim_open input) (reassignable input) OrchestrationAction.claim r)
    full_branch :
        (r : String)
        → exhausted input ≡ false
        → claim_open input ≡ false
        → Branch (view input (claim_open input) (reassignable input) OrchestrationAction.wait r)

  closed-not_open :
      {a : OrchestrationAction}
      → closed_recommendation_for_status input.status ≡ some a
      → is_opened input.status ≡ false
  unfolding closed_recommendation_for_status
  closed-not_open h = ground arith

  open_view-Branch : closed_recommendation_for_status input.status ≡ none → Branch (open_view input)
  open_view-Branch h =
      if-elim Branch (exhausted input) (λ e. escalate_branch _ h e)
        λ e.
          if-elim Branch (ltb 0 (active_runs input) || is_leased input.status)
            (λ l. leased_branch _ e l)
            λ l.
              if-elim Branch (reassignable input) (λ r. reassign_branch _ e r)
                λ r.
                  if-elim Branch (claim_open input) (λ c. claim_branch _ e r c)
                    λ c. full_branch _ e c

  pub derive-Branch : Branch (derive_claim_work_orchestration input)
  unfolding derive_claim_work_orchestration
  derive-Branch = elim (Option-cases (closed_recommendation_for_status input.status)) [
    | inr (a, e) ↦ rw (derive_claim_work_orchestration, e) (closed_branch a _ e (closed-not_open e))
    | inl e ↦ rw (derive_claim_work_orchestration, e) (open_view-Branch e)
  ]
