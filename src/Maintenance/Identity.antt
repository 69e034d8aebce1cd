-- ===== src/Maintenance/Identity.antt =====
-- No two live maintenance tasks have the same artifact, type and target replica.
use scientific_protocol.Lease.Sparing.{renew_accepted, renew_refused}
use mathlib.Core.Bool.{false≢true}
use scientific_protocol.Common.{
  sym, ◌∙◌, ℕ, ◌≡◌, true, Option, none, String, arith, inl, inr, Option-cases, Bool-cases, ◌==◌,
}
use scientific_protocol.Lease.{is_assigned, item_is, next_open, insert_item, renew}
use scientific_protocol.Lease.Invariant.{IsValid}
use scientific_protocol.Lease.Expiry.{leases_of_stale, All-stale_candidates}
use scientific_protocol.Maintenance.{
  owns_run, touch_task, beat_run, TaskStore, TaskType, columns, is_active, existing_task, of_type,
  new_task, create_artifact_maintenance_task, claim_next_open_artifact_maintenance_task,
  complete_artifact_maintenance_task, fail_artifact_maintenance_task,
  heartbeat_artifact_maintenance_task_run, expire_stale_artifact_maintenance_task_runs,
}
use scientific_protocol.Maintenance.Invariant.{
  empty_store, Step, Reach, Reach-IsValid_of_tasks, Step-IsValid,
}
use scientific_protocol.Maintenance.Live.{
  is_live_row, is_live, live-finish, IsDistinct, IsDistinct-shrink, live-claim, same_identity_iff,
  live-reopen, live_congr, none_live,
}

pub insert-IsDistinct :
    (s : TaskStore) (now : ℕ) (a q : String) (p t : Option String) (ty : TaskType)
    → IsValid columns s
    → IsDistinct s
    → existing_task a ty t s ≡ none
    → IsDistinct (insert_item columns (new_task now a q p t ty) s)
unfolding insert_item
insert-IsDistinct s now a q p t ty v d e = record {
  unique = λ b uy u j k x y. elim (Bool-cases (s.next_item == j)) [
    | inl j_new ↦ elim (Bool-cases (s.next_item == k)) [
      | inl k_new ↦ ground arith
      | inr k_old ↦ absurd (clash b uy u k (rw j_new at x) (rw k_old at y))
    ]
    | inr j_old ↦ elim (Bool-cases (s.next_item == k)) [
      | inl k_new ↦ absurd (clash b uy u j (rw k_new at y) (rw j_old at x))
      | inr k_old ↦ d.unique b uy u j k (rw j_old at x) (rw k_old at y)
    ]
  ];
}
  where
    clash :
        (b : String) (uy : TaskType) (u : Option String) (i : ℕ)
        → is_live_row b uy u (new_task now a q p t ty) ≡ true
        → is_live b uy u s i ≡ true
        → ⊥
    clash b uy u i new old =
        let (same_a, same_ty, same_t) = same_identity_iff b uy u (new_task now a q p t ty) new in
        false≢true (sym (none_live s a ty t i v e) ∙ live_congr t u s i same_a same_ty same_t ∙ old)

create-IsDistinct :
    (s : TaskStore) (now : ℕ) (a q : String) (p t : Option String) (ty : TaskType)
    → IsValid columns s
    → IsDistinct s
    → IsDistinct (create_artifact_maintenance_task now a q p t ty s).1
unfolding create_artifact_maintenance_task
create-IsDistinct s now a q p t ty v d = elim (Option-cases (existing_task a ty t s)) [
  | inl e ↦ rw (e, create_artifact_maintenance_task) (insert-IsDistinct s now a q p t ty v d e)
  | inr (k, e) ↦ rw (e, create_artifact_maintenance_task) d
]

assigned_active :
    (s : TaskStore) (k : ℕ)
    → item_is columns is_assigned s k ≡ true
    → item_is columns is_active s k ≡ true
assigned_active s k h = elim (Option-cases (s.items k)) [
  | inl e ↦ ground arith
  | inr (task, e) ↦ ground arith
]

Step-IsDistinct : {s s' : TaskStore} → Step s s' → IsValid columns s → IsDistinct s → IsDistinct s'
unfolding claim_next_open_artifact_maintenance_task heartbeat_artifact_maintenance_task_run
    complete_artifact_maintenance_task fail_artifact_maintenance_task
    expire_stale_artifact_maintenance_task_runs
Step-IsDistinct {s} (Step.create now a q p t ty) v d = create-IsDistinct s now a q p t ty v d
Step-IsDistinct {s} (Step.claim_by_id now g w k) v d =
    IsDistinct-shrink s _ d (λ a ty t j. live-claim now g w k s a ty t j)
Step-IsDistinct {s} (Step.claim_next now g w locked ty) v d =
    elim (Option-cases (next_open columns locked (of_type ty) s)) [
      | inl e ↦ rw (e, claim_next_open_artifact_maintenance_task) d
      | inr (k, e) ↦
          rw (e, claim_next_open_artifact_maintenance_task)
            (IsDistinct-shrink s _ d (λ a ty t j. live-claim now g w k s a ty t j))
    ]
Step-IsDistinct {s} (Step.heartbeat now g w r k) v d =
    elim (Bool-cases (renew columns (owns_run g w) k (touch_task now) r (beat_run now) s).0) [
      | inl e ↦
          rw (renew_accepted columns s (owns_run g w) k r (touch_task now) (beat_run now) e).1
            (IsDistinct-shrink s _ d (λ a ty t j. live-finish a ty t s k r _ _ j (λ task h. h)))
      | inr e ↦ rw (renew_refused columns s (owns_run g w) k r (touch_task now) (beat_run now) e) d
    ]
Step-IsDistinct {s} (Step.complete now x y z r k l) v d =
    IsDistinct-shrink s _ d (λ a ty t j. live-finish a ty t s k r _ _ j (λ task h. cc))
Step-IsDistinct {s} (Step.fail now reason r k l) v d =
    IsDistinct-shrink s _ d (λ a ty t j. live-finish a ty t s k r _ _ j (λ task h. cc))
Step-IsDistinct {s} (Step.expire now locked limit ms) v d = IsDistinct-shrink s _ d (λ a ty t j.
    live-reopen now _ s a ty t j (
      All-stale_candidates columns (λ c. item_is columns is_active s c.item_id ≡ true) locked _ _ s
        λ r _ e. assigned_active s _ (v.held r _ (leases_of_stale columns s _ r e))))

Reach-IsDistinct_both : {s : TaskStore} → Reach empty_store s → IsValid columns s × IsDistinct s
Reach-IsDistinct_both Reach.here =
    (Reach-IsValid_of_tasks Reach.here, record { unique = λ a ty t j k x y. cc })
Reach-IsDistinct_both (Reach.next r st) =
    let (v, d) = Reach-IsDistinct_both r in (Step-IsValid st v, Step-IsDistinct st v d)

-- In every state that the queue reaches from the empty tables, where only the holder of a lease completes or fails its
-- task, two tasks that are open or assigned and
-- have the same artifact, the same type and the same target replica, a missing one counting as the
-- empty text, are one task.
pub Reach-IsDistinct : {s : TaskStore} → Reach empty_store s → IsDistinct s
Reach-IsDistinct r = (Reach-IsDistinct_both r).1
