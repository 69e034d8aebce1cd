-- ===== src/Review/Stranded.antt =====
-- What becomes of a run of src/review/store.ts that is left when its task is closed, in the histories that follow.
use scientific_protocol.Common.{
  ℕ, ◌-◌, arith, true, false, ◌≡◌, ◌≢◌, ◌∙◌, inl, inr, Bool-cases, Option, none, some, String,
}
use scientific_protocol.Table.{get}
use scientific_protocol.Review.{
  ReviewTask, ReviewRun, ReviewStore, task_is_open, fail_review_task_run, may_beat,
}
use scientific_protocol.Review.Leases.{heartbeat_review_task_run, expire_stale_review_task_runs}
use scientific_protocol.Review.Moves.{IsKeyed, create_rule, claim_rule}
use scientific_protocol.Review.Submitting.{record_rule}
use scientific_protocol.Review.RunKeys.{
  IsDescending, update-IsDescending, completed-IsDescending, stale_candidates-ne,
  expired-IsDescending,
}
use scientific_protocol.Review.Refinement.{
  Step, creates, claims, fails, beats, expires, submits, Reach, empty_store, Step-IsKeyed,
  Reach-IsKeyed,
}
use scientific_protocol.Review.Left.{
  is_closed, closed-update, settle_closed, IsLeft, inserted-IsLeft, leased-IsLeft, updated-IsLeft,
  beat_refused, fresh_run, expired-runs, expired_closed, completed-runs,
}

-- A step that is neither a failure nor a submission of the run `r`.
abbrev pub Spares : {lower : String → String} {s t : ReviewStore} (r : ℕ) → Step lower s t → Type 0
Spares r (fails now reason run_id task_id) = run_id ≢ r
Spares r (submits now input run_id given) = run_id ≢ r
Spares r _ = Unit {0}

-- A history of such steps.
pub data Others (lower : String → String) (r : ℕ) (s : ReviewStore) : ReviewStore → Type 0 where
  here : Others lower r s s
  next :
      {t u : ReviewStore}
      → Others lower r s t
      → (st : Step lower t u) → Spares r st
      → Others lower r s u

module _ (lower : String → String) where
  -- Every step keeps the keys of the runs apart.
  Step-IsDescending :
      {s t : ReviewStore}
      → Step lower s t
      → IsDescending s.next_run s.runs
      → IsDescending t.next_run t.runs
  unfolding fail_review_task_run heartbeat_review_task_run expire_stale_review_task_runs
  Step-IsDescending (creates {s} now input) h =
      create_rule (λ t. IsDescending t.next_run t.runs) now input s h (λ sid. h)
  Step-IsDescending (claims {s} now agent j w) h =
      claim_rule (λ t. IsDescending t.next_run t.runs) now agent j w s h (λ t e m. (omega arith, h))
  Step-IsDescending (fails {s} now reason x k) h = update-IsDescending s.next_run x _ s.runs h
  Step-IsDescending (beats {s} now agent x k w) h = elim (Bool-cases (may_beat s agent x k w)) [
    | inl e ↦ rw (heartbeat_review_task_run, e) (update-IsDescending s.next_run x _ s.runs h)
    | inr e ↦ rw (heartbeat_review_task_run, e) h
  ]
  Step-IsDescending (expires {s} now locked limit ms) h = expired-IsDescending now _ s h
  Step-IsDescending (submits {s} now input x e) h =
      record_rule (λ t. IsDescending t.next_run t.runs) lower now input s h
        λ row found c d. completed-IsDescending s.next_run now input.run_id s.runs h

  Reach-IsDescending :
      {s : ReviewStore} → Reach lower empty_store s → IsDescending s.next_run s.runs
  Reach-IsDescending Reach.here = tt
  Reach-IsDescending (Reach.next h st) = Step-IsDescending st (Reach-IsDescending h)

  Step-IsLeft :
      {r : ℕ} {run : ReviewRun} {s t : ReviewStore} (st : Step lower s t)
      → Spares r st
      → IsKeyed s
      → IsLeft r run s
      → IsLeft r run t
  unfolding fail_review_task_run heartbeat_review_task_run expire_stale_review_task_runs
  Step-IsLeft {r} {run} (creates {s} now input) p keyed v =
      create_rule (IsLeft r run) now input s v (λ sid. inserted-IsLeft v _ keyed)
  Step-IsLeft {r} {run} (claims {s} now agent j w) p keyed v =
      claim_rule (IsLeft r run) now agent j w s v (λ t e m. leased-IsLeft v now j agent w)
  Step-IsLeft (fails now reason x k) p keyed v = updated-IsLeft v now x k _ p
  Step-IsLeft {r} (beats {s} now agent x k w) p keyed v =
      elim (Bool-cases (may_beat s agent x k w)) [
        | inr e ↦ rw (heartbeat_review_task_run, e) v
        | inl e ↦
            rw (heartbeat_review_task_run, e)
              (updated-IsLeft v now x k _ λ same.
                let refused = beat_refused v agent k w in ground (arith, rw same at e, refused))
      ]
  Step-IsLeft {r} {run} (expires {s} now locked limit ms) p keyed v = record {
    there =
        expired-runs now r _ s
          (stale_candidates-ne locked _ _ s r run v.keys v.there (fresh_run v (now - ms)))
        ∙ v.there;
    closed = expired_closed now run.task_id _ s v.closed;
    keys = expired-IsDescending now _ s v.keys;
  }
  Step-IsLeft {r} {run} (submits {s} now input x e) p keyed v =
      record_rule (IsLeft r run) lower now input s v λ row found c d. record {
        there = completed-runs now r input.run_id x s.runs e p ∙ v.there;
        closed =
            closed-update run.task_id input.task_id _ s.tasks
              (settle_closed now input.result_artifact_key _) v.closed;
        keys = completed-IsDescending s.next_run now input.run_id s.runs v.keys;
      }

  Others-IsLeft :
      {r : ℕ} {run : ReviewRun} {s t : ReviewStore}
      → Others lower r s t
      → IsKeyed s
      → IsLeft r run s
      → IsKeyed t × IsLeft r run t
  Others-IsLeft here keyed v = (keyed, v)
  Others-IsLeft (next h st p) keyed v =
      let (keyed', v') = Others-IsLeft h keyed v in
      (Step-IsKeyed lower st keyed', Step-IsLeft st p keyed' v')

left_closed :
    (o : Option ReviewTask) (row : ReviewTask)
    → o ≡ some row
    → task_is_open row ≡ false
    → is_closed o ≡ true
left_closed none row e h = ground (arith, e)
left_closed (some t) row e h = ground (arith, e, h)

-- In a history of the operations from empty tables, where each submission names its run, a task is completed or otherwise
-- not open, while a run of it is left. In every history of further operations, heartbeats and reapings at any time and with
-- any limit among them, that has no failure and no submission of this run itself, the run keeps its row: where it was
-- running, it still is.
pub left_run_stays :
    (lower : String → String) {s t : ReviewStore} (r : ℕ) (run : ReviewRun) (row : ReviewTask)
    → Reach lower empty_store s
    → get r s.runs ≡ some run
    → get run.task_id s.tasks ≡ some row
    → task_is_open row ≡ false
    → Others lower r s t
    → get r t.runs ≡ some run
left_run_stays lower {s} r run row reached there task closed h =
    let left : IsLeft r run s = record {
      there = there;
      closed = left_closed (get run.task_id s.tasks) row task closed;
      keys = Reach-IsDescending lower reached;
    } in
    (Others-IsLeft lower h (Reach-IsKeyed lower reached) left).1.there
