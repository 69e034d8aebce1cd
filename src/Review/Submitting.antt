-- ===== src/Review/Submitting.antt =====
-- The move that `recordReviewSubmission` of src/review/store.ts makes.
use scientific_protocol.Common.{
  ℕ, suc, ◌≤◌, ◌<◌, arith, Bool, true, false, ◌≡◌, refl, sym, ap, subst, ◌∙◌, inl, inr, ◌⊎◌,
  Bool-cases, Option-cases, Option, none, some, String, ◌==◌, ==_iff, if◌then◌else◌, leb, Result,
  ok, thrown,
}
use scientific_protocol.Work.Policy.{ReviewConsensusPolicy}
use scientific_protocol.Table.{
  get, count, get-update_self, get-update_ne, count-update-le, count-update-lt, get-update,
}
use scientific_protocol.Review.{
  ReviewTask, ReviewRun, ReviewStore, policy_of, task_is_open, map_review_task_row, running_of,
  submitted, running,
}
use scientific_protocol.Review.Policy.{normalize-to_raw}
use scientific_protocol.Review.Submission.{
  SubmissionInput, record_review_submission, check_run, check_held, check_found, check_given,
  complete_run, settle, submits_twice, add_submission, settle_task,
}
use scientific_protocol.Review.Consensus.{Move, submit}
use scientific_protocol.Review.Effects.{Frame, frame, counter, view}
use scientific_protocol.Review.Moves.{IsKeyed, released}

pub Result-cases :
    {E A : Type 0} (r : Result E A) → ((e : E) × (r ≡ thrown e)) ⊎ ((a : A) × (r ≡ ok a))
Result-cases (thrown e) = inl (e, refl)
Result-cases (ok a) = inr (a, refl)

held_parts :
    (input : SubmissionInput) (run : ReviewRun)
    → check_held input run ≡ ok tt
    → running_of input.task_id run ≡ true
held_parts input run h = ground (arith, h)

-- A run that passes the tests is a running run of the task.
pub check_run-eq-ok :
    (input : SubmissionInput) (s : ReviewStore) (r : ℕ)
    → input.run_id ≡ some r
    → check_run input s ≡ ok tt
    → (run : ReviewRun) × (get r s.runs ≡ some run) × (running_of input.task_id run ≡ true)
check_run-eq-ok input s r e h =
    let given = subst (λ o. check_given input s.runs o ≡ ok tt) e h in
    elim (Option-cases (get r s.runs)) [
      | inl n ↦ ground (arith, subst (λ o. check_found input o ≡ ok tt) n given)
      | inr (run, f) ↦
          (run, f, held_parts input run (subst (λ o. check_found input o ≡ ok tt) f given))
    ]

view_shrunk :
    (f g : Option Frame) (a a' b b' : ℕ)
    → g ≡ f
    → a' ≡ a
    → b' ≤ b
    → Move (counter f a b) (counter g a' b')
view_shrunk f g a a' b b' e h k = rw (e, h) (released f a b b' k)

view_submitted :
    (f g : Option Frame) (p : ReviewConsensusPolicy) (o : Bool) (a a' b b' : ℕ)
    → f ≡ some (p, o)
    → g ≡ some (p, if leb p.min_submissions (suc a) then false else o)
    → a' ≡ suc a
    → b' < b
    → Move (counter f a b) (counter g a' b')
view_submitted f g p o a a' b b' e h k l = rw (e, h, k) (submit b' l refl)

settle-frame :
    (now : ℕ) (key : Option String) (b : Bool) (t : ReviewTask)
    → frame (some (settle now key b t)) ≡ some (policy_of t, if b then false else task_is_open t)
settle-frame now key true t = refl
settle-frame now key false t = refl

module _ (lower : String → String) (now : ℕ) (input : SubmissionInput) (r : ℕ) (s : ReviewStore)
    (row : ReviewTask) (run_given : input.run_id ≡ some r)
    (found : get input.task_id s.tasks ≡ some row) (run : ReviewRun)
    (leased : get r s.runs ≡ some run) (held : running_of input.task_id run ≡ true) where
  abbrev task : ReviewTask
  task = map_review_task_row row

  abbrev pub recorded : ReviewStore
  recorded = settle_task lower now input task (add_submission lower now input task s)

  runs_of : recorded.runs ≡ complete_run now (some r) s.runs
  runs_of = ap (λ o. complete_run now o s.runs) run_given

  running-le : (k : ℕ) → running recorded k ≤ running s k
  running-le k =
      subst (λ rows. count (running_of k) rows ≤ running s k) (sym runs_of)
        (count-update-le (running_of k) r _ s.runs (λ a h. ground (arith, h)))

  running-lt : running recorded input.task_id < running s input.task_id
  running-lt =
      subst (λ rows. count (running_of input.task_id) rows < running s input.task_id) (sym runs_of)
        (count-update-lt (running_of input.task_id) r _ s.runs leased held (λ b. ground arith))

  one_more : submitted recorded input.task_id ≡ suc (submitted s input.task_id)
  one_more = rw ((==_iff input.task_id input.task_id).1 refl) refl

  settled :
      frame (get input.task_id recorded.tasks)
      ≡ some (
        policy_of row,
        if leb (policy_of row).min_submissions (suc (submitted s input.task_id))
            then false
            else task_is_open row,
      )
  settled =
      ap frame (get-update_self input.task_id _ s.tasks found)
      ∙ settle-frame now input.result_artifact_key _ row
      ∙ ap (λ b. some (policy_of row, if b then false else task_is_open row))
          (ap (λ p. leb p.min_submissions (submitted recorded input.task_id))
              (normalize-to_raw row.consensus_policy)
            ∙ ap (leb (policy_of row).min_submissions) one_more)

  this-Move : Move (view s input.task_id) (view recorded input.task_id)
  this-Move =
      view_submitted _ _ (policy_of row) (task_is_open row) _ _ _ _ (ap frame found) settled
        one_more running-lt

  pub recorded-Move : (k : ℕ) → Move (view s k) (view recorded k)
  recorded-Move k = elim (Bool-cases (input.task_id == k)) [
    | inr e ↦
        view_shrunk _ _ _ _ _ _ (ap frame (get-update_ne k input.task_id _ s.tasks e)) (rw e refl)
          (running-le k)
    | inl e ↦
        subst (λ j. Move (view s j) (view recorded j)) ((==_iff input.task_id k).0 e) this-Move
  ]

  apart : (k : ℕ) → get k s.tasks ≡ none → (input.task_id == k) ≡ false
  apart k e = elim (Bool-cases (input.task_id == k)) [
    | inr h ↦ h
    | inl h ↦
        ground
          (arith, e, subst (λ n. get n s.tasks ≡ some row) ((==_iff input.task_id k).0 h) found)
  ]

  absent : (k : ℕ) → get k recorded.tasks ≡ none → get k s.tasks ≡ none
  absent k e = elim (Option-cases (get k s.tasks)) [
    | inl n ↦ n
    | inr (t, f) ↦ ground (
      arith,
      f,
      e,
      get-update k input.task_id
          (settle now input.result_artifact_key
            (leb (policy_of task).min_submissions (submitted recorded input.task_id)))
          s.tasks,
    )
  ]

  pub recorded-IsKeyed : IsKeyed s → IsKeyed recorded
  recorded-IsKeyed v = record {
    fresh = λ k le.
        rw
          (
            get-update k input.task_id
                (settle now input.result_artifact_key
                  (leb (policy_of task).min_submissions (submitted recorded input.task_id)))
                s.tasks,
            v.fresh k le,
          )
          (ground arith);
    owned = λ k e.
        let before = v.owned k (absent k e) in
        (rw (apart k (absent k e)) before.0, omega (arith, running-le k, before.1));
  }

-- A property of the tables that holds before, and after what an admitted submission does, holds after the call.
pub record_rule :
    (P : ReviewStore → Type 0) (lower : String → String) (now : ℕ) (input : SubmissionInput)
    (s : ReviewStore)
    → P s
    → ((row : ReviewTask)
        → get input.task_id s.tasks ≡ some row
        → check_run input s ≡ ok tt
        → submits_twice input (map_review_task_row row) s ≡ false
        → P (
            settle_task lower now input
              (map_review_task_row row)
              (add_submission lower now input (map_review_task_row row) s)))
    → P (record_review_submission lower now input s).1
unfolding record_review_submission
record_rule P lower now input s old new = elim (Option-cases (get input.task_id s.tasks)) [
  | inl e ↦ rw (record_review_submission, e) old
  | inr (row, e) ↦ elim (Result-cases (check_run input s)) [
    | inl (x, c) ↦ rw (record_review_submission, e, c) old
    | inr (done, c) ↦ elim (Bool-cases (submits_twice input (map_review_task_row row) s)) [
      | inl d ↦ rw (record_review_submission, e, c, d) old
      | inr d ↦ rw (record_review_submission, e, c, d) (new row e c d)
    ]
  ]
]
