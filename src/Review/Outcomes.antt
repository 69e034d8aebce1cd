-- ===== src/Review/Outcomes.antt =====
-- What callers of src/review/store.ts see of a submission, and of a task that is completed while runs are under way.
use scientific_protocol.Common.{
  ℕ, suc, arith, true, ◌≡◌, refl, sym, subst, inl, inr, ◌⊎◌, Bool-cases, Option-cases, Option, none,
  some, String, ◌==◌, ==_iff, if◌then◌else◌, Result, ok, thrown,
}
use scientific_protocol.Lease.{RunStatus}
use scientific_protocol.Table.{get, get-update_self}
use scientific_protocol.Review.{
  ReviewRun, ReviewStore, ReviewError, map_review_task_row, submitted, running_of, ReviewSubmission,
}
use scientific_protocol.Review.Submission.{
  SubmissionInput, Recorded, record_review_submission, submits_twice, check_run, complete_run,
}
use scientific_protocol.Review.Submitting.{Result-cases, check_run-eq-ok}

-- The run that a submission names, if it names one, was running and is completed.
abbrev pub RunEnded : ReviewStore → ReviewStore → ℕ → Option ℕ → Type 0
RunEnded s t now none = Unit
RunEnded s t now (some r) =
    (run : ReviewRun) × (get r s.runs ≡ some run)
    × (run.status ≡ RunStatus.running)
    × (get r t.runs ≡ some (record run { status = RunStatus.completed; finished_at = some now }))

abbrev pub Outcome :
    Result ReviewError Recorded × ReviewStore → ReviewStore → SubmissionInput → ℕ → Type 0
Outcome out s input now =
    ((e : ReviewError) × (out ≡ (thrown e, s)))
    ⊎ ((done : Recorded) × (out.0 ≡ ok done)
        × (submitted out.1 input.task_id ≡ suc (submitted s input.task_id))
        × ((row : ReviewSubmission) × (done.submission ≡ some row)
            × (get done.submission_id out.1.submissions ≡ some row)
            × (row.task_id ≡ input.task_id)
            × (row.verdict ≡ input.verdict))
        × RunEnded s out.1 now input.run_id)

held_status : (k : ℕ) (run : ReviewRun) → running_of k run ≡ true → run.status ≡ RunStatus.running
held_status k run h = ground (arith, h)

-- A submission that throws changes no table. One that does not adds one submission to the task, returns its row, and
-- completes the run that it names, if any, which was running.
pub record-Outcome :
    (lower : String → String) (now : ℕ) (input : SubmissionInput) (s : ReviewStore)
    → Outcome (record_review_submission lower now input s) s input now
unfolding record_review_submission
record-Outcome lower now input s = elim (Option-cases (get input.task_id s.tasks)) [
  | inl e ↦ rw (record_review_submission, e) (inl (_, refl))
  | inr (row, e) ↦ elim (Result-cases (check_run input s)) [
    | inl (x, c) ↦ rw (record_review_submission, e, c) (inl (_, refl))
    | inr (done, c) ↦ elim (Bool-cases (submits_twice input (map_review_task_row row) s)) [
      | inl d ↦ rw (record_review_submission, e, c, d) (inl (_, refl))
      | inr d ↦
          rw (record_review_submission, e, c, d)
            (inr (_, refl, one_more, (_, added _, added _, refl, refl), ended c))
    ]
  ]
]
  where
    one_more :
        (if input.task_id == input.task_id
          then suc (submitted s input.task_id)
          else submitted s input.task_id)
        ≡ suc (submitted s input.task_id)
    one_more = rw ((==_iff input.task_id input.task_id).1 refl) refl

    added :
        (row : ReviewSubmission)
        → (if s.next_submission == s.next_submission
            then some row
            else get s.next_submission s.submissions)
          ≡ some row
    added row = rw ((==_iff s.next_submission s.next_submission).1 refl) refl

    ended :
        check_run input s ≡ ok tt
        → RunEnded s (record s { runs = complete_run now input.run_id s.runs }) now input.run_id
    ended c = elim (Option-cases input.run_id) [
      | inl e ↦
          subst (λ o. RunEnded s (record s { runs = complete_run now o s.runs }) now o) (sym e) tt
      | inr (r, e) ↦
          let (run, found, held) = check_run-eq-ok input s r e c in
          subst (λ o. RunEnded s (record s { runs = complete_run now o s.runs }) now o) (sym e)
            (run, found, held_status input.task_id run held, get-update_self r _ s.runs found)
    ]
