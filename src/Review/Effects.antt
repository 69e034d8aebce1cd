-- ===== src/Review/Effects.antt =====
-- What the statements of src/review/store.ts do to the counts of each task.
use scientific_protocol.Common.{
  ℕ, ◌≤◌, arith, Bool, true, ◌≡◌, refl, ◌∙◌, inl, inr, Bool-cases, Option-cases, Option, none, some,
  List, [], ◌∷◌, String, ◌==◌,
}
use scientific_protocol.Lease.{RunStatus, Candidate}
use scientific_protocol.Work.Policy.{ReviewConsensusPolicy}
use scientific_protocol.Table.{Table, get, update, get-update, count-update-le}
use scientific_protocol.Review.{
  ReviewTask, ReviewRun, ReviewStore, policy_of, task_is_open, touch_task, end_run, running_of,
  submitted, running, fail_review_task_run, may_beat,
}
use scientific_protocol.Review.Leases.{
  beat_run, heartbeat_review_task_run, time_out, expire_all, expire_stale_review_task_runs,
}
use scientific_protocol.Review.Consensus.{Counter}

-- What the consensus reads of a task.
abbrev pub Frame : Type 0
Frame = ReviewConsensusPolicy × Bool

abbrev pub frame : Option ReviewTask → Option Frame
frame none = none
frame (some task) = some (policy_of task, task_is_open task)

abbrev pub counter : Option Frame → (submitted running : ℕ) → Option Counter
counter none a b = none
counter (some (policy, is_open)) a b =
    some (record { policy = policy; is_open = is_open; submitted = a; running = b })

-- The abstract view of a task.
abbrev pub view : ReviewStore → ℕ → Option Counter
view s k = counter (frame (get k s.tasks)) (submitted s k) (running s k)

-- An update that keeps policy and status keeps every frame.
pub frame-update :
    (k j : ℕ) (f : ReviewTask → ReviewTask) (rows : Table ReviewTask)
    → ((t : ReviewTask) → frame (some (f t)) ≡ frame (some t))
    → frame (get k (update j f rows)) ≡ frame (get k rows)
frame-update k j f rows h = elim (Option-cases (get k rows)) [
  | inl e ↦ rw (get-update k j f rows, e) (ground arith)
  | inr (t, e) ↦ elim (Bool-cases (j == k)) [
    | inl q ↦ rw (get-update k j f rows, e, q) (h t)
    | inr q ↦ rw (get-update k j f rows, e, q) refl
  ]
]

-- No task changes its frame or its submissions, and no task gets a running run.
pub record Shrinks (s s' : ReviewStore) : Type 0 where
  pub frames : (k : ℕ) → frame (get k s'.tasks) ≡ frame (get k s.tasks)
  pub submissions : (k : ℕ) → submitted s' k ≡ submitted s k
  pub runs : (k : ℕ) → running s' k ≤ running s k
  pub next : s'.next_task ≡ s.next_task

pub Shrinks-refl : (s : ReviewStore) → Shrinks s s
Shrinks-refl s = record {
  frames = λ k. refl;
  submissions = λ k. refl;
  runs = λ k. omega arith;
  next = refl;
}

pub Shrinks-trans : {s t u : ReviewStore} → Shrinks s t → Shrinks t u → Shrinks s u
Shrinks-trans a b = record {
  frames = λ k. b.frames k ∙ a.frames k;
  submissions = λ k. b.submissions k ∙ a.submissions k;
  runs = λ k. omega (arith, a.runs k, b.runs k);
  next = b.next ∙ a.next;
}

-- One run is updated, without being made a running one of a task, and one task gets a time stamp.
pub touched-Shrinks :
    (now r j : ℕ) (f : ReviewRun → ReviewRun) (s : ReviewStore)
    → ((k : ℕ) (run : ReviewRun) → running_of k (f run) ≡ true → running_of k run ≡ true)
    → Shrinks s (record s { runs = update r f s.runs; tasks = update j (touch_task now) s.tasks })
touched-Shrinks now r j f s h = record {
  frames = λ k. frame-update k j (touch_task now) s.tasks (λ t. refl);
  submissions = λ k. refl;
  runs = λ k. count-update-le (running_of k) r f s.runs (h k);
  next = refl;
}

ended_not_running :
    (reason : Option String) (now k : ℕ) (run : ReviewRun)
    → running_of k (end_run RunStatus.failed reason now run) ≡ true
    → running_of k run ≡ true
ended_not_running reason now k run h = ground (arith, h)

pub fail-Shrinks :
    (now : ℕ) (reason : String) (r k : ℕ) (s : ReviewStore)
    → Shrinks s (fail_review_task_run now reason r k s).1
unfolding fail_review_task_run
fail-Shrinks now reason r k s =
    touched-Shrinks now r k (end_run RunStatus.failed (some reason) now) s
      (ended_not_running (some reason) now)

pub heartbeat-Shrinks :
    (now : ℕ) (agent : Option String) (r k : ℕ) (worker : Option String) (s : ReviewStore)
    → Shrinks s (heartbeat_review_task_run now agent r k worker s).1
unfolding heartbeat_review_task_run
heartbeat-Shrinks now agent r k worker s = elim (Bool-cases (may_beat s agent r k worker)) [
  | inl e ↦
      rw (heartbeat_review_task_run, e) (touched-Shrinks now r k (beat_run now) s (λ j run h. h))
  | inr e ↦ rw (heartbeat_review_task_run, e) (Shrinks-refl s)
]

expire_all-Shrinks :
    (now : ℕ) (cs : List Candidate) (s : ReviewStore) → Shrinks s (expire_all now cs s).1
unfolding expire_all
expire_all-Shrinks now [] s = Shrinks-refl s
expire_all-Shrinks now (c ∷ cs) s =
    Shrinks-trans
      (touched-Shrinks now c.run_id c.item_id
        (end_run RunStatus.failed (some "heartbeat_timeout") now) s
        (ended_not_running (some "heartbeat_timeout") now))
      (expire_all-Shrinks now cs (time_out now c s))

pub expire-Shrinks :
    (now : ℕ) (locked : ℕ → Bool) (limit : Option ℕ) (ms : ℕ) (s : ReviewStore)
    → Shrinks s (expire_stale_review_task_runs now locked limit ms s).1
unfolding expire_stale_review_task_runs
expire-Shrinks now locked limit ms s = expire_all-Shrinks now _ s
