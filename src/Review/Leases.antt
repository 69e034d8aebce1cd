-- ===== src/Review/Leases.antt =====
-- The heartbeat and the reaper of the review runs, in src/review/store.ts.
use scientific_protocol.Common.{
  ℕ, ◌-◌, max, min, Bool, false, ◌&&◌, not, Option, none, some, List, [], ◌∷◌, take, String,
  or_else, ltb, if◌then◌else◌,
}
use scientific_protocol.Lease.{RunStatus, Candidate, sort_candidates}
use scientific_protocol.Table.{Table, get, update}
use scientific_protocol.Review.{
  ReviewTask, ReviewRun, ReviewStore, task_is_open, run_is_running, touch_task, end_run, may_beat,
}

abbrev pub beat_run : ℕ → ReviewRun → ReviewRun
beat_run now run = record run { last_heartbeat_at = some now }

unfoldable pub heartbeat_review_task_run :
    ℕ
    → (agent_id : Option String) (run_id task_id : ℕ) (worker_id : Option String) → ReviewStore
    → Option ReviewRun × ReviewStore
heartbeat_review_task_run now agent_id run_id task_id worker_id s =
    if may_beat s agent_id run_id task_id worker_id
    then (let s' = record s {
      runs = update run_id (beat_run now) s.runs;
      tasks = update task_id (touch_task now) s.tasks;
    } in
        (get run_id s'.runs, s'))
    else (none, s)

-- `ExpiredReviewTaskRunView`
pub record ExpiredRun : Type 0 where
  pub claim_id : Option String
  pub run : ReviewRun
  pub source_id : Option String
  pub task_id : ℕ
  pub timed_out_at : ℕ

abbrev pub beat_of : ReviewRun → ℕ
beat_of run = or_else run.last_heartbeat_at run.started_at

-- The WHERE of the SELECT: the run is running, its task open, and its last sign before the limit.
abbrev pub is_stale : Table ReviewTask → ℕ → ReviewRun → Bool
is_stale tasks stale_before run =
    run_is_running run
    && elim (get run.task_id tasks) [ none ↦ false | some task ↦ task_is_open task ]
    && ltb (beat_of run) stale_before

-- The rows that pass and that no other transaction locks.
abbrev pub stale_rows : (ℕ → Bool) → ℕ → Table ReviewTask → Table ReviewRun → List Candidate
stale_rows locked stale_before tasks [] = []
stale_rows locked stale_before tasks ((run_id, run) ∷ rows) =
    let rest = stale_rows locked stale_before tasks rows in
    if not (locked run_id) && is_stale tasks stale_before run
    then record { run_id = run_id; item_id = run.task_id; beat = beat_of run } ∷ rest
    else rest

unfoldable pub stale_candidates :
    (ℕ → Bool) → (stale_before limit : ℕ) → ReviewStore → List Candidate
stale_candidates locked stale_before limit s =
    take limit (sort_candidates (stale_rows locked stale_before s.tasks s.runs))

-- The statements of one round of the loop.
abbrev pub time_out : ℕ → Candidate → ReviewStore → ReviewStore
time_out now c s = record s {
  runs = update c.run_id (end_run RunStatus.failed (some "heartbeat_timeout") now) s.runs;
  tasks = update c.item_id (touch_task now) s.tasks;
}

abbrev pub claim_of : ReviewStore → ℕ → Option String
claim_of s task_id = elim (get task_id s.tasks) [ none ↦ none | some task ↦ task.claim_id ]

abbrev pub source_of : ReviewStore → ℕ → Option String
source_of s task_id = elim (get task_id s.tasks) [ none ↦ none | some task ↦ task.source_id ]

abbrev pub add_expired :
    Option ReviewRun → (ReviewRun → ExpiredRun) → List ExpiredRun → List ExpiredRun
add_expired none view rest = rest
add_expired (some run) view rest = view run ∷ rest

unfoldable pub expire_all : ℕ → List Candidate → ReviewStore → List ExpiredRun × ReviewStore
expire_all now [] s = ([], s)
expire_all now (c ∷ cs) s =
    let s' = time_out now c s in
    let (rest, last) = expire_all now cs s' in
    (
      add_expired (get c.run_id s'.runs)
          (λ run. record {
            claim_id = claim_of s c.item_id;
            run = run;
            source_id = source_of s c.item_id;
            task_id = c.item_id;
            timed_out_at = now;
          })
          rest,
      last,
    )

-- `Math.max(1, Math.min(input.limit ?? 50, 200))`
abbrev pub reap_limit : Option ℕ → ℕ
reap_limit limit = max 1 (min (or_else limit 50) 200)

-- `locked` are the runs whose row, or whose task's row, another transaction holds.
unfoldable pub expire_stale_review_task_runs :
    (now : ℕ) (locked : ℕ → Bool) (limit : Option ℕ) (stale_after_ms : ℕ)
    → ReviewStore
    → List ExpiredRun × ReviewStore
expire_stale_review_task_runs now locked limit stale_after_ms s =
    expire_all now (stale_candidates locked (now - stale_after_ms) (reap_limit limit) s) s
