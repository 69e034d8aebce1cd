-- ===== src/Review/Left.antt =====
-- A run of src/review/store.ts that is left when its task is closed, and which statements keep its row.
use scientific_protocol.Common.{
  ==_iff, ℕ, ◌+◌, arith, Bool, true, false, ◌≡◌, ◌≢◌, refl, sym, ap, ◌∙◌, inl, inr, Bool-cases,
  Option-cases, Option, none, some, List, [], ◌∷◌, String, ◌==◌, if◌then◌else◌, All,
}
use scientific_protocol.Lease.{Candidate}
use scientific_protocol.Table.{Table, get, update, get-update_ne, get-update}
use scientific_protocol.Review.{
  ReviewTask, ReviewRun, ReviewStore, task_is_open, may_beat, touch_task, add_run,
}
use scientific_protocol.Review.Leases.{is_stale, time_out, expire_all}
use scientific_protocol.Review.Submission.{settle, complete_run}
use scientific_protocol.Review.Moves.{IsKeyed}
use scientific_protocol.Review.RunKeys.{IsDescending, update-IsDescending, key_below}

-- Is the task there, and not open?
abbrev pub is_closed : Option ReviewTask → Bool
is_closed none = false
is_closed (some task) = if task_is_open task then false else true

-- The statements that keep or close a task keep the closed ones closed.
pub closed-update :
    (k j : ℕ) (f : ReviewTask → ReviewTask) (rows : Table ReviewTask)
    → ((t : ReviewTask) → is_closed (some t) ≡ true → is_closed (some (f t)) ≡ true)
    → is_closed (get k rows) ≡ true
    → is_closed (get k (update j f rows)) ≡ true
closed-update k j f rows h c = elim (Option-cases (get k rows)) [
  | inl e ↦ ground (arith, rw e at c)
  | inr (t, e) ↦ elim (Bool-cases (j == k)) [
    | inl q ↦ rw (get-update k j f rows, e, q) (h t (rw e at c))
    | inr q ↦ rw (get-update k j f rows, e, q) (rw e at c)
  ]
]

pub settle_closed :
    (now : ℕ) (key : Option String) (b : Bool) (t : ReviewTask)
    → is_closed (some t) ≡ true
    → is_closed (some (settle now key b t)) ≡ true
settle_closed now key true t h = refl
settle_closed now key false t h = h

-- The run `r` has the row `run`, whose task is closed, and no two runs share a key.
pub record IsLeft (r : ℕ) (run : ReviewRun) (s : ReviewStore) : Type 0 where
  pub there : get r s.runs ≡ some run
  pub closed : is_closed (get run.task_id s.tasks) ≡ true
  pub keys : IsDescending s.next_run s.runs

closed_not_open :
    (o : Option ReviewTask)
    → is_closed o ≡ true
    → (elim o [ none ↦ false | some task ↦ task_is_open task ]) ≡ false
closed_not_open none h = refl
closed_not_open (some t) h = ground (arith, h)

apart_keys : (a b : ℕ) → a ≢ b → (a == b) ≡ false
apart_keys a b h = ground (arith, h)

module _ {r : ℕ} {run : ReviewRun} {s : ReviewStore} (v : IsLeft r run s) where
  pub inserted-IsLeft :
      (task : ReviewTask)
      → IsKeyed s
      → IsLeft r run
          (record s { tasks = (s.next_task, task) ∷ s.tasks; next_task = s.next_task + 1 })
  inserted-IsLeft task keyed = record {
    there = v.there;
    closed = elim (Bool-cases (s.next_task == run.task_id)) [
      | inr e ↦ rw e v.closed
      | inl e ↦
          let free = keyed.fresh run.task_id (ground (arith, e)) in
          ground (arith, rw free at v.closed)
    ];
    keys = v.keys;
  }

  pub leased-IsLeft :
      (now j : ℕ) (agent_id : Option String) (worker_id : String)
      → IsLeft r run (add_run now j agent_id worker_id s)
  leased-IsLeft now j agent_id worker_id = record {
    there = elim (Bool-cases (s.next_run == r)) [
      | inr e ↦ rw e v.there
      | inl e ↦ ground (arith, key_below s.next_run r s.runs v.keys v.there, e)
    ];
    closed = closed-update run.task_id j (touch_task now) s.tasks (λ t h. h) v.closed;
    keys = (omega arith, v.keys);
  }

  pub updated-IsLeft :
      (now x j : ℕ) (f : ReviewRun → ReviewRun)
      → x ≢ r
      → IsLeft r run
          (record s { runs = update x f s.runs; tasks = update j (touch_task now) s.tasks })
  updated-IsLeft now x j f ne = record {
    there = get-update_ne r x f s.runs (apart_keys x r ne) ∙ v.there;
    closed = closed-update run.task_id j (touch_task now) s.tasks (λ t h. h) v.closed;
    keys = update-IsDescending s.next_run x f s.runs v.keys;
  }

  pub beat_refused :
      (agent : Option String) (k : ℕ) (worker : Option String) → may_beat s agent r k worker ≡ false
  beat_refused agent k worker = elim (Bool-cases (run.task_id == k)) [
    | inr e ↦ rw (may_beat, v.there, e) refl
    | inl e ↦ rw (may_beat, v.there) (ground (arith, closed_here e))
  ]
    where
      closed_here :
          (run.task_id == k) ≡ true
          → (elim (get k s.tasks) [ none ↦ false | some task ↦ task_is_open task ]) ≡ false
      closed_here e =
          closed_not_open (get k s.tasks)
            (ap (λ n. is_closed (get n s.tasks)) (sym ((==_iff run.task_id k).0 e)) ∙ v.closed)

  pub fresh_run : (stale_before : ℕ) → is_stale s.tasks stale_before run ≡ false
  fresh_run stale_before = ground (arith, closed_not_open (get run.task_id s.tasks) v.closed)

pub expired-runs :
    (now : ℕ) (r : ℕ) (cs : List Candidate) (s : ReviewStore)
    → All (λ c. c.run_id ≢ r) cs
    → get r (expire_all now cs s).1.runs ≡ get r s.runs
unfolding expire_all
expired-runs now r [] s h = refl
expired-runs now r (c ∷ cs) s h =
    expired-runs now r cs (time_out now c s) h.1
    ∙ get-update_ne r c.run_id _ s.runs (apart_keys c.run_id r h.0)

pub expired_closed :
    (now k : ℕ) (cs : List Candidate) (s : ReviewStore)
    → is_closed (get k s.tasks) ≡ true
    → is_closed (get k (expire_all now cs s).1.tasks) ≡ true
unfolding expire_all
expired_closed now k [] s h = h
expired_closed now k (c ∷ cs) s h =
    expired_closed now k cs (time_out now c s)
      (closed-update k c.item_id (touch_task now) s.tasks (λ t x. x) h)

pub completed-runs :
    (now : ℕ) (r : ℕ) (run_id : Option ℕ) (x : ℕ) (runs : Table ReviewRun)
    → run_id ≡ some x
    → x ≢ r
    → get r (complete_run now run_id runs) ≡ get r runs
completed-runs now r none x runs e ne = refl
completed-runs now r (some y) x runs e ne =
    get-update_ne r y _ runs (apart_keys y r (ground (arith, e, ne)))
