-- ===== src/Lease.antt =====
-- The lease protocol that the two queues of coordinator/store.ts share: a table of work items, a table
-- of runs, and the SQL statements on both. A table with a BIGSERIAL key is a function from keys to
-- rows with the next value of its sequence. A transaction that commits is one function on the store.
pub mod Invariant
pub mod Claims
pub mod Expiry
pub mod Sparing
pub mod Picking
pub mod Stranded
use scientific_protocol.Common.{
  ℕ, zero, suc, ◌+◌, Bool, true, false, ◌&&◌, not, Option, none, some, List, [], ◌∷◌, ltb, leb,
  ◌==◌, ◌||◌, if◌then◌else◌, filter, take, map,
}

pub data ItemStatus : Type 0 where
  assigned completed failed opened : ItemStatus

pub data RunStatus : Type 0 where
  completed failed running : RunStatus

abbrev pub is_open : ItemStatus → Bool
is_open opened = true
is_open _ = false

abbrev pub is_assigned : ItemStatus → Bool
is_assigned assigned = true
is_assigned _ = false

abbrev pub is_running : RunStatus → Bool
is_running running = true
is_running _ = false

-- What the protocol reads of a row.
pub record Columns (Item Run : Type 0) : Type 0 where
  pub item_status : Item → ItemStatus
  pub run_status : Run → RunStatus
  pub run_item : Run → ℕ
  -- COALESCE(last_heartbeat_at, started_at)
  pub run_beat : Run → ℕ

pub record Store (Item Run : Type 0) : Type 0 where
  pub items : ℕ → Option Item
  pub runs : ℕ → Option Run
  pub next_item : ℕ
  pub next_run : ℕ

abbrev pub Table : Type 0 → Type 0
Table A = ℕ → Option A

abbrev pub map_row : {A : Type 0} → (A → A) → Option A → Option A
map_row f none = none
map_row f (some a) = some (f a)

-- INSERT, at the key that the sequence gives
abbrev pub set_row : {A : Type 0} → ℕ → A → Table A → Table A
set_row k v t j = if k == j then some v else t j

-- UPDATE … WHERE the key is `k`; no row, no change
abbrev pub update_row : {A : Type 0} → ℕ → (A → A) → Table A → Table A
update_row k f t j = if k == j then map_row f (t j) else t j

-- Does a row stand at the key and pass the test?
abbrev pub row_passes : {A : Type 0} → (A → Bool) → Option A → Bool
row_passes p none = false
row_passes p (some a) = p a

-- A column of the row at a key. It is read of rows that are there.
abbrev pub column : {A : Type 0} → (A → ℕ) → Option A → ℕ
column f none = 0
column f (some a) = f a

-- ORDER BY the key ASC LIMIT 1: the least of the `n` keys from `i` on that passes.
unfoldable pub first_key : ℕ → ℕ → (ℕ → Bool) → Option ℕ
first_key zero i p = none
first_key (suc n) i p = let rest = first_key n (suc i) p in if p i then some i else rest

-- The `n` keys from `i` on.
pub keys : ℕ → ℕ → List ℕ
keys zero i = []
keys (suc n) i = i ∷ keys n (suc i)

-- A row of the SELECT that looks for stale runs.
pub record Candidate : Type 0 where
  pub run_id : ℕ
  pub item_id : ℕ
  pub beat : ℕ

-- ORDER BY COALESCE(last_heartbeat_at, started_at) ASC, run_id ASC
abbrev pub precedes : Candidate → Candidate → Bool
precedes a b = ltb a.beat b.beat || (a.beat == b.beat && leb a.run_id b.run_id)

pub insert_candidate : Candidate → List Candidate → List Candidate
insert_candidate c [] = c ∷ []
insert_candidate c (d ∷ ds) = if precedes c d then c ∷ d ∷ ds else d ∷ insert_candidate c ds

pub sort_candidates : List Candidate → List Candidate
unfolding insert_candidate
sort_candidates [] = []
sort_candidates (c ∷ cs) = insert_candidate c (sort_candidates cs)

-- `if (run && reopenedItem) expired.push(…)`
abbrev pub add_expired :
    {Item Run : Type 0} → Option Run → Option Item → List (Run × Item) → List (Run × Item)
add_expired (some run) (some item) rest = (run, item) ∷ rest
add_expired _ _ rest = rest

module _ {Item Run : Type 0} (columns : Columns Item Run) where
  open columns use {item_status, run_status, run_item, run_beat}

  -- The run `r` is running and leases the item `k`.
  abbrev pub leases : Store Item Run → ℕ → ℕ → Bool
  leases s r k = row_passes (λ run. is_running (run_status run) && run_item run == k) (s.runs r)

  abbrev pub item_is : (ItemStatus → Bool) → Store Item Run → ℕ → Bool
  item_is p s k = row_passes (λ item. p (item_status item)) (s.items k)

  unfoldable pub insert_item : Item → Store Item Run → Store Item Run
  insert_item item s = record s {
    items = set_row s.next_item item s.items;
    next_item = s.next_item + 1;
  }

  -- The UPDATE that takes an open item and the INSERT of its run.
  unfoldable pub claim : ℕ → (Item → Item) → Run → Store Item Run → Option ℕ × Store Item Run
  claim k assign run s =
      if item_is is_open s k
      then (
        some s.next_run,
        record s {
          items = update_row k assign s.items;
          runs = set_row s.next_run run s.runs;
          next_run = s.next_run + 1;
        },
      )
      else (none, s)

  -- The two UPDATEs that end a run, each by its own key.
  unfoldable pub finish : ℕ → (Item → Item) → ℕ → (Run → Run) → Store Item Run → Store Item Run
  finish k end_item r end_run s = record s {
    items = update_row k end_item s.items;
    runs = update_row r end_run s.runs;
  }

  -- The item is open and passes.
  abbrev pub is_takeable : (Item → Bool) → Store Item Run → ℕ → Bool
  is_takeable p s k = row_passes (λ item. is_open (item_status item) && p item) (s.items k)

  -- The SELECT of the next open item that passes and that no other transaction locks.
  unfoldable pub next_open : (locked : ℕ → Bool) → (Item → Bool) → Store Item Run → Option ℕ
  unfolding first_key
  next_open locked p s = first_key s.next_item 0 λ k. not (locked k) && is_takeable p s k

  -- Is the run running, its item assigned, and the row one that the caller may renew?
  pub may_renew : (Run → Bool) → ℕ → ℕ → Store Item Run → Bool
  may_renew p k r s = leases s r k && item_is is_assigned s k && row_passes p (s.runs r)

  -- The UPDATE of the heartbeat and that of the item's time stamp.
  unfoldable pub renew :
      (Run → Bool) → ℕ → (Item → Item) → ℕ → (Run → Run) → Store Item Run → Bool × Store Item Run
  unfolding may_renew finish
  renew p k touch r beat s =
      if may_renew p k r s then (true, finish k touch r beat s) else (false, s)

  -- The SELECT of the stale runs, before ORDER BY and LIMIT.
  abbrev pub candidate : Store Item Run → ℕ → Candidate
  candidate s r = record {
    run_id = r;
    item_id = column run_item (s.runs r);
    beat = column run_beat (s.runs r);
  }

  unfoldable pub is_stale : (stale_before : ℕ) → Store Item Run → ℕ → Bool
  is_stale stale_before s r =
      row_passes
        (λ run.
          is_running (run_status run)
          && item_is is_assigned s (run_item run)
          && ltb (run_beat run) stale_before)
        (s.runs r)

  -- The runs that the SELECT reads: stale, and not locked by another transaction (SKIP LOCKED).
  unfoldable pub stale_runs : (locked : ℕ → Bool) → ℕ → Store Item Run → List ℕ
  unfolding is_stale keys
  stale_runs locked stale_before s =
      filter (λ r. not (locked r) && is_stale stale_before s r) (keys s.next_run 0)

  unfoldable pub stale_candidates :
      (locked : ℕ → Bool) (stale_before limit : ℕ) → Store Item Run → List Candidate
  unfolding stale_runs sort_candidates
  stale_candidates locked stale_before limit s =
      take limit (sort_candidates (map (candidate s) (stale_runs locked stale_before s)))

  -- The loop over the candidates.
  unfoldable pub expire_all :
      (Item → Item) → (Run → Run) → List Candidate → Store Item Run → Store Item Run
  unfolding finish
  expire_all reopen time_out [] s = s
  expire_all reopen time_out (c ∷ cs) s =
      expire_all reopen time_out cs (finish c.item_id reopen c.run_id time_out s)

  -- The rows that the loop reads back, each after its own two statements.
  unfoldable pub expired_rows :
      (Item → Item) → (Run → Run) → List Candidate → Store Item Run → List (Run × Item)
  unfolding finish
  expired_rows reopen time_out [] s = []
  expired_rows reopen time_out (c ∷ cs) s =
      let s' = finish c.item_id reopen c.run_id time_out s in
      add_expired (s'.runs c.run_id) (s'.items c.item_id) (expired_rows reopen time_out cs s')
