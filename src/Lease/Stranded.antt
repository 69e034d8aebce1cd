-- ===== src/Lease/Stranded.antt =====
-- A run that goes on leasing an item which is neither open nor assigned, and which statements leave it so.
use scientific_protocol.Common.{
  ℕ, ◌<◌, ◌≡◌, ◌≢◌, Bool, true, false, inl, inr, arith, Bool-cases, Option-cases, All, List, refl,
  ◌∙◌, ◌∷◌, [],
}
use scientific_protocol.Lease.{
  ItemStatus, RunStatus, is_open, is_assigned, is_running, Columns, Store, Candidate, leases,
  item_is, insert_item, claim, finish, may_renew, renew, is_stale, stale_candidates, candidate,
  expire_all,
}
use scientific_protocol.Lease.Invariant.{leases-claimed, leases-finish, leases-touch, item_is-touch}
use scientific_protocol.Lease.Expiry.{All-stale_candidates, runs-expire_all, items-expire_all}
use scientific_protocol.Lease.Sparing.{is_stale-of_unassigned, stale_candidates-ne_run}

-- Has the item left the queue?
abbrev pub is_done : ItemStatus → Bool
is_done ItemStatus.completed = true
is_done ItemStatus.failed = true
is_done _ = false

done_not_open : (i : ItemStatus) → is_done i ≡ true → is_open i ≡ false
done_not_open i h = ground arith

done_not_assigned : (i : ItemStatus) → is_done i ≡ true → is_assigned i ≡ false
done_not_assigned i h = ground arith

module _ {Item Run : Type 0} (columns : Columns Item Run) where
  open columns use {item_status, run_status, run_item, run_beat}

  -- The run `x` leases the item `k`, which has left the queue, and both keys are in use.
  pub record IsStranded (x k : ℕ) (s : Store Item Run) : Type 0 where
    pub runs_on : leases columns s x k ≡ true
    pub done : item_is columns is_done s k ≡ true
    pub old_run : x < s.next_run
    pub old_item : k < s.next_item

  done-not_open :
      (s : Store Item Run) (k : ℕ)
      → item_is columns is_done s k ≡ true
      → item_is columns is_open s k ≡ false
  done-not_open s k h = elim (Option-cases (s.items k)) [
    | inl e ↦ ground arith
    | inr (item, e) ↦ ground (arith, done_not_open (item_status item))
  ]

  pub done-not_assigned :
      (s : Store Item Run) (k : ℕ)
      → item_is columns is_done s k ≡ true
      → item_is columns is_assigned s k ≡ false
  done-not_assigned s k h = elim (Option-cases (s.items k)) [
    | inl e ↦ ground arith
    | inr (item, e) ↦ ground (arith, done_not_assigned (item_status item))
  ]

  module _ {x k : ℕ} {s : Store Item Run} (v : IsStranded x k s) where
    pub insert_item-IsStranded : (item : Item) → IsStranded x k (insert_item columns item s)
    unfolding insert_item
    insert_item-IsStranded item = record {
      runs_on = v.runs_on;
      done = ground (arith, v.done, v.old_item);
      old_run = v.old_run;
      old_item = omega (arith, v.old_item);
    }

    pub claim-IsStranded :
        (j : ℕ) (assign : Item → Item) (run : Run)
        → run_status run ≡ RunStatus.running
        → run_item run ≡ j
        → IsStranded x k (claim columns j assign run s).1
    unfolding claim
    claim-IsStranded j assign run p q = elim (Bool-cases (item_is columns is_open s j)) [
      | inr e ↦ rw e v
      | inl e ↦ rw e (record {
        runs_on =
            ground (arith, leases-claimed columns s j assign run x k p q, v.runs_on, v.old_run);
        done = ground (arith, v.done, done-not_open s k v.done);
        old_run = omega (arith, v.old_run);
        old_item = v.old_item;
      })
    ]

    -- Another run ends, with any item that leaves the queue.
    pub finish-IsStranded :
        (j r : ℕ) (end_item : Item → Item) (end_run : Run → Run)
        → r ≢ x
        → ((item : Item) → is_done (item_status (end_item item)) ≡ true)
        → ((run : Run) → is_running (run_status (end_run run)) ≡ false)
        → IsStranded x k (finish columns j end_item r end_run s)
    finish-IsStranded j r end_item end_run ne a b = record {
      runs_on = ground (arith, leases-finish columns s j r end_item end_run x k b, v.runs_on);
      done = elim (Option-cases (s.items k)) [
        | inl e ↦ unfold finish in ground (arith, v.done)
        | inr (item, e) ↦ unfold finish in ground (arith, v.done, a item)
      ];
      old_run = unfold finish in v.old_run;
      old_item = unfold finish in v.old_item;
    }

    pub touch-IsStranded :
        (j r : ℕ) (touch : Item → Item) (beat : Run → Run)
        → ((item : Item) → item_status (touch item) ≡ item_status item)
        → ((run : Run) → run_status (beat run) ≡ run_status run)
        → ((run : Run) → run_item (beat run) ≡ run_item run)
        → IsStranded x k (finish columns j touch r beat s)
    touch-IsStranded j r touch beat a b c = record {
      runs_on = leases-touch columns s j r touch beat a b c x k ∙ v.runs_on;
      done = item_is-touch columns s j r touch beat a b c is_done k ∙ v.done;
      old_run = unfold finish in v.old_run;
      old_item = unfold finish in v.old_item;
    }

    pub renew-IsStranded :
        (p : Run → Bool) (j r : ℕ) (touch : Item → Item) (beat : Run → Run)
        → ((item : Item) → item_status (touch item) ≡ item_status item)
        → ((run : Run) → run_status (beat run) ≡ run_status run)
        → ((run : Run) → run_item (beat run) ≡ run_item run)
        → IsStranded x k (renew columns p j touch r beat s).1
    unfolding renew
    renew-IsStranded p j r touch beat a b c = elim (Bool-cases (may_renew columns p j r s)) [
      | inl e ↦ rw e (touch-IsStranded j r touch beat a b c)
      | inr e ↦ rw e v
    ]

  stale_assigned :
      (s : Store Item Run) (stale_before r : ℕ)
      → is_stale columns stale_before s r ≡ true
      → item_is columns is_assigned s (candidate columns s r).item_id ≡ true
  unfolding is_stale
  stale_assigned s stale_before r h = elim (Option-cases (s.runs r)) [
    | inl e ↦ ground arith
    | inr (run, e) ↦ ground arith
  ]

  -- The reaper picks no run of an item that is not assigned.
  stale_candidates-ne_unassigned :
      (locked : ℕ → Bool) (stale_before limit : ℕ) (s : Store Item Run) (k : ℕ)
      → item_is columns is_assigned s k ≡ false
      → All (λ c. c.item_id ≢ k) (stale_candidates columns locked stale_before limit s)
  stale_candidates-ne_unassigned locked stale_before limit s k h =
      All-stale_candidates columns (λ c. c.item_id ≢ k) locked stale_before limit s
        λ r _ st e. let a = stale_assigned s stale_before r st in ground (arith, rw e at a, h)

  module _ (reopen : Item → Item) (time_out : Run → Run)
      (a : (item : Item) → item_status (reopen item) ≡ ItemStatus.opened)
      (b : (run : Run) → run_status (time_out run) ≡ RunStatus.failed) where
    nexts-expire_all :
        (cs : List Candidate) (s : Store Item Run)
        → ((expire_all columns reopen time_out cs s).next_run ≡ s.next_run)
          × ((expire_all columns reopen time_out cs s).next_item ≡ s.next_item)
    unfolding expire_all finish
    nexts-expire_all [] s = (refl, refl)
    nexts-expire_all (c ∷ cs) s =
        nexts-expire_all cs (finish columns c.item_id reopen c.run_id time_out s)

    pub expire_all-IsStranded :
        {x k : ℕ} {s : Store Item Run} (locked : ℕ → Bool) (stale_before limit : ℕ)
        → IsStranded x k s
        → IsStranded x k (
            expire_all columns reopen time_out
              (stale_candidates columns locked stale_before limit s)
              s)
    expire_all-IsStranded {x} {k} {s} locked stale_before limit v =
        let cs = stale_candidates columns locked stale_before limit s in
        let free = done-not_assigned s k v.done in
        let run_kept = runs-expire_all columns reopen time_out a b cs s x (
          stale_candidates-ne_run columns locked stale_before limit s x
            (is_stale-of_unassigned columns stale_before s x k v.runs_on free)) in
        let item_kept =
          items-expire_all columns reopen time_out a b cs s k
            (stale_candidates-ne_unassigned locked stale_before limit s k free) in
        let nexts = nexts-expire_all cs s in
        record {
          runs_on = rw run_kept v.runs_on;
          done = rw item_kept v.done;
          old_run = rw (nexts.0) v.old_run;
          old_item = rw (nexts.1) v.old_item;
        }
