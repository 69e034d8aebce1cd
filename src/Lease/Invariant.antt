-- ===== src/Lease/Invariant.antt =====
-- The invariant of the lease protocol, and that each of its statements keeps it.
use scientific_protocol.Common.{
  ℕ, ◌+◌, ◌≤◌, ◌≡◌, Bool, true, false, none, inl, inr, arith, ◌==◌, if◌then◌else◌, Bool-cases,
  Option-cases,
}
use scientific_protocol.Lease.{
  ItemStatus, RunStatus, is_open, is_assigned, is_running, Columns, Store, set_row, update_row,
  leases, item_is, insert_item, claim, finish,
}

module _ {Item Run : Type 0} (columns : Columns Item Run) where
  open columns use {item_status, run_status, run_item}

  -- A running run belongs to an assigned item, no item has two of them, an assigned item has one,
  -- and the sequences are ahead of the keys in use.
  pub record IsValid (s : Store Item Run) : Type 0 where
    pub held : (r k : ℕ) → leases columns s r k ≡ true → item_is columns is_assigned s k ≡ true
    pub exclusive :
        (r r' k : ℕ) → leases columns s r k ≡ true → leases columns s r' k ≡ true → r ≡ r'
    pub leased :
        (k : ℕ) → item_is columns is_assigned s k ≡ true → (r : ℕ) × (leases columns s r k ≡ true)
    pub fresh_item : (k : ℕ) → s.next_item ≤ k → s.items k ≡ none
    pub fresh_run : (r : ℕ) → s.next_run ≤ r → s.runs r ≡ none

  -- An open item has no running run.
  pub leases-eq-false_of_open :
      {s : Store Item Run}
      → IsValid s
      → (r k : ℕ) → item_is columns is_open s k ≡ true
      → leases columns s r k ≡ false
  leases-eq-false_of_open {s} v r k o = elim (Bool-cases (leases columns s r k)) [
    | inl e ↦ ground (arith, v.held r k e)
    | inr e ↦ e
  ]

  pub insert_item-IsValid :
      {s : Store Item Run} (item : Item)
      → IsValid s
      → item_status item ≡ ItemStatus.opened
      → IsValid (insert_item columns item s)
  unfolding insert_item
  insert_item-IsValid {s} item v o = record {
    held = λ r k h. ground (arith, v.held r k h, v.fresh_item k);
    exclusive = v.exclusive;
    leased = λ k h. v.leased k (ground (arith, v.fresh_item k));
    fresh_item = λ k h. ground (arith, v.fresh_item k);
    fresh_run = v.fresh_run;
  }

  module _ (s : Store Item Run) (k : ℕ) (assign : Item → Item) (run : Run) where
    -- The store after a claim that succeeds.
    abbrev pub claimed : Store Item Run
    claimed = record s {
      items = update_row k assign s.items;
      runs = set_row s.next_run run s.runs;
      next_run = s.next_run + 1;
    }

    pub leases-claimed :
        (r j : ℕ)
        → run_status run ≡ RunStatus.running
        → run_item run ≡ k
        → leases columns claimed r j ≡ (if s.next_run == r then k == j else leases columns s r j)
    leases-claimed r j p q = elim (Bool-cases (s.next_run == r)) [
      | inl e ↦ rw e (rw (p, q))
      | inr e ↦ rw e
    ]

    item_is-claimed :
        (j : ℕ)
        → ((item : Item) → item_status (assign item) ≡ ItemStatus.assigned)
        → item_is columns is_open s k ≡ true
        → item_is columns is_assigned claimed j
          ≡ (if k == j then true else item_is columns is_assigned s j)
    item_is-claimed j a o = elim (Option-cases (s.items j)) [
      | inl e ↦ ground arith
      | inr (item, e) ↦ ground (arith, a item)
    ]

  pub claim-IsValid :
      {s : Store Item Run} (k : ℕ) (assign : Item → Item) (run : Run)
      → IsValid s
      → ((item : Item) → item_status (assign item) ≡ ItemStatus.assigned)
      → run_status run ≡ RunStatus.running
      → run_item run ≡ k
      → IsValid (claim columns k assign run s).1
  unfolding claim
  claim-IsValid {s} k assign run v a p q = elim (Bool-cases (item_is columns is_open s k)) [
    | inr e ↦ rw e v
    | inl e ↦ rw e (record {
      held = λ r j h. ground (
        arith,
        v.held r j,
        leases-claimed s k assign run r j p q,
        item_is-claimed s k assign run j a e,
      );
      exclusive = λ r r' j h h'. ground (
        arith,
        v.exclusive r r' j,
        leases-claimed s k assign run r j p q,
        leases-claimed s k assign run r' j p q,
        leases-eq-false_of_open v r k e,
        leases-eq-false_of_open v r' k e,
      );
      leased = λ j h. elim (Bool-cases (k == j)) [
        | inl same ↦ (s.next_run, ground (arith, leases-claimed s k assign run s.next_run j p q))
        | inr other ↦
            let (r, l) = v.leased j (ground (arith, item_is-claimed s k assign run j a e)) in
            (r, ground (arith, leases-claimed s k assign run r j p q, v.fresh_run r))
      ];
      fresh_item = λ j h. ground (arith, v.fresh_item j h);
      fresh_run = λ r h. ground (arith, v.fresh_run r);
    })
  ]

  -- The item of a running run after `finish`, and the runs that still lease.
  module _ (s : Store Item Run) (k r : ℕ) (end_item : Item → Item) (end_run : Run → Run) where
    pub leases-finish :
        (x j : ℕ)
        → ((run : Run) → is_running (run_status (end_run run)) ≡ false)
        → leases columns (finish columns k end_item r end_run s) x j
          ≡ (if r == x then false else leases columns s x j)
    unfolding finish
    leases-finish x j a = elim (Option-cases (s.runs x)) [
      | inl e ↦ ground arith
      | inr (run, e) ↦ ground (arith, a run)
    ]

    pub assigned-finish :
        (j : ℕ)
        → ((item : Item) → is_assigned (item_status (end_item item)) ≡ false)
        → item_is columns is_assigned (finish columns k end_item r end_run s) j
          ≡ (if k == j then false else item_is columns is_assigned s j)
    unfolding finish
    assigned-finish j a = elim (Option-cases (s.items j)) [
      | inl e ↦ ground arith
      | inr (item, e) ↦ ground (arith, a item)
    ]

    -- Ending the run that leases an item, and with it the assignment, keeps the invariant. So does
    -- ending any run, when no other run leases the item.
    pub finish-IsValid :
        IsValid s
        → ((item : Item) → is_assigned (item_status (end_item item)) ≡ false)
        → ((run : Run) → is_running (run_status (end_run run)) ≡ false)
        → ((x : ℕ) → leases columns s x k ≡ true → x ≡ r)
        → ((j : ℕ) → leases columns s r j ≡ true → j ≡ k)
        → IsValid (finish columns k end_item r end_run s)
    finish-IsValid v a b sole own = record {
      held = λ x j h. ground (arith, leases-finish x j b, assigned-finish j a, sole x, v.held x j);
      exclusive =
          λ x y j h h'. ground (arith, leases-finish x j b, leases-finish y j b, v.exclusive x y j);
      leased = λ j h.
          let (x, l) = v.leased j (ground (arith, assigned-finish j a)) in
          (x, ground (arith, leases-finish x j b, assigned-finish j a, own j));
      fresh_item = λ j h. unfold finish in ground (arith, v.fresh_item j h);
      fresh_run = λ x h. unfold finish in ground (arith, v.fresh_run x h);
    }

    module _ (a : (item : Item) → item_status (end_item item) ≡ item_status item)
        (b : (run : Run) → run_status (end_run run) ≡ run_status run)
        (c : (run : Run) → run_item (end_run run) ≡ run_item run) where
      pub leases-touch :
          (x j : ℕ)
          → leases columns (finish columns k end_item r end_run s) x j ≡ leases columns s x j
      unfolding finish
      leases-touch x j = elim (Option-cases (s.runs x)) [
        | inl e ↦ ground arith
        | inr (run, e) ↦ ground (arith, b run, c run)
      ]

      pub item_is-touch :
          (p : ItemStatus → Bool) (j : ℕ)
          → item_is columns p (finish columns k end_item r end_run s) j ≡ item_is columns p s j
      unfolding finish
      item_is-touch p j = elim (Option-cases (s.items j)) [
        | inl e ↦ ground arith
        | inr (item, e) ↦ ground (arith, a item)
      ]

      -- A statement that changes neither a status nor the item of a run keeps the invariant.
      pub touch-IsValid : IsValid s → IsValid (finish columns k end_item r end_run s)
      touch-IsValid v = record {
        held = λ x j h. ground (arith, leases-touch x j, item_is-touch is_assigned j, v.held x j);
        exclusive =
            λ x y j h h'. ground (arith, leases-touch x j, leases-touch y j, v.exclusive x y j);
        leased = λ j h.
            let (x, l) = v.leased j (ground (arith, item_is-touch is_assigned j)) in
            (x, ground (arith, leases-touch x j));
        fresh_item = λ j h. unfold finish in ground (arith, v.fresh_item j h);
        fresh_run = λ x h. unfold finish in ground (arith, v.fresh_run x h);
      }
