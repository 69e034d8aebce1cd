-- ===== src/Lease/Expiry.antt =====
-- Which runs the reaper ends, and that ending them keeps the invariant.
use scientific_protocol.Common.{
  ℕ, ◌≡◌, refl, ◌≢◌, Bool, true, false, inl, inr, arith, List, [], ◌∷◌, Bool-cases, Option-cases,
  All, All-take, All-filter, All-mono, All-map, Some,
}
use scientific_protocol.Lease.{
  ItemStatus, RunStatus, is_open, is_assigned, is_running, Columns, Store, Candidate, leases,
  item_is, finish, keys, precedes, insert_candidate, sort_candidates, candidate, is_stale,
  stale_candidates, expire_all,
}
use scientific_protocol.Lease.Invariant.{IsValid, leases-finish, finish-IsValid}

module _ (P : Candidate → Type 0) where
  All-insert_candidate :
      (c : Candidate) (cs : List Candidate) → P c → All P cs → All P (insert_candidate c cs)
  unfolding insert_candidate
  All-insert_candidate c [] p h = (p, tt)
  All-insert_candidate c (d ∷ ds) p h = elim (Bool-cases (precedes c d)) [
    | inl e ↦ rw e (p, h)
    | inr e ↦ rw e (h.0, All-insert_candidate c ds p h.1)
  ]

  pub All-sort_candidates : (cs : List Candidate) → All P cs → All P (sort_candidates cs)
  unfolding sort_candidates
  All-sort_candidates [] h = tt
  All-sort_candidates (c ∷ cs) h =
      All-insert_candidate c (sort_candidates cs) h.0 (All-sort_candidates cs h.1)

module _ {Item Run : Type 0} (columns : Columns Item Run) where
  open columns use {item_status, run_status, run_item}

  -- The candidate's run is the only one that may lease its item, and leases no other.
  abbrev pub IsLease : Store Item Run → Candidate → Type 0
  IsLease s c =
      ((x : ℕ) → leases columns s x c.item_id ≡ true → x ≡ c.run_id)
      × ((j : ℕ) → leases columns s c.run_id j ≡ true → j ≡ c.item_id)

  -- What holds of the candidates of every stale run holds of those that are picked.
  pub All-stale_candidates :
      (P : Candidate → Type 0) (locked : ℕ → Bool) (stale_before limit : ℕ) (s : Store Item Run)
      → ((r : ℕ)
          → locked r ≡ false
          → is_stale columns stale_before s r ≡ true
          → P (candidate columns s r))
      → All P (stale_candidates columns locked stale_before limit s)
  unfolding stale_candidates
  All-stale_candidates P locked stale_before limit s h = All-take P limit _ (
      All-sort_candidates P _ (
        All-map P (candidate columns s) _ (
          All-filter (λ r. P (candidate columns s r)) _ (keys s.next_run 0)
            λ r e. h r (ground arith) (ground arith))))

  pub leases_of_stale :
      (s : Store Item Run) (stale_before r : ℕ)
      → is_stale columns stale_before s r ≡ true
      → leases columns s r (candidate columns s r).item_id ≡ true
  unfolding is_stale
  leases_of_stale s stale_before r h = elim (Option-cases (s.runs r)) [
    | inl e ↦ ground arith
    | inr (run, e) ↦ ground arith
  ]

  pub leases_unique :
      (s : Store Item Run) (r j k : ℕ)
      → leases columns s r j ≡ true
      → leases columns s r k ≡ true
      → j ≡ k
  leases_unique s r j k h h' = elim (Option-cases (s.runs r)) [
    | inl e ↦ ground arith
    | inr (run, e) ↦ ground arith
  ]

  -- A worker that ends the run by which it leases an item, and the assignment, keeps the invariant.
  pub end_lease-IsValid :
      (s : Store Item Run) (k r : ℕ) (end_item : Item → Item) (end_run : Run → Run)
      → IsValid columns s
      → leases columns s r k ≡ true
      → ((item : Item) → is_assigned (item_status (end_item item)) ≡ false)
      → ((run : Run) → is_running (run_status (end_run run)) ≡ false)
      → IsValid columns (finish columns k end_item r end_run s)
  end_lease-IsValid s k r end_item end_run v l a b =
      finish-IsValid columns s k r end_item end_run v a b (λ x e. v.exclusive x r k e l)
        (λ j e. leases_unique s r j k e l)

  pub candidate-IsLease :
      {s : Store Item Run} (stale_before r : ℕ)
      → IsValid columns s
      → is_stale columns stale_before s r ≡ true
      → IsLease s (candidate columns s r)
  candidate-IsLease {s} stale_before r v h =
      let l = leases_of_stale s stale_before r h in
      (λ x e. v.exclusive x r _ e l, λ j e. leases_unique s r j _ e l)

  module _ (reopen : Item → Item) (time_out : Run → Run)
      (a : (item : Item) → item_status (reopen item) ≡ ItemStatus.opened)
      (b : (run : Run) → run_status (time_out run) ≡ RunStatus.failed) where
    not_assigned : (item : Item) → is_assigned (item_status (reopen item)) ≡ false
    not_assigned item = rw (a item)

    not_running : (run : Run) → is_running (run_status (time_out run)) ≡ false
    not_running run = rw (b run)

    -- Ending one candidate's lease leaves the other candidates what they were.
    IsLease-finish :
        (s : Store Item Run) (c d : Candidate)
        → IsLease s d
        → IsLease (finish columns c.item_id reopen c.run_id time_out s) d
    IsLease-finish s c d h = (
      λ x e. h.0 x (
          ground (
            arith,
            leases-finish columns s c.item_id c.run_id reopen time_out x d.item_id not_running,
          )),
      λ j e. h.1 j (
          ground (
            arith,
            leases-finish columns s c.item_id c.run_id reopen time_out d.run_id j not_running,
          )),
    )

    pub expire_all-IsValid :
        (cs : List Candidate) (s : Store Item Run)
        → IsValid columns s
        → All (IsLease s) cs
        → IsValid columns (expire_all columns reopen time_out cs s)
    unfolding expire_all
    expire_all-IsValid [] s v h = v
    expire_all-IsValid (c ∷ cs) s v h =
        let s' = finish columns c.item_id reopen c.run_id time_out s in
        expire_all-IsValid cs s'
          (finish-IsValid columns s c.item_id c.run_id reopen time_out v not_assigned not_running
            h.0.0 h.0.1)
          (All-mono (IsLease s) (IsLease s') cs (IsLease-finish s c) h.1)

    -- A run that is no candidate keeps its row.
    pub runs-expire_all :
        (cs : List Candidate) (s : Store Item Run) (r : ℕ)
        → All (λ c. c.run_id ≢ r) cs
        → (expire_all columns reopen time_out cs s).runs r ≡ s.runs r
    unfolding expire_all finish
    runs-expire_all [] s r h = refl
    runs-expire_all (c ∷ cs) s r h =
        ground (
          arith,
          h.0,
          runs-expire_all cs (finish columns c.item_id reopen c.run_id time_out s) r h.1,
        )

    -- So does an item that no candidate leases.
    pub items-expire_all :
        (cs : List Candidate) (s : Store Item Run) (k : ℕ)
        → All (λ c. c.item_id ≢ k) cs
        → (expire_all columns reopen time_out cs s).items k ≡ s.items k
    unfolding expire_all finish
    items-expire_all [] s k h = refl
    items-expire_all (c ∷ cs) s k h = ground (
      arith,
      h.0,
      items-expire_all cs (finish columns c.item_id reopen c.run_id time_out s) k h.1,
    )

    -- A lease that is ended stays ended, and an item that is open stays open.
    leases-expire_all :
        (cs : List Candidate) (s : Store Item Run) (r j : ℕ)
        → leases columns s r j ≡ false
        → leases columns (expire_all columns reopen time_out cs s) r j ≡ false
    unfolding expire_all
    leases-expire_all [] s r j h = h
    leases-expire_all (c ∷ cs) s r j h =
        let s' = finish columns c.item_id reopen c.run_id time_out s in
        leases-expire_all cs s' r j (
          ground
            (arith, leases-finish columns s c.item_id c.run_id reopen time_out r j not_running))

    open-finish :
        (s : Store Item Run) (k r j : ℕ)
        → item_is columns is_open s j ≡ true
        → item_is columns is_open (finish columns k reopen r time_out s) j ≡ true
    unfolding finish
    open-finish s k r j h = elim (Option-cases (s.items j)) [
      | inl e ↦ ground arith
      | inr (item, e) ↦ ground (arith, a item)
    ]

    open-expire_all :
        (cs : List Candidate) (s : Store Item Run) (k : ℕ)
        → item_is columns is_open s k ≡ true
        → item_is columns is_open (expire_all columns reopen time_out cs s) k ≡ true
    unfolding expire_all
    open-expire_all [] s k h = h
    open-expire_all (c ∷ cs) s k h =
        open-expire_all cs (finish columns c.item_id reopen c.run_id time_out s) k
          (open-finish s c.item_id c.run_id k h)

    exists-finish :
        (s : Store Item Run) (k r j : ℕ)
        → item_is columns (λ _. true) s j ≡ true
        → item_is columns (λ _. true) (finish columns k reopen r time_out s) j ≡ true
    unfolding finish
    exists-finish s k r j h = elim (Option-cases (s.items j)) [
      | inl e ↦ ground arith
      | inr (item, e) ↦ ground arith
    ]

    opened-finish :
        (s : Store Item Run) (k r j : ℕ)
        → k ≡ j
        → item_is columns (λ _. true) s j ≡ true
        → item_is columns is_open (finish columns k reopen r time_out s) j ≡ true
    unfolding finish
    opened-finish s k r j e h = elim (Option-cases (s.items j)) [
      | inl n ↦ ground arith
      | inr (item, n) ↦ ground (arith, a item)
    ]

    -- Every run that is picked has ended.
    pub leases-expire_all_of_picked :
        (cs : List Candidate) (s : Store Item Run) (r j : ℕ)
        → Some (λ c. c.run_id ≡ r) cs
        → leases columns (expire_all columns reopen time_out cs s) r j ≡ false
    unfolding expire_all
    leases-expire_all_of_picked [] s r j h = absurd h
    leases-expire_all_of_picked (c ∷ cs) s r j (inl e) =
        let s' = finish columns c.item_id reopen c.run_id time_out s in
        leases-expire_all cs s' r j (
          ground
            (arith, leases-finish columns s c.item_id c.run_id reopen time_out r j not_running))
    leases-expire_all_of_picked (c ∷ cs) s r j (inr h) =
        leases-expire_all_of_picked cs (finish columns c.item_id reopen c.run_id time_out s) r j h

    -- Every item of a run that is picked is open.
    pub open-expire_all_of_picked :
        (cs : List Candidate) (s : Store Item Run) (k : ℕ)
        → item_is columns (λ _. true) s k ≡ true
        → Some (λ c. c.item_id ≡ k) cs
        → item_is columns is_open (expire_all columns reopen time_out cs s) k ≡ true
    unfolding expire_all
    open-expire_all_of_picked [] s k x h = absurd h
    open-expire_all_of_picked (c ∷ cs) s k x (inl e) =
        let s' = finish columns c.item_id reopen c.run_id time_out s in
        open-expire_all cs s' k (opened-finish s c.item_id c.run_id k e x)
    open-expire_all_of_picked (c ∷ cs) s k x (inr h) =
        let s' = finish columns c.item_id reopen c.run_id time_out s in
        open-expire_all_of_picked cs s' k (exists-finish s c.item_id c.run_id k x) h
