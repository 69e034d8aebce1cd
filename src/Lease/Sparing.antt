-- ===== src/Lease/Sparing.antt =====
-- The runs and items that the reaper does not pick.
use mathlib.Core.Bool.{false≢true}
use scientific_protocol.Common.{
  sym, Bool-cases, ℕ, ◌≡◌, ◌≢◌, true, false, arith, All, inl, inr, Option-cases, ◌≤◌, some, Bool,
}
use scientific_protocol.Lease.{
  Columns, Store, leases, is_stale, stale_candidates, may_renew, renew, finish, item_is,
  is_assigned,
}
use scientific_protocol.Lease.Invariant.{IsValid}
use scientific_protocol.Lease.Expiry.{All-stale_candidates, candidate-IsLease}

module _ {Item Run : Type 0} (columns : Columns Item Run) where
  open columns use {run_status, run_item, run_beat}

  module _ (locked : ℕ → Bool) (stale_before limit : ℕ) (s : Store Item Run) (r : ℕ)
      (fresh : is_stale columns stale_before s r ≡ false) where
    pub stale_candidates-ne_run :
        All (λ c. c.run_id ≢ r) (stale_candidates columns locked stale_before limit s)
    stale_candidates-ne_run =
        All-stale_candidates columns (λ c. c.run_id ≢ r) locked stale_before limit s λ x _ st e. cc

    pub stale_candidates-ne_item :
        (k : ℕ)
        → IsValid columns s
        → leases columns s r k ≡ true
        → All (λ c. c.item_id ≢ k) (stale_candidates columns locked stale_before limit s)
    stale_candidates-ne_item k v l =
        All-stale_candidates columns (λ c. c.item_id ≢ k) locked stale_before limit s
          λ x _ st e. let own = (candidate-IsLease columns stale_before x v st).0 r (rw e l) in cc

  -- A run with a recent heartbeat is not stale.
  pub is_stale-of_recent :
      (stale_before : ℕ) (s : Store Item Run) (r : ℕ) (run : Run)
      → s.runs r ≡ some run
      → stale_before ≤ run_beat run
      → is_stale columns stale_before s r ≡ false
  unfolding is_stale
  is_stale-of_recent stale_before s r run e h = ground arith

  -- A run whose item is not assigned is not stale, whatever its age.
  pub is_stale-of_unassigned :
      (stale_before : ℕ) (s : Store Item Run) (r k : ℕ)
      → leases columns s r k ≡ true
      → item_is columns is_assigned s k ≡ false
      → is_stale columns stale_before s r ≡ false
  unfolding is_stale
  is_stale-of_unassigned stale_before s r k l h = elim (Option-cases (s.runs r)) [
    | inl e ↦ ground arith
    | inr (run, e) ↦ ground arith
  ]

  -- A run that leases an item is there.
  pub run_of_leases :
      (s : Store Item Run) (r k : ℕ)
      → leases columns s r k ≡ true
      → (run : Run) × (s.runs r ≡ some run) × (run_item run ≡ k)
  run_of_leases s r k l = elim (Option-cases (s.runs r)) [
    | inl e ↦ absurd (false≢true (rw e at l))
    | inr (run, e) ↦ (run, e, ground arith)
  ]

  -- A heartbeat that is refused changes nothing.
  pub renew_refused :
      (s : Store Item Run) (p : Run → Bool) (k r : ℕ) (touch : Item → Item) (beat : Run → Run)
      → (renew columns p k touch r beat s).0 ≡ false
      → renew columns p k touch r beat s ≡ (false, s)
  unfolding renew
  renew_refused s p k r touch beat h = elim (Bool-cases (may_renew columns p k r s)) [
    | inl e ↦ absurd (false≢true (sym (rw e at h)))
    | inr e ↦ rw e
  ]

  -- A heartbeat that is accepted is of a run that leases the item.
  pub renew_accepted :
      (s : Store Item Run) (p : Run → Bool) (k r : ℕ) (touch : Item → Item) (beat : Run → Run)
      → (renew columns p k touch r beat s).0 ≡ true
      → (leases columns s r k ≡ true)
        × (renew columns p k touch r beat s ≡ (true, finish columns k touch r beat s))
  unfolding renew
  renew_accepted s p k r touch beat h = elim (Bool-cases (may_renew columns p k r s)) [
    | inl e ↦ (unfold may_renew in ground arith, rw e)
    | inr e ↦ absurd (false≢true (rw e at h))
  ]
