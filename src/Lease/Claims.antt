-- ===== src/Lease/Claims.antt =====
-- Claims, the choice of the next item, and heartbeats.
use scientific_protocol.Common.{
  ℕ, zero, suc, ◌+◌, ◌≤◌, ◌<◌, ◌≡◌, Bool, true, false, none, some, inl, inr, arith, ◌==◌,
  Bool-cases, ltb,
}
use scientific_protocol.Lease.{
  RunStatus, is_open, Columns, Store, first_key, leases, item_is, claim, next_open, is_takeable,
  may_renew, renew,
}
use scientific_protocol.Lease.Invariant.{
  IsValid, claimed, leases-claimed, leases-eq-false_of_open, touch-IsValid,
}

pub first_key-eq-some :
    (n i : ℕ) (p : ℕ → Bool) {k : ℕ}
    → first_key n i p ≡ some k
    → (p k ≡ true) × (k < i + n) × ((j : ℕ) → i ≤ j → j < k → p j ≡ false)
unfolding first_key
first_key-eq-some zero i p e = cc
first_key-eq-some (suc n) i p {k} e = elim (Bool-cases (p i)) [
  | inl t ↦ (ground arith, ground arith, λ j h l. ground arith)
  | inr f ↦
      let ih = first_key-eq-some n (suc i) p {k = k} (ground arith) in
      (
        ih.0,
        omega (arith, ih.1),
        λ j h l. elim (Bool-cases (i == j)) [
          | inl same ↦ ground arith
          | inr other ↦ ih.2 j (ground arith) l
        ],
      )
]

pub first_key-eq-none :
    (n i : ℕ) (p : ℕ → Bool) → first_key n i p ≡ none → (j : ℕ) → i ≤ j → j < i + n → p j ≡ false
unfolding first_key
first_key-eq-none zero i p e j h l = absurd (omega arith)
first_key-eq-none (suc n) i p e j h l = elim (Bool-cases (p i)) [
  | inl t ↦ ground arith
  | inr f ↦ elim (Bool-cases (i == j)) [
    | inl same ↦ ground arith
    | inr other ↦ first_key-eq-none n (suc i) p (ground arith) j (ground arith) (omega arith)
  ]
]

module _ {Item Run : Type 0} (columns : Columns Item Run) where
  open columns use {item_status, run_status, run_item, run_beat}

  module _ (s : Store Item Run) (k : ℕ) (assign : Item → Item) (run : Run) where
    pub claim-of_open :
        item_is columns is_open s k ≡ true
        → claim columns k assign run s ≡ (some s.next_run, claimed columns s k assign run)
    unfolding claim
    claim-of_open e = rw e

    pub claim-of_not_open :
        item_is columns is_open s k ≡ false → claim columns k assign run s ≡ (none, s)
    unfolding claim
    claim-of_not_open e = rw e

    -- After a claim the new run leases the item, and no other run does.
    pub claimed-sole :
        IsValid columns s
        → item_is columns is_open s k ≡ true
        → run_status run ≡ RunStatus.running
        → run_item run ≡ k
        → (r : ℕ) → leases columns (claimed columns s k assign run) r k ≡ (s.next_run == r)
    claimed-sole v e p q r = ground (
      arith,
      leases-claimed columns s k assign run r k p q,
      leases-eq-false_of_open columns v r k e,
    )

  pub renew-IsValid :
      {s : Store Item Run} (p : Run → Bool) (k r : ℕ) (touch : Item → Item) (beat : Run → Run)
      → IsValid columns s
      → ((item : Item) → item_status (touch item) ≡ item_status item)
      → ((run : Run) → run_status (beat run) ≡ run_status run)
      → ((run : Run) → run_item (beat run) ≡ run_item run)
      → IsValid columns (renew columns p k touch r beat s).1
  unfolding renew
  renew-IsValid {s} p k r touch beat v a b c = elim (Bool-cases (may_renew columns p k r s)) [
    | inl e ↦ rw e (touch-IsValid columns s k r touch beat a b c v)
    | inr e ↦ rw e v
  ]

  module _ (locked : ℕ → Bool) (p : Item → Bool) (s : Store Item Run) where
    pub next_open-eq-some :
        (k : ℕ)
        → next_open columns locked p s ≡ some k
        → (locked k ≡ false)
          × (is_takeable columns p s k ≡ true)
          × ((j : ℕ) → j < k → locked j ≡ false → is_takeable columns p s j ≡ false)
    unfolding next_open
    next_open-eq-some k e =
        let found = first_key-eq-some s.next_item 0 _ {k = k} e in
        (
          ground (arith, found.0),
          ground (arith, found.0),
          λ j l free. ground (arith, found.2 j (omega arith) l),
        )

    pub next_open-eq-none :
        IsValid columns s
        → next_open columns locked p s ≡ none
        → (j : ℕ) → locked j ≡ false
        → is_takeable columns p s j ≡ false
    unfolding next_open
    next_open-eq-none v e j free = elim (Bool-cases (ltb j s.next_item)) [
      | inl below ↦
          ground (arith, first_key-eq-none s.next_item 0 _ e j (omega arith) (ground arith))
      | inr above ↦ rw (v.fresh_item j (ground arith))
    ]
