-- ===== src/Review/RunKeys.antt =====
-- The keys of the run rows of src/review/store.ts: each claim takes the next one, so that no two rows share a key.
use scientific_protocol.Common.{
  ℕ, ◌<◌, arith, Bool, true, false, ◌≡◌, ◌≢◌, inl, inr, Bool-cases, Option, none, some, List, [],
  ◌∷◌, ◌==◌, All, All-mono, All-take, not, ◌&&◌,
}
use scientific_protocol.Lease.{Candidate}
use scientific_protocol.Lease.Expiry.{All-sort_candidates}
use scientific_protocol.Table.{Table, get, update}
use scientific_protocol.Review.{ReviewTask, ReviewRun, ReviewStore}
use scientific_protocol.Review.Leases.{is_stale, stale_rows, stale_candidates, time_out, expire_all}
use scientific_protocol.Review.Submission.{complete_run}

-- The keys come down from below `n`.
abbrev pub IsDescending : {A : Type 0} → ℕ → Table A → Type 0
IsDescending n [] = Unit {0}
IsDescending n ((j, a) ∷ rows) = (j < n) × IsDescending j rows

module _ {A : Type 0} where
  pub update-IsDescending :
      (n k : ℕ) (f : A → A) (rows : Table A)
      → IsDescending n rows
      → IsDescending n (update k f rows)
  update-IsDescending n k f [] h = tt
  update-IsDescending n k f ((j, a) ∷ rows) h = (h.0, update-IsDescending j k f rows h.1)

  pub key_below :
      (n k : ℕ) (rows : Table A) {a : A} → IsDescending n rows → get k rows ≡ some a → k < n
  key_below n k [] h e = ground (arith, e)
  key_below n k ((j, b) ∷ rows) h e = elim (Bool-cases (j == k)) [
    | inl q ↦ ground (arith, q, h.0)
    | inr q ↦ omega (arith, key_below j k rows h.1 (rw q at e), h.0)
  ]

pub completed-IsDescending :
    (n now : ℕ) (run_id : Option ℕ) (runs : Table ReviewRun)
    → IsDescending n runs
    → IsDescending n (complete_run now run_id runs)
completed-IsDescending n now none runs h = h
completed-IsDescending n now (some r) runs h = update-IsDescending n r _ runs h

module _ (locked : ℕ → Bool) (stale_before : ℕ) (tasks : Table ReviewTask) where
  stale_rows_below :
      (n : ℕ) (rows : Table ReviewRun)
      → IsDescending n rows
      → All (λ c. c.run_id < n) (stale_rows locked stale_before tasks rows)
  stale_rows_below n [] h = tt
  stale_rows_below n ((j, run) ∷ rows) h =
      let rest =
        All-mono (λ c. c.run_id < j) (λ c. c.run_id < n) (stale_rows locked stale_before tasks rows)
          (λ c l. omega (arith, l, h.0)) (stale_rows_below j rows h.1) in
      elim (Bool-cases (not (locked j) && is_stale tasks stale_before run)) [
        | inl e ↦ rw e (h.0, rest)
        | inr e ↦ rw e rest
      ]

  -- A run that is not stale is no candidate.
  stale_rows-ne :
      (n r : ℕ) (run : ReviewRun) (rows : Table ReviewRun)
      → IsDescending n rows
      → get r rows ≡ some run
      → is_stale tasks stale_before run ≡ false
      → All (λ c. c.run_id ≢ r) (stale_rows locked stale_before tasks rows)
  stale_rows-ne n r run [] h e f = tt
  stale_rows-ne n r run ((j, other) ∷ rows) h e f = elim (Bool-cases (j == r)) [
    | inl q ↦ rw (fresh_head q) (
        All-mono (λ c. c.run_id < j) (λ c. c.run_id ≢ r) (stale_rows locked stale_before tasks rows)
          (λ c l. ground (arith, l, q)) (stale_rows_below j rows h.1))
    | inr q ↦
        let rest = stale_rows-ne j r run rows h.1 (rw q at e) f in
        elim (Bool-cases (not (locked j) && is_stale tasks stale_before other)) [
          | inl s ↦ rw s (ground (arith, q), rest)
          | inr s ↦ rw s rest
        ]
  ]
    where
      fresh_head : (j == r) ≡ true → (not (locked j) && is_stale tasks stale_before other) ≡ false
      fresh_head q = ground (arith, f, e, q)

pub stale_candidates-ne :
    (locked : ℕ → Bool) (stale_before limit : ℕ) (s : ReviewStore) (r : ℕ) (run : ReviewRun)
    → IsDescending s.next_run s.runs
    → get r s.runs ≡ some run
    → is_stale s.tasks stale_before run ≡ false
    → All (λ c. c.run_id ≢ r) (stale_candidates locked stale_before limit s)
unfolding stale_candidates
stale_candidates-ne locked stale_before limit s r run h e f =
    All-take (λ c. c.run_id ≢ r) limit _
      (All-sort_candidates (λ c. c.run_id ≢ r) _
        (stale_rows-ne locked stale_before s.tasks s.next_run r run s.runs h e f))

pub expired-IsDescending :
    (now : ℕ) (cs : List Candidate) (s : ReviewStore)
    → IsDescending s.next_run s.runs
    → IsDescending (expire_all now cs s).1.next_run (expire_all now cs s).1.runs
unfolding expire_all
expired-IsDescending now [] s h = h
expired-IsDescending now (c ∷ cs) s h =
    expired-IsDescending now cs (time_out now c s)
      (update-IsDescending s.next_run c.run_id _ s.runs h)
