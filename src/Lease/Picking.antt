-- ===== src/Lease/Picking.antt =====
-- A stale run is picked by the reaper, if the limit leaves room for all of them.
use scientific_protocol.Common.{
  ℕ, zero, suc, ◌+◌, ◌≤◌, ◌<◌, ◌≡◌, refl, Bool, true, false, inl, inr, arith, List, [], ◌∷◌, ◌==◌,
  Bool-cases, Some, Some-filter, Some-map, subst, sym, ==_iff, length, length-map, take_all, map,
}
use scientific_protocol.Lease.{
  Columns, Store, Candidate, keys, precedes, insert_candidate, sort_candidates, candidate, is_stale,
  stale_runs, stale_candidates,
}

length-insert_candidate :
    (c : Candidate) (cs : List Candidate) → length (insert_candidate c cs) ≡ suc (length cs)
unfolding insert_candidate
length-insert_candidate c [] = refl
length-insert_candidate c (d ∷ ds) = ground (arith, length-insert_candidate c ds)

length-sort_candidates : (cs : List Candidate) → length (sort_candidates cs) ≡ length cs
unfolding sort_candidates
length-sort_candidates [] = refl
length-sort_candidates (c ∷ cs) =
    omega (arith, length-insert_candidate c (sort_candidates cs), length-sort_candidates cs)

module _ (P : Candidate → Type 0) where
  Some-insert_candidate :
      (c : Candidate) (cs : List Candidate) → Some P (c ∷ cs) → Some P (insert_candidate c cs)
  unfolding insert_candidate
  Some-insert_candidate c [] h = h
  Some-insert_candidate c (d ∷ ds) h = elim (Bool-cases (precedes c d)) [
    | inl e ↦ rw e h
    | inr e ↦ rw e (elim h [
      | inl p ↦ inr (Some-insert_candidate c ds (inl p))
      | inr k ↦ elim k [ inl q ↦ inl q | inr m ↦ inr (Some-insert_candidate c ds (inr m)) ]
    ])
  ]

  Some-sort_candidates : (cs : List Candidate) → Some P cs → Some P (sort_candidates cs)
  unfolding sort_candidates
  Some-sort_candidates [] h = h
  Some-sort_candidates (c ∷ cs) (inl p) = Some-insert_candidate c (sort_candidates cs) (inl p)
  Some-sort_candidates (c ∷ cs) (inr h) =
      Some-insert_candidate c (sort_candidates cs) (inr (Some-sort_candidates cs h))

Some-keys : (P : ℕ → Type 0) (n i r : ℕ) → i ≤ r → r < i + n → P r → Some P (keys n i)
unfolding keys
Some-keys P zero i r h l p = absurd (omega arith)
Some-keys P (suc n) i r h l p = elim (Bool-cases (i == r)) [
  | inl e ↦ inl (subst P (sym ((==_iff i r).0 e)) p)
  | inr e ↦ inr (Some-keys P n (suc i) r (ground arith) (omega arith) p)
]

module _ {Item Run : Type 0} (columns : Columns Item Run) where
  -- With no more stale runs than the limit, each of them is picked, with the item that it leases.
  pub stale_candidates_complete :
      (locked : ℕ → Bool) (stale_before limit : ℕ) (s : Store Item Run) (r : ℕ)
      → r < s.next_run
      → locked r ≡ false
      → is_stale columns stale_before s r ≡ true
      → length (stale_runs columns locked stale_before s) ≤ limit
      → Some (λ c. c ≡ candidate columns s r) (stale_candidates columns locked stale_before limit s)
  unfolding stale_candidates
  stale_candidates_complete locked stale_before limit s r l free st h =
      let found = candidate columns s in
      let all = map found (stale_runs columns locked stale_before s) in
      rw
        (take_all limit (sort_candidates all) (
          omega (
            arith,
            length-sort_candidates all,
            length-map found (stale_runs columns locked stale_before s),
          )))
        (Some-sort_candidates _ all (
          Some-map _ found (stale_runs columns locked stale_before s) (
            unfold stale_runs in
            Some-filter (λ x. found x ≡ found r) _ (keys s.next_run 0)
              (Some-keys _ s.next_run 0 r (omega arith) (omega arith) (refl, rw (free, st))))))
