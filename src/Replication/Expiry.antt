-- ===== src/Replication/Expiry.antt =====
-- What the reaper of replication leases ends, what it spares, and heartbeats.
use scientific_protocol.Common.{
  Some-mono, ◌∙◌, ℕ, ◌-◌, ◌≤◌, ◌≡◌, refl, Bool, true, false, Option, some, String, arith, inl, inr,
  Option-cases, Bool-cases, length, ==_iff,
}
use scientific_protocol.Lease.{
  leases, item_is, is_open, is_assigned, is_stale, stale_runs, candidate, finish, renew,
}
use scientific_protocol.Lease.Invariant.{IsValid, leases-touch, touch-IsValid}
use scientific_protocol.Lease.Expiry.{
  runs-expire_all, items-expire_all, leases-expire_all_of_picked, open-expire_all_of_picked,
}
use scientific_protocol.Lease.Sparing.{
  run_of_leases, is_stale-of_recent, stale_candidates-ne_run, stale_candidates-ne_item,
  renew_accepted,
}
use scientific_protocol.Lease.Picking.{stale_candidates_complete}
use scientific_protocol.Replication.{
  owns_run, touch_job, beat_run, ReplicationJobRun, JobStore, columns,
  heartbeat_replication_job_run, expire_stale_replication_job_runs, reopen_job, time_out_run,
  reap_limit,
}

assigned_there :
    (s : JobStore) (k : ℕ)
    → item_is columns is_assigned s k ≡ true
    → item_is columns (λ _. true) s k ≡ true
assigned_there s k h = elim (Option-cases (s.items k)) [
  | inl e ↦ ground arith
  | inr (job, e) ↦ ground arith
]

module _ (now : ℕ) (locked : ℕ → Bool) (limit : Option ℕ) (stale_after_ms : ℕ) (s : JobStore) where
  abbrev reaped : JobStore
  reaped = (expire_stale_replication_job_runs now locked limit stale_after_ms s).1

  -- A run that is not stale keeps its row.
  pub runs-reaped :
      (r : ℕ) → is_stale columns (now - stale_after_ms) s r ≡ false → reaped.runs r ≡ s.runs r
  unfolding expire_stale_replication_job_runs
  runs-reaped r fresh =
      runs-expire_all columns (reopen_job now) (time_out_run now) (λ _. refl) (λ _. refl) _ s r
        (stale_candidates-ne_run columns locked (now - stale_after_ms) (reap_limit limit) s r fresh)

  items-reaped :
      (r k : ℕ)
      → IsValid columns s
      → leases columns s r k ≡ true
      → is_stale columns (now - stale_after_ms) s r ≡ false
      → reaped.items k ≡ s.items k
  unfolding expire_stale_replication_job_runs
  items-reaped r k v l fresh =
      items-expire_all columns (reopen_job now) (time_out_run now) (λ _. refl) (λ _. refl) _ s k
        (stale_candidates-ne_item columns locked (now - stale_after_ms) (reap_limit limit) s r fresh
          k v l)

  -- With no more stale runs than the limit, the lease of each stale run that is not locked ends, and
  -- its job is open again.
  pub expire_frees_stale :
      (r k : ℕ)
      → IsValid columns s
      → leases columns s r k ≡ true
      → locked r ≡ false
      → is_stale columns (now - stale_after_ms) s r ≡ true
      → length (stale_runs columns locked (now - stale_after_ms) s) ≤ reap_limit limit
      → (item_is columns is_open reaped k ≡ true) × ((j : ℕ) → leases columns reaped r j ≡ false)
  unfolding expire_stale_replication_job_runs
  expire_frees_stale r k v l free st few =
      let (run, e, own) = run_of_leases columns s r k l in
      let stale_before = now - stale_after_ms in
      let picked =
        stale_candidates_complete columns locked stale_before (reap_limit limit) s r
          (ground (arith, v.fresh_run r)) free st few in
      let here : (candidate columns s r).item_id ≡ k = rw e own in
      (
        open-expire_all_of_picked columns (reopen_job now) (time_out_run now) (λ _. refl)
            (λ _. refl) _ s k (assigned_there s k (v.held r k l))
            (Some-mono _ (λ c. c.item_id ≡ k) _ (λ c p. rw p here) picked),
        λ j.
            leases-expire_all_of_picked columns (reopen_job now) (time_out_run now) (λ _. refl)
              (λ _. refl) _ s r j (Some-mono _ (λ c. c.run_id ≡ r) _ (λ c p. rw p refl) picked),
      )

-- The same of the store that an accepted heartbeat leaves.
beat_protects :
    (now later : ℕ) (locked : ℕ → Bool) (limit : Option ℕ) (stale_after_ms : ℕ) (s : JobStore)
    (k r : ℕ)
    → IsValid columns s
    → leases columns s r k ≡ true
    → later - stale_after_ms ≤ now
    → let s' = finish columns k (touch_job now) r (beat_run now) s in
      let s'' = (expire_stale_replication_job_runs later locked limit stale_after_ms s').1 in
      (leases columns s' r k ≡ true) × (s''.runs r ≡ s'.runs r) × (s''.items k ≡ s'.items k)
beat_protects now later locked limit ms s k r v l le =
    let s' = finish columns k (touch_job now) r (beat_run now) s in
    let v' =
      touch-IsValid columns s k r (touch_job now) (beat_run now) (λ _. refl) (λ _. refl) (λ _. refl)
        v in
    let l' : leases columns s' r k ≡ true =
      leases-touch columns s k r (touch_job now) (beat_run now) (λ _. refl) (λ _. refl) (λ _. refl)
        r k
      ∙ l in
    let (run, e, own) = run_of_leases columns s r k l in
    let recent : is_stale columns (later - ms) s' r ≡ false =
      is_stale-of_recent columns (later - ms) s' r (beat_run now run)
        (unfold finish in rw ((==_iff r r).1 refl) (rw e)) le in
    (
      l',
      runs-reaped later locked limit ms s' r recent,
      items-reaped later locked limit ms s' r k v' l' recent,
    )

-- A heartbeat at time `now` that is accepted keeps the lease through every reaping that counts a run
-- as stale only when its last heartbeat is before `now`: run and job keep their rows.
pub heartbeat_protects :
    (now : ℕ) (agent_id worker_id : Option String) (job_id run_id : ℕ) (s : JobStore)
    (run : ReplicationJobRun) (later : ℕ) (locked : ℕ → Bool) (limit : Option ℕ)
    (stale_after_ms : ℕ)
    → IsValid columns s
    → (heartbeat_replication_job_run now agent_id worker_id job_id run_id s).0 ≡ some run
    → later - stale_after_ms ≤ now
    → let s' = (heartbeat_replication_job_run now agent_id worker_id job_id run_id s).1 in
      let s'' = (expire_stale_replication_job_runs later locked limit stale_after_ms s').1 in
      (leases columns s' run_id job_id ≡ true)
      × (s''.runs run_id ≡ s'.runs run_id)
      × (s''.items job_id ≡ s'.items job_id)
unfolding heartbeat_replication_job_run
heartbeat_protects now a w k r s run later locked limit ms v h le =
    elim (Bool-cases (renew columns (owns_run a w) k (touch_job now) r (beat_run now) s).0) [
      | inl e ↦
          let (l, accepted) =
            renew_accepted columns s (owns_run a w) k r (touch_job now) (beat_run now) e in
          rw (accepted) (beat_protects now later locked limit ms s k r v l le)
      | inr e ↦ let impossible : ⊥ = ground arith in absurd impossible
    ]
