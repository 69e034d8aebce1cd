-- ===== src/Sources/Ingesting.antt =====
-- The leases of the ingestion attempts of src/sources/store.ts.
use scientific_protocol.Common.{
  ℕ, ◌+◌, ◌<◌, arith, true, false, ◌≡◌, refl, ap, inl, inr, Bool-cases, Option-cases, none, some,
  String, str_eq, eq_iff, ==_iff,
}
use scientific_protocol.Table.{Table, get, get-update_self}
use scientific_protocol.Sources.Ingestion.{
  IngestionStatus, Ingestion, new_ingestion, taken_over, may_take_over,
  reserve_source_ingestion_attempt, is_held, ended, complete_source_ingestion_attempt,
  fail_source_ingestion_attempt,
}

-- The row of the key is a lease of the owner until the time.
record IsLeased (key : ℕ) (owner : String) (until : ℕ) (rows : Table Ingestion) : Type 0 where
  row : Ingestion
  found : get key rows ≡ some row
  owned : row.lease_owner ≡ some owner
  running : row.status ≡ IngestionStatus.ingesting
  expires : row.lease_expires_at ≡ some until

reserve-IsLeased :
    (now key ms : ℕ) (owner : String) (rows : Table Ingestion)
    → (reserve_source_ingestion_attempt now key ms owner rows).0.0 ≡ true
    → IsLeased key owner (now + ms) (reserve_source_ingestion_attempt now key ms owner rows).1
unfolding reserve_source_ingestion_attempt
reserve-IsLeased now key ms owner rows h = elim (Option-cases (get key rows)) [
  | inl e ↦
      rw (reserve_source_ingestion_attempt, e)
        (record {
          row = new_ingestion now ms owner;
          found = rw ((==_iff key key).1 refl) refl;
          owned = refl;
          running = refl;
          expires = refl;
        })
  | inr (a, e) ↦ elim (Bool-cases (may_take_over now a)) [
    | inl f ↦
        rw (reserve_source_ingestion_attempt, e, f)
          (record {
            row = taken_over now ms owner a;
            found = get-update_self key (taken_over now ms owner) rows e;
            owned = refl;
            running = refl;
            expires = refl;
          })
    | inr f ↦ ground (arith, rw (reserve_source_ingestion_attempt, e, f) at h)
  ]
]

module _ (key now : ℕ) (owner rival : String) (until : ℕ) (rows : Table Ingestion)
    (v : IsLeased key owner until rows) (apart : str_eq owner rival ≡ false) where
  not_taken : now < until → may_take_over now v.row ≡ false
  not_taken h = rw (v.running, v.expires) (ground (arith, h))

  rival_refused : is_held rival (get key rows) ≡ false
  rival_refused = rw (v.found, v.owned, apart) refl

  reserve_refused :
      (ms : ℕ)
      → now < until
      → reserve_source_ingestion_attempt now key ms rival rows ≡ ((false, v.row), rows)
  unfolding reserve_source_ingestion_attempt
  reserve_refused ms h = rw (reserve_source_ingestion_attempt, v.found, not_taken h) refl

  complete_refused :
      (source_id : ℕ)
      → complete_source_ingestion_attempt now key rival source_id rows ≡ (false, rows)
  unfolding complete_source_ingestion_attempt
  complete_refused source_id = rw (complete_source_ingestion_attempt, rival_refused) refl

  fail_refused : (error : String) → fail_source_ingestion_attempt now key error rival rows ≡ rows
  unfolding fail_source_ingestion_attempt
  fail_refused error = rw (fail_source_ingestion_attempt, rival_refused) refl

-- A completed row: no lease can take it over, at any time.
record IsCompleted (key source_id : ℕ) (rows : Table Ingestion) : Type 0 where
  row : Ingestion
  found : get key rows ≡ some row
  source : row.source_id ≡ some source_id
  done : row.status ≡ IngestionStatus.completed
  unleased : row.lease_expires_at ≡ none

completed_stays :
    (key source_id : ℕ) (rows : Table Ingestion)
    → IsCompleted key source_id rows
    → (now ms : ℕ) (owner : String)
    → (reserve_source_ingestion_attempt now key ms owner rows).1 ≡ rows
unfolding reserve_source_ingestion_attempt
completed_stays key source_id rows v now ms owner =
    rw (reserve_source_ingestion_attempt, v.found, free) refl
  where
    free : may_take_over now v.row ≡ false
    free = rw (v.done, v.unleased) refl

owner_completes :
    (key now until source_id : ℕ) (owner : String) (rows : Table Ingestion)
    → IsLeased key owner until rows
    → ((complete_source_ingestion_attempt now key owner source_id rows).0 ≡ true)
      × IsCompleted key source_id (complete_source_ingestion_attempt now key owner source_id rows).1
unfolding complete_source_ingestion_attempt
owner_completes key now until source_id owner rows v =
    rw (complete_source_ingestion_attempt, mine)
      (
        refl,
        record {
          row = record (ended now IngestionStatus.completed none v.row) {
            source_id = some source_id;
          };
          found = get-update_self key _ rows v.found;
          source = refl;
          done = refl;
          unleased = refl;
        },
      )
  where
    mine : is_held owner (get key rows) ≡ true
    mine = rw (v.found, v.owned, v.running, (eq_iff owner owner).1 refl) refl

-- Until an acquired lease runs out, no other owner acquires, completes or fails the ingestion. Its owner completes it
-- while no other has taken it over, and then no call, at any time, takes it over.
pub lease_exclusive :
    (now key ms : ℕ) (owner rival any error : String) (rows : Table Ingestion)
    (later more after source_id : ℕ)
    → (reserve_source_ingestion_attempt now key ms owner rows).0.0 ≡ true
    → later < now + ms
    → str_eq owner rival ≡ false
    → ((reserve_source_ingestion_attempt later key more rival
          (reserve_source_ingestion_attempt now key ms owner rows).1).0.0
        ≡ false)
      × (complete_source_ingestion_attempt later key rival source_id
            (reserve_source_ingestion_attempt now key ms owner rows).1
          ≡ (false, (reserve_source_ingestion_attempt now key ms owner rows).1))
      × (fail_source_ingestion_attempt later key error rival
            (reserve_source_ingestion_attempt now key ms owner rows).1
          ≡ (reserve_source_ingestion_attempt now key ms owner rows).1)
      × ((complete_source_ingestion_attempt after key owner source_id
            (reserve_source_ingestion_attempt now key ms owner rows).1).0
          ≡ true)
      × ((reserve_source_ingestion_attempt more key ms any
            (complete_source_ingestion_attempt after key owner source_id
              (reserve_source_ingestion_attempt now key ms owner rows).1).1).1
          ≡ (complete_source_ingestion_attempt after key owner source_id
              (reserve_source_ingestion_attempt now key ms owner rows).1).1)
lease_exclusive now key ms owner rival any error rows later more after source_id h before apart =
    let v = reserve-IsLeased now key ms owner rows h in
    let (done, w) = owner_completes key after (now + ms) source_id owner _ v in
    (
      ap (λ out. out.0.0) (reserve_refused key later owner rival (now + ms) _ v apart more before),
      complete_refused key later owner rival (now + ms) _ v apart source_id,
      fail_refused key later owner rival (now + ms) _ v apart error,
      done,
      completed_stays key source_id _ w more ms any,
    )
