-- ===== src/Sources/Ingestion.antt =====
-- The ingestion attempts of src/sources/store.ts: a lease on each source, by the identity of its canonical key.
use scientific_protocol.Common.{
  ℕ, ◌+◌, Bool, true, false, ◌||◌, ◌&&◌, Option, none, some, ◌∷◌, String, str_eq, slice, leb,
  if◌then◌else◌,
}
use scientific_protocol.Table.{Table, get, update}

pub data IngestionStatus : Type 0 where
  completed failed ingesting : IngestionStatus

-- `source_ingestion_attempts`; a lease has an owner and an end.
pub record Ingestion : Type 0 where
  pub attempt_count : ℕ
  pub last_error : Option String
  pub lease_expires_at : Option ℕ
  pub lease_owner : Option String
  pub source_id : Option ℕ
  pub status : IngestionStatus
  pub updated_at : ℕ

abbrev pub new_ingestion : ℕ → (lease_ms : ℕ) → String → Ingestion
new_ingestion now lease_ms lease_owner = record {
  attempt_count = 1;
  last_error = none;
  lease_expires_at = some (now + lease_ms);
  lease_owner = some lease_owner;
  source_id = none;
  status = IngestionStatus.ingesting;
  updated_at = now;
}

abbrev pub taken_over : ℕ → (lease_ms : ℕ) → String → Ingestion → Ingestion
taken_over now lease_ms lease_owner attempt = record attempt {
  status = IngestionStatus.ingesting;
  lease_owner = some lease_owner;
  lease_expires_at = some (now + lease_ms);
  attempt_count = attempt.attempt_count + 1;
  last_error = none;
  updated_at = now;
}

abbrev pub is_expired : ℕ → Option ℕ → Bool
is_expired now none = false
is_expired now (some expires_at) = leb expires_at now

-- The WHERE of the upsert; a missing time is not before now.
abbrev pub may_take_over : ℕ → Ingestion → Bool
may_take_over now attempt =
    elim attempt.status [ IngestionStatus.failed ↦ true | _ ↦ false ]
    || is_expired now attempt.lease_expires_at

-- Whether the lease is acquired, the attempt, and the table.
unfoldable pub reserve_source_ingestion_attempt :
    ℕ
    → (key lease_ms : ℕ) (lease_owner : String) → Table Ingestion
    → (Bool × Ingestion) × Table Ingestion
reserve_source_ingestion_attempt now key lease_ms lease_owner rows = elim (get key rows) [
  | none ↦
      let attempt = new_ingestion now lease_ms lease_owner in
      ((true, attempt), (key, attempt) ∷ rows)
  | some attempt ↦
      if may_take_over now attempt
      then (
        (true, taken_over now lease_ms lease_owner attempt),
        update key (taken_over now lease_ms lease_owner) rows,
      )
      else ((false, attempt), rows)
]

abbrev pub is_owner : String → Option String → Bool
is_owner owner none = false
is_owner owner (some held) = str_eq held owner

-- The attempt is under way, and its lease the owner's.
abbrev pub is_held : String → Option Ingestion → Bool
is_held owner none = false
is_held owner (some attempt) =
    is_owner owner attempt.lease_owner
    && elim attempt.status [ IngestionStatus.ingesting ↦ true | _ ↦ false ]

abbrev pub ended : ℕ → IngestionStatus → Option String → Ingestion → Ingestion
ended now status last_error attempt = record attempt {
  status = status;
  lease_owner = none;
  lease_expires_at = none;
  last_error = last_error;
  updated_at = now;
}

-- Whether a row is updated.
unfoldable pub complete_source_ingestion_attempt :
    ℕ → (key : ℕ) (lease_owner : String) (source_id : ℕ) → Table Ingestion → Bool × Table Ingestion
complete_source_ingestion_attempt now key lease_owner source_id rows =
    if is_held lease_owner (get key rows)
    then (
      true,
      update key
          (λ attempt. record (ended now IngestionStatus.completed none attempt) {
            source_id = some source_id;
          })
          rows,
    )
    else (false, rows)

unfoldable pub fail_source_ingestion_attempt :
    ℕ → (key : ℕ) (last_error lease_owner : String) → Table Ingestion → Table Ingestion
fail_source_ingestion_attempt now key last_error lease_owner rows =
    if is_held lease_owner (get key rows)
    then update key (ended now IngestionStatus.failed (some (slice 2000 last_error))) rows
    else rows
