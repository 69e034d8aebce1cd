-- ===== src/Maintenance/Live.antt =====
-- The open and assigned maintenance tasks with a given artifact, type and target, under the statements of
-- src/coordinator/store.ts.
use scientific_protocol.Common.{
  ℕ, ◌≡◌, refl, Bool, true, false, ◌&&◌, Option, none, String, arith, inl, inr, Option-cases,
  Bool-cases, List, [], ◌∷◌, All, All-mono, or_else, eq_iff, str_eq, ltb, ◌==◌,
}
use scientific_protocol.Lease.{is_open, item_is, row_passes, claim, finish, expire_all, Candidate}
use scientific_protocol.Lease.Invariant.{IsValid}
use scientific_protocol.Lease.Claims.{first_key-eq-none}
use scientific_protocol.Maintenance.{
  TaskStore, MaintenanceTask, MaintenanceRun, TaskType, audit, repair, columns, is_active, type_eq,
  same_identity, existing_task, claim_artifact_maintenance_task_by_id, reopen_task, time_out_run,
}

module _ (a : String) (ty : TaskType) (t : Option String) where
  abbrev pub is_live_row : MaintenanceTask → Bool
  is_live_row task = is_active task.status && same_identity a ty t task

  -- The task `k` is open or assigned, for this artifact, type and target.
  abbrev pub is_live : TaskStore → ℕ → Bool
  is_live s k = row_passes is_live_row (s.items k)

  pub live-finish :
      (s : TaskStore) (k r : ℕ) (f : MaintenanceTask → MaintenanceTask)
      (g : MaintenanceRun → MaintenanceRun) (j : ℕ)
      → ((task : MaintenanceTask) → is_live_row (f task) ≡ true → is_live_row task ≡ true)
      → is_live (finish columns k f r g s) j ≡ true
      → is_live s j ≡ true
  unfolding finish
  live-finish s k r f g j h l = elim (Option-cases (s.items j)) [
    | inl e ↦ ground arith
    | inr (task, e) ↦ elim (Bool-cases (k == j)) [
      | inl same ↦ rw e (h task (rw (e, same) at l))
      | inr other ↦ rw other at l
    ]
  ]

pub record IsDistinct (s : TaskStore) : Type 0 where
  pub unique :
      (a : String) (ty : TaskType) (t : Option String) (j k : ℕ)
      → is_live a ty t s j ≡ true
      → is_live a ty t s k ≡ true
      → j ≡ k

-- A store with no new live task keeps them distinct.
pub IsDistinct-shrink :
    (s s' : TaskStore)
    → IsDistinct s
    → ((a : String) (ty : TaskType) (t : Option String) (j : ℕ)
        → is_live a ty t s' j ≡ true
        → is_live a ty t s j ≡ true)
    → IsDistinct s'
IsDistinct-shrink s s' d h = record {
  unique = λ a ty t j k x y. d.unique a ty t j k (h a ty t j x) (h a ty t k y);
}

pub live-claim :
    (now : ℕ) (agent_id : Option String) (worker_id : String) (k : ℕ) (s : TaskStore) (a : String)
    (ty : TaskType) (t : Option String) (j : ℕ)
    → is_live a ty t (claim_artifact_maintenance_task_by_id now agent_id worker_id k s).1 j ≡ true
    → is_live a ty t s j ≡ true
unfolding claim_artifact_maintenance_task_by_id claim
live-claim now agent_id worker_id k s a ty t j l = elim (Bool-cases (item_is columns is_open s k)) [
  | inr shut ↦ rw shut at l
  | inl free ↦ elim (Option-cases (s.items j)) [
    | inl e ↦ ground arith
    | inr (task, e) ↦ ground arith
  ]
]

pub type_eq→eq : (x y : TaskType) → type_eq x y ≡ true → x ≡ y
type_eq→eq audit audit h = refl
type_eq→eq repair repair h = refl
type_eq→eq audit repair h = cc
type_eq→eq repair audit h = cc

-- Two live tasks of one identity have the same key fields.
pub same_identity_iff :
    (a : String) (ty : TaskType) (t : Option String) (task : MaintenanceTask)
    → same_identity a ty t task ≡ true
    → (task.artifact_key ≡ a)
      × (task.task_type ≡ ty)
      × (or_else task.target_replica_key "" ≡ or_else t "")
same_identity_iff a ty t task h =
    ((eq_iff _ _).0 (ground arith), type_eq→eq _ _ (ground arith), (eq_iff _ _).0 (ground arith))

pub active-finish :
    (now : ℕ) (s : TaskStore) (k r j : ℕ)
    → item_is columns is_active s j ≡ true
    → item_is columns is_active (finish columns k (reopen_task now) r (time_out_run now) s) j ≡ true
unfolding finish
active-finish now s k r j h = elim (Option-cases (s.items j)) [
  | inl e ↦ ground arith
  | inr (task, e) ↦ ground arith
]

pub live-reopened :
    (now : ℕ) (s : TaskStore) (k r : ℕ) (a : String) (ty : TaskType) (t : Option String) (j : ℕ)
    → item_is columns is_active s k ≡ true
    → is_live a ty t (finish columns k (reopen_task now) r (time_out_run now) s) j ≡ true
    → is_live a ty t s j ≡ true
unfolding finish
live-reopened now s k r a ty t j h l = elim (Option-cases (s.items j)) [
  | inl e ↦ ground arith
  | inr (task, e) ↦ ground arith
]

pub live-reopen :
    (now : ℕ) (cs : List Candidate) (s : TaskStore) (a : String) (ty : TaskType) (t : Option String)
    (j : ℕ)
    → All (λ c. item_is columns is_active s c.item_id ≡ true) cs
    → is_live a ty t (expire_all columns (reopen_task now) (time_out_run now) cs s) j ≡ true
    → is_live a ty t s j ≡ true
unfolding expire_all
live-reopen now [] s a ty t j h l = l
live-reopen now (c ∷ cs) s a ty t j h l =
    let s' = finish columns c.item_id (reopen_task now) c.run_id (time_out_run now) s in
    live-reopened now s c.item_id c.run_id a ty t j h.0 (
      live-reopen now cs s' a ty t j
        (All-mono _ _ cs (λ d. active-finish now s c.item_id c.run_id d.item_id) h.1) l)

-- Being live depends on the key fields alone.
pub live_congr :
    {a b : String} {x y : TaskType} (t u : Option String) (s : TaskStore) (k : ℕ)
    → a ≡ b
    → x ≡ y
    → or_else t "" ≡ or_else u ""
    → is_live a x t s k ≡ is_live b y u s k
live_congr t u s k p q r i =
    row_passes
      (λ task.
        is_active task.status
        && (str_eq task.artifact_key (p i)
            && type_eq task.task_type (q i)
            && str_eq (or_else task.target_replica_key "") (r i)))
      (s.items k)

pub none_live :
    (s : TaskStore) (a : String) (ty : TaskType) (t : Option String) (k : ℕ)
    → IsValid columns s
    → existing_task a ty t s ≡ none
    → is_live a ty t s k ≡ false
unfolding existing_task
none_live s a ty t k v e = elim (Bool-cases (ltb k s.next_item)) [
  | inl below ↦ first_key-eq-none s.next_item 0 _ e k (omega arith) (ground arith)
  | inr above ↦ rw (v.fresh_item k (ground arith))
]
