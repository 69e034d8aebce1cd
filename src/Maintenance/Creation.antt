-- ===== src/Maintenance/Creation.antt =====
-- A maintenance task that is asked for twice is made once.
use scientific_protocol.Common.{
  ℕ, ◌≡◌, refl, true, Option, none, some, String, inl, inr, Option-cases, ==_iff, eq_refl, or_else,
  sym, ◌∙◌,
}
use mathlib.Core.Bool.{false≢true}
use scientific_protocol.Lease.{insert_item}
use scientific_protocol.Lease.Invariant.{IsValid, insert_item-IsValid}
use scientific_protocol.Lease.Claims.{first_key-eq-some}
use scientific_protocol.Maintenance.{
  TaskStore, TaskType, audit, repair, columns, type_eq, existing_task, new_task,
  create_artifact_maintenance_task, read_task,
}
use scientific_protocol.Maintenance.Identity.{insert-IsDistinct}
use scientific_protocol.Maintenance.Live.{IsDistinct, is_live, none_live}

type_eq_refl : (ty : TaskType) → type_eq ty ty ≡ true
type_eq_refl audit = refl
type_eq_refl repair = refl

existing_live :
    (s : TaskStore) (a : String) (ty : TaskType) (t : Option String) (k : ℕ)
    → existing_task a ty t s ≡ some k
    → is_live a ty t s k ≡ true
unfolding existing_task
existing_live s a ty t k e = (first_key-eq-some s.next_item 0 _ {k = k} e).0

module _ (s : TaskStore) (now : ℕ) (a q : String) (p t : Option String) (ty : TaskType) where
  abbrev inserted : TaskStore
  inserted = insert_item columns (new_task now a q p t ty) s

  create_new :
      existing_task a ty t s ≡ none
      → create_artifact_maintenance_task now a q p t ty s
        ≡ (read_task s.next_item inserted, inserted)
  unfolding create_artifact_maintenance_task
  create_new e = rw (e, create_artifact_maintenance_task)

  create_existing :
      (k : ℕ)
      → existing_task a ty t s ≡ some k
      → create_artifact_maintenance_task now a q p t ty s ≡ (read_task k s, s)
  unfolding create_artifact_maintenance_task
  create_existing k e = rw (e, create_artifact_maintenance_task)

  new_live : is_live a ty t inserted s.next_item ≡ true
  unfolding insert_item
  new_live =
      rw ((==_iff s.next_item s.next_item).1 refl)
        (rw (eq_refl a, type_eq_refl ty) (eq_refl (or_else t "")))

  -- The task that was just made is the one that the next call finds.
  existing_inserted :
      IsValid columns s
      → IsDistinct s
      → existing_task a ty t s ≡ none
      → existing_task a ty t inserted ≡ some s.next_item
  existing_inserted v d e = elim (Option-cases (existing_task a ty t inserted)) [
    | inl n ↦ absurd (
        false≢true (
          sym (none_live inserted a ty t s.next_item (insert_item-IsValid columns _ v refl) n)
          ∙ new_live))
    | inr (k, f) ↦
        let d' = insert-IsDistinct s now a q p t ty v d e in
        rw f (rw (d'.unique a ty t k s.next_item (existing_live inserted a ty t k f) new_live))
  ]

-- On valid tables whose live tasks differ in identity, a second request for the same artifact, type and target replica right after the first, by whoever,
-- returns what the first returned and changes nothing.
pub create_twice :
    (s : TaskStore) (now : ℕ) (a q : String) (p t : Option String) (ty : TaskType) (later : ℕ)
    (q' : String) (p' : Option String)
    → IsValid columns s
    → IsDistinct s
    → create_artifact_maintenance_task later a q' p' t ty
        (create_artifact_maintenance_task now a q p t ty s).1
      ≡ create_artifact_maintenance_task now a q p t ty s
create_twice s now a q p t ty later q' p' v d = elim (Option-cases (existing_task a ty t s)) [
  | inr (k, e) ↦
      rw (create_existing s now a q p t ty k e) (create_existing s later a q' p' t ty k e)
  | inl e ↦ rw (create_new s now a q p t ty e) (
      create_existing (inserted s now a q p t ty) later a q' p' t ty s.next_item
        (existing_inserted s now a q p t ty v d e))
]
