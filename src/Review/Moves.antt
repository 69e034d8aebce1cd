-- ===== src/Review/Moves.antt =====
-- The moves of Review/Consensus that a creation and a claim of src/review/store.ts make.
use scientific_protocol.Common.{
  ℕ, ◌+◌, ◌≤◌, ◌<◌, arith, Bool, true, false, ◌&&◌, not, ◌≡◌, refl, sym, ap, subst, ◌∙◌, inl, inr,
  Bool-cases, Option-cases, Option, none, some, ◌∷◌, String, ◌==◌, ==_iff, if◌then◌else◌, ltb,
  or_else,
}
use scientific_protocol.Table.{get, least_key}
use scientific_protocol.Review.{
  ReviewTask, ReviewStore, policy_of, task_is_open, CreateInput, create_review_task,
  claim_review_task_by_id, submitted, running, new_task, subject_of, has_identity, scope_of,
  SubjectType, add_run, may_claim, touch_task,
}
use scientific_protocol.Review.Policy.{policy_bounds, normalize-to_raw}
use scientific_protocol.Review.Consensus.{Move, stay, create, lease, release}
use scientific_protocol.Review.Effects.{Frame, frame, counter, view, frame-update, Shrinks}

-- The next key of a task is unused, and what is counted belongs to a task.
pub record IsKeyed (s : ReviewStore) : Type 0 where
  pub fresh : (k : ℕ) → s.next_task ≤ k → get k s.tasks ≡ none
  pub owned : (k : ℕ) → get k s.tasks ≡ none → (submitted s k ≡ 0) × (running s k ≡ 0)

pub frame-none : (o : Option ReviewTask) → frame o ≡ none → o ≡ none
frame-none none h = refl
frame-none (some t) h = ground (arith, h)

pub released : (f : Option Frame) (a b b' : ℕ) → b' ≤ b → Move (counter f a b) (counter f a b')
released none a b b' h = stay
released (some f) a b b' h = release b' h refl

pub shrunk-Move : {s s' : ReviewStore} (k : ℕ) → Shrinks s s' → Move (view s k) (view s' k)
shrunk-Move {s} {s'} k h =
    rw (h.frames k, h.submissions k)
      (released (frame (get k s.tasks)) (submitted s k) (running s k) (running s' k) (h.runs k))

pub shrunk-IsKeyed : {s s' : ReviewStore} → Shrinks s s' → IsKeyed s → IsKeyed s'
shrunk-IsKeyed {s} {s'} h v = record {
  fresh = λ k le.
      frame-none (get k s'.tasks) (h.frames k ∙ ap frame (v.fresh k (omega (arith, le, h.next))));
  owned = λ k e.
      let before = v.owned k (frame-none (get k s.tasks) (sym (h.frames k) ∙ ap frame e)) in
      (h.submissions k ∙ before.0, omega (arith, h.runs k, before.1));
}

-- A new task, whose key no row has.
module _ (now : ℕ) (input : CreateInput) (subject_id : String) (s : ReviewStore)
    (v : IsKeyed s) where
  abbrev pub inserted : ReviewStore
  inserted = record s {
    tasks = (s.next_task, new_task now input subject_id) ∷ s.tasks;
    next_task = s.next_task + 1;
  }

  pub inserted-Move : (k : ℕ) → Move (view s k) (view inserted k)
  inserted-Move k = elim (Bool-cases (s.next_task == k)) [
    | inr e ↦ rw e stay
    | inl e ↦
        let none_there = v.fresh k (ground (arith, e)) in
        let counts = v.owned k none_there in
        rw (e, none_there)
          (create refl counts.0 counts.1 (
            subst (λ p. 1 ≤ p.min_submissions) (sym (normalize-to_raw input.consensus_policy))
              (policy_bounds input.consensus_policy).0))
  ]

  pub inserted-IsKeyed : IsKeyed inserted
  inserted-IsKeyed = record {
    fresh = λ k le. rw (not_same s.next_task k le) (v.fresh k (omega (arith, le)));
    owned = λ k e. v.owned k (tail_none (s.next_task == k) _ e);
  }
    where
      not_same : (n k : ℕ) → n + 1 ≤ k → (n == k) ≡ false
      not_same n k h = ground (arith, h)

      tail_none :
          (b : Bool) {o : Option ReviewTask} (t : ReviewTask)
          → (if b then some t else o) ≡ none
          → o ≡ none
      tail_none b t h = ground (arith, h)

-- A property of the tables that holds before and after the insert holds after the creation.
pub create_rule :
    (P : ReviewStore → Type 0) (now : ℕ) (input : CreateInput) (s : ReviewStore)
    → P s
    → ((subject_id : String)
        → P (record s {
          tasks = (s.next_task, new_task now input subject_id) ∷ s.tasks;
          next_task = s.next_task + 1;
        }))
    → P (create_review_task now input s).1
unfolding create_review_task
create_rule P now input s old new = elim (Option-cases (subject_of input)) [
  | inl e ↦ rw (create_review_task, e) old
  | inr (sid, e) ↦
      elim (Option-cases (
        least_key
          (has_identity (or_else input.source_subject_type SubjectType.of_claim) sid input.task_type
            (scope_of input))
          s.tasks)) [
            | inl n ↦ rw (create_review_task, e, n) (new sid)
            | inr (k, f) ↦ rw (create_review_task, e, f) old
          ]
]

claim_parts :
    (a b : Bool) (total most : ℕ) (c : Bool)
    → (a && b && ltb total most && not c) ≡ true
    → (a ≡ true) × (total < most)
claim_parts a b total most c h = ground (arith, h)

-- A claim that is let through.
module _ (now : ℕ) (agent_id : Option String) (j : ℕ) (worker_id : String) (s : ReviewStore)
    (t : ReviewTask) (found : get j s.tasks ≡ some t) where
  abbrev pub leased : ReviewStore
  leased = add_run now j agent_id worker_id s

  pub leased-Move : may_claim s t j agent_id ≡ true → (k : ℕ) → Move (view s k) (view leased k)
  leased-Move may k = elim (Bool-cases (j == k)) [
    | inr e ↦ rw (e, frame-update k j (touch_task now) s.tasks (λ t. refl)) stay
    | inl e ↦
        let same : j ≡ k = (==_iff j k).0 e in
        let here = subst (λ n. get n s.tasks ≡ some t) same found in
        let room = subst (λ n. may_claim s t n agent_id ≡ true) same may in
        rw (e, frame-update k j (touch_task now) s.tasks (λ t. refl), here)
          (let parts =
              claim_parts (task_is_open t) (ltb (submitted s k) (policy_of t).max_submissions) _ _ _
                room in
            lease parts.0 parts.1 refl)
  ]

  apart : (k : ℕ) → get k s.tasks ≡ none → (j == k) ≡ false
  apart k e = elim (Bool-cases (j == k)) [
    | inr h ↦ h
    | inl h ↦ ground (arith, e, subst (λ n. get n s.tasks ≡ some t) ((==_iff j k).0 h) found)
  ]

  pub leased-IsKeyed : IsKeyed s → IsKeyed leased
  leased-IsKeyed v = record {
    fresh = λ k le.
        frame-none _
          (frame-update k j (touch_task now) s.tasks (λ t. refl) ∙ ap frame (v.fresh k le));
    owned = λ k e.
        let before =
          frame-none (get k s.tasks)
            (sym (frame-update k j (touch_task now) s.tasks (λ t. refl)) ∙ ap frame e) in
        rw (apart k before) (v.owned k before);
  }

pub claim_rule :
    (P : ReviewStore → Type 0) (now : ℕ) (agent_id : Option String) (j : ℕ) (worker_id : String)
    (s : ReviewStore)
    → P s
    → ((t : ReviewTask)
        → get j s.tasks ≡ some t
        → may_claim s t j agent_id ≡ true
        → P (add_run now j agent_id worker_id s))
    → P (claim_review_task_by_id now agent_id j worker_id s).1
unfolding claim_review_task_by_id
claim_rule P now agent_id j worker_id s old new = elim (Option-cases (get j s.tasks)) [
  | inl e ↦ rw (claim_review_task_by_id, e) old
  | inr (t, e) ↦ elim (Bool-cases (may_claim s t j agent_id)) [
    | inl m ↦ rw (claim_review_task_by_id, e, m) (new t e m)
    | inr m ↦ rw (claim_review_task_by_id, e, m) old
  ]
]
