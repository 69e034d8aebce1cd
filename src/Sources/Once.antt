-- ===== src/Sources/Once.antt =====
-- How often src/sources/auto-publish.ts creates a claim for a source.
use scientific_protocol.Common.{
  ℕ, ◌≤◌, ◌+◌, arith, true, false, ◌==◌, ==_iff, ◌≡◌, refl, ap, subst, ◌∙◌, inl, inr, Bool-cases,
  Option-cases, Option, none, some, List, [], ◌∷◌, String, if◌then◌else◌,
}
use scientific_protocol.Sources.Rows.{Candidate, SourceStore}
use scientific_protocol.Sources.Attempting.{Creation, Attempted, attempt_source_auto_publication}
use scientific_protocol.Sources.Kept.{is_attempted, attempt-IsOnce}

-- A call of the publication: what differs from one to the next.
pub record Call : Type 0 where
  pub create : Candidate → Creation
  pub candidates : List Candidate
  pub now : ℕ
  pub artifact_key : Option String
  pub source_id : ℕ

module _ (lower : String → String) where
  abbrev pub called : Call → SourceStore → Attempted
  called call s =
      attempt_source_auto_publication lower call.create call.candidates call.now call.artifact_key
        call.source_id s

  abbrev creates_for : ℕ → Call → Option Candidate → ℕ
  creates_for k call none = 0
  creates_for k call (some candidate) = if call.source_id == k then 1 else 0

  -- How many of the calls, one after another, create a claim for the source.
  pub creations : ℕ → List Call → SourceStore → ℕ
  creations k [] s = 0
  creations k (call ∷ calls) s =
      creates_for k call (called call s).creation + creations k calls (called call s).store

  no_creation :
      (k : ℕ) (call : Call) (s : SourceStore)
      → is_attempted k s ≡ true
      → creates_for k call (called call s).creation ≡ 0
  no_creation k call s h = elim (Option-cases (called call s).creation) [
    | inl e ↦ ap (creates_for k call) e
    | inr (candidate, e) ↦ elim (Bool-cases (call.source_id == k)) [
      | inr f ↦ ap (creates_for k call) e ∙ rw f refl
      | inl f ↦
          let unattempted =
            (attempt-IsOnce lower call.create call.candidates call.now call.artifact_key
                call.source_id s).first
              candidate e in
          ground (
            arith,
            h,
            subst (λ j. is_attempted j s ≡ false) ((==_iff call.source_id k).0 f) unattempted,
          )
    ]
  ]

  none_after :
      (k : ℕ) (calls : List Call) (s : SourceStore)
      → is_attempted k s ≡ true
      → creations k calls s ≡ 0
  unfolding creations
  none_after k [] s h = refl
  none_after k (call ∷ calls) s h =
      let once =
        attempt-IsOnce lower call.create call.candidates call.now call.artifact_key call.source_id
          s in
      omega
        (arith, no_creation k call s h, none_after k calls (called call s).store (once.keeps k h))

  -- Whatever the candidates and the outcomes of the creations, failures included, any sequence of calls creates a claim
  -- at most once for each source.
  pub creations-le : (k : ℕ) (calls : List Call) (s : SourceStore) → creations k calls s ≤ 1
  unfolding creations
  creations-le k [] s = omega arith
  creations-le k (call ∷ calls) s = elim (Option-cases (called call s).creation) [
    | inl e ↦ omega (arith, ap (creates_for k call) e, creations-le k calls (called call s).store)
    | inr (candidate, e) ↦ elim (Bool-cases (call.source_id == k)) [
      | inr f ↦
          let zero_here : creates_for k call (some candidate) ≡ 0 = rw f refl in
          omega (
            arith,
            ap (creates_for k call) e,
            zero_here,
            creations-le k calls (called call s).store,
          )
      | inl f ↦
          let once =
            attempt-IsOnce lower call.create call.candidates call.now call.artifact_key
              call.source_id s in
          let there =
            subst (λ j. is_attempted j (called call s).store ≡ true) ((==_iff call.source_id k).0 f)
              (once.leaves candidate e) in
          let one_here : creates_for k call (some candidate) ≡ 1 = rw f refl in
          omega (
            arith,
            ap (creates_for k call) e,
            one_here,
            none_after k calls (called call s).store there,
          )
    ]
  ]
