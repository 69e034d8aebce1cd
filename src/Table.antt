-- ===== src/Table.antt =====
-- A table of the database as a list of keyed rows: what the SQL statements of src/review/store.ts and
-- src/sources/store.ts do to one.
use scientific_protocol.Common.{
  ℕ, suc, ◌≤◌, ◌<◌, min, arith, Bool, true, false, ◌≡◌, refl, sym, subst, or_else, ap, inl, inr,
  Bool-cases, Option, none, some, List, [], ◌∷◌, ◌==◌, if◌then◌else◌,
}

abbrev pub Table {ℓ} : Type ℓ → Type ℓ
Table A = List (ℕ × A)

abbrev pub lesser : ℕ → Option ℕ → Option ℕ
lesser k none = some k
lesser k (some j) = some (min k j)

module _ {ℓ} {A : Type ℓ} where
  abbrev pub get : ℕ → Table A → Option A
  get k [] = none
  get k ((j, a) ∷ rows) = let rest = get k rows in if j == k then some a else rest

  -- UPDATE … WHERE the key is `k`.
  abbrev pub update : ℕ → (A → A) → Table A → Table A
  update k f [] = []
  update k f ((j, a) ∷ rows) = (j, if j == k then f a else a) ∷ update k f rows

  -- COUNT(*) of the rows that pass.
  abbrev pub count : (A → Bool) → Table A → ℕ
  count p [] = 0
  count p ((j, a) ∷ rows) = let rest = count p rows in if p a then suc rest else rest

  -- ORDER BY the key ASC LIMIT 1.
  abbrev pub least_key : (A → Bool) → Table A → Option ℕ
  least_key p [] = none
  least_key p ((j, a) ∷ rows) = let rest = least_key p rows in if p a then lesser j rest else rest

  pub count-le :
      (p q : A → Bool) (rows : Table A)
      → ((a : A) → p a ≡ true → q a ≡ true)
      → count p rows ≤ count q rows
  count-le p q [] h = omega arith
  count-le p q ((j, a) ∷ rows) h = ground (arith, h a, count-le p q rows h)

  pub get-update :
      (j k : ℕ) (f : A → A) (rows : Table A)
      → get j (update k f rows)
        ≡ (if k == j then elim (get j rows) [ none ↦ none | some a ↦ some (f a) ] else get j rows)
  get-update j k f [] = ground arith
  get-update j k f ((i, a) ∷ rows) = ground (arith, get-update j k f rows)

  pub get-update_ne :
      (j k : ℕ) (f : A → A) (rows : Table A)
      → (k == j) ≡ false
      → get j (update k f rows) ≡ get j rows
  get-update_ne j k f rows h = ground (arith, h, get-update j k f rows)

  pub get-update_self :
      (k : ℕ) (f : A → A) (rows : Table A) {a : A}
      → get k rows ≡ some a
      → get k (update k f rows) ≡ some (f a)
  get-update_self k f rows h = ground (arith, h, get-update k k f rows)

  module _ (p : A → Bool) (k : ℕ) (f : A → A) where
    -- An update that makes no row pass does not raise the count.
    pub count-update-le :
        (rows : Table A)
        → ((a : A) → p (f a) ≡ true → p a ≡ true)
        → count p (update k f rows) ≤ count p rows
    count-update-le [] h = omega arith
    count-update-le ((j, a) ∷ rows) h = ground (arith, h a, count-update-le rows h)

    pub count-update :
        (rows : Table A) → ((a : A) → p (f a) ≡ p a) → count p (update k f rows) ≡ count p rows
    count-update [] h = refl
    count-update ((j, a) ∷ rows) h = ground (arith, h a, count-update rows h)

    -- An update that fails the rows it reaches lowers the count where the row that it names passed.
    pub count-update-lt :
        (rows : Table A) {a : A}
        → get k rows ≡ some a
        → p a ≡ true
        → ((b : A) → p (f b) ≡ false)
        → count p (update k f rows) < count p rows
    count-update-lt [] e h n = ground (arith, e)
    count-update-lt ((j, b) ∷ rows) {a} e h n = elim (Bool-cases (j == k)) [
      | inl q ↦
          let same = ap (λ o. or_else o b) (rw q at e) in
          rw (q, n b, subst (λ x. p x ≡ true) (sym same) h)
            (omega (arith, count-update-le rows (λ c x. ground (arith, n c, x))))
      | inr q ↦ let rest = count-update-lt rows (rw q at e) h n in rw q (ground (arith, rest))
    ]
