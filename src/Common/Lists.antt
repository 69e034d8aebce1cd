-- ===== src/Common/Lists.antt =====
-- Lists measured by native numbers, under the library's names, and predicates by recursion.
use Prim.Native.Nat.{ℕ, zero, suc, ◌+◌, ◌≤◌, ◌<◌, min}
use mathlib.Core.Path.{◌≡◌, refl, ap}
use mathlib.Core.Bool.{Bool, true, false, ◌||◌}
use mathlib.Core.List.{List, [], ◌∷◌, ◌++◌, map}
use native.Mathlib.Omega.{arith}
use scientific_protocol.Common.Tests.{if◌then◌else◌, Bool-cases}
use mathlib.Core.Logic.{◌⊎◌, inl, inr}

module _ {ℓ} {A : Type ℓ} where
  abbrev pub length : List A → ℕ
  length [] = 0
  length (x ∷ xs) = suc (length xs)

  abbrev pub take : ℕ → List A → List A
  take zero xs = []
  take (suc n) [] = []
  take (suc n) (x ∷ xs) = x ∷ take n xs

  abbrev pub drop : ℕ → List A → List A
  drop zero xs = xs
  drop (suc n) [] = []
  drop (suc n) (x ∷ xs) = drop n xs

  -- `xs.filter(p)`
  abbrev pub filter : (A → Bool) → List A → List A
  filter p [] = []
  filter p (x ∷ xs) = let rest = filter p xs in if p x then x ∷ rest else rest

  -- `xs.some(p)`
  abbrev pub any : (A → Bool) → List A → Bool
  any p [] = false
  any p (x ∷ xs) = p x || any p xs

  abbrev pub All {κ} : (A → Type κ) → List A → Type κ
  All P [] = Unit
  All P (x ∷ xs) = P x × All P xs

  -- Some element meets the predicate, and which one.
  abbrev pub Some : (A → Type 0) → List A → Type 0
  Some P [] = ⊥
  Some P (x ∷ xs) = P x ⊎ Some P xs

  pub take_all : (n : ℕ) (xs : List A) → length xs ≤ n → take n xs ≡ xs
  take_all zero [] h = refl
  take_all zero (x ∷ xs) h = elim h [ ]
  take_all (suc n) [] h = refl
  take_all (suc n) (x ∷ xs) h = rw (take_all n xs (omega arith))

  pub length-append : (xs ys : List A) → length (xs ++ ys) ≡ length xs + length ys
  length-append [] ys = omega arith
  length-append (x ∷ xs) ys = omega (arith, length-append xs ys)

  pub length-take : (n : ℕ) (xs : List A) → length (take n xs) ≡ min n (length xs)
  length-take zero xs = omega arith
  length-take (suc n) [] = omega arith
  length-take (suc n) (x ∷ xs) = omega (arith, length-take n xs)

  pub length-filter-le : (p : A → Bool) (xs : List A) → length (filter p xs) ≤ length xs
  length-filter-le p [] = omega arith
  length-filter-le p (x ∷ xs) = ground (arith, length-filter-le p xs)

module _ {ℓ} {A : Type ℓ} where
  -- Where a filter keeps nothing, no element passes its test, nor a narrower one.
  pub any-filter_none :
      (p q : A → Bool) (xs : List A)
      → ((a : A) → q a ≡ true → p a ≡ true)
      → length (filter p xs) ≡ 0
      → any q xs ≡ false
  any-filter_none p q [] f h = refl
  any-filter_none p q (x ∷ xs) f h = elim (Bool-cases (p x)) [
    | inl e ↦ ground (arith, h, e)
    | inr e ↦ ground (arith, h, e, f x, any-filter_none p q xs f)
  ]

  -- Where an element passes a test, a filter by a wider test, of its image, keeps something.
  pub any-filter-map {κ} :
      {B : Type κ} (q : A → Bool) (p : B → Bool) (f : A → B) (xs : List A)
      → ((a : A) → q a ≡ true → p (f a) ≡ true)
      → any q xs ≡ true
      → 0 < length (filter p (map f xs))
  any-filter-map q p f [] g h = ground (arith, h)
  any-filter-map q p f (x ∷ xs) g h = ground (arith, h, g x, any-filter-map q p f xs g)

pub length-map {ℓ κ} :
    {A : Type ℓ} {B : Type κ} (f : A → B) (xs : List A) → length (map f xs) ≡ length xs
length-map f [] = refl
length-map f (x ∷ xs) = ap suc (length-map f xs)

module _ {ℓ κ} {A : Type ℓ} (P : A → Type κ) where
  pub All-take : (n : ℕ) (xs : List A) → All P xs → All P (take n xs)
  All-take zero xs h = tt
  All-take (suc n) [] h = tt
  All-take (suc n) (x ∷ xs) h = (h.0, All-take n xs h.1)

  -- The rows that a filter keeps pass its test.
  pub All-filter : (p : A → Bool) (xs : List A) → ((a : A) → p a ≡ true → P a) → All P (filter p xs)
  All-filter p [] h = tt
  All-filter p (x ∷ xs) h = elim (Bool-cases (p x)) [
    | inl e ↦ rw e (h x e, All-filter p xs h)
    | inr e ↦ rw e (All-filter p xs h)
  ]

  pub All-mono {μ} : (Q : A → Type μ) (xs : List A) → ((a : A) → P a → Q a) → All P xs → All Q xs
  All-mono Q [] f h = tt
  All-mono Q (x ∷ xs) f h = (f x h.0, All-mono Q xs f h.1)

pub All-map {ℓ κ μ} :
    {A : Type ℓ} {B : Type κ} (P : B → Type μ) (f : A → B) (xs : List A)
    → All (λ a. P (f a)) xs
    → All P (map f xs)
All-map P f [] h = tt
All-map P f (x ∷ xs) h = (h.0, All-map P f xs h.1)

module _ {ℓ} {A : Type ℓ} (P : A → Type 0) where
  pub Some-filter :
      (p : A → Bool) (xs : List A) → Some (λ a. P a × (p a ≡ true)) xs → Some P (filter p xs)
  Some-filter p [] h = h
  Some-filter p (x ∷ xs) (inl (h, e)) = rw e (inl h)
  Some-filter p (x ∷ xs) (inr h) = elim (Bool-cases (p x)) [
    | inl e ↦ rw e (inr (Some-filter p xs h))
    | inr e ↦ rw e (Some-filter p xs h)
  ]

  pub Some-mono : (Q : A → Type 0) (xs : List A) → ((a : A) → P a → Q a) → Some P xs → Some Q xs
  Some-mono Q [] f h = h
  Some-mono Q (x ∷ xs) f (inl h) = inl (f x h)
  Some-mono Q (x ∷ xs) f (inr h) = inr (Some-mono Q xs f h)

  -- What holds of all and of some holds of one element at once.
  pub All-Some :
      {Q R : A → Type 0} (xs : List A)
      → ((a : A) → P a → Q a → R a)
      → All P xs
      → Some Q xs
      → Some R xs
  All-Some [] f h k = k
  All-Some (x ∷ xs) f h (inl q) = inl (f x h.0 q)
  All-Some (x ∷ xs) f h (inr k) = inr (All-Some xs f h.1 k)

pub Some-map {ℓ κ} :
    {A : Type ℓ} {B : Type κ} (P : B → Type 0) (f : A → B) (xs : List A)
    → Some (λ a. P (f a)) xs
    → Some P (map f xs)
Some-map P f [] h = h
Some-map P f (x ∷ xs) (inl h) = inl h
Some-map P f (x ∷ xs) (inr h) = inr (Some-map P f xs h)
