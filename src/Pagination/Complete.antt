-- ===== src/Pagination/Complete.antt =====
-- Reading all pages of src/shared/pagination.ts from a table that does not change.
use scientific_protocol.Common.{
  ℕ, zero, suc, ◌+◌, ◌<◌, min, arith, Bool, true, false, ◌||◌, ◌≡◌, refl, sym, ap, ◌∙◌, Option,
  some, List, [], ◌∷◌, ◌++◌, length, take, drop, leb, ◌==◌, if-elim, length-append, length-take,
}
use scientific_protocol.Pagination.{
  NormalizedPagination, PageItems, page_size_of, read_pages, read_all_pages,
}

-- A store that holds the rows `all` in this order.
abbrev pub page_of : {A : Type 0} → List A → NormalizedPagination → PageItems A
page_of all p = record { items = take p.limit (drop p.offset all); total = length all }

none_left :
    (size done rest taken left all : ℕ)
    → 0 < size
    → taken ≡ min size rest
    → taken + left ≡ rest
    → done + rest ≡ all
    → (taken == 0 || leb all (done + taken)) ≡ true
    → left ≡ 0
none_left size done rest taken left all p t l a h = ground (arith, p, t, l, a, h)

fewer :
    (size rest taken left rounds : ℕ) (b : Bool)
    → 0 < size
    → (taken == 0 || b) ≡ false
    → taken + left ≡ rest
    → rest < suc rounds
    → left < rounds
fewer size rest taken left rounds b p on l h = ground (arith, on, l, h)

module _ {A : Type 0} where
  drop-append : (done rest : List A) → drop (length done) (done ++ rest) ≡ rest
  drop-append [] rest = refl
  drop-append (x ∷ done) rest = drop-append done rest

  take-append-drop : (n : ℕ) (xs : List A) → take n xs ++ drop n xs ≡ xs
  take-append-drop zero xs = refl
  take-append-drop (suc n) [] = refl
  take-append-drop (suc n) (x ∷ xs) = ap (λ ys. x ∷ ys) (take-append-drop n xs)

  append_assoc : (xs ys zs : List A) → (xs ++ ys) ++ zs ≡ xs ++ (ys ++ zs)
  append_assoc [] ys zs = refl
  append_assoc (x ∷ xs) ys zs = ap (λ l. x ∷ l) (append_assoc xs ys zs)

  append_nil : (xs ys : List A) → length ys ≡ 0 → xs ++ ys ≡ xs
  append_nil [] [] h = refl
  append_nil (x ∷ xs) [] h = ap (λ l. x ∷ l) (append_nil xs [] h)
  append_nil xs (y ∷ ys) h = ground (arith, h)

  parts_length : (n : ℕ) (xs : List A) → length (take n xs) + length (drop n xs) ≡ length xs
  parts_length n xs =
      sym (length-append (take n xs) (drop n xs)) ∙ ap length (take-append-drop n xs)

  -- The rows that are read and those that are left, before each round.
  rounds_suffice :
      (size rounds : ℕ) (all done rest : List A)
      → 0 < size
      → done ++ rest ≡ all
      → length rest < rounds
      → read_pages (page_of all) size rounds (length done) done ≡ some all
  unfolding read_pages
  rounds_suffice size zero all done rest p e h = ground (arith, h)
  rounds_suffice size (suc rounds) all done rest p e h =
      let dropped = ap (drop (length done)) (sym e) ∙ drop-append done rest in
      let whole =
        append_assoc done (take size rest) (drop size rest)
        ∙ ap (λ l. done ++ l) (take-append-drop size rest)
        ∙ e in
      let sizes = sym (length-append done rest) ∙ ap length e in
      rw dropped (
        if-elim (λ o. o ≡ some all)
          (length (take size rest) == 0 || leb (length all) (length done + length (take size rest)))
          (λ stop. ap some (
            sym (
              append_nil (done ++ take size rest) (drop size rest) (
                none_left size (length done) (length rest) _ _ (length all) p
                  (length-take size rest) (parts_length size rest) sizes stop))
            ∙ whole))
          λ on. rw (sym (length-append done (take size rest))) (
            rounds_suffice size rounds all (done ++ take size rest) (drop size rest) p whole (
              fewer size (length rest) (length (take size rest)) _ rounds _ p on
                (parts_length size rest) h)))

-- From a table that does not change, whatever the page size asked for, the loop ends within one round more than there
-- are rows, and returns all the rows in their order.
pub read_all_pages-page_of :
    {A : Type 0} (all : List A) (page_size : Option ℕ)
    → read_all_pages (page_of all) page_size (suc (length all)) ≡ some all
unfolding read_all_pages
read_all_pages-page_of all page_size =
    rounds_suffice (page_size_of page_size) (suc (length all)) all [] all (omega arith) refl
      (omega arith)
