-- ===== src/Pagination.antt =====
-- src/shared/pagination.ts. The store that pages are read from is a parameter.
use scientific_protocol.Common.{
  ℕ, zero, suc, ◌+◌, max, min, Bool, ◌||◌, Option, none, some, List, [], ◌++◌, or_else, length, leb,
  ◌==◌, if◌then◌else◌,
}
mod Complete
mod Tests

pub record NormalizedPagination : Type 0 where
  pub limit : ℕ
  pub offset : ℕ

pub record PageItems (A : Type 0) : Type 0 where
  pub items : List A
  pub total : ℕ

-- The numbers of a request are natural numbers, or missing.
pub normalize_pagination : (limit offset default_limit : Option ℕ) → NormalizedPagination
normalize_pagination limit offset default_limit = record {
  limit = max 1 (min 100 (or_else limit (or_else default_limit 20)));
  offset = or_else offset 0;
}

abbrev pub page_size_of : Option ℕ → ℕ
page_size_of page_size = max 1 (min 100 (or_else page_size 100))

module _ {A : Type 0} (read_page : NormalizedPagination → PageItems A) (page_size : ℕ) where
  -- The loop, in at most as many rounds as the first argument; `none` when these do not suffice.
  unfoldable pub read_pages : (rounds offset : ℕ) → List A → Option (List A)
  read_pages zero offset items = none
  read_pages (suc rounds) offset items =
      let page = read_page (record { limit = page_size; offset = offset }) in
      let count = length page.items in
      let later = read_pages rounds (offset + count) (items ++ page.items) in
      if count == 0 || leb page.total (offset + count) then some (items ++ page.items) else later

unfoldable pub read_all_pages :
    {A : Type 0} (read_page : NormalizedPagination → PageItems A) (page_size : Option ℕ)
    → ℕ
    → Option (List A)
read_all_pages read_page page_size rounds =
    read_pages read_page (page_size_of page_size) rounds 0 []
