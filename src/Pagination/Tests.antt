-- ===== src/Pagination/Tests.antt =====
-- Reading of pages on a table of five rows.
use scientific_protocol.Common.{ℕ, some, none, List, [], ◌∷◌, ◌≡◌, refl}
use scientific_protocol.Pagination.{read_pages, read_all_pages}
use scientific_protocol.Pagination.Complete.{page_of, read_all_pages-page_of}

abbrev rows : List ℕ
rows = 3 ∷ 1 ∷ 4 ∷ 1 ∷ 5 ∷ []

-- Pages of two rows take three rounds, and two rounds do not suffice.
three_rounds :
    (read_all_pages (page_of rows) (some 2) 3 ≡ some rows)
    × (read_all_pages (page_of rows) (some 2) 2 ≡ none)
unfolding read_all_pages read_pages
three_rounds = (refl, refl)

read_all_pages-page_of_example : read_all_pages (page_of rows) (some 2) 6 ≡ some rows
read_all_pages-page_of_example = read_all_pages-page_of rows (some 2)
