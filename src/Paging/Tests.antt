-- ===== src/Paging/Tests.antt =====
-- A query over a list of rows, and the theorems at concrete rows.
use vault_core.Prelude.{ℕ, ◌≡◌, refl, false, Option, none, some, List, [], ◌∷◌}
use vault_core.Paging.{take, behind, Query, pop, page_of, get_page}
use vault_core.Paging.Pages.{holds, cursor_row_is_lost}

abbrev find_in : List (ℕ × ℕ) → Option ℕ → ℕ → List (ℕ × ℕ)
find_in rows none n = take n rows
find_in rows (some c) n = take n (behind c rows)

abbrev over : List (ℕ × ℕ) → Query ℕ
over rows = record {
  matching = rows;
  find_many = find_in rows;
  find_many_first = λ n. refl;
  find_many_behind = λ c n. refl;
}

abbrev five : List (ℕ × ℕ)
five = (9, 50) ∷ (8, 40) ∷ (7, 30) ∷ (6, 20) ∷ (5, 10) ∷ []

-- Of five rows, pages of two show the ids 9, 8, then 6, 5.
second_page :
    get_page (over five) (some 7) 2
    ≡ record { items = (6, 20) ∷ (5, 10) ∷ []; has_more = false; next_cursor = none }
unfolding get_page page_of pop behind
second_page = refl

cursor_row_is_lost_example :
    ((get_page (over five) none 2).next_cursor ≡ some 7)
    × (holds 7 (get_page (over five) none 2).items ≡ false)
    × (holds 7 (get_page (over five) (some 7) 2).items ≡ false)
unfolding holds
cursor_row_is_lost_example =
    cursor_row_is_lost (over five) ((9, 50) ∷ (8, 40) ∷ []) ((6, 20) ∷ (5, 10) ∷ []) 7 2 30 refl
      refl refl
