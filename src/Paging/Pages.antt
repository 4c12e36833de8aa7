-- ===== src/Paging/Pages.antt =====
-- The first page, and the page that its cursor leads to.
use vault_core.Prelude.{
  ◌==◌, length, length-append, ℕ, zero, suc, ◌+◌, ◌≤◌, ◌≡◌, refl, ap, Bool, true, false, ◌||◌, none,
  some, List, [], ◌∷◌, ◌++◌, arith,
}
use vault_core.Paging.{take, behind, Query, Page, pop, page_of, get_page}

module _ {A : Type 0} where
  -- Is there a row with the id `k`?
  unfoldable pub holds : ℕ → List (ℕ × A) → Bool
  holds k [] = false
  holds k ((j, x) ∷ r) = k == j || holds k r

  pop-append : (xs : List (ℕ × A)) (x : ℕ × A) → pop (xs ++ x ∷ []) ≡ (xs, some x)
  unfolding pop
  pop-append [] x = refl
  pop-append (y ∷ []) x = refl
  pop-append (y ∷ z ∷ ys) x = rw (pop-append (z ∷ ys) x)

  take-append :
      (xs : List (ℕ × A)) (x : ℕ × A) (ys : List (ℕ × A))
      → take (length xs + 1) (xs ++ x ∷ ys) ≡ xs ++ x ∷ []
  take-append [] x ys = refl
  take-append (z ∷ xs) x ys =
      let e : suc (length xs) + 1 ≡ suc (length xs + 1) = omega arith in
      rw e (rw (take-append xs x ys))

  take_all : (n : ℕ) (xs : List (ℕ × A)) → length xs ≤ n → take n xs ≡ xs
  take_all zero [] h = refl
  take_all zero (x ∷ xs) h = absurd (omega arith)
  take_all (suc n) [] h = refl
  take_all (suc n) (x ∷ xs) h = rw (take_all n xs (omega arith))

  behind-append :
      (xs : List (ℕ × A)) (k : ℕ) (a : A) (ys : List (ℕ × A))
      → holds k xs ≡ false
      → behind k (xs ++ (k, a) ∷ ys) ≡ ys
  unfolding behind holds
  behind-append [] k a ys h = ground arith
  behind-append ((j, x) ∷ xs) k a ys h = ground (arith, behind-append xs k a ys)

  holds-take : (k n : ℕ) (xs : List (ℕ × A)) → holds k xs ≡ false → holds k (take n xs) ≡ false
  unfolding holds
  holds-take k zero xs h = refl
  holds-take k (suc n) [] h = refl
  holds-take k (suc n) ((j, x) ∷ xs) h = ground (arith, holds-take k n xs)

  holds-pop : (k : ℕ) (xs : List (ℕ × A)) → holds k xs ≡ false → holds k (pop xs).0 ≡ false
  unfolding holds pop
  holds-pop k [] h = refl
  holds-pop k ((j, x) ∷ []) h = refl
  holds-pop k ((j, x) ∷ y ∷ ys) h = ground (arith, holds-pop k (y ∷ ys))

  holds-page_of :
      (k limit : ℕ) (xs : List (ℕ × A))
      → holds k xs ≡ false
      → holds k (page_of limit xs).items ≡ false
  unfolding page_of
  holds-page_of k limit xs h = ground (arith, holds-pop k xs h)

  -- Where all matching rows fit, the first page holds them all, in order, and says that there are no
  -- more.
  get_page_fits :
      (q : Query A) (limit : ℕ)
      → length q.matching ≤ limit
      → get_page q none limit ≡ record { items = q.matching; has_more = false; next_cursor = none }
  unfolding get_page page_of
  get_page_fits q limit h =
      rw (q.find_many_first (limit + 1), take_all (limit + 1) q.matching (omega arith))
        (ground arith)

  -- Where more rows match, the first page holds the first `limit` of them, in order, says that there
  -- are more, and gives the id of the row behind them as the cursor.
  pub get_page_full :
      (q : Query A) (xs ys : List (ℕ × A)) (k : ℕ) (a : A)
      → q.matching ≡ xs ++ (k, a) ∷ ys
      → get_page q none (length xs) ≡ record { items = xs; has_more = true; next_cursor = some k }
  unfolding get_page page_of
  get_page_full q xs ys k a m =
      rw (q.find_many_first (length xs + 1), m, take-append xs (k, a) ys)
        (ground (arith, pop-append xs (k, a), length-append xs ((k, a) ∷ [])))

  -- The row whose id a full first page gives as its cursor is on neither that page nor the next one,
  -- whatever its size: the next page begins behind it.
  pub cursor_row_is_lost :
      (q : Query A) (xs ys : List (ℕ × A)) (k n : ℕ) (a : A)
      → q.matching ≡ xs ++ (k, a) ∷ ys
      → holds k xs ≡ false
      → holds k ys ≡ false
      → ((get_page q none (length xs)).next_cursor ≡ some k)
        × (holds k (get_page q none (length xs)).items ≡ false)
        × (holds k (get_page q (some k) n).items ≡ false)
  unfolding get_page
  cursor_row_is_lost q xs ys k n a m hx hy =
      let p = get_page_full q xs ys k a m in
      (
        ap (λ (g : Page A). g.next_cursor) p,
        rw (ap (λ (g : Page A). g.items) p) hx,
        holds-page_of k n _ (
            rw (q.find_many_behind k (n + 1), m, behind-append xs k a ys hx)
              (holds-take k (n + 1) ys hy)),
      )
