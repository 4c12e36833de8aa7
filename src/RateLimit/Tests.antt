-- ===== src/RateLimit/Tests.antt =====
-- The sliding window at concrete inputs, on sorted sets as a function from keys to scores.
use vault_core.Prelude.{ltb, ◌==◌, if◌then◌else◌, ℕ, ◌≤◌, ◌≡◌, refl, false, List, [], ◌∷◌, arith}
use vault_core.RateLimit.Window.{
  insert_score, keep_above, SortedSets, remove_expired, sliding_window,
}
use vault_core.RateLimit.Bound.{in_window, run, sliding_window_is_exact}

abbrev put : ℕ → List ℕ → (ℕ → List ℕ) → ℕ → List ℕ
put k v f j = if k == j then v else f j

abbrev memory_sets : SortedSets
memory_sets = record {
  State = ℕ → List ℕ;
  scores = λ s k. s k;
  zremrangebyscore = λ s k bound. put k (keep_above bound (s k)) s;
  zadd = λ s k t. put k (insert_score t (s k)) s;
  del = λ s k. put k [] s;
  scores-zremrangebyscore = λ s k bound j. refl;
  scores-zadd = λ s k t j. refl;
  scores-del = λ s k j. refl;
}

abbrev empty_sets : ℕ → List ℕ
empty_sets k = []

-- Two requests per second: the third within the second is refused, the fourth is not.
run_test :
    (run memory_sets 8 1000 2 (2100 ∷ 1900 ∷ 1200 ∷ 1000 ∷ []) empty_sets).0
    ≡ 2100 ∷ 1200 ∷ 1000 ∷ []
unfolding sliding_window remove_expired insert_score keep_above
run_test = refl

refused_test :
    (sliding_window memory_sets 8 1000 2 1900
      (run memory_sets 8 1000 2 (1200 ∷ 1000 ∷ []) empty_sets).1).0
    ≡ record { allowed = false; remaining = 0; reset_time = 2; retry_after = 1 }
unfolding sliding_window remove_expired insert_score keep_above
refused_test = refl

sliding_window_is_exact_example :
    ((sliding_window memory_sets 8 1000 2 1900
        (run memory_sets 8 1000 2 (1200 ∷ 1000 ∷ []) empty_sets).1).0.allowed
      ≡ ltb (in_window 1000 1900 (run memory_sets 8 1000 2 (1200 ∷ 1000 ∷ []) empty_sets).0) 2)
    × (in_window 1000 1900 (run memory_sets 8 1000 2 (1900 ∷ 1200 ∷ 1000 ∷ []) empty_sets).0 ≤ 2)
sliding_window_is_exact_example =
    sliding_window_is_exact memory_sets 8 1000 2 1900 (1200 ∷ 1000 ∷ []) empty_sets refl
      (omega arith, (omega arith, (omega arith, tt)))
