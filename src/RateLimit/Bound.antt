-- ===== src/RateLimit/Bound.antt =====
-- The window against an abstract log of the accepted times.
use vault_core.Prelude.{
  ltb, leb, if◌then◌else◌, Bool-cases, length, ℕ, ◌+◌, ◌-◌, ◌≤◌, ◌<◌, ◌≡◌, refl, sym, ap, ◌∙◌, inl,
  inr, Bool, true, false, List, [], ◌∷◌, arith,
}
use vault_core.RateLimit.Window.{
  insert_score, keep_above, SortedSets, Answer, remove_expired, sliding_window,
}

-- How many of these times are in the window that ends at `now`.
unfoldable pub in_window : ℕ → ℕ → List ℕ → ℕ
in_window window now [] = 0
in_window window now (t ∷ ts) = (if ltb now (t + window) then 1 else 0) + in_window window now ts

in_window-insert_score :
    (window now t : ℕ) (xs : List ℕ)
    → in_window window now (insert_score t xs)
      ≡ (if ltb now (t + window) then 1 else 0) + in_window window now xs
unfolding in_window insert_score
in_window-insert_score window now t [] = refl
in_window-insert_score window now t (x ∷ xs) =
    ground (arith, in_window-insert_score window now t xs)

in_window-keep_above :
    (window now later : ℕ) (xs : List ℕ)
    → window ≤ now
    → now ≤ later
    → in_window window later (keep_above (now - window) xs) ≡ in_window window later xs
unfolding in_window keep_above
in_window-keep_above window now later [] h k = refl
in_window-keep_above window now later (x ∷ xs) h k =
    ground (arith, in_window-keep_above window now later xs h k)

length-keep_above :
    (window now : ℕ) (xs : List ℕ)
    → window ≤ now
    → length (keep_above (now - window) xs) ≡ in_window window now xs
unfolding in_window keep_above
length-keep_above window now [] h = refl
length-keep_above window now (x ∷ xs) h = ground (arith, length-keep_above window now xs h)

-- Before the first window has passed, all are in it.
in_window-length :
    (window now : ℕ) (xs : List ℕ) → now < window → in_window window now xs ≡ length xs
unfolding in_window
in_window-length window now [] h = refl
in_window-length window now (x ∷ xs) h = ground (arith, in_window-length window now xs h)

in_window_mono :
    (window now later : ℕ) (xs : List ℕ)
    → now ≤ later
    → in_window window later xs ≤ in_window window now xs
unfolding in_window
in_window_mono window now later [] h = omega arith
in_window_mono window now later (x ∷ xs) h = ground (arith, in_window_mono window now later xs h)

module _ (Z : SortedSets) (key window limit : ℕ) where
  -- The set has what the log has, as far as windows that end at `now` or later see it.
  abbrev Tracks : ℕ → Z.State → List ℕ → Type 0
  Tracks now s log =
      (later : ℕ)
      → now ≤ later
      → in_window window later (Z.scores s key) ≡ in_window window later log

  remove_expired-Tracks :
      (now later : ℕ) (s : Z.State) (log : List ℕ)
      → now ≤ later
      → Tracks now s log
      → Tracks later (remove_expired Z key window later s) log
  unfolding remove_expired
  remove_expired-Tracks now later s log h k end le = elim (Bool-cases (leb window later)) [
    | inl x ↦
        let above : window ≤ later = ground arith in
        let same = Z.scores-zremrangebyscore s key (later - window) key in
        rw x (
          ap (in_window window end) (same ∙ ground arith)
          ∙ in_window-keep_above window later end (Z.scores s key) above le
          ∙ k end (omega arith))
    | inr x ↦ rw x (k end (omega arith))
  ]

  length-remove_expired :
      (now later : ℕ) (s : Z.State) (log : List ℕ)
      → now ≤ later
      → Tracks now s log
      → length (Z.scores (remove_expired Z key window later s) key) ≡ in_window window later log
  unfolding remove_expired
  length-remove_expired now later s log h k = elim (Bool-cases (leb window later)) [
    | inl x ↦
        let above : window ≤ later = ground arith in
        let same = Z.scores-zremrangebyscore s key (later - window) key in
        rw x (
          ap length (same ∙ ground arith)
          ∙ length-keep_above window later (Z.scores s key) above
          ∙ k later h)
    | inr x ↦
        let below : later < window = ground arith in
        rw x (sym (in_window-length window later (Z.scores s key) below) ∙ k later h)
  ]

  zadd-Tracks :
      (now t : ℕ) (s : Z.State) (log : List ℕ)
      → Tracks now s log
      → Tracks now (Z.zadd s key t) (t ∷ log)
  unfolding in_window
  zadd-Tracks now t s log k end le =
      let same = Z.scores-zadd s key t key in
      ap (in_window window end) (same ∙ ground arith)
      ∙ in_window-insert_score window end t (Z.scores s key)
      ∙ rw (k end le) refl

  abbrev log_if : Bool → ℕ → List ℕ → List ℕ
  log_if true now log = now ∷ log
  log_if false now log = log

  -- One check against the log.
  record Checked (now : ℕ) (log : List ℕ) (q : Answer × Z.State) : Type 0 where
    exact : q.0.allowed ≡ ltb (in_window window now log) limit
    tracks : Tracks now q.1 (log_if q.0.allowed now log)
    bound : in_window window now (log_if q.0.allowed now log) ≤ limit

  sliding_window-Checked :
      (now later : ℕ) (s : Z.State) (log : List ℕ)
      → now ≤ later
      → Tracks now s log
      → in_window window now log ≤ limit
      → Checked later log (sliding_window Z key window limit later s)
  unfolding sliding_window in_window
  sliding_window-Checked now later s log h k b =
      let s' = remove_expired Z key window later s in
      let count = length-remove_expired now later s log h k in
      let kept = remove_expired-Tracks now later s log h k in
      let less = in_window_mono window now later log h in
      elim (Bool-cases (ltb (length (Z.scores s' key)) limit)) [
        | inl x ↦
            rw (x, sliding_window)
              (record {
                exact = sym (ap (λ n. ltb n limit) (sym count) ∙ x);
                tracks = zadd-Tracks later later s' log kept;
                bound = ground (arith, count, x);
              })
        | inr x ↦
            rw (x, sliding_window)
              (record {
                exact = sym (ap (λ n. ltb n limit) (sym count) ∙ x);
                tracks = kept;
                bound = omega (arith, less, b);
              })
      ]

  -- The checks of one key at these times, the newest first, and the times that were allowed.
  abbrev pub run : List ℕ → Z.State → List ℕ × Z.State
  run [] s = ([], s)
  run (now ∷ earlier) s =
      let (log, s') = run earlier s in
      let (answer, s'') = sliding_window Z key window limit now s' in
      (log_if answer.allowed now log, s'')

  abbrev latest : List ℕ → ℕ
  latest [] = 0
  latest (t ∷ ts) = t

  abbrev pub IsChronological : List ℕ → Type 0
  IsChronological [] = Unit
  IsChronological (t ∷ ts) = (latest ts ≤ t) × IsChronological ts

  run-Tracks :
      (times : List ℕ) (s : Z.State)
      → Z.scores s key ≡ []
      → IsChronological times
      → Tracks (latest times) (run times s).1 (run times s).0
        × (in_window window (latest times) (run times s).0 ≤ limit)
  unfolding in_window
  run-Tracks [] s e c = ((λ end le. rw e refl), omega arith)
  run-Tracks (now ∷ earlier) s e (le, c) =
      let (k, b) = run-Tracks earlier s e c in
      let done =
        sliding_window-Checked (latest earlier) now (run earlier s).1 (run earlier s).0 le k b in
      (done.tracks, done.bound)

  -- The sorted set is the log of the accepted requests as the window sees it: at times that do not go
  -- back, from an empty set, a check is allowed exactly where fewer than the limit were accepted in the
  -- window that ends now, and after it the window has at most the limit.
  pub sliding_window_is_exact :
      (now : ℕ) (earlier : List ℕ) (s : Z.State)
      → Z.scores s key ≡ []
      → IsChronological (now ∷ earlier)
      → ((sliding_window Z key window limit now (run earlier s).1).0.allowed
          ≡ ltb (in_window window now (run earlier s).0) limit)
        × (in_window window now (run (now ∷ earlier) s).0 ≤ limit)
  sliding_window_is_exact now earlier s e (le, c) =
      let (k, b) = run-Tracks earlier s e c in
      let done =
        sliding_window-Checked (latest earlier) now (run earlier s).1 (run earlier s).0 le k b in
      (done.exact, done.bound)
