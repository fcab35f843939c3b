-- ===== src/Limiter/Retry.antt =====
-- The wait that a refused caller is told.
use lacs.Prelude.{
  ℕ, ◌+◌, ◌-◌, ◌≤◌, ◌<◌, ◌≡◌, ◌⊎◌, refl, sym, ◌∙◌, Bool, true, Option, List, [], ◌∷◌, arith, leb,
  length, All,
}
use lacs.Limiter.{
  ok, err, lines, parse_lines, or_empty, in_window, oldest_or, retry_after, min, check_and_consume,
  window_secs, u64_modulus,
}
use lacs.Limiter.Window.{in_window-in_window}

-- The calls in the window of a call at `now`.
unfoldable pub recent_at : ℕ → Option (List ℕ) → List ℕ
unfolding in_window
recent_at now file = in_window (now - window_secs) (parse_lines (lines (or_empty file)))

Refused-full :
    (m now r : ℕ) (persists : Bool) (file after : Option (List ℕ))
    → check_and_consume m now persists file ≡ (err r, after)
    → (leb m (length (recent_at now file)) ≡ true)
      × (r ≡ retry_after now (recent_at now file))
      × (after ≡ file)
unfolding check_and_consume recent_at
Refused-full m now r persists file after h = ground arith

oldest_ge : (w : ℕ) (xs : List ℕ) → All (λ t. w ≤ t) xs → w ≤ oldest_or w xs
unfolding oldest_or
oldest_ge w [] h = omega arith
oldest_ge w (t ∷ []) h = h.0
oldest_ge w (t ∷ u ∷ ts) h = ground (arith, oldest_ge w (u ∷ ts) h.1)

All-mono : (v w : ℕ) (xs : List ℕ) → v ≤ w → All (λ t. w ≤ t) xs → All (λ t. v ≤ t) xs
All-mono v w [] e h = h
All-mono v w (t ∷ ts) e h = (omega (arith, h.0), All-mono v w ts e h.1)

oldest_le : (d : ℕ) (xs : List ℕ) → All (λ t. oldest_or d xs ≤ t) xs
unfolding oldest_or
oldest_le d [] = _
oldest_le d (t ∷ []) = (omega arith, _)
oldest_le d (t ∷ u ∷ ts) = (
  ground arith,
  All-mono (min t (oldest_or d (u ∷ ts))) (oldest_or d (u ∷ ts)) (u ∷ ts) (ground arith)
      (oldest_le d (u ∷ ts)),
)

in_window-All : (w : ℕ) (xs : List ℕ) → All (λ t. w ≤ t) (in_window w xs)
unfolding in_window
in_window-All w [] = _
in_window-All w (t ∷ ts) = ground (arith, in_window-All w ts)

All-in_window : (w : ℕ) (xs : List ℕ) → All (λ t. w ≤ t) xs → in_window w xs ≡ xs
unfolding in_window
All-in_window w [] h = refl
All-in_window w (t ∷ ts) h = ground (arith, All-in_window w ts h.1, h.0)

in_window-le : (w : ℕ) (xs : List ℕ) → length (in_window w xs) ≤ length xs
unfolding in_window
in_window-le w [] = omega arith
in_window-le w (t ∷ ts) = ground (arith, in_window-le w ts)

-- A window that starts after the oldest call has lost one.
in_window-lt :
    (d w : ℕ) (xs : List ℕ)
    → 1 ≤ length xs
    → oldest_or d xs < w
    → length (in_window w xs) < length xs
unfolding in_window oldest_or
in_window-lt d w [] n h = ground arith
in_window-lt d w (t ∷ []) n h = ground arith
in_window-lt d w (t ∷ u ∷ ts) n h =
    ground (arith, in_window-lt d w (u ∷ ts), in_window-le w (u ∷ ts))

-- The oldest call in the window of a call at `now`, which is the start of the window if there is none.
unfoldable pub oldest_at : ℕ → Option (List ℕ) → ℕ
unfolding recent_at oldest_or
oldest_at now file = oldest_or (now - window_secs) (recent_at now file)

recent_at-later :
    (now later : ℕ) (file : Option (List ℕ))
    → now ≤ later
    → recent_at later file ≡ in_window (later - window_secs) (recent_at now file)
unfolding recent_at
recent_at-later now later file h = sym (
    in_window-in_window (later - window_secs) (now - window_secs)
      (parse_lines (lines (or_empty file))) (omega arith))

-- As long as the oldest call is in the window, a full window stays full.
recent_at-same :
    (now later : ℕ) (file : Option (List ℕ))
    → now ≤ later
    → later ≤ oldest_at now file + window_secs
    → recent_at later file ≡ recent_at now file
unfolding oldest_at
recent_at-same now later file h k =
    recent_at-later now later file h
    ∙ All-in_window (later - window_secs) (recent_at now file) (
        All-mono (later - window_secs) (oldest_or (now - window_secs) (recent_at now file))
          (recent_at now file) (omega arith) (oldest_le (now - window_secs) (recent_at now file)))

refused_of_full :
    (m now : ℕ) (persists : Bool) (file : Option (List ℕ))
    → leb m (length (recent_at now file)) ≡ true
    → check_and_consume m now persists file ≡ (err (retry_after now (recent_at now file)), file)
unfolding check_and_consume recent_at
refused_of_full m now persists file h = rw h refl

admitted_of_room :
    (m now : ℕ) (persists : Bool) (file : Option (List ℕ))
    → length (recent_at now file) < m
    → (check_and_consume m now persists file).0 ≡ ok
unfolding check_and_consume recent_at
admitted_of_room m now persists file h = ground arith

recent_at-All :
    (now : ℕ) (file : Option (List ℕ)) → All (λ t. now - window_secs ≤ t) (recent_at now file)
unfolding recent_at
recent_at-All now file = in_window-All (now - window_secs) (parse_lines (lines (or_empty file)))

-- What a wait that was told says of the oldest call.
retry_after_cases :
    (now : ℕ) (file : Option (List ℕ))
    → oldest_at now file + window_secs < u64_modulus
    → (now ≤ oldest_at now file + window_secs)
      × (oldest_at now file + window_secs ≤ now + retry_after now (recent_at now file))
      × (1 ≤ retry_after now (recent_at now file))
      × ((retry_after now (recent_at now file) ≡ 1)
          ⊎ (now + retry_after now (recent_at now file) ≤ oldest_at now file + window_secs))
unfolding retry_after oldest_at
retry_after_cases now file h =
    let k : now - window_secs ≤ oldest_or (now - window_secs) (recent_at now file) =
      oldest_ge (now - window_secs) (recent_at now file) (recent_at-All now file) in
    ground arith

refused_through :
    (m now later : ℕ) (persists : Bool) (file : Option (List ℕ))
    → leb m (length (recent_at now file)) ≡ true
    → now ≤ later
    → later ≤ oldest_at now file + window_secs
    → (r : ℕ) × (check_and_consume m later persists file ≡ (err r, file))
refused_through m now later persists file full h k = (
  retry_after later (recent_at later file),
  refused_of_full m later persists file (rw (recent_at-same now later file h k) full),
)

-- A caller that is refused and told to wait `r` seconds is refused again, by the file as it is, at
-- every time before they have passed and, where `r` is not 1, also when exactly `r` seconds have
-- passed. (The oldest call of the window and a minute fit in a `u64`.)
pub refused_until_told :
    (m now r later : ℕ) (persists again : Bool) (file after : Option (List ℕ))
    → oldest_at now file + window_secs < u64_modulus
    → check_and_consume m now persists file ≡ (err r, after)
    → now ≤ later
    → (later < now + r) ⊎ ((later ≡ now + r) × (2 ≤ r))
    → (again_r : ℕ) × (check_and_consume m later again after ≡ (err again_r, after))
refused_until_told m now r later persists again file after fits h k early =
    let (full, told, same) = Refused-full m now r persists file after h in
    let (cur, reach, one, rest) = retry_after_cases now file fits in
    rw same (refused_through m now later again file full k (ground arith))

-- A caller whose call was refused by a window that was exactly full, and that comes back one second
-- after the wait that it was told, is let through. (The oldest call of the window and a minute fit
-- in a `u64`.)
pub admitted_after_told :
    (m now r : ℕ) (persists again : Bool) (file after : Option (List ℕ))
    → 1 ≤ m
    → oldest_at now file + window_secs < u64_modulus
    → length (recent_at now file) ≡ m
    → check_and_consume m now persists file ≡ (err r, after)
    → (check_and_consume m (now + r + 1) again after).0 ≡ ok
unfolding oldest_at
admitted_after_told m now r persists again file after pos fits exact h =
    let (full, told, same) = Refused-full m now r persists file after h in
    let (cur, reach, one, rest) = retry_after_cases now file fits in
    rw same (
      admitted_of_room m (now + r + 1) again file (
        rw (recent_at-later now (now + r + 1) file (omega arith)) (
          omega (
            arith,
            in_window-lt (now - window_secs) (now + r + 1 - window_secs) (recent_at now file)
                (omega arith) (omega arith),
            exact,
          ))))
