-- ===== src/Limiter/Window.antt =====
-- The calls that are let through over time: the file that is compacted at every call against a log
-- that is never shortened, and the calls of any minute.
use lacs.Prelude.{
  ℕ, ◌+◌, ◌-◌, ◌≤◌, ◌<◌, ◌≡◌, refl, sym, ap, ◌∙◌, true, false, Bool-cases, inl, inr, Option, none,
  some, List, [], ◌∷◌, ◌++◌, arith, leb, ◌&&◌, length, append_assoc, append-nil, All-append,
  if◌then◌else◌,
}
use lacs.AuditChain.{to_string}
use lacs.Limiter.{
  Result, ok, err, lines, parse_lines, push_lines, or_empty, in_window, retry_after,
  check_and_consume, window_secs, u64_modulus,
}
use lacs.Limiter.File.{Fits, parse_lines-push_lines}

-- The answers to calls at the given times, with a file that can be written.
unfoldable pub serve : ℕ → Option (List ℕ) → List ℕ → List Result
serve max_per_minute file [] = []
serve max_per_minute file (now ∷ times) =
    let (r, after) = check_and_consume max_per_minute now true file in
    r ∷ serve max_per_minute after times

-- The same with a log of every call that was let through.
unfoldable pub log_serve : ℕ → List ℕ → List ℕ → List Result
unfolding in_window retry_after
log_serve max_per_minute log [] = []
log_serve max_per_minute log (now ∷ times) =
    let recent = in_window (now - window_secs) log in
    if leb max_per_minute (length recent)
    then err (retry_after now recent) ∷ log_serve max_per_minute log times
    else ok ∷ log_serve max_per_minute (log ++ now ∷ []) times

-- The times of the calls that were let through.
unfoldable pub admitted : List ℕ → List Result → List ℕ
admitted (t ∷ times) (ok ∷ rs) = t ∷ admitted times rs
admitted (t ∷ times) (err n ∷ rs) = admitted times rs
admitted _ _ = []

-- How many calls stand in the minute that starts at `w`.
unfoldable pub burst : ℕ → List ℕ → ℕ
burst w [] = 0
burst w (t ∷ ts) = if leb w t && leb t (w + window_secs) then 1 + burst w ts else burst w ts

-- A clock that does not go back, within a `u64`.
abbrev pub Ascending : ℕ → List ℕ → Type 0
Ascending last [] = Unit
Ascending last (t ∷ ts) = (last ≤ t) × (t < u64_modulus) × Ascending t ts

in_window-append :
    (w : ℕ) (xs ys : List ℕ) → in_window w (xs ++ ys) ≡ in_window w xs ++ in_window w ys
unfolding in_window
in_window-append w [] ys = refl
in_window-append w (x ∷ xs) ys = ground (arith, in_window-append w xs ys)

pub in_window-in_window :
    (w v : ℕ) (xs : List ℕ) → v ≤ w → in_window w (in_window v xs) ≡ in_window w xs
unfolding in_window
in_window-in_window w v [] h = refl
in_window-in_window w v (x ∷ xs) h = ground (arith, in_window-in_window w v xs)

in_window-Fits : (w : ℕ) (xs : List ℕ) → Fits xs → Fits (in_window w xs)
unfolding in_window
in_window-Fits w [] h = h
in_window-Fits w (x ∷ xs) h = ground (arith, in_window-Fits w xs)

push_lines-append : (xs ys : List ℕ) → push_lines (xs ++ ys) ≡ push_lines xs ++ push_lines ys
unfolding push_lines
push_lines-append [] ys = refl
push_lines-append (x ∷ xs) ys =
    ap (λ l. to_string x ++ 0x0a ∷ l) (push_lines-append xs ys)
    ∙ sym (append_assoc (to_string x) (0x0a ∷ push_lines xs) (push_lines ys))

-- The times in the file against the log, for calls from `last` on.
record Tracks (last : ℕ) (ts log : List ℕ) : Type 0 where
  fits : Fits ts
  same : (w : ℕ) → last - window_secs ≤ w → in_window w ts ≡ in_window w log

-- A call that is let through keeps the file in step with the log.
Tracks-admit :
    (last now : ℕ) (ts log : List ℕ)
    → Tracks last ts log
    → last ≤ now
    → now < u64_modulus
    → Tracks now (in_window (now - window_secs) ts ++ now ∷ []) (log ++ now ∷ [])
Tracks-admit last now ts log t later small = record {
  fits =
      All-append (λ t. t < u64_modulus) (in_window (now - window_secs) ts) (now ∷ [])
        (in_window-Fits (now - window_secs) ts t.fits) (small, _);
  same = λ w h.
      in_window-append w (in_window (now - window_secs) ts) (now ∷ [])
      ∙ ap (λ l. l ++ in_window w (now ∷ []))
          (in_window-in_window w (now - window_secs) ts h ∙ t.same w (omega arith))
      ∙ sym (in_window-append w log (now ∷ []));
}

Tracks-later :
    (last now : ℕ) (ts log : List ℕ) → Tracks last ts log → last ≤ now → Tracks now ts log
Tracks-later last now ts log t later = record {
  fits = t.fits;
  same = λ w h. t.same w (omega arith);
}

parse_lines-append :
    (ts : List ℕ) (now : ℕ)
    → Fits (ts ++ now ∷ [])
    → parse_lines (lines (push_lines ts ++ (to_string now ++ 0x0a ∷ []))) ≡ ts ++ now ∷ []
unfolding push_lines
parse_lines-append ts now h =
    ap (λ l. parse_lines (lines l)) (sym (push_lines-append ts (now ∷ [])))
    ∙ parse_lines-push_lines (ts ++ now ∷ []) h

serve-Tracks :
    (max_per_minute last : ℕ) (file : Option (List ℕ)) (ts log times : List ℕ)
    → parse_lines (lines (or_empty file)) ≡ ts
    → Tracks last ts log
    → Ascending last times
    → serve max_per_minute file times ≡ log_serve max_per_minute log times
unfolding serve log_serve check_and_consume
serve-Tracks m last file ts log [] e t h = refl
serve-Tracks m last file ts log (now ∷ times) e t (later, small, h) =
    let w = now - window_secs in
    let same : in_window w (parse_lines (lines (or_empty file))) ≡ in_window w log =
      rw e (t.same w (omega arith)) in
    elim (Bool-cases (leb m (length (in_window w log)))) [
      | inl full ↦
          rw (check_and_consume, same, full)
            (ap (λ rs. err (retry_after now (in_window w log)) ∷ rs)
              (serve-Tracks m now file ts log times e (Tracks-later last now ts log t later) h))
      | inr room ↦
          let t' = Tracks-admit last now ts log t later small in
          rw (check_and_consume, same, room)
            (ap (λ rs. ok ∷ rs)
              (serve-Tracks m now
                (some (push_lines (in_window w log) ++ (to_string now ++ 0x0a ∷ [])))
                (in_window w ts ++ now ∷ []) (log ++ now ∷ []) times
                (rw (← t.same w (omega arith)) (parse_lines-append (in_window w ts) now t'.fits)) t'
                h))
    ]

burst-append : (w : ℕ) (xs ys : List ℕ) → burst w (xs ++ ys) ≡ burst w xs + burst w ys
unfolding burst
burst-append w [] ys = omega arith
burst-append w (x ∷ xs) ys = ground (arith, burst-append w xs ys)

burst-in_window :
    (w now : ℕ) (xs : List ℕ)
    → now ≤ w + window_secs
    → burst w xs ≤ length (in_window (now - window_secs) xs)
unfolding burst in_window
burst-in_window w now [] h = omega arith
burst-in_window w now (x ∷ xs) h = ground (arith, burst-in_window w now xs)

burst-admit :
    (max_per_minute w now : ℕ) (log : List ℕ)
    → burst w log ≤ max_per_minute
    → leb max_per_minute (length (in_window (now - window_secs) log)) ≡ false
    → burst w (log ++ now ∷ []) ≤ max_per_minute
unfolding burst
burst-admit m w now log h room =
    rw (burst-append w log (now ∷ [])) (ground (arith, burst-in_window w now log))

log_serve_bounded :
    (max_per_minute w : ℕ) (log times : List ℕ)
    → burst w log ≤ max_per_minute
    → burst w (log ++ admitted times (log_serve max_per_minute log times)) ≤ max_per_minute
unfolding log_serve admitted
log_serve_bounded m w log [] h = rw (append-nil log) h
log_serve_bounded m w log (now ∷ times) h =
    let recent = in_window (now - window_secs) log in
    elim (Bool-cases (leb m (length recent))) [
      | inl full ↦ rw full (log_serve_bounded m w log times h)
      | inr room ↦
          rw
            (
              room,
              ← append_assoc log (now ∷ []) (admitted times (log_serve m (log ++ now ∷ []) times)),
            )
            (log_serve_bounded m w (log ++ now ∷ []) times (burst-admit m w now log h room))
    ]

-- Calls at times that do not go back, with a file that is absent at first and can be written, get
-- the answers that a log of all calls that were let through gives, which is never shortened.
pub serve-log_serve :
    (max_per_minute : ℕ) (times : List ℕ)
    → Ascending 0 times
    → serve max_per_minute none times ≡ log_serve max_per_minute [] times
unfolding or_empty lines parse_lines
serve-log_serve m times h =
    serve-Tracks m 0 none [] [] times refl (record { fits = _; same = λ w k. refl }) h

-- Of calls at times that do not go back, with a file that is absent at first and can be written, no
-- 60 seconds, wherever they start, hold more that are let through than the limit.
pub burst-serve_bounds :
    (max_per_minute w : ℕ) (times : List ℕ)
    → Ascending 0 times
    → burst w (admitted times (serve max_per_minute none times)) ≤ max_per_minute
unfolding burst
burst-serve_bounds m w times h =
    rw (serve-log_serve m times h) (log_serve_bounded m w [] times (omega arith))
