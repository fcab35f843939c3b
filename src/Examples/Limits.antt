-- ===== src/Examples/Limits.antt =====
-- Calls against a limit of two in a minute.
use lacs.Prelude.{
  ℕ, ◌+◌, ◌≡◌, ◌≤◌, ◌<◌, refl, ap, length, inr, true, Option, none, some, List, [], ◌∷◌, arith,
}
use lacs.Limiter.{
  Result, ok, err, lines, parse_lines, parse_u64, parse_digits, in_window, oldest_or, retry_after,
  or_empty, check_and_consume, window_secs, u64_modulus,
}
use lacs.Limiter.Window.{
  serve, log_serve, admitted, burst, Ascending, serve-log_serve, burst-serve_bounds,
}
use lacs.Limiter.Retry.{recent_at, oldest_at, refused_until_told, admitted_after_told}

abbrev times : List ℕ
times = 100 ∷ 130 ∷ 131 ∷ 160 ∷ 161 ∷ []

times-Ascending : Ascending 0 times
times-Ascending = ground arith

abbrev answers : List Result
answers = ok ∷ ok ∷ err 29 ∷ err 1 ∷ ok ∷ []

answers_given : log_serve 2 [] times ≡ answers
unfolding log_serve in_window retry_after oldest_or
answers_given = refl

serve-log_serve_example : serve 2 none times ≡ log_serve 2 [] times
serve-log_serve_example = serve-log_serve 2 times times-Ascending

burst-serve_bounds_example : burst 101 (admitted times (serve 2 none times)) ≤ 2
burst-serve_bounds_example = burst-serve_bounds 2 101 times times-Ascending

-- 100 and 130, with a line between them that is no number.
abbrev file : Option (List ℕ)
file = some (b'1' ∷ b'0' ∷ b'0' ∷ 0x0a ∷ b'x' ∷ 0x0a ∷ b' ' ∷ b'1' ∷ b'3' ∷ b'0' ∷ 0x0d ∷ 0x0a ∷ [])

recent_file : recent_at 131 file ≡ 100 ∷ 130 ∷ []
unfolding recent_at in_window parse_lines parse_u64 parse_digits lines or_empty
    lacs.Prelude.Text.trim
recent_file = refl

refused_file : check_and_consume 2 131 true file ≡ (err 29, file)
unfolding check_and_consume in_window parse_lines parse_u64 parse_digits lines or_empty
    lacs.Prelude.Text.trim retry_after
refused_file = refl

oldest_file : oldest_at 131 file ≡ 100
unfolding oldest_at recent_at in_window oldest_or parse_lines parse_u64 parse_digits lines or_empty
    lacs.Prelude.Text.trim
oldest_file = refl

oldest_fits : oldest_at 131 file + window_secs < u64_modulus
oldest_fits = rw oldest_file (omega arith)

refused_until_told_example : (r : ℕ) × (check_and_consume 2 160 true file ≡ (err r, file))
refused_until_told_example =
    refused_until_told 2 131 29 160 true true file file oldest_fits refused_file (omega arith)
      (inr (refl, omega arith))

admitted_after_told_example : (check_and_consume 2 161 true file).0 ≡ ok
admitted_after_told_example =
    admitted_after_told 2 131 29 true true file file (omega arith) oldest_fits
      (ap length recent_file) refused_file
