-- ===== src/Limiter.antt =====
-- crates/sysknife-brain/src/rate_limit.rs: the calls of the last minute, kept as the lines of a file.
-- `Limiter/File` is about the text of the file, `Limiter/Window` about the calls that are let
-- through and `Limiter/Retry` about the wait that a refused caller is told.
pub mod File
pub mod Window
pub mod Retry
use lacs.Prelude.{
  ℕ, ◌+◌, ◌-◌, ◌*◌, ◌%◌, Bool, true, false, ◌&&◌, not, Option, none, some, List, [], ◌∷◌, ◌++◌,
  length, ltb, leb, ◌==◌, if◌then◌else◌,
}
use lacs.Prelude.Text.{trim}
use lacs.AuditChain.{to_string}
use lacs.Validate.{is_empty, starts_with_char, is_ascii_digit}

abbrev pub u64_modulus : ℕ
u64_modulus = 0x10000000000000000

-- `str::lines`: a line ends at a line feed, with the carriage return before it, or with the text.
unfoldable pub lines : List ℕ → List (List ℕ)
lines [] = []
lines (c ∷ cs) =
    let rest = lines cs in
    if c == 0x0a
    then [] ∷ rest
    else if c == 0x0d && starts_with_char 0x0a cs
    then rest
    else elim rest [ [] ↦ (c ∷ []) ∷ [] | line ∷ after ↦ (c ∷ line) ∷ after ]

-- The loop of `str::parse::<u64>` over the digits.
unfoldable pub parse_digits : ℕ → List ℕ → Option ℕ
parse_digits n [] = some n
parse_digits n (d ∷ ds) =
    let m = n * 10 + (d - b'0') in
    let rest = parse_digits m ds in if is_ascii_digit d && ltb m u64_modulus then rest else none

-- `str::parse::<u64>`, which takes a plus sign in front of the digits.
unfoldable pub parse_u64 : List ℕ → Option ℕ
unfolding parse_digits
parse_u64 [] = none
parse_u64 (c ∷ cs) =
    if c == b'+' then if is_empty cs then none else parse_digits 0 cs else parse_digits 0 (c ∷ cs)

-- `filter_map` over the lines: one that is no number is left out.
unfoldable pub parse_lines : List (List ℕ) → List ℕ
unfolding parse_u64
parse_lines [] = []
parse_lines (l ∷ ls) = elim (parse_u64 (trim l)) [
  | none ↦ parse_lines ls
  | some t ↦ t ∷ parse_lines ls
]

-- The first list of the `partition`.
unfoldable pub in_window : ℕ → List ℕ → List ℕ
in_window window_start [] = []
in_window window_start (t ∷ ts) =
    let rest = in_window window_start ts in if leb window_start t then t ∷ rest else rest

abbrev pub min : ℕ → ℕ → ℕ
min a b = if leb a b then a else b

abbrev pub max : ℕ → ℕ → ℕ
max a b = if leb a b then b else a

-- `iter().min().copied().unwrap_or`
unfoldable pub oldest_or : ℕ → List ℕ → ℕ
oldest_or default [] = default
oldest_or default (t ∷ []) = t
oldest_or default (t ∷ u ∷ ts) = min t (oldest_or default (u ∷ ts))

-- The lines that the loop writes.
unfoldable pub push_lines : List ℕ → List ℕ
push_lines [] = []
push_lines (t ∷ ts) = to_string t ++ 0x0a ∷ push_lines ts

pub data Result : Type 0 where
  ok : Result
  err : ℕ → Result

-- The seconds of a minute, and `saturating_sub`.
abbrev pub window_secs : ℕ
window_secs = 60

unfoldable pub retry_after : ℕ → List ℕ → ℕ
unfolding oldest_or
retry_after now recent =
    let oldest = oldest_or (now - window_secs) recent in
    max ((oldest + window_secs) % u64_modulus - now) 1

-- `unwrap_or_else` on what was read
unfoldable pub or_empty : Option (List ℕ) → List ℕ
or_empty none = []
or_empty (some text) = text

-- A call at `now`. The file is absent or cannot be read (`none`), or holds a text; `persists` says
-- whether the file can be written. The outcome, and the file afterwards.
unfoldable pub check_and_consume : ℕ → ℕ → Bool → Option (List ℕ) → Result × Option (List ℕ)
unfolding lines parse_lines in_window retry_after push_lines or_empty
check_and_consume max_per_minute now persists file =
    let recent = in_window (now - window_secs) (parse_lines (lines (or_empty file))) in
    if leb max_per_minute (length recent)
    then (err (retry_after now recent), file)
    else if persists
    then (ok, some (push_lines recent ++ (to_string now ++ 0x0a ∷ [])))
    else (ok, file)

-- What the environment sets in place of the limit: a number that is not zero.
unfoldable pub effective : Option (List ℕ) → ℕ → ℕ
unfolding parse_u64
effective none max_per_minute = max_per_minute
effective (some v) max_per_minute = elim (parse_u64 (trim v)) [
  | none ↦ max_per_minute
  | some n ↦ if leb 1 n then n else max_per_minute
]

-- `new`: the limit in force; `none` where the assertion fails.
unfoldable pub new : Option (List ℕ) → ℕ → Option ℕ
unfolding effective
new env max_per_minute = if leb 1 max_per_minute then some (effective env max_per_minute) else none

-- `check_and_consume_async`: a call whose thread panicked is let through.
unfoldable pub check_and_consume_async : Option Result → Result
check_and_consume_async none = ok
check_and_consume_async (some r) = r
