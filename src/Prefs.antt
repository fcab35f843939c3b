-- ===== src/Prefs.antt =====
-- crates/sysknife-brain/src/prefs.rs: the preferences of the user, one to a line of a file, and the
-- test for sensitive data. A text is the list of its code points; `str::to_lowercase` is a parameter.
-- The file is absent (`none`) or holds a text; `persists` says whether it can be written, and no
-- other error of the file system is modelled. `Prefs/Lines` is about its lines.
pub mod Lines
use lacs.Prelude.{
  ℕ, ◌+◌, String, Bool, true, false, ◌||◌, Option, none, some, List, [], ◌∷◌, ◌++◌, length, ltb,
  if◌then◌else◌,
}
use lacs.Prelude.Text.{codes, encode, trim, same_bytes}
use lacs.Validate.{is_empty, strip_prefix, contains_char}
use lacs.Limiter.{lines, or_empty}
use lacs.Sanitize.Tags.{occurs}

abbrev pub prefs_max_bytes : ℕ
prefs_max_bytes = 10240

abbrev pub sensitive_patterns : List String
sensitive_patterns =
    "password" ∷ "passwd" ∷ "secret" ∷ "api_key" ∷ "apikey" ∷ "private_key" ∷ "token" ∷ "credential"
    ∷ "-----begin" ∷ "bearer " ∷ "akia" ∷ []

abbrev pub sensitive_prefixes : List String
sensitive_prefixes =
    "sk-" ∷ "ghp_" ∷ "github_pat_" ∷ "gho_" ∷ "xoxb-" ∷ "xoxp-" ∷ "sg." ∷ "key_live_" ∷ "key_test_"
    ∷ "eyj" ∷ "hvs." ∷ "hvb." ∷ "npm_" ∷ "pypi-" ∷ []

unfoldable pub any_occurs : List String → List ℕ → Bool
unfolding occurs
any_occurs [] lower = false
any_occurs (p ∷ ps) lower =
    let rest = any_occurs ps lower in if occurs (codes p) lower then true else rest

unfoldable pub contains_sensitive : (List ℕ → List ℕ) → List ℕ → Bool
unfolding any_occurs
contains_sensitive to_lowercase fact =
    let lower = to_lowercase fact in
    if any_occurs sensitive_patterns lower then true else any_occurs sensitive_prefixes lower

unfoldable pub read_prefs : Option (List ℕ) → Option (List ℕ)
read_prefs none = none
read_prefs (some content) = if is_empty (trim content) then none else some content

abbrev pub dash : List ℕ
dash = codes "- "

-- A line that is the preference.
abbrev pub is_line_of : List ℕ → List ℕ → Bool
is_line_of fact line = elim (strip_prefix dash line) [
  | none ↦ false
  | some stripped ↦ same_bytes stripped fact
]

unfoldable pub present : List ℕ → List (List ℕ) → Bool
present fact [] = false
present fact (l ∷ ls) = let rest = present fact ls in if is_line_of fact l then true else rest

-- An error is the text of its message, or one of writing.
pub data Result : Type 0 where
  ok : Result
  err : String → Result
  io_error : Result

abbrev multi_line : List ℕ → Bool
multi_line fact = contains_char 0x0a fact || contains_char 0x0d fact

unfoldable pub append_pref : Bool → List ℕ → Option (List ℕ) → Result × Option (List ℕ)
unfolding lines or_empty present
append_pref persists fact file =
    let existing = or_empty file in
    let new_line = dash ++ (fact ++ 0x0a ∷ []) in
    if multi_line fact
    then (err "preference must be a single line", file)
    else if present fact (lines existing)
    then (ok, file)
    else if ltb prefs_max_bytes (length (encode existing) + length (encode new_line))
    then (
      err
          "preferences file exceeds size limit (10240 bytes); remove unused preferences before adding new ones",
      file,
    )
    else if persists
    then (ok, some (existing ++ new_line))
    else (io_error, file)

-- The lines that stay, and the text of the file that they make.
unfoldable pub without : List ℕ → List (List ℕ) → List (List ℕ)
without target [] = []
without target (l ∷ ls) =
    let rest = without target ls in if same_bytes l target then rest else l ∷ rest

unfoldable pub join_lines : List (List ℕ) → List ℕ
join_lines [] = []
join_lines (l ∷ ls) = l ++ 0x0a ∷ join_lines ls

-- Whether the line was there.
unfoldable pub has_line : List ℕ → List (List ℕ) → Bool
has_line target [] = false
has_line target (l ∷ ls) =
    let rest = has_line target ls in if same_bytes l target then true else rest

-- `none` is an error of writing.
unfoldable pub remove_pref : Bool → List ℕ → Option (List ℕ) → Option Bool × Option (List ℕ)
unfolding lines has_line without join_lines
remove_pref persists fact none = (some false, none)
remove_pref persists fact (some content) =
    if has_line (dash ++ fact) (lines content)
    then (if persists
        then (some true, some (join_lines (without (dash ++ fact) (lines content))))
        else (none, some content))
    else (some false, some content)
