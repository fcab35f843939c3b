-- ===== src/Validate/SafeArg.antt =====
-- `validated_safe_arg` of crates/sysknife-daemon/src/actions/validate.rs.
use lacs.Prelude.{
  ℕ, String, ◌≡◌, ◌≢◌, ◌≤◌, ◌<◌, Bool, true, false, List, [], ◌∷◌, All, all, arith, Bool-cases, inl,
  inr, false≢true, ◌||◌, ltb, if◌then◌else◌,
}
use lacs.Prelude.Text.{codes}
use lacs.Executor.{ok, err, invalid_param}
use lacs.Validate.{
  is_safe_char, is_empty, starts_with_char, len, accept, safe_arg_max_bytes, validated_safe_arg,
}

-- A character that is neither a space, a control character nor one beyond ASCII, and none of the
-- characters ' " ` $ ; & | < > \ ( ) * ? [ ] { } ~ # ! ^ = % and the comma.
abbrev pub Harmless : ℕ → Type 0
Harmless c =
    (32 < c)
    × (c < 127)
    × (c ≢ b'\'')
    × (c ≢ b'"')
    × (c ≢ b'`')
    × (c ≢ b'$')
    × (c ≢ b';')
    × (c ≢ b'&')
    × (c ≢ b'|')
    × (c ≢ b'<')
    × (c ≢ b'>')
    × (c ≢ b'\\')
    × (c ≢ b'(')
    × (c ≢ b')')
    × (c ≢ b'*')
    × (c ≢ b'?')
    × (c ≢ b'[')
    × (c ≢ b']')
    × (c ≢ b'{')
    × (c ≢ b'}')
    × (c ≢ b'~')
    × (c ≢ b'#')
    × (c ≢ b'!')
    × (c ≢ b'^')
    × (c ≢ b'=')
    × (c ≢ b'%')
    × (c ≢ b',')

is_safe_char-Harmless : (c : ℕ) → is_safe_char c ≡ true → Harmless c
is_safe_char-Harmless c h = ground arith

all-Harmless : (cs : List ℕ) → all is_safe_char cs ≡ true → All Harmless cs
all-Harmless [] h = tt
all-Harmless (c ∷ cs) h = elim (Bool-cases (is_safe_char c)) [
  | inl safe ↦ (is_safe_char-Harmless c safe, all-Harmless cs (rw safe at h))
  | inr unsafe ↦ absurd (false≢true (rw unsafe at h))
]

-- the checks of `validated_safe_arg` and `validated_username`
checks_passed :
    (s param accepted : String) (empty option good : Bool) (n limit : ℕ)
    → (if empty || ltb limit n
        then err (invalid_param param)
        else if option
        then err (invalid_param param)
        else accept good s param)
      ≡ ok accepted
    → (accepted ≡ s) × (empty ≡ false) × (n ≤ limit) × (option ≡ false) × (good ≡ true)
checks_passed s param accepted empty option good n limit h = ground arith

nonempty_of : (cs : List ℕ) → is_empty cs ≡ false → cs ≢ []
nonempty_of [] h = absurd (ground arith)
nonempty_of (c ∷ cs) h = λ e. absurd (ground arith)

-- What is asked of a text that stands in a command line.
pub record IsSafe (s : String) : Type 0 where
  pub nonempty : codes s ≢ []
  pub short : len s ≤ 254
  pub no_option : starts_with_char b'-' (codes s) ≡ false
  pub harmless : All Harmless (codes s)

-- An accepted text is the parameter itself, is not empty and at most 254 bytes long, does not start
-- with a hyphen, and has only printable characters of ASCII: no space, no quote or backslash, and none
-- of the characters ` $ ; & | < > ( ) * ? [ ] { } ~ # ! ^ = % and the comma.
pub validated_safe_arg-IsSafe :
    (s param accepted : String)
    → validated_safe_arg s param ≡ ok accepted
    → (accepted ≡ s) × IsSafe s
unfolding validated_safe_arg
validated_safe_arg-IsSafe s param accepted h =
    let (same, there, short, no_option, good) =
      checks_passed s param accepted (is_empty (codes s)) (starts_with_char b'-' (codes s))
        (all is_safe_char (codes s)) (len s) safe_arg_max_bytes h in
    (
      same,
      record {
        nonempty = nonempty_of (codes s) there;
        short = short;
        no_option = no_option;
        harmless = all-Harmless (codes s) good;
      },
    )
