-- ===== src/Limiter/File.antt =====
-- The text of the timestamp file: what is written to it, and what is read from it.
use lacs.Prelude.{
  ℕ, zero, suc, ◌+◌, ◌-◌, ◌*◌, ◌/◌, ◌%◌, ◌<◌, ◌≤◌, ◌≡◌, ◌≢◌, refl, sym, ap, ◌∙◌, true, Bool-cases,
  inl, inr, some, List, [], ◌∷◌, ◌++◌, arith, All, all, not, false≢true,
}
use mathlib.Core.List.{reverse, reverse_aux, reverse-reverse}
use lacs.Prelude.Text.{trim, trim_start, is_whitespace}
use lacs.AuditChain.{decimal, to_string}
use lacs.AuditChain.Decimal.{value, value-to_string}
use lacs.Validate.{is_ascii_digit}
use lacs.Limiter.{lines, parse_digits, parse_u64, parse_lines, push_lines, u64_modulus}

abbrev Digits : List ℕ → Type 0
Digits s = all is_ascii_digit s ≡ true

decimal-Digits : (fuel n : ℕ) (acc : List ℕ) → Digits acc → Digits (decimal fuel n acc)
unfolding decimal
decimal-Digits zero n acc h = h
decimal-Digits (suc fuel) n acc h =
    ground (arith, decimal-Digits fuel (n / 10) ((48 + n % 10) ∷ acc))

pub to_string-Digits : (n : ℕ) → Digits (to_string n)
unfolding to_string
to_string-Digits n = decimal-Digits (suc n) n [] refl

value-ge : (n : ℕ) (ds : List ℕ) → n ≤ value n ds
unfolding value
value-ge n [] = omega arith
value-ge n (d ∷ ds) = omega (arith, value-ge (n * 10 + (d - 48)) ds)

parse_digits-value :
    (n : ℕ) (ds : List ℕ)
    → Digits ds
    → value n ds < u64_modulus
    → parse_digits n ds ≡ some (value n ds)
unfolding parse_digits value
parse_digits-value n [] h b = refl
parse_digits-value n (d ∷ ds) h b =
    ground (arith, value-ge (n * 10 + (d - 48)) ds, parse_digits-value (n * 10 + (d - 48)) ds)

-- A text without white space is not trimmed.
abbrev Solid : List ℕ → Type 0
Solid s = all (λ c. not (is_whitespace c)) s ≡ true

Solid-of_Digits : (s : List ℕ) → Digits s → Solid s
unfolding is_whitespace
Solid-of_Digits [] h = refl
Solid-of_Digits (c ∷ cs) h = ground (arith, Solid-of_Digits cs)

not-Solid : (c : ℕ) (cs : List ℕ) → is_whitespace c ≡ true → ¬ Solid (c ∷ cs)
not-Solid c cs space h = false≢true (sym (rw space refl) ∙ h)

trim_start-Solid : (s : List ℕ) → Solid s → trim_start s ≡ s
unfolding trim_start
trim_start-Solid [] h = refl
trim_start-Solid (c ∷ cs) h = elim (Bool-cases (is_whitespace c)) [
  | inl space ↦ absurd (not-Solid c cs space h)
  | inr solid ↦ rw solid refl
]

Solid-reverse_aux : (s t : List ℕ) → Solid s → Solid t → Solid (reverse_aux s t)
Solid-reverse_aux [] t h k = k
Solid-reverse_aux (c ∷ cs) t h k = Solid-reverse_aux cs (c ∷ t) (ground arith) (ground arith)

trim-Solid : (s : List ℕ) → Solid s → trim s ≡ s
unfolding trim
trim-Solid s h =
    rw (trim_start-Solid s h, trim_start-Solid (reverse s) (Solid-reverse_aux s [] h refl))
      (reverse-reverse s)

-- The line that a number is written on.
lines-Digits : (ds rest : List ℕ) → Digits ds → lines (ds ++ 0x0a ∷ rest) ≡ ds ∷ lines rest
unfolding lines
lines-Digits [] rest h = refl
lines-Digits (d ∷ ds) rest h = ground (arith, lines-Digits ds rest)

parse_u64-Digits : (ds : List ℕ) → Digits ds → ds ≢ [] → parse_u64 ds ≡ parse_digits 0 ds
unfolding parse_u64
parse_u64-Digits [] h e = absurd (e refl)
parse_u64-Digits (d ∷ ds) h e = ground arith

decimal-ne-nil : (fuel n c : ℕ) (acc : List ℕ) → decimal fuel n (c ∷ acc) ≢ []
unfolding decimal
decimal-ne-nil zero n c acc h = ground arith
decimal-ne-nil (suc fuel) n c acc h =
    ground (arith, decimal-ne-nil fuel (n / 10) (48 + n % 10) (c ∷ acc))

to_string-ne-nil : (n : ℕ) → to_string n ≢ []
unfolding to_string decimal
to_string-ne-nil n h = ground (arith, decimal-ne-nil n (n / 10) (48 + n % 10) [])

parse_u64-to_string : (n : ℕ) → n < u64_modulus → parse_u64 (to_string n) ≡ some n
parse_u64-to_string n h =
    let v = value-to_string n in
    parse_u64-Digits (to_string n) (to_string-Digits n) (to_string-ne-nil n)
    ∙ parse_digits-value 0 (to_string n) (to_string-Digits n) (rw v h)
    ∙ ap some v

-- Seconds that a `u64` holds.
abbrev pub Fits : List ℕ → Type 0
Fits = All (λ t. t < u64_modulus)

pub parse_lines-push_lines : (ts : List ℕ) → Fits ts → parse_lines (lines (push_lines ts)) ≡ ts
unfolding parse_lines push_lines lines
parse_lines-push_lines [] h = refl
parse_lines-push_lines (t ∷ ts) h =
    let d = to_string-Digits t in
    rw
      (
        lines-Digits (to_string t) (push_lines ts) d,
        parse_lines,
        trim-Solid (to_string t) (Solid-of_Digits (to_string t) d),
        parse_u64-to_string t h.0,
      )
      (ap (λ l. t ∷ l) (parse_lines-push_lines ts h.1))
