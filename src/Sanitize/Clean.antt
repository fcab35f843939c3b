-- ===== src/Sanitize/Clean.antt =====
-- The characters and the length of a text that was made safe.
use lacs.Prelude.{
  some, subst, some-injective, sym, Option-cases, ℕ, zero, suc, ◌+◌, ◌-◌, ◌≡◌, ◌≢◌, ◌<◌, ◌⊎◌, All,
  false, false≢true, ◌≤◌, refl, ap, ◌∙◌, Bool, true, Bool-cases, inl, inr, List, [], ◌∷◌, ◌++◌,
  arith, leb, ◌==◌, not, all, length, length-append, if◌then◌else◌,
}
use lacs.Prelude.Text.{codes, utf8, encode, encode-append}
use lacs.Validate.{starts_with}
use lacs.Sanitize.{
  normalise_free_text, strip_ansi, closing_tag, opening_tag, cut, truncate_with_marker, marker,
  dangerous, replace_from, collapse_from, neutralise_envelope_tags, collapse_blank_runs,
  strip_dangerous_unicode, max_output_bytes,
}
use lacs.Sanitize.Tags.{replace_from-found, replace_from-other}
use lacs.Sanitize.Envelope.{body_of}

module _ (p : ℕ → Bool) where
  all-append : (x y : List ℕ) → all p x ≡ true → all p y ≡ true → all p (x ++ y) ≡ true
  all-append [] y h k = k
  all-append (c ∷ x) y h k = ground (arith, all-append x y)

  all-replace_from :
      (pattern by : List ℕ) (skip : ℕ) (s : List ℕ)
      → all p by ≡ true
      → all p s ≡ true
      → all p (replace_from pattern by skip s) ≡ true
  unfolding replace_from
  all-replace_from pattern by skip [] b h = refl
  all-replace_from pattern by (suc skip) (c ∷ cs) b h =
      all-replace_from pattern by skip cs b (ground arith)
  all-replace_from pattern by zero (c ∷ cs) b h = elim (Bool-cases (starts_with pattern (c ∷ cs))) [
    | inl found ↦ rw (replace_from-found pattern by c cs found) (
        all-append by (replace_from pattern by (length pattern - 1) cs) b
          (all-replace_from pattern by (length pattern - 1) cs b (ground arith)))
    | inr other ↦
        rw (replace_from-other pattern by c cs other)
          (ground (arith, all-replace_from pattern by zero cs b))
  ]

  all-collapse_from : (n : ℕ) (s : List ℕ) → all p s ≡ true → all p (collapse_from n s) ≡ true
  unfolding collapse_from
  all-collapse_from n [] h = refl
  all-collapse_from n (c ∷ cs) h =
      ground (arith, all-collapse_from (if c == 0x0a then suc n else 0) cs)

  all-cut : (b : ℕ) (s : List ℕ) → all p s ≡ true → all p (cut b s) ≡ true
  unfolding cut
  all-cut b [] h = refl
  all-cut b (c ∷ cs) h = ground (arith, all-cut (b - length (encode (c ∷ []))) cs)

abbrev pub Inert : List ℕ → Type 0
Inert s = all (λ c. not (dangerous c)) s ≡ true

Inert-strip : (s : List ℕ) → Inert (strip_dangerous_unicode s)
unfolding strip_dangerous_unicode
Inert-strip [] = refl
Inert-strip (c ∷ cs) = elim (Bool-cases (dangerous c)) [
  | inl bad ↦ rw bad (Inert-strip cs)
  | inr good ↦ rw good (ground (arith, good, Inert-strip cs))
]

length-encode-append :
    (x y : List ℕ) → length (encode (x ++ y)) ≡ length (encode x) + length (encode y)
length-encode-append x y = ap length (encode-append x y) ∙ length-append (encode x) (encode y)

empty_le : (b : ℕ) → length (encode []) ≤ b
unfolding encode
empty_le b = omega arith

length-cut : (b : ℕ) (s : List ℕ) → length (encode (cut b s)) ≤ b
unfolding cut
length-cut b [] = empty_le b
length-cut b (c ∷ cs) = elim (Bool-cases (leb (length (encode (c ∷ []))) b)) [
  | inl fits ↦
      let w = length (encode (c ∷ [])) in
      rw fits (
        rw (length-encode-append (c ∷ []) (cut (b - w) cs))
          (ground (arith, length-cut (b - w) cs, fits)))
  | inr full ↦ rw full (empty_le b)
]

length-truncate :
    (s : List ℕ) (max : ℕ)
    → length (encode marker) ≤ max
    → length (encode (truncate_with_marker s max)) ≤ max
unfolding truncate_with_marker
length-truncate s max h = elim (Bool-cases (leb (length (encode s)) max)) [
  | inl fits ↦ rw fits (ground arith)
  | inr long ↦
      let b = max - length (encode marker) in
      rw long (rw (length-encode-append (cut b s) marker) (omega (arith, length-cut b s, h)))
]

Inert-marker : Inert marker
unfolding dangerous
Inert-marker = refl

Inert-truncate : (s : List ℕ) (max : ℕ) → Inert s → Inert (truncate_with_marker s max)
unfolding truncate_with_marker
Inert-truncate s max h = elim (Bool-cases (leb (length (encode s)) max)) [
  | inl fits ↦ rw fits h
  | inr long ↦
      let b = max - length (encode marker) in
      rw long (all-append _ (cut b s) marker (all-cut _ b s h) Inert-marker)
]

Inert-neutralise : (s : List ℕ) → Inert s → Inert (neutralise_envelope_tags s)
unfolding neutralise_envelope_tags dangerous
Inert-neutralise s h =
    let blocked_closing = codes "</untrusted_tool_output_BLOCKED>" in
    let blocked_opening = codes "<untrusted_tool_output_BLOCKED" in
    all-replace_from _ opening_tag blocked_opening 0 (replace_from closing_tag blocked_closing 0 s)
      refl (all-replace_from _ closing_tag blocked_closing 0 s refl h)

marker_fits : length (encode marker) ≤ max_output_bytes
unfolding encode utf8
marker_fits = omega arith

body_of_bounds :
    (nfc_normalise : List ℕ → List ℕ)
    → ((s : List ℕ) → Inert s → Inert (nfc_normalise s))
    → (s : List ℕ)
    → (length (encode (body_of nfc_normalise s)) ≤ max_output_bytes)
      × Inert (body_of nfc_normalise s)
unfolding body_of collapse_blank_runs
body_of_bounds nfc_normalise keeps s =
    let t = neutralise_envelope_tags (nfc_normalise (strip_dangerous_unicode s)) in
    (
      length-truncate (collapse_from 0 t) max_output_bytes marker_fits,
      Inert-truncate (collapse_from 0 t) max_output_bytes (
          all-collapse_from _ 0 t
            (Inert-neutralise _ (keeps (strip_dangerous_unicode s) (Inert-strip s)))),
    )

normalise_free_text-stripped :
    (nfc_normalise : List ℕ → List ℕ) (raw s : List ℕ)
    → strip_ansi raw ≡ some s
    → normalise_free_text nfc_normalise raw ≡ some (body_of nfc_normalise s)
unfolding normalise_free_text body_of
normalise_free_text-stripped nfc_normalise raw s e = rw (normalise_free_text, e) refl

-- A character that is none of the controls but tab, line feed and carriage return, none of U+200B to
-- U+200F, U+202A to U+202E, U+2066 to U+2069 and U+FEFF, none of the tags U+E0000 to U+E007F and none
-- of private use.
abbrev pub Allowed : ℕ → Type 0
Allowed c =
    ((31 < c) ⊎ ((c ≡ 9) ⊎ ((c ≡ 10) ⊎ (c ≡ 13))))
    × ((c < 127) ⊎ (159 < c))
    × ((c < 0x200b) ⊎ (0x200f < c))
    × ((c < 0x202a) ⊎ (0x202e < c))
    × ((c < 0x2066) ⊎ (0x2069 < c))
    × (c ≢ 0xfeff)
    × ((c < 0xe0000) ⊎ (0xe007f < c))
    × ((c < 0xe000) ⊎ (0xf8ff < c))
    × ((c < 0xf0000) ⊎ (0xffffd < c))
    × ((c < 0x100000) ⊎ (0x10fffd < c))

Allowed-of_dangerous : (c : ℕ) → dangerous c ≡ false → Allowed c
unfolding dangerous
Allowed-of_dangerous c h = ground arith

dangerous-of_Allowed : (c : ℕ) → Allowed c → dangerous c ≡ false
unfolding dangerous
dangerous-of_Allowed c h = ground arith

abbrev pub Clean : List ℕ → Type 0
Clean s = All Allowed s

Clean-of_Inert : (s : List ℕ) → Inert s → Clean s
Clean-of_Inert [] h = tt
Clean-of_Inert (c ∷ s) h = elim (Bool-cases (dangerous c)) [
  | inl bad ↦ absurd (false≢true (rw bad at h))
  | inr good ↦ (Allowed-of_dangerous c good, Clean-of_Inert s (rw good at h))
]

Inert-of_Clean : (s : List ℕ) → Clean s → Inert s
Inert-of_Clean [] h = refl
Inert-of_Clean (c ∷ s) h = rw (dangerous-of_Allowed c h.0) (Inert-of_Clean s h.1)

-- A text that is normalised has at most 8192 bytes, no control character but tab, line feed and
-- carriage return, none of the characters U+200B to U+200F, U+202A to U+202E, U+2066 to U+2069 and
-- U+FEFF, no tag of U+E0000 to U+E007F and none of private use, where the normal form of a text
-- without these has none of them.
pub normalise_free_text_bounds :
    (nfc_normalise : List ℕ → List ℕ)
    → ((s : List ℕ) → Clean s → Clean (nfc_normalise s))
    → (raw out : List ℕ) → normalise_free_text nfc_normalise raw ≡ some out
    → (length (encode out) ≤ max_output_bytes) × Clean out
unfolding normalise_free_text body_of
normalise_free_text_bounds nfc_normalise keeps raw out h = elim (Option-cases (strip_ansi raw)) [
  | inl e ↦ absurd (ground arith)
  | inr (s, e) ↦
      let inert : (t : List ℕ) → Inert t → Inert (nfc_normalise t) =
        λ t k. Inert-of_Clean _ (keeps t (Clean-of_Inert t k)) in
      let (short, clean) = body_of_bounds nfc_normalise inert s in
      subst (λ t. (length (encode t) ≤ max_output_bytes) × Clean t) {x = body_of nfc_normalise s}
        {y = out}
        (some-injective (body_of nfc_normalise s) out
          (sym (normalise_free_text-stripped nfc_normalise raw s e) ∙ h))
        (short, Clean-of_Inert _ clean)
]
