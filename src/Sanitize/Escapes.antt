-- ===== src/Sanitize/Escapes.antt =====
-- Control sequences that start with ESC.
use lacs.Prelude.{
  ℕ, ◌≡◌, ◌≢◌, ◌≤◌, refl, true, inl, inr, none, some, List, [], ◌∷◌, ◌++◌, arith, ltb, ◌==◌, not,
  all, Option-cases, subst,
}
use lacs.Sanitize.{
  Mode, text, esc, csi, osc, osc_end, designator, next_mode, pushed, strip_from, strip_ansi,
}

abbrev pub NoEsc : List ℕ → Type 0
NoEsc s = all (λ c. not (c == 0x1b)) s ≡ true

-- What stands before the first ESC does not matter to a panic.
strip_ansi-append :
    (pre rest : List ℕ)
    → NoEsc pre
    → strip_from text rest ≡ none
    → strip_from text (pre ++ rest) ≡ none
unfolding strip_from next_mode
strip_ansi-append [] rest h k = k
strip_ansi-append (c ∷ pre) rest h k = ground (arith, strip_ansi-append pre rest)

esc_panics : (c : ℕ) (rest : List ℕ) → 128 ≤ c → strip_from text (0x1b ∷ c ∷ rest) ≡ none
unfolding strip_from next_mode
esc_panics c rest h = ground arith

-- A text in which the first ESC stands before a character beyond ASCII makes `strip_ansi` panic.
pub strip_ansi-panics :
    (pre rest : List ℕ) (c : ℕ) → NoEsc pre → 128 ≤ c → strip_ansi (pre ++ 0x1b ∷ c ∷ rest) ≡ none
unfolding strip_ansi
strip_ansi-panics pre rest c h k = strip_ansi-append pre (0x1b ∷ c ∷ rest) h (esc_panics c rest k)

-- What is left has no ESC.
NoEsc-append : (x y : List ℕ) → NoEsc x → NoEsc y → NoEsc (x ++ y)
NoEsc-append [] y h k = k
NoEsc-append (c ∷ x) y h k = ground (arith, NoEsc-append x y)

NoEsc-pushed : (m : Mode) (c : ℕ) → NoEsc (pushed m c)
unfolding pushed
NoEsc-pushed text c = ground arith
NoEsc-pushed esc c = refl
NoEsc-pushed csi c = refl
NoEsc-pushed osc c = refl
NoEsc-pushed osc_end c = refl
NoEsc-pushed designator c = refl

-- One round of the loop.
strip_from-step :
    (m m' : Mode) (c : ℕ) (cs rest : List ℕ)
    → next_mode m c cs ≡ some m'
    → strip_from m' cs ≡ some rest
    → strip_from m (c ∷ cs) ≡ some (pushed m c ++ rest)
unfolding strip_from
strip_from-step m m' c cs rest h k = rw (h, strip_from, k) refl

strip_from-NoEsc : (m : Mode) (s out : List ℕ) → strip_from m s ≡ some out → NoEsc out
unfolding strip_from next_mode pushed
strip_from-NoEsc m [] out h = ground arith
strip_from-NoEsc m (c ∷ cs) out h = elim (Option-cases (next_mode m c cs)) [
  | inl e ↦ absurd (ground arith)
  | inr (m', e) ↦ elim (Option-cases (strip_from m' cs)) [
    | inl e' ↦ absurd (ground arith)
    | inr (rest, e') ↦
        subst NoEsc {x = pushed m c ++ rest} {y = out}
          (ground (arith, strip_from-step m m' c cs rest e e', h))
          (NoEsc-append (pushed m c) rest (NoEsc-pushed m c) (strip_from-NoEsc m' cs rest e'))
  ]
]

abbrev pub Ascii : List ℕ → Type 0
Ascii s = all (λ c. ltb c 128) s ≡ true

next_mode-ne-none : (m : Mode) (c : ℕ) (cs : List ℕ) → ltb c 128 ≡ true → next_mode m c cs ≢ none
unfolding next_mode
next_mode-ne-none text c cs h e = ground arith
next_mode-ne-none esc c cs h e = ground arith
next_mode-ne-none csi c cs h e = ground arith
next_mode-ne-none osc c cs h e = ground arith
next_mode-ne-none osc_end c cs h e = ground arith
next_mode-ne-none designator c cs h e = ground arith

-- A text of ASCII is stripped without a panic.
strip_from-Ascii : (m : Mode) (s : List ℕ) → Ascii s → (out : List ℕ) × (strip_from m s ≡ some out)
unfolding strip_from next_mode pushed
strip_from-Ascii m [] h = ([], refl)
strip_from-Ascii m (c ∷ cs) h = elim (Option-cases (next_mode m c cs)) [
  | inl e ↦ absurd (next_mode-ne-none m c cs (ground arith) e)
  | inr (m', e) ↦
      let (rest, e') = strip_from-Ascii m' cs (ground arith) in
      (pushed m c ++ rest, strip_from-step m m' c cs rest e e')
]

-- Of a text of ASCII a text without ESC is left.
pub strip_ansi-Ascii :
    (s : List ℕ) → Ascii s → (out : List ℕ) × (strip_ansi s ≡ some out) × NoEsc out
unfolding strip_ansi
strip_ansi-Ascii s h =
    let (out, e) = strip_from-Ascii text s h in (out, e, strip_from-NoEsc text s out e)
