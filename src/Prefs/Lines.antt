-- ===== src/Prefs/Lines.antt =====
-- The lines of the file of preferences.
use lacs.Prelude.{
  Option-cases, false≢true, ==_iff, ℕ, ◌≡◌, ◌≢◌, refl, sym, ap, ◌∙◌, Bool, true, false, ◌&&◌,
  Bool-cases, inl, inr, Option, some, List, [], ◌∷◌, ◌++◌, arith, ◌==◌, append_assoc, subst,
  if◌then◌else◌,
}
use lacs.Prelude.Text.{same_bytes_refl, same_bytes→eq}
use lacs.Validate.{starts_with_char, strip_prefix}
use lacs.Limiter.{lines, or_empty}
use lacs.Prefs.{ok, append_pref, present, is_line_of, dash, multi_line}

-- One round of `lines`.
abbrev line_step : ℕ → Bool → List (List ℕ) → List (List ℕ)
line_step c feed rest =
    if c == 0x0a
    then [] ∷ rest
    else if c == 0x0d && feed
    then rest
    else elim rest [ [] ↦ (c ∷ []) ∷ [] | line ∷ after ↦ (c ∷ line) ∷ after ]

lines_cons :
    (c : ℕ) (cs : List ℕ) → lines (c ∷ cs) ≡ line_step c (starts_with_char 0x0a cs) (lines cs)
unfolding lines
lines_cons c cs = refl

lines-ne-nil : (c : ℕ) (cs : List ℕ) → lines (c ∷ cs) ≢ []
lines-ne-nil c [] h = let k = sym (lines_cons c []) ∙ h in ground arith
lines-ne-nil c (d ∷ cs) h =
    let k = sym (lines_cons c (d ∷ cs)) ∙ h in ground (arith, lines-ne-nil d cs)

line_step-append :
    (c : ℕ) (feed : Bool) (ls more : List (List ℕ))
    → ls ≢ []
    → line_step c feed (ls ++ more) ≡ line_step c feed ls ++ more
line_step-append c feed [] more n = absurd (n refl)
line_step-append c feed (l ∷ ls) more n = ground arith

starts-append :
    (x y : List ℕ) → starts_with_char 0x0a (x ++ 0x0a ∷ y) ≡ starts_with_char 0x0a (x ++ 0x0a ∷ [])
starts-append [] y = refl
starts-append (c ∷ x) y = refl

feed-ne-nil : (x : List ℕ) → lines (x ++ 0x0a ∷ []) ≢ []
feed-ne-nil [] = lines-ne-nil 0x0a []
feed-ne-nil (c ∷ x) = lines-ne-nil c (x ++ 0x0a ∷ [])

lines-feed : (y : List ℕ) → lines (0x0a ∷ y) ≡ lines (0x0a ∷ []) ++ lines y
unfolding lines
lines-feed y = refl

-- Lines after a line feed are those of the text that follows it.
lines-append : (x y : List ℕ) → lines (x ++ 0x0a ∷ y) ≡ lines (x ++ 0x0a ∷ []) ++ lines y
lines-append [] y = lines-feed y
lines-append (c ∷ x) y =
    lines_cons c (x ++ 0x0a ∷ y)
    ∙ rw (starts-append x y, lines-append x y)
        (line_step-append c (starts_with_char 0x0a (x ++ 0x0a ∷ [])) (lines (x ++ 0x0a ∷ []))
          (lines y) (feed-ne-nil x))
    ∙ ap (λ l. l ++ lines y) (sym (lines_cons c (x ++ 0x0a ∷ [])))

present-append :
    (fact : List ℕ) (xs ys : List (List ℕ))
    → present fact ys ≡ true
    → present fact (xs ++ ys) ≡ true
unfolding present
present-append fact [] ys h = h
present-append fact (x ∷ xs) ys h = ground (arith, present-append fact xs ys)

-- A text without line ends is one line.
lines-one : (s : List ℕ) → multi_line s ≡ false → lines (s ++ 0x0a ∷ []) ≡ s ∷ []
unfolding lines
lines-one [] h = refl
lines-one (c ∷ s) h = ground (arith, lines-one s)

dashed : (fact : List ℕ) → multi_line fact ≡ false → multi_line (dash ++ fact) ≡ false
dashed fact h = ground arith

is_line_of-dash : (fact : List ℕ) → is_line_of fact (dash ++ fact) ≡ true
is_line_of-dash fact = same_bytes_refl fact

-- A text that is empty or ends in a line feed.
pub data Whole : List ℕ → Type 0 where
  nothing : Whole []
  ends : (x : List ℕ) → Whole (x ++ 0x0a ∷ [])

present-new :
    (fact existing : List ℕ)
    → Whole existing
    → multi_line fact ≡ false
    → present fact (lines (existing ++ (dash ++ (fact ++ 0x0a ∷ [])))) ≡ true
unfolding present
present-new fact existing nothing h =
    rw (lines-one (dash ++ fact) (dashed fact h)) (rw (is_line_of-dash fact) refl)
present-new fact existing (ends x) h =
    let y = dash ++ (fact ++ 0x0a ∷ []) in
    rw (append_assoc x (0x0a ∷ []) y, lines-append x y)
      (present-append fact (lines (x ++ 0x0a ∷ [])) (lines y)
        (rw (lines-one (dash ++ fact) (dashed fact h)) (rw (is_line_of-dash fact) refl)))

strip_prefix-some : (p s rest : List ℕ) → strip_prefix p s ≡ some rest → s ≡ p ++ rest
strip_prefix-some [] s rest h = ground (arith, h)
strip_prefix-some (c ∷ p) [] rest h = absurd (ground (arith, h))
strip_prefix-some (c ∷ p) (d ∷ s) rest h = ground (arith, strip_prefix-some p s rest, ==_iff d c)

is_line_of-eq : (fact line : List ℕ) → is_line_of fact line ≡ true → line ≡ dash ++ fact
is_line_of-eq fact line h = elim (Option-cases (strip_prefix dash line)) [
  | inl e ↦ absurd (false≢true (rw e at h))
  | inr (rest, e) ↦
      strip_prefix-some dash line rest e ∙ ap (λ r. dash ++ r) (same_bytes→eq rest fact (rw e at h))
]

-- A list of lines of which one is a hyphen, a space and the text.
pub record Has (fact : List ℕ) (ls : List (List ℕ)) : Type 0 where
  pub before : List (List ℕ)
  pub after : List (List ℕ)
  pub split : ls ≡ before ++ (b'-' ∷ b' ' ∷ fact) ∷ after

present-Has : (fact : List ℕ) (ls : List (List ℕ)) → present fact ls ≡ true → Has fact ls
unfolding present
present-Has fact [] h = absurd (false≢true h)
present-Has fact (l ∷ ls) h = elim (Bool-cases (is_line_of fact l)) [
  | inl this ↦ record {
    before = [];
    after = ls;
    split = ap (λ x. x ∷ ls) (is_line_of-eq fact l this);
  }
  | inr other ↦
      let rest = present-Has fact ls (rw other at h) in
      record { before = l ∷ rest.before; after = rest.after; split = ap (λ x. l ∷ x) rest.split }
]

present-append_pref :
    (persists : Bool) (fact : List ℕ) (file after : Option (List ℕ))
    → Whole (or_empty file)
    → append_pref persists fact file ≡ (ok, after)
    → present fact (lines (or_empty after)) ≡ true
unfolding append_pref or_empty
present-append_pref persists fact file after w h = elim (Bool-cases (multi_line fact)) [
  | inl many ↦ absurd (ground (arith, many))
  | inr one ↦ elim (Bool-cases (present fact (lines (or_empty file)))) [
    | inl there ↦
        subst (λ f. present fact (lines (or_empty f)) ≡ true) {x = file} {y = after}
          (ground (arith, one, there)) there
    | inr new ↦
        subst (λ f. present fact (lines (or_empty f)) ≡ true)
          {x = some (or_empty file ++ (dash ++ (fact ++ 0x0a ∷ [])))} {y = after}
          (ground (arith, one, new)) (present-new fact (or_empty file) w one)
  ]
]

-- After a preference was saved in a file that was absent, empty or ended in a line feed, one line of
-- the file is a hyphen, a space and the preference.
pub append_pref-present :
    (persists : Bool) (fact : List ℕ) (file after : Option (List ℕ))
    → Whole (or_empty file)
    → append_pref persists fact file ≡ (ok, after)
    → Has fact (lines (or_empty after))
append_pref-present persists fact file after w h =
    present-Has fact (lines (or_empty after)) (present-append_pref persists fact file after w h)
