-- ===== src/Sanitize/Tags.antt =====
-- The closing tag of the envelope.
use lacs.Prelude.{
  ℕ, zero, suc, ◌-◌, ◌≡◌, refl, ◌∙◌, Bool, true, false, Bool-cases, inl, inr, List, [], ◌∷◌, ◌++◌,
  arith, ltb, ◌==◌, ◌||◌, not, all, length,
}
use lacs.Prelude.Text.{codes}
use lacs.Validate.{starts_with}
use lacs.Sanitize.{
  replace_from, closing_tag, opening_tag, neutralise_envelope_tags, collapse_from,
  collapse_blank_runs,
}

-- A text stands somewhere in another.
unfoldable pub occurs : List ℕ → List ℕ → Bool
occurs p [] = starts_with p []
occurs p (c ∷ cs) = starts_with p (c ∷ cs) || occurs p cs

abbrev LacksLt : List ℕ → Type 0
LacksLt q = all (λ c. not (c == b'<')) q ≡ true

-- Up to the first `<` a replacement of tags changes nothing.
starts_with-replace :
    (pattern by q s : List ℕ)
    → LacksLt q
    → starts_with q (replace_from (b'<' ∷ pattern) (b'<' ∷ by) 0 s) ≡ true
    → starts_with q s ≡ true
unfolding replace_from
starts_with-replace pattern by [] s h k = refl
starts_with-replace pattern by (a ∷ q) [] h k = k
starts_with-replace pattern by (a ∷ q) (c ∷ cs) h k =
    elim (Bool-cases (starts_with (b'<' ∷ pattern) (c ∷ cs))) [
      | inl found ↦ ground arith
      | inr other ↦ ground (arith, starts_with-replace pattern by q cs)
    ]

pub replace_from-found :
    (p by : List ℕ) (c : ℕ) (cs : List ℕ)
    → starts_with p (c ∷ cs) ≡ true
    → replace_from p by 0 (c ∷ cs) ≡ by ++ replace_from p by (length p - 1) cs
unfolding replace_from
replace_from-found p by c cs h = rw (replace_from, h) refl

pub replace_from-other :
    (p by : List ℕ) (c : ℕ) (cs : List ℕ)
    → starts_with p (c ∷ cs) ≡ false
    → replace_from p by 0 (c ∷ cs) ≡ c ∷ replace_from p by 0 cs
unfolding replace_from
replace_from-other p by c cs h = rw (replace_from, h) refl

-- A tag is at the front, or in what follows.
occurs_cons :
    (p : List ℕ) (c : ℕ) (cs : List ℕ)
    → starts_with p (c ∷ cs) ≡ false
    → occurs p cs ≡ false
    → occurs p (c ∷ cs) ≡ false
unfolding occurs
occurs_cons p c cs h k = rw (h, k) refl

occurs_tail :
    (p : List ℕ) (c : ℕ) (cs : List ℕ)
    → occurs p (c ∷ cs) ≡ false
    → (starts_with p (c ∷ cs) ≡ false) × (occurs p cs ≡ false)
unfolding occurs
occurs_tail p c cs h = ground arith

pub not_true : {b d : Bool} → (b ≡ true → d ≡ true) → d ≡ false → b ≡ false
not_true {b = b} {d = d} h k = ground arith

-- A tag that begins before a text that was searched begins there without the search too.
starts_with-replace_cons :
    (pattern by q cs : List ℕ) (c : ℕ)
    → LacksLt q
    → starts_with (b'<' ∷ q) (c ∷ replace_from (b'<' ∷ pattern) (b'<' ∷ by) 0 cs) ≡ true
    → starts_with (b'<' ∷ q) (c ∷ cs) ≡ true
starts_with-replace_cons pattern by q cs c h k =
    ground (arith, starts_with-replace pattern by q cs h)

abbrev pub closing_rest : List ℕ
closing_rest = codes "/untrusted_tool_output>"

abbrev opening_rest : List ℕ
opening_rest = codes "untrusted_tool_output"

occurs-nil : occurs closing_tag [] ≡ false
unfolding occurs
occurs-nil = refl

occurs-blocked_closing :
    (r : List ℕ)
    → occurs closing_tag (codes "</untrusted_tool_output_BLOCKED>" ++ r) ≡ occurs closing_tag r
unfolding occurs
occurs-blocked_closing r = refl

occurs-blocked_opening :
    (r : List ℕ)
    → occurs closing_tag (codes "<untrusted_tool_output_BLOCKED" ++ r) ≡ occurs closing_tag r
unfolding occurs
occurs-blocked_opening r = refl

-- The first replacement leaves no closing tag, wherever it starts to look.
replace_from-closing :
    (skip : ℕ) (s : List ℕ)
    → occurs closing_tag
        (replace_from closing_tag (codes "</untrusted_tool_output_BLOCKED>") skip s)
      ≡ false
unfolding replace_from
replace_from-closing skip [] = occurs-nil
replace_from-closing (suc skip) (c ∷ cs) = replace_from-closing skip cs
replace_from-closing zero (c ∷ cs) = elim (Bool-cases (starts_with closing_tag (c ∷ cs))) [
  | inl found ↦
      rw (replace_from-found closing_tag (codes "</untrusted_tool_output_BLOCKED>") c cs found)
        (occurs-blocked_closing _ ∙ replace_from-closing (length closing_tag - 1) cs)
  | inr other ↦
      rw (replace_from-other closing_tag (codes "</untrusted_tool_output_BLOCKED>") c cs other) (
        occurs_cons closing_tag c _
          (not_true
            (starts_with-replace_cons closing_rest (codes "/untrusted_tool_output_BLOCKED>")
              closing_rest cs c refl)
            other)
          (replace_from-closing zero cs))
]

-- The second one brings none back.
replace_from-opening :
    (skip : ℕ) (s : List ℕ)
    → occurs closing_tag s ≡ false
    → occurs closing_tag (replace_from opening_tag (codes "<untrusted_tool_output_BLOCKED") skip s)
      ≡ false
unfolding replace_from
replace_from-opening skip [] h = h
replace_from-opening (suc skip) (c ∷ cs) h =
    replace_from-opening skip cs (occurs_tail closing_tag c cs h).1
replace_from-opening zero (c ∷ cs) h =
    let (front, later) = occurs_tail closing_tag c cs h in
    elim (Bool-cases (starts_with opening_tag (c ∷ cs))) [
      | inl found ↦
          rw (replace_from-found opening_tag (codes "<untrusted_tool_output_BLOCKED") c cs found)
            (occurs-blocked_opening _ ∙ replace_from-opening (length opening_tag - 1) cs later)
      | inr other ↦
          rw (replace_from-other opening_tag (codes "<untrusted_tool_output_BLOCKED") c cs other) (
            occurs_cons closing_tag c _
              (not_true
                (starts_with-replace_cons opening_rest (codes "untrusted_tool_output_BLOCKED")
                  closing_rest cs c refl)
                front)
              (replace_from-opening zero cs later))
    ]

starts_with-collapse :
    (q s : List ℕ)
    → all (λ c. not (c == 0x0a)) q ≡ true
    → starts_with q (collapse_from 0 s) ≡ true
    → starts_with q s ≡ true
unfolding collapse_from
starts_with-collapse [] s h k = refl
starts_with-collapse (a ∷ q) [] h k = k
starts_with-collapse (a ∷ q) (c ∷ cs) h k = ground (arith, starts_with-collapse q cs)

starts_with-collapse_cons :
    (q cs : List ℕ) (a c : ℕ)
    → all (λ c. not (c == 0x0a)) q ≡ true
    → starts_with (a ∷ q) (c ∷ collapse_from 0 cs) ≡ true
    → starts_with (a ∷ q) (c ∷ cs) ≡ true
starts_with-collapse_cons q cs a c h k = ground (arith, starts_with-collapse q cs h)

not_front : (a c : ℕ) (q r : List ℕ) → (c == a) ≡ false → starts_with (a ∷ q) (c ∷ r) ≡ false
not_front a c q r h = ground arith

occurs-collapse :
    (n : ℕ) (s : List ℕ)
    → occurs closing_tag s ≡ false
    → occurs closing_tag (collapse_from n s) ≡ false
unfolding collapse_from
occurs-collapse n [] h = h
occurs-collapse n (c ∷ cs) h =
    let (front, later) = occurs_tail closing_tag c cs h in
    elim (Bool-cases (c == 0x0a)) [
      | inl feed ↦ elim (Bool-cases (ltb 2 (suc n))) [
        | inl more ↦ rw (feed, more) (occurs-collapse (suc n) cs later)
        | inr few ↦
            rw (feed, few)
              (occurs_cons closing_tag c _
                (not_front b'<' c closing_rest (collapse_from (suc n) cs) (ground arith))
                (occurs-collapse (suc n) cs later))
      ]
      | inr other ↦ rw other (
          occurs_cons closing_tag c _
            (not_true (starts_with-collapse_cons closing_rest cs b'<' c refl) front)
            (occurs-collapse 0 cs later))
    ]

pub neutralised-closed :
    (s : List ℕ) → occurs closing_tag (collapse_blank_runs (neutralise_envelope_tags s)) ≡ false
unfolding collapse_blank_runs neutralise_envelope_tags
neutralised-closed s =
    occurs-collapse 0
      (replace_from opening_tag (codes "<untrusted_tool_output_BLOCKED") 0
        (replace_from closing_tag (codes "</untrusted_tool_output_BLOCKED>") 0 s))
      (replace_from-opening 0
        (replace_from closing_tag (codes "</untrusted_tool_output_BLOCKED>") 0 s)
        (replace_from-closing 0 s))
