-- ===== src/Sanitize/Envelope.antt =====
-- The envelope around the output of a tool.
use lacs.Prelude.{
  ◌&&◌, subst, some-injective, append_assoc, ℕ, ◌+◌, ◌-◌, ◌≡◌, refl, sym, ◌∙◌, true, false,
  Bool-cases, inl, inr, some, List, [], ◌∷◌, ◌++◌, map, arith, leb, ◌==◌, not, all, length,
  if◌then◌else◌, Option-cases,
}
use lacs.Prelude.Text.{codes, encode}
use lacs.Validate.{starts_with, is_empty}
use lacs.Sanitize.{
  closing_tag, cut, truncate_with_marker, marker, sanitise_tool_name, is_name_char,
  neutralise_envelope_tags, collapse_blank_runs, strip_ansi, strip_dangerous_unicode,
  normalise_free_text, sanitize_tool_output, max_output_bytes,
}
use lacs.Sanitize.Tags.{occurs, closing_rest, neutralised-closed}

-- At how many places a text stands in another.
unfoldable pub occurrences : List ℕ → List ℕ → ℕ
occurrences p [] = 0
occurrences p (c ∷ cs) = (if starts_with p (c ∷ cs) then 1 else 0) + occurrences p cs

occurrences-zero : (p s : List ℕ) → occurs p s ≡ false → occurrences p s ≡ 0
unfolding occurs occurrences
occurrences-zero p [] h = refl
occurrences-zero p (c ∷ cs) h = ground (arith, occurrences-zero p cs)

abbrev OneLine : List ℕ → Type 0
OneLine q = all (λ c. not (c == 0x0a)) q ≡ true

-- A line feed after a text cannot complete a tag.
starts_with-feed :
    (q rest s : List ℕ)
    → OneLine q
    → starts_with q (s ++ 0x0a ∷ rest) ≡ true
    → starts_with q s ≡ true
starts_with-feed [] rest s h k = refl
starts_with-feed (a ∷ q) rest [] h k = absurd (ground arith)
starts_with-feed (a ∷ q) rest (c ∷ cs) h k = ground (arith, starts_with-feed q rest cs)

starts_with-cut :
    (q : List ℕ) (b : ℕ) (s : List ℕ) → starts_with q (cut b s) ≡ true → starts_with q s ≡ true
unfolding cut
starts_with-cut [] b s h = refl
starts_with-cut (a ∷ q) b [] h = h
starts_with-cut (a ∷ q) b (c ∷ cs) h =
    ground (arith, starts_with-cut q (b - length (encode (c ∷ []))) cs)

-- Before a line feed the tags are those of the text itself.
occurrences-feed :
    (a : ℕ) (q rest s : List ℕ)
    → OneLine (a ∷ q)
    → occurrences (a ∷ q) s ≡ 0
    → occurrences (a ∷ q) (s ++ 0x0a ∷ rest) ≡ occurrences (a ∷ q) rest
unfolding occurrences
occurrences-feed a q rest [] h k = ground arith
occurrences-feed a q rest (c ∷ cs) h k =
    ground (arith, starts_with-feed q rest cs, occurrences-feed a q rest cs h)

occurrences-cut :
    (a : ℕ) (q : List ℕ) (b : ℕ) (s : List ℕ)
    → occurrences (a ∷ q) s ≡ 0
    → occurrences (a ∷ q) (cut b s) ≡ 0
unfolding occurrences cut
occurrences-cut a q b [] h = refl
occurrences-cut a q b (c ∷ cs) h =
    let w = length (encode (c ∷ [])) in
    ground (arith, starts_with-cut q (b - w) cs, occurrences-cut a q (b - w) cs)

occurrences-marker : occurrences closing_tag (codes "[...truncated]") ≡ 0
unfolding occurrences
occurrences-marker = refl

occurrences-truncate :
    (s : List ℕ) (max : ℕ)
    → occurrences closing_tag s ≡ 0
    → occurrences closing_tag (truncate_with_marker s max) ≡ 0
unfolding truncate_with_marker
occurrences-truncate s max h = elim (Bool-cases (leb (length (encode s)) max)) [
  | inl fits ↦ rw fits h
  | inr long ↦
      let b = max - length (encode marker) in
      rw long (
        occurrences-feed b'<' closing_rest (codes "[...truncated]") (cut b s) refl
          (occurrences-cut b'<' closing_rest b s h)
        ∙ occurrences-marker)
]

-- A text without `<` before another.
occurrences-skip :
    (q x r : List ℕ)
    → all (λ c. not (c == b'<')) x ≡ true
    → occurrences (b'<' ∷ q) (x ++ r) ≡ occurrences (b'<' ∷ q) r
unfolding occurrences
occurrences-skip q [] r h = refl
occurrences-skip q (c ∷ x) r h = ground (arith, occurrences-skip q x r)

abbrev Plain : List ℕ → Type 0
Plain s = all (λ c. not (c == b'<')) s ≡ true

Plain-of_name : (s : List ℕ) → all is_name_char s ≡ true → Plain s
Plain-of_name [] h = refl
Plain-of_name (c ∷ cs) h = ground (arith, Plain-of_name cs)

Plain-cleaned : (s : List ℕ) → Plain (map (λ c. if is_name_char c then c else b'_') s)
Plain-cleaned [] = refl
Plain-cleaned (c ∷ cs) = ground (arith, Plain-cleaned cs)

Plain-sanitise_tool_name : (name : List ℕ) → Plain (sanitise_tool_name name)
unfolding sanitise_tool_name
Plain-sanitise_tool_name name = elim (Bool-cases (all is_name_char name && not (is_empty name))) [
  | inl good ↦ rw good (Plain-of_name name (ground arith))
  | inr bad ↦ elim (Bool-cases (is_empty (map (λ c. if is_name_char c then c else b'_') name))) [
    | inl nothing ↦ rw (bad, nothing) refl
    | inr something ↦ rw (bad, something) (Plain-cleaned name)
  ]
]

-- One closing tag, that of the envelope.
occurrences-closing : occurrences closing_tag closing_tag ≡ 1
unfolding occurrences
occurrences-closing = refl

occurrences-opening :
    (r : List ℕ)
    → occurrences closing_tag (codes "<untrusted_tool_output source=\"" ++ r)
      ≡ occurrences closing_tag r
unfolding occurrences
occurrences-opening r = omega arith

abbrev source_attribute : List ℕ
source_attribute = codes "<untrusted_tool_output source=\""

abbrev enveloped : List ℕ → List ℕ → List ℕ
enveloped name body =
    source_attribute ++ (name ++ (codes "\">\n" ++ (body ++ (0x0a ∷ closing_tag))))

occurrences-enveloped :
    (name body : List ℕ)
    → Plain name
    → occurrences closing_tag body ≡ 0
    → occurrences closing_tag (enveloped name body) ≡ 1
occurrences-enveloped name body h k =
    occurrences-opening (name ++ (codes "\">\n" ++ (body ++ (0x0a ∷ closing_tag))))
    ∙ occurrences-skip closing_rest name (codes "\">\n" ++ (body ++ (0x0a ∷ closing_tag))) h
    ∙ occurrences-skip closing_rest (codes "\">\n") (body ++ (0x0a ∷ closing_tag)) refl
    ∙ occurrences-feed b'<' closing_rest closing_tag body refl k
    ∙ occurrences-closing

regroup :
    (a b c d e : List ℕ)
    → a ++ (b ++ (c ++ (d ++ 0x0a ∷ e))) ≡ (a ++ (b ++ (c ++ (d ++ 0x0a ∷ [])))) ++ e
regroup a b c d e =
    rw
      (
        append_assoc a (b ++ (c ++ (d ++ 0x0a ∷ []))) e,
        append_assoc b (c ++ (d ++ 0x0a ∷ [])) e,
        append_assoc c (d ++ 0x0a ∷ []) e,
        append_assoc d (0x0a ∷ []) e,
      )
      refl

enveloped-ends :
    (name body : List ℕ)
    → enveloped name body
      ≡ (source_attribute ++ (name ++ (codes "\">\n" ++ (body ++ 0x0a ∷ [])))) ++ closing_tag
enveloped-ends name body = regroup source_attribute name (codes "\">\n") body closing_tag

-- What is put in the envelope.
unfoldable pub body_of : (List ℕ → List ℕ) → List ℕ → List ℕ
body_of nfc_normalise s =
    truncate_with_marker
      (collapse_blank_runs (neutralise_envelope_tags (nfc_normalise (strip_dangerous_unicode s))))
      max_output_bytes

sanitize_tool_output-stripped :
    (nfc_normalise : List ℕ → List ℕ) (tool_name raw s : List ℕ)
    → strip_ansi raw ≡ some s
    → sanitize_tool_output nfc_normalise tool_name raw
      ≡ some (enveloped (sanitise_tool_name tool_name) (body_of nfc_normalise s))
unfolding sanitize_tool_output normalise_free_text body_of
sanitize_tool_output-stripped nfc_normalise tool_name raw s e =
    rw (sanitize_tool_output, normalise_free_text, e) refl

body_of-closed :
    (nfc_normalise : List ℕ → List ℕ) (s : List ℕ)
    → occurrences closing_tag (body_of nfc_normalise s) ≡ 0
unfolding body_of
body_of-closed nfc_normalise s =
    let t = nfc_normalise (strip_dangerous_unicode s) in
    occurrences-truncate (collapse_blank_runs (neutralise_envelope_tags t)) max_output_bytes (
      occurrences-zero closing_tag (collapse_blank_runs (neutralise_envelope_tags t))
        (neutralised-closed t))

-- A text of a tool that is made safe has the closing tag of the envelope at one place, which is
-- where it ends, whatever the text is and whatever its normal form.
pub sanitize_tool_output-closed :
    (nfc_normalise : List ℕ → List ℕ) (tool_name raw out : List ℕ)
    → sanitize_tool_output nfc_normalise tool_name raw ≡ some out
    → (occurrences closing_tag out ≡ 1) × ((before : List ℕ) × (out ≡ before ++ closing_tag))
unfolding sanitize_tool_output normalise_free_text
sanitize_tool_output-closed nfc tool_name raw out h = elim (Option-cases (strip_ansi raw)) [
  | inl e ↦ absurd (ground arith)
  | inr (s, e) ↦
      let name = sanitise_tool_name tool_name in
      let body = body_of nfc s in
      let same : enveloped name body ≡ out =
        some-injective (enveloped name body) out
          (sym (sanitize_tool_output-stripped nfc tool_name raw s e) ∙ h) in
      (
        subst (λ t. occurrences closing_tag t ≡ 1) same
            (occurrences-enveloped name body (Plain-sanitise_tool_name tool_name)
              (body_of-closed nfc s)),
        (
          source_attribute ++ (name ++ (codes "\">\n" ++ (body ++ 0x0a ∷ []))),
          sym same ∙ enveloped-ends name body,
        ),
      )
]
