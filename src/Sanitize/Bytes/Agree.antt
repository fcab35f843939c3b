-- ===== src/Sanitize/Bytes/Agree.antt =====
-- `strip_ansi` of crates/sysknife-brain/src/sanitize.rs on the bytes of a text, against the pass over
-- its characters.
use lacs.Prelude.{
  ℕ, ◌≡◌, ◌≤◌, ◌<◌, refl, sym, ap, ◌∙◌, true, false, ◌&&◌, inl, inr, Bool-cases, none, some, List,
  [], ◌∷◌, ◌++◌, arith, ltb, leb, ◌==◌, append-nil,
}
use lacs.Prelude.Text.{utf8, encode}
use lacs.Validate.{starts_with_char}
use lacs.Sanitize.{
  Mode, text, esc, csi, osc, osc_end, designator, is_charset, next_mode, pushed, prepend,
  strip_from, strip_ansi,
}
use lacs.Sanitize.Escapes.{NoEsc, strip_ansi-panics}
use lacs.Sanitize.Bytes.{
  is_continuation, ByteMode, at, in_char, next_byte, strip_bytes, strip_ansi_bytes, encoded,
  utf8-Wide, utf8-ascii, strip_bytes-step, strip_bytes-panic, prepend-nil, prepend-append,
  csi-conts, osc-conts, char-conts, char-end, starts-encode, encoded-prepend, strip_from-eq,
}

-- A character beyond ASCII: at the head of the loop it is pushed whole, in a sequence it is skipped
-- whole, and where one byte alone is skipped the next slice panics.
wide_pushed :
    (c : ℕ) (cs : List ℕ)
    → 128 ≤ c
    → strip_bytes (at text) (utf8 c ++ encode cs)
      ≡ prepend (utf8 c) (strip_bytes (at text) (encode cs))
unfolding next_byte is_continuation
wide_pushed c cs h =
    let w = utf8-Wide c h in
    let ks = w.second ∷ w.others in
    rw w.split (
      strip_bytes-step (at text) in_char true w.lead (ks ++ encode cs) (ground (arith, w.high))
      ∙ ap (prepend (w.lead ∷ []))
          (char-conts ks (encode cs) w.conts ∙ ap (prepend ks) (char-end cs))
      ∙ prepend-append (w.lead ∷ []) ks (strip_bytes (at text) (encode cs)))

wide_csi :
    (c : ℕ) (r : List ℕ) → 128 ≤ c → strip_bytes (at csi) (utf8 c ++ r) ≡ strip_bytes (at csi) r
unfolding next_byte
wide_csi c r h =
    let w = utf8-Wide c h in
    rw w.split (
      strip_bytes-step (at csi) (at csi) false w.lead (w.second ∷ w.others ++ r)
        (ground (arith, w.high))
      ∙ prepend-nil _
      ∙ csi-conts (w.second ∷ w.others) r w.conts)

wide_osc :
    (c : ℕ) (r : List ℕ) → 128 ≤ c → strip_bytes (at osc) (utf8 c ++ r) ≡ strip_bytes (at osc) r
unfolding next_byte
wide_osc c r h =
    let w = utf8-Wide c h in
    rw w.split (
      strip_bytes-step (at osc) (at osc) false w.lead (w.second ∷ w.others ++ r)
        (ground (arith, w.high))
      ∙ prepend-nil _
      ∙ osc-conts (w.second ∷ w.others) r w.conts)

wide_skipped :
    (m : ByteMode) (c : ℕ) (r : List ℕ)
    → ((b : ℕ) (bs : List ℕ) → 192 ≤ b → next_byte m b bs ≡ some (false, at text))
    → 128 ≤ c
    → strip_bytes m (utf8 c ++ r) ≡ none
unfolding next_byte is_continuation
wide_skipped m c r skips h =
    let w = utf8-Wide c h in
    rw w.split (
      strip_bytes-step m (at text) false w.lead (w.second ∷ w.others ++ r) (skips w.lead _ w.high)
      ∙ prepend-nil _
      ∙ strip_bytes-panic (at text) w.second (w.others ++ r) (ground (arith, w.conts.0)))

-- One character of ASCII in a sequence.
narrow_lem :
    (m m' : Mode) (c : ℕ) (cs : List ℕ)
    → c < 128
    → next_mode m c cs ≡ some m'
    → next_byte (at m) c (encode cs) ≡ some (false, at m')
    → pushed m c ≡ []
    → strip_bytes (at m') (encode cs) ≡ encoded (strip_from m' cs)
    → strip_bytes (at m) (utf8 c ++ encode cs) ≡ encoded (strip_from m (c ∷ cs))
narrow_lem m m' c cs h e b p k = rw (utf8-ascii c h) (
    strip_bytes-step (at m) (at m') false c (encode cs) b
    ∙ prepend-nil _
    ∙ k
    ∙ ap encoded (
        sym (strip_from-eq m m' c cs e ∙ ap (λ x. prepend x (strip_from m' cs)) p ∙ prepend-nil _)))

strip_from-panic :
    (m : Mode) (c : ℕ) (cs : List ℕ) → next_mode m c cs ≡ none → strip_from m (c ∷ cs) ≡ none
unfolding strip_from
strip_from-panic m c cs h = rw (h, strip_from) refl

-- A character that is pushed.
pushed_lem :
    (c : ℕ) (cs : List ℕ)
    → (c == 0x1b) ≡ false
    → strip_bytes (at text) (encode cs) ≡ encoded (strip_from text cs)
    → strip_bytes (at text) (utf8 c ++ encode cs) ≡ encoded (strip_from text (c ∷ cs))
unfolding next_mode pushed next_byte is_continuation encode
pushed_lem c cs plain k =
    let stepped : strip_from text (c ∷ cs) ≡ prepend (c ∷ []) (strip_from text cs) =
      strip_from-eq text text c cs (rw plain refl)
      ∙ ap (λ x. prepend x (strip_from text cs)) {x = pushed text c} {y = c ∷ []} (rw plain refl) in
    let bytes : strip_bytes (at text) (utf8 c ++ encode cs)
        ≡ prepend (utf8 c) (strip_bytes (at text) (encode cs)) =
      elim (Bool-cases (ltb c 128)) [
        | inr large ↦ wide_pushed c cs (ground (arith, large))
        | inl small ↦ rw (utf8-ascii c (ground (arith, small))) (
            strip_bytes-step (at text) in_char true c (encode cs) (ground (arith, small, plain))
            ∙ ap (prepend (c ∷ [])) (char-end cs))
      ] in
    bytes
    ∙ ap (prepend (utf8 c)) k
    ∙ ap (λ x. prepend x (encoded (strip_from text cs))) (sym (append-nil (utf8 c)))
    ∙ sym (encoded-prepend (c ∷ []) (strip_from text cs))
    ∙ ap encoded (sym stepped)

skipped_lem :
    (m : Mode) (c : ℕ) (cs : List ℕ)
    → ((b : ℕ) (bs : List ℕ) → 192 ≤ b → next_byte (at m) b bs ≡ some (false, at text))
    → 128 ≤ c
    → next_mode m c cs ≡ none
    → strip_bytes (at m) (utf8 c ++ encode cs) ≡ encoded (strip_from m (c ∷ cs))
skipped_lem m c cs skips h e =
    wide_skipped (at m) c (encode cs) skips h ∙ ap encoded (sym (strip_from-panic m c cs e))

stays_lem :
    (m : Mode) (c : ℕ) (cs : List ℕ)
    → next_mode m c cs ≡ some m
    → pushed m c ≡ []
    → strip_bytes (at m) (utf8 c ++ encode cs) ≡ strip_bytes (at m) (encode cs)
    → strip_bytes (at m) (encode cs) ≡ encoded (strip_from m cs)
    → strip_bytes (at m) (utf8 c ++ encode cs) ≡ encoded (strip_from m (c ∷ cs))
stays_lem m c cs e p skipped k =
    skipped
    ∙ k
    ∙ ap encoded
        (sym (strip_from-eq m m c cs e ∙ ap (λ x. prepend x (strip_from m cs)) p ∙ prepend-nil _))

-- What the passes agree on behind a character.
abbrev Agrees : List ℕ → Type 0
Agrees cs = (m : Mode) → strip_bytes (at m) (encode cs) ≡ encoded (strip_from m cs)

text_lem :
    (c : ℕ) (cs : List ℕ)
    → Agrees cs
    → strip_bytes (at text) (utf8 c ++ encode cs) ≡ encoded (strip_from text (c ∷ cs))
unfolding next_mode next_byte pushed
text_lem c cs k = elim (Bool-cases (c == 0x1b)) [
  | inl e ↦ narrow_lem text esc c cs (ground (arith, e)) (rw e refl) (rw e refl) (rw e refl) (k esc)
  | inr e ↦ pushed_lem c cs e (k text)
]

csi_lem :
    (c : ℕ) (cs : List ℕ)
    → Agrees cs
    → strip_bytes (at csi) (utf8 c ++ encode cs) ≡ encoded (strip_from csi (c ∷ cs))
unfolding next_mode next_byte pushed
csi_lem c cs k = elim (Bool-cases (ltb c 128)) [
  | inr large ↦
      stays_lem csi c cs (ground (arith, large)) refl
        (wide_csi c (encode cs) (ground (arith, large))) (k csi)
  | inl small ↦ elim (Bool-cases (leb 0x40 c && leb c 0x7e)) [
    | inl e ↦ narrow_lem csi text c cs (ground (arith, small)) (rw e refl) (rw e refl) refl (k text)
    | inr e ↦ narrow_lem csi csi c cs (ground (arith, small)) (rw e refl) (rw e refl) refl (k csi)
  ]
]

osc_lem :
    (c : ℕ) (cs : List ℕ)
    → Agrees cs
    → strip_bytes (at osc) (utf8 c ++ encode cs) ≡ encoded (strip_from osc (c ∷ cs))
unfolding next_mode next_byte pushed
osc_lem c cs k = elim (Bool-cases (ltb c 128)) [
  | inr large ↦
      stays_lem osc c cs (ground (arith, large)) refl
        (wide_osc c (encode cs) (ground (arith, large))) (k osc)
  | inl small ↦ elim (Bool-cases (c == 0x07)) [
    | inl bell ↦
        narrow_lem osc text c cs (ground (arith, small)) (rw bell refl) (rw bell refl) refl (k text)
    | inr other ↦ elim (Bool-cases (c == 0x1b && starts_with_char 0x5c cs)) [
      | inl e ↦
          narrow_lem osc osc_end c cs (ground (arith, small)) (rw (other, e) refl)
            (rw (other, starts-encode cs, e) refl) refl (k osc_end)
      | inr e ↦
          narrow_lem osc osc c cs (ground (arith, small)) (rw (other, e) refl)
            (rw (other, starts-encode cs, e) refl) refl (k osc)
    ]
  ]
]

esc_lem :
    (c : ℕ) (cs : List ℕ)
    → Agrees cs
    → strip_bytes (at esc) (utf8 c ++ encode cs) ≡ encoded (strip_from esc (c ∷ cs))
unfolding next_mode next_byte pushed
esc_lem c cs k = elim (Bool-cases (ltb c 128)) [
  | inr large ↦
      skipped_lem esc c cs (λ b bs h. ground arith) (ground (arith, large)) (ground (arith, large))
  | inl small ↦ elim (Bool-cases (c == b'[')) [
    | inl e ↦ narrow_lem esc csi c cs (ground (arith, small)) (rw e refl) (rw e refl) refl (k csi)
    | inr e ↦ elim (Bool-cases (c == b']')) [
      | inl e' ↦
          narrow_lem esc osc c cs (ground (arith, small)) (rw (e, e') refl) (rw (e, e') refl) refl
            (k osc)
      | inr e' ↦ elim (Bool-cases (is_charset c)) [
        | inl e'' ↦
            narrow_lem esc designator c cs (ground (arith, small)) (rw (e, e', e'') refl)
              (rw (e, e', e'') refl) refl (k designator)
        | inr e'' ↦
            narrow_lem esc text c cs (ground (arith, small)) (rw (e, e', e'', small) refl)
              (rw (e, e', e'') refl) refl (k text)
      ]
    ]
  ]
]

osc_end_lem :
    (c : ℕ) (cs : List ℕ)
    → Agrees cs
    → strip_bytes (at osc_end) (utf8 c ++ encode cs) ≡ encoded (strip_from osc_end (c ∷ cs))
unfolding next_mode next_byte pushed
osc_end_lem c cs k = elim (Bool-cases (ltb c 128)) [
  | inr large ↦ skipped_lem osc_end c cs (λ b bs h. refl) (ground (arith, large)) (rw large refl)
  | inl small ↦
      narrow_lem osc_end text c cs (ground (arith, small)) (rw small refl) refl refl (k text)
]

designator_lem :
    (c : ℕ) (cs : List ℕ)
    → Agrees cs
    → strip_bytes (at designator) (utf8 c ++ encode cs) ≡ encoded (strip_from designator (c ∷ cs))
unfolding next_mode next_byte pushed
designator_lem c cs k = elim (Bool-cases (ltb c 128)) [
  | inr large ↦ skipped_lem designator c cs (λ b bs h. refl) (ground (arith, large)) (rw large refl)
  | inl small ↦
      narrow_lem designator text c cs (ground (arith, small)) (rw small refl) refl refl (k text)
]

-- The pass over the bytes of a text does what the pass over its characters does.
strip_bytes-encode :
    (m : Mode) (s : List ℕ) → strip_bytes (at m) (encode s) ≡ encoded (strip_from m s)
unfolding encode
strip_bytes-encode m [] = unfold strip_bytes in unfold strip_from in refl
strip_bytes-encode text (c ∷ cs) = text_lem c cs (λ m. strip_bytes-encode m cs)
strip_bytes-encode csi (c ∷ cs) = csi_lem c cs (λ m. strip_bytes-encode m cs)
strip_bytes-encode osc (c ∷ cs) = osc_lem c cs (λ m. strip_bytes-encode m cs)
strip_bytes-encode esc (c ∷ cs) = esc_lem c cs (λ m. strip_bytes-encode m cs)
strip_bytes-encode osc_end (c ∷ cs) = osc_end_lem c cs (λ m. strip_bytes-encode m cs)
strip_bytes-encode designator (c ∷ cs) = designator_lem c cs (λ m. strip_bytes-encode m cs)

pub strip_ansi_bytes-encode : (s : List ℕ) → strip_ansi_bytes (encode s) ≡ encoded (strip_ansi s)
unfolding strip_ansi_bytes strip_ansi
strip_ansi_bytes-encode s = strip_bytes-encode text s

-- On a text in which the first ESC stands before a character beyond ASCII, `strip_ansi` slices inside
-- that character, and panics.
pub strip_ansi_bytes-panics :
    (pre rest : List ℕ) (c : ℕ)
    → NoEsc pre
    → 128 ≤ c
    → strip_ansi_bytes (encode (pre ++ 0x1b ∷ c ∷ rest)) ≡ none
strip_ansi_bytes-panics pre rest c h k =
    strip_ansi_bytes-encode (pre ++ 0x1b ∷ c ∷ rest) ∙ ap encoded (strip_ansi-panics pre rest c h k)
