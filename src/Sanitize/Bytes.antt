-- ===== src/Sanitize/Bytes.antt =====
-- `strip_ansi` and `next_char_boundary` of crates/sysknife-brain/src/sanitize.rs on the bytes of a
-- text, in one pass: the mode says what the loops of the code do at the index.
pub mod Agree
use lacs.Prelude.{
  ℕ, ◌+◌, ◌/◌, ◌%◌, ◌≡◌, ◌≤◌, ◌<◌, refl, sym, ap, subst, ◌∙◌, Bool, true, false, ◌&&◌, ◌⊎◌, inl,
  inr, Bool-cases, Option, none, some, List, [], ◌∷◌, ◌++◌, All, all, arith, ltb, leb, ◌==◌,
  append_assoc, append-nil, if◌then◌else◌,
}
use lacs.Prelude.Text.{utf8, encode, encode-append}
use lacs.Validate.{starts_with_char}
use lacs.Sanitize.{
  Mode, text, esc, csi, osc, osc_end, designator, is_charset, next_mode, pushed, prepend,
  strip_from, strip_ansi,
}
use lacs.Sanitize.Escapes.{NoEsc, strip_ansi-panics}

-- `!is_char_boundary` at a byte of a text.
unfoldable pub is_continuation : ℕ → Bool
is_continuation b = leb 0x80 b && leb b 0xbf

-- Where the loop stands: at a place of `Mode`, or behind the first byte of a character that is pushed,
-- where `next_char_boundary` looks for its end.
pub data ByteMode : Type 0 where
  at : Mode → ByteMode
  in_char : ByteMode

-- The head of the loop: a slice that does not start at the boundary of a character panics (`none`).
abbrev loop_head : ℕ → Option (Bool × ByteMode)
loop_head b =
    if b == 0x1b
    then some (false, at esc)
    else if is_continuation b
    then none
    else some (true, in_char)

-- Whether the byte is pushed, and where the loop stands behind it.
unfoldable pub next_byte : ByteMode → ℕ → List ℕ → Option (Bool × ByteMode)
unfolding is_continuation
next_byte in_char b bs = if is_continuation b then some (true, in_char) else loop_head b
next_byte (at text) b bs = loop_head b
next_byte (at esc) b bs =
    if b == b'['
    then some (false, at csi)
    else if b == b']'
    then some (false, at osc)
    else if is_charset b
    then some (false, at designator)
    else some (false, at text)
next_byte (at csi) b bs =
    if leb 0x40 b && leb b 0x7e then some (false, at text) else some (false, at csi)
next_byte (at osc) b bs =
    if b == 0x07
    then some (false, at text)
    else if b == 0x1b && starts_with_char 0x5c bs
    then some (false, at osc_end)
    else some (false, at osc)
next_byte (at osc_end) b bs = some (false, at text)
next_byte (at designator) b bs = some (false, at text)

unfoldable pub strip_bytes : ByteMode → List ℕ → Option (List ℕ)
unfolding next_byte
strip_bytes m [] = some []
strip_bytes m (b ∷ bs) = elim (next_byte m b bs) [
  | none ↦ none
  | some (keep, m') ↦ prepend (if keep then b ∷ [] else []) (strip_bytes m' bs)
]

unfoldable pub strip_ansi_bytes : List ℕ → Option (List ℕ)
unfolding strip_bytes
strip_ansi_bytes = strip_bytes (at text)

abbrev IsCont : ℕ → Type 0
IsCont b = (128 ≤ b) × (b < 192)

-- A character beyond ASCII: its first byte and those that follow.
pub record Wide (c : ℕ) : Type 0 where
  pub lead : ℕ
  pub second : ℕ
  pub others : List ℕ
  pub split : utf8 c ≡ lead ∷ second ∷ others
  pub high : 192 ≤ lead
  pub conts : All IsCont (second ∷ others)

IsCont-mod : (n : ℕ) → IsCont (128 + n % 64)
IsCont-mod n = omega arith

pub utf8-Wide : (c : ℕ) → 128 ≤ c → Wide c
unfolding utf8
utf8-Wide c h = elim (Bool-cases (ltb c 2048)) [
  | inl two ↦ record {
    lead = 192 + c / 64;
    second = 128 + c % 64;
    others = [];
    split = ground arith;
    high = omega arith;
    conts = (IsCont-mod c, tt);
  }
  | inr more ↦ elim (Bool-cases (ltb c 65536)) [
    | inl three ↦ record {
      lead = 224 + c / 4096;
      second = 128 + c / 64 % 64;
      others = (128 + c % 64) ∷ [];
      split = ground arith;
      high = omega arith;
      conts = (IsCont-mod (c / 64), (IsCont-mod c, tt));
    }
    | inr four ↦ record {
      lead = 240 + c / 262144;
      second = 128 + c / 4096 % 64;
      others = (128 + c / 64 % 64) ∷ (128 + c % 64) ∷ [];
      split = ground arith;
      high = omega arith;
      conts = (IsCont-mod (c / 4096), (IsCont-mod (c / 64), (IsCont-mod c, tt)));
    }
  ]
]

pub utf8-ascii : (c : ℕ) → c < 128 → utf8 c ≡ c ∷ []
unfolding utf8
utf8-ascii c h = ground arith

pub strip_bytes-step :
    (m m' : ByteMode) (keep : Bool) (b : ℕ) (bs : List ℕ)
    → next_byte m b bs ≡ some (keep, m')
    → strip_bytes m (b ∷ bs) ≡ prepend (if keep then b ∷ [] else []) (strip_bytes m' bs)
unfolding strip_bytes
strip_bytes-step m m' keep b bs h = rw (h, strip_bytes) refl

pub strip_bytes-panic :
    (m : ByteMode) (b : ℕ) (bs : List ℕ) → next_byte m b bs ≡ none → strip_bytes m (b ∷ bs) ≡ none
unfolding strip_bytes
strip_bytes-panic m b bs h = rw (h, strip_bytes) refl

pub prepend-nil : (o : Option (List ℕ)) → prepend [] o ≡ o
prepend-nil none = refl
prepend-nil (some s) = refl

pub prepend-append :
    (x y : List ℕ) (o : Option (List ℕ)) → prepend x (prepend y o) ≡ prepend (x ++ y) o
prepend-append x y none = refl
prepend-append x y (some s) = ap some (sym (append_assoc x y s))

pub csi-conts :
    (ks r : List ℕ) → All IsCont ks → strip_bytes (at csi) (ks ++ r) ≡ strip_bytes (at csi) r
unfolding next_byte
csi-conts [] r h = refl
csi-conts (k ∷ ks) r h =
    strip_bytes-step (at csi) (at csi) false k (ks ++ r) (ground (arith, h.0))
    ∙ prepend-nil _
    ∙ csi-conts ks r h.1

pub osc-conts :
    (ks r : List ℕ) → All IsCont ks → strip_bytes (at osc) (ks ++ r) ≡ strip_bytes (at osc) r
unfolding next_byte
osc-conts [] r h = refl
osc-conts (k ∷ ks) r h =
    strip_bytes-step (at osc) (at osc) false k (ks ++ r) (ground (arith, h.0))
    ∙ prepend-nil _
    ∙ osc-conts ks r h.1

pub char-conts :
    (ks r : List ℕ)
    → All IsCont ks
    → strip_bytes in_char (ks ++ r) ≡ prepend ks (strip_bytes in_char r)
unfolding next_byte is_continuation
char-conts [] r h = sym (prepend-nil _)
char-conts (k ∷ ks) r h =
    strip_bytes-step in_char in_char true k (ks ++ r) (ground (arith, h.0))
    ∙ ap (prepend (k ∷ [])) (char-conts ks r h.1)
    ∙ prepend-append (k ∷ []) ks (strip_bytes in_char r)

-- Behind a whole character the loop is at its head.
first_byte :
    (b : ℕ) (bs : List ℕ)
    → is_continuation b ≡ false
    → strip_bytes in_char (b ∷ bs) ≡ strip_bytes (at text) (b ∷ bs)
unfolding next_byte
first_byte b bs h = elim (Bool-cases (b == 0x1b)) [
  | inl escape ↦
      strip_bytes-step in_char (at esc) false b bs (rw (h, escape) refl)
      ∙ sym (strip_bytes-step (at text) (at esc) false b bs (rw escape refl))
  | inr plain ↦
      strip_bytes-step in_char in_char true b bs (rw (h, plain) refl)
      ∙ sym (strip_bytes-step (at text) in_char true b bs (rw (h, plain) refl))
]

pub char-end : (s : List ℕ) → strip_bytes in_char (encode s) ≡ strip_bytes (at text) (encode s)
unfolding encode is_continuation
char-end [] = unfold strip_bytes in refl
char-end (c ∷ cs) = elim (Bool-cases (ltb c 128)) [
  | inl small ↦ rw (utf8-ascii c (ground (arith, small))) (first_byte c (encode cs) (ground arith))
  | inr large ↦
      let w = utf8-Wide c (ground (arith, large)) in
      rw w.split (first_byte w.lead _ (ground (arith, w.high)))
]

pub starts-encode : (s : List ℕ) → starts_with_char 0x5c (encode s) ≡ starts_with_char 0x5c s
unfolding encode
starts-encode [] = refl
starts-encode (c ∷ cs) = elim (Bool-cases (ltb c 128)) [
  | inl small ↦ rw (utf8-ascii c (ground (arith, small))) refl
  | inr large ↦ let w = utf8-Wide c (ground (arith, large)) in rw w.split (ground (arith, w.high))
]

abbrev pub encoded : Option (List ℕ) → Option (List ℕ)
encoded none = none
encoded (some s) = some (encode s)

pub encoded-prepend :
    (x : List ℕ) (o : Option (List ℕ)) → encoded (prepend x o) ≡ prepend (encode x) (encoded o)
encoded-prepend x none = refl
encoded-prepend x (some s) = ap some (encode-append x s)

pub strip_from-eq :
    (m m' : Mode) (c : ℕ) (cs : List ℕ)
    → next_mode m c cs ≡ some m'
    → strip_from m (c ∷ cs) ≡ prepend (pushed m c) (strip_from m' cs)
unfolding strip_from
strip_from-eq m m' c cs h = rw (h, strip_from) refl
