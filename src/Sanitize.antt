-- ===== src/Sanitize.antt =====
-- crates/sysknife-brain/src/sanitize.rs: how the output of a tool is made safe for the model. A text
-- is the list of its code points; `Sanitize/Bytes` has `strip_ansi` on the bytes that the code walks.
-- `Sanitize/Escapes` is about control sequences, `Sanitize/Tags` about the tags of the envelope and
-- `Sanitize/Clean` about the characters and the length of what is left. The normal form NFC of the
-- crate unicode-normalization is a parameter.
pub mod Escapes
pub mod Bytes
pub mod Tags
pub mod Envelope
pub mod Clean
use lacs.Prelude.{
  ℕ, zero, suc, ◌-◌, Bool, true, false, ◌&&◌, ◌||◌, not, Option, none, some, List, [], ◌∷◌, ◌++◌,
  map, length, all, ltb, leb, ◌==◌, if◌then◌else◌,
}
use lacs.Prelude.Text.{codes, encode}
use lacs.Validate.{is_ascii_alphanumeric, is_empty, starts_with, starts_with_char}

abbrev pub max_output_bytes : ℕ
max_output_bytes = 8192

-- Where `strip_ansi` stands: in the text; after ESC; in a CSI or an OSC sequence; before the
-- backslash of ESC \ that ends an OSC; or before the character that a designator names.
pub data Mode : Type 0 where
  text : Mode
  esc : Mode
  csi : Mode
  osc : Mode
  osc_end : Mode
  designator : Mode

abbrev pub is_charset : ℕ → Bool
is_charset c = c == b'(' || c == b')' || c == b'*' || c == b'+'

-- Two bytes are skipped where the second is the whole of a character; else the index is left inside
-- a character, where slicing the text panics (`none`).
abbrev skip_byte : ℕ → Option Mode
skip_byte c = if ltb c 128 then some text else none

-- What follows one character, with the characters after it.
unfoldable pub next_mode : Mode → ℕ → List ℕ → Option Mode
next_mode text c cs = if c == 0x1b then some esc else some text
next_mode esc c cs =
    if c == b'['
    then some csi
    else if c == b']'
    then some osc
    else if is_charset c
    then some designator
    else skip_byte c
next_mode csi c cs = if leb 0x40 c && leb c 0x7e then some text else some csi
next_mode osc c cs =
    if c == 0x07
    then some text
    else if c == 0x1b && starts_with_char 0x5c cs
    then some osc_end
    else some osc
next_mode osc_end c cs = skip_byte c
next_mode designator c cs = skip_byte c

abbrev pub prepend : List ℕ → Option (List ℕ) → Option (List ℕ)
prepend before none = none
prepend before (some after) = some (before ++ after)

-- The characters that are kept.
unfoldable pub pushed : Mode → ℕ → List ℕ
pushed text c = if c == 0x1b then [] else c ∷ []
pushed _ c = []

unfoldable pub strip_from : Mode → List ℕ → Option (List ℕ)
unfolding next_mode pushed
strip_from m [] = some []
strip_from m (c ∷ cs) = elim (next_mode m c cs) [
  | none ↦ none
  | some m' ↦ prepend (pushed m c) (strip_from m' cs)
]

unfoldable pub strip_ansi : List ℕ → Option (List ℕ)
unfolding strip_from
strip_ansi = strip_from text

abbrev in_range : ℕ → ℕ → ℕ → Bool
in_range first last c = leb first c && leb c last

unfoldable pub dangerous : ℕ → Bool
dangerous c =
    in_range 0x00 0x08 c
    || c == 0x0b
    || c == 0x0c
    || in_range 0x0e 0x1f c
    || in_range 0x7f 0x9f c
    || in_range 0x200b 0x200f c
    || in_range 0x202a 0x202e c
    || in_range 0x2066 0x2069 c
    || c == 0xfeff
    || in_range 0xe0000 0xe007f c
    || in_range 0xe000 0xf8ff c
    || in_range 0xf0000 0xffffd c
    || in_range 0x100000 0x10fffd c

unfoldable pub strip_dangerous_unicode : List ℕ → List ℕ
unfolding dangerous
strip_dangerous_unicode [] = []
strip_dangerous_unicode (c ∷ cs) =
    let rest = strip_dangerous_unicode cs in if dangerous c then rest else c ∷ rest

-- `str::replace`, with the number of characters still to be skipped of the last match.
unfoldable pub replace_from : List ℕ → List ℕ → ℕ → List ℕ → List ℕ
replace_from pattern by skip [] = []
replace_from pattern by (suc skip) (c ∷ cs) = replace_from pattern by skip cs
replace_from pattern by zero (c ∷ cs) = elim (starts_with pattern (c ∷ cs)) [
  | true ↦ by ++ replace_from pattern by (length pattern - 1) cs
  | false ↦ c ∷ replace_from pattern by zero cs
]

abbrev pub closing_tag : List ℕ
closing_tag = codes "</untrusted_tool_output>"

abbrev pub opening_tag : List ℕ
opening_tag = codes "<untrusted_tool_output"

unfoldable pub neutralise_envelope_tags : List ℕ → List ℕ
unfolding replace_from
neutralise_envelope_tags s =
    replace_from opening_tag (codes "<untrusted_tool_output_BLOCKED") 0
      (replace_from closing_tag (codes "</untrusted_tool_output_BLOCKED>") 0 s)

-- With the number of line feeds just before.
unfoldable pub collapse_from : ℕ → List ℕ → List ℕ
collapse_from n [] = []
collapse_from n (c ∷ cs) =
    let rest = collapse_from (if c == 0x0a then suc n else 0) cs in
    if c == 0x0a && ltb 2 (suc n) then rest else c ∷ rest

unfoldable pub collapse_blank_runs : List ℕ → List ℕ
unfolding collapse_from
collapse_blank_runs = collapse_from 0

-- The longest beginning of at most `budget` bytes that ends between two characters.
unfoldable pub cut : ℕ → List ℕ → List ℕ
cut budget [] = []
cut budget (c ∷ cs) =
    let width = length (encode (c ∷ [])) in
    let rest = cut (budget - width) cs in if leb width budget then c ∷ rest else []

abbrev pub marker : List ℕ
marker = 0x0a ∷ codes "[...truncated]"

unfoldable pub truncate_with_marker : List ℕ → ℕ → List ℕ
unfolding cut
truncate_with_marker s max =
    if leb (length (encode s)) max then s else cut (max - length (encode marker)) s ++ marker

-- A name is restricted to letters, digits, `_` and `-`.
abbrev pub is_name_char : ℕ → Bool
is_name_char c = is_ascii_alphanumeric c || c == b'_' || c == b'-'

unfoldable pub sanitise_tool_name : List ℕ → List ℕ
sanitise_tool_name name =
    if all is_name_char name && not (is_empty name)
    then name
    else let cleaned = map (λ c. if is_name_char c then c else b'_') name in
      if is_empty cleaned then codes "unknown" else cleaned

module _ (nfc_normalise : List ℕ → List ℕ) where
  unfoldable pub normalise_free_text : List ℕ → Option (List ℕ)
  unfolding strip_ansi
  normalise_free_text raw = elim (strip_ansi raw) [
    | none ↦ none
    | some s ↦ some (
        truncate_with_marker
          (collapse_blank_runs
            (neutralise_envelope_tags (nfc_normalise (strip_dangerous_unicode s))))
          max_output_bytes)
  ]

  -- The text in its envelope.
  unfoldable pub sanitize_tool_output : List ℕ → List ℕ → Option (List ℕ)
  unfolding normalise_free_text sanitise_tool_name
  sanitize_tool_output tool_name raw = elim (normalise_free_text raw) [
    | none ↦ none
    | some normalised ↦ some (
        codes "<untrusted_tool_output source=\""
        ++ (sanitise_tool_name tool_name
            ++ (codes "\">\n" ++ (normalised ++ (0x0a ∷ closing_tag)))))
  ]
