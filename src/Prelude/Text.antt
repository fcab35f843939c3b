-- ===== src/Prelude/Text.antt =====
-- `str::as_bytes`: the UTF-8 encoding of a text, and that no two texts share one.
use Prim.Native.Char.{code}
use Prim.Native.Nat.{ℕ, ◌+◌, ◌/◌, ◌%◌}
use Prim.Native.String.{String}
use mathlib.Core.Path.{◌≡◌, refl, sym, ap, ap₂, ◌∙◌}
use mathlib.Core.List.{List, [], ◌∷◌, ◌++◌, map, reverse, append_assoc}
use mathlib.Core.Bool.{Bool, true, false, ◌&&◌, ◌||◌}
use native.Mathlib.Omega.{arith}
use text.Mathlib.TextEquality.{Char-path}
use lacs.Prelude.Tests.{ltb, leb, ◌==◌, ==_iff, if◌then◌else◌}

-- One code point.
unfoldable pub utf8 : ℕ → List ℕ
utf8 c =
    if ltb c 128
    then c ∷ []
    else if ltb c 2048
    then (192 + c / 64) ∷ (128 + c % 64) ∷ []
    else if ltb c 65536
    then (224 + c / 4096) ∷ (128 + c / 64 % 64) ∷ (128 + c % 64) ∷ []
    else (240 + c / 262144) ∷ (128 + c / 4096 % 64) ∷ (128 + c / 64 % 64) ∷ (128 + c % 64) ∷ []

-- The encoding of a sequence of code points.
unfoldable pub encode : List ℕ → List ℕ
unfolding utf8
encode [] = []
encode (c ∷ cs) = utf8 c ++ encode cs

-- `str::chars`, each character as its code point.
abbrev pub codes : String → List ℕ
codes String.[] = []
codes (String.◌∷◌ c s) = code c ∷ codes s

unfoldable pub as_bytes : String → List ℕ
unfolding encode
as_bytes s = encode (codes s)

pub encode-append : (x y : List ℕ) → encode (x ++ y) ≡ encode x ++ encode y
unfolding encode
encode-append [] y = refl
encode-append (c ∷ x) y =
    ap (λ l. utf8 c ++ l) (encode-append x y) ∙ sym (append_assoc (utf8 c) (encode x) (encode y))

utf8_cancel : (c d : ℕ) (x y : List ℕ) → utf8 c ++ x ≡ utf8 d ++ y → (c ≡ d) × (x ≡ y)
unfolding utf8
utf8_cancel c d x y h = ground arith

utf8-ne-nil : (c : ℕ) (x : List ℕ) → ¬ ([] ≡ utf8 c ++ x)
unfolding utf8
utf8-ne-nil c x h = ground arith

encode_injective : (s t : List ℕ) → encode s ≡ encode t → s ≡ t
unfolding encode
encode_injective [] [] h = refl
encode_injective [] (d ∷ t) h = absurd (utf8-ne-nil d (encode t) h)
encode_injective (c ∷ s) [] h = absurd (utf8-ne-nil c (encode s) (sym h))
encode_injective (c ∷ s) (d ∷ t) h =
    let (same, rest) = utf8_cancel c d (encode s) (encode t) h in
    ap₂ ◌∷◌ same (encode_injective s t rest)

codes_cons : {a b : ℕ} {x y : List ℕ} → a ∷ x ≡ b ∷ y → (a ≡ b) × (x ≡ y)
codes_cons h = ground arith

codes_injective : (s t : String) → codes s ≡ codes t → s ≡ t
codes_injective String.[] String.[] h = refl
codes_injective String.[] (String.◌∷◌ d t) h = absurd (cc)
codes_injective (String.◌∷◌ c s) String.[] h = absurd (cc)
codes_injective (String.◌∷◌ c s) (String.◌∷◌ d t) h =
    let (same, rest) = codes_cons h in
    ap₂ String.◌∷◌ (Char-path c d same) (codes_injective s t rest)

-- No two texts have one encoding.
pub as_bytes_injective : (s t : String) → as_bytes s ≡ as_bytes t → s ≡ t
unfolding as_bytes
as_bytes_injective s t h = codes_injective s t (encode_injective (codes s) (codes t) h)

-- Equality of two byte strings.
unfoldable pub same_bytes : List ℕ → List ℕ → Bool
same_bytes [] [] = true
same_bytes (a ∷ x) (b ∷ y) = (a == b) && same_bytes x y
same_bytes _ _ = false

pub same_bytes→eq : (x y : List ℕ) → same_bytes x y ≡ true → x ≡ y
unfolding same_bytes
same_bytes→eq [] [] h = ground arith
same_bytes→eq [] (b ∷ y) h = ground arith
same_bytes→eq (a ∷ x) [] h = ground arith
same_bytes→eq (a ∷ x) (b ∷ y) h = ground (arith, same_bytes→eq x y, ==_iff a b)

pub same_bytes_refl : (x : List ℕ) → same_bytes x x ≡ true
unfolding same_bytes
same_bytes_refl [] = ground arith
same_bytes_refl (a ∷ x) = ground (arith, same_bytes_refl x, ==_iff a a)

-- `str::to_ascii_lowercase`, on code points.
unfoldable pub to_ascii_lowercase : List ℕ → List ℕ
to_ascii_lowercase = map (λ c. if leb 65 c && leb c 90 then c + 32 else c)

-- `char::is_whitespace`: the code points with the property White_Space.
unfoldable pub is_whitespace : ℕ → Bool
is_whitespace c =
    (leb 9 c && leb c 13)
    || c == 32
    || c == 0x85
    || c == 0xa0
    || c == 0x1680
    || (leb 0x2000 c && leb c 0x200a)
    || c == 0x2028
    || c == 0x2029
    || c == 0x202f
    || c == 0x205f
    || c == 0x3000

-- `str::trim_start` and `str::trim`, on code points.
unfoldable pub trim_start : List ℕ → List ℕ
unfolding is_whitespace
trim_start [] = []
trim_start (c ∷ cs) = let rest = trim_start cs in if is_whitespace c then rest else c ∷ cs

unfoldable pub trim : List ℕ → List ℕ
unfolding trim_start
trim s = reverse (trim_start (reverse (trim_start s)))

-- `<` on texts is that of their bytes.
unfoldable pub bytes_lt : List ℕ → List ℕ → Bool
bytes_lt [] [] = false
bytes_lt [] (b ∷ bs) = true
bytes_lt (a ∷ as') [] = false
bytes_lt (a ∷ as') (b ∷ bs) =
    let rest = bytes_lt as' bs in if ltb a b then true else if ltb b a then false else rest

-- Two texts with a common beginning compare by what follows it.
pub bytes_lt-append : (p x y : List ℕ) → bytes_lt (p ++ x) (p ++ y) ≡ bytes_lt x y
unfolding bytes_lt
bytes_lt-append [] x y = refl
bytes_lt-append (a ∷ p) x y = ground (arith, bytes_lt-append p x y)
