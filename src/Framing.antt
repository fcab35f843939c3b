-- ===== src/Framing.antt =====
-- crates/sysknife-daemon/src/transport/framing.rs: messages with a length in front of them. The
-- stream is the list of bytes that is written to it, or that is still to be read; a stream that ends
-- too early is an error of input and output, and no other such error is modelled.
pub mod RoundTrip
use lacs.Prelude.{
  ℕ, zero, suc, ◌+◌, ◌*◌, ◌/◌, ◌%◌, Bool, true, false, Option, none, some, List, [], ◌∷◌, ◌++◌,
  length, ltb, if◌then◌else◌,
}

abbrev pub max_message_bytes : ℕ
max_message_bytes = 4194304

pub data Result (A : Type 0) : Type 0 where
  ok : A → Result A
  message_too_large : ℕ → Result A
  unexpected_eof : Result A

-- `u32::to_le_bytes` and `u32::from_le_bytes`
unfoldable pub to_le_bytes : ℕ → List ℕ
to_le_bytes n = n % 256 ∷ (n / 256) % 256 ∷ (n / 65536) % 256 ∷ (n / 16777216) % 256 ∷ []

unfoldable pub from_le_bytes : List ℕ → ℕ
from_le_bytes [] = 0
from_le_bytes (b ∷ bs) = b + 256 * from_le_bytes bs

-- What is written to the stream.
unfoldable pub send : List ℕ → Result (List ℕ)
send message =
    if ltb max_message_bytes (length message)
    then message_too_large (length message)
    else ok (to_le_bytes (length message % 4294967296) ++ message)

-- `read_exact`: the bytes, and the rest of the stream.
unfoldable pub read_exact : ℕ → List ℕ → Option (List ℕ × List ℕ)
read_exact zero stream = some ([], stream)
read_exact (suc n) [] = none
read_exact (suc n) (b ∷ stream) = elim (read_exact n stream) [
  | none ↦ none
  | some (bytes, rest) ↦ some (b ∷ bytes, rest)
]

unfoldable pub recv : List ℕ → Result (List ℕ × List ℕ)
recv stream = elim (read_exact 4 stream) [
  | none ↦ unexpected_eof
  | some (header, after) ↦
      let len = from_le_bytes header in
      if ltb max_message_bytes len then message_too_large len else elim (read_exact len after) [
        | none ↦ unexpected_eof
        | some (body, rest) ↦ ok (body, rest)
      ]
]
