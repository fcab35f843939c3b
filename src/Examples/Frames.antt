-- ===== src/Examples/Frames.antt =====
-- A stream of bytes with a message at its front.
use lacs.Prelude.{ℕ, ◌≡◌, ◌↔◌, refl, List, [], ◌∷◌, ◌++◌, All, arith, ◌<◌}
use lacs.Framing.{Result, ok, message_too_large, recv}
use lacs.Framing.RoundTrip.{Sent, Received, Received-iff-Sent}

abbrev stream : List ℕ
stream = 2 ∷ 0 ∷ 0 ∷ 0 ∷ 7 ∷ 255 ∷ 9 ∷ []

abbrev message : List ℕ
message = 7 ∷ 255 ∷ []

abbrev rest : List ℕ
rest = 9 ∷ []

bytes : All (λ b. b < 256) stream
bytes = (
  omega arith,
  (omega arith, (omega arith, (omega arith, (omega arith, (omega arith, (omega arith, tt)))))),
)

stream_received : recv stream ≡ ok (message, rest)
unfolding recv lacs.Framing.read_exact lacs.Framing.from_le_bytes
stream_received = refl

Received-iff-Sent_example :
    Received stream (message ∷ []) rest
    ↔ ((wire : List ℕ) × Sent (message ∷ []) wire × (stream ≡ wire ++ rest))
Received-iff-Sent_example = Received-iff-Sent stream (message ∷ []) rest bytes
