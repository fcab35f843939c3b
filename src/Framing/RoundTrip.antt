-- ===== src/Framing/RoundTrip.antt =====
-- The two directions of crates/sysknife-daemon/src/transport/framing.rs, one against the other.
use lacs.Prelude.{
  ℕ, zero, suc, ◌+◌, ◌*◌, ◌/◌, ◌%◌, ◌≤◌, ◌<◌, ◌≡◌, ◌⊎◌, ◌↔◌, inl, inr, refl, sym, ap, subst, ◌∙◌,
  false, none, some, List, [], ◌∷◌, ◌++◌, length, ltb, arith, All, Bool-cases, append_assoc,
}
use lacs.Framing.{
  max_message_bytes, Result, ok, message_too_large, to_le_bytes, from_le_bytes, send, read_exact,
  recv,
}

read_exact-append : (xs rest : List ℕ) → read_exact (length xs) (xs ++ rest) ≡ some (xs, rest)
unfolding read_exact
read_exact-append [] rest = refl
read_exact-append (x ∷ xs) rest = rw (read_exact, read_exact-append xs rest)

from_le_bytes-to_le_bytes : (n : ℕ) → n < 4294967296 → from_le_bytes (to_le_bytes n) ≡ n
unfolding from_le_bytes to_le_bytes
from_le_bytes-to_le_bytes n h = omega arith

small : (n : ℕ) → n ≤ 4194304 → n % 4294967296 ≡ n
small n h = omega arith

recv_of_header :
    (message rest : List ℕ)
    → length message ≤ max_message_bytes
    → recv (to_le_bytes (length message) ++ (message ++ rest)) ≡ ok (message, rest)
unfolding recv
recv_of_header message rest h =
    let header : read_exact 4 (to_le_bytes (length message) ++ (message ++ rest))
        ≡ some (to_le_bytes (length message), message ++ rest) =
      unfold read_exact in unfold to_le_bytes in refl in
    let back : from_le_bytes (to_le_bytes (length message)) ≡ length message =
      from_le_bytes-to_le_bytes (length message) (omega arith) in
    let fits : ltb max_message_bytes (length message) ≡ false = ground arith in
    rw (recv, header, back, fits, read_exact-append message rest)

send_cases :
    (message : List ℕ)
    → ((length message ≤ max_message_bytes)
        × (send message ≡ ok (to_le_bytes (length message) ++ message)))
      ⊎ ((max_message_bytes < length message) × (send message ≡ message_too_large (length message)))
unfolding send
send_cases message = elim (Bool-cases (ltb max_message_bytes (length message))) [
  | inl large ↦ inr (ground (arith, large), rw (large, send))
  | inr fits ↦
      let bound : length message ≤ 4194304 = ground (arith, fits) in
      inl (bound, rw (fits, small (length message) bound, send))
]

send_of_fits :
    (message : List ℕ)
    → length message ≤ 4194304
    → send message ≡ ok (to_le_bytes (length message) ++ message)
send_of_fits message h = elim (send_cases message) [
  | inl (_, e) ↦ e
  | inr (large, _) ↦ absurd (omega arith)
]

-- A message that is sent is received, and what stands behind it is left.
recv-send :
    (message wire rest : List ℕ) → send message ≡ ok wire → recv (wire ++ rest) ≡ ok (message, rest)
recv-send message wire rest sent = elim (send_cases message) [
  | inr (_, e) ↦ absurd (cc)
  | inl (fits, e) ↦
      let same : to_le_bytes (length message) ++ message ≡ wire = ground (arith, e, sent) in
      subst (λ s. recv (s ++ rest) ≡ ok (message, rest)) same
        (ap recv (append_assoc (to_le_bytes (length message)) message rest)
          ∙ recv_of_header message rest fits)
]

read_exact_cases :
    (n : ℕ) (stream : List ℕ)
    → (read_exact n stream ≡ none)
      ⊎ ((xs : List ℕ) × (rest : List ℕ) × (read_exact n stream ≡ some (xs, rest))
          × (stream ≡ xs ++ rest)
          × (length xs ≡ n))
unfolding read_exact
read_exact_cases zero stream = inr ([], stream, refl, refl, refl)
read_exact_cases (suc n) [] = inl refl
read_exact_cases (suc n) (b ∷ stream) = elim (read_exact_cases n stream) [
  | inl e ↦ inl (rw (e, read_exact))
  | inr (xs, rest, e, split, len) ↦
      inr (b ∷ xs, rest, rw (e, read_exact), ap (λ l. b ∷ l) split, ap suc len)
]

All-prefix :
    (xs ys : List ℕ) → All (λ b. b < 256) (xs ++ ys) → All (λ b. b < 256) xs × All (λ b. b < 256) ys
All-prefix [] ys h = (tt, h)
All-prefix (x ∷ xs) ys h = let (a, b) = All-prefix xs ys h.1 in ((h.0, a), b)

to_le_bytes-from_le_bytes :
    (header : List ℕ)
    → length header ≡ 4
    → All (λ b. b < 256) header
    → to_le_bytes (from_le_bytes header) ≡ header
unfolding to_le_bytes from_le_bytes
to_le_bytes-from_le_bytes [] e h = absurd (omega arith)
to_le_bytes-from_le_bytes (_ ∷ []) e h = absurd (omega arith)
to_le_bytes-from_le_bytes (_ ∷ _ ∷ []) e h = absurd (omega arith)
to_le_bytes-from_le_bytes (_ ∷ _ ∷ _ ∷ []) e h = absurd (omega arith)
to_le_bytes-from_le_bytes (_ ∷ _ ∷ _ ∷ _ ∷ _ ∷ _) e h = absurd (omega arith)
to_le_bytes-from_le_bytes (a ∷ b ∷ c ∷ d ∷ []) e (ha, (hb, (hc, (hd, _)))) =
    let n : ℕ = a + 256 * (b + 256 * (c + 256 * (d + 0))) in
    let e0 : n % 256 ≡ a = omega arith in
    let e1 : (n / 256) % 256 ≡ b = omega arith in
    let e2 : (n / 65536) % 256 ≡ c = omega arith in
    let e3 : (n / 16777216) % 256 ≡ d = omega arith in cc (e0, e1, e2, e3)

-- What is received was sent, in front of what is left.
recv_sound :
    (stream message rest : List ℕ)
    → All (λ b. b < 256) stream
    → recv stream ≡ ok (message, rest)
    → (wire : List ℕ) × (send message ≡ ok wire) × (stream ≡ wire ++ rest)
unfolding recv
recv_sound stream message rest bytes received = elim (read_exact_cases 4 stream) [
  | inl e ↦ absurd (ground (arith, e, received))
  | inr (header, after, e, split, four) ↦
      elim (Bool-cases (ltb max_message_bytes (from_le_bytes header))) [
        | inl large ↦ absurd (ground (arith, e, large, received))
        | inr fits ↦ elim (read_exact_cases (from_le_bytes header) after) [
          | inl short ↦ absurd (ground (arith, e, fits, short, received))
          | inr (body, left, f, split', len) ↦
              let computed : recv stream ≡ ok (body, left) = rw (e, fits, f, recv) in
              let got : ◌≡◌ {A = Result (List ℕ × List ℕ)} (ok (body, left)) (ok (message, rest)) =
                sym computed ∙ received in
              let same : body ≡ message = cc got in
              let end : left ≡ rest = cc got in
              let bound : length body ≤ 4194304 = ground (arith, fits, len) in
              let front : to_le_bytes (length body) ≡ header =
                ap to_le_bytes len
                ∙ to_le_bytes-from_le_bytes header four
                    (All-prefix header after (subst (All (λ b. b < 256)) split bytes)).0 in
              let whole : stream ≡ (to_le_bytes (length body) ++ body) ++ left =
                split
                ∙ ap (λ l. header ++ l) split'
                ∙ sym (append_assoc header body left)
                ∙ ap (λ l. (l ++ body) ++ left) (sym front) in
              (
                to_le_bytes (length body) ++ body,
                subst (λ m. send m ≡ ok (to_le_bytes (length body) ++ body)) same
                    (send_of_fits body bound),
                whole ∙ ap (λ l. (to_le_bytes (length body) ++ body) ++ l) end,
              )
        ]
      ]
]

-- The bytes that are written when messages are sent one after the other.
pub data Sent : List (List ℕ) → List ℕ → Type 0 where
  nothing : Sent [] []
  message :
      (m wire more : List ℕ) (ms : List (List ℕ))
      → send m ≡ ok wire
      → Sent ms more
      → Sent (m ∷ ms) (wire ++ more)

-- The messages that are received one after the other from a stream, and what is left of it.
pub data Received : List ℕ → List (List ℕ) → List ℕ → Type 0 where
  stop : (stream : List ℕ) → Received stream [] stream
  next :
      (stream m after rest : List ℕ) (ms : List (List ℕ))
      → recv stream ≡ ok (m, after)
      → Received after ms rest
      → Received stream (m ∷ ms) rest

Received-of_Sent :
    (ms : List (List ℕ)) (wire rest : List ℕ) → Sent ms wire → Received (wire ++ rest) ms rest
Received-of_Sent _ _ rest nothing = stop rest
Received-of_Sent _ _ rest (message m wire more ms sent h) =
    next _ m (more ++ rest) rest ms
      (ap recv (append_assoc wire more rest) ∙ recv-send m wire (more ++ rest) sent)
      (Received-of_Sent ms more rest h)

Sent-of_Received :
    (stream : List ℕ) (ms : List (List ℕ)) (rest : List ℕ)
    → All (λ b. b < 256) stream
    → Received stream ms rest
    → (wire : List ℕ) × Sent ms wire × (stream ≡ wire ++ rest)
Sent-of_Received _ _ _ bytes (stop stream) = ([], nothing, refl)
Sent-of_Received _ _ _ bytes (next stream m after rest ms received h) =
    let (wire, sent, split) = recv_sound stream m after bytes received in
    let (more, all_sent, left) =
      Sent-of_Received after ms rest
        (All-prefix wire after (subst (All (λ b. b < 256)) split bytes)).1 h in
    (
      wire ++ more,
      message m wire more ms sent all_sent,
      split ∙ ap (λ l. wire ++ l) left ∙ sym (append_assoc wire more rest),
    )

-- Of a stream of bytes exactly those messages are received, in that order, whose frames stand at its
-- front: what is sent arrives, and what arrives was sent.
pub Received-iff-Sent :
    (stream : List ℕ) (ms : List (List ℕ)) (rest : List ℕ)
    → All (λ b. b < 256) stream
    → Received stream ms rest ↔ ((wire : List ℕ) × Sent ms wire × (stream ≡ wire ++ rest))
Received-iff-Sent stream ms rest bytes = (
  λ h. Sent-of_Received stream ms rest bytes h,
  λ (wire, sent, e). subst (λ s. Received s ms rest) (sym e) (Received-of_Sent ms wire rest sent),
)
