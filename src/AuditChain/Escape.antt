-- ===== src/AuditChain/Escape.antt =====
-- The escapes of `push_field`, and where a field ends.
use lacs.Prelude.{ℕ, ◌≡◌, refl, List, [], ◌∷◌, ◌++◌, arith, append_assoc, String, sym, ap₂, ◌∙◌}
use lacs.Prelude.Text.{as_bytes}
use lacs.AuditChain.{escape_byte, escape, push_field}

escape_byte_cancel :
    (a b : ℕ) (x y : List ℕ) → escape_byte a ++ x ≡ escape_byte b ++ y → (a ≡ b) × (x ≡ y)
unfolding escape_byte
escape_byte_cancel a b x y h = ground arith

escape_byte_open : (a : ℕ) (x y : List ℕ) → ¬ (0x1f ∷ y ≡ escape_byte a ++ x)
unfolding escape_byte
escape_byte_open a x y h = ground arith

escape-cons : (b : ℕ) (bs x : List ℕ) → escape (b ∷ bs) ++ x ≡ escape_byte b ++ (escape bs ++ x)
unfolding escape
escape-cons b bs x = append_assoc (escape_byte b) (escape bs) x

-- Two escaped values that are followed by the terminator and agree are one value.
pub escape_cancel :
    (v w x y : List ℕ) → escape v ++ (0x1f ∷ x) ≡ escape w ++ (0x1f ∷ y) → (v ≡ w) × (x ≡ y)
escape_cancel [] [] x y h = (refl, unfold escape in ground arith)
escape_cancel [] (b ∷ w) x y h = absurd (
    escape_byte_open b (escape w ++ (0x1f ∷ y)) x (unfold escape in h ∙ escape-cons b w (0x1f ∷ y)))
escape_cancel (a ∷ v) [] x y h = absurd (
    escape_byte_open a (escape v ++ (0x1f ∷ x)) y
      (unfold escape in sym h ∙ escape-cons a v (0x1f ∷ x)))
escape_cancel (a ∷ v) (b ∷ w) x y h =
    let (same, rest) =
      escape_byte_cancel a b (escape v ++ (0x1f ∷ x)) (escape w ++ (0x1f ∷ y))
        (sym (escape-cons a v (0x1f ∷ x)) ∙ h ∙ escape-cons b w (0x1f ∷ y)) in
    let (v_w, x_y) = escape_cancel v w x y rest in (ap₂ ◌∷◌ same v_w, x_y)

-- What `push_field` appends.
unfoldable pub field : String → List ℕ → List ℕ → List ℕ
field tag value rest = as_bytes tag ++ (0x1e ∷ (escape value ++ (0x1f ∷ rest)))

pub push_field-append :
    (buf : List ℕ) (tag : String) (value rest : List ℕ)
    → push_field buf tag value ++ rest ≡ buf ++ field tag value rest
unfolding push_field field
push_field-append buf tag value rest = simp append_assoc

append_cancel : (p : List ℕ) {x y : List ℕ} → p ++ x ≡ p ++ y → x ≡ y
append_cancel [] h = h
append_cancel (a ∷ p) h = append_cancel p (ground arith)

-- Two fields of one tag that agree, whatever follows them, have one value.
pub field_cancel :
    (tag : String) (v w x y : List ℕ) → field tag v x ≡ field tag w y → (v ≡ w) × (x ≡ y)
unfolding field
field_cancel tag v w x y h = escape_cancel v w x y (tail_eq (append_cancel (as_bytes tag) h))
  where
    tail_eq : {a b : List ℕ} → 0x1e ∷ a ≡ 0x1e ∷ b → a ≡ b
    tail_eq e = ground arith
