-- ===== src/AuditChain/Decimal.antt =====
-- The decimal digits of a sequence number.
use lacs.Prelude.{
  ℕ, zero, suc, ◌+◌, ◌*◌, ◌-◌, ◌<◌, ◌≡◌, Bool-cases, inl, inr, List, [], ◌∷◌, arith, ltb, sym, ap,
  ◌∙◌, ◌/◌, ◌%◌,
}
use lacs.AuditChain.{decimal, to_string}

-- the number that the digits continue
unfoldable pub value : ℕ → List ℕ → ℕ
value n [] = n
value n (d ∷ ds) = value (n * 10 + (d - 48)) ds

value-decimal : (fuel n : ℕ) (acc : List ℕ) → n < fuel → value 0 (decimal fuel n acc) ≡ value n acc
unfolding value decimal
value-decimal zero n acc h = absurd (omega arith)
value-decimal (suc fuel) n acc h = elim (Bool-cases (ltb n 10)) [
  | inl small ↦ rw small (ap (λ m. value m acc) (ground arith))
  | inr big ↦ rw big (
      value-decimal fuel (n / 10) ((48 + n % 10) ∷ acc) (ground arith)
      ∙ ap (λ m. value m acc) (omega arith))
]

-- The digits of a number read back as it, with one round of fuel for each unit.
pub value-to_string : (n : ℕ) → value 0 (to_string n) ≡ n
unfolding to_string value
value-to_string n = value-decimal (suc n) n [] (omega arith)

pub to_string_injective : (m n : ℕ) → to_string m ≡ to_string n → m ≡ n
to_string_injective m n h = sym (value-to_string m) ∙ ap (value 0) h ∙ value-to_string n
