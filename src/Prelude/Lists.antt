-- ===== src/Prelude/Lists.antt =====
-- Lists measured by native numbers, predicates over lists, membership of a text.
use Prim.Native.Nat.{ℕ, zero, suc, ◌+◌}
use Prim.Native.String.{String}
use mathlib.Core.Path.{◌≡◌, refl, ap, subst}
use mathlib.Core.Bool.{Bool, true, false}
use mathlib.Core.List.{List, [], ◌∷◌, ◌++◌, map}
use mathlib.Core.Logic.{inl, inr}
use native.Mathlib.Omega.{arith}
use text.Mathlib.Text.{◌==◌}
use text.Mathlib.TextEquality.{eq_iff}
use lacs.Prelude.Tests.{if◌then◌else◌, Bool-cases}

module _ {ℓ} {A : Type ℓ} where
  abbrev pub length : List A → ℕ
  length [] = 0
  length (x ∷ xs) = suc (length xs)

  pub length-append : (xs ys : List A) → length (xs ++ ys) ≡ length xs + length ys
  length-append [] ys = omega arith
  length-append (x ∷ xs) ys = omega (arith, length-append xs ys)

  abbrev pub take : ℕ → List A → List A
  take zero xs = []
  take (suc n) [] = []
  take (suc n) (x ∷ xs) = x ∷ take n xs

  -- `P` at every element.
  abbrev pub All {κ} : (A → Type κ) → List A → Type κ
  All P [] = Unit
  All P (x ∷ xs) = P x × All P xs

  pub All-append {κ} : (P : A → Type κ) (xs ys : List A) → All P xs → All P ys → All P (xs ++ ys)
  All-append P [] ys hx hy = hy
  All-append P (x ∷ xs) ys hx hy = (hx.0, All-append P xs ys hx.1 hy)

  -- `Iterator::all` and `Iterator::any`.
  abbrev pub all : (A → Bool) → List A → Bool
  all p [] = true
  all p (x ∷ xs) = let rest = all p xs in if p x then rest else false

module _ {ℓ κ} {A : Type ℓ} {B : Type κ} where
  pub length-map : (xs : List A) (f : A → B) → length (map f xs) ≡ length xs
  length-map [] f = refl
  length-map (x ∷ xs) f = ap suc (length-map xs f)

-- `contains` on a slice of texts.
abbrev pub contains : List String → String → Bool
contains [] s = false
contains (x ∷ xs) s = let rest = contains xs s in if x == s then true else rest

-- A list whose every text is in another.
pub contains_of_all :
    (xs ys : List String) (s : String)
    → all (contains ys) xs ≡ true
    → contains xs s ≡ true
    → contains ys s ≡ true
contains_of_all [] ys s h m = cc
contains_of_all (x ∷ xs) ys s h m = elim (Bool-cases (x == s)) [
  | inl e ↦ ground (arith, eq_iff x s)
  | inr e ↦ contains_of_all xs ys s (ground arith) (ground arith)
]

-- Two tests that hold together.
pub same_of_iff : (a b : Bool) → (a ≡ true → b ≡ true) → (b ≡ true → a ≡ true) → a ≡ b
same_of_iff true b h k = ground arith
same_of_iff false b h k = ground arith

-- What a test says of every text of a list.
pub all-contains :
    (p : String → Bool) (xs : List String) (s : String)
    → all p xs ≡ true
    → contains xs s ≡ true
    → p s ≡ true
all-contains p [] s h m = cc
all-contains p (x ∷ xs) s h m = elim (Bool-cases (x == s)) [
  | inl e ↦ subst (λ y. p y ≡ true) ((eq_iff x s).0 e) (ground arith)
  | inr e ↦ all-contains p xs s (ground arith) (ground arith)
]
