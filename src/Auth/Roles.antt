-- ===== src/Auth/Roles.antt =====
-- The roles that crates/sysknife-daemon/src/auth.rs grants, to groups and to a token.
use lacs.Prelude.{
  ℕ, some-injective, String, ◌≡◌, ◌≢◌, refl, ◌≤◌, ◌⊎◌, inl, inr, false, Option, none, some, List,
  [], ◌∷◌, All, eq_iff, arith, length, ==_iff, Bool-cases, Option-cases, sym, ap, ◌∙◌, ◌==◌,
}
use lacs.Prelude.Text.{
  as_bytes, as_bytes_injective, encode, codes, trim, same_bytes→eq, same_bytes_refl,
}
use lacs.Types.{CallerRole, observer}
use mathlib.Core.List.{foldl, map, Memᴰ}
use lacs.Auth.{
  role_rank, role_for_group, higher_role, highest_role_from_groups, token_role,
  validate_token_against_file,
}

higher_role-ge :
    (a b : CallerRole)
    → (role_rank a ≤ role_rank (higher_role a b)) × (role_rank b ≤ role_rank (higher_role a b))
unfolding higher_role
higher_role-ge a b = ground arith

higher_role_or : (a b : CallerRole) → (higher_role a b ≡ a) ⊎ (higher_role a b ≡ b)
unfolding higher_role
higher_role_or a b = ground arith

-- the role that a group of the list, or the start of the fold, gives
abbrev Gives : CallerRole → CallerRole → List String → Type 0
Gives r start groups = (r ≡ start) ⊎ ((g : String) × Memᴰ g groups × (r ≡ role_for_group g))

fold_bounds :
    (start : CallerRole) (groups : List String)
    → (role_rank start ≤ role_rank (foldl higher_role start (map role_for_group groups)))
      × All
          (λ g.
            role_rank (role_for_group g)
            ≤ role_rank (foldl higher_role start (map role_for_group groups)))
          groups
fold_bounds start [] = (omega arith, tt)
fold_bounds start (g ∷ groups) =
    let (first, rest) = fold_bounds (higher_role start (role_for_group g)) groups in
    let (ge_start, ge_g) = higher_role-ge start (role_for_group g) in
    (omega arith, (omega arith, rest))

fold-Gives :
    (start : CallerRole) (groups : List String)
    → Gives (foldl higher_role start (map role_for_group groups)) start groups
fold-Gives start [] = inl refl
fold-Gives start (g ∷ groups) = elim (fold-Gives (higher_role start (role_for_group g)) groups) [
  | inl e ↦ elim (higher_role_or start (role_for_group g)) [
    | inl s ↦ inl (e ∙ s)
    | inr c ↦ inr (g, Memᴰ.head refl, e ∙ c)
  ]
  | inr (k, m, e) ↦ inr (k, Memᴰ.tail m, e)
]

-- The role of a caller is at least that of every group that it is in, and it is that of one of
-- them, or `observer`.
pub highest_role_from_groups_bounds :
    (groups : List String)
    → All (λ g. role_rank (role_for_group g) ≤ role_rank (highest_role_from_groups groups)) groups
      × ((highest_role_from_groups groups ≡ observer)
          ⊎ ((g : String) × Memᴰ g groups × (highest_role_from_groups groups ≡ role_for_group g)))
unfolding highest_role_from_groups
highest_role_from_groups_bounds groups =
    ((fold_bounds observer groups).1, fold-Gives observer groups)

length_zero : (x : List ℕ) → length x ≡ 0 → x ≡ []
length_zero [] h = refl
length_zero (a ∷ x) h = absurd (omega arith)

stored-ne-nil : (s : String) (x : List ℕ) → s ≢ "" → x ≡ as_bytes s → (length x == 0) ≡ false
stored-ne-nil s x given same = elim (Bool-cases (length x == 0)) [
  | inl empty ↦ absurd (
      given (
        as_bytes_injective s "" (
          sym same
          ∙ length_zero x ((==_iff (length x) 0).0 empty)
          ∙ unfold as_bytes encode in refl)))
  | inr filled ↦ filled
]

validate_token_both :
    (presented variable : String) (file : Option String)
    → ((r : CallerRole)
        → validate_token_against_file presented file variable ≡ some r
        → (presented ≢ "")
          × ((text : String) × (file ≡ some text)
              × (encode (trim (codes text)) ≡ as_bytes presented))
          × (r ≡ token_role variable))
      × ((text : String)
          → presented ≢ ""
          → file ≡ some text
          → encode (trim (codes text)) ≡ as_bytes presented
          → validate_token_against_file presented file variable ≡ some (token_role variable))
unfolding validate_token_against_file
validate_token_both presented variable none =
    (λ r h. ground (arith, eq_iff presented ""), λ text p e s. cc)
validate_token_both presented variable (some stored) = (
  λ r h. (
    ground (arith, eq_iff presented ""),
    (
      stored,
      refl,
      ground (arith, same_bytes→eq (encode (trim (codes stored))) (as_bytes presented)),
    ),
    ground arith,
  ),
  λ text p e s. ground (
    arith,
    eq_iff presented "",
    s,
    e,
    some-injective e,
    stored-ne-nil presented (encode (trim (codes text))) p s,
    same_bytes_refl (as_bytes presented),
    ==_iff (length (as_bytes presented)) (length (as_bytes presented)),
  ),
)

-- The token file is there, and its text without the white space at the ends is the token, which
-- is not empty.
abbrev pub Presents : String → Option String → Type 0
Presents presented file =
    (presented ≢ "")
    × ((text : String) × (file ≡ some text) × (encode (trim (codes text)) ≡ as_bytes presented))

-- A peer is granted the role of the environment variable if the token file is there and its text,
-- without the white space at its ends, is the token that the peer presents, which is not empty. In
-- all other cases it is granted nothing.
pub validate_token_cases :
    (presented variable : String) (file : Option String)
    → (Presents presented file
        × (validate_token_against_file presented file variable ≡ some (token_role variable)))
      ⊎ ((¬ Presents presented file) × (validate_token_against_file presented file variable ≡ none))
validate_token_cases presented variable file =
    let (sound, complete) = validate_token_both presented variable file in
    elim (Option-cases (validate_token_against_file presented file variable)) [
      | inl refused ↦ inr ((λ p. cc (refused, complete p.1.0 p.0 p.1.1 p.1.2)), refused)
      | inr (r, granted) ↦
          let (given, found, role) = sound r granted in inl ((given, found), granted ∙ ap some role)
    ]
