-- ===== src/Policy/Overrides.antt =====
-- `[policy.risk_overrides]` of crates/sysknife-daemon/src/policy.rs: the tables that are accepted.
use lacs.Prelude.{
  Option-cases, ◌⊎◌, inl, inr, String, ◌≡◌, ◌≤◌, ◌↔◌, refl, true, Option, none, some, List, [], ◌∷◌,
  All, str_eq, eq_iff, arith, if◌then◌else◌,
}
use lacs.Types.{CallerRole, RiskLevel}
use lacs.Auth.{role_rank}
use lacs.Policy.{
  role_for_risk_level, parse_risk_level, PolicyTable, PolicyValidationError, Result, ok, err,
  lookup, insert, min_role_for_action, action_allowed, validate_override, override_loop,
  from_overrides, table_min_role, table_action_allowed,
}

lookup-insert :
    (k j : String) (r : CallerRole) (m : List (String × CallerRole))
    → lookup (insert k r m) j ≡ (if str_eq k j then some r else lookup m j)
unfolding lookup insert
lookup-insert k j r [] = ground arith
lookup-insert k j r ((i, s) ∷ m) =
    ground (arith, lookup-insert k j r m, eq_iff i k, eq_iff i j, eq_iff k j)

-- a role that is at or above the baseline of a known action
abbrev AtLeast : Option CallerRole → CallerRole → Type 0
AtLeast none r = ⊥
AtLeast (some baseline) r = role_rank baseline ≤ role_rank r

-- Every override raises the role of a known action, or keeps it.
pub record OnlyRaises (overrides : List (String × CallerRole)) : Type 0 where
  pub raises :
      (k : String) (r : CallerRole)
      → lookup overrides k ≡ some r
      → AtLeast (min_role_for_action k) r

validate-AtLeast :
    (action level : String) (r : CallerRole)
    → validate_override action level ≡ ok r
    → AtLeast (min_role_for_action action) r
unfolding validate_override
validate-AtLeast action level r h = ground arith

insert-OnlyRaises :
    (k : String) (r : CallerRole) (m : List (String × CallerRole))
    → AtLeast (min_role_for_action k) r
    → OnlyRaises m
    → OnlyRaises (insert k r m)
insert-OnlyRaises k r m h only = record {
  raises = λ j s found. ground (arith, lookup-insert k j r m, eq_iff k j, only.raises j s);
}

Result-cases :
    {A : Type 0} (x : Result A)
    → ((r : A) × (x ≡ ok r)) ⊎ ((e : PolicyValidationError) × (x ≡ err e))
Result-cases (ok r) = inl (r, refl)
Result-cases (err e) = inr (e, refl)

override_loop-OnlyRaises :
    (overrides : List (String × CallerRole)) (raw : List (String × String))
    (result : List (String × CallerRole))
    → OnlyRaises overrides
    → override_loop overrides raw ≡ ok result
    → OnlyRaises result
unfolding override_loop
override_loop-OnlyRaises overrides [] result only h = ground (arith, only)
override_loop-OnlyRaises overrides ((action, level) ∷ raw) result only h =
    elim (Result-cases (validate_override action level)) [
      | inl (r, valid) ↦
          override_loop-OnlyRaises (insert action r overrides) raw result
            (insert-OnlyRaises action r overrides (validate-AtLeast action level r valid) only)
            (rw (valid, override_loop) at h)
      | inr (e, invalid) ↦ ground arith
    ]

OnlyRaises-nil : OnlyRaises []
OnlyRaises-nil = record { raises = λ k r found. absurd (unfold lookup in cc) }

from_overrides-OnlyRaises :
    (raw : List (String × String)) (table : PolicyTable)
    → from_overrides raw ≡ ok table
    → OnlyRaises table.overrides
unfolding from_overrides
from_overrides-OnlyRaises raw table h = elim (Result-cases (override_loop [] raw)) [
  | inl (m, e) ↦ override_loop-OnlyRaises [] raw table.overrides OnlyRaises-nil (ground arith)
  | inr (x, e) ↦ absurd (ground arith)
]

-- A table that was accepted never lets a caller do what the compile-time table forbids.
pub table_action_allowed-baseline :
    (raw : List (String × String)) (table : PolicyTable) (caller : CallerRole) (name : String)
    → from_overrides raw ≡ ok table
    → table_action_allowed table caller name ≡ true
    → action_allowed caller name ≡ true
unfolding table_action_allowed table_min_role action_allowed
table_action_allowed-baseline raw table caller name accepted allowed =
    elim (Option-cases (lookup table.overrides name)) [
      | inl no_override ↦ ground arith
      | inr (r, found) ↦
          ground (arith, (from_overrides-OnlyRaises raw table accepted).raises name r found)
    ]

-- A well-formed entry: the action is known, the level parses, and the role of that level is at or
-- above the baseline of the action.
abbrev pub Raises : String × String → Type 0
Raises (action, level_str) =
    (baseline : CallerRole) × (level : RiskLevel) × (min_role_for_action action ≡ some baseline)
    × (parse_risk_level level_str ≡ some level)
    × (role_rank baseline ≤ role_rank (role_for_risk_level level))

validate_of_Raises :
    (action level_str : String)
    → Raises (action, level_str)
    → (r : CallerRole) × (validate_override action level_str ≡ ok r)
unfolding validate_override
validate_of_Raises action level_str (baseline, level, known, parsed, h) =
    (role_for_risk_level level, ground arith)

Raises-of_validate :
    (action level_str : String) (r : CallerRole)
    → validate_override action level_str ≡ ok r
    → Raises (action, level_str)
unfolding validate_override
Raises-of_validate action level_str r h = elim (Option-cases (min_role_for_action action)) [
  | inl unknown ↦ absurd (ground arith)
  | inr (baseline, known) ↦ elim (Option-cases (parse_risk_level level_str)) [
    | inl bad ↦ absurd (ground arith)
    | inr (level, parsed) ↦ (baseline, level, known, parsed, ground arith)
  ]
]

override_loop_accepts :
    (overrides : List (String × CallerRole)) (raw : List (String × String))
    → All Raises raw
    → (m : List (String × CallerRole)) × (override_loop overrides raw ≡ ok m)
unfolding override_loop
override_loop_accepts overrides [] h = (overrides, refl)
override_loop_accepts overrides ((action, level) ∷ raw) h =
    let (r, valid) = validate_of_Raises action level h.0 in
    let (m, e) = override_loop_accepts (insert action r overrides) raw h.1 in
    (m, rw (valid, override_loop) e)

override_loop_needs :
    (overrides : List (String × CallerRole)) (raw : List (String × String))
    {m : List (String × CallerRole)}
    → override_loop overrides raw ≡ ok m
    → All Raises raw
unfolding override_loop
override_loop_needs overrides [] h = tt
override_loop_needs overrides ((action, level) ∷ raw) h =
    elim (Result-cases (validate_override action level)) [
      | inl (r, valid) ↦ (
        Raises-of_validate action level r valid,
        override_loop_needs (insert action r overrides) raw (rw (valid, override_loop) at h),
      )
      | inr (e, invalid) ↦ absurd (ground arith)
    ]

-- A table of overrides is accepted exactly when each of its entries is well formed: the action is
-- known, the level parses, and its role is at or above the baseline.
pub from_overrides-iff-All :
    (raw : List (String × String))
    → ((table : PolicyTable) × (from_overrides raw ≡ ok table)) ↔ All Raises raw
unfolding from_overrides
from_overrides-iff-All raw = (
  λ (table, h). elim (Result-cases (override_loop [] raw)) [
    | inl (m, e) ↦ override_loop_needs [] raw e
    | inr (x, e) ↦ absurd (ground arith)
  ],
  λ h.
      let (m, e) = override_loop_accepts [] raw h in
      (record { overrides = m }, rw (e, from_overrides)),
)
