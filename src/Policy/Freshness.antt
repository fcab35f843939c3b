-- ===== src/Policy/Freshness.antt =====
-- When an approval is fresh, for crates/sysknife-daemon/src/policy.rs.
use lacs.Prelude.{
  String, ◌≡◌, ◌≢◌, ◌⊎◌, ◌∙◌, refl, inl, inr, ap, true, [], length, ==_iff, arith, Bool-cases,
}
use lacs.Prelude.Text.{as_bytes, as_bytes_injective, encode, same_bytes→eq, same_bytes_refl}
use lacs.Types
use lacs.Policy.{require_fresh_approval, fresh, stale, stale_approval, approval_matches_request}

as_bytes-ne-nil : (s : String) → s ≢ "" → as_bytes s ≢ []
as_bytes-ne-nil s given e = given (as_bytes_injective s "" (e ∙ unfold as_bytes encode in refl))

-- the test that both hashes go through
matches_of_same : (r a : String) → r ≡ a → r ≢ "" → approval_matches_request r a ≡ true
unfolding approval_matches_request Types.approval_matches_request
matches_of_same r a e given = rw (← e) (
    ground (
      arith,
      as_bytes-ne-nil r given,
      same_bytes_refl (as_bytes r),
      ==_iff (length (as_bytes r)) (length (as_bytes r)),
    ))

same_of_matches :
    (r a : String)
    → approval_matches_request r a ≡ true
    → (as_bytes r ≢ []) × (as_bytes r ≡ as_bytes a)
unfolding approval_matches_request Types.approval_matches_request
same_of_matches r a h = ground (arith, same_bytes→eq (as_bytes r) (as_bytes a))

-- `require_fresh_approval` passes if the two hashes are one text that is not empty. In all other
-- cases it reports both hashes as stale.
pub require_fresh_approval_cases :
    (request_hash approval_hash : String)
    → ((request_hash ≡ approval_hash)
        × (request_hash ≢ "")
        × (require_fresh_approval request_hash approval_hash ≡ fresh))
      ⊎ ((¬ ((request_hash ≡ approval_hash) × (request_hash ≢ "")))
          × (require_fresh_approval request_hash approval_hash
              ≡ stale (stale_approval request_hash approval_hash)))
unfolding require_fresh_approval
require_fresh_approval_cases r a = elim (Bool-cases (approval_matches_request r a)) [
  | inl same ↦
      let (filled, bytes) = same_of_matches r a same in
      inl (
        as_bytes_injective r a bytes,
        (λ e. filled (ap as_bytes e ∙ unfold as_bytes encode in refl)),
        rw same,
      )
  | inr other ↦ inr ((λ p. cc (other, matches_of_same r a p.0 p.1)), rw other)
]
