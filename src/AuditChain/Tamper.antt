-- ===== src/AuditChain/Tamper.antt =====
-- What two chains of crates/sysknife-daemon/src/audit_chain.rs that end in one hash have in common.
use lacs.Prelude.{
  ℕ, String, ◌≡◌, ◌≢◌, ◌⊎◌, inl, inr, sym, ap, ◌∙◌, List, [], ◌∷◌, ◌++◌, length, Bool-cases, arith,
}
use lacs.Prelude.Text.{as_bytes, as_bytes_injective, same_bytes, same_bytes→eq, same_bytes_refl}
use lacs.AuditChain.{AuditKey, ChainRow, content, chain_hash, canonical_bytes}
use lacs.AuditChain.Canonical.{SameContent, canonical_bytes_cancel}
use lacs.AuditChain.Verify.{IsChain, Links, tip}

-- Row by row the same hashed fields.
abbrev pub SameRows : List ChainRow → List ChainRow → Type 0
SameRows [] [] = Unit
SameRows (x ∷ xs) (y ∷ ys) = SameContent (content x) (content y) × SameRows xs ys
SameRows _ _ = ⊥

module _ (hmac_hex : List ℕ → List ℕ → String) (key : AuditKey) where
  -- Two messages that the key gives one hash.
  pub record Collision : Type 0 where
    pub left : List ℕ
    pub right : List ℕ
    pub differ : left ≢ right
    pub collide : hmac_hex key.key_bytes left ≡ hmac_hex key.key_bytes right

  row_or_collision :
      (last last' : String) (x y : ChainRow)
      → Links hmac_hex key last x
      → Links hmac_hex key last' y
      → x.chain_hash ≡ y.chain_hash
      → (SameContent (content x) (content y) × (last ≡ last')) ⊎ Collision
  unfolding chain_hash
  row_or_collision last last' x y hx hy same =
      let m = canonical_bytes (content x) ++ as_bytes x.prev_chain_hash in
      let n = canonical_bytes (content y) ++ as_bytes y.prev_chain_hash in
      elim (Bool-cases (same_bytes m n)) [
        | inl equal ↦
            let (contents, prevs) =
              canonical_bytes_cancel (content x) (content y) (as_bytes x.prev_chain_hash)
                (as_bytes y.prev_chain_hash) (same_bytes→eq m n equal) in
            inl (contents, sym hx.linked ∙ as_bytes_injective _ _ prevs ∙ hy.linked)
        | inr other ↦ inr (record {
          left = m;
          right = n;
          differ = λ e. cc (other, ap (same_bytes m) e, same_bytes_refl m);
          collide = sym hx.hashed ∙ same ∙ hy.hashed;
        })
      ]

  rows_or_collision :
      (last last' : String) (xs ys : List ChainRow)
      → length xs ≡ length ys
      → IsChain hmac_hex key last xs
      → IsChain hmac_hex key last' ys
      → tip hmac_hex key last xs ≡ tip hmac_hex key last' ys
      → (SameRows xs ys × (last ≡ last')) ⊎ Collision
  rows_or_collision last last' [] [] n hx hy e = inl (tt, e)
  rows_or_collision last last' [] (y ∷ ys) n hx hy e = absurd (omega arith)
  rows_or_collision last last' (x ∷ xs) [] n hx hy e = absurd (omega arith)
  rows_or_collision last last' (x ∷ xs) (y ∷ ys) n hx hy e =
      elim (rows_or_collision x.chain_hash y.chain_hash xs ys (omega arith) hx.1 hy.1 e) [
        | inr c ↦ inr c
        | inl (rest, hashes) ↦ elim (row_or_collision last last' x y hx.0 hy.0 hashes) [
          | inr c ↦ inr c
          | inl (first, lasts) ↦ inl ((first, rest), lasts)
        ]
      ]

  -- Two lists of rows of one length that both verify as chains and end in one hash agree in every
  -- hashed field of every row, an absent approval id counting as an empty one; or they show two
  -- different messages to which the key gives one hash.
  pub tamper_or_collision :
      (xs ys : List ChainRow)
      → length xs ≡ length ys
      → IsChain hmac_hex key "" xs
      → IsChain hmac_hex key "" ys
      → tip hmac_hex key "" xs ≡ tip hmac_hex key "" ys
      → SameRows xs ys ⊎ Collision
  tamper_or_collision xs ys n hx hy e = elim (rows_or_collision "" "" xs ys n hx hy e) [
    | inl (same, _) ↦ inl same
    | inr c ↦ inr c
  ]
