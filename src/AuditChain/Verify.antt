-- ===== src/AuditChain/Verify.antt =====
-- What `verify_chain` of crates/sysknife-daemon/src/audit_chain.rs decides, and which row it reports.
use Prim.Native.String.{◌++◌ as append}
use lacs.Prelude.{
  ℕ, String, ◌+◌, ◌≡◌, ◌≢◌, true, false, ◌⊎◌, inl, inr, ◌↔◌, refl, sym, ap, subst, ◌∙◌, List, [],
  ◌∷◌, ◌++◌, length, str_eq, eq_iff, Bool-cases, arith,
}
use lacs.AuditChain.{
  AuditKey, ChainRow, content, chain_hash, verify_from, verify_chain, VerifyOutcome, intact, broken,
  cannot_verify, outcome_to_exit_code,
}

differs : (s t : String) → ((s ≡ t) × (str_eq s t ≡ true)) ⊎ ((s ≢ t) × (str_eq s t ≡ false))
differs s t = elim (Bool-cases (str_eq s t)) [
  | inl e ↦ inl ((eq_iff s t).0 e, e)
  | inr e ↦ inr (ground (arith, eq_iff s t), e)
]

module _ (hmac_hex : List ℕ → List ℕ → String) (key : AuditKey) where
  -- A row that may follow a row of hash `last`.
  pub record Links (last : String) (row : ChainRow) : Type 0 where
    pub same_key : row.key_id ≡ key.key_id
    pub linked : row.prev_chain_hash ≡ last
    pub hashed : row.chain_hash ≡ chain_hash hmac_hex key (content row) row.prev_chain_hash

  -- Rows of which each follows the one before it, the first one `last`.
  abbrev pub IsChain : String → List ChainRow → Type 0
  IsChain last [] = Unit
  IsChain last (row ∷ rows) = Links last row × IsChain row.chain_hash rows

  -- The hash that the next row has to follow.
  abbrev pub tip : String → List ChainRow → String
  tip last [] = last
  tip last (row ∷ rows) = tip row.chain_hash rows

  pub IsChain-append :
      (last : String) (xs ys : List ChainRow)
      → IsChain last xs
      → IsChain (tip last xs) ys
      → IsChain last (xs ++ ys)
  IsChain-append last [] ys hx hy = hy
  IsChain-append last (x ∷ xs) ys hx hy = (hx.0, IsChain-append x.chain_hash xs ys hx.1 hy)

  pub tip-append :
      (last : String) (xs : List ChainRow) (row : ChainRow)
      → tip last (xs ++ row ∷ []) ≡ row.chain_hash
  tip-append last [] row = refl
  tip-append last (x ∷ xs) row = tip-append x.chain_hash xs row

  -- what the loop says of its first row
  verify_from-cons :
      (last : String) (n : ℕ) (row : ChainRow) (rows : List ChainRow)
      → Links last row
      → verify_from hmac_hex key last n (row ∷ rows)
        ≡ verify_from hmac_hex key row.chain_hash (n + 1) rows
  unfolding verify_from
  verify_from-cons last n row rows h = ground (
    arith,
    eq_iff row.key_id key.key_id,
    eq_iff row.prev_chain_hash last,
    eq_iff (chain_hash hmac_hex key (content row) row.prev_chain_hash) row.chain_hash,
  )

  -- The report on a row that does not follow one of hash `last`, where `n` rows were counted: first
  -- the id of the key is compared, then the hash of the row before, then the hash of the row.
  pub data Reports (last : String) (n : ℕ) (row : ChainRow) : VerifyOutcome → Type 0 where
    other_key :
        row.key_id ≢ key.key_id → Reports last n row (cannot_verify row.seq row.key_id key.key_id)
    other_prev :
        row.key_id ≡ key.key_id
        → row.prev_chain_hash ≢ last
        → Reports last n row (
            broken n row.seq row.transaction_id
              (append "prev_chain_hash=" last)
              (append "prev_chain_hash=" row.prev_chain_hash))
    other_hash :
        row.key_id ≡ key.key_id
        → row.prev_chain_hash ≡ last
        → row.chain_hash ≢ chain_hash hmac_hex key (content row) row.prev_chain_hash
        → Reports last n row (
            broken n row.seq row.transaction_id
              (chain_hash hmac_hex key (content row) row.prev_chain_hash)
              row.chain_hash)

  verify_from-first :
      (last : String) (n : ℕ) (row : ChainRow) (rows : List ChainRow)
      → Links last row
        ⊎ ((¬ Links last row) × Reports last n row (verify_from hmac_hex key last n (row ∷ rows)))
  unfolding verify_from
  verify_from-first last n row rows =
      let verdict = verify_from hmac_hex key last n (row ∷ rows) in
      let report = Reports last n row in
      elim (differs row.key_id key.key_id) [
        | inr (other, e) ↦
            inr ((λ l. other l.same_key), subst report {y = verdict} (rw e refl) (other_key other))
        | inl (same, e1) ↦ elim (differs row.prev_chain_hash last) [
          | inr (other, e) ↦ inr (
            (λ l. other l.linked),
            subst report {y = verdict} (rw (e1, e) refl) (other_prev same other),
          )
          | inl (linked, e2) ↦
              elim (differs (chain_hash hmac_hex key (content row) row.prev_chain_hash)
                row.chain_hash) [
                  | inr (other, e) ↦ inr (
                    (λ l. other (sym l.hashed)),
                    subst report {y = verdict} (rw (e1, e2, e) refl)
                        (other_hash same linked (λ h. other (sym h))),
                  )
                  | inl (hashed, _) ↦
                      inl (record { same_key = same; linked = linked; hashed = sym hashed })
                ]
        ]
      ]

  -- Where a list of rows stops to be a chain, and what is reported there.
  pub record FirstBreak (last : String) (n : ℕ) (rows : List ChainRow) (outcome : VerifyOutcome)
      : Type 0 where
    pub before : List ChainRow
    pub row : ChainRow
    pub after : List ChainRow
    pub split : rows ≡ before ++ row ∷ after
    pub chained : IsChain last before
    pub not_linked : ¬ Links (tip last before) row
    pub reported : Reports (tip last before) (n + length before) row outcome

  verify_from_cases :
      (last : String) (n : ℕ) (rows : List ChainRow)
      → (IsChain last rows × (verify_from hmac_hex key last n rows ≡ intact (n + length rows)))
        ⊎ FirstBreak last n rows (verify_from hmac_hex key last n rows)
  verify_from_cases last n [] = inl (tt, unfold verify_from in ground arith)
  verify_from_cases last n (row ∷ rows) = elim (verify_from-first last n row rows) [
    | inr (not_linked, reported) ↦ inr (record {
      before = [];
      row = row;
      after = rows;
      split = refl;
      chained = tt;
      not_linked = not_linked;
      reported =
          subst (λ k. Reports last k row (verify_from hmac_hex key last n (row ∷ rows)))
            (omega arith) reported;
    })
    | inl links ↦ elim (verify_from_cases row.chain_hash (n + 1) rows) [
      | inl (chained, e) ↦
          inl
            ((links, chained), verify_from-cons last n row rows links ∙ e ∙ ap intact (omega arith))
      | inr b ↦ inr (record {
        before = row ∷ b.before;
        row = b.row;
        after = b.after;
        split = ap (λ r. row ∷ r) b.split;
        chained = (links, b.chained);
        not_linked = b.not_linked;
        reported = rw (verify_from-cons last n row rows links) (
            subst
              (λ k.
                Reports (tip row.chain_hash b.before) k b.row
                  (verify_from hmac_hex key row.chain_hash (n + 1) rows))
              (omega arith) b.reported);
      })
    ]
  ]

  -- `verify_chain` reports the number of rows as intact if every row carries the id of the loaded
  -- key, the hash of the row before it (the first one the empty text) and its own keyed hash. In all
  -- other cases it reports the first row that does not: one of another key as not to be verified, and
  -- one of another hash before it, or of another hash of its own, as broken, with the number of rows
  -- before it. The rows before it form a chain.
  pub verify_chain_cases :
      (rows : List ChainRow)
      → (IsChain "" rows × (verify_chain hmac_hex key rows ≡ intact (length rows)))
        ⊎ FirstBreak "" 0 rows (verify_chain hmac_hex key rows)
  unfolding verify_chain
  verify_chain_cases rows = elim (verify_from_cases "" 0 rows) [
    | inl (chained, e) ↦ inl (chained, e ∙ ap intact (omega arith))
    | inr b ↦ inr b
  ]

  Reports-not_zero :
      (last : String) (n : ℕ) (row : ChainRow) (outcome : VerifyOutcome)
      → Reports last n row outcome
      → ¬ (outcome_to_exit_code outcome ≡ 0)
  unfolding outcome_to_exit_code
  Reports-not_zero last n row _ (other_key _) z = ground arith
  Reports-not_zero last n row _ (other_prev _ _) z = ground arith
  Reports-not_zero last n row _ (other_hash _ _ _) z = ground arith

  pub Reports-not_intact :
      (last : String) (n k : ℕ) (row : ChainRow) → ¬ Reports last n row (intact k)
  Reports-not_intact last n k row h = go (intact k) h refl
    where
      go : (o : VerifyOutcome) → Reports last n row o → ¬ (o ≡ intact k)
      go _ (other_key _) e = ground arith
      go _ (other_prev _ _) e = ground arith
      go _ (other_hash _ _ _) e = ground arith

  pub not-IsChain_of_break :
      (last : String) (before after : List ChainRow) (row : ChainRow)
      → ¬ Links (tip last before) row
      → ¬ IsChain last (before ++ row ∷ after)
  not-IsChain_of_break last [] after row h c = h c.0
  not-IsChain_of_break last (x ∷ before) after row h c =
      not-IsChain_of_break x.chain_hash before after row h c.1

  -- The exit code of `sysknife audit verify` is 0 exactly when the rows form a chain.
  pub exit_code-iff-IsChain :
      (rows : List ChainRow)
      → (outcome_to_exit_code (verify_chain hmac_hex key rows) ≡ 0) ↔ IsChain "" rows
  exit_code-iff-IsChain rows = elim (verify_chain_cases rows) [
    | inl (chained, e) ↦ (λ _. chained, λ _. rw e (unfold outcome_to_exit_code in refl))
    | inr b ↦ (
      λ z. absurd (Reports-not_zero _ _ b.row (verify_chain hmac_hex key rows) b.reported z),
      λ c. absurd (
          not-IsChain_of_break "" b.before b.after b.row b.not_linked
            (subst (IsChain "") b.split c)),
    )
  ]
