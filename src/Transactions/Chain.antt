-- ===== src/Transactions/Chain.antt =====
-- The audit chain of the store of crates/sysknife-daemon/src/transactions.rs under its methods.
use lacs.Prelude.{
  ℕ, ◌+◌, String, ◌≡◌, ◌⊎◌, inl, inr, refl, sym, ap, subst, ◌∙◌, Bool, true, some, List, [], ◌∷◌,
  ◌++◌, map, length, arith, Option-cases, Bool-cases, str_eq, length-map,
}
use lacs.Jobs.{allowed_transition}
use lacs.Types.{JobState, PreviewEnvelope}
use lacs.AuditChain.{AuditKey, content, current_key_id, intact, verify_chain}
use lacs.AuditChain.Verify.{
  IsChain, Links, IsChain-append, tip, Reports, Reports-not_intact, verify_chain_cases,
  not-IsChain_of_break,
}
use lacs.Table.{Row, by_id, chain_row, insert_row, update_where}
use lacs.Transactions.{
  NewTransaction, Database, TransactionStore, new_row, open_with_key, record_transaction,
  record_previewed, update_status, claim_for_execution, cleanup_stale_queued, fetch_chain_rows,
  verify_audit_chain, insert_preview,
}
use lacs.Transactions.Order.{
  Ascending, order_asc_of_Ascending, next-Ascending, next-tip, update_where-Ascending,
  map-update_where,
}

-- The calls that change the store, with what SQLite and uuid compute for each.
pub data Op : Type 0 where
  record_op : String → String → NewTransaction → Op
  preview_op : String → String → NewTransaction → PreviewEnvelope → Op
  status_op : String → JobState → Op
  claim_op : String → Op
  cleanup_op : String → Op

-- An update of the status is refused and changes nothing, or makes an allowed transition of the row
-- of the id.
pub update_status_cases :
    (id : String) (s : JobState) (store : TransactionStore)
    → ((update_status id s store).0 ≡ store)
      ⊎ ((row : Row) × (by_id id store.rows ≡ some row)
          × (allowed_transition row.status s ≡ true)
          × ((update_status id s store).0 ≡ record store {
            rows = (update_where (λ r. str_eq r.transaction_id id) s store.rows).0;
          }))
unfolding update_status
update_status_cases id s store = elim (Option-cases (by_id id store.rows)) [
  | inl e ↦ inl (ground arith)
  | inr (row, e) ↦ elim (Bool-cases (allowed_transition row.status s)) [
    | inl allowed ↦ inr (row, e, allowed, ground arith)
    | inr refused ↦ inl (ground arith)
  ]
]

map-append_one :
    (rows : List Row) (x : Row)
    → map chain_row (rows ++ x ∷ []) ≡ map chain_row rows ++ chain_row x ∷ []
map-append_one [] x = refl
map-append_one (r ∷ rows) x = ap (λ l. chain_row r ∷ l) (map-append_one rows x)

module _ (hmac_hex : List ℕ → List ℕ → String) (warnings_to_json : List String → String) where
  -- The store after the call, whatever the call returns.
  unfoldable pub apply : Op → TransactionStore → TransactionStore
  apply (record_op id created_at t) store =
      (record_transaction hmac_hex warnings_to_json id created_at t store).0
  apply (preview_op id created_at t p) store =
      (record_previewed hmac_hex warnings_to_json id created_at t p store).0
  apply (status_op id s) store = (update_status id s store).0
  apply (claim_op id) store = (claim_for_execution id store).0
  apply (cleanup_op limit) store = (cleanup_stale_queued limit store).0

  unfoldable pub apply_all : List Op → TransactionStore → TransactionStore
  unfolding apply
  apply_all [] store = store
  apply_all (op ∷ ops) store = apply_all ops (apply op store)

  pub record IsSound (key : AuditKey) (store : TransactionStore) : Type 0 where
    pub has_key : store.audit_key ≡ some key
    pub ascending : Ascending 0 store.rows
    pub chained : IsChain hmac_hex key "" (map chain_row store.rows)

  new_row-Links :
      (key : AuditKey) (rows : List Row) (id created_at : String) (t : NewTransaction)
      → key.key_id ≡ current_key_id
      → Ascending 0 rows
      → Links hmac_hex key
          (tip hmac_hex key "" (map chain_row rows))
          (chain_row (new_row hmac_hex warnings_to_json key rows id created_at t))
  unfolding new_row chain_row content
  new_row-Links key rows id created_at t same ascending = record {
    same_key = sym same;
    linked = next-tip hmac_hex key rows ascending;
    hashed = refl;
  }

  insert_row-IsSound :
      (key : AuditKey) (store : TransactionStore) (id created_at : String) (t : NewTransaction)
      (rows : List Row)
      → key.key_id ≡ current_key_id
      → IsSound key store
      → insert_row (new_row hmac_hex warnings_to_json key store.rows id created_at t) store.rows
        ≡ some rows
      → Ascending 0 rows × IsChain hmac_hex key "" (map chain_row rows)
  unfolding insert_row
  insert_row-IsSound key store id created_at t rows same sound e =
      let x = new_row hmac_hex warnings_to_json key store.rows id created_at t in
      let grown : store.rows ++ x ∷ [] ≡ rows = ground arith in
      (
        subst (Ascending 0) grown
            (next-Ascending store.rows x sound.ascending (unfold new_row in refl)),
        subst (λ l. IsChain hmac_hex key "" (map chain_row l)) grown
            (rw (map-append_one store.rows x) (
              IsChain-append hmac_hex key "" (map chain_row store.rows) (chain_row x ∷ [])
                sound.chained
                (new_row-Links key store.rows id created_at t same sound.ascending, tt))),
      )

  update_where-IsSound :
      (key : AuditKey) (store : TransactionStore) (p : Row → Bool) (s : JobState)
      → IsSound key store
      → IsSound key (record store { rows = (update_where p s store.rows).0 })
  update_where-IsSound key store p s sound = record {
    has_key = sound.has_key;
    ascending = update_where-Ascending p s 0 store.rows sound.ascending;
    chained = rw (map-update_where p s store.rows) sound.chained;
  }

  -- What an insertion leaves: the store as it was, or one more row, beside some previews.
  abbrev pub Inserts :
      AuditKey → String → String → NewTransaction → TransactionStore → TransactionStore → Type 0
  Inserts key id created_at t store after =
      (after ≡ store)
      ⊎ ((rows : List Row) × (previews : List (String × PreviewEnvelope)) × (insert_row
              (new_row hmac_hex warnings_to_json key store.rows id created_at t) store.rows
            ≡ some rows)
          × (after ≡ record store { rows = rows; previews = previews }))

  pub record_transaction-Inserts :
      (key : AuditKey) (id created_at : String) (t : NewTransaction) (store : TransactionStore)
      → store.audit_key ≡ some key
      → Inserts key id created_at t store
          (record_transaction hmac_hex warnings_to_json id created_at t store).0
  unfolding record_transaction
  record_transaction-Inserts key id created_at t store h =
      elim (Option-cases (
        insert_row (new_row hmac_hex warnings_to_json key store.rows id created_at t) store.rows)) [
          | inl e ↦ inl (ground arith)
          | inr (rows, e) ↦ inr (rows, store.previews, e, ground arith)
        ]

  pub record_previewed-Inserts :
      (key : AuditKey) (id created_at : String) (t : NewTransaction) (p : PreviewEnvelope)
      (store : TransactionStore)
      → store.audit_key ≡ some key
      → Inserts key id created_at t store
          (record_previewed hmac_hex warnings_to_json id created_at t p store).0
  unfolding record_previewed
  record_previewed-Inserts key id created_at t p store h =
      elim (Option-cases (
        insert_row (new_row hmac_hex warnings_to_json key store.rows id created_at t) store.rows)) [
          | inl e ↦ inl (ground arith)
          | inr (rows, e) ↦
              elim (Option-cases (insert_preview hmac_hex warnings_to_json id p store.previews)) [
                | inl x ↦ inl (ground arith)
                | inr (previews, x) ↦ inr (rows, previews, e, ground arith)
              ]
        ]

  Inserts-IsSound :
      (key : AuditKey) (id created_at : String) (t : NewTransaction)
      (store after : TransactionStore)
      → key.key_id ≡ current_key_id
      → IsSound key store
      → Inserts key id created_at t store after
      → IsSound key after
  Inserts-IsSound key id created_at t store after same sound (inl e) = rw e sound
  Inserts-IsSound key id created_at t store after same sound (inr (rows, previews, inserted, e)) =
      let (ascending, chained) =
        insert_row-IsSound key store id created_at t rows same sound inserted in
      rw e (record { has_key = sound.has_key; ascending = ascending; chained = chained })

  update_status-IsSound :
      (key : AuditKey) (id : String) (s : JobState) (store : TransactionStore)
      → IsSound key store
      → IsSound key (update_status id s store).0
  update_status-IsSound key id s store sound = elim (update_status_cases id s store) [
    | inl e ↦ rw e sound
    | inr (_, _, _, e) ↦ rw e (update_where-IsSound key store _ s sound)
  ]

  -- Every call keeps the store sound: its key, the order of its rows and their chain.
  pub apply-IsSound :
      (key : AuditKey) (op : Op) (store : TransactionStore)
      → key.key_id ≡ current_key_id
      → IsSound key store
      → IsSound key (apply op store)
  unfolding apply claim_for_execution cleanup_stale_queued
  apply-IsSound key (record_op id created_at t) store same sound =
      Inserts-IsSound key id created_at t store _ same sound
        (record_transaction-Inserts key id created_at t store sound.has_key)
  apply-IsSound key (preview_op id created_at t p) store same sound =
      Inserts-IsSound key id created_at t store _ same sound
        (record_previewed-Inserts key id created_at t p store sound.has_key)
  apply-IsSound key (status_op id s) store same sound = update_status-IsSound key id s store sound
  apply-IsSound key (claim_op id) store same sound = update_where-IsSound key store _ _ sound
  apply-IsSound key (cleanup_op limit) store same sound = update_where-IsSound key store _ _ sound

  apply_all-IsSound :
      (key : AuditKey) (ops : List Op) (store : TransactionStore)
      → key.key_id ≡ current_key_id
      → IsSound key store
      → IsSound key (apply_all ops store)
  unfolding apply_all
  apply_all-IsSound key [] store same sound = sound
  apply_all-IsSound key (op ∷ ops) store same sound =
      apply_all-IsSound key ops (apply op store) same (apply-IsSound key op store same sound)

  -- the ways in which a sound store can be asked about itself
  verify_of_IsSound :
      (key : AuditKey) (store : TransactionStore)
      → IsSound key store
      → verify_audit_chain hmac_hex key store ≡ intact (length store.rows)
  unfolding verify_audit_chain fetch_chain_rows
  verify_of_IsSound key store sound =
      rw (order_asc_of_Ascending 0 store.rows sound.ascending)
        (elim (verify_chain_cases hmac_hex key (map chain_row store.rows)) [
          | inl (chained, e) ↦ e ∙ ap intact (length-map store.rows chain_row)
          | inr b ↦ absurd (
              not-IsChain_of_break hmac_hex key "" b.before b.after b.row b.not_linked
                (subst (IsChain hmac_hex key "") b.split sound.chained))
        ])

  IsSound-of_verify :
      (key : AuditKey) (store : TransactionStore) (n : ℕ)
      → store.audit_key ≡ some key
      → Ascending 0 store.rows
      → verify_audit_chain hmac_hex key store ≡ intact n
      → IsSound key store
  unfolding verify_audit_chain fetch_chain_rows
  IsSound-of_verify key store n keyed ascending verified =
      let rows = map chain_row store.rows in
      let said : verify_chain hmac_hex key rows ≡ intact n =
        subst (λ l. verify_chain hmac_hex key (map chain_row l) ≡ intact n)
          (order_asc_of_Ascending 0 store.rows ascending) verified in
      elim (verify_chain_cases hmac_hex key rows) [
        | inl (chained, _) ↦ record { has_key = keyed; ascending = ascending; chained = chained }
        | inr b ↦ absurd (
            Reports-not_intact hmac_hex key _ _ n b.row (
              subst
                (Reports hmac_hex key (tip hmac_hex key "" b.before) (0 + length b.before) b.row)
                said b.reported))
      ]

  -- Where the rows of a database stand in the order of their numbers, and all verify when it is opened
  -- with the current key, all rows verify after whatever calls are then made on the store, whatever
  -- they return.
  pub verify_audit_chain-apply_all :
      (key : AuditKey) (db : Database) (n : ℕ) (ops : List Op)
      → key.key_id ≡ current_key_id
      → Ascending 0 (open_with_key key db).rows
      → verify_audit_chain hmac_hex key (open_with_key key db) ≡ intact n
      → verify_audit_chain hmac_hex key (apply_all ops (open_with_key key db))
        ≡ intact (length (apply_all ops (open_with_key key db)).rows)
  unfolding open_with_key
  verify_audit_chain-apply_all key db n ops same ascending verified = verify_of_IsSound key _ (
      apply_all-IsSound key ops (open_with_key key db) same
        (IsSound-of_verify key (open_with_key key db) n refl ascending verified))
