-- ===== src/Transactions/Expiry.antt =====
-- The time limit of a preview. `created_at` is written as `strftime('%Y-%m-%dT%H:%M:%fZ', 'now')`
-- and compared, as a text, with `datetime('now', '-15 minutes')`, which has a space in the place of
-- the letter T.
use lacs.Prelude.{
  ℕ, String, ◌≡◌, refl, ◌∙◌, Bool, true, false, ◌&&◌, not, Option, List, [], ◌∷◌, ◌++◌, All, arith,
  str_eq,
}
use lacs.Prelude.Text.{as_bytes, bytes_lt, bytes_lt-append}
use lacs.Types.{JobState, queued, canceled, same_state}
use lacs.Table.{Row, later, update_where, where_rows, latest}
use lacs.Transactions.{
  TransactionStore, cleanup_stale_queued, find_by_request_hash, optional_record,
}

-- A time of creation and a limit of one date: what the two formats print has the same beginning, and
-- goes on with the letter T in one and a space in the other.
pub record SameDate (created_at limit : String) : Type 0 where
  pub date : List ℕ
  pub time : List ℕ
  pub limit_time : List ℕ
  pub created_text : as_bytes created_at ≡ date ++ (b'T' ∷ time)
  pub limit_text : as_bytes limit ≡ date ++ (b' ' ∷ limit_time)

later_of_SameDate :
    (created_at limit : String) → SameDate created_at limit → later created_at limit ≡ true
unfolding later
later_of_SameDate created_at limit h =
    rw (h.created_text, h.limit_text)
      (bytes_lt-append h.date (b' ' ∷ h.limit_time) (b'T' ∷ h.time) ∙ unfold bytes_lt in refl)

update_where_nothing :
    (p : Row → Bool) (s : JobState) (rows : List Row)
    → All (λ r. p r ≡ false) rows
    → update_where p s rows ≡ (rows, 0)
unfolding update_where
update_where_nothing p s [] h = refl
update_where_nothing p s (r ∷ rows) h =
    rw (h.0, update_where) (ground (arith, update_where_nothing p s rows h.1))

not_stale :
    (limit : String) (rows : List Row)
    → All (λ r. SameDate r.created_at limit) rows
    → All (λ r. (same_state r.status queued && not (later r.created_at limit)) ≡ false) rows
not_stale limit [] h = tt
not_stale limit (r ∷ rows) h =
    (ground (arith, later_of_SameDate r.created_at limit h.0), not_stale limit rows h.1)

where_same :
    (p q : Row → Bool) (rows : List Row)
    → All (λ r. p r ≡ q r) rows
    → where_rows p rows ≡ where_rows q rows
unfolding where_rows
where_same p q [] h = refl
where_same p q (r ∷ rows) h = ground (arith, h.0, where_same p q rows h.1)

fresh_rows :
    (hash limit : String) (rows : List Row)
    → All (λ r. SameDate r.created_at limit) rows
    → All
        (λ r.
          (str_eq r.request_hash hash && (same_state r.status queued && later r.created_at limit))
          ≡ (str_eq r.request_hash hash && same_state r.status queued))
        rows
fresh_rows hash limit [] h = tt
fresh_rows hash limit (r ∷ rows) h =
    (ground (arith, later_of_SameDate r.created_at limit h.0), fresh_rows hash limit rows h.1)

-- Where all transactions were created on the date of the limit, at whatever time of that day, the
-- clean-up cancels none of them, and the search for an approved request is the search without the
-- time limit: no preview expires before the date of the limit has moved on.
pub no_expiry_within_date :
    (warnings_of_json : String → Option (List String)) (hash limit : String)
    (store : TransactionStore)
    → All (λ r. SameDate r.created_at limit) store.rows
    → (cleanup_stale_queued limit store ≡ (store, 0))
      × (find_by_request_hash warnings_of_json hash limit store
          ≡ optional_record warnings_of_json (
              latest (
                where_rows
                  (λ r. str_eq r.request_hash hash && same_state r.status queued)
                  store.rows)))
unfolding cleanup_stale_queued find_by_request_hash
no_expiry_within_date warnings_of_json hash limit store h = (
  rw (update_where_nothing _ canceled store.rows (not_stale limit store.rows h)) refl,
  rw (where_same _ _ store.rows (fresh_rows hash limit store.rows h)) refl,
)
