-- ===== src/Transactions/Spent.antt =====
-- Transactions of the store of crates/sysknife-daemon/src/transactions.rs that are not queued any more.
use lacs.Prelude.{
  String, ◌≡◌, ◌≢◌, inl, inr, refl, subst, Bool, true, false, ◌&&◌, Option, some, List, [], ◌∷◌,
  ◌++◌, All, All-append, arith, Option-cases, Bool-cases, str_eq, eq_iff, ltb, if◌then◌else◌,
}
use lacs.Types.{JobState, queued, running, same_state, TransactionRecord}
use lacs.Jobs.{allowed_transition}
use lacs.Table.{Row, by_id, insert_row, update_where, clashes, where_rows, latest, later}
use lacs.Transactions.{
  TransactionStore, ok, update_status, claim_for_execution, find_by_request_hash,
}
use lacs.Transactions.Chain.{update_status_cases}

-- A row that cannot be claimed under the id.
abbrev NotClaimable : String → Row → Type 0
NotClaimable id r = (str_eq r.transaction_id id && same_state r.status queued) ≡ false

-- The id is taken, and no row of that id is queued any more.
pub record Spent (id : String) (rows : List Row) : Type 0 where
  pub row : Row
  pub present : by_id id rows ≡ some row
  pub none_queued : All (NotClaimable id) rows

pub by_id-append :
    (id : String) (rows more : List Row) (r : Row)
    → by_id id rows ≡ some r
    → by_id id (rows ++ more) ≡ some r
unfolding by_id
by_id-append id [] more r h = absurd (cc)
by_id-append id (x ∷ rows) more r h = ground (arith, by_id-append id rows more r)

-- what an update leaves of a row
abbrev pub updated : (Row → Bool) → JobState → Row → Row
updated p s r = if p r then record r { status = s } else r

pub by_id-update_where :
    (id : String) (p : Row → Bool) (s : JobState) (rows : List Row) (r : Row)
    → by_id id rows ≡ some r
    → by_id id (update_where p s rows).0 ≡ some (updated p s r)
unfolding by_id update_where
by_id-update_where id p s [] r h = absurd (cc)
by_id-update_where id p s (x ∷ rows) r h = elim (Bool-cases (p x)) [
  | inl hit ↦ ground (arith, by_id-update_where id p s rows r)
  | inr miss ↦ ground (arith, by_id-update_where id p s rows r)
]

-- an update that sets another state than `queued`
none_queued-update_where :
    (id : String) (p : Row → Bool) (s : JobState) (rows : List Row)
    → same_state s queued ≡ false
    → All (NotClaimable id) rows
    → All (NotClaimable id) (update_where p s rows).0
unfolding update_where
none_queued-update_where id p s [] e h = tt
none_queued-update_where id p s (r ∷ rows) e h = elim (Bool-cases (p r)) [
  | inl hit ↦ rw (hit, update_where) (ground (arith, e), none_queued-update_where id p s rows e h.1)
  | inr miss ↦ rw (miss, update_where) (h.0, none_queued-update_where id p s rows e h.1)
]

-- the claim itself leaves no row of the id queued
none_queued-claim :
    (id : String) (rows : List Row)
    → All
        (NotClaimable id)
        (update_where
          (λ r. str_eq r.transaction_id id && same_state r.status queued)
          running
          rows).0
unfolding update_where
none_queued-claim id [] = tt
none_queued-claim id (r ∷ rows) =
    elim (Bool-cases (str_eq r.transaction_id id && same_state r.status queued)) [
      | inl hit ↦
          rw (hit, update_where) (unfold same_state in ground arith, none_queued-claim id rows)
      | inr miss ↦ rw (miss, update_where) (miss, none_queued-claim id rows)
    ]

update_where_none :
    (p : Row → Bool) (s : JobState) (rows : List Row)
    → All (λ r. p r ≡ false) rows
    → (update_where p s rows).1 ≡ 0
unfolding update_where
update_where_none p s [] h = refl
update_where_none p s (r ∷ rows) h = rw (h.0, update_where) (update_where_none p s rows h.1)

-- an update that counts a row has met a row of the id
by_id_of_claim :
    (id : String) (rows : List Row)
    → ltb 0
        (update_where
          (λ r. str_eq r.transaction_id id && same_state r.status queued)
          running
          rows).1
      ≡ true
    → (r : Row) × (by_id id rows ≡ some r)
unfolding update_where by_id
by_id_of_claim id [] h = absurd (ground arith)
by_id_of_claim id (r ∷ rows) h = elim (Bool-cases (str_eq r.transaction_id id)) [
  | inl same ↦ (r, rw (same, by_id))
  | inr other ↦ let (m, e) = by_id_of_claim id rows (ground arith) in (m, rw (other, by_id) e)
]

clashes_of_by_id :
    (id : String) (x r : Row) (rows : List Row)
    → by_id id rows ≡ some r
    → clashes x rows ≡ false
    → str_eq x.transaction_id id ≡ false
unfolding by_id clashes
clashes_of_by_id id x r [] h c = absurd (cc)
clashes_of_by_id id x r (y ∷ rows) h c = ground (
  arith,
  clashes_of_by_id id x r rows,
  eq_iff y.transaction_id id,
  eq_iff y.transaction_id x.transaction_id,
  eq_iff x.transaction_id id,
)

pub insert_row-Spent :
    (id : String) (x : Row) (rows rows' : List Row)
    → insert_row x rows ≡ some rows'
    → Spent id rows
    → Spent id rows'
unfolding insert_row
insert_row-Spent id x rows rows' e h =
    let free : clashes x rows ≡ false = ground arith in
    let grown : rows ++ x ∷ [] ≡ rows' = ground arith in
    subst (Spent id) grown (record {
      row = h.row;
      present = by_id-append id rows (x ∷ []) h.row h.present;
      none_queued =
          All-append (NotClaimable id) rows (x ∷ []) h.none_queued
            (ground (arith, clashes_of_by_id id x h.row rows h.present free), tt);
    })

pub update_where-Spent :
    (id : String) (p : Row → Bool) (s : JobState) (rows : List Row)
    → same_state s queued ≡ false
    → Spent id rows
    → Spent id (update_where p s rows).0
update_where-Spent id p s rows e h = record {
  row = updated p s h.row;
  present = by_id-update_where id p s rows h.row h.present;
  none_queued = none_queued-update_where id p s rows e h.none_queued;
}

allowed-not_queued : (s t : JobState) → allowed_transition s t ≡ true → same_state t queued ≡ false
unfolding allowed_transition same_state
allowed-not_queued s t h = ground arith

pub update_status-Spent :
    (id other : String) (s : JobState) (store : TransactionStore)
    → Spent id store.rows
    → Spent id (update_status other s store).0.rows
update_status-Spent id other s store h = elim (update_status_cases other s store) [
  | inl e ↦ rw e h
  | inr (row, _, allowed, e) ↦
      rw e (update_where-Spent id _ s store.rows (allowed-not_queued row.status s allowed) h)
]

-- A claim that succeeds leaves the id spent.
pub claim-Spent :
    (id : String) (store : TransactionStore)
    → (claim_for_execution id store).1 ≡ true
    → Spent id (claim_for_execution id store).0.rows
unfolding claim_for_execution
claim-Spent id store h =
    let (r, found) = by_id_of_claim id store.rows h in
    record {
      row = updated (λ x. str_eq x.transaction_id id && same_state x.status queued) running r;
      present = by_id-update_where id _ running store.rows r found;
      none_queued = none_queued-claim id store.rows;
    }

pub claim_of_Spent :
    (id : String) (store : TransactionStore)
    → Spent id store.rows
    → (claim_for_execution id store).1 ≡ false
unfolding claim_for_execution
claim_of_Spent id store h = rw (update_where_none _ running store.rows h.none_queued) refl

where_rows-All :
    (P : Row → Type 0) (p : Row → Bool) (rows : List Row)
    → All P rows
    → All (λ r. P r × (p r ≡ true)) (where_rows p rows)
unfolding where_rows
where_rows-All P p [] h = tt
where_rows-All P p (r ∷ rows) h = elim (Bool-cases (p r)) [
  | inl hit ↦ rw (hit, where_rows) ((h.0, hit), where_rows-All P p rows h.1)
  | inr miss ↦ rw (miss, where_rows) (where_rows-All P p rows h.1)
]

latest-All :
    (P : Row → Type 0) (rows : List Row) (m : Row) → All P rows → latest rows ≡ some m → P m
unfolding latest
latest-All P [] m h e = absurd (cc)
latest-All P (r ∷ rows) m h e = elim (Option-cases (latest rows)) [
  | inl none_left ↦ let same : r ≡ m = ground arith in subst P same h.0
  | inr (k, found) ↦ elim (Bool-cases (ltb r.seq k.seq)) [
    | inl newer ↦ let same : k ≡ m = ground arith in subst P same (latest-All P rows k h.1 found)
    | inr older ↦ let same : r ≡ m = ground arith in subst P same h.0
  ]
]

-- What a search that returns a record has found: a queued row of the request's hash, created after
-- the limit, that has whatever all rows have.
pub find_found :
    (P : Row → Type 0) (warnings_of_json : String → Option (List String)) (hash limit : String)
    (store : TransactionStore) (t : TransactionRecord)
    → All P store.rows
    → find_by_request_hash warnings_of_json hash limit store ≡ ok (some t)
    → (m : Row) × P m
      × ((str_eq m.request_hash hash && (same_state m.status queued && later m.created_at limit))
          ≡ true)
      × (t.transaction_id ≡ m.transaction_id)
unfolding find_by_request_hash
find_found P warnings_of_json hash limit store t h e =
    elim (Option-cases (
      latest (
        where_rows
          (λ r.
            str_eq r.request_hash hash && (same_state r.status queued && later r.created_at limit))
          store.rows))) [
            | inl nothing ↦ absurd (ground arith)
            | inr (m, found) ↦
                let (holds, passes) = latest-All _ _ m (where_rows-All P _ store.rows h) found in
                (m, holds, passes, ground arith)
          ]

pub find_of_Spent :
    (warnings_of_json : String → Option (List String)) (id hash limit : String)
    (store : TransactionStore) (t : TransactionRecord)
    → Spent id store.rows
    → find_by_request_hash warnings_of_json hash limit store ≡ ok (some t)
    → t.transaction_id ≢ id
find_of_Spent warnings_of_json id hash limit store t h e same =
    let (m, spent, passes, same_id) =
      find_found (NotClaimable id) warnings_of_json hash limit store t h.none_queued e in
    ground (arith, eq_iff m.transaction_id id)
