-- ===== src/Transactions/Fresh.antt =====
-- A row that is inserted with a new id, in crates/sysknife-daemon/src/transactions.rs: it has the
-- highest `seq`, so a search that it passes finds it, and a claim changes it.
use lacs.Prelude.{
  ℕ, suc, ◌≡◌, ◌≤◌, ◌<◌, refl, inl, inr, Bool, true, false, Option, none, some, List, [], ◌∷◌, ◌++◌,
  All, arith, ltb, Bool-cases, Option-cases,
}
use lacs.Types.{JobState}
use lacs.Table.{Row, latest, where_rows, by_id, update_where, clashes, insert_row}
use lacs.Transactions.{next_seq_and_prev_hash}

abbrev pub Below : ℕ → List Row → Type 0
Below n = All (λ r. r.seq < n)

Below-mono : (m n : ℕ) (rows : List Row) → m ≤ n → Below m rows → Below n rows
Below-mono m n [] h below = tt
Below-mono m n (r ∷ rows) h below = (omega arith, Below-mono m n rows h below.1)

latest-none : (rows : List Row) → latest rows ≡ none → rows ≡ []
unfolding latest
latest-none [] h = refl
latest-none (r ∷ rows) h = elim (Option-cases (latest rows)) [
  | inl e ↦ absurd (ground arith)
  | inr (m, e) ↦ absurd (ground arith)
]

abbrev seq_of : Option Row → ℕ
seq_of none = 0
seq_of (some r) = r.seq

-- the highest `seq` that is there
Below-latest : (rows : List Row) → Below (suc (seq_of (latest rows))) rows
unfolding latest
Below-latest [] = tt
Below-latest (r ∷ rows) = elim (Option-cases (latest rows)) [
  | inl e ↦ rw (latest-none rows e) (omega arith, tt)
  | inr (k, e) ↦
      let rest = rw e at (Below-latest rows) in
      rw (e, latest) (ground arith, Below-mono (suc k.seq) _ rows (ground arith) rest)
]

next_seq_lem : (rows : List Row) → suc (seq_of (latest rows)) ≤ (next_seq_and_prev_hash rows).0
unfolding next_seq_and_prev_hash
next_seq_lem rows = ground arith

pub next-Below : (rows : List Row) → Below (next_seq_and_prev_hash rows).0 rows
next-Below rows = Below-mono _ _ rows (next_seq_lem rows) (Below-latest rows)

no_clash :
    (x : Row) (rows : List Row)
    → by_id x.transaction_id rows ≡ none
    → Below x.seq rows
    → clashes x rows ≡ false
unfolding clashes by_id
no_clash x [] h below = refl
no_clash x (r ∷ rows) h below = ground (arith, no_clash x rows)

latest-last : (rows : List Row) (x : Row) → Below x.seq rows → latest (rows ++ x ∷ []) ≡ some x
unfolding latest
latest-last [] x below = refl
latest-last (r ∷ rows) x below = rw (latest-last rows x below.1, latest) (ground arith)

where_rows-last :
    (p : Row → Bool) (rows : List Row) (x : Row)
    → p x ≡ true
    → where_rows p (rows ++ x ∷ []) ≡ where_rows p rows ++ x ∷ []
unfolding where_rows
where_rows-last p [] x h = ground arith
where_rows-last p (r ∷ rows) x h = ground (arith, where_rows-last p rows x h)

where_rows-Below :
    (p : Row → Bool) (n : ℕ) (rows : List Row) → Below n rows → Below n (where_rows p rows)
unfolding where_rows
where_rows-Below p n [] h = tt
where_rows-Below p n (r ∷ rows) h = elim (Bool-cases (p r)) [
  | inl e ↦ rw (e, where_rows) (h.0, where_rows-Below p n rows h.1)
  | inr e ↦ rw (e, where_rows) (where_rows-Below p n rows h.1)
]

-- A search that a row with the highest `seq` passes finds this row.
pub latest-where_rows-last :
    (p : Row → Bool) (rows : List Row) (x : Row)
    → Below x.seq rows
    → p x ≡ true
    → latest (where_rows p (rows ++ x ∷ [])) ≡ some x
latest-where_rows-last p rows x below h =
    rw (where_rows-last p rows x h)
      (latest-last (where_rows p rows) x (where_rows-Below p x.seq rows below))

-- An update that the last row passes changes a row.
pub update_where-last :
    (p : Row → Bool) (s : JobState) (rows : List Row) (x : Row)
    → p x ≡ true
    → ltb 0 (update_where p s (rows ++ x ∷ [])).1 ≡ true
unfolding update_where
update_where-last p s [] x h = ground arith
update_where-last p s (r ∷ rows) x h = ground (arith, update_where-last p s rows x h)

-- A row with a new id and the next `seq` is inserted at the end.
pub insert_row-next :
    (x : Row) (rows : List Row)
    → by_id x.transaction_id rows ≡ none
    → x.seq ≡ (next_seq_and_prev_hash rows).0
    → insert_row x rows ≡ some (rows ++ x ∷ [])
unfolding insert_row
insert_row-next x rows new next = rw (no_clash x rows new (rw next (next-Below rows))) refl
