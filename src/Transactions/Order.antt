-- ===== src/Transactions/Order.antt =====
-- Where every row was given a higher `seq` than the rows before it, `ORDER BY seq ASC` is the order of
-- insertion, and `ORDER BY seq DESC LIMIT 1` is the last row.
use lacs.Prelude.{
  ℕ, String, ◌<◌, ◌≤◌, ◌≡◌, inl, inr, refl, sym, ap₂, Bool-cases, Bool, some, List, [], ◌∷◌, ◌++◌,
  map, arith,
}
use lacs.Types.{JobState}
use lacs.AuditChain.Verify.{tip}
use lacs.AuditChain.{AuditKey}
use lacs.Table.{Row, chain_row, latest, insert_asc, order_asc, update_where}
use lacs.Transactions.{next_seq_and_prev_hash}

-- Each `seq` is above the one before it, the first above `n`.
abbrev pub Ascending : ℕ → List Row → Type 0
Ascending n [] = Unit
Ascending n (r ∷ rows) = (n < r.seq) × Ascending r.seq rows

insert_asc-first : (r : Row) (rows : List Row) → Ascending r.seq rows → insert_asc r rows ≡ r ∷ rows
unfolding insert_asc
insert_asc-first r [] h = refl
insert_asc-first r (s ∷ rows) h = ground arith

pub order_asc_of_Ascending : (n : ℕ) (rows : List Row) → Ascending n rows → order_asc rows ≡ rows
unfolding order_asc
order_asc_of_Ascending n [] h = refl
order_asc_of_Ascending n (r ∷ rows) h =
    rw (order_asc_of_Ascending r.seq rows h.1) (insert_asc-first r rows h.1)

abbrev last : Row → List Row → Row
last r [] = r
last r (s ∷ rows) = last s rows

last_ge : (n : ℕ) (r : Row) (rows : List Row) → Ascending r.seq rows → r.seq ≤ (last r rows).seq
last_ge n r [] h = omega arith
last_ge n r (s ∷ rows) h = omega (arith, last_ge n s rows h.1)

latest_of_Ascending :
    (r : Row) (rows : List Row) → Ascending r.seq rows → latest (r ∷ rows) ≡ some (last r rows)
unfolding latest
latest_of_Ascending r [] h = refl
latest_of_Ascending r (s ∷ rows) h =
    rw (latest_of_Ascending s rows h.1, latest) (ground (arith, last_ge 0 s rows h.1))

Ascending-last :
    (n : ℕ) (r x : Row) (rows : List Row)
    → Ascending n (r ∷ rows)
    → (last r rows).seq < x.seq
    → Ascending n (r ∷ (rows ++ x ∷ []))
Ascending-last n r x [] h l = (h.0, (l, tt))
Ascending-last n r x (s ∷ rows) h l = (h.0, Ascending-last r.seq s x rows h.1 l)

tip-last :
    (hmac_hex : List ℕ → List ℕ → String) (key : AuditKey) (before : String) (r : Row)
    (rows : List Row)
    → tip hmac_hex key before (map chain_row (r ∷ rows)) ≡ (last r rows).chain_hash
unfolding chain_row
tip-last hmac_hex key before r [] = refl
tip-last hmac_hex key before r (s ∷ rows) = tip-last hmac_hex key r.chain_hash s rows

-- What a new row is given follows on the rows that are there: a `seq` above theirs, and the hash of
-- the last one, or the empty text.
pub next-Ascending :
    (rows : List Row) (x : Row)
    → Ascending 0 rows
    → x.seq ≡ (next_seq_and_prev_hash rows).0
    → Ascending 0 (rows ++ x ∷ [])
unfolding next_seq_and_prev_hash latest
next-Ascending [] x h e = (omega arith, tt)
next-Ascending (r ∷ rows) x h e =
    Ascending-last 0 r x rows h (ground (arith, latest_of_Ascending r rows h.1, e))

pub next-tip :
    (hmac_hex : List ℕ → List ℕ → String) (key : AuditKey) (rows : List Row)
    → Ascending 0 rows
    → (next_seq_and_prev_hash rows).1 ≡ tip hmac_hex key "" (map chain_row rows)
unfolding next_seq_and_prev_hash
next-tip hmac_hex key [] h = unfold latest in refl
next-tip hmac_hex key (r ∷ rows) h =
    rw (latest_of_Ascending r rows h.1, next_seq_and_prev_hash)
      (sym (tip-last hmac_hex key "" r rows))

-- An update of the status changes neither the order nor what the chain hashes.
pub update_where-Ascending :
    (p : Row → Bool) (s : JobState) (n : ℕ) (rows : List Row)
    → Ascending n rows
    → Ascending n (update_where p s rows).0
unfolding update_where
update_where-Ascending p s n [] h = tt
update_where-Ascending p s n (r ∷ rows) h = elim (Bool-cases (p r)) [
  | inl hit ↦ rw (hit, update_where) (h.0, update_where-Ascending p s r.seq rows h.1)
  | inr miss ↦ rw (miss, update_where) (h.0, update_where-Ascending p s r.seq rows h.1)
]

pub map-update_where :
    (p : Row → Bool) (s : JobState) (rows : List Row)
    → map chain_row (update_where p s rows).0 ≡ map chain_row rows
unfolding update_where
map-update_where p s [] = refl
map-update_where p s (r ∷ rows) = elim (Bool-cases (p r)) [
  | inl hit ↦
      rw (hit, update_where) (ap₂ ◌∷◌ (unfold chain_row in refl) (map-update_where p s rows))
  | inr miss ↦ rw (miss, update_where) (ap₂ ◌∷◌ refl (map-update_where p s rows))
]
