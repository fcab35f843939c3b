-- ===== src/Examples/Audit.antt =====
-- Rows of an audit log, with a function on texts in place of HMAC.
use lacs.Prelude.{
  ℕ, String, ◌≡◌, ◌⊎◌, ◌↔◌, refl, Option, none, some, List, [], ◌∷◌, ◌++◌, length, ◌≤◌, arith,
}
use lacs.Types.{low}
use lacs.AuditChain.{
  AuditKey, ChainContent, ChainRow, VerifyOutcome, intact, broken, current_key_id, canonical_bytes,
  content, chain_hash, verify_chain, outcome_to_exit_code, escape,
}
use lacs.AuditChain.Canonical.{SameContent, canonical_bytes_cancel}
use lacs.AuditChain.Verify.{IsChain, tip, FirstBreak, verify_chain_cases}
use lacs.AuditChain.Tamper.{SameRows, Collision, tamper_or_collision}
use lacs.AuditChain.Key.{KeyFile, load, load_or_generate, load-iff-private, load_or_generate_fresh}
use lacs.AuditChain.Key

abbrev toy_hex : List ℕ → List ℕ → String
toy_hex key [] = "e"
toy_hex key (_ ∷ []) = "o"
toy_hex key (_ ∷ _ ∷ message) = toy_hex key message

abbrev key : AuditKey
key = record { key_id = current_key_id; key_bytes = 1 ∷ 2 ∷ [] }

abbrev row : ℕ → Option String → String → String → ChainRow
row n approval prev hash = record {
  seq = n;
  key_id = "v1";
  transaction_id = "t";
  request_id = "r";
  request_hash = "h";
  action_name = "GetDateTime";
  risk_level = low;
  summary = "s";
  approval_id = approval;
  warnings_json = "[]";
  created_at = "c";
  prev_chain_hash = prev;
  chain_hash = hash;
}

-- the hash that the row should have
abbrev hash_of : ChainRow → String
hash_of r = chain_hash toy_hex key (content r) r.prev_chain_hash

abbrev sealed : ChainRow → ChainRow
sealed r = record r { chain_hash = hash_of r }

abbrev first : Option String → ChainRow
first approval = sealed (row 1 approval "" "")

abbrev second : Option String → ChainRow
second approval = sealed (row 2 none (first approval).chain_hash "")

abbrev rows : Option String → List ChainRow
rows approval = first approval ∷ second approval ∷ []

rows-IsChain : (approval : Option String) → IsChain toy_hex key "" (rows approval)
unfolding content
rows-IsChain approval = (
  record { same_key = refl; linked = refl; hashed = refl },
  (record { same_key = refl; linked = refl; hashed = refl }, tt),
)

-- The encoding does not tell an absent approval id from an empty one.
same_encoding :
    canonical_bytes (content (row 1 none "" "")) ≡ canonical_bytes (content (row 1 (some "") "" ""))
unfolding canonical_bytes content lacs.AuditChain.or_empty
same_encoding = refl

abbrev tail : List ℕ
tail = 7 ∷ []

canonical_bytes_cancel_example :
    SameContent (content (row 1 none "" "")) (content (row 1 (some "") "" "")) × (tail ≡ tail)
canonical_bytes_cancel_example =
    canonical_bytes_cancel (content (row 1 none "" "")) (content (row 1 (some "") "" "")) tail tail
      (lacs.Prelude.ap (λ b. b ++ tail) same_encoding)

same_tip : tip toy_hex key "" (rows none) ≡ tip toy_hex key "" (rows (some ""))
unfolding content chain_hash canonical_bytes lacs.AuditChain.or_empty
same_tip = refl

tamper_or_collision_example : SameRows (rows none) (rows (some "")) ⊎ Collision toy_hex key
tamper_or_collision_example =
    tamper_or_collision toy_hex key (rows none) (rows (some "")) refl (rows-IsChain none)
      (rows-IsChain (some "")) same_tip

-- a second row that claims another predecessor
abbrev cut : List ChainRow
cut = first none ∷ sealed (row 2 none "x" "") ∷ []

verify_chain_cases_example :
    (IsChain toy_hex key "" cut × (verify_chain toy_hex key cut ≡ intact (length cut)))
    ⊎ FirstBreak toy_hex key "" 0 cut (verify_chain toy_hex key cut)
verify_chain_cases_example = verify_chain_cases toy_hex key cut

abbrev bytes : List ℕ
bytes =
    0 ∷ 1 ∷ 2 ∷ 3 ∷ 4 ∷ 5 ∷ 6 ∷ 7 ∷ 8 ∷ 9 ∷ 10 ∷ 11 ∷ 12 ∷ 13 ∷ 14 ∷ 15 ∷ 16 ∷ 17 ∷ 18 ∷ 19 ∷ 20
    ∷ 21 ∷ 22 ∷ 23 ∷ 24 ∷ 25 ∷ 26 ∷ 27 ∷ 28 ∷ 29 ∷ 30 ∷ 31 ∷ []

abbrev readable : KeyFile
readable = record { mode = 0o644; bytes = bytes }

load_or_generate_fresh_example :
    let (file, outcome) = load_or_generate none bytes in
    (outcome ≡ Key.ok (record { key_id = current_key_id; key_bytes = bytes }))
    × (load_or_generate (some file) [] ≡ (file, outcome))
load_or_generate_fresh_example = load_or_generate_fresh bytes [] refl
