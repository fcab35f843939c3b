-- ===== src/AuditChain/Key.antt =====
-- crates/sysknife-daemon/src/audit_chain.rs: `AuditKey::load_or_generate` and `generate_key_at`. The
-- key file is its mode and its bytes, or absent; the random bytes are an argument. Errors of the file
-- system other than an absent file are not modelled.
use Prim.Native.Nat.{bit_and}
use lacs.Prelude.{
  ℕ, ◌≡◌, refl, ◌≤◌, ◌↔◌, not, Option, none, some, List, length, ltb, ◌==◌, if◌then◌else◌, arith,
}
use lacs.AuditChain.{AuditKey, current_key_id}

pub record KeyFile : Type 0 where
  pub mode : ℕ
  pub bytes : List ℕ

pub data AuditKeyError : Type 0 where
  unsafe_permissions : ℕ → AuditKeyError
  key_too_short : ℕ → AuditKeyError

pub data Result : Type 0 where
  ok : AuditKey → Result
  err : AuditKeyError → Result

-- The file that `generate_key_at` creates.
unfoldable pub generate_key_at : List ℕ → KeyFile
generate_key_at random = record { mode = 0o600; bytes = random }

unfoldable pub load : KeyFile → Result
load file =
    let mode = bit_and file.mode 0o777 in
    if not (bit_and mode 0o077 == 0)
    then err (unsafe_permissions mode)
    else if ltb (length file.bytes) 32
    then err (key_too_short (length file.bytes))
    else ok (record { key_id = current_key_id; key_bytes = file.bytes })

-- The file afterwards, and the result.
unfoldable pub load_or_generate : Option KeyFile → List ℕ → KeyFile × Result
unfolding load
load_or_generate none random = let file = generate_key_at random in (file, load file)
load_or_generate (some file) random = (file, load file)

-- A key file is accepted exactly when no group or world bit of its mode is set and it has at least
-- 32 bytes; the key is then its bytes.
pub load-iff-private :
    (file : KeyFile) (key : AuditKey)
    → (load file ≡ ok key) ↔ (
        (bit_and (bit_and file.mode 0o777) 0o077 ≡ 0)
        × (32 ≤ length file.bytes)
        × (key ≡ record { key_id = current_key_id; key_bytes = file.bytes }))
unfolding load
load-iff-private file key = (λ h. ground arith, λ h. ground arith)

-- A daemon that starts without a key file, and is given 32 random bytes, creates one that it accepts
-- now and at every later start.
pub load_or_generate_fresh :
    (random later : List ℕ)
    → length random ≡ 32
    → let (file, first) = load_or_generate none random in
      (first ≡ ok (record { key_id = current_key_id; key_bytes = random }))
      × (load_or_generate (some file) later ≡ (file, first))
unfolding load_or_generate generate_key_at
load_or_generate_fresh random later h = (ground arith, refl)
