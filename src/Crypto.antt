-- ===== src/Crypto.antt =====
-- crypto/rsa.go: the key pair of the host, on a disk whose calls may fail.
pub mod Calls
pub mod Pair
pub mod Replace
pub mod Failures
use libersuite_panel.Prelude.{Bool, true, false, Option, none, some, [], ◌∷◌, ◌++◌, if◌then◌else◌}
use libersuite_panel.Prelude.Int.{ℤ, pos, is_zero}
use libersuite_panel.Text.{Text}
use libersuite_panel.Crypto.Calls.{
  Disk, Error, key_failed, directory_failed, open_failed, encode_failed, marshal_failed,
  remove_failed, Result, ok, err, M, pure, given, mkdir_all, open_file, write_file, remove_file,
  stat, ◌>>=◌, ◌>>◌,
}

-- What the Go library does with keys: `generate_key` makes a key of so many bits, the others give
-- the text of a file by pem.Encode, and the bytes of a public key, if it can be marshalled.
pub record Keys : Type 1 where
  pub Key : Type 0
  pub generate_key : ℤ → Option Key
  pub private_pem : Key → Text
  pub marshal_public : Key → Option Text
  pub public_pem : Text → Text

-- keyPath + ".pub"
abbrev pub public_path : Text → Text
public_path key_path = key_path ++ (b'.' ∷ b'p' ∷ b'u' ∷ b'b' ∷ [])

abbrev pub or_default : ℤ → ℤ
or_default bit_size = if is_zero bit_size then pos 2048 else bit_size

module _ (K : Keys) where
  unfoldable pub generate_rsa_key_pair : Text → ℤ → M (Unit {0})
  unfolding open_file write_file
  generate_rsa_key_pair key_path bit_size = do
    private_key ← given (K.generate_key (or_default bit_size)) key_failed
    mkdir_all directory_failed
    open_file key_path 0o600 open_failed
    write_file key_path (K.private_pem private_key) encode_failed
    public_key_bytes ← given (K.marshal_public private_key) marshal_failed
    open_file (public_path key_path) 0o644 open_failed
    write_file (public_path key_path) (K.public_pem public_key_bytes) encode_failed

  -- KeyExists: os.Stat without an error, on a path that is not a directory's.
  unfoldable pub key_exists : Text → Disk → Bool × Disk
  unfolding stat
  key_exists key_path d = stat key_path d

  abbrev pub unless_there : Bool × Disk → M (Unit {0}) → Result (Unit {0}) × Disk
  unless_there (true, d) m = (ok tt, d)
  unless_there (false, d) m = m d

  unfoldable pub ensure_rsa_key_pair : Text → ℤ → M (Unit {0})
  unfolding key_exists generate_rsa_key_pair
  ensure_rsa_key_pair key_path bit_size d =
      unless_there (stat key_path d) (generate_rsa_key_pair key_path bit_size)

  unfoldable pub regenerate_rsa_key_pair : Text → ℤ → M (Unit {0})
  unfolding generate_rsa_key_pair
  regenerate_rsa_key_pair key_path bit_size = do
    remove_file key_path remove_failed
    remove_file (public_path key_path) remove_failed
    generate_rsa_key_pair key_path bit_size
