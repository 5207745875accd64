-- ===== src/Errors.antt =====
-- crates/helixdb-storage/src/error.rs and types.rs.
use helixdb.Prelude.{String, Option, ℕ, Result}
use helixdb.Prelude.Bytes.{Bytes}

-- What the code tells apart of `std::io::ErrorKind`.
pub data IoError : Type 0 where
  unexpected_eof not_found : IoError

-- A message keeps its fixed text; the values that `format!` puts into it are left out.
pub data DbError : Type 0 where
  io : IoError → DbError
  checksum_mismatch : String → DbError
  corrupt : String → DbError

-- `Result<T>` of the crate
abbrev pub DbResult {ℓ} : Type ℓ → Type ℓ
DbResult A = Result DbError A

-- `None` is a tombstone.
pub record ValueEntry : Type 0 where
  pub sequence : ℕ
  pub value : Option Bytes
