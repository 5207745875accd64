-- ===== src/Manifest.antt =====
-- crates/helixdb-storage/src/manifest.rs: the bytes of `manifest.bin`. The version, which the engine
-- does not read again, stands beside the manifest of Db. A file name is its text as bytes.
pub mod RoundTrip
mod Tests
use helixdb.Prelude.{
  ℕ, zero, suc, Bool, true, false, Option, none, some, List, [], ◌∷◌, ◌++◌, length, max,
  if◌then◌else◌, Result, ok, err,
}
use helixdb.Prelude.Bytes.{Bytes, le_bytes}
use helixdb.Prelude.Order.{bytes_ord, eqb}
use helixdb.Prelude.Reader.{Reader, read_bytes, read_le}
use helixdb.Prelude.Stateful.{Op, pure, lift, continue, ◌>>=◌, ◌>>◌}
use helixdb.Errors.{DbError, DbResult, io, IoError, corrupt}
use helixdb.Wal.{as_u32}
use helixdb.Sstable.Format.{encode_items}
use helixdb.Sstable.Writer.{SstableMeta}
use helixdb.ControlPlane.Text.{is_utf8}
use helixdb.Db.{Manifest}

-- `HLXM`
abbrev pub manifest_magic : Bytes
manifest_magic = 72 ∷ 76 ∷ 88 ∷ 77 ∷ []

-- `Manifest::new`
abbrev pub new_manifest : ℕ × Manifest
new_manifest = (1, record { next_file_id = 1; next_sequence = 1; active_wal_id = 1; sstables = [] })

unfoldable pub with_next_sequence : Manifest → ℕ → Manifest
with_next_sequence m next_sequence = record m { next_sequence = max next_sequence m.next_sequence }

unfoldable pub encode_meta : SstableMeta → Bytes
encode_meta t =
    le_bytes 8 t.id
    ++ (le_bytes 4 (as_u32 (length t.file_name))
        ++ (t.file_name
            ++ (le_bytes 4 (as_u32 (length t.smallest_key))
                ++ (t.smallest_key
                    ++ (le_bytes 4 (as_u32 (length t.largest_key))
                        ++ (t.largest_key ++ le_bytes 8 t.entry_count))))))

-- What `save` writes into the file that it renames.
unfoldable pub save : ℕ → Manifest → Bytes
save version m =
    manifest_magic
    ++ (le_bytes 4 version
        ++ (le_bytes 8 m.next_file_id
            ++ (le_bytes 8 m.next_sequence
                ++ (le_bytes 8 m.active_wal_id
                    ++ (le_bytes 4 (as_u32 (length m.sstables))
                        ++ encode_items encode_meta m.sstables)))))

abbrev pub FileReader : Type 0 → Type 0
FileReader A = Op Bytes DbError A

-- `read_exact` on the file, and what is made of its bytes; the state is what is left of the file.
unfoldable pub read : {A : Type 0} → Reader A → FileReader A
read m bs = elim (m bs) [ none ↦ (bs, err (io IoError.unexpected_eof)) | some p ↦ (p.1, ok p.0) ]

unfoldable pub read_vec : FileReader Bytes
read_vec = do len ← read (read_le 4); read (read_bytes len)

unfoldable pub check_string : Bytes → DbResult Bytes
check_string buf = if is_utf8 buf then ok buf else err (corrupt "manifest string")

unfoldable pub read_string : FileReader Bytes
read_string = do buf ← read_vec; lift (check_string buf)

unfoldable pub read_meta : FileReader SstableMeta
read_meta = do
  id ← read (read_le 8)
  file_name ← read_string
  smallest_key ← read_vec
  largest_key ← read_vec
  entry_count ← read (read_le 8)
  pure (record {
    id = id;
    file_name = file_name;
    smallest_key = smallest_key;
    largest_key = largest_key;
    entry_count = entry_count;
  })

-- The loop over the count.
unfoldable pub read_metas : ℕ → FileReader (List SstableMeta)
read_metas zero = pure []
read_metas (suc n) = do t ← read_meta; ts ← read_metas n; pure (t ∷ ts)

unfoldable pub check_magic : Bytes → DbResult (Unit {0})
check_magic magic =
    if eqb magic manifest_magic then ok tt else err (corrupt "manifest magic mismatch")

unfoldable pub read_manifest : FileReader (ℕ × Manifest)
read_manifest = do
  magic ← read (read_bytes 4)
  lift (check_magic magic)
  version ← read (read_le 4)
  next_file_id ← read (read_le 8)
  next_sequence ← read (read_le 8)
  active_wal_id ← read (read_le 8)
  sstable_count ← read (read_le 4)
  sstables ← read_metas sstable_count
  pure (
    version,
    record {
      next_file_id = next_file_id;
      next_sequence = next_sequence;
      active_wal_id = active_wal_id;
      sstables = sstables;
    },
  )

-- Bytes behind the last table are not looked at.
unfoldable pub load : Bytes → DbResult (ℕ × Manifest)
load file = (read_manifest file).1
