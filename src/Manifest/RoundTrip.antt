-- ===== src/Manifest/RoundTrip.antt =====
-- `save` and `load` of manifest.rs: what is saved is loaded again.
use helixdb.Prelude.{
  ℕ, ◌^◌, ◌<◌, ◌≡◌, refl, ap, sym, subst, true, List, [], ◌∷◌, ◌++◌, length, ok, arith, All,
}
use helixdb.Prelude.Bytes.{Bytes, le_bytes}
use helixdb.Prelude.Order.{bytes_ord, bytes_cmp}
use helixdb.Prelude.Reader.{Reader, Reads, Reads-read_bytes, Reads-read_le, read_bytes, read_le}
use helixdb.Prelude.Stateful.{pure, ◌>>=◌}
use mathlib.Core.List.{append_assoc, append-nil}
use helixdb.Errors.{DbResult}
use helixdb.Wal.{as_u32}
use helixdb.Sstable.Format.{encode_items}
use helixdb.Sstable.Writer.{SstableMeta}
use helixdb.ControlPlane.Text.{is_utf8}
use helixdb.Db.{Manifest}
use helixdb.Manifest.{
  manifest_magic, encode_meta, save, FileReader, read, read_vec, check_string, read_string,
  read_meta, read_metas, check_magic, read_manifest, load,
}

-- The operation takes the bytes off the file and gives the value.
record Takes {A : Type 0} (m : FileReader A) (a : A) (xs : Bytes) : Type 0 where
  at : (rest : Bytes) → m (xs ++ rest) ≡ (rest, ok a)

module _ {A : Type 0} where
  Takes-read : (m : Reader A) (a : A) (xs : Bytes) → Reads m a xs → Takes (read m) a xs
  unfolding read
  Takes-read m a xs h = record { at = λ rest. rw (h.at rest, read) refl }

  Takes-pure : (a : A) → Takes (pure a) a []
  Takes-pure a = record { at = λ rest. refl }

module _ {A B : Type 0} where
  Takes-bind :
      {m : FileReader A} (f : A → FileReader B) {a : A} {b : B} {xs ys : Bytes}
      → Takes m a xs
      → Takes (f a) b ys
      → Takes (m >>= f) b (xs ++ ys)
  Takes-bind {m} f {a} {b} {xs} {ys} h k = record {
    at = λ rest. rw (append_assoc xs ys rest, h.at (ys ++ rest)) (k.at rest);
  }

Takes-le : (n x : ℕ) → x < 256 ^ n → Takes (read (read_le n)) x (le_bytes n x)
Takes-le n x h = Takes-read (read_le n) x (le_bytes n x) (Reads-read_le n x h)

mod_fits : (x : ℕ) → x < 2 ^ 32 → as_u32 x ≡ x
mod_fits x h = omega (arith, h)

Takes-short_vec : (v : Bytes) → length v < 2 ^ 32 → Takes read_vec v (le_bytes 4 (length v) ++ v)
unfolding read_vec
Takes-short_vec v h =
    Takes-bind (λ n. read (read_bytes n)) (Takes-le 4 (length v) h)
      (Takes-read (read_bytes (length v)) v v (Reads-read_bytes v))

Takes-read_vec :
    (v : Bytes) → length v < 2 ^ 32 → Takes read_vec v (le_bytes 4 (as_u32 (length v)) ++ v)
Takes-read_vec v h =
    subst (λ n. Takes read_vec v (le_bytes 4 n ++ v)) (sym (mod_fits (length v) h))
      (Takes-short_vec v h)

-- The numbers and lengths of a table fit their fields, and its name is a text.
pub record MetaFits (t : SstableMeta) : Type 0 where
  pub id_fits : t.id < 2 ^ 64
  pub name_fits : length t.file_name < 2 ^ 32
  pub name_text : is_utf8 t.file_name ≡ true
  pub smallest_fits : length t.smallest_key < 2 ^ 32
  pub largest_fits : length t.largest_key < 2 ^ 32
  pub count_fits : t.entry_count < 2 ^ 64

read_vec-append :
    (v rest : Bytes)
    → length v < 2 ^ 32
    → read_vec (le_bytes 4 (as_u32 (length v)) ++ (v ++ rest)) ≡ (rest, ok v)
read_vec-append v rest h =
    subst (λ bs. read_vec bs ≡ (rest, ok v)) (append_assoc (le_bytes 4 (as_u32 (length v))) v rest)
      ((Takes-read_vec v h).at rest)

read_string-append :
    (v rest : Bytes)
    → length v < 2 ^ 32
    → is_utf8 v ≡ true
    → read_string (le_bytes 4 (as_u32 (length v)) ++ (v ++ rest)) ≡ (rest, ok v)
unfolding read_string check_string
read_string-append v rest h k = ground (arith, k, read_vec-append v rest h)

Takes-read_meta : (t : SstableMeta) → MetaFits t → Takes read_meta t (encode_meta t)
unfolding read_meta encode_meta
Takes-read_meta t h = record {
  at = λ rest.
      rw
        (
          append_assoc,
          (Takes-le 8 t.id h.id_fits).at,
          append_assoc,
          append_assoc,
          λ (r : Bytes). read_string-append t.file_name r h.name_fits h.name_text,
          append_assoc,
          append_assoc,
          λ (r : Bytes). read_vec-append t.smallest_key r h.smallest_fits,
          append_assoc,
          append_assoc,
          λ (r : Bytes). read_vec-append t.largest_key r h.largest_fits,
          (Takes-le 8 t.entry_count h.count_fits).at,
        )
        refl;
}

Takes-read_metas :
    (ts : List SstableMeta)
    → All MetaFits ts
    → Takes (read_metas (length ts)) ts (encode_items encode_meta ts)
unfolding read_metas
Takes-read_metas [] h = Takes-pure []
Takes-read_metas (t ∷ ts) h = record {
  at = λ rest. rw (append_assoc, (Takes-read_meta t h.0).at, (Takes-read_metas ts h.1).at) refl;
}

-- The numbers, counts and lengths fit their fields, and the names are texts.
pub record ManifestFits (version : ℕ) (m : Manifest) : Type 0 where
  pub version_fits : version < 2 ^ 32
  pub file_fits : m.next_file_id < 2 ^ 64
  pub sequence_fits : m.next_sequence < 2 ^ 64
  pub wal_fits : m.active_wal_id < 2 ^ 64
  pub few : length m.sstables < 2 ^ 32
  pub tables_fit : All MetaFits m.sstables

magic_at :
    (rest : Bytes) → read (read_bytes 4) (72 ∷ 76 ∷ 88 ∷ 77 ∷ rest) ≡ (rest, ok manifest_magic)
magic_at rest =
    (Takes-read (read_bytes 4) manifest_magic manifest_magic (Reads-read_bytes manifest_magic)).at
      rest

check_magic_lem : check_magic manifest_magic ≡ ok tt
unfolding check_magic bytes_cmp
check_magic_lem = refl

count_at :
    (n : ℕ)
    → n < 2 ^ 32
    → (rest : Bytes) → read (read_le 4) (le_bytes 4 (as_u32 n) ++ rest) ≡ (rest, ok n)
count_at n h rest =
    subst (λ k. read (read_le 4) (le_bytes 4 k ++ rest) ≡ (rest, ok n)) (sym (mod_fits n h))
      ((Takes-le 4 n h).at rest)

tables_end :
    (version : ℕ) (m : Manifest)
    → ManifestFits version m
    → read_metas (length m.sstables) (encode_items encode_meta m.sstables) ≡ ([], ok m.sstables)
tables_end version m h =
    subst (λ bs. read_metas (length m.sstables) bs ≡ ([], ok m.sstables))
      (append-nil (encode_items encode_meta m.sstables))
      ((Takes-read_metas m.sstables h.tables_fit).at [])

read_manifest-save :
    (version : ℕ) (m : Manifest)
    → ManifestFits version m
    → read_manifest (save version m) ≡ ([], ok (version, m))
unfolding save read_manifest
read_manifest-save version m h =
    rw
      (
        magic_at,
        check_magic_lem,
        (Takes-le 4 version h.version_fits).at,
        (Takes-le 8 m.next_file_id h.file_fits).at,
        (Takes-le 8 m.next_sequence h.sequence_fits).at,
        (Takes-le 8 m.active_wal_id h.wal_fits).at,
        count_at (length m.sstables) h.few,
        tables_end version m h,
      )
      refl

-- If the numbers, counts and lengths of a manifest fit their fields and the names of its files are
-- UTF-8, then loading what was saved gives it back, with its version.
pub load-save :
    (version : ℕ) (m : Manifest) → ManifestFits version m → load (save version m) ≡ ok (version, m)
unfolding load
load-save version m h =
    ap (λ (r : Bytes × DbResult (ℕ × Manifest)). r.1) (read_manifest-save version m h)
