-- ===== src/Manifest/Tests.antt =====
-- A manifest of one table.
use helixdb.Prelude.{◌≡◌, refl, [], ◌∷◌, ok, arith}
use helixdb.Sstable.Writer.{SstableMeta}
use helixdb.ControlPlane.Text.{is_utf8, chars_end, drop_char}
use helixdb.Db.{Manifest}
use helixdb.Manifest.{save, load}
use helixdb.Manifest.RoundTrip.{load-save}

abbrev table : SstableMeta
table = record {
  id = 1;
  file_name = 115 ∷ 115 ∷ 116 ∷ 49 ∷ [];
  smallest_key = 97 ∷ [];
  largest_key = 122 ∷ [];
  entry_count = 26;
}

abbrev manifest : Manifest
manifest = record { next_file_id = 3; next_sequence = 27; active_wal_id = 2; sstables = table ∷ [] }

load-save_example : load (save 1 manifest) ≡ ok (1, manifest)
unfolding is_utf8 chars_end drop_char
load-save_example = load-save 1 manifest (record {
  version_fits = omega arith;
  file_fits = omega arith;
  sequence_fits = omega arith;
  wal_fits = omega arith;
  few = omega arith;
  tables_fit = (
    record {
      id_fits = omega arith;
      name_fits = omega arith;
      name_text = refl;
      smallest_fits = omega arith;
      largest_fits = omega arith;
      count_fits = omega arith;
    },
    tt,
  );
})
