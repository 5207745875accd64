-- ===== src/Wal/Tests.antt =====
-- Runs of the log, under a checksum that adds the bytes up.
use helixdb.Prelude.{ℕ, ◌+◌, ◌%◌, ◌^◌, ◌<◌, ◌≡◌, refl, some, List, [], ◌∷◌, ◌++◌, ok, arith}
use helixdb.Prelude.Bytes.{Bytes, le_bytes, from_le_bytes, read_exact}
use helixdb.Prelude.Reader.{read_le}
use helixdb.Errors.{DbResult}
use helixdb.Wal.{
  WalRecord, put, delete, payload, encode_record, read_value, read_fields, fields_payload,
  check_record, read_record, append, replay_round, replay_loop, replay,
}
use helixdb.Wal.Replay.{apply_all, append_all, replay-append_all, replay_torn, replay_total}

abbrev total : Bytes → ℕ
total [] = 0
total (b ∷ bs) = b + total bs

abbrev sum_crc : Bytes → ℕ
sum_crc bs = total bs % 2 ^ 32

sum_crc-lt : (bs : Bytes) → sum_crc bs < 2 ^ 32
sum_crc-lt bs = omega arith

-- keeps the records, the last one first
abbrev keep : List WalRecord → WalRecord → DbResult (List WalRecord)
keep s r = ok (r ∷ s)

abbrev first : WalRecord
first = put 7 (1 ∷ 2 ∷ []) (9 ∷ [])

abbrev second : WalRecord
second = delete 300 (1 ∷ [])

abbrev script : List WalRecord
script = first ∷ second ∷ []

encode_second :
    encode_record sum_crc second
    ≡ 2 ∷ 44 ∷ 1 ∷ 0 ∷ 0 ∷ 0 ∷ 0 ∷ 0 ∷ 0 ∷ 1 ∷ 0 ∷ 0 ∷ 0 ∷ 0 ∷ 0 ∷ 0 ∷ 0 ∷ 1 ∷ 49 ∷ 0 ∷ 0 ∷ 0 ∷ []
unfolding encode_record payload le_bytes
encode_second = refl

replay-script :
    replay sum_crc keep [] (append_all sum_crc [] script) ≡ some (ok (second ∷ first ∷ []))
unfolding replay replay_loop replay_round read_record read_fields read_value check_record
    fields_payload payload append encode_record le_bytes from_le_bytes read_exact read_le
replay-script = refl

replay-append_all_example :
    replay sum_crc keep [] (append_all sum_crc [] script) ≡ some (apply_all keep [] script)
replay-append_all_example = replay-append_all sum_crc keep sum_crc-lt script [] (omega arith)

abbrev torn : Bytes
torn = 2 ∷ 44 ∷ 1 ∷ 0 ∷ 0 ∷ 0 ∷ 0 ∷ 0 ∷ 0 ∷ 1 ∷ []

abbrev missing : Bytes
missing = 0 ∷ 0 ∷ 0 ∷ 0 ∷ 0 ∷ 0 ∷ 0 ∷ 1 ∷ 49 ∷ 0 ∷ 0 ∷ 0 ∷ []

encode_torn : torn ++ missing ≡ encode_record sum_crc second
unfolding encode_record payload le_bytes
encode_torn = refl

replay_torn_example :
    replay sum_crc keep [] (append_all sum_crc [] script ++ torn) ≡ some (apply_all keep [] script)
replay_torn_example =
    replay_torn sum_crc keep sum_crc-lt script second torn missing [] (omega arith) (omega arith)
      encode_torn (λ e. cc)

replay_total_example : (out : DbResult (List WalRecord)) × (replay sum_crc keep [] torn ≡ some out)
replay_total_example = replay_total sum_crc keep [] torn
