-- ===== src/Wal/Replay.antt =====
-- Replaying a log: the loop ends on every file, and a log with a torn end gives back each record
-- that was written whole, in order.
use helixdb.Prelude.{
  ℕ, zero, suc, ◌^◌, ◌<◌, ◌≡◌, ◌≢◌, refl, sym, ap, ◌∙◌, none, some, List, [], ◌∷◌, ◌++◌, length, ok,
  err, Result, ◌>>=◌, arith, inl, inr, All, Option-cases, ◌⊎◌,
}
use mathlib.Core.List.{append_assoc, append-nil}
use helixdb.Prelude.Bytes.{Bytes}
use helixdb.Errors.{DbResult}
use helixdb.Wal.{
  WalRecord, encode_record, read_record, append, Round, stopped, again, replay_round, replay_loop,
  replay,
}
use helixdb.Wal.Codec.{IsEncodable, read_record-encode_record}
use helixdb.Wal.Torn.{length-read_record, read_record_torn, read_record-nil}

-- The specification: the records, one after the other, until one is refused.
abbrev pub apply_all : {S : Type 0} → (S → WalRecord → DbResult S) → S → List WalRecord → DbResult S
apply_all apply s [] = ok s
apply_all apply s (r ∷ rs) = apply s r >>= λ s'. apply_all apply s' rs

Result-cases {ℓ κ} :
    {E : Type ℓ} {A : Type κ} (m : Result E A) → ((a : A) × (m ≡ ok a)) ⊎ ((e : E) × (m ≡ err e))
Result-cases (ok a) = inl (a, refl)
Result-cases (err e) = inr (e, refl)

Round-cases :
    {S : Type 0} (m : Round S)
    → ((out : DbResult S) × (m ≡ stopped out)) ⊎ ((s : S) × (rest : Bytes) × (m ≡ again s rest))
Round-cases (stopped out) = inl (out, refl)
Round-cases (again s rest) = inr (s, rest, refl)

module _ (crc : Bytes → ℕ) where
  -- What `append` leaves in the file after these records.
  abbrev pub log_of : List WalRecord → Bytes
  log_of [] = []
  log_of (r ∷ rs) = encode_record crc r ++ log_of rs

  -- The calls of `append` that write these records to the file.
  abbrev pub append_all : Bytes → List WalRecord → Bytes
  append_all file [] = file
  append_all file (r ∷ rs) = append_all (append crc file r) rs

  append_all-eq-log_of :
      (file : Bytes) (rs : List WalRecord) → append_all file rs ≡ file ++ log_of rs
  unfolding append
  append_all-eq-log_of file [] = sym (append-nil file)
  append_all-eq-log_of file (r ∷ rs) =
      append_all-eq-log_of (append crc file r) rs
      ∙ append_assoc file (encode_record crc r) (log_of rs)

  module _ {S : Type 0} (apply : S → WalRecord → DbResult S) where
    -- A round that goes on has taken bytes off the log.
    length-replay_round :
        (s : S) (bs : Bytes) (s' : S) (rest : Bytes)
        → replay_round crc apply s bs ≡ again s' rest
        → length rest < length bs
    unfolding replay_round
    length-replay_round s bs s' rest h = elim (Result-cases (read_record crc bs)) [
      | inl (o, e) ↦ elim (Option-cases o) [
        | inl stop ↦ ground (arith, e, stop)
        | inr (p, go) ↦
            let less = length-read_record crc bs p.0 p.1 (ground (arith, e, go)) in
            ground (arith, e, go, less)
      ]
      | inr (x, e) ↦ ground (arith, e)
    ]

    -- One round for each byte and one more: the loop ends.
    pub replay_loop_total :
        (fuel : ℕ) (s : S) (bs : Bytes)
        → length bs < fuel
        → (out : DbResult S) × (replay_loop crc apply fuel s bs ≡ some out)
    unfolding replay_loop
    replay_loop_total zero s bs h = absurd (omega arith)
    replay_loop_total (suc fuel) s bs h = elim (Round-cases (replay_round crc apply s bs)) [
      | inl (out, e) ↦ (out, rw (e, replay_loop))
      | inr (s', rest, e) ↦
          let (out, go) =
            replay_loop_total fuel s' rest (omega (arith, length-replay_round s bs s' rest e)) in
          (out, rw (e, replay_loop) go)
    ]

    -- More fuel than the bytes need changes nothing.
    pub replay_loop_fuel :
        (j k : ℕ) (s : S) (bs : Bytes)
        → length bs < j
        → length bs < k
        → replay_loop crc apply j s bs ≡ replay_loop crc apply k s bs
    unfolding replay_loop
    replay_loop_fuel zero k s bs h l = absurd (omega arith)
    replay_loop_fuel (suc j) zero s bs h l = absurd (omega arith)
    replay_loop_fuel (suc j) (suc k) s bs h l = elim (Round-cases (replay_round crc apply s bs)) [
      | inl (out, e) ↦ rw (e, replay_loop)
      | inr (s', rest, e) ↦
          let less = length-replay_round s bs s' rest e in
          rw (e, replay_loop) (replay_loop_fuel j k s' rest (omega arith) (omega arith))
    ]

    module _ (crc-lt : (b : Bytes) → crc b < 2 ^ 32) where
      replay_round-encode_record :
          (r : WalRecord) (s : S) (rest : Bytes)
          → IsEncodable r
          → replay_round crc apply s (encode_record crc r ++ rest)
            ≡ elim (apply s r) [ err e ↦ stopped (err e) | ok s' ↦ again s' rest ]
      unfolding replay_round
      replay_round-encode_record r s rest h =
          rw (read_record-encode_record crc crc-lt r rest h, replay_round)

      replay_round_end :
          (s : S) (end : Bytes)
          → read_record crc end ≡ ok none
          → replay_round crc apply s end ≡ stopped (ok s)
      unfolding replay_round
      replay_round_end s end t = rw (t, replay_round)

      replay_loop-log_of :
          (fuel : ℕ) (rs : List WalRecord) (s : S) (end : Bytes)
          → All IsEncodable rs
          → read_record crc end ≡ ok none
          → length (log_of rs ++ end) < fuel
          → replay_loop crc apply fuel s (log_of rs ++ end) ≡ some (apply_all apply s rs)
      unfolding replay_loop
      replay_loop-log_of zero rs s end h t l = absurd (omega arith)
      replay_loop-log_of (suc fuel) [] s end h t l = rw (replay_round_end s end t, replay_loop)
      replay_loop-log_of (suc fuel) (r ∷ rs) s end h t l =
          let rest = log_of rs ++ end in
          let assoc = append_assoc (encode_record crc r) (log_of rs) end in
          let now = read_record-encode_record crc crc-lt r rest h.0 in
          let less = length-read_record crc (encode_record crc r ++ rest) r rest now in
          let round = replay_round-encode_record r s rest h.0 in
          rw assoc (elim (Result-cases (apply s r)) [
            | inl (s', e) ↦
                rw (rw e at round, replay_loop, e)
                  (replay_loop-log_of fuel rs s' end h.1 t (omega (arith, ap length assoc)))
            | inr (x, e) ↦ rw (rw e at round, replay_loop, e)
          ])

      pub replay-log_of :
          (rs : List WalRecord) (s : S) (end : Bytes)
          → All IsEncodable rs
          → read_record crc end ≡ ok none
          → replay crc apply s (log_of rs ++ end) ≡ some (apply_all apply s rs)
      unfolding replay
      replay-log_of rs s end h t = replay_loop-log_of _ rs s end h t (omega arith)

      -- Replaying the file that `append` built from an empty one, record by record, applies exactly
      -- these records, in order, if their numbers and the checksums fit
      -- the fields of the log.
      pub replay-append_all :
          (rs : List WalRecord) (s : S)
          → All IsEncodable rs
          → replay crc apply s (append_all [] rs) ≡ some (apply_all apply s rs)
      replay-append_all rs s h =
          rw (append_all-eq-log_of [] rs, sym (append-nil (log_of rs)))
            (replay-log_of rs s [] h (read_record-nil crc))

      -- If a crash cuts the last record `r` short, so that its bytes `missing` (one at least) were
      -- never written, replay applies the records appended before it, in order, and adds no
      -- error of its own; the numbers of all records and the checksums fit the fields of the log.
      pub replay_torn :
          (rs : List WalRecord) (r : WalRecord) (torn missing : Bytes) (s : S)
          → All IsEncodable rs
          → IsEncodable r
          → torn ++ missing ≡ encode_record crc r
          → missing ≢ []
          → replay crc apply s (append_all [] rs ++ torn) ≡ some (apply_all apply s rs)
      replay_torn rs r torn missing s h hr e short =
          rw (append_all-eq-log_of [] rs)
            (replay-log_of rs s torn h (read_record_torn crc crc-lt r torn missing hr e short))

    -- On every file, damaged or not, the loop of `replay` ends: by an error or with a state.
    pub replay_total :
        (s : S) (file : Bytes) → (out : DbResult S) × (replay crc apply s file ≡ some out)
    unfolding replay
    replay_total s file = replay_loop_total (suc (length file)) s file (omega arith)
