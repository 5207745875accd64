-- ===== src/Transaction/Commit.antt =====
-- What a commit of transaction.rs has checked.
use helixdb.Prelude.{
  ℕ, ◌≤◌, max, ◌≡◌, refl, inl, inr, Option, none, List, [], ◌∷◌, All, ok, leb, arith, Bool-cases,
  Option-cases, Result-cases,
}
use helixdb.Prelude.Bytes.{Bytes}
use helixdb.Prelude.Order.{bytes_ord, eqb, eqb_refl}
use helixdb.BTreeMap.{BTreeMap}
use helixdb.MemTable.{Entries}
use helixdb.Db.{Db, all_entries}
use helixdb.Mvcc.{MvccVersion, decode_internal_key}
use helixdb.Transaction.{
  MvccTransaction, versions_in, insert_by_key, sort_by_key, latest_of, versions_for_key,
  latest_committed_timestamp, check_writes, commit_locked,
}

latest_of-insert_by_key :
    (v : MvccVersion) (ws : List MvccVersion) (n : ℕ)
    → latest_of (insert_by_key v ws) n ≡ latest_of ws (max n v.timestamp)
unfolding latest_of insert_by_key
latest_of-insert_by_key v [] n = refl
latest_of-insert_by_key v (w ∷ ws) n = elim (Bool-cases (leb v.timestamp w.timestamp)) [
  | inl e ↦ rw e refl
  | inr e ↦
      let swap : max (max n w.timestamp) v.timestamp ≡ max (max n v.timestamp) w.timestamp =
        omega arith in
      rw (e, latest_of-insert_by_key v ws (max n w.timestamp), swap) refl
]

latest_of-sort_by_key :
    (vs : List MvccVersion) (n : ℕ) → latest_of (sort_by_key vs) n ≡ latest_of vs n
unfolding latest_of sort_by_key
latest_of-sort_by_key [] n = refl
latest_of-sort_by_key (v ∷ vs) n =
    rw (latest_of-insert_by_key v (sort_by_key vs) n) (latest_of-sort_by_key vs (max n v.timestamp))

latest_of_grows : (vs : List MvccVersion) (n : ℕ) → n ≤ latest_of vs n
unfolding latest_of
latest_of_grows [] n = omega arith
latest_of_grows (v ∷ vs) n = omega (arith, latest_of_grows vs (max n v.timestamp))

-- No entry is a version of the key that is newer than the timestamp.
abbrev pub Unchanged : Entries → Bytes → ℕ → Type 0
Unchanged m key start_ts =
    All (λ p. (ts : ℕ) → decode_internal_key p.0 ≡ ok (key, ts) → ts ≤ start_ts) m

latest_of-Unchanged :
    (m : Entries) (key : Bytes) (n start_ts : ℕ)
    → latest_of (versions_in m key) n ≤ start_ts
    → Unchanged m key start_ts
unfolding versions_in latest_of
latest_of-Unchanged [] key n start_ts h = tt
latest_of-Unchanged (p ∷ m) key n start_ts h = elim (Result-cases (decode_internal_key p.0)) [
  | inr (why, e) ↦
      (λ ts d. absurd (cc (e, d)), latest_of-Unchanged m key n start_ts (ground (arith, h, e)))
  | inl (d, e) ↦ elim (Bool-cases (eqb d.0 key)) [
    | inr f ↦ (
      λ ts q. absurd (ground (arith, e, q, f, eqb_refl key)),
      latest_of-Unchanged m key n start_ts (ground (arith, h, e, f)),
    )
    | inl f ↦
        let rest : latest_of (versions_in m key) (max n d.1) ≤ start_ts = ground (arith, h, e, f) in
        (
          λ ts q. ground (arith, e, q, rest, latest_of_grows (versions_in m key) (max n d.1)),
          latest_of-Unchanged m key (max n d.1) start_ts rest,
        )
  ]
]

module _ (crc : Bytes → ℕ) (hasher : ℕ → Bytes → ℕ) (db : Db) (m : Entries)
    (read : all_entries crc hasher db ≡ ok m) where
  latest_committed_timestamp_lem :
      (key : Bytes)
      → latest_committed_timestamp crc hasher db key ≡ ok (latest_of (versions_in m key) 0)
  unfolding latest_committed_timestamp versions_for_key
  latest_committed_timestamp_lem key = rw (read, latest_of-sort_by_key (versions_in m key) 0) refl

  check_writes_lem :
      (start_ts : ℕ) (writes : BTreeMap Bytes (Option Bytes))
      → check_writes crc hasher db start_ts writes ≡ none
      → All (λ w. Unchanged m w.0 start_ts) writes
  unfolding check_writes
  check_writes_lem start_ts [] h = tt
  check_writes_lem start_ts (w ∷ writes) h =
      let latest = latest_committed_timestamp_lem w.0 in
      let fine : latest_of (versions_in m w.0) 0 ≤ start_ts = ground (arith, h, latest) in
      (
        latest_of-Unchanged m w.0 0 start_ts fine,
        check_writes_lem start_ts writes (ground (arith, h, latest)),
      )

  -- If the entries of the database can be read and a commit under the lock succeeds, then no key
  -- that it has written had a version newer than the start of the transaction.
  pub commit_locked-Unchanged :
      (tx : MvccTransaction) (commit_ts : ℕ) (db' : Db)
      → commit_locked crc hasher db tx commit_ts ≡ (db', none)
      → All (λ w. Unchanged m w.0 tx.start_ts) tx.writes
  unfolding commit_locked
  commit_locked-Unchanged tx commit_ts db' h =
      check_writes_lem tx.start_ts tx.writes
        (elim (Option-cases (check_writes crc hasher db tx.start_ts tx.writes)) [
          | inl e ↦ e
          | inr (why, e) ↦ absurd (ground (arith, h, e))
        ])
