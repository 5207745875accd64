-- ===== src/Mvcc/Newest.antt =====
-- What `get_at` of mvcc.rs finds.
use helixdb.Prelude.{
  ℕ, suc, ◌≤◌, ◌≡◌, refl, ◌⊎◌, inl, inr, false, Option, none, some, [], ◌∷◌, get_elem?, ok, All,
  arith, Bool-cases, Result-cases,
}
use helixdb.Prelude.Bytes.{Bytes}
use helixdb.Prelude.Order.{bytes_ord, eqb, eqb_refl, eq_of_eqb}
use helixdb.Errors.{ValueEntry}
use helixdb.MemTable.{Entries}
use helixdb.Db.{Db, all_entries}
use helixdb.Mvcc.{MvccVersion, decode_internal_key, replaces, better, newest, value_at, get_at}

module _ (key : Bytes) (t : ℕ) where
  -- There is a result, and it is no older than the timestamp.
  pub record IsFrom (ts : ℕ) (r : Option MvccVersion) : Type 0 where
    pub version : MvccVersion
    pub is_result : r ≡ some version
    pub no_older : ts ≤ version.timestamp

  -- If the entry is a version of the key that is visible at the time, then there is a result, and it
  -- is no older.
  abbrev pub Covered : Option MvccVersion → Bytes × ValueEntry → Type 0
  Covered r p = (ts : ℕ) → decode_internal_key p.0 ≡ ok (key, ts) → ts ≤ t → IsFrom ts r

  -- The result of a comparison that fails, as an order of timestamps.
  replaces-IsFrom : (r : Option MvccVersion) (ts : ℕ) → replaces r ts ≡ false → IsFrom ts r
  unfolding replaces
  replaces-IsFrom none ts h = absurd cc
  replaces-IsFrom (some v) ts h = record {
    version = v;
    is_result = refl;
    no_older = ground (arith, h);
  }

  -- The entry is this version of the key, and visible at the time.
  abbrev pub Shows : Bytes × ValueEntry → MvccVersion → Type 0
  Shows p v =
      (decode_internal_key p.0 ≡ ok (key, v.timestamp)) × (p.1.value ≡ v.value) × (v.timestamp ≤ t)

  -- The result is the newest visible version among the entries, if there is one.
  pub record IsNewest (m : Entries) (r : Option MvccVersion) : Type 0 where
    pub covers : All (Covered r) m
    pub shown :
        (v : MvccVersion)
        → r ≡ some v
        → (i : ℕ) × (p : Bytes × ValueEntry) × (get_elem? m i ≡ some p) × Shows p v

  better_mono :
      (best : Option MvccVersion) (p : Bytes × ValueEntry) (ts : ℕ)
      → replaces best ts ≡ false
      → replaces (better key t best p) ts ≡ false
  unfolding better replaces
  better_mono best p ts h = ground (arith, h)

  newest_mono :
      (best : Option MvccVersion) (m : Entries) (ts : ℕ)
      → replaces best ts ≡ false
      → replaces (newest key t best m) ts ≡ false
  unfolding newest
  newest_mono best [] ts h = h
  newest_mono best (p ∷ m) ts h = newest_mono (better key t best p) m ts (better_mono best p ts h)

  better_visible :
      (best : Option MvccVersion) (p : Bytes × ValueEntry) (ts : ℕ)
      → decode_internal_key p.0 ≡ ok (key, ts)
      → ts ≤ t
      → replaces (better key t best p) ts ≡ false
  unfolding better replaces
  better_visible best p ts d le = ground (arith, d, eqb_refl key, le)

  newest-Covered : (best : Option MvccVersion) (m : Entries) → All (Covered (newest key t best m)) m
  unfolding newest
  newest-Covered best [] = tt
  newest-Covered best (p ∷ m) = (
    λ ts d le.
        replaces-IsFrom (newest key t best (p ∷ m)) ts
          (newest_mono (better key t best p) m ts (better_visible best p ts d le)),
    newest-Covered (better key t best p) m,
  )

  better_origin :
      (best : Option MvccVersion) (p : Bytes × ValueEntry) (v : MvccVersion)
      → better key t best p ≡ some v
      → (best ≡ some v) ⊎ Shows p v
  unfolding better
  better_origin best p v h = elim (Result-cases (decode_internal_key p.0)) [
    | inr (why, e) ↦ inl (ground (arith, h, e))
    | inl (d, e) ↦ elim (Bool-cases (eqb d.0 key)) [
      | inr f ↦ inl (ground (arith, h, e, f))
      | inl q ↦ ground (arith, h, e, q, eq_of_eqb d.0 key q)
    ]
  ]

  newest_origin :
      (best : Option MvccVersion) (m : Entries) (v : MvccVersion)
      → newest key t best m ≡ some v
      → (best ≡ some v)
        ⊎ ((i : ℕ) × (p : Bytes × ValueEntry) × (get_elem? m i ≡ some p) × Shows p v)
  unfolding newest
  newest_origin best [] v h = inl h
  newest_origin best (p ∷ m) v h = elim (newest_origin (better key t best p) m v h) [
    | inr (i, q, there, shows) ↦ inr (suc i, q, there, shows)
    | inl e ↦ elim (better_origin best p v e) [
      | inl old ↦ inl old
      | inr shows ↦ inr (0, p, refl, shows)
    ]
  ]

  pub newest-IsNewest : (m : Entries) → IsNewest m (newest key t none m)
  newest-IsNewest m = record {
    covers = newest-Covered none m;
    shown = λ v h. elim (newest_origin none m v h) [ inl e ↦ absurd (cc e) | inr found ↦ found ];
  }

-- If the entries of the database can be read, `get_at` answers with the value of the newest version
-- of the key that is visible at the time: it is among the entries and none of the visible ones is
-- newer; the answer is that there is no value if that version is a deletion or if there is none.
pub get_at-IsNewest :
    (crc : Bytes → ℕ) (hasher : ℕ → Bytes → ℕ) (db : Db) (m : Entries) (key : Bytes) (t : ℕ)
    → all_entries crc hasher db ≡ ok m
    → (r : Option MvccVersion) × (get_at crc hasher db key t ≡ ok (value_at r)) × IsNewest key t m r
unfolding get_at
get_at-IsNewest crc hasher db m key t h = (newest key t none m, rw h refl, newest-IsNewest key t m)
