-- ===== src/ControlPlane/Oracle/Increasing.antt =====
-- The batches that the timestamp oracle gives, one after the other.
use helixdb.Prelude.{
  ℕ, ◌+◌, ◌^◌, ◌≤◌, ◌<◌, ◌≡◌, inl, inr, Result-cases, false, List, [], ◌∷◌, ◌==◌, ok, err, arith,
  subst,
}
use helixdb.Sharding.Group.{RaftCluster}
use helixdb.ControlPlane.Records.{ControlPlaneError}
use helixdb.ControlPlane.Plane.{ControlPlane, persist, persist_timestamp}
use helixdb.ControlPlane.Oracle.{TimestampBatch, checked_add, allocate_timestamp_batch}

-- The first timestamp is above the bound, the batches do not overlap, and all are `u64` numbers.
abbrev pub Above : ℕ → List TimestampBatch → Type 0
Above n [] = Unit
Above n (b ∷ bs) = (n < b.start) × (b.start ≤ b.end) × (b.end < 2 ^ 64) × Above b.end bs

module _ {C : Type 0} (g : RaftCluster C) where
  -- The batches of the calls that succeed.
  unfoldable pub batches : List ℕ → ControlPlane C → List TimestampBatch
  batches [] s = []
  batches (count ∷ counts) s =
      let rest = batches counts (allocate_timestamp_batch g count s).0 in
      elim (allocate_timestamp_batch g count s).1 [ err e ↦ rest | ok b ↦ b ∷ rest ]

  -- What a call does to the oracle.
  pub record Gives (s : ControlPlane C) (count : ℕ) (b : TimestampBatch) (t : ControlPlane C)
      : Type 0 where
    pub above : b.start ≡ s.next_timestamp + 1
    pub size : b.end ≡ s.next_timestamp + count
    pub some_left : (count == 0) ≡ false
    pub fits : b.end < 2 ^ 64
    pub moves : t.next_timestamp ≡ b.end

  pub allocate-Gives :
      (s : ControlPlane C) (count : ℕ) (b : TimestampBatch)
      → (allocate_timestamp_batch g count s).1 ≡ ok b
      → Gives s count b (allocate_timestamp_batch g count s).0
  unfolding allocate_timestamp_batch checked_add persist_timestamp persist
  allocate-Gives s count b h = record {
    above = ground (arith, h);
    size = ground (arith, h);
    some_left = ground (arith, h);
    fits = ground (arith, h);
    moves = ground (arith, h);
  }

  allocate-err :
      (s : ControlPlane C) (count : ℕ) (e : ControlPlaneError)
      → (allocate_timestamp_batch g count s).1 ≡ err e
      → (allocate_timestamp_batch g count s).0.next_timestamp ≡ s.next_timestamp
  unfolding allocate_timestamp_batch checked_add persist_timestamp persist
  allocate-err s count e h = ground (arith, h)

  -- Over any course of calls, also with ones that fail in between, each batch that is given begins
  -- behind the end of the one before, the first behind the last timestamp of the state; no batch is
  -- empty, and none passes `u64::MAX`.
  pub batches-Above :
      (counts : List ℕ) (s : ControlPlane C) → Above s.next_timestamp (batches counts s)
  unfolding batches
  batches-Above [] s = tt
  batches-Above (count ∷ counts) s =
      let t = (allocate_timestamp_batch g count s).0 in
      let rest = batches-Above counts t in
      elim (Result-cases (allocate_timestamp_batch g count s).1) [
        | inr (e, q) ↦
            subst (Above s.next_timestamp) {x = batches counts t} (ground (arith, q))
              (subst (λ n. Above n (batches counts t)) (allocate-err s count e q) rest)
        | inl (b, q) ↦
            let gives = allocate-Gives s count b q in
            subst (Above s.next_timestamp) {x = b ∷ batches counts t} (ground (arith, q)) (
              ground (arith, gives.above),
              ground (arith, gives.above, gives.size, gives.some_left),
              gives.fits,
              subst (λ n. Above n (batches counts t)) gives.moves rest,
            )
      ]
