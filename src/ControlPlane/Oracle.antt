-- ===== src/ControlPlane/Oracle.antt =====
-- The timestamp oracle of control_plane.rs.
pub mod Increasing
use helixdb.Prelude.{ℕ, ◌+◌, ◌-◌, ◌^◌, Bool, ltb, ◌==◌, if◌then◌else◌, Result, ok, err, min}
use helixdb.Prelude.Stateful.{Op, pure, fail, lift, reads, continue, ◌>>=◌, ◌>>◌, modify}
use helixdb.Sharding.Group.{RaftCluster}
use helixdb.ControlPlane.Records.{invalid_record, PlaneResult}
use helixdb.ControlPlane.Plane.{ControlPlane, Step, persist_timestamp}

pub record TimestampBatch : Type 0 where
  pub start : ℕ
  pub end : ℕ

-- `checked_add` with the message of an overflow
unfoldable pub checked_add : ℕ → ℕ → PlaneResult ℕ
checked_add a b =
    if ltb (a + b) (2 ^ 64) then ok (a + b) else err (invalid_record "timestamp oracle overflow")

module _ {C : Type 0} (g : RaftCluster C) where
  unfoldable pub allocate_timestamp_batch : ℕ → Step g TimestampBatch
  allocate_timestamp_batch count =
      if count == 0
      then fail (invalid_record "timestamp batch size must be greater than zero")
      else do
        start ← reads (λ s. checked_add s.next_timestamp 1)
        end ← reads (λ s. checked_add s.next_timestamp count)
        persist_timestamp g end
        modify (λ s. record s { next_timestamp = end })
        pure (record { start = start; end = end })

  unfoldable pub allocate_timestamp : Step g ℕ
  allocate_timestamp = do batch ← allocate_timestamp_batch 1; pure batch.start
