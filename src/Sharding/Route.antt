-- ===== src/Sharding/Route.antt =====
-- Routed reads and writes of `ShardedCluster`, and their retry after a stale descriptor.
use helixdb.Prelude.{ℕ, Option, if◌then◌else◌, ok, err}
use helixdb.Prelude.Bytes.{Bytes}
use helixdb.Prelude.Order.{nat_ord}
use helixdb.Prelude.Stateful.{pure, lift, reads, ◌>>=◌, ◌>>◌, modify}
use helixdb.Sharding.Range.{RangeDescriptor, ShardResult, from_db, is_retryable}
use helixdb.Sharding.Group.{RaftCluster}
use helixdb.Sharding.Cluster.{
  ShardedCluster, Turn, on_group, authoritative_descriptor_for_key, range_group, current_leader,
  cache, validate_cached_descriptor, route_descriptor_for_key,
}
use helixdb.Sharding.Split.{maybe_auto_split_range}

module _ {C : Type 0} (g : RaftCluster C) where
  unfoldable pub validate_route :
      ShardedCluster C → Bytes → RangeDescriptor → ShardResult (Unit {0})
  validate_route s key d = elim (authoritative_descriptor_for_key g s key) [
    | err e ↦ err e
    | ok authority ↦ validate_cached_descriptor g s key d authority
  ]

  -- The descriptor goes into the cache with the leader of now.
  unfoldable pub remember : RangeDescriptor → ShardedCluster C → ShardedCluster C
  remember d s = cache g (record d { leader_hint = current_leader g s d.range_id }) s

  unfoldable pub route_put_with_descriptor : Bytes → Bytes → RangeDescriptor → Turn g ℕ
  route_put_with_descriptor key value d = do
    c ← reads (λ s. range_group g s d.range_id)
    reads (λ s. validate_route s key d)
    index ← on_group g d.range_id (λ c. g.put c key value)
    modify (remember d)
    maybe_auto_split_range g d.range_id
    pure index

  unfoldable pub route_delete_with_descriptor : Bytes → RangeDescriptor → Turn g ℕ
  route_delete_with_descriptor key d = do
    c ← reads (λ s. range_group g s d.range_id)
    reads (λ s. validate_route s key d)
    index ← on_group g d.range_id (λ c. g.delete c key)
    modify (remember d)
    pure index

  unfoldable pub route_get_with_descriptor : Bytes → RangeDescriptor → Turn g (Option Bytes)
  route_get_with_descriptor key d = do
    c ← reads (λ s. range_group g s d.range_id)
    reads (λ s. validate_route s key d)
    value ← lift (from_db (g.get c key))
    modify (remember d)
    pure value

  unfoldable pub route_put : Bytes → Bytes → Turn g ℕ
  route_put key value = route_descriptor_for_key g key >>= route_put_with_descriptor key value

  unfoldable pub route_delete : Bytes → Turn g ℕ
  route_delete key = route_descriptor_for_key g key >>= route_delete_with_descriptor key

  unfoldable pub route_get : Bytes → Turn g (Option Bytes)
  route_get key = route_descriptor_for_key g key >>= route_get_with_descriptor key

  unfoldable pub refresh_descriptor_for_key : Bytes → Turn g RangeDescriptor
  refresh_descriptor_for_key key = do
    d ← reads (λ s. authoritative_descriptor_for_key g s key)
    modify (cache g d)
    pure d

  -- The loop of two attempts: after an error that can be retried, the descriptor is read again.
  unfoldable pub retry : {A : Type 0} → Bytes → Turn g A → Turn g A
  retry key once s = elim (once s).1 [
    | ok a ↦ ((once s).0, ok a)
    | err e ↦
        if is_retryable e
        then (refresh_descriptor_for_key key >>= λ d. once) (once s).0
        else ((once s).0, err e)
  ]

  unfoldable pub put : Bytes → Bytes → Turn g ℕ
  put key value = retry key (route_put key value)

  unfoldable pub delete : Bytes → Turn g ℕ
  delete key = retry key (route_delete key)

  unfoldable pub get : Bytes → Turn g (Option Bytes)
  get key = retry key (route_get key)
