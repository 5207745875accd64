-- ===== src/Sharding/StaleHint.antt =====
-- The hint that `refresh_descriptor_for_key` of sharding.rs reads is not renewed on a change of
-- leader.
use helixdb.Prelude.{ℕ, ◌≡◌, refl, sym, subst, true, some, err, arith}
use helixdb.Prelude.Bytes.{Bytes}
use helixdb.Prelude.Order.{nat_ord, bytes_ord}
use helixdb.BTreeMap
use helixdb.BTreeMap.Laws.{get-insert_self}
use helixdb.Sharding.Range.{RangeDescriptor, RangeRoutingError, not_leader, is_retryable}
use helixdb.Sharding.Group.{RaftCluster}
use helixdb.Sharding.Cluster.{
  ShardedCluster, find_containing, differs, current_leader, cache, validate_cached_descriptor,
  route_to, authoritative_descriptor_for_key, route_descriptor_for_key,
}
use helixdb.Sharding.Route.{route_get, refresh_descriptor_for_key, retry, get}
use helixdb.Sharding.Retry.{find_containing-contains}

module _ {C : Type 0} (g : RaftCluster C) where
  -- The authority has a range for the key, its hint is not the leader of now, and the cache has a copy.
  pub record IsStale (s : ShardedCluster C) (key : Bytes) (a : RangeDescriptor) (old : ℕ)
      : Type 0 where
    pub found : find_containing s.authoritative key ≡ some a
    pub hint : a.leader_hint ≡ some old
    pub other : differs (some old) (current_leader g s a.range_id) ≡ true
    pub copied : BTreeMap.get s.cached a.range_id ≡ some a

  pub cache-IsStale :
      (s : ShardedCluster C) (key : Bytes) (a : RangeDescriptor) (old : ℕ)
      → IsStale s key a old
      → IsStale (cache g a s) key a old
  unfolding cache current_leader
  cache-IsStale s key a old h = record {
    found = h.found;
    hint = h.hint;
    other = h.other;
    copied = get-insert_self s.cached a.range_id a;
  }

  module _ (s : ShardedCluster C) (key : Bytes) (a : RangeDescriptor) (old : ℕ)
      (h : IsStale s key a old) where
    abbrev why : RangeRoutingError
    why = not_leader a.range_id (some old) (current_leader g s a.range_id)

    validate_stale : validate_cached_descriptor g s key a a ≡ err why
    unfolding validate_cached_descriptor
    validate_stale =
        ground (arith, h.hint, h.other, find_containing-contains s.authoritative key a h.found)

    route_get_stale : route_get g key s ≡ (s, err why)
    unfolding route_get route_descriptor_for_key route_to authoritative_descriptor_for_key
    route_get_stale = ground (arith, h.found, h.copied, validate_stale)

  current_leader-cache :
      (s : ShardedCluster C) (a : RangeDescriptor)
      → current_leader g (cache g a s) a.range_id ≡ current_leader g s a.range_id
  unfolding cache current_leader
  current_leader-cache s a = refl

  -- If the hint of the authority is not the leader of the group, and the cache has that descriptor,
  -- then `get` fails with `not_leader` in both attempts, and the same holds of the state behind it.
  pub get-IsStale :
      (s : ShardedCluster C) (key : Bytes) (a : RangeDescriptor) (old : ℕ)
      → IsStale s key a old
      → ((get g key s).1 ≡ err (not_leader a.range_id (some old) (current_leader g s a.range_id)))
        × IsStale (get g key s).0 key a old
  unfolding get retry refresh_descriptor_for_key is_retryable authoritative_descriptor_for_key
  get-IsStale s key a old h = (
    ground (
      arith,
      h.found,
      route_get_stale s key a old h,
      route_get_stale (cache g a s) key a old (cache-IsStale s key a old h),
      current_leader-cache s a,
    ),
    subst (λ t. IsStale t key a old)
        (sym (
          ground (
            arith,
            h.found,
            route_get_stale s key a old h,
            route_get_stale (cache g a s) key a old (cache-IsStale s key a old h),
          )))
        (cache-IsStale s key a old h),
  )
