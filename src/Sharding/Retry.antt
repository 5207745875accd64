-- ===== src/Sharding/Retry.antt =====
-- The loop of two attempts in `get` of sharding.rs: a stale cache does not fail a read.
use helixdb.Prelude.{
  ℕ, ◌≡◌, ◌∙◌, refl, ap, subst, inl, inr, Bool-cases, Option-cases, Result-cases, true, false, ◌&&◌,
  Option, none, some, [], ◌∷◌, ok, err, arith,
}
use helixdb.Prelude.Bytes.{Bytes}
use helixdb.Prelude.Order.{nat_ord, bytes_ord}
use helixdb.BTreeMap
use helixdb.BTreeMap.{BTreeMap}
use helixdb.BTreeMap.Laws.{get-insert_self}
use helixdb.Sharding.Range.{RangeDescriptor, contains, RangeRoutingError, range_moved, is_retryable}
use helixdb.Sharding.Group.{RaftCluster}
use helixdb.Sharding.Cluster.{
  ShardedCluster, find_containing, differs, is_some, current_leader, range_group, cache,
  validate_cached_descriptor, route_to, authoritative_descriptor_for_key, route_descriptor_for_key,
}
use helixdb.Sharding.Route.{
  validate_route, route_get_with_descriptor, route_get, refresh_descriptor_for_key, retry, get,
}

pub find_containing-contains :
    (m : BTreeMap ℕ RangeDescriptor) (key : Bytes) (d : RangeDescriptor)
    → find_containing m key ≡ some d
    → contains d key ≡ true
unfolding find_containing
find_containing-contains [] key d h = absurd cc
find_containing-contains ((id, e) ∷ m) key d h = elim (Bool-cases (contains e key)) [
  | inl q ↦ subst (λ x. contains x key ≡ true) {y = d} (ground (arith, q, h)) q
  | inr q ↦ find_containing-contains m key d (ground (arith, q, h))
]

module _ {C : Type 0} (g : RaftCluster C) where
  pub validate_cached_descriptor-is_retryable :
      (s : ShardedCluster C) (key : Bytes) (c a : RangeDescriptor) (why : RangeRoutingError)
      → validate_cached_descriptor g s key c a ≡ err why
      → is_retryable why ≡ true
  unfolding validate_cached_descriptor is_retryable
  validate_cached_descriptor-is_retryable s key c a why h = ground (arith, h)

  validate_cached_descriptor-range_id :
      (s : ShardedCluster C) (key : Bytes) (c a : RangeDescriptor)
      → validate_cached_descriptor g s key c a ≡ ok tt
      → c.range_id ≡ a.range_id
  unfolding validate_cached_descriptor
  validate_cached_descriptor-range_id s key c a h = ground (arith, h)

  -- The hint of the authority is absent or true.
  abbrev pub Fresh : ShardedCluster C → RangeDescriptor → Type 0
  Fresh s a = is_some a.leader_hint && differs a.leader_hint (current_leader g s a.range_id) ≡ false

  -- The authority, the group and the value behind the key.
  pub record Serves (s : ShardedCluster C) (key : Bytes) (a : RangeDescriptor) (c : C)
      (v : Option Bytes) : Type 0 where
    pub found : find_containing s.authoritative key ≡ some a
    pub group : BTreeMap.get s.groups a.range_id ≡ some c
    pub fresh : Fresh s a
    pub value : g.get c key ≡ ok v

  validate_authority :
      (s : ShardedCluster C) (key : Bytes) (a : RangeDescriptor)
      → find_containing s.authoritative key ≡ some a
      → Fresh s a
      → validate_cached_descriptor g s key a a ≡ ok tt
  unfolding validate_cached_descriptor
  validate_authority s key a f h =
      ground (arith, h, find_containing-contains s.authoritative key a f)

  -- A descriptor that passes the check against the authority leads to the value.
  module _ (s : ShardedCluster C) (key : Bytes) (a : RangeDescriptor) (c : C) (v : Option Bytes)
      (h : Serves s key a c v) where
    get_with_valid :
        (d : RangeDescriptor)
        → validate_cached_descriptor g s key d a ≡ ok tt
        → (route_get_with_descriptor g key d s).1 ≡ ok v
    unfolding route_get_with_descriptor validate_route authoritative_descriptor_for_key range_group
    get_with_valid d e = ground (
      arith,
      e,
      h.found,
      h.value,
      ap (λ i. BTreeMap.get s.groups i) (validate_cached_descriptor-range_id s key d a e) ∙ h.group,
    )

    route_authority : authoritative_descriptor_for_key g s key ≡ ok a
    unfolding authoritative_descriptor_for_key
    route_authority = ground (arith, h.found)

  cache-Serves :
      (s : ShardedCluster C) (key : Bytes) (a : RangeDescriptor) (c : C) (v : Option Bytes)
      → Serves s key a c v
      → Serves (cache g a s) key a c v
  unfolding cache current_leader
  cache-Serves s key a c v h = record {
    found = h.found;
    group = h.group;
    fresh = h.fresh;
    value = h.value;
  }

  module _ (s : ShardedCluster C) (key : Bytes) (a : RangeDescriptor) (c : C) (v : Option Bytes)
      (h : Serves s key a c v) where
    -- One attempt, if the descriptor in the cache is still right.
    get_cached :
        (d : RangeDescriptor)
        → BTreeMap.get s.cached a.range_id ≡ some d
        → validate_cached_descriptor g s key d a ≡ ok tt
        → (route_get g key s).1 ≡ ok v
    unfolding route_get route_descriptor_for_key route_to
    get_cached d p e =
        ground (arith, route_authority s key a c v h, p, e, get_with_valid s key a c v h d e)

    -- If it is not, the attempt fails with an error that leads to the second one.
    get_stale :
        (d : RangeDescriptor) (why : RangeRoutingError)
        → BTreeMap.get s.cached a.range_id ≡ some d
        → validate_cached_descriptor g s key d a ≡ err why
        → route_get g key s ≡ (s, err why)
    unfolding route_get route_descriptor_for_key route_to
    get_stale d why p e = ground (arith, route_authority s key a c v h, p, e)

    get_elsewhere :
        (d : RangeDescriptor)
        → BTreeMap.get s.cached a.range_id ≡ none
        → find_containing s.cached key ≡ some d
        → route_get g key s ≡ (s, err (range_moved d.range_id a.range_id))
    unfolding route_get route_descriptor_for_key route_to
    get_elsewhere d p e = ground (arith, route_authority s key a c v h, p, e)

    get_unknown :
        BTreeMap.get s.cached a.range_id ≡ none
        → find_containing s.cached key ≡ none
        → (route_get g key s).1 ≡ ok v
    unfolding route_get route_descriptor_for_key route_to cache
    get_unknown p e = ground (
      arith,
      route_authority s key a c v h,
      p,
      e,
      get_with_valid (cache g a s) key a c v (cache-Serves s key a c v h) a
          (validate_authority (cache g a s) key a h.found (cache-Serves s key a c v h).fresh),
    )

  cache-get :
      (s : ShardedCluster C) (a : RangeDescriptor)
      → BTreeMap.get (cache g a s).cached a.range_id ≡ some a
  unfolding cache
  cache-get s a = get-insert_self s.cached a.range_id a

  module _ (s : ShardedCluster C) (key : Bytes) (a : RangeDescriptor) (c : C) (v : Option Bytes)
      (h : Serves s key a c v) where
    -- The second attempt finds the descriptor that was read again.
    get_second :
        (why : RangeRoutingError)
        → is_retryable why ≡ true
        → route_get g key s ≡ (s, err why)
        → (get g key s).1 ≡ ok v
    unfolding get retry refresh_descriptor_for_key cache
    get_second why r e = ground (
      arith,
      e,
      r,
      route_authority s key a c v h,
      get_cached (cache g a s) key a c v (cache-Serves s key a c v h) a (cache-get s a)
          (validate_authority (cache g a s) key a h.found (cache-Serves s key a c v h).fresh),
    )

    -- Whatever the cache holds, stale descriptors included: if the authority has a range for the key,
    -- whose hint of a leader is absent or the leader of now, and the range's group answers the read
    -- with a value, then `get` answers with that value.
    pub get-Serves : (get g key s).1 ≡ ok v
    unfolding get retry is_retryable
    get-Serves = elim (Option-cases (BTreeMap.get s.cached a.range_id)) [
      | inr (d, p) ↦ elim (Result-cases (validate_cached_descriptor g s key d a)) [
        | inl (u, e) ↦ ground (arith, get_cached s key a c v h d p e)
        | inr (why, e) ↦
            get_second why (validate_cached_descriptor-is_retryable s key d a why e)
              (get_stale s key a c v h d why p e)
      ]
      | inl p ↦ elim (Option-cases (find_containing s.cached key)) [
        | inl e ↦ ground (arith, get_unknown s key a c v h p e)
        | inr (d, e) ↦
            get_second (range_moved d.range_id a.range_id) refl (get_elsewhere s key a c v h d p e)
      ]
    ]
