-- ===== src/Sharding/Tests.antt =====
-- What the methods do on a cluster of two ranges whose groups are in memory.
use helixdb.Prelude.{◌≡◌, refl, Bool, true, false, Option, some, none, List, [], ◌∷◌, ok, err}
use helixdb.Prelude.Bytes.{Bytes}
use helixdb.Prelude.Order.{nat_ord, bytes_ord, bytes_cmp}
use helixdb.BTreeMap
use helixdb.Sharding.Range.{
  RangeDescriptor, contains, not_leader, check_window, validate_non_overlapping, sort_by_start,
  insert_by_start,
}
use helixdb.Sharding.Cluster.{
  ShardedCluster, on_group, authoritative_descriptor_for_key, range_group, descriptor,
  current_leader, cache, validate_cached_descriptor, route_to, route_descriptor_for_key,
  find_containing, differs, items_below, items_from,
}
use helixdb.Sharding.Split.{
  check_boundary, left_of, right_of, put_items, delete_items, next_split_range_id, fill_group,
  install, split_range_at_locked_descriptor, group_entries, begin_split_range_at,
  finish_split_range_at, maybe_auto_split_range,
}
use helixdb.Sharding.Route.{
  validate_route, remember, route_put_with_descriptor, route_put, retry, put, get,
}
use helixdb.Sharding.Exclusive.{Exclusive}
use helixdb.Sharding.Bootstrap.{bootstrap_with_ranges, enter, enter_all, no_ranges}
use helixdb.Sharding.Calls.{Call, call, calls, put_call, finish_split_call}
use helixdb.Sharding.Boot.{bootstrap_with_ranges-calls-Exclusive}
use helixdb.Sharding.Retry.{get-Serves}
use helixdb.Sharding.StaleHint.{IsStale, get-IsStale}
use helixdb.Sharding.InMemory.{Group, in_memory, range_of, two_ranges, booted}

-- The first range as `split_range_at` reads it.
abbrev low_range : RangeDescriptor
low_range = record (range_of 1 [] (some (100 ∷ []))) { leader_hint = some 1 }

low_range_read : begin_split_range_at in_memory 1 booted ≡ (booted, ok low_range)
unfolding begin_split_range_at range_group descriptor BTreeMap.get
low_range_read = refl

abbrev some_calls : List Call
some_calls =
    put_call (50 ∷ []) (1 ∷ [])
    ∷ put_call (60 ∷ []) (2 ∷ [])
    ∷ finish_split_call 1 (55 ∷ []) low_range
    ∷ []

low_range_stays :
    BTreeMap.get
      (call in_memory
        (put_call (60 ∷ []) (2 ∷ []))
        (call in_memory (put_call (50 ∷ []) (1 ∷ [])) booted)).authoritative
      1
    ≡ some low_range
unfolding call put retry route_put route_descriptor_for_key authoritative_descriptor_for_key
    find_containing contains route_to route_put_with_descriptor range_group cache validate_route
    validate_cached_descriptor differs current_leader remember on_group maybe_auto_split_range
    group_entries BTreeMap.get BTreeMap.insert bytes_cmp
low_range_stays = refl

bootstrap_with_ranges-calls-Exclusive_example :
    Exclusive (calls in_memory some_calls booted).authoritative
unfolding bootstrap_with_ranges validate_non_overlapping sort_by_start insert_by_start bytes_cmp
    check_window enter_all enter no_ranges BTreeMap.insert
bootstrap_with_ranges-calls-Exclusive_example =
    bootstrap_with_ranges-calls-Exclusive in_memory two_ranges 3 4 booted some_calls refl (
      tt,
      (
        tt,
        (
          record { now = low_range; is_now = low_range_stays; same_start = refl; same_end = refl },
          tt,
        ),
      ),
    )

abbrev full : Group
full = record {
  entries = (50 ∷ [], 1 ∷ []) ∷ (53 ∷ [], 3 ∷ []) ∷ (60 ∷ [], 2 ∷ []) ∷ [];
  leader = some 1;
}

-- Two calls of `split_range_at` have read the first range before either of them gets the lock.
abbrev both_split : ShardedCluster Group
both_split =
    calls in_memory
      (finish_split_call 1 (55 ∷ []) low_range ∷ finish_split_call 1 (52 ∷ []) low_range ∷ [])
      (record booted { groups = (1, full) ∷ [] })

abbrev holds : Option RangeDescriptor → Bytes → Bool
holds none key = false
holds (some d) key = contains d key

-- Behind the second one, the key 60 is in both of the ranges that they have made.
overlap :
    (holds (BTreeMap.get both_split.authoritative 3) (60 ∷ []) ≡ true)
    × (holds (BTreeMap.get both_split.authoritative 4) (60 ∷ []) ≡ true)
unfolding call calls finish_split_range_at group_entries range_group
    split_range_at_locked_descriptor check_boundary items_below items_from next_split_range_id
    fill_group put_items on_group delete_items install left_of right_of current_leader contains
    BTreeMap.get BTreeMap.insert BTreeMap.remove bytes_cmp
overlap = (refl, refl)

-- The upper part of the first range has been split off, and the cache has its old descriptor.
abbrev below_55 : RangeDescriptor
below_55 = record (range_of 1 [] (some (55 ∷ []))) { epoch = 2; leader_hint = some 1 }

abbrev from_55 : RangeDescriptor
from_55 = record (range_of 3 (55 ∷ []) (some (100 ∷ []))) { epoch = 2; leader_hint = some 1 }

abbrev holds_60 : Group
holds_60 = record { entries = (60 ∷ [], 2 ∷ []) ∷ []; leader = some 1 }

abbrev old_cache : ShardedCluster Group
old_cache = record booted {
  groups = (1, record { entries = []; leader = some 1 }) ∷ (3, holds_60) ∷ [];
  authoritative = (1, below_55) ∷ (3, from_55) ∷ [];
  cached = (1, range_of 1 [] (some (100 ∷ []))) ∷ [];
}

get-Serves_example : (get in_memory (60 ∷ []) old_cache).1 ≡ ok (some (2 ∷ []))
unfolding BTreeMap.get find_containing contains bytes_cmp differs current_leader
get-Serves_example =
    get-Serves in_memory old_cache (60 ∷ []) from_55 holds_60 (some (2 ∷ []))
      (record { found = refl; group = refl; fresh = refl; value = refl })

-- The second node leads the group of the first range, and the authority's hint is the first.
abbrev after_failover : ShardedCluster Group
after_failover = record old_cache {
  groups = (1, record { entries = []; leader = some 2 }) ∷ [];
  cached = (1, below_55) ∷ [];
}

get-IsStale_example :
    ((get in_memory (50 ∷ []) after_failover).1 ≡ err (not_leader 1 (some 1) (some 2)))
    × IsStale in_memory (get in_memory (50 ∷ []) after_failover).0 (50 ∷ []) below_55 1
unfolding BTreeMap.get find_containing contains bytes_cmp differs current_leader
get-IsStale_example =
    get-IsStale in_memory after_failover (50 ∷ []) below_55 1
      (record { found = refl; hint = refl; other = refl; copied = refl })
