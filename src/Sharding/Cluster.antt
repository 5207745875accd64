-- ===== src/Sharding/Cluster.antt =====
-- `ShardedCluster` of sharding.rs: looking descriptors up, changing them, splitting ranges, and
-- routing reads and writes to the groups.
use helixdb.Prelude.{
  ℕ, ◌+◌, Bool, true, false, not, ◌&&◌, Option, none, some, List, [], ◌∷◌, ◌==◌, if◌then◌else◌, ok,
  err, ok_or,
}
use helixdb.Prelude.Bytes.{Bytes}
use helixdb.Prelude.Order.{nat_ord, bytes_ord, less}
use helixdb.Prelude.Stateful.{Op, pure, fail, reads, ◌>>=◌, ◌>>◌, modify}
use helixdb.BTreeMap
use helixdb.BTreeMap.{BTreeMap}
use helixdb.Errors.{DbResult}
use helixdb.Sharding.Range.{
  RangeDescriptor, contains, RangeRoutingError, key_out_of_range, range_moved, epoch_mismatch,
  not_leader, unknown_range, invalid_descriptor, ShardResult, from_db,
}
use helixdb.Sharding.Group.{RaftCluster}

pub record ShardedCluster (C : Type 0) : Type 0 where
  pub nodes_per_group : ℕ
  pub split_threshold_entries : ℕ
  pub groups : BTreeMap ℕ C
  pub authoritative : BTreeMap ℕ RangeDescriptor
  pub cached : BTreeMap ℕ RangeDescriptor
  pub next_range_id : ℕ

-- `values().find(|descriptor| descriptor.contains(key))`
unfoldable pub find_containing : BTreeMap ℕ RangeDescriptor → Bytes → Option RangeDescriptor
find_containing [] key = none
find_containing ((id, d) ∷ m) key =
    let rest = find_containing m key in if contains d key then some d else rest

-- `a != b` on `Option<u64>`
unfoldable pub differs : Option ℕ → Option ℕ → Bool
differs none none = false
differs none (some b) = true
differs (some a) none = true
differs (some a) (some b) = not (a == b)

abbrev pub is_some {ℓ} : {A : Type ℓ} → Option A → Bool
is_some none = false
is_some (some a) = true

-- The keys below the boundary, and the others, each in their order.
unfoldable pub items_below : Bytes → List (Bytes × Bytes) → List (Bytes × Bytes)
items_below boundary [] = []
items_below boundary (p ∷ l) =
    let rest = items_below boundary l in if less p.0 boundary then p ∷ rest else rest

unfoldable pub items_from : Bytes → List (Bytes × Bytes) → List (Bytes × Bytes)
items_from boundary [] = []
items_from boundary (p ∷ l) =
    let rest = items_from boundary l in if less p.0 boundary then rest else p ∷ rest

abbrev pub is_empty {ℓ} : {A : Type ℓ} → List A → Bool
is_empty [] = true
is_empty (x ∷ xs) = false

module _ {C : Type 0} (g : RaftCluster C) where
  abbrev pub Turn : Type 0 → Type 0
  Turn A = Op (ShardedCluster C) RangeRoutingError A

  -- A method of a group that the state holds.
  unfoldable pub on_group : {A : Type 0} → ℕ → (C → C × DbResult A) → Turn A
  on_group range_id method s = elim (BTreeMap.get s.groups range_id) [
    | none ↦ (s, err (unknown_range range_id))
    | some c ↦
        (record s { groups = BTreeMap.insert s.groups range_id (method c).0 }, from_db (method c).1)
  ]

  unfoldable pub authoritative_descriptor_for_key :
      ShardedCluster C → Bytes → ShardResult RangeDescriptor
  authoritative_descriptor_for_key s key =
      ok_or (find_containing s.authoritative key) (key_out_of_range key)

  unfoldable pub descriptor : ShardedCluster C → ℕ → ShardResult RangeDescriptor
  descriptor s range_id = ok_or (BTreeMap.get s.authoritative range_id) (unknown_range range_id)

  unfoldable pub range_group : ShardedCluster C → ℕ → ShardResult C
  range_group s range_id = ok_or (BTreeMap.get s.groups range_id) (unknown_range range_id)

  unfoldable pub current_leader : ShardedCluster C → ℕ → Option ℕ
  current_leader s range_id = elim (BTreeMap.get s.groups range_id) [
    | none ↦ none
    | some c ↦ g.leader_id c
  ]

  unfoldable pub cache : RangeDescriptor → ShardedCluster C → ShardedCluster C
  cache d s = record s { cached = BTreeMap.insert s.cached d.range_id d }

  unfoldable pub validate_cached_descriptor :
      ShardedCluster C → Bytes → RangeDescriptor → RangeDescriptor → ShardResult (Unit {0})
  validate_cached_descriptor s key c authority =
      if not (c.range_id == authority.range_id)
      then err (range_moved c.range_id authority.range_id)
      else if not (c.epoch == authority.epoch)
      then err (epoch_mismatch c.range_id c.epoch authority.epoch)
      else if not (contains c key)
      then err (range_moved c.range_id authority.range_id)
      else if is_some c.leader_hint && differs c.leader_hint (current_leader s c.range_id)
      then err (not_leader c.range_id c.leader_hint (current_leader s c.range_id))
      else ok tt

  -- The part of `route_descriptor_for_key` behind the descriptor that the authority has.
  unfoldable pub route_to : Bytes → RangeDescriptor → Turn RangeDescriptor
  route_to key authority s = elim (BTreeMap.get s.cached authority.range_id) [
    | some c ↦ elim (validate_cached_descriptor s key c authority) [
      | err why ↦ (s, err why)
      | ok u ↦ (s, ok c)
    ]
    | none ↦ elim (find_containing s.cached key) [
      | some c ↦ (s, err (range_moved c.range_id authority.range_id))
      | none ↦ (cache authority s, ok authority)
    ]
  ]

  unfoldable pub route_descriptor_for_key : Bytes → Turn RangeDescriptor
  route_descriptor_for_key key = do
    authority ← reads (λ s. authoritative_descriptor_for_key s key)
    route_to key authority

  unfoldable pub refresh_descriptor : ℕ → Turn RangeDescriptor
  refresh_descriptor range_id = do
    d ← reads (λ s. descriptor s range_id)
    modify (λ s. record s { cached = BTreeMap.insert s.cached range_id d })
    pure d

  -- `get_mut` on the authority, a new epoch, and the leader of now as the hint.
  unfoldable pub update_descriptor : ℕ → (RangeDescriptor → RangeDescriptor) → Turn RangeDescriptor
  update_descriptor range_id change s = elim (BTreeMap.get s.authoritative range_id) [
    | none ↦ (s, err (unknown_range range_id))
    | some d ↦
        let d' = record (change d) {
          epoch = d.epoch + 1;
          leader_hint = current_leader s range_id;
        } in
        (record s { authoritative = BTreeMap.insert s.authoritative range_id d' }, ok d')
  ]

  unfoldable pub bump_range_epoch : ℕ → Turn RangeDescriptor
  bump_range_epoch range_id = update_descriptor range_id (λ d. d)

  unfoldable pub move_range : ℕ → Bytes → Option Bytes → Turn RangeDescriptor
  move_range range_id new_start new_end =
      update_descriptor range_id (λ d. record d { start = new_start; end = new_end })

  unfoldable pub bump_descriptor_after_membership_change : ℕ → Turn RangeDescriptor
  bump_descriptor_after_membership_change range_id = do
    d ← update_descriptor range_id (λ d. d)
    modify (λ s. record s { cached = BTreeMap.insert s.cached range_id d })
    pure d

  unfoldable pub add_group_node : ℕ → ℕ → Turn RangeDescriptor
  add_group_node range_id node_id = do
    on_group range_id (λ c. g.add_node c node_id)
    bump_descriptor_after_membership_change range_id

  unfoldable pub remove_group_node : ℕ → ℕ → Turn RangeDescriptor
  remove_group_node range_id node_id = do
    on_group range_id (λ c. g.remove_node c node_id)
    bump_descriptor_after_membership_change range_id

  unfoldable pub kill_group_node : ℕ → ℕ → Turn (Unit {0})
  kill_group_node range_id node_id = on_group range_id (λ c. g.kill_node c node_id)

  unfoldable pub restart_group_node : ℕ → ℕ → Turn (Unit {0})
  restart_group_node range_id node_id = on_group range_id (λ c. g.restart_node c node_id)

  unfoldable pub move_boundary : ℕ → ℕ → Bytes → Turn (Unit {0})
  move_boundary left_id right_id boundary =
      if left_id == right_id
      then fail (invalid_descriptor "boundary move requires two different ranges")
      else do
        left ← reads (λ s. descriptor s left_id)
        right ← reads (λ s. descriptor s right_id)
        modify (λ s. record s {
          authoritative =
              BTreeMap.insert
                (BTreeMap.insert s.authoritative left_id (record left {
                  end = some boundary;
                  epoch = left.epoch + 1;
                  leader_hint = current_leader s left_id;
                }))
                right_id
                (record right {
                  start = boundary;
                  epoch = right.epoch + 1;
                  leader_hint = current_leader s right_id;
                });
        })
