-- ===== src/Sharding/Calls.antt =====
-- Calls of the methods of `ShardedCluster`, one after the other. `split_range_at` reads the descriptor
-- before it takes its lock: `split_call` is the whole method, with nothing between the two, and
-- `finish_split_call` is the part behind the lock, which others may separate from the reading. `move_range` and `move_boundary`, whose arguments are not checked
-- against the other ranges, are not among them.
use helixdb.Prelude.{ℕ, sym, subst, inl, inr, Result-cases, Bool-cases, List, [], ◌∷◌, ok, arith}
use helixdb.Prelude.Bytes.{Bytes}
use helixdb.Prelude.Order.{nat_ord, bytes_ord}
use helixdb.Prelude.Stateful.{pure, ◌>>=◌, ◌>>◌, modify}
use helixdb.Prelude.Triples.{reads-Triple}
use helixdb.BTreeMap
use helixdb.BTreeMap.{BTreeMap}
use helixdb.Errors.{DbResult}
use helixdb.Sharding.Range.{RangeDescriptor, is_retryable}
use helixdb.Sharding.Group.{RaftCluster}
use helixdb.Sharding.Halves.{HasBounds}
use helixdb.Sharding.Invariant.{
  IsApart, finish_split_range_at-IsApart, split_range_at-IsApart, split_hot_range-IsApart,
}
use helixdb.Sharding.Cluster.{
  ShardedCluster, Turn, on_group, descriptor, cache, route_to, route_descriptor_for_key,
  authoritative_descriptor_for_key, refresh_descriptor, bump_range_epoch,
  bump_descriptor_after_membership_change, add_group_node, remove_group_node, kill_group_node,
  restart_group_node,
}
use helixdb.Sharding.Split.{finish_split_range_at, split_range_at, split_hot_range}
use helixdb.Sharding.Route.{
  route_put, route_delete, route_get, refresh_descriptor_for_key, retry, put, delete, get,
}
use helixdb.Sharding.Keeps.{
  Keeps, on_group-Keeps, update_descriptor-Keeps, route_to-Keeps, bind_Keeps, read_Keeps,
  then_Keeps, cached_Keeps, bump_membership-Keeps, route_put_with_descriptor-Keeps,
  route_delete_with_descriptor-Keeps, route_get_with_descriptor-Keeps,
}

pub data Call : Type 0 where
  put_call : Bytes → Bytes → Call
  delete_call : Bytes → Call
  get_call : Bytes → Call
  route_put_call : Bytes → Bytes → Call
  route_delete_call : Bytes → Call
  route_get_call : Bytes → Call
  finish_split_call : ℕ → Bytes → RangeDescriptor → Call
  split_call : ℕ → Bytes → Call
  split_hot_call : ℕ → Call
  bump_call : ℕ → Call
  refresh_call : ℕ → Call
  add_node_call : ℕ → ℕ → Call
  remove_node_call : ℕ → ℕ → Call
  kill_node_call : ℕ → ℕ → Call
  restart_node_call : ℕ → ℕ → Call

module _ {C : Type 0} (g : RaftCluster C) where
  -- The state behind a call, also one that fails.
  unfoldable pub call : Call → ShardedCluster C → ShardedCluster C
  call (put_call key value) s = (put g key value s).0
  call (delete_call key) s = (delete g key s).0
  call (get_call key) s = (get g key s).0
  call (route_put_call key value) s = (route_put g key value s).0
  call (route_delete_call key) s = (route_delete g key s).0
  call (route_get_call key) s = (route_get g key s).0
  call (finish_split_call id boundary d) s = (finish_split_range_at g id boundary d s).0
  call (split_call id boundary) s = (split_range_at g id boundary s).0
  call (split_hot_call id) s = (split_hot_range g id s).0
  call (bump_call id) s = (bump_range_epoch g id s).0
  call (refresh_call id) s = (refresh_descriptor g id s).0
  call (add_node_call id node) s = (add_group_node g id node s).0
  call (remove_node_call id node) s = (remove_group_node g id node s).0
  call (kill_node_call id node) s = (kill_group_node g id node s).0
  call (restart_node_call id node) s = (restart_group_node g id node s).0

  -- When the second step of `split_range_at` runs, the range still has the bounds that were read.
  abbrev pub IsCurrent : Call → ShardedCluster C → Type 0
  IsCurrent (finish_split_call id boundary d) s = HasBounds s.authoritative id d
  IsCurrent c s = Unit

  unfoldable pub calls : List Call → ShardedCluster C → ShardedCluster C
  calls [] s = s
  calls (c ∷ cs) s = calls cs (call c s)

  abbrev pub AllCurrent : List Call → ShardedCluster C → Type 0
  AllCurrent [] s = Unit
  AllCurrent (c ∷ cs) s = IsCurrent c s × AllCurrent cs (call c s)

  route_Keeps :
      {A : Type 0} (key : Bytes) (t : RangeDescriptor → Turn g A)
      → ((d : RangeDescriptor) → Keeps g (t d))
      → Keeps g (route_descriptor_for_key g key >>= t)
  unfolding route_descriptor_for_key
  route_Keeps key t h =
      bind_Keeps g (route_descriptor_for_key g key) t
        (read_Keeps g (λ s. authoritative_descriptor_for_key g s key) (route_to g key)
          (route_to-Keeps g key))
        h

  -- The second attempt.
  again_Keeps :
      {A : Type 0} (key : Bytes) (once : Turn g A)
      → Keeps g once
      → Keeps g (refresh_descriptor_for_key g key >>= λ d. once)
  unfolding refresh_descriptor_for_key cache
  again_Keeps key once h =
      bind_Keeps g (refresh_descriptor_for_key g key) (λ d. once)
        (read_Keeps g (λ s. authoritative_descriptor_for_key g s key) _
          (λ d.
            then_Keeps g (modify (cache g d)) (pure d)
              (cached_Keeps g (λ s. BTreeMap.insert s.cached d.range_id d))
              (reads-Triple (IsApart g) (λ s. ok d))))
        (λ d. h)

  refresh_descriptor-Keeps : (id : ℕ) → Keeps g (refresh_descriptor g id)
  unfolding refresh_descriptor
  refresh_descriptor-Keeps id =
      read_Keeps g (λ s. descriptor g s id) _
        (λ d.
          then_Keeps g (modify (λ s. record s { cached = BTreeMap.insert s.cached id d })) (pure d)
            (cached_Keeps g (λ s. BTreeMap.insert s.cached id d))
            (reads-Triple (IsApart g) (λ s. ok d)))

  -- A change of the members, and a new epoch.
  member_Keeps :
      (id : ℕ) (method : C → C × DbResult (Unit {0}))
      → Keeps g (on_group g id method >> bump_descriptor_after_membership_change g id)
  member_Keeps id method =
      then_Keeps g (on_group g id method) (bump_descriptor_after_membership_change g id)
        (on_group-Keeps g id method) (bump_membership-Keeps g id)

  retry-Keeps :
      {A : Type 0} (key : Bytes) (once : Turn g A) → Keeps g once → Keeps g (retry g key once)
  unfolding retry
  retry-Keeps {A} key once h = record {
    leads = λ s p. elim (Result-cases (once s).1) [
      | inl (a, e) ↦ subst (IsApart g) (sym (ground (arith, e))) (h.leads s p)
      | inr (why, e) ↦ elim (Bool-cases (is_retryable why)) [
        | inl r ↦
            subst (IsApart g) (sym (ground (arith, e, r)))
              ((again_Keeps key once h).leads (once s).0 (h.leads s p))
        | inr r ↦ subst (IsApart g) (sym (ground (arith, e, r))) (h.leads s p)
      ]
    ];
  }

  Keeps_all :
      (c : Call) → (s : ShardedCluster C) → IsCurrent c s → IsApart g s → IsApart g (call c s)
  unfolding call put delete get route_put route_delete route_get bump_range_epoch kill_group_node
      restart_group_node add_group_node remove_group_node
  Keeps_all (put_call key value) s k =
      (retry-Keeps key (route_put g key value)
          (route_Keeps key _ (route_put_with_descriptor-Keeps g key value))).leads
        s
  Keeps_all (delete_call key) s k =
      (retry-Keeps key (route_delete g key)
          (route_Keeps key _ (route_delete_with_descriptor-Keeps g key))).leads
        s
  Keeps_all (get_call key) s k =
      (retry-Keeps key (route_get g key)
          (route_Keeps key _ (route_get_with_descriptor-Keeps g key))).leads
        s
  Keeps_all (route_put_call key value) s k =
      (route_Keeps key _ (route_put_with_descriptor-Keeps g key value)).leads s
  Keeps_all (route_delete_call key) s k =
      (route_Keeps key _ (route_delete_with_descriptor-Keeps g key)).leads s
  Keeps_all (route_get_call key) s k =
      (route_Keeps key _ (route_get_with_descriptor-Keeps g key)).leads s
  Keeps_all (finish_split_call id boundary d) s k =
      finish_split_range_at-IsApart g id boundary d s k
  Keeps_all (split_call id boundary) s k = (split_range_at-IsApart g id boundary).leads s
  Keeps_all (split_hot_call id) s k = (split_hot_range-IsApart g id).leads s
  Keeps_all (bump_call id) s k = (update_descriptor-Keeps g id).leads s
  Keeps_all (refresh_call id) s k = (refresh_descriptor-Keeps id).leads s
  Keeps_all (add_node_call id node) s k = (member_Keeps id (λ c. g.add_node c node)).leads s
  Keeps_all (remove_node_call id node) s k = (member_Keeps id (λ c. g.remove_node c node)).leads s
  Keeps_all (kill_node_call id node) s k = (on_group-Keeps g id (λ c. g.kill_node c node)).leads s
  Keeps_all (restart_node_call id node) s k =
      (on_group-Keeps g id (λ c. g.restart_node c node)).leads s

  pub calls-IsApart :
      (cs : List Call) (s : ShardedCluster C)
      → AllCurrent cs s
      → IsApart g s
      → IsApart g (calls cs s)
  unfolding calls
  calls-IsApart [] s k h = h
  calls-IsApart (c ∷ cs) s k h = calls-IsApart cs (call c s) k.1 (Keeps_all c s k.0 h)
