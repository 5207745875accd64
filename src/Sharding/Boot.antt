-- ===== src/Sharding/Boot.antt =====
-- A bootstrapped `ShardedCluster` of sharding.rs: its ranges are apart, and stay so.
use helixdb.Prelude.{ℕ, Option, ◌≡◌, subst, inl, inr, Result-cases, some, List, [], ◌∷◌, ok, arith}
use helixdb.Prelude.Order.{nat_ord}
use helixdb.BTreeMap
use helixdb.BTreeMap.{BTreeMap}
use helixdb.BTreeMap.Laws.{get-insert_cases}
use helixdb.Sharding.Range.{RangeDescriptor, contains, validate_non_overlapping, sort_by_start}
use helixdb.Sharding.Apart.{DisjointFrom, Apart, sort_by_start-Apart}
use helixdb.Sharding.Group.{RaftCluster}
use helixdb.Sharding.Cluster.{ShardedCluster}
use helixdb.Sharding.Exclusive.{Exclusive, Exclusive-insert}
use helixdb.Sharding.Invariant.{IsApart}
use helixdb.Sharding.Calls.{Call, AllCurrent, calls, calls-IsApart}
use helixdb.Sharding.Bootstrap.{enter, enter_all, no_ranges, bootstrap_with_ranges}

module _ {C : Type 0} (g : RaftCluster C) where
  -- What has entered is apart from what is still to enter.
  record Ahead (m : BTreeMap ℕ RangeDescriptor) (ds : List RangeDescriptor) : Type 0 where
    ahead : (i : ℕ) (d : RangeDescriptor) → BTreeMap.get m i ≡ some d → DisjointFrom d ds

  -- The hint of a leader changes no bound.
  hinted-DisjointFrom :
      (d : RangeDescriptor) (leader : Option ℕ) (ds : List RangeDescriptor)
      → DisjointFrom d ds
      → DisjointFrom (record d { leader_hint = leader }) ds
  unfolding contains
  hinted-DisjointFrom d leader [] h = tt
  hinted-DisjointFrom d leader (e ∷ es) h =
      (record { outside = h.0.outside }, hinted-DisjointFrom d leader es h.1)

  enter-Ahead :
      (d : RangeDescriptor) (ds : List RangeDescriptor) (c : C) (s : ShardedCluster C)
      → Apart (d ∷ ds)
      → Ahead s.authoritative (d ∷ ds)
      → Ahead (enter g d c s).authoritative ds
  unfolding enter
  enter-Ahead d ds c s a h = record {
    ahead = λ i e q. elim (get-insert_cases s.authoritative d.range_id i _ e q) [
      | inl (b, old) ↦
          subst (λ x. DisjointFrom x ds) old (hinted-DisjointFrom d (g.leader_id c) ds a.0)
      | inr (b, old) ↦ (h.ahead i e old).1
    ];
  }

  enter-Exclusive :
      (d : RangeDescriptor) (ds : List RangeDescriptor) (c : C) (s : ShardedCluster C)
      → Ahead s.authoritative (d ∷ ds)
      → Exclusive s.authoritative
      → Exclusive (enter g d c s).authoritative
  unfolding enter contains
  enter-Exclusive d ds c s h x =
      Exclusive-insert s.authoritative d.range_id (record d { leader_hint = g.leader_id c }) x
        (record { fits = λ i e far q. record { outside = (h.ahead i e q).0.outside } })

  enter_all-Exclusive :
      (ds : List RangeDescriptor) (s t : ShardedCluster C)
      → enter_all g ds s ≡ ok t
      → Apart ds
      → Ahead s.authoritative ds
      → Exclusive s.authoritative
      → Exclusive t.authoritative
  unfolding enter_all
  enter_all-Exclusive [] s t h a b x =
      subst (λ (r : ShardedCluster C). Exclusive r.authoritative) {x = s} {y = t}
        (ground (arith, h)) x
  enter_all-Exclusive (d ∷ ds) s t h a b x =
      elim (Result-cases (g.bootstrap d.range_id s.nodes_per_group)) [
        | inr (e, q) ↦ absurd (ground (arith, q, h))
        | inl (c, q) ↦
            enter_all-Exclusive ds (enter g d c s) t (ground (arith, q, h)) a.1
              (enter-Ahead d ds c s a b) (enter-Exclusive d ds c s b x)
      ]

  no_ranges-Ahead : (n k : ℕ) (ds : List RangeDescriptor) → Ahead (no_ranges g n k).authoritative ds
  unfolding no_ranges BTreeMap.get
  no_ranges-Ahead n k ds = record { ahead = λ i d q. absurd cc }

  no_ranges-Exclusive : (n k : ℕ) → Exclusive (no_ranges g n k).authoritative
  unfolding no_ranges BTreeMap.get
  no_ranges-Exclusive n k = record { apart = λ i j d e far p q. absurd cc }

  -- The ranges of the authority are apart after the bootstrap.
  bootstrap_with_ranges-IsApart :
      (descriptors : List RangeDescriptor) (n threshold : ℕ) (s : ShardedCluster C)
      → bootstrap_with_ranges g descriptors n threshold ≡ ok s
      → IsApart g s
  unfolding bootstrap_with_ranges
  bootstrap_with_ranges-IsApart descriptors n threshold s h =
      elim (Result-cases (validate_non_overlapping (sort_by_start descriptors))) [
        | inr (why, q) ↦ absurd (ground (arith, q, h))
        | inl (u, q) ↦
            elim (Result-cases
              (enter_all g (sort_by_start descriptors) (no_ranges g n threshold))) [
                | inr (why, r) ↦ absurd (ground (arith, q, r, h))
                | inl (t, r) ↦ record {
                  exclusive = subst Exclusive (ground (arith, q, r, h)) (
                      enter_all-Exclusive (sort_by_start descriptors) (no_ranges g n threshold) t r
                        (sort_by_start-Apart descriptors cc) (no_ranges-Ahead n threshold _)
                        (no_ranges-Exclusive n threshold));
                }
              ]
      ]

  -- If `bootstrap_with_ranges` gives a cluster, and then routed reads and writes, splits, new
  -- epochs, refreshes, and nodes that are added, removed, killed and restarted run one after the
  -- other, whichever of them fail, where others may also run between the two parts of
  -- `split_range_at`, and if, whenever such a second part runs apart from its first one, its range
  -- has the bounds that the first part has read, then no key is in the descriptors that the
  -- authority has at two different ids.
  pub bootstrap_with_ranges-calls-Exclusive :
      (descriptors : List RangeDescriptor) (n threshold : ℕ) (s : ShardedCluster C) (cs : List Call)
      → bootstrap_with_ranges g descriptors n threshold ≡ ok s
      → AllCurrent g cs s
      → Exclusive (calls g cs s).authoritative
  bootstrap_with_ranges-calls-Exclusive descriptors n threshold s cs h k =
      (calls-IsApart g cs s k (bootstrap_with_ranges-IsApart descriptors n threshold s h)).exclusive
