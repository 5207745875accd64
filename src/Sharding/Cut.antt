-- ===== src/Sharding/Cut.antt =====
-- Where `split_range_at_locked_descriptor` of sharding.rs cuts the entries of a range.
use helixdb.Prelude.{◌≡◌, false, true, ◌++◌, All}
use helixdb.Prelude.Bytes.{Bytes}
use helixdb.BTreeMap.{BTreeMap}
use helixdb.Sharding.Range.{RangeDescriptor, contains}
use helixdb.Sharding.Cluster.{items_below, items_from, is_empty}

module _ (d : RangeDescriptor) (boundary : Bytes) where
  -- The entries of the left and of the right range are those of the whole one, in their order, there
  -- are some of both, and each is where the descriptor sends its key.
  pub record IsCut (l : BTreeMap Bytes Bytes) (left right : RangeDescriptor) : Type 0 where
    pub whole : l ≡ items_below boundary l ++ items_from boundary l
    pub some_left : is_empty (items_below boundary l) ≡ false
    pub some_right : is_empty (items_from boundary l) ≡ false
    pub routed_left : All (λ p. contains left p.0 ≡ true) (items_below boundary l)
    pub routed_right : All (λ p. contains right p.0 ≡ true) (items_from boundary l)
