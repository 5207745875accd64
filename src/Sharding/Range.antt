-- ===== src/Sharding/Range.antt =====
-- `RangeDescriptor`, `RangeRoutingError` and `validate_non_overlapping` of sharding.rs.
use helixdb.Prelude.{
  ℕ, Bool, true, false, Option, none, some, List, [], ◌∷◌, if◌then◌else◌, String, Result, ok, err,
}
use helixdb.Prelude.Bytes.{Bytes}
use helixdb.Prelude.Order.{bytes_ord, less}
use helixdb.Errors.{DbError}

pub record RangeDescriptor : Type 0 where
  pub range_id : ℕ
  pub start : Bytes
  pub end : Option Bytes
  pub epoch : ℕ
  pub raft_group_id : ℕ
  pub leader_hint : Option ℕ

unfoldable pub contains : RangeDescriptor → Bytes → Bool
contains d key =
    if less key d.start then false else elim d.end [ some end ↦ less key end | none ↦ true ]

-- `Internal` is two constructors, for a text and for the text of a `DbError`.
pub data RangeRoutingError : Type 0 where
  key_out_of_range : Bytes → RangeRoutingError
  range_moved : ℕ → ℕ → RangeRoutingError
  epoch_mismatch : ℕ → ℕ → ℕ → RangeRoutingError
  not_leader : ℕ → Option ℕ → Option ℕ → RangeRoutingError
  unknown_range : ℕ → RangeRoutingError
  invalid_descriptor : String → RangeRoutingError
  internal : String → RangeRoutingError
  internal_db : DbError → RangeRoutingError

abbrev pub ShardResult {ℓ} : Type ℓ → Type ℓ
ShardResult A = Result RangeRoutingError A

-- `map_err(RangeRoutingError::from)`
abbrev pub from_db {ℓ} : {A : Type ℓ} → Result DbError A → ShardResult A
from_db (ok a) = ok a
from_db (err e) = err (internal_db e)

unfoldable pub is_retryable : RangeRoutingError → Bool
is_retryable (range_moved i j) = true
is_retryable (epoch_mismatch i j k) = true
is_retryable (not_leader i a b) = true
is_retryable (key_out_of_range k) = false
is_retryable (unknown_range i) = false
is_retryable (invalid_descriptor m) = false
is_retryable (internal m) = false
is_retryable (internal_db e) = false

-- One window of two descriptors that stand next to each other.
unfoldable pub check_window : RangeDescriptor → RangeDescriptor → ShardResult (Unit {0})
check_window left right = elim left.end [
  | none ↦ err (invalid_descriptor "range must be the last descriptor when end is open")
  | some end ↦ if less right.start end then err (invalid_descriptor "ranges overlap") else ok tt
]

unfoldable pub validate_non_overlapping : List RangeDescriptor → ShardResult (Unit {0})
validate_non_overlapping [] = ok tt
validate_non_overlapping (d ∷ []) = ok tt
validate_non_overlapping (d ∷ e ∷ ds) = elim (check_window d e) [
  | err why ↦ err why
  | ok u ↦ validate_non_overlapping (e ∷ ds)
]

-- `sort_by(|left, right| left.start.cmp(&right.start))`, which is stable
unfoldable pub insert_by_start : RangeDescriptor → List RangeDescriptor → List RangeDescriptor
insert_by_start d [] = d ∷ []
insert_by_start d (e ∷ es) =
    let rest = insert_by_start d es in if less e.start d.start then e ∷ rest else d ∷ e ∷ es

unfoldable pub sort_by_start : List RangeDescriptor → List RangeDescriptor
sort_by_start [] = []
sort_by_start (d ∷ ds) = insert_by_start d (sort_by_start ds)
