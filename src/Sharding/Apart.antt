-- ===== src/Sharding/Apart.antt =====
-- `sort_by` and `validate_non_overlapping` of sharding.rs: what the test of neighbours says of all
-- pairs.
use helixdb.Prelude.{
  ◌≡◌, inl, inr, Option-cases, Result-cases, true, false, some, List, [], ◌∷◌, ok, arith,
}
use helixdb.Prelude.Bytes.{Bytes}
use helixdb.Prelude.Branches.{if_both, if_cases}
use helixdb.Prelude.Order.{bytes_ord, less, le_trans, le_of_less, less_irrefl}
use helixdb.Sharding.Range.{
  RangeDescriptor, contains, check_window, validate_non_overlapping, insert_by_start, sort_by_start,
}

-- No key is in both.
pub record Disjoint (d e : RangeDescriptor) : Type 0 where
  pub outside : (key : Bytes) → contains d key ≡ true → contains e key ≡ false

abbrev pub DisjointFrom : RangeDescriptor → List RangeDescriptor → Type 0
DisjointFrom d [] = Unit
DisjointFrom d (e ∷ es) = Disjoint d e × DisjointFrom d es

abbrev pub Apart : List RangeDescriptor → Type 0
Apart [] = Unit
Apart (d ∷ ds) = DisjointFrom d ds × Apart ds

-- No range begins before the bound.
abbrev AtLeast : Bytes → List RangeDescriptor → Type 0
AtLeast b [] = Unit
AtLeast b (d ∷ ds) = (less d.start b ≡ false) × AtLeast b ds

abbrev IsSorted : List RangeDescriptor → Type 0
IsSorted [] = Unit
IsSorted (d ∷ ds) = AtLeast d.start ds × IsSorted ds

AtLeast-trans :
    (a b : Bytes) (ds : List RangeDescriptor) → less b a ≡ false → AtLeast b ds → AtLeast a ds
AtLeast-trans a b [] h k = tt
AtLeast-trans a b (d ∷ ds) h k = (le_trans a b d.start h k.0, AtLeast-trans a b ds h k.1)

insert_by_start-AtLeast :
    (b : Bytes) (d : RangeDescriptor) (es : List RangeDescriptor)
    → less d.start b ≡ false
    → AtLeast b es
    → AtLeast b (insert_by_start d es)
unfolding insert_by_start
insert_by_start-AtLeast b d [] h k = (h, tt)
insert_by_start-AtLeast b d (e ∷ es) h k =
    if_both (AtLeast b) (less e.start d.start) (k.0, insert_by_start-AtLeast b d es h k.1) (h, k)

insert_by_start-IsSorted :
    (d : RangeDescriptor) (es : List RangeDescriptor)
    → IsSorted es
    → IsSorted (insert_by_start d es)
unfolding insert_by_start
insert_by_start-IsSorted d [] h = (tt, tt)
insert_by_start-IsSorted d (e ∷ es) h =
    if_cases IsSorted (less e.start d.start)
      (λ q. (
        insert_by_start-AtLeast e.start d es (le_of_less e.start d.start q) h.0,
        insert_by_start-IsSorted d es h.1,
      ))
      (λ q. ((q, AtLeast-trans d.start e.start es q h.0), h))

sort_by_start-IsSorted : (ds : List RangeDescriptor) → IsSorted (sort_by_start ds)
unfolding sort_by_start
sort_by_start-IsSorted [] = tt
sort_by_start-IsSorted (d ∷ ds) =
    insert_by_start-IsSorted d (sort_by_start ds) (sort_by_start-IsSorted ds)

-- A range that begins where the other has ended, or later.
Disjoint-later :
    (d e : RangeDescriptor) (end : Bytes)
    → d.end ≡ some end
    → less e.start end ≡ false
    → Disjoint d e
unfolding contains
Disjoint-later d e end h k = record {
  outside = λ key inside. ground (arith, h, inside, le_trans end e.start key k);
}

DisjointFrom-later :
    (d : RangeDescriptor) (end b : Bytes) (es : List RangeDescriptor)
    → d.end ≡ some end
    → less b end ≡ false
    → AtLeast b es
    → DisjointFrom d es
DisjointFrom-later d end b [] h k l = tt
DisjointFrom-later d end b (e ∷ es) h k l =
    (Disjoint-later d e end h (le_trans end b e.start k l.0), DisjointFrom-later d end b es h k l.1)

record Closed (d : RangeDescriptor) (b : Bytes) : Type 0 where
  end : Bytes
  is_end : d.end ≡ some end
  before : less b end ≡ false

check_window-Closed : (d e : RangeDescriptor) → check_window d e ≡ ok tt → Closed d e.start
unfolding check_window
check_window-Closed d e h = elim (Option-cases d.end) [
  | inl q ↦ ground (arith, q, h)
  | inr (end, q) ↦ record { end = end; is_end = q; before = ground (arith, q, h) }
]

validate_non_overlapping-Apart :
    (ds : List RangeDescriptor) → IsSorted ds → validate_non_overlapping ds ≡ ok tt → Apart ds
unfolding validate_non_overlapping
validate_non_overlapping-Apart [] s h = tt
validate_non_overlapping-Apart (d ∷ []) s h = (tt, tt)
validate_non_overlapping-Apart (d ∷ e ∷ es) s h = elim (Result-cases (check_window d e)) [
  | inr (why, q) ↦ ground (arith, q, h)
  | inl (u, q) ↦
      let c = check_window-Closed d e (cc) in
      (
        DisjointFrom-later d c.end e.start (e ∷ es) c.is_end c.before (less_irrefl e.start, s.1.0),
        validate_non_overlapping-Apart (e ∷ es) s.1 (ground (arith, q, h)),
      )
]

-- Descriptors that pass the check of `bootstrap_with_ranges`: no key is in two of them.
pub sort_by_start-Apart :
    (ds : List RangeDescriptor)
    → validate_non_overlapping (sort_by_start ds) ≡ ok tt
    → Apart (sort_by_start ds)
sort_by_start-Apart ds h =
    validate_non_overlapping-Apart (sort_by_start ds) (sort_by_start-IsSorted ds) h
