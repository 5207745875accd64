-- ===== src/Db/Merge.antt =====
-- Merging sorted tables in the two ways of lib.rs: `all_entries` inserts the oldest first and
-- overwrites, `compact` takes the newest first and keeps what is there.
use helixdb.Prelude.{
  ◌≡◌, refl, sym, ◌∙◌, ap, inl, inr, Bool, true, false, Option, none, some, List, [], ◌∷◌, ◌++◌,
  if◌then◌else◌, All, arith, Bool-cases,
}
use helixdb.Prelude.Bytes.{Bytes}
use helixdb.Prelude.Order.{bytes_ord, eqb, eq_of_eqb}
use helixdb.BTreeMap
use helixdb.BTreeMap.{extend, contains_key}
use helixdb.BTreeMap.Laws.{get-insert, get-cons, last_of, get-extend}
use helixdb.BTreeMap.Sorted.{IsSorted, insert-IsSorted, extend-IsSorted, get-Above, IsSorted-ext}
use helixdb.Errors.{ValueEntry}
use helixdb.MemTable.{Entries}
use helixdb.Db.{or_insert, or_insert_all, reverse}

-- The first of two that is there.
abbrev pub or_else {ℓ} : {A : Type ℓ} → Option A → Option A → Option A
or_else none b = b
or_else (some a) b = some a

or_else_assoc {ℓ} :
    {A : Type ℓ} (a b c : Option A) → or_else (or_else a b) c ≡ or_else a (or_else b c)
or_else_assoc none b c = refl
or_else_assoc (some a) b c = refl

or_else-none {ℓ} : {A : Type ℓ} (a : Option A) → or_else a none ≡ a
or_else-none none = refl
or_else-none (some a) = refl

or_else-if {ℓ} :
    {A : Type ℓ} (b : Bool) (v : A) (old next : Option A)
    → or_else (or_else old (if b then some v else none)) next
      ≡ or_else old (if b then some v else next)
or_else-if true v none next = refl
or_else-if false v none next = refl
or_else-if b v (some a) next = refl

abbrev first_of : List Entries → Bytes → Option ValueEntry
first_of [] key = none
first_of (l ∷ ls) key = or_else (BTreeMap.get l key) (first_of ls key)

first_of-append_one :
    (ls : List Entries) (l : Entries) (key : Bytes)
    → first_of (ls ++ l ∷ []) key ≡ or_else (first_of ls key) (BTreeMap.get l key)
first_of-append_one [] l key = or_else-none _
first_of-append_one (k ∷ ls) l key =
    rw (first_of-append_one ls l key) (sym (or_else_assoc (BTreeMap.get k key) _ _))

abbrev pub merge_all : Entries → List Entries → Entries
merge_all m [] = m
merge_all m (l ∷ ls) = merge_all (or_insert_all m l) ls

abbrev pub insert_all : Entries → List Entries → Entries
insert_all m [] = m
insert_all m (l ∷ ls) = insert_all (extend m l) ls

get-or_insert :
    (m : Entries) (k j : Bytes) (v : ValueEntry)
    → BTreeMap.get (or_insert m k v) j
      ≡ or_else (BTreeMap.get m j) (if eqb j k then some v else none)
unfolding or_insert
get-or_insert m k j v = elim (Bool-cases (eqb j k)) [
  | inl e ↦ ground (arith, e, get-insert m k j v, ap (λ i. BTreeMap.get m i) (eq_of_eqb j k e))
  | inr e ↦ ground (arith, e, get-insert m k j v)
]

get-or_insert_all :
    (m l : Entries) (j : Bytes)
    → BTreeMap.get (or_insert_all m l) j ≡ or_else (BTreeMap.get m j) (BTreeMap.get l j)
unfolding or_insert_all BTreeMap.get
get-or_insert_all m [] j = sym (or_else-none _)
get-or_insert_all m ((k, v) ∷ l) j =
    rw (get-or_insert_all (or_insert m k v) l j, get-or_insert m k j v, get-cons l k j v)
      (or_else-if (eqb j k) v (BTreeMap.get m j) (BTreeMap.get l j))

last_of_sorted :
    (l : Entries) (j : Bytes) (old : Option ValueEntry)
    → IsSorted l
    → last_of l j old ≡ or_else (BTreeMap.get l j) old
unfolding BTreeMap.get
last_of_sorted [] j old s = refl
last_of_sorted ((k, v) ∷ l) j old s =
    rw (last_of_sorted l j (if eqb j k then some v else old) s.1, get-cons l k j v)
      (elim (Bool-cases (eqb j k)) [
        | inl e ↦
            let gone : BTreeMap.get l j ≡ none = rw (eq_of_eqb j k e) (get-Above k l s.0) in
            rw (e, gone) refl
        | inr e ↦ rw e refl
      ])

get-merge_all :
    (m : Entries) (ls : List Entries) (j : Bytes)
    → BTreeMap.get (merge_all m ls) j ≡ or_else (BTreeMap.get m j) (first_of ls j)
get-merge_all m [] j = sym (or_else-none _)
get-merge_all m (l ∷ ls) j =
    rw (get-merge_all (or_insert_all m l) ls j, get-or_insert_all m l j)
      (or_else_assoc (BTreeMap.get m j) _ _)

get-insert_all :
    (m : Entries) (ls : List Entries) (j : Bytes)
    → All IsSorted ls
    → BTreeMap.get (insert_all m ls) j ≡ or_else (first_of (reverse ls) j) (BTreeMap.get m j)
get-insert_all m [] j s = refl
get-insert_all m (l ∷ ls) j (s, ss) =
    rw
      (
        get-insert_all (extend m l) ls j ss,
        get-extend m l j,
        last_of_sorted l j (BTreeMap.get m j) s,
        first_of-append_one (reverse ls) l j,
      )
      (sym (or_else_assoc (first_of (reverse ls) j) _ _))

or_insert-IsSorted :
    (m : Entries) (k : Bytes) (v : ValueEntry) → IsSorted m → IsSorted (or_insert m k v)
unfolding or_insert
or_insert-IsSorted m k v s = elim (Bool-cases (contains_key m k)) [
  | inl e ↦ rw e s
  | inr e ↦ rw e (insert-IsSorted m k v s)
]

or_insert_all-IsSorted : (m l : Entries) → IsSorted m → IsSorted (or_insert_all m l)
unfolding or_insert_all
or_insert_all-IsSorted m [] s = s
or_insert_all-IsSorted m ((k, v) ∷ l) s =
    or_insert_all-IsSorted (or_insert m k v) l (or_insert-IsSorted m k v s)

pub merge_all-IsSorted : (m : Entries) (ls : List Entries) → IsSorted m → IsSorted (merge_all m ls)
merge_all-IsSorted m [] s = s
merge_all-IsSorted m (l ∷ ls) s =
    merge_all-IsSorted (or_insert_all m l) ls (or_insert_all-IsSorted m l s)

insert_all-IsSorted : (m : Entries) (ls : List Entries) → IsSorted m → IsSorted (insert_all m ls)
insert_all-IsSorted m [] s = s
insert_all-IsSorted m (l ∷ ls) s = insert_all-IsSorted (extend m l) ls (extend-IsSorted m l s)

-- The two ways of merging sorted tables give the same entries.
pub merge_all-eq-insert_all :
    (ls : List Entries) → All IsSorted ls → merge_all [] (reverse ls) ≡ insert_all [] ls
unfolding BTreeMap.get
merge_all-eq-insert_all ls s =
    IsSorted-ext _ _ (merge_all-IsSorted [] (reverse ls) tt) (insert_all-IsSorted [] ls tt)
      (λ key. get-merge_all [] (reverse ls) key ∙ sym (get-insert_all [] ls key s ∙ or_else-none _))

-- Inserting a sorted table into an empty one gives it back.
pub extend-nil : (m : Entries) → IsSorted m → extend [] m ≡ m
unfolding BTreeMap.get
extend-nil m s =
    IsSorted-ext _ _ (extend-IsSorted [] m tt) s
      (λ key. get-extend [] m key ∙ (last_of_sorted m key none s ∙ or_else-none _))
