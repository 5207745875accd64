-- ===== src/MemTable/Tests.antt =====
-- Runs of the memory table.
use helixdb.Prelude.{◌+◌, ◌≡◌, refl, none, some, [], ◌∷◌, arith}
use helixdb.Prelude.Bytes.{Bytes}
use helixdb.Prelude.Order.{bytes_cmp}
use helixdb.BTreeMap
use helixdb.MemTable.{MemTable, insert, get, default}
use helixdb.MemTable.Size.{IsValid, insert-IsValid, default-IsValid, overwrite_drift, total_size}

abbrev key : Bytes
key = 97 ∷ 98 ∷ []

abbrev one : MemTable
one = insert default key (some (1 ∷ [])) 1

one-IsValid : IsValid one
one-IsValid = insert-IsValid default key (some (1 ∷ [])) 1 (omega arith) default-IsValid

insert-IsValid_example : IsValid (insert default key (some (1 ∷ [])) 1)
insert-IsValid_example = insert-IsValid default key (some (1 ∷ [])) 1 (omega arith) default-IsValid

get-one : get one key ≡ some (record { sequence = 1; value = some (1 ∷ []) })
unfolding get insert BTreeMap.insert BTreeMap.get bytes_cmp
get-one = refl

bytes-one : one.approximate_bytes ≡ 27
unfolding insert BTreeMap.get
bytes-one = refl

overwrite_drift_example :
    ((insert one key none 2).approximate_bytes + 1 ≡ one.approximate_bytes + 2 + 0)
    × (total_size (insert one key none 2).entries + 1 ≡ total_size one.entries + 0)
overwrite_drift_example =
    overwrite_drift one key none 2 (record { sequence = 1; value = some (1 ∷ []) }) one-IsValid
      get-one (omega (arith, bytes-one))
