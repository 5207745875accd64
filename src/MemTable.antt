-- ===== src/MemTable.antt =====
-- crates/helixdb-storage/src/memtable.rs. `usize` has 64 bits; the sum of the sizes of one entry is
-- below the size of memory and is not cut off, where the running total saturates as in the code.
pub mod Size
mod Tests
use helixdb.Prelude.{ℕ, ◌+◌, ◌-◌, ◌^◌, min, Bool, true, false, Option, none, some, [], ◌∷◌, length}
use helixdb.Prelude.Bytes.{Bytes}
use helixdb.Prelude.Order.{bytes_ord}
use helixdb.BTreeMap
use helixdb.BTreeMap.{BTreeMap}
use helixdb.Errors.{ValueEntry}
use helixdb.Wal.{WalRecord, value_len}

abbrev pub Entries : Type 0
Entries = BTreeMap Bytes ValueEntry

pub record MemTable : Type 0 where
  pub entries : Entries
  pub approximate_bytes : ℕ

abbrev pub default : MemTable
default = record { entries = []; approximate_bytes = 0 }

abbrev pub usize_max : ℕ
usize_max = 2 ^ 64 - 1

abbrev pub saturating_add : ℕ → ℕ → ℕ
saturating_add a b = min (a + b) usize_max

-- `self.entries.insert` returned the entry `existing`, or none: its size comes off the total first.
abbrev pub without_existing : Option ValueEntry → ℕ → ℕ
without_existing none total = total
without_existing (some existing) total = total - (value_len existing.value + 24)

unfoldable pub insert : MemTable → Bytes → Option Bytes → ℕ → MemTable
insert mt key value sequence =
    let replacement_size = length key + value_len value + 8 + 16 in
    record {
      entries = BTreeMap.insert mt.entries key (record { sequence = sequence; value = value });
      approximate_bytes =
          saturating_add (without_existing (BTreeMap.get mt.entries key) mt.approximate_bytes)
            replacement_size;
    }

unfoldable pub get : MemTable → Bytes → Option ValueEntry
get mt key = BTreeMap.get mt.entries key

abbrev pub is_empty : MemTable → Bool
is_empty mt = elim mt.entries [ [] ↦ true | e ∷ m ↦ false ]

unfoldable pub clear : MemTable → MemTable
clear mt = default

-- `ImmutableMemTable` holds the entries alone.
abbrev pub freeze : MemTable → Entries
freeze mt = mt.entries

unfoldable pub apply_record : MemTable → WalRecord → MemTable
apply_record mt r = insert mt r.key r.value r.sequence
