-- ===== src/Prelude/Bytes.antt =====
-- Byte strings: `to_le_bytes`, `from_le_bytes`, and reading from the front of a buffer.
use Prim.Native.Nat.{ℕ, zero, suc, ◌+◌, ◌*◌, ◌/◌, ◌%◌, ◌^◌, ◌<◌}
use mathlib.Core.Path.{◌≡◌, refl, ap}
use mathlib.Core.List.{List, [], ◌∷◌, ◌++◌}
use mathlib.Core.Option.{Option, none, some}
use native.Mathlib.Omega.{arith}
use native.Mathlib.Nat.{pow-suc}
use mathlib.Core.Logic.{inl, inr}
use helixdb.Prelude.Tests.{Option-cases}
use helixdb.Prelude.Lists.{length, take, drop, take-append_self, drop-append_self}

abbrev pub Bytes : Type 0
Bytes = List ℕ

-- the `n` low bytes of `x`, the lowest first
unfoldable pub le_bytes : ℕ → ℕ → Bytes
le_bytes zero x = []
le_bytes (suc n) x = x % 256 ∷ le_bytes n (x / 256)

unfoldable pub from_le_bytes : Bytes → ℕ
from_le_bytes [] = 0
from_le_bytes (b ∷ bs) = b + 256 * from_le_bytes bs

pub length-le_bytes : (n x : ℕ) → length (le_bytes n x) ≡ n
unfolding le_bytes
length-le_bytes zero x = refl
length-le_bytes (suc n) x = ap suc (length-le_bytes n (x / 256))

pub from_le_bytes-le_bytes : (n x : ℕ) → x < 256 ^ n → from_le_bytes (le_bytes n x) ≡ x
unfolding le_bytes from_le_bytes
from_le_bytes-le_bytes zero x h = omega arith
from_le_bytes-le_bytes (suc n) x h =
    omega (arith, from_le_bytes-le_bytes n (x / 256) (omega (arith, pow-suc 256 n)))

-- `read_exact` into a buffer of `n` bytes; `none` is the error `UnexpectedEof`
unfoldable pub read_exact : ℕ → Bytes → Option (Bytes × Bytes)
read_exact zero bs = some ([], bs)
read_exact (suc n) [] = none
read_exact (suc n) (b ∷ bs) = elim (read_exact n bs) [
  | none ↦ none
  | some (front, rest) ↦ some (b ∷ front, rest)
]

pub read_exact-append : (xs ys : Bytes) → read_exact (length xs) (xs ++ ys) ≡ some (xs, ys)
unfolding read_exact
read_exact-append [] ys = refl
read_exact-append (x ∷ xs) ys = rw (read_exact-append xs ys, read_exact)

-- What was read, followed by what is left, is the buffer.
pub read_exact_parts :
    (n : ℕ) (bs front rest : Bytes)
    → read_exact n bs ≡ some (front, rest)
    → (bs ≡ front ++ rest) × (length front ≡ n)
unfolding read_exact
read_exact_parts zero bs front rest h = ground arith
read_exact_parts (suc n) [] front rest h = ground arith
read_exact_parts (suc n) (b ∷ bs) front rest h = elim (Option-cases (read_exact n bs)) [
  | inl stop ↦ ground arith
  | inr (p, go) ↦ let (e, l) = read_exact_parts n bs p.0 p.1 go in ground (arith, e, l, go)
]

pub read_exact_extend :
    (n : ℕ) (bs more front rest : Bytes)
    → read_exact n bs ≡ some (front, rest)
    → read_exact n (bs ++ more) ≡ some (front, rest ++ more)
unfolding read_exact
read_exact_extend zero bs more front rest h = ground arith
read_exact_extend (suc n) [] more front rest h = ground arith
read_exact_extend (suc n) (b ∷ bs) more front rest h = elim (Option-cases (read_exact n bs)) [
  | inl stop ↦ ground arith
  | inr (p, go) ↦ ground (arith, go, read_exact_extend n bs more p.0 p.1 go)
]

pub take_le : (n x : ℕ) (bs : Bytes) → take n (le_bytes n x ++ bs) ≡ le_bytes n x
take_le n x bs = rw (length-le_bytes n x) at (take-append_self (le_bytes n x) bs)

pub drop_le : (n x : ℕ) (bs : Bytes) → drop n (le_bytes n x ++ bs) ≡ bs
drop_le n x bs = rw (length-le_bytes n x) at (drop-append_self (le_bytes n x) bs)
