-- ===== src/Bloom/Bits.antt =====
-- Setting a bit and testing one.
use Prim.Native.Nat.{bit_or, bit_and}
use helixdb.Prelude.{
  ℕ, zero, suc, ◌*◌, ◌/◌, ◌%◌, ◌^◌, ◌<◌, ◌≡◌, ◌≢◌, refl, ap, sym, Bool, true, false, not, ◌&&◌,
  ◌||◌, [], ◌∷◌, length, set, ltb, ◌==◌, arith, All,
}
use native.Mathlib.Decide.{ℕ_discrete}
use helixdb.Prelude.Bytes.{Bytes}
use helixdb.Bloom.{byte_at, set_bit, bit_is_clear}

-- A test of each number below a bound, the law being finite.
each_below : (ℕ → Bool) → ℕ → Bool
each_below test zero = true
each_below test (suc bound) = each_below test bound && test bound

each_below-test :
    (test : ℕ → Bool) (bound : ℕ)
    → each_below test bound ≡ true
    → (i : ℕ) → i < bound
    → test i ≡ true
unfolding each_below
each_below-test test zero all i below = elim below [ ]
each_below-test test (suc bound) all i below = elim (ℕ_discrete i bound) [
  | yes e ↦ ground (arith, e)
  | no ne ↦ ground (arith, each_below-test test bound (ground (arith, all)) i (omega arith))
]

-- Of a byte `b` and bits `i`, `j`: setting `i` gives a byte, sets `i`, and clears no bit `j`.
abbrev bit_law : ℕ → ℕ → ℕ → Bool
bit_law i j b =
    let after = bit_or b (2 ^ i) in
    ltb after 256
    && (not (bit_and after (2 ^ i) == 0)
        && (bit_and b (2 ^ j) == 0 || not (bit_and after (2 ^ j) == 0)))

bit_table : each_below (λ i. each_below (λ j. each_below (bit_law i j) 256) 8) 8 ≡ true
unfolding each_below
bit_table = refl

bit_law_holds : (i j b : ℕ) → i < 8 → j < 8 → b < 256 → bit_law i j b ≡ true
bit_law_holds i j b hi hj hb =
    let row =
      each_below-test (λ i'. each_below (λ j'. each_below (bit_law i' j') 256) 8) 8 bit_table i
        hi in
    let column = each_below-test (λ j'. each_below (bit_law i j') 256) 8 row j hj in
    each_below-test (bit_law i j) 256 column b hb

abbrev pub IsByte : ℕ → Type 0
IsByte b = b < 256

byte_at-set : (bs : Bytes) (i v : ℕ) → i < length bs → byte_at (set bs i v) i ≡ v
byte_at-set [] i v h = elim h [ ]
byte_at-set (b ∷ bs) zero v h = refl
byte_at-set (b ∷ bs) (suc i) v h = byte_at-set bs i v (omega arith)

byte_at-set_ne : (bs : Bytes) (i j v : ℕ) → i ≢ j → byte_at (set bs i v) j ≡ byte_at bs j
byte_at-set_ne [] i j v h = refl
byte_at-set_ne (b ∷ bs) zero zero v h = absurd (h refl)
byte_at-set_ne (b ∷ bs) zero (suc j) v h = refl
byte_at-set_ne (b ∷ bs) (suc i) zero v h = refl
byte_at-set_ne (b ∷ bs) (suc i) (suc j) v h = byte_at-set_ne bs i j v (λ e. h (ap suc e))

byte_at-IsByte : (bs : Bytes) (i : ℕ) → All IsByte bs → IsByte (byte_at bs i)
byte_at-IsByte [] i h = omega arith
byte_at-IsByte (b ∷ bs) zero h = h.0
byte_at-IsByte (b ∷ bs) (suc i) h = byte_at-IsByte bs i h.1

All-set : (bs : Bytes) (i v : ℕ) → IsByte v → All IsByte bs → All IsByte (set bs i v)
All-set [] i v hv h = tt
All-set (b ∷ bs) zero v hv h = (hv, h.1)
All-set (b ∷ bs) (suc i) v hv h = (h.0, All-set bs i v hv h.1)

length-set : (bs : Bytes) (i v : ℕ) → length (set bs i v) ≡ length bs
length-set [] i v = refl
length-set (b ∷ bs) zero v = refl
length-set (b ∷ bs) (suc i) v = ap suc (length-set bs i v)

-- The parts of the table's law.
or_IsByte : (i b : ℕ) → i < 8 → b < 256 → IsByte (bit_or b (2 ^ i))
or_IsByte i b hi hb = ground (arith, bit_law_holds i i b hi hi hb)

or_sets : (i b : ℕ) → i < 8 → b < 256 → (bit_and (bit_or b (2 ^ i)) (2 ^ i) == 0) ≡ false
or_sets i b hi hb = ground (arith, bit_law_holds i i b hi hi hb)

or_keeps :
    (i j b : ℕ)
    → i < 8
    → j < 8
    → b < 256
    → (bit_and b (2 ^ j) == 0) ≡ false
    → (bit_and (bit_or b (2 ^ i)) (2 ^ j) == 0) ≡ false
or_keeps i j b hi hj hb h = ground (arith, bit_law_holds i j b hi hj hb)

module _ (bits : Bytes) (idx : ℕ) (bytes : All IsByte bits) where
  pub set_bit-IsByte : All IsByte (set_bit bits idx)
  unfolding set_bit
  set_bit-IsByte =
      All-set bits (idx / 8) _
        (or_IsByte (idx % 8) (byte_at bits (idx / 8)) (omega arith)
          (byte_at-IsByte bits (idx / 8) bytes))
        bytes

  pub set_bit_sets : idx < length bits * 8 → bit_is_clear (set_bit bits idx) idx ≡ false
  unfolding set_bit bit_is_clear
  set_bit_sets h =
      rw
        (byte_at-set bits (idx / 8) (bit_or (byte_at bits (idx / 8)) (2 ^ (idx % 8))) (omega arith))
        (or_sets (idx % 8) (byte_at bits (idx / 8)) (omega arith)
          (byte_at-IsByte bits (idx / 8) bytes))

  pub set_bit_keeps :
      (j : ℕ)
      → idx < length bits * 8
      → bit_is_clear bits j ≡ false
      → bit_is_clear (set_bit bits idx) j ≡ false
  unfolding set_bit bit_is_clear
  set_bit_keeps j h k = elim (ℕ_discrete (idx / 8) (j / 8)) [
    | yes e ↦
        let old = byte_at bits (idx / 8) in
        let new = bit_or old (2 ^ (idx % 8)) in
        rw (← e, byte_at-set bits (idx / 8) new (omega arith))
          (or_keeps (idx % 8) (j % 8) old (omega arith) (omega arith)
            (byte_at-IsByte bits (idx / 8) bytes) (rw (sym e) at k))
    | no ne ↦ rw (byte_at-set_ne bits (idx / 8) (j / 8) _ ne) k
  ]

pub length-set_bit : (bits : Bytes) (idx : ℕ) → length (set_bit bits idx) ≡ length bits
unfolding set_bit
length-set_bit bits idx = length-set bits (idx / 8) _
