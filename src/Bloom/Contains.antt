-- ===== src/Bloom/Contains.antt =====
-- The filter has no false negatives.
use helixdb.Prelude.{
  ℕ, zero, suc, ◌+◌, ◌*◌, ◌/◌, max, ◌<◌, ◌≤◌, ◌≡◌, refl, ap, ◌∙◌, true, false, List, [], ◌∷◌,
  length, ◌==◌, arith, All, Bool-cases, inl, inr,
}
use helixdb.Prelude.Bytes.{Bytes}
use helixdb.Bloom.{
  BloomFilter, zeros, set_bit, bit_is_clear, bit_index, set_bits, test_bits, hash_pair, insert,
  might_contain, insert_all, from_keys,
}
use helixdb.Bloom.Bits.{IsByte, set_bit-IsByte, set_bit_sets, set_bit_keeps, length-set_bit}

-- Every bit below `bit_count` lies in some byte, and the bytes are bytes.
pub record IsValid (f : BloomFilter) : Type 0 where
  pub bytes : All IsByte f.bits
  pub room : f.bit_count ≤ length f.bits * 8

-- `self.bits[idx / 8]` is never out of bounds.
pub index-lt-length :
    (h : ℕ × ℕ) (f : BloomFilter) (i : ℕ)
    → IsValid f
    → 0 < f.bit_count
    → bit_index h f.bit_count i / 8 < length f.bits
unfolding bit_index
index-lt-length (h1, h2) f i v pos = ground (arith, v.room)

bit_index-lt : (h : ℕ × ℕ) (n i : ℕ) → 0 < n → bit_index h n i < n
unfolding bit_index
bit_index-lt (h1, h2) n i pos = omega arith

module _ (h : ℕ × ℕ) (n : ℕ) (pos : 0 < n) where
  set_bits-IsByte :
      (left i : ℕ) (bits : Bytes) → All IsByte bits → All IsByte (set_bits h n left i bits)
  unfolding set_bits
  set_bits-IsByte zero i bits b = b
  set_bits-IsByte (suc left) i bits b =
      set_bits-IsByte left (i + 1) (set_bit bits (bit_index h n i))
        (set_bit-IsByte bits (bit_index h n i) b)

  length-set_bits : (left i : ℕ) (bits : Bytes) → length (set_bits h n left i bits) ≡ length bits
  unfolding set_bits
  length-set_bits zero i bits = refl
  length-set_bits (suc left) i bits = omega (
    arith,
    length-set_bits left (i + 1) (set_bit bits (bit_index h n i)),
    length-set_bit bits (bit_index h n i),
  )

  set_bits_keeps :
      (left i : ℕ) (bits : Bytes) (j : ℕ)
      → All IsByte bits
      → n ≤ length bits * 8
      → bit_is_clear bits j ≡ false
      → bit_is_clear (set_bits h n left i bits) j ≡ false
  unfolding set_bits
  set_bits_keeps zero i bits j b r k = k
  set_bits_keeps (suc left) i bits j b r k =
      let idx = bit_index h n i in
      let lt = bit_index-lt h n i pos in
      set_bits_keeps left (i + 1) (set_bit bits idx) j (set_bit-IsByte bits idx b)
        (omega (arith, length-set_bit bits idx)) (set_bit_keeps bits idx b j (omega arith) k)

  -- All the bits of the key are set by its insertion.
  test_bits-set_bits :
      (left i : ℕ) (bits : Bytes)
      → All IsByte bits
      → n ≤ length bits * 8
      → test_bits h n left i (set_bits h n left i bits) ≡ true
  unfolding test_bits set_bits
  test_bits-set_bits zero i bits b r = refl
  test_bits-set_bits (suc left) i bits b r =
      let idx = bit_index h n i in
      let lt = bit_index-lt h n i pos in
      let bits' = set_bit bits idx in
      let b' = set_bit-IsByte bits idx b in
      let r' : n ≤ length bits' * 8 = omega (arith, length-set_bit bits idx) in
      rw (set_bits_keeps left (i + 1) bits' idx b' r' (set_bit_sets bits idx b (omega arith)))
        (test_bits-set_bits left (i + 1) bits' b' r')

  -- Setting more bits makes no bit clear again.
  test_bits_keeps :
      (g : ℕ × ℕ) (left i : ℕ) (more : ℕ) (bits : Bytes)
      → All IsByte bits
      → n ≤ length bits * 8
      → test_bits g n left i bits ≡ true
      → test_bits g n left i (set_bits h n more 0 bits) ≡ true
  unfolding test_bits
  test_bits_keeps g zero i more bits b r t = refl
  test_bits_keeps g (suc left) i more bits b r t =
      elim (Bool-cases (bit_is_clear bits (bit_index g n i))) [
        | inl clear ↦ ground (arith, clear)
        | inr isset ↦
            rw (set_bits_keeps more 0 bits (bit_index g n i) b r isset)
              (test_bits_keeps g left (i + 1) more bits b r (ground (arith, isset)))
      ]

zeros-IsByte : (n : ℕ) → All IsByte (zeros n)
zeros-IsByte zero = tt
zeros-IsByte (suc n) = (omega arith, zeros-IsByte n)

length-zeros : (n : ℕ) → length (zeros n) ≡ n
length-zeros zero = refl
length-zeros (suc n) = ap suc (length-zeros n)

module _ (hasher : ℕ → Bytes → ℕ) where
  pub insert-IsValid : (f : BloomFilter) (key : Bytes) → IsValid f → IsValid (insert hasher f key)
  unfolding insert
  insert-IsValid f key v = elim (Bool-cases (f.bit_count == 0)) [
    | inl e ↦ rw e v
    | inr e ↦
        let h = hash_pair hasher key in
        let pos : 0 < f.bit_count = ground (arith, e) in
        rw e (record {
          bytes = set_bits-IsByte h f.bit_count pos f.hash_functions 0 f.bits v.bytes;
          room = omega (arith, length-set_bits h f.bit_count pos f.hash_functions 0 f.bits, v.room);
        })
  ]

  bit_count-insert : (f : BloomFilter) (key : Bytes) → (insert hasher f key).bit_count ≡ f.bit_count
  unfolding insert
  bit_count-insert f key = ground arith

  -- A key that was inserted is found.
  pub might_contain-insert_self :
      (f : BloomFilter) (key : Bytes)
      → IsValid f
      → 0 < f.bit_count
      → might_contain hasher (insert hasher f key) key ≡ true
  unfolding insert might_contain
  might_contain-insert_self f key v pos =
      let e : (f.bit_count == 0) ≡ false = ground arith in
      rw (e, e)
        (test_bits-set_bits (hash_pair hasher key) f.bit_count pos f.hash_functions 0 f.bits v.bytes
          v.room)

  -- A key that was found is found after every insertion.
  pub might_contain-insert :
      (f : BloomFilter) (key other : Bytes)
      → IsValid f
      → might_contain hasher f other ≡ true
      → might_contain hasher (insert hasher f key) other ≡ true
  unfolding insert might_contain
  might_contain-insert f key other v t = elim (Bool-cases (f.bit_count == 0)) [
    | inl e ↦ ground (arith, e)
    | inr e ↦
        let pos : 0 < f.bit_count = ground (arith, e) in
        rw (e, e)
          (test_bits_keeps (hash_pair hasher key) f.bit_count pos (hash_pair hasher other)
            f.hash_functions 0 f.hash_functions f.bits v.bytes v.room (rw e at t))
  ]

  insert_all_keeps :
      (f : BloomFilter) (keys : List Bytes) (other : Bytes)
      → IsValid f
      → might_contain hasher f other ≡ true
      → might_contain hasher (insert_all hasher f keys) other ≡ true
  unfolding insert_all
  insert_all_keeps f [] other v t = t
  insert_all_keeps f (key ∷ keys) other v t =
      insert_all_keeps (insert hasher f key) keys other (insert-IsValid f key v)
        (might_contain-insert f key other v t)

  insert_all_finds :
      (f : BloomFilter) (keys : List Bytes)
      → IsValid f
      → 0 < f.bit_count
      → All (λ key. might_contain hasher (insert_all hasher f keys) key ≡ true) keys
  unfolding insert_all
  insert_all_finds f [] v pos = tt
  insert_all_finds f (key ∷ keys) v pos =
      let f' = insert hasher f key in
      let v' = insert-IsValid f key v in
      (
        insert_all_keeps f' keys key v' (might_contain-insert_self f key v pos),
        insert_all_finds f' keys v' (omega (arith, bit_count-insert f key)),
      )

  pub insert_all-IsValid :
      (f : BloomFilter) (keys : List Bytes) → IsValid f → IsValid (insert_all hasher f keys)
  unfolding insert_all
  insert_all-IsValid f [] v = v
  insert_all-IsValid f (key ∷ keys) v =
      insert_all-IsValid (insert hasher f key) keys (insert-IsValid f key v)

  fresh-IsValid :
      (n : ℕ) → IsValid (record { bits = zeros ((n + 7) / 8); bit_count = n; hash_functions = 7 })
  fresh-IsValid n = record {
    bytes = zeros-IsByte ((n + 7) / 8);
    room = omega (arith, length-zeros ((n + 7) / 8));
  }

  pub from_keys-IsValid : (keys : List Bytes) → IsValid (from_keys hasher keys)
  unfolding from_keys
  from_keys-IsValid [] = record { bytes = tt; room = omega arith }
  from_keys-IsValid (key ∷ keys) = insert_all-IsValid _ (key ∷ keys) (fresh-IsValid _)

  -- No false negatives: a filter that was built from keys says of each of them that it may be there.
  pub from_keys_finds :
      (keys : List Bytes)
      → All (λ key. might_contain hasher (from_keys hasher keys) key ≡ true) keys
  unfolding from_keys
  from_keys_finds [] = tt
  from_keys_finds (key ∷ keys) = insert_all_finds _ (key ∷ keys) (fresh-IsValid _) (omega arith)

  insert_all_numbers :
      (f : BloomFilter) (keys : List Bytes)
      → ((insert_all hasher f keys).bit_count ≡ f.bit_count)
        × ((insert_all hasher f keys).hash_functions ≡ f.hash_functions)
  unfolding insert_all insert
  insert_all_numbers f [] = (refl, refl)
  insert_all_numbers f (key ∷ keys) =
      let (count, functions) = insert_all_numbers (insert hasher f key) keys in
      (count ∙ ground arith, functions ∙ ground arith)

  pub from_keys_numbers :
      (keys : List Bytes)
      → ((from_keys hasher keys).bit_count ≤ length keys * 10 + 64)
        × ((from_keys hasher keys).hash_functions ≡ 7)
  unfolding from_keys
  from_keys_numbers [] = (omega arith, refl)
  from_keys_numbers (key ∷ keys) =
      let n = max (length (key ∷ keys) * 10) 64 in
      let f : BloomFilter = record {
        bits = zeros ((n + 7) / 8);
        bit_count = n;
        hash_functions = 7;
      } in
      let (count, functions) = insert_all_numbers f (key ∷ keys) in
      (omega (arith, count), functions)
