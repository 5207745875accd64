-- ===== src/Prelude/Checksum.antt =====
-- A buffer that ends in the checksum of what stands before it, as four bytes.
use Prim.Native.Nat.{ℕ, ◌+◌, ◌-◌, ◌<◌, ◌^◌}
use mathlib.Core.Path.{◌≡◌, ◌∙◌, ap}
use mathlib.Core.List.{◌++◌}
use native.Mathlib.Omega.{arith}
use helixdb.Prelude.Lists.{length, take, drop, length-append, take-append_self, drop-append_self}
use helixdb.Prelude.Bytes.{Bytes, le_bytes, from_le_bytes, length-le_bytes, from_le_bytes-le_bytes}

-- `bytes[..bytes.len() - 4]`
unfoldable pub payload_of : Bytes → Bytes
payload_of bytes = take (length bytes - 4) bytes

-- `u32::from_le_bytes(bytes[bytes.len() - 4..])`
unfoldable pub stored_of : Bytes → ℕ
stored_of bytes = from_le_bytes (drop (length bytes - 4) bytes)

pub length_trailer : (p : Bytes) (c : ℕ) → length (p ++ le_bytes 4 c) ≡ length p + 4
length_trailer p c = length-append p (le_bytes 4 c) ∙ ap (λ n. length p + n) (length-le_bytes 4 c)

pub payload_of-append : (p : Bytes) (c : ℕ) → payload_of (p ++ le_bytes 4 c) ≡ p
unfolding payload_of
payload_of-append p c =
    let e : length (p ++ le_bytes 4 c) - 4 ≡ length p = omega (arith, length_trailer p c) in
    rw e (take-append_self p (le_bytes 4 c))

pub stored_of-append : (p : Bytes) (c : ℕ) → c < 2 ^ 32 → stored_of (p ++ le_bytes 4 c) ≡ c
unfolding stored_of
stored_of-append p c h =
    let e : length (p ++ le_bytes 4 c) - 4 ≡ length p = omega (arith, length_trailer p c) in
    rw (e, drop-append_self p (le_bytes 4 c)) (from_le_bytes-le_bytes 4 c h)
