-- ===== src/ControlPlane/Text/Hex.antt =====
-- `hex_encode` and `hex_decode` of control_plane.rs.
use helixdb.Prelude.{ℕ, ◌*◌, ◌/◌, ◌%◌, ◌≤◌, ◌<◌, ◌≡◌, refl, [], ◌∷◌, length, arith, All, ok}
use helixdb.Prelude.Bytes.{Bytes}
use helixdb.ControlPlane.Text.{hex_digit, hex_encode, from_hex_digit, hex_pairs, hex_decode}

-- A digit or a lower letter up to `f`.
abbrev pub IsHex : ℕ → Type 0
IsHex c = (48 ≤ c) × (c < 103)

hex_digit-IsHex : (n : ℕ) → n < 16 → IsHex (hex_digit n)
unfolding hex_digit
hex_digit-IsHex n h = (ground (arith, h), ground (arith, h))

pub hex_encode-IsHex : (bs : Bytes) → All (λ b. b < 256) bs → All IsHex (hex_encode bs)
unfolding hex_encode
hex_encode-IsHex [] h = tt
hex_encode-IsHex (b ∷ bs) h = (
  hex_digit-IsHex (b / 16) (omega (arith, h.0)),
  (hex_digit-IsHex (b % 16) (omega arith), hex_encode-IsHex bs h.1),
)

from_hex_digit-hex_digit : (n : ℕ) → n < 16 → from_hex_digit (hex_digit n) ≡ ok n
unfolding from_hex_digit hex_digit
from_hex_digit-hex_digit n h = ground (arith, h)

even-hex_encode : (bs : Bytes) → length (hex_encode bs) ≡ 2 * length bs
unfolding hex_encode
even-hex_encode [] = refl
even-hex_encode (b ∷ bs) = ground (arith, even-hex_encode bs)

hex_pairs-hex_encode : (bs : Bytes) → All (λ b. b < 256) bs → hex_pairs (hex_encode bs) ≡ ok bs
unfolding hex_pairs hex_encode
hex_pairs-hex_encode [] h = refl
hex_pairs-hex_encode (b ∷ bs) h = ground (
  arith,
  from_hex_digit-hex_digit (b / 16) (omega (arith, h.0)),
  from_hex_digit-hex_digit (b % 16) (omega arith),
  hex_pairs-hex_encode bs h.1,
)

pub hex_decode-hex_encode :
    (bs : Bytes) → All (λ b. b < 256) bs → hex_decode (hex_encode bs) ≡ ok bs
unfolding hex_decode
hex_decode-hex_encode bs h = ground (arith, even-hex_encode bs, hex_pairs-hex_encode bs h)
