-- ===== src/ControlPlane/Text.antt =====
-- The texts of the records of control_plane.rs: `to_string`, `parse::<u64>`, `split`, `join` and
-- `String::from_utf8` of the standard library, `hex_encode` and `hex_decode`. A text is its bytes.
pub mod Decimal
pub mod Split
pub mod Hex
use helixdb.Prelude.{
  ℕ, zero, suc, ◌+◌, ◌-◌, ◌*◌, ◌/◌, ◌%◌, ◌^◌, Bool, true, false, ◌&&◌, ◌||◌, Option, none, some,
  List, [], ◌∷◌, ◌++◌, length, ltb, leb, ◌==◌, if◌then◌else◌, Result, ok, err, String,
}
use helixdb.Prelude.Bytes.{Bytes}

-- The digits, of which a `u64` has 20 at most.
unfoldable pub decimal : ℕ → ℕ → Bytes
decimal zero n = []
decimal (suc f) n =
    let rest = decimal f (n / 10) in if ltb n 10 then (48 + n) ∷ [] else rest ++ (48 + n % 10) ∷ []

unfoldable pub to_string : ℕ → Bytes
to_string n = decimal 20 n

unfoldable pub zeros : ℕ → Bytes
zeros zero = []
zeros (suc n) = 48 ∷ zeros n

-- `{:016}`
unfoldable pub padded : ℕ → Bytes
padded n = zeros (16 - length (to_string n)) ++ to_string n

unfoldable pub parse_digits : ℕ → Bytes → Option ℕ
parse_digits n [] = some n
parse_digits n (c ∷ cs) =
    let rest = parse_digits (n * 10 + (c - 48)) cs in
    if leb 48 c && leb c 57 && ltb (n * 10 + (c - 48)) (2 ^ 64) then rest else none

-- A sign `+` may stand in front.
unfoldable pub parse_u64 : Bytes → Option ℕ
parse_u64 [] = none
parse_u64 (c ∷ []) = parse_digits 0 (c ∷ [])
parse_u64 (c ∷ d ∷ cs) = if c == 43 then parse_digits 0 (d ∷ cs) else parse_digits 0 (c ∷ d ∷ cs)

abbrev pub cons_first : ℕ → List Bytes → List Bytes
cons_first c [] = (c ∷ []) ∷ []
cons_first c (part ∷ parts) = (c ∷ part) ∷ parts

unfoldable pub split : ℕ → Bytes → List Bytes
split sep [] = [] ∷ []
split sep (c ∷ cs) = let rest = split sep cs in if c == sep then [] ∷ rest else cons_first c rest

unfoldable pub join : ℕ → List Bytes → Bytes
join sep [] = []
join sep (part ∷ []) = part
join sep (part ∷ next ∷ parts) = part ++ sep ∷ join sep (next ∷ parts)

-- `strip_prefix`
unfoldable pub strip_prefix : Bytes → Bytes → Option Bytes
strip_prefix [] cs = some cs
strip_prefix (p ∷ ps) [] = none
strip_prefix (p ∷ ps) (c ∷ cs) = let rest = strip_prefix ps cs in if p == c then rest else none

abbrev pub between : ℕ → ℕ → ℕ → Bool
between low c high = leb low c && leb c high

-- The bytes that may follow the first of a character, the next of them within the bounds.
unfoldable pub drop_continuation : ℕ → ℕ → ℕ → Bytes → Option Bytes
drop_continuation zero low high cs = some cs
drop_continuation (suc n) low high [] = none
drop_continuation (suc n) low high (c ∷ cs) =
    let rest = drop_continuation n 128 191 cs in if between low c high then rest else none

-- One character of UTF-8, without overlong forms and surrogates.
unfoldable pub drop_char : ℕ → Bytes → Option Bytes
drop_char c cs =
    if ltb c 128
    then some cs
    else if between 194 c 223
    then drop_continuation 1 128 191 cs
    else if c == 224
    then drop_continuation 2 160 191 cs
    else if c == 237
    then drop_continuation 2 128 159 cs
    else if between 225 c 239
    then drop_continuation 2 128 191 cs
    else if c == 240
    then drop_continuation 3 144 191 cs
    else if between 241 c 243
    then drop_continuation 3 128 191 cs
    else if c == 244
    then drop_continuation 3 128 143 cs
    else none

-- `String::from_utf8` succeeds. There is at most one character for each byte.
unfoldable pub chars_end : ℕ → Bytes → Bool
chars_end n [] = true
chars_end zero (c ∷ cs) = false
chars_end (suc n) (c ∷ cs) = elim (drop_char c cs) [ none ↦ false | some rest ↦ chars_end n rest ]

unfoldable pub is_utf8 : Bytes → Bool
is_utf8 cs = chars_end (length cs) cs

-- `HEX[n]`
unfoldable pub hex_digit : ℕ → ℕ
hex_digit n = if ltb n 10 then 48 + n else 87 + n

unfoldable pub hex_encode : Bytes → Bytes
hex_encode [] = []
hex_encode (b ∷ bs) = hex_digit (b / 16) ∷ hex_digit (b % 16) ∷ hex_encode bs

unfoldable pub from_hex_digit : ℕ → Result String ℕ
from_hex_digit c =
    if between 48 c 57
    then ok (c - 48)
    else if between 97 c 102
    then ok (10 + (c - 97))
    else if between 65 c 70
    then ok (10 + (c - 65))
    else err "invalid hex digit"

-- The loop over pairs; a single byte at the end, which would be out of bounds, does not come up.
unfoldable pub hex_pairs : Bytes → Result String Bytes
hex_pairs [] = ok []
hex_pairs (a ∷ []) = err "invalid hex digit"
hex_pairs (a ∷ b ∷ cs) = elim (from_hex_digit a) [
  | err e ↦ err e
  | ok hi ↦ elim (from_hex_digit b) [
    | err e ↦ err e
    | ok lo ↦ elim (hex_pairs cs) [ err e ↦ err e | ok out ↦ ok ((16 * hi + lo) ∷ out) ]
  ]
]

unfoldable pub hex_decode : Bytes → Result String Bytes
hex_decode cs = if length cs % 2 == 0 then hex_pairs cs else err "hex string must have even length"
