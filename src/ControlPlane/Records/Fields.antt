-- ===== src/ControlPlane/Records/Fields.antt =====
-- The parts of the records of control_plane.rs, each by itself.
use helixdb.Prelude.{
  ℕ, ◌^◌, ◌≤◌, ◌<◌, ◌≡◌, ◌∙◌, refl, ap, true, false, Option, none, some, List, [], ◌∷◌, map, ◌==◌,
  arith, All, All-append, All-imp, ok,
}
use helixdb.Prelude.Bytes.{Bytes}
use helixdb.Prelude.Order.{bytes_ord, bytes_cmp, eqb}
use helixdb.ControlPlane.Text.{to_string, split, join, is_utf8, hex_encode}
use helixdb.ControlPlane.Text.Decimal.{
  IsDigit, some_bytes, some_bytes-to_string, to_string-IsDigit, parse_u64-to_string,
}
use helixdb.ControlPlane.Text.Split.{Free, split-join, is_utf8-ascii}
use helixdb.ControlPlane.Text.Hex.{IsHex, hex_encode-IsHex, hex_decode-hex_encode}
use helixdb.ControlPlane.Records.{
  NodeStatus, healthy, suspect, dead, part, status_code, parse_status, end_text, leader_text,
  replicas_text, decode_end, decode_leader, parse_replicas, decode_replicas,
}

-- The characters before `|`, which the parts consist of.
abbrev pub IsPlain : Bytes → Type 0
IsPlain cs = All (λ c. c < 124) cs

pub plain_Free : (cs : Bytes) → IsPlain cs → Free 124 cs
plain_Free cs h =
    All-imp {P = λ c. c < 124} {Q = λ c. (c == 124) ≡ false} (λ c k. ground (arith, k)) cs h

pub All-join :
    (P : ℕ → Type 0) (sep : ℕ) (part : Bytes) (parts : List Bytes)
    → P sep
    → All P part
    → All (All P) parts
    → All P (join sep (part ∷ parts))
unfolding join
All-join P sep part [] s h k = h
All-join P sep part (next ∷ parts) s h k =
    All-append P part (sep ∷ join sep (next ∷ parts)) h (s, All-join P sep next parts s k.0 k.1)

pub plain_ascii : (cs : Bytes) → IsPlain cs → All (λ c. c < 128) cs
plain_ascii cs h = All-imp {P = λ c. c < 124} {Q = λ c. c < 128} (λ c k. omega (arith, k)) cs h

-- A record of plain parts is UTF-8, and splitting it gives the parts.
pub record Reads (parts : List Bytes) : Type 0 where
  pub utf8 : is_utf8 (join 124 parts) ≡ true
  pub is_split : split 124 (join 124 parts) ≡ parts

pub plain_Reads :
    (part : Bytes) (parts : List Bytes) → IsPlain part → All IsPlain parts → Reads (part ∷ parts)
plain_Reads part parts h k = record {
  utf8 = is_utf8-ascii (join 124 (part ∷ parts)) (
      All-join (λ c. c < 128) 124 part parts (omega arith) (plain_ascii part h)
        (All-imp plain_ascii parts k));
  is_split = split-join 124 part parts (plain_Free part h) (All-imp plain_Free parts k);
}

pub to_string-IsPlain : (n : ℕ) → IsPlain (to_string n)
to_string-IsPlain n =
    All-imp {P = IsDigit} {Q = λ c. c < 124} (λ c k. omega (arith, k.1)) (to_string n)
      (to_string-IsDigit n)

pub status_code-IsPlain : (x : NodeStatus) → IsPlain (status_code x)
unfolding status_code
status_code-IsPlain healthy = ground arith
status_code-IsPlain suspect = ground arith
status_code-IsPlain dead = ground arith

pub parse_status-status_code : (x : NodeStatus) → parse_status (status_code x) ≡ ok x
unfolding parse_status status_code bytes_cmp
parse_status-status_code healthy = refl
parse_status-status_code suspect = refl
parse_status-status_code dead = refl

pub digit_Free : (n : ℕ) → Free 44 (to_string n)
digit_Free n =
    All-imp {P = IsDigit} {Q = λ c. (c == 44) ≡ false} (λ c k. ground (arith, k.0)) (to_string n)
      (to_string-IsDigit n)

pub digits_Free : (ns : List ℕ) → All (Free 44) (map to_string ns)
digits_Free [] = tt
digits_Free (n ∷ ns) = (digit_Free n, digits_Free ns)

pub map-IsPlain : (ns : List ℕ) → All IsPlain (map to_string ns)
map-IsPlain [] = tt
map-IsPlain (n ∷ ns) = (to_string-IsPlain n, map-IsPlain ns)

pub parse_replicas-map :
    (ns : List ℕ) → All (λ n. n < 2 ^ 64) ns → parse_replicas (map to_string ns) ≡ ok ns
unfolding parse_replicas
parse_replicas-map [] h = refl
parse_replicas-map (n ∷ ns) h = ground (arith, parse_u64-to_string n h.0, parse_replicas-map ns h.1)

pub some_bytes-join :
    (sep : ℕ) (part : Bytes) (parts : List Bytes)
    → some_bytes part ≡ true
    → some_bytes (join sep (part ∷ parts)) ≡ true
unfolding join
some_bytes-join sep part [] h = h
some_bytes-join sep [] (next ∷ parts) h = absurd cc
some_bytes-join sep (c ∷ cs) (next ∷ parts) h = refl

pub decode_replicas-some :
    (cs : Bytes) → some_bytes cs ≡ true → decode_replicas cs ≡ parse_replicas (split 44 cs)
unfolding decode_replicas
decode_replicas-some [] h = absurd cc
decode_replicas-some (c ∷ cs) h = refl

pub decode_replicas-replicas_text :
    (ns : List ℕ) → All (λ n. n < 2 ^ 64) ns → decode_replicas (replicas_text ns) ≡ ok ns
unfolding decode_replicas replicas_text join
decode_replicas-replicas_text [] h = refl
decode_replicas-replicas_text (n ∷ ns) h =
    decode_replicas-some _
      (some_bytes-join 44 (to_string n) (map to_string ns) (some_bytes-to_string n))
    ∙ ap parse_replicas
        (split-join 44 (to_string n) (map to_string ns) (digit_Free n) (digits_Free ns))
    ∙ parse_replicas-map (n ∷ ns) h

pub replicas_text-IsPlain : (ns : List ℕ) → IsPlain (replicas_text ns)
unfolding replicas_text join
replicas_text-IsPlain [] = tt
replicas_text-IsPlain (n ∷ ns) =
    All-join (λ c. c < 124) 44 (to_string n) (map to_string ns) (omega arith) (to_string-IsPlain n)
      (map-IsPlain ns)

pub hex_encode-IsPlain : (bs : Bytes) → All (λ b. b < 256) bs → IsPlain (hex_encode bs)
hex_encode-IsPlain bs h =
    All-imp {P = IsHex} {Q = λ c. c < 124} (λ c k. omega (arith, k.1)) (hex_encode bs)
      (hex_encode-IsHex bs h)

-- A text whose first character is `0` or behind it is not `-`.
pub not_dash : (cs : Bytes) → All (λ c. 48 ≤ c) cs → eqb cs (45 ∷ []) ≡ false
unfolding bytes_cmp
not_dash [] h = refl
not_dash (c ∷ cs) h = ground (arith, h.0)

abbrev pub EndFits : Option Bytes → Type 0
EndFits none = Unit
EndFits (some end) = All (λ b. b < 256) end

abbrev pub LeaderFits : Option ℕ → Type 0
LeaderFits none = Unit
LeaderFits (some n) = n < 2 ^ 64

pub decode_end-end_text : (o : Option Bytes) → EndFits o → decode_end (end_text o) ≡ ok o
unfolding decode_end end_text bytes_cmp
decode_end-end_text none h = refl
decode_end-end_text (some end) h = ground (
  arith,
  hex_decode-hex_encode end h,
  not_dash (hex_encode end) (
      All-imp {P = IsHex} {Q = λ c. 48 ≤ c} (λ c k. k.0) (hex_encode end) (hex_encode-IsHex end h)),
)

pub end_text-IsPlain : (o : Option Bytes) → EndFits o → IsPlain (end_text o)
unfolding end_text
end_text-IsPlain none h = (omega arith, tt)
end_text-IsPlain (some end) h = hex_encode-IsPlain end h

pub decode_leader-leader_text : (o : Option ℕ) → LeaderFits o → decode_leader (leader_text o) ≡ ok o
unfolding decode_leader leader_text bytes_cmp
decode_leader-leader_text none h = refl
decode_leader-leader_text (some n) h = ground (
  arith,
  parse_u64-to_string n h,
  not_dash (to_string n)
      (All-imp {P = IsDigit} {Q = λ c. 48 ≤ c} (λ c k. k.0) (to_string n) (to_string-IsDigit n)),
)

pub leader_text-IsPlain : (o : Option ℕ) → IsPlain (leader_text o)
unfolding leader_text
leader_text-IsPlain none = (omega arith, tt)
leader_text-IsPlain (some n) = to_string-IsPlain n
