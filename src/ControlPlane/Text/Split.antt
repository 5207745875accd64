-- ===== src/ControlPlane/Text/Split.antt =====
-- The separators and the characters of the records of control_plane.rs.
use helixdb.Prelude.{
  ℕ, zero, suc, ◌≤◌, ◌<◌, ◌≡◌, ◌∙◌, refl, ap, true, false, List, [], ◌∷◌, ◌++◌, length, ◌==◌, arith,
  All,
}
use helixdb.Prelude.Bytes.{Bytes}
use helixdb.ControlPlane.Text.{split, join, drop_char, chars_end, is_utf8}

-- None of the bytes is the separator.
abbrev pub Free : ℕ → Bytes → Type 0
Free sep cs = All (λ c. (c == sep) ≡ false) cs

split-Free : (sep : ℕ) (xs : Bytes) → Free sep xs → split sep xs ≡ xs ∷ []
unfolding split
split-Free sep [] h = refl
split-Free sep (x ∷ xs) h = ground (arith, h.0, split-Free sep xs h.1)

split-append :
    (sep : ℕ) (xs ys : Bytes) → Free sep xs → split sep (xs ++ sep ∷ ys) ≡ xs ∷ split sep ys
unfolding split
split-append sep [] ys h = ground arith
split-append sep (x ∷ xs) ys h = ground (arith, h.0, split-append sep xs ys h.1)

pub split-join :
    (sep : ℕ) (part : Bytes) (parts : List Bytes)
    → Free sep part
    → All (Free sep) parts
    → split sep (join sep (part ∷ parts)) ≡ part ∷ parts
unfolding join
split-join sep part [] h k = split-Free sep part h
split-join sep part (next ∷ parts) h k =
    split-append sep part (join sep (next ∷ parts)) h
    ∙ ap (λ rest. part ∷ rest) (split-join sep next parts k.0 k.1)

-- A text of ASCII characters is UTF-8.
chars_end-ascii :
    (n : ℕ) (cs : Bytes) → length cs ≤ n → All (λ c. c < 128) cs → chars_end n cs ≡ true
unfolding chars_end drop_char
chars_end-ascii zero [] h k = refl
chars_end-ascii (suc n) [] h k = refl
chars_end-ascii zero (c ∷ cs) h k = ground (arith, h)
chars_end-ascii (suc n) (c ∷ cs) h k =
    ground (arith, k.0, chars_end-ascii n cs (omega (arith, h)) k.1)

pub is_utf8-ascii : (cs : Bytes) → All (λ c. c < 128) cs → is_utf8 cs ≡ true
unfolding is_utf8
is_utf8-ascii cs h = chars_end-ascii (length cs) cs (omega arith) h
