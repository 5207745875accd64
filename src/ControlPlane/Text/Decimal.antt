-- ===== src/ControlPlane/Text/Decimal.antt =====
-- Numbers in decimal in the records of control_plane.rs: what is written is read back.
use helixdb.Prelude.{
  ℕ, zero, suc, ◌+◌, ◌-◌, ◌*◌, ◌/◌, ◌%◌, ◌^◌, ◌≤◌, ◌<◌, ◌≡◌, ◌∙◌, ltb→lt, refl, ap, inl, inr,
  Bool-cases, Bool, true, false, Option, none, some, [], ◌∷◌, ◌++◌, ltb, arith, All, All-append,
}
use helixdb.Prelude.Bytes.{Bytes}
use helixdb.Prelude.Branches.{if_both, if_cases}
use native.Mathlib.Nat.{pow-suc}
use helixdb.ControlPlane.Text.{decimal, to_string, parse_digits, parse_u64}

abbrev pub IsDigit : ℕ → Type 0
IsDigit c = (48 ≤ c) × (c < 58)

abbrev then_parse : Option ℕ → Bytes → Option ℕ
then_parse none ys = none
then_parse (some n) ys = parse_digits n ys

parse_digits-append :
    (n : ℕ) (xs ys : Bytes) → parse_digits n (xs ++ ys) ≡ then_parse (parse_digits n xs) ys
unfolding parse_digits
parse_digits-append n [] ys = refl
parse_digits-append n (x ∷ xs) ys = ground (arith, parse_digits-append (n * 10 + (x - 48)) xs ys)

parse_digits-one :
    (n d : ℕ) → d < 10 → n * 10 + d < 2 ^ 64 → parse_digits n ((48 + d) ∷ []) ≡ some (n * 10 + d)
unfolding parse_digits
parse_digits-one n d h k = ground (arith, h, k)

pub parse_digits-decimal :
    (f n : ℕ) → n < 10 ^ f → n < 2 ^ 64 → parse_digits 0 (decimal f n) ≡ some n
unfolding decimal parse_digits
parse_digits-decimal zero n h k = ap some (omega (arith, h))
parse_digits-decimal (suc f) n h k = elim (Bool-cases (ltb n 10)) [
  | inl q ↦ ground (arith, q, parse_digits-one 0 n)
  | inr q ↦ ground (
    arith,
    q,
    parse_digits-append 0 (decimal f (n / 10)) ((48 + n % 10) ∷ []),
    parse_digits-decimal f (n / 10) (omega (arith, h, pow-suc 10 f)) (omega (arith, k)),
    parse_digits-one (n / 10) (n % 10) (omega arith) (omega (arith, k)),
  )
]

decimal-IsDigit : (f n : ℕ) → All IsDigit (decimal f n)
unfolding decimal
decimal-IsDigit zero n = tt
decimal-IsDigit (suc f) n =
    if_cases (All IsDigit) (ltb n 10) (λ q. ((omega arith, omega (arith, ltb→lt n 10 q)), tt))
      (λ q.
        All-append IsDigit (decimal f (n / 10)) ((48 + n % 10) ∷ []) (decimal-IsDigit f (n / 10))
          ((omega arith, omega arith), tt))

pub to_string-IsDigit : (n : ℕ) → All IsDigit (to_string n)
unfolding to_string
to_string-IsDigit n = decimal-IsDigit 20 n

-- Digits without a sign.
parse_u64-digits : (c : ℕ) (cs : Bytes) → IsDigit c → parse_u64 (c ∷ cs) ≡ parse_digits 0 (c ∷ cs)
unfolding parse_u64
parse_u64-digits c [] h = refl
parse_u64-digits c (d ∷ cs) h = ground (arith, h.0)

abbrev pub some_bytes : Bytes → Bool
some_bytes [] = false
some_bytes (c ∷ cs) = true

some_bytes-append_one : (xs : Bytes) (c : ℕ) → some_bytes (xs ++ c ∷ []) ≡ true
some_bytes-append_one [] c = refl
some_bytes-append_one (x ∷ xs) c = refl

some_bytes-decimal : (f n : ℕ) → some_bytes (decimal (suc f) n) ≡ true
unfolding decimal
some_bytes-decimal f n =
    if_both (λ xs. some_bytes xs ≡ true) (ltb n 10) refl
      (some_bytes-append_one (decimal f (n / 10)) (48 + n % 10))

parse_u64-all :
    (xs : Bytes) → All IsDigit xs → some_bytes xs ≡ true → parse_u64 xs ≡ parse_digits 0 xs
parse_u64-all [] h k = absurd cc
parse_u64-all (c ∷ cs) h k = parse_u64-digits c cs h.0

pub parse_u64-to_string : (n : ℕ) → n < 2 ^ 64 → parse_u64 (to_string n) ≡ some n
unfolding to_string
parse_u64-to_string n h =
    parse_u64-all (decimal 20 n) (decimal-IsDigit 20 n) (some_bytes-decimal 19 n)
    ∙ parse_digits-decimal 20 n (omega (arith, h)) h

pub some_bytes-to_string : (n : ℕ) → some_bytes (to_string n) ≡ true
unfolding to_string
some_bytes-to_string n = some_bytes-decimal 19 n
