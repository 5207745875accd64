-- ===== src/Prelude/Reader.antt =====
-- Reading fields from the front of a buffer, as a monad. `none` is the error `UnexpectedEof`: a
-- cursor over bytes in memory, or over a file that is read to its end, has no other error.
use helixdb.Prelude.Tests.{Option-cases}
use helixdb.Prelude.Lists.{length, length-append}
use helixdb.Prelude.Bytes.{
  Bytes, le_bytes, from_le_bytes, read_exact, length-le_bytes, from_le_bytes-le_bytes,
  read_exact-append, read_exact_extend, read_exact_parts,
}
use Prim.Native.Nat.{ℕ, ◌+◌, ◌<◌, ◌≤◌, ◌^◌}
use mathlib.Core.Path.{◌≡◌, refl, sym, ap, ◌∙◌}
use mathlib.Core.Logic.{inl, inr}
use mathlib.Core.List.{[], ◌++◌, append_assoc}
use mathlib.Core.Option.{Option, none, some}
use native.Mathlib.Omega.{arith}

abbrev pub Reader {ℓ} : Type ℓ → Type ℓ
Reader A = Bytes → Option (A × Bytes)

module _ {ℓ} {A : Type ℓ} where
  abbrev pub pure : A → Reader A
  pure a bs = some (a, bs)

module _ {ℓ κ} {A : Type ℓ} {B : Type κ} where
  abbrev pub continue : (A → Reader B) → Option (A × Bytes) → Option (B × Bytes)
  continue f none = none
  continue f (some (a, rest)) = f a rest

  infixl 10 ◌>>=◌
  abbrev pub ◌>>=◌ : Reader A → (A → Reader B) → Reader B
  ◌>>=◌ m f bs = continue f (m bs)

-- `read_bytes`, `read_vec`
abbrev pub read_bytes : ℕ → Reader Bytes
read_bytes n = read_exact n

-- `read_u8`, `read_u32`, `read_u64`
unfoldable pub read_le : ℕ → Reader ℕ
read_le n = do buf ← read_exact n; pure (from_le_bytes buf)

-- `m` reads the bytes `bs` as `a`, whatever follows them.
pub record Reads {ℓ} {A : Type ℓ} (m : Reader A) (a : A) (bs : Bytes) : Type ℓ where
  pub at : (rest : Bytes) → m (bs ++ rest) ≡ some (a, rest)

module _ {ℓ} {A : Type ℓ} where
  pub Reads-pure : (a : A) → Reads (pure a) a []
  Reads-pure a = record { at = λ rest. refl }

module _ {ℓ κ} {A : Type ℓ} {B : Type κ} where
  pub Reads-bind :
      {m : Reader A} (f : A → Reader B) {a : A} {b : B} {xs ys : Bytes}
      → Reads m a xs
      → Reads (f a) b ys
      → Reads (m >>= f) b (xs ++ ys)
  Reads-bind {m} f {a} {b} {xs} {ys} h k = record {
    at = λ rest. rw (append_assoc xs ys rest, h.at (ys ++ rest)) (k.at rest);
  }

  -- The last reading of a block, and what is made of it.
  pub Reads-map :
      {m : Reader A} (f : A → B) {a : A} {xs : Bytes}
      → Reads m a xs
      → Reads (m >>= λ x. pure (f x)) (f a) xs
  Reads-map f h = record { at = λ rest. ap (continue (λ x. pure (f x))) (h.at rest) }

pub Reads-read_bytes : (bs : Bytes) → Reads (read_bytes (length bs)) bs bs
Reads-read_bytes bs = record { at = read_exact-append bs }

pub Reads-read_le : (n x : ℕ) → x < 256 ^ n → Reads (read_le n) x (le_bytes n x)
unfolding read_le
Reads-read_le n x h = record {
  at = λ rest.
      let e = rw (length-le_bytes n x) at (read_exact-append (le_bytes n x) rest) in
      rw (e, read_le) (ap (λ v. some (v, rest)) (from_le_bytes-le_bytes n x h));
}

-- More bytes behind the buffer do not change what `m` reads from it.
pub record Extends {ℓ} {A : Type ℓ} (m : Reader A) : Type ℓ where
  pub at :
      (bs more : Bytes) (a : A) (rest : Bytes)
      → m bs ≡ some (a, rest)
      → m (bs ++ more) ≡ some (a, rest ++ more)

module _ {ℓ} {A : Type ℓ} where
  pub Extends-pure : (a : A) → Extends (pure a)
  Extends-pure a = record { at = λ bs more b rest h. ground arith }

module _ {ℓ κ} {A : Type ℓ} {B : Type κ} where
  pub Extends-bind :
      {m : Reader A} (f : A → Reader B) → Extends m → ((a : A) → Extends (f a)) → Extends (m >>= f)
  Extends-bind {m} f h k = record {
    at = λ bs more b rest e. elim (Option-cases (m bs)) [
      | inl stop ↦ ground arith
      | inr (p, go) ↦
          rw (h.at bs more p.0 p.1 go) ((k p.0).at p.1 more b rest (ap (continue f) (sym go) ∙ e))
    ];
  }

pub Extends-read_bytes : (n : ℕ) → Extends (read_bytes n)
Extends-read_bytes n = record { at = read_exact_extend n }

pub Extends-read_le : (n : ℕ) → Extends (read_le n)
unfolding read_le
Extends-read_le n =
    Extends-bind (λ buf. pure (from_le_bytes buf)) (Extends-read_bytes n)
      (λ buf. Extends-pure (from_le_bytes buf))

-- `m` takes at least `k` bytes off the buffer.
pub record Consumes {ℓ} {A : Type ℓ} (k : ℕ) (m : Reader A) : Type ℓ where
  pub at : (bs : Bytes) (a : A) (rest : Bytes) → m bs ≡ some (a, rest) → length rest + k ≤ length bs

module _ {ℓ} {A : Type ℓ} where
  pub Consumes-pure : (a : A) → Consumes 0 (pure a)
  Consumes-pure a = record { at = λ bs b rest h. ground arith }

  pub Consumes-weaken : {j k : ℕ} {m : Reader A} → k ≤ j → Consumes j m → Consumes k m
  Consumes-weaken le h = record { at = λ bs a rest e. omega (arith, h.at bs a rest e) }

module _ {ℓ κ} {A : Type ℓ} {B : Type κ} where
  pub Consumes-bind :
      {j k : ℕ} {m : Reader A} (f : A → Reader B)
      → Consumes j m
      → ((a : A) → Consumes k (f a))
      → Consumes (j + k) (m >>= f)
  Consumes-bind {m} f h k = record {
    at = λ bs b rest e. elim (Option-cases (m bs)) [
      | inl stop ↦ ground (arith, stop)
      | inr (p, go) ↦
          let first = h.at bs p.0 p.1 go in
          let second = (k p.0).at p.1 b rest (ap (continue f) (sym go) ∙ e) in
          omega (arith, first, second)
    ];
  }

pub Consumes-read_bytes : (n : ℕ) → Consumes n (read_bytes n)
Consumes-read_bytes n = record {
  at = λ bs front rest h.
      let (e, l) = read_exact_parts n bs front rest h in
      omega (arith, ap length e, length-append front rest, l);
}

pub Consumes-read_le : (n : ℕ) → Consumes n (read_le n)
unfolding read_le
Consumes-read_le n = Consumes-weaken (omega arith) (
    Consumes-bind (λ buf. pure (from_le_bytes buf)) (Consumes-read_bytes n)
      (λ buf. Consumes-pure (from_le_bytes buf)))

pub ruleset reader_rules = (Reads-pure, Reads-read_bytes, Reads-read_le)
