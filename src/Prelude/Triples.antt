-- ===== src/Prelude/Triples.antt =====
-- What an operation on a state leaves behind, whether it succeeds or fails.
use mathlib.Core.Path.{◌≡◌, refl}
use helixdb.Prelude.Results.{Result, ok, err}
use helixdb.Prelude.Stateful.{Op, lift, reads, continue, ◌>>=◌, ◌>>◌}

module _ {S E : Type 0} where
  -- From a state with `P`, the operation comes to one with `Q`.
  pub record Triple {A : Type 0} (P Q : S → Type 0) (m : Op S E A) : Type 0 where
    pub leads : (s : S) → P s → Q (m s).0

  -- The outcome of a first part, and what the second makes of it.
  pub continue_leads :
      {A B : Type 0} (Q : S → Type 0) (f : A → Op S E B) (p : S × Result E A)
      → Q p.0
      → ((a : A) → p.1 ≡ ok a → Q (f a p.0).0)
      → Q (continue f p).0
  continue_leads Q f (s, ok a) h k = k a refl
  continue_leads Q f (s, err e) h k = h

  -- A second part that gives a result, and the first part that has led to it.
  pub continue_gives :
      {A B : Type 0} (Q : Type 0) (f : A → Op S E B) (p : S × Result E A) (b : B)
      → (continue f p).1 ≡ ok b
      → ((a : A) (s : S) → p.1 ≡ ok a → (f a s).1 ≡ ok b → Q)
      → Q
  continue_gives Q f (s, ok a) b h k = k a s refl h
  continue_gives Q f (s, err e) b h k = absurd cc

  module _ {P Q : S → Type 0} where
    -- The parts of the `do` block before the last keep `P`, which is enough where they fail.
    pub bind_Triple :
        {A B : Type 0} (m : Op S E A) (f : A → Op S E B)
        → ((s : S) → P s → Q s)
        → Triple P P m
        → ((a : A) → Triple P Q (f a))
        → Triple P Q (m >>= f)
    bind_Triple m f weaken h k = record {
      leads = λ s p.
          continue_leads Q f (m s) (weaken (m s).0 (h.leads s p))
            (λ a e. (k a).leads (m s).0 (h.leads s p));
    }

    pub then_Triple :
        {B : Type 0} (m : Op S E (Unit {0})) (f : Op S E B)
        → ((s : S) → P s → Q s)
        → Triple P P m
        → Triple P Q f
        → Triple P Q (m >> f)
    then_Triple m f weaken h k = record {
      leads = λ s p.
          continue_leads Q (λ u. f) (m s) (weaken (m s).0 (h.leads s p))
            (λ a e. k.leads (m s).0 (h.leads s p));
    }

    -- What was read, and that it was read, is there for the rest.
    pub reads_bind_Triple :
        {A B : Type 0} (r : S → Result E A) (f : A → Op S E B)
        → ((s : S) → P s → Q s)
        → ((s : S) (a : A) → P s → r s ≡ ok a → Triple P Q (f a))
        → Triple P Q (reads r >>= f)
    reads_bind_Triple r f weaken k = record {
      leads = λ s p. continue_leads Q f (s, r s) (weaken s p) (λ a e. (k s a p e).leads s p);
    }

    pub check_Triple :
        {B : Type 0} (r : Result E (Unit {0})) (f : Op S E B)
        → ((s : S) → P s → Q s)
        → (r ≡ ok tt → Triple P Q f)
        → Triple P Q (lift r >> f)
    check_Triple r f weaken k = record {
      leads = λ s p. continue_leads Q (λ u. f) (s, r) (weaken s p) (λ a e. (k e).leads s p);
    }

  module _ (P : S → Type 0) where
    -- Each result of an operation that leaves the state as it is.
    pub reads-Triple : {A : Type 0} (f : S → Result E A) → Triple P P (reads f)
    reads-Triple f = record { leads = λ s p. p }
