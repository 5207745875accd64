-- ===== src/BTreeMap/Sorted.antt =====
-- The keys of a map strictly increase, and a map with increasing keys is determined by `get`.
use helixdb.Prelude.{◌≡◌, refl, sym, ap, ◌∙◌, subst, none, List, [], ◌∷◌, ◌++◌, All, All-imp, arith}
use Prim.Native.Nat.Ordering.{lt}
use helixdb.Prelude.Order.{Ord}
use helixdb.BTreeMap.{BTreeMap, get, insert, remove, extend}

module _ {ℓ κ} {K : Type ℓ} {V : Type κ} ⦃o : Ord K⦄ where
  abbrev pub Above : K → BTreeMap K V → Type 0
  Above k m = All (λ p. o.cmp k p.0 ≡ lt) m

  abbrev pub IsSorted : BTreeMap K V → Type 0
  IsSorted [] = Unit
  IsSorted ((k, v) ∷ m) = Above k m × IsSorted m

  pub Above-trans : (j k : K) (m : BTreeMap K V) → o.cmp j k ≡ lt → Above k m → Above j m
  Above-trans j k m h = All-imp (λ p q. o.lt_trans j k p.0 h q) m

  Above-insert :
      (j k : K) (v : V) (m : BTreeMap K V) → o.cmp j k ≡ lt → Above j m → Above j (insert m k v)
  unfolding insert
  Above-insert j k v [] h a = (h, tt)
  Above-insert j k v ((i, w) ∷ m) h a = ground (arith, Above-insert j k v m h a.1)

  pub insert-IsSorted : (m : BTreeMap K V) (k : K) (v : V) → IsSorted m → IsSorted (insert m k v)
  unfolding insert
  insert-IsSorted [] k v s = (tt, tt)
  insert-IsSorted ((i, w) ∷ m) k v s = ground (
    arith,
    insert-IsSorted m k v s.1,
    Above-insert i k v m,
    Above-trans k i m,
    o.lt_of_gt k i,
    o.eq_of_cmp k i,
  )

  Above-remove : (j k : K) (m : BTreeMap K V) → Above j m → Above j (remove m k)
  unfolding remove
  Above-remove j k [] a = tt
  Above-remove j k ((i, w) ∷ m) a = ground (arith, Above-remove j k m a.1)

  pub remove-IsSorted : (m : BTreeMap K V) (k : K) → IsSorted m → IsSorted (remove m k)
  unfolding remove
  remove-IsSorted [] k s = tt
  remove-IsSorted ((i, w) ∷ m) k s = ground (arith, remove-IsSorted m k s.1, Above-remove i k m s.0)

  pub extend-IsSorted : (m : BTreeMap K V) (l : List (K × V)) → IsSorted m → IsSorted (extend m l)
  unfolding extend
  extend-IsSorted m [] s = s
  extend-IsSorted m ((k, v) ∷ l) s = extend-IsSorted (insert m k v) l (insert-IsSorted m k v s)

  -- A key below all others is not in the map.
  pub get-Above : (k : K) (m : BTreeMap K V) → Above k m → get m k ≡ none
  unfolding get
  get-Above k [] a = refl
  get-Above k ((i, w) ∷ m) a = ground (arith, get-Above k m a.1, a.0)

  -- Appending an entry behind all others is inserting it.
  pub insert-last :
      (m : BTreeMap K V) (k : K) (v : V)
      → All (λ p. o.cmp p.0 k ≡ lt) m
      → insert m k v ≡ m ++ (k, v) ∷ []
  unfolding insert
  insert-last [] k v h = refl
  insert-last ((i, w) ∷ m) k v h =
      rw (o.gt_of_lt i k h.0, insert) (ap (λ l. (i, w) ∷ l) (insert-last m k v h.1))

  heads_agree :
      (i j : K) (v w : V) (m n : BTreeMap K V)
      → IsSorted ((i, v) ∷ m)
      → IsSorted ((j, w) ∷ n)
      → get ((i, v) ∷ m) i ≡ get ((j, w) ∷ n) i
      → get ((i, v) ∷ m) j ≡ get ((j, w) ∷ n) j
      → (i ≡ j) × (v ≡ w)
  unfolding get
  heads_agree i j v w m n s t hi hj = ground (
    arith,
    o.cmp_refl i,
    o.cmp_refl j,
    o.eq_of_cmp i j,
    o.lt_of_gt i j,
    get-Above i n,
    Above-trans i j n,
    get-Above j m,
    Above-trans j i m,
  )

  tails_agree :
      (i : K) (v : V) (m n : BTreeMap K V)
      → IsSorted ((i, v) ∷ m)
      → IsSorted ((i, v) ∷ n)
      → (k : K) → get ((i, v) ∷ m) k ≡ get ((i, v) ∷ n) k
      → get m k ≡ get n k
  unfolding get
  tails_agree i v m n s t k h =
      ground (arith, o.eq_of_cmp k i, get-Above i m s.0, get-Above i n t.0)

  -- Two sorted maps that answer every `get` alike are one.
  pub IsSorted-ext :
      (m n : BTreeMap K V) → IsSorted m → IsSorted n → ((k : K) → get m k ≡ get n k) → m ≡ n
  unfolding get
  IsSorted-ext [] [] s t h = refl
  IsSorted-ext [] ((j, w) ∷ n) s t h = ground (arith, h j, o.cmp_refl j)
  IsSorted-ext ((i, v) ∷ m) [] s t h = ground (arith, h i, o.cmp_refl i)
  IsSorted-ext ((i, v) ∷ m) ((j, w) ∷ n) s t h =
      let (ei, ev) = heads_agree i j v w m n s t (h i) (h j) in
      let back : (j, w) ∷ n ≡ (i, v) ∷ n = cc (ei, ev) in
      let t' = subst IsSorted back t in
      let tails : (k : K) → get m k ≡ get n k =
        λ k. tails_agree i v m n s t' k (h k ∙ ap (λ l. get l k) back) in
      ap (λ l. (i, v) ∷ l) (IsSorted-ext m n s.1 t.1 tails) ∙ sym back
