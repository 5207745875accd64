-- ===== src/Raft/Log/Lists.antt =====
-- What the operations on lists of entries do where the indices count up.
use helixdb.Prelude.{
  ℕ, suc, ◌+◌, ◌≤◌, ◌<◌, ◌≡◌, refl, ap, subst, inl, inr, false, none, some, List, [], ◌∷◌, ◌++◌,
  length, ltb, ◌==◌, arith, Bool-cases,
}
use helixdb.Raft.Node.{LogEntry, last_behind, find_index, entries_above}
use helixdb.Raft.Append.{retain_below}
use helixdb.Raft.Log.{Follows}

pub last_behind_of_Follows :
    (n : ℕ) (d e : LogEntry) (es : List LogEntry)
    → Follows n (e ∷ es)
    → (last : LogEntry) × (last_behind (d ∷ e ∷ es) ≡ some last)
      × (last.index ≡ n + length (e ∷ es))
last_behind_of_Follows n d e [] f = (e, refl, omega (arith, f.0))
last_behind_of_Follows n d e (e' ∷ es) f =
    let (last, found, at) = last_behind_of_Follows (suc n) e e' es f.1 in
    (last, found, omega (arith, at))

pub find_index_below :
    (n i : ℕ) (es : List LogEntry) → Follows n es → i ≤ n → find_index es i ≡ none
unfolding find_index
find_index_below n i [] f h = refl
find_index_below n i (e ∷ es) f h =
    ground (arith, find_index_below (suc n) i es f.1 (omega arith), f.0)

pub find_index_above :
    (n i : ℕ) (es : List LogEntry) → Follows n es → n + length es < i → find_index es i ≡ none
unfolding find_index
find_index_above n i [] f h = refl
find_index_above n i (e ∷ es) f h =
    ground (arith, find_index_above (suc n) i es f.1 (omega arith), f.0)

pub find_index_inside :
    (n i : ℕ) (es : List LogEntry)
    → Follows n es
    → n < i
    → i ≤ n + length es
    → (e : LogEntry) × (find_index es i ≡ some e) × (e.index ≡ i)
unfolding find_index
find_index_inside n i [] f low high = absurd (omega arith)
find_index_inside n i (e ∷ es) f low high = elim (Bool-cases (e.index == i)) [
  | inl q ↦ (e, rw q refl, ground (arith, q))
  | inr q ↦
      let (e', found, at) =
        find_index_inside (suc n) i es f.1 (ground (arith, q, f.0, low)) (omega arith) in
      (e', rw q found, at)
]

pub Follows-append_one :
    (n : ℕ) (es : List LogEntry) (e : LogEntry)
    → Follows n es
    → e.index ≡ suc (n + length es)
    → Follows n (es ++ e ∷ [])
Follows-append_one n [] e f h = (omega (arith, h), tt)
Follows-append_one n (e' ∷ es) e f h = (f.0, Follows-append_one (suc n) es e f.1 (omega arith))

pub length-append_one :
    (es : List LogEntry) (e : LogEntry) → length (es ++ e ∷ []) ≡ suc (length es)
length-append_one [] e = refl
length-append_one (e' ∷ es) e = ap suc (length-append_one es e)

retain_below_nothing :
    (n i : ℕ) (es : List LogEntry) → Follows n es → i ≤ suc n → retain_below i es ≡ []
unfolding retain_below
retain_below_nothing n i [] f h = refl
retain_below_nothing n i (e ∷ es) f h =
    ground (arith, retain_below_nothing (suc n) i es f.1 (omega arith), f.0)

pub retain_below_of_Follows :
    (n i : ℕ) (es : List LogEntry)
    → Follows n es
    → n < i
    → i ≤ suc (n + length es)
    → Follows n (retain_below i es) × (suc (n + length (retain_below i es)) ≡ i)
unfolding retain_below
retain_below_of_Follows n i [] f low high = (tt, omega arith)
retain_below_of_Follows n i (e ∷ es) f low high = elim (Bool-cases (ltb e.index i)) [
  | inl q ↦
      let (g, l) =
        retain_below_of_Follows (suc n) i es f.1 (ground (arith, q, f.0)) (omega arith) in
      rw q ((f.0, g), omega (arith, l))
  | inr q ↦
      let here : suc n ≡ i = ground (arith, q, f.0) in
      let zero_index : (e.index == 0) ≡ false = ground (arith, f.0) in
      rw (q, zero_index, retain_below_nothing (suc n) i es f.1 (omega (arith, here)))
        (tt, omega (arith, here))
]

-- Truncation keeps the entries below the index.
pub find_index-retain_below :
    (i j : ℕ) (es : List LogEntry) → j < i → find_index (retain_below i es) j ≡ find_index es j
unfolding find_index retain_below
find_index-retain_below i j [] h = refl
find_index-retain_below i j (e ∷ es) h = ground (arith, find_index-retain_below i j es h)

entries_above_all :
    (n bound : ℕ) (es : List LogEntry) → Follows n es → bound ≤ n → entries_above bound es ≡ es
unfolding entries_above
entries_above_all n bound [] f h = refl
entries_above_all n bound (e ∷ es) f h =
    ground (arith, entries_above_all (suc n) bound es f.1 (omega arith), f.0)

pub entries_above_of_Follows :
    (n bound : ℕ) (es : List LogEntry)
    → Follows n es
    → n ≤ bound
    → Follows bound (entries_above bound es)
unfolding entries_above
entries_above_of_Follows n bound [] f low = tt
entries_above_of_Follows n bound (e ∷ es) f low = elim (Bool-cases (ltb bound e.index)) [
  | inl q ↦
      let here : n ≡ bound = ground (arith, q, f.0, low) in
      rw (q, entries_above_all (suc n) bound es f.1 (omega (arith, here)))
        (omega (arith, here, f.0), subst (λ m. Follows (suc m) es) here f.1)
  | inr q ↦ rw q (entries_above_of_Follows (suc n) bound es f.1 (ground (arith, q, f.0)))
]
