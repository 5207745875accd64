-- ===== src/Raft/Log/Place.antt =====
-- The loop of `handle_append_entries` of raft.rs over the entries.
use helixdb.Prelude.{
  ℕ, suc, ◌+◌, ◌≤◌, ◌<◌, ◌≡◌, refl, sym, ◌∙◌, ap, subst, inl, inr, Bool, ◌||◌, none, some, List, [],
  ◌∷◌, ◌++◌, length, drop, ltb, leb, ◌==◌, if◌then◌else◌, arith, All, All-imp, Bool-cases,
  Option-cases, ==_refl,
}
use helixdb.Raft.Node.{NodeState, LogEntry, dummy_entry, last_log_index, find_index, entry_at}
use helixdb.Raft.Append.{retain_below, place_entry, Placed, gap, placed, place_entries}
use helixdb.Raft.Log.{Follows, IsLogFrom}
use helixdb.Raft.Log.Lists.{
  last_behind_of_Follows, find_index_above, find_index_inside, Follows-append_one,
  length-append_one, retain_below_of_Follows, find_index-retain_below,
}

abbrev pub behind : NodeState → List LogEntry
behind s = drop 1 s.log

last_log_index_of_rest :
    (s : NodeState) (es : List LogEntry)
    → s.log ≡ dummy_entry ∷ es
    → Follows s.snapshot_index es
    → last_log_index s ≡ s.snapshot_index + length es
unfolding last_log_index
last_log_index_of_rest s [] b f = rw b (omega arith)
last_log_index_of_rest s (e ∷ es) b f =
    let (last, found, at) = last_behind_of_Follows s.snapshot_index dummy_entry e es f in
    rw (last_log_index, b, found) at

pub last_log_index_lem :
    (s : NodeState)
    → IsLogFrom s.snapshot_index s.log
    → last_log_index s ≡ s.snapshot_index + length (behind s)
last_log_index_lem s h = last_log_index_of_rest s (behind s) h.begins h.follows

find_index-append_one :
    (es : List LogEntry) (e : LogEntry) (j : ℕ)
    → find_index (es ++ e ∷ []) j
      ≡ (elim (find_index es j) [ some x ↦ some x | none ↦ if e.index == j then some e else none ])
unfolding find_index
find_index-append_one [] e j = refl
find_index-append_one (x ∷ es) e j = ground (arith, find_index-append_one es e j)

absent_above :
    (n i : ℕ) (es : List LogEntry)
    → Follows n es
    → n < i
    → find_index es i ≡ none
    → n + length es < i
absent_above n i es f low absent = elim (Bool-cases (ltb (n + length es) i)) [
  | inl q ↦ ground (arith, q)
  | inr q ↦
      let (x, found, _) = find_index_inside n i es f low (ground (arith, q)) in
      absurd (cc (found, absent))
]

found_reach :
    (n i : ℕ) (es : List LogEntry)
    → Follows n es
    → (x : LogEntry) → find_index es i ≡ some x
    → i ≤ n + length es
found_reach n i es f x found = elim (Bool-cases (ltb (n + length es) i)) [
  | inl q ↦ absurd (cc (found, find_index_above n i es f (ground (arith, q))))
  | inr q ↦ ground (arith, q)
]

retain_dummy :
    (i : ℕ) (es : List LogEntry)
    → retain_below i (dummy_entry ∷ es) ≡ dummy_entry ∷ retain_below i es
unfolding retain_below
retain_dummy i es = ground arith

-- What one entry at the index `i` does to the log.
record Takes (s : NodeState) (i term : ℕ) (s' : NodeState) : Type 0 where
  same : s'.snapshot_index ≡ s.snapshot_index
  log : IsLogFrom s.snapshot_index s'.log
  reach : i ≤ s.snapshot_index + length (behind s')
  holds :
      s.snapshot_index < i → (x : LogEntry) × (find_index (behind s') i ≡ some x) × (x.term ≡ term)
  keeps : (j : ℕ) → j < i → find_index (behind s') j ≡ find_index (behind s) j

-- A new entry behind a log that ends right before it.
Takes-push :
    (s : NodeState) (es : List LogEntry) (e : LogEntry)
    → Follows s.snapshot_index es
    → e.index ≡ suc (s.snapshot_index + length es)
    → ((j : ℕ) → j < e.index → find_index es j ≡ find_index (behind s) j)
    → Takes s e.index e.term (record s { log = dummy_entry ∷ es ++ e ∷ [] })
Takes-push s es e f at keep =
    let absent : find_index es e.index ≡ none =
      find_index_above s.snapshot_index e.index es f (omega (arith, at)) in
    record {
      same = refl;
      log = record { begins = refl; follows = Follows-append_one s.snapshot_index es e f at };
      reach = omega (arith, at, length-append_one es e);
      holds =
          λ above. (e, rw (find_index-append_one es e e.index, absent, ==_refl e.index) refl, refl);
      keeps = λ j low. ground (arith, find_index-append_one es e j, keep j low);
    }

-- An entry that the log has already.
Takes-same :
    (s : NodeState) (i term : ℕ)
    → IsLogFrom s.snapshot_index s.log
    → i ≤ s.snapshot_index + length (behind s)
    → (s.snapshot_index < i → (x : LogEntry) × (find_index (behind s) i ≡ some x) × (x.term ≡ term))
    → Takes s i term s
Takes-same s i term log reach holds = record {
  same = refl;
  log = log;
  reach = reach;
  holds = holds;
  keeps = λ j low. refl;
}

module _ (s : NodeState) (e : LogEntry) (log : IsLogFrom s.snapshot_index s.log) where
  place_new :
      s.snapshot_index < e.index
      → e.index ≤ suc (s.snapshot_index + length (behind s))
      → find_index (behind s) e.index ≡ none
      → Takes s e.index e.term (record s { log = s.log ++ e ∷ [] })
  place_new above near absent =
      let at : e.index ≡ suc (s.snapshot_index + length (behind s)) =
        omega (
          arith,
          near,
          absent_above s.snapshot_index e.index (behind s) log.follows above absent,
        ) in
      subst (λ l. Takes s e.index e.term (record s { log = l }))
        (sym (ap (λ l. l ++ e ∷ []) log.begins))
        (Takes-push s (behind s) e log.follows at (λ j low. refl))

  place_over :
      s.snapshot_index < e.index
      → e.index ≤ suc (s.snapshot_index + length (behind s))
      → Takes s e.index e.term (record s { log = retain_below e.index s.log ++ e ∷ [] })
  place_over above near =
      let (f, l) =
        retain_below_of_Follows s.snapshot_index e.index (behind s) log.follows above near in
      subst (λ l. Takes s e.index e.term (record s { log = l }))
        (sym (
          ap (λ l. l ++ e ∷ [])
            (ap (retain_below e.index) log.begins ∙ retain_dummy e.index (behind s))))
        (Takes-push s (retain_below e.index (behind s)) e f (sym l)
          (λ j low. find_index-retain_below e.index j (behind s) low))

  place_entry-Takes :
      e.index ≤ suc (s.snapshot_index + length (behind s))
      → Takes s e.index e.term (place_entry s e).0
  unfolding place_entry entry_at
  place_entry-Takes near = elim (Bool-cases (leb e.index s.snapshot_index)) [
    | inl low ↦ rw low (
        Takes-same s e.index e.term log (ground (arith, low))
          (λ above. absurd (ground (arith, low, above))))
    | inr high ↦
        let above : s.snapshot_index < e.index = ground (arith, high) in
        elim (Option-cases (find_index (behind s) e.index)) [
          | inl absent ↦ rw (high, absent) (place_new above near absent)
          | inr (x, found) ↦ elim (Bool-cases (x.term == e.term)) [
            | inr differs ↦ rw (high, found, differs) (place_over above near)
            | inl same ↦
                rw (high, found, same)
                  (Takes-same s e.index e.term log
                    (found_reach s.snapshot_index e.index (behind s) log.follows x found)
                    (λ a. (x, found, ground (arith, same))))
          ]
        ]
  ]

-- What the whole loop does, which expects the index `i` first.
pub record TakesAll (s : NodeState) (i : ℕ) (es : List LogEntry) (s' : NodeState) : Type 0 where
  pub same : s'.snapshot_index ≡ s.snapshot_index
  pub log : IsLogFrom s.snapshot_index s'.log
  pub keeps : (j : ℕ) → j < i → find_index (behind s') j ≡ find_index (behind s) j
  pub agrees :
      All
        (λ e.
          s.snapshot_index < e.index
          → (x : LogEntry) × (find_index (behind s') e.index ≡ some x) × (x.term ≡ e.term))
        es

-- How the loop ends: the log stays well formed, and takes all entries if no index is left out.
abbrev pub EndsWell : NodeState → ℕ → List LogEntry → Placed → Type 0
EndsWell s i es (gap s') =
    (s'.snapshot_index ≡ s.snapshot_index) × IsLogFrom s.snapshot_index s'.log
EndsWell s i es (placed s' changed) = TakesAll s i es s'

after_one :
    (s s1 : NodeState) (e : LogEntry) (es : List LogEntry) (p : Placed)
    → Takes s e.index e.term s1
    → EndsWell s1 (e.index + 1) es p
    → EndsWell s e.index (e ∷ es) p
after_one s s1 e es (gap s') t h = (h.0 ∙ t.same, subst (λ n. IsLogFrom n s'.log) t.same h.1)
after_one s s1 e es (placed s' changed) t h = record {
  same = h.same ∙ t.same;
  log = subst (λ n. IsLogFrom n s'.log) t.same h.log;
  keeps = λ j low. h.keeps j (omega arith) ∙ t.keeps j low;
  agrees = (
    λ above.
        let (x, found, term) = t.holds above in (x, h.keeps e.index (omega arith) ∙ found, term),
    All-imp (λ y k above. k (rw t.same above)) es h.agrees,
  );
}

pub place_entries-EndsWell :
    (es : List LogEntry) (i : ℕ) (changed : Bool) (s : NodeState)
    → IsLogFrom s.snapshot_index s.log
    → i ≤ suc (s.snapshot_index + length (behind s))
    → EndsWell s i es (place_entries es i changed s)
unfolding place_entries
place_entries-EndsWell [] i changed s log near = record {
  same = refl;
  log = log;
  keeps = λ j low. refl;
  agrees = tt;
}
place_entries-EndsWell (e ∷ es) i changed s log near = elim (Bool-cases (e.index == i)) [
  | inr q ↦ rw q (refl, log)
  | inl q ↦
      let at : e.index ≡ i = ground (arith, q) in
      let s1 = (place_entry s e).0 in
      let t = place_entry-Takes s e log (omega (arith, at, near)) in
      let rest =
        place_entries-EndsWell es (i + 1) (changed || (place_entry s e).1) s1
          (subst (λ n. IsLogFrom n s1.log) (sym t.same) t.log)
          (omega (arith, t.reach, t.same, at)) in
      rw q (
        subst
          (λ k.
            EndsWell s k (e ∷ es) (place_entries es (i + 1) (changed || (place_entry s e).1) s1))
          at
          (after_one s s1 e es _ t (
            subst
              (λ k.
                EndsWell s1 (k + 1) es
                  (place_entries es (i + 1) (changed || (place_entry s e).1) s1))
              (sym at) rest)))
]
