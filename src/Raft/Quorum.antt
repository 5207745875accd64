-- ===== src/Raft/Quorum.antt =====
-- Elections of raft.rs over a whole cluster: each node takes its own turns, in any order with those
-- of the others, restarts among them, and two candidates with a majority each share a voter.
use helixdb.Prelude.{
  ℕ, suc, ◌+◌, ◌≤◌, ◌<◌, ◌≡◌, refl, sym, ◌∙◌, ◌⊎◌, inl, inr, Bool, true, false, List, [], ◌∷◌,
  length, arith,
}
use helixdb.Raft.Node.{NodeState, is_leader, majority}
use helixdb.Raft.Vote.{handle_request_vote}
use helixdb.Raft.Events.{Event, request_vote, election_timeout, step}
use helixdb.Raft.Promise.{Promised, Promised-step}
use helixdb.Raft.Voting.{handle_request_vote-Promised, start_election-Promised, granted-eq-Promised}

-- In this turn the node votes for the candidate in the term: it grants its vote, or it begins an
-- election itself.
pub data Casts (s : NodeState) (term c : ℕ) (e : Event) : Type 0 where
  grants :
      (i k : ℕ)
      → e ≡ request_vote term c i k
      → (handle_request_vote s term c i k).1.vote_granted ≡ true
      → Casts s term c e
  stands :
      e ≡ election_timeout
      → is_leader s.role ≡ false
      → term ≡ s.current_term + 1
      → c ≡ s.id
      → Casts s term c e

-- The node votes for the candidate in the term in one of these turns.
abbrev pub Votes : NodeState → ℕ → ℕ → List Event → Type 0
Votes s term c [] = ⊥
Votes s term c (e ∷ es) = Casts s term c e ⊎ Votes (step s e) term c es

Casts-Promised :
    (s : NodeState) (term c : ℕ) (e : Event) → Casts s term c e → Promised term c (step s e)
unfolding step
Casts-Promised s term c e (grants i k q g) = rw q (handle_request_vote-Promised s term c i k g)
Casts-Promised s term c e (stands q follows next own) =
    rw (q, next, own) (start_election-Promised s follows)

Promised-Casts :
    (s : NodeState) (term c c' : ℕ) (e : Event) → Promised term c s → Casts s term c' e → c' ≡ c
Promised-Casts s term c c' e p (grants i k q g) = granted-eq-Promised s term c c' i k p g
Promised-Casts s term c c' e p (stands q follows next own) = absurd (ground (arith, p.memory, next))

Promised-Votes :
    (s : NodeState) (term c c' : ℕ) (es : List Event)
    → Promised term c s
    → Votes s term c' es
    → c' ≡ c
Promised-Votes s term c c' [] p v = elim v [ ]
Promised-Votes s term c c' (e ∷ es) p (inl a) = Promised-Casts s term c c' e p a
Promised-Votes s term c c' (e ∷ es) p (inr v) =
    Promised-Votes (step s e) term c c' es (Promised-step term c s e p) v

Casts-unique :
    (s : NodeState) (term c c' : ℕ) (e : Event) → Casts s term c e → Casts s term c' e → c ≡ c'
Casts-unique s term c c' e (grants i k q g) (grants i' k' q' g') = cc (q, q')
Casts-unique s term c c' e (grants i k q g) (stands q' f' n' own') = absurd (cc (q, q'))
Casts-unique s term c c' e (stands q f n own) (grants i' k' q' g') = absurd (cc (q, q'))
Casts-unique s term c c' e (stands q f n own) (stands q' f' n' own') = own ∙ sym own'

-- A node votes for one candidate at most in a term.
Votes-unique :
    (s : NodeState) (term c c' : ℕ) (es : List Event)
    → Votes s term c es
    → Votes s term c' es
    → c ≡ c'
Votes-unique s term c c' [] v w = elim v [ ]
Votes-unique s term c c' (e ∷ es) (inl a) (inl b) = Casts-unique s term c c' e a b
Votes-unique s term c c' (e ∷ es) (inl a) (inr v) =
    sym (Promised-Votes (step s e) term c c' es (Casts-Promised s term c e a) v)
Votes-unique s term c c' (e ∷ es) (inr v) (inl b) =
    Promised-Votes (step s e) term c' c es (Casts-Promised s term c' e b) v
Votes-unique s term c c' (e ∷ es) (inr v) (inr w) = Votes-unique (step s e) term c c' es v w

-- Marks on the elements of a list; where there is one, `P` holds.
abbrev pub Marked {ℓ} : {A : Type ℓ} → (A → Type 0) → List A → List Bool → Type 0
Marked P [] [] = Unit
Marked P [] (b ∷ bs) = ⊥
Marked P (x ∷ xs) [] = ⊥
Marked P (x ∷ xs) (b ∷ bs) = (b ≡ true → P x) × Marked P xs bs

abbrev pub count : List Bool → ℕ
count [] = 0
count (true ∷ bs) = suc (count bs)
count (false ∷ bs) = count bs

-- Two sets of marks that are together more than the elements share one of them.
overlap {ℓ} :
    {A : Type ℓ} (P Q : A → Type 0) (xs : List A) (bs cs : List Bool)
    → Marked P xs bs
    → Marked Q xs cs
    → length xs < count bs + count cs
    → (x : A) × P x × Q x
overlap P Q [] [] [] m n h = absurd (omega arith)
overlap P Q [] [] (c ∷ cs) m n h = elim n [ ]
overlap P Q [] (b ∷ bs) cs m n h = elim m [ ]
overlap P Q (x ∷ xs) [] cs m n h = elim m [ ]
overlap P Q (x ∷ xs) (b ∷ bs) [] m n h = elim n [ ]
overlap P Q (x ∷ xs) (true ∷ bs) (true ∷ cs) m n h = (x, m.0 refl, n.0 refl)
overlap P Q (x ∷ xs) (true ∷ bs) (false ∷ cs) m n h = overlap P Q xs bs cs m.1 n.1 (omega arith)
overlap P Q (x ∷ xs) (false ∷ bs) (true ∷ cs) m n h = overlap P Q xs bs cs m.1 n.1 (omega arith)
overlap P Q (x ∷ xs) (false ∷ bs) (false ∷ cs) m n h = overlap P Q xs bs cs m.1 n.1 (omega arith)

-- A node as it was at first, and the turns that it has taken.
abbrev pub History : Type 0
History = NodeState × List Event

abbrev pub VotesFor : ℕ → ℕ → History → Type 0
VotesFor term c node = Votes node.0 term c node.1

-- If two candidates, each of which counts its peers and itself as the nodes of the cluster, have the
-- votes of a majority of its nodes in the same term, each vote cast in some turn of its node with
-- restarts among them, then they are the same candidate.
pub election_safety :
    (nodes : List History) (term c c' : ℕ) (a b : NodeState) (voters voters' : List Bool)
    → length a.peers + 1 ≡ length nodes
    → length b.peers + 1 ≡ length nodes
    → Marked (VotesFor term c) nodes voters
    → Marked (VotesFor term c') nodes voters'
    → majority a ≤ count voters
    → majority b ≤ count voters'
    → c ≡ c'
unfolding majority
election_safety nodes term c c' a b voters voters' ea eb m m' h h' =
    let (node, v, v') =
      overlap (VotesFor term c) (VotesFor term c') nodes voters voters' m m' (omega arith) in
    Votes-unique node.0 term c c' node.1 v v'
