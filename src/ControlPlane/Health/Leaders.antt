-- ===== src/ControlPlane/Health/Leaders.antt =====
-- The hints of leaders behind `rebalance` of control_plane.rs.
use helixdb.Prelude.{
  ℕ, ◌≡◌, ◌∙◌, refl, subst, ap, inl, inr, Bool-cases, Option-cases, Bool, true, false, Option, none,
  some, List, [], ◌∷◌, if◌then◌else◌, arith, All,
}
use helixdb.Prelude.Order.{nat_ord, eqb, eqb_refl, eq_of_eqb}
use helixdb.Prelude.Branches.{if_both, if_cases}
use helixdb.BTreeMap.Laws.{get_empty, get-cons}
use helixdb.BTreeMap.Sorted.{IsSorted, get-Above}
use helixdb.BTreeMap
use helixdb.BTreeMap.{BTreeMap}
use helixdb.Sharding.Cluster.{differs, is_empty}
use helixdb.ControlPlane.Records.{
  NodeStatus, healthy, suspect, dead, same_status, NodeRecord, RangePlacement,
}
use helixdb.ControlPlane.Health.{
  healthy_nodes, is_healthy, find_healthy, first, preferred, rebalanced, rebalance_ranges,
}

-- The registry has a record of the node, and its status is healthy.
pub record IsAlive (nodes : BTreeMap ℕ NodeRecord) (id : ℕ) : Type 0 where
  pub node : NodeRecord
  pub registered : BTreeMap.get nodes id ≡ some node
  pub status : node.status ≡ healthy

-- The hint names such a node.
pub record IsLed (nodes : BTreeMap ℕ NodeRecord) (p : RangePlacement) : Type 0 where
  pub leader : ℕ
  pub hint : p.descriptor.leader_hint ≡ some leader
  pub alive : IsAlive nodes leader

same_status-healthy : (x : NodeStatus) → same_status x healthy ≡ true → x ≡ healthy
same_status-healthy healthy h = refl
same_status-healthy suspect h = absurd cc
same_status-healthy dead h = absurd cc

is_healthy-IsAlive :
    (nodes : BTreeMap ℕ NodeRecord) (id : ℕ) → is_healthy nodes id ≡ true → IsAlive nodes id
unfolding is_healthy
is_healthy-IsAlive nodes id h = elim (Option-cases (BTreeMap.get nodes id)) [
  | inl e ↦ absurd (ground (arith, e, h))
  | inr (r, e) ↦ record {
    node = r;
    registered = e;
    status = same_status-healthy r.status (ground (arith, e, h));
  }
]

-- The choice is a healthy node.
pub record Chosen (nodes : BTreeMap ℕ NodeRecord) (o : Option ℕ) : Type 0 where
  pub node : ℕ
  pub is_node : o ≡ some node
  pub is_healthy : is_healthy nodes node ≡ true

find_healthy_lem :
    (nodes : BTreeMap ℕ NodeRecord) (ns : List ℕ) (n : ℕ)
    → find_healthy nodes ns ≡ some n
    → is_healthy nodes n ≡ true
unfolding find_healthy
find_healthy_lem nodes [] n h = absurd cc
find_healthy_lem nodes (m ∷ ms) n h = elim (Bool-cases (is_healthy nodes m)) [
  | inl q ↦ subst (λ x. is_healthy nodes x ≡ true) {y = n} (ground (arith, q, h)) q
  | inr q ↦ find_healthy_lem nodes ms n (ground (arith, q, h))
]

abbrev live_leader : BTreeMap ℕ NodeRecord → RangePlacement → Option ℕ
live_leader nodes p = elim p.descriptor.leader_hint [
  | none ↦ none
  | some n ↦ if is_healthy nodes n then some n else none
]

live_leader_lem :
    (nodes : BTreeMap ℕ NodeRecord) (p : RangePlacement) (l : ℕ)
    → live_leader nodes p ≡ some l
    → is_healthy nodes l ≡ true
live_leader_lem nodes p l h = elim (Option-cases p.descriptor.leader_hint) [
  | inl e ↦ absurd (ground (arith, e, h))
  | inr (m, e) ↦ elim (Bool-cases (is_healthy nodes m)) [
    | inl q ↦ subst (λ x. is_healthy nodes x ≡ true) {y = l} (ground (arith, e, q, h)) q
    | inr q ↦ absurd (ground (arith, e, q, h))
  ]
]

module _ (nodes : BTreeMap ℕ NodeRecord) (n : ℕ)
    (some_healthy : first (healthy_nodes nodes) ≡ some n)
    (is_registered : is_healthy nodes n ≡ true) where
  preferred-Chosen : (p : RangePlacement) → Chosen nodes (preferred nodes p)
  unfolding preferred
  preferred-Chosen p = elim (Option-cases (live_leader nodes p)) [
    | inr (l, e) ↦ record {
      node = l;
      is_node = ground (arith, e);
      is_healthy = live_leader_lem nodes p l e;
    }
    | inl e ↦ elim (Option-cases (find_healthy nodes p.replicas)) [
      | inr (l, f) ↦ record {
        node = l;
        is_node = ground (arith, e, f);
        is_healthy = find_healthy_lem nodes p.replicas l f;
      }
      | inl f ↦ record {
        node = n;
        is_node = ground (arith, e, f, some_healthy);
        is_healthy = is_registered;
      }
    ]
  ]

  differs-eq : (a b : Option ℕ) → differs a b ≡ false → a ≡ b
  unfolding differs
  differs-eq a b h = ground (arith, h)

  rebalanced-IsLed : (p : RangePlacement) → IsLed nodes (rebalanced nodes p).0
  unfolding rebalanced
  rebalanced-IsLed p =
      let c = preferred-Chosen p in
      if_cases (λ (r : RangePlacement × Bool × Bool). IsLed nodes r.0)
        (differs p.descriptor.leader_hint (preferred nodes p))
        (λ q. record {
          leader = c.node;
          hint = c.is_node;
          alive = is_healthy-IsAlive nodes c.node c.is_healthy;
        })
        (λ q.
          let same = differs-eq p.descriptor.leader_hint (preferred nodes p) q in
          if_both (λ (r : RangePlacement × Bool × Bool). IsLed nodes r.0) (is_empty p.replicas)
            (record {
              leader = c.node;
              hint = same ∙ c.is_node;
              alive = is_healthy-IsAlive nodes c.node c.is_healthy;
            })
            (record {
              leader = c.node;
              hint = same ∙ c.is_node;
              alive = is_healthy-IsAlive nodes c.node c.is_healthy;
            }))

  all_IsLed :
      (ranges : BTreeMap ℕ RangePlacement)
      → All (λ e. IsLed nodes e.1) (rebalance_ranges nodes ranges)
  unfolding rebalance_ranges
  all_IsLed [] = tt
  all_IsLed ((id, p) ∷ ranges) = (rebalanced-IsLed p, all_IsLed ranges)

-- The key of a record is its id.
abbrev pub Keyed : BTreeMap ℕ NodeRecord → Type 0
Keyed nodes = All (λ e. e.1.node_id ≡ e.0) nodes

first_is_healthy :
    (nodes : BTreeMap ℕ NodeRecord) (n : ℕ)
    → IsSorted nodes
    → Keyed nodes
    → first (healthy_nodes nodes) ≡ some n
    → is_healthy nodes n ≡ true
unfolding healthy_nodes is_healthy
first_is_healthy [] n s k h = absurd cc
first_is_healthy ((id, r) ∷ nodes) n s k h = elim (Bool-cases (same_status r.status healthy)) [
  | inl q ↦ ground (arith, q, h, k.0, get-cons nodes id n r, eqb_refl id)
  | inr q ↦
      let rest = first_is_healthy nodes n s.1 k.1 (ground (arith, q, h)) in
      elim (Bool-cases (eqb n id)) [
        | inl e ↦ absurd (
            ground (
              arith,
              rest,
              ap (λ x. BTreeMap.get nodes x) (eq_of_eqb n id e),
              get-Above id nodes s.0,
            ))
        | inr e ↦ ground (arith, rest, e, get-cons nodes id n r)
      ]
]

first-is_empty : (ns : List ℕ) → is_empty ns ≡ false → (n : ℕ) × (first ns ≡ some n)
first-is_empty [] h = absurd cc
first-is_empty (n ∷ ns) h = (n, refl)

some_healthy :
    (nodes : BTreeMap ℕ NodeRecord) (id : ℕ)
    → IsAlive nodes id
    → is_empty (healthy_nodes nodes) ≡ false
unfolding healthy_nodes
some_healthy [] id h = absurd (ground (arith, h.registered, get_empty {V = NodeRecord} id))
some_healthy ((j, r) ∷ nodes) id h = elim (Bool-cases (eqb id j)) [
  | inl e ↦ ground (
    arith,
    e,
    h.status,
    h.registered,
    get-cons nodes j id r,
    ap (λ x. same_status x healthy) h.status,
  )
  | inr e ↦
      let rest = some_healthy nodes id (record {
        node = h.node;
        registered = ground (arith, e, h.registered, get-cons nodes j id r);
        status = h.status;
      }) in
      ground (arith, rest)
]

-- If the registry, whose keys are sorted and are the ids of its records, has a node whose status is
-- healthy, then behind the loop of `rebalance` the hint of each range's leader names a node whose
-- record is in the registry with the status healthy.
pub rebalance_ranges-IsLed :
    (nodes : BTreeMap ℕ NodeRecord) (ranges : BTreeMap ℕ RangePlacement) (id : ℕ)
    → IsSorted nodes
    → Keyed nodes
    → IsAlive nodes id
    → All (λ e. IsLed nodes e.1) (rebalance_ranges nodes ranges)
rebalance_ranges-IsLed nodes ranges id s k h =
    let (n, e) = first-is_empty (healthy_nodes nodes) (some_healthy nodes id h) in
    all_IsLed nodes n e (first_is_healthy nodes n s k e) ranges
