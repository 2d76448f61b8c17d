-- ===== src/Store/Nodes/Cordon.antt =====
-- What heartbeats, drains and the stale sweep may do to a node's state.
use navarch.Prelude.{
  ◌+◌, ◌<◌, ◌≤◌, ltb, Option, none, ℕ, ◌≡◌, refl, sym, ◌∙◌, ap, subst, Bool, true, false, some,
  List, [], ◌∷◌, map, arith, row, update_row, apply_to, row-update_row, ◌==◌, if◌then◌else◌, inl,
  inr, Option-cases, Bool-cases,
}
use navarch.Store.{
  NodeState, pending, ready, draining, unreachable, retired, Node, Db, ok, err, conflict, node_row,
}
use navarch.Store.Nodes.{
  heartbeat, drain_node, mark_stale, beaten, aged, is_fresh, uncordon_node, uncordoned,
}

-- One of the writes that agents and the scheduler make without an operator's uncordon.
pub data Beat (db db' : Db) : Type 0 where
  beats : (now node : ℕ) → heartbeat now node db ≡ ok (tt, db') → Beat db db'
  drains : (node : ℕ) → drain_node node db ≡ ok (tt, db') → Beat db db'
  ages : (now : ℕ) → db' ≡ mark_stale now db → Beat db db'

pub data Beats (db : Db) : Db → Type 0 where
  none_yet : Beats db db
  then_one : {a b : Db} → Beats db a → Beat a b → Beats db b

-- The states that only an operator leaves.
abbrev pub is_cordoned : NodeState → Bool
is_cordoned draining = true
is_cordoned retired = true
is_cordoned _ = false

row-map :
    (f : Node → Node)
    → ((x : Node) → (f x).id ≡ x.id)
    → (i : ℕ) (xs : List Node)
    → row (λ (x : Node). x.id) i (map f xs) ≡ apply_to f (row (λ (x : Node). x.id) i xs)
unfolding row
row-map f keep i [] = refl
row-map f keep i (x ∷ xs) = ground (arith, keep x, row-map f keep i xs)

abbrev pub StillThere : Db → ℕ → Node → Type 0
StillThere db' i n = (m : Node) × (node_row db' i ≡ some m) × (m.state ≡ n.state)

updated_row :
    (f : Node → Node)
    → ((x : Node) → (f x).id ≡ x.id)
    → (j i : ℕ) (db db' : Db) (n : Node)
    → db' ≡ record db { nodes = update_row (λ (x : Node). x.id) j f db.nodes }
    → node_row db i ≡ some n
    → ((i ≡ j) → (f n).state ≡ n.state)
    → StillThere db' i n
updated_row f keep j i db db' n w at h = elim (Bool-cases (i == j)) [
  | inl hit ↦ (
    f n,
    ap (λ x. node_row x i) w
        ∙ row-update_row (λ (x : Node). x.id) f keep j i db.nodes
        ∙ rw (hit, at) refl,
    h (ground arith),
  )
  | inr miss ↦ (
    n,
    ap (λ x. node_row x i) w
        ∙ row-update_row (λ (x : Node). x.id) f keep j i db.nodes
        ∙ rw (miss, at) refl,
    refl,
  )
]

beaten-cordoned : (s : NodeState) → is_cordoned s ≡ true → beaten s ≡ s
unfolding beaten
beaten-cordoned s h = ground arith

heartbeat-write :
    (now node : ℕ) (db db' : Db)
    → heartbeat now node db ≡ ok (tt, db')
    → db' ≡ record db {
      nodes =
          update_row
            (λ (x : Node). x.id)
            node
            (λ x. record x { state = beaten x.state; last_heartbeat = some now })
            db.nodes;
    }
unfolding heartbeat
heartbeat-write now node db db' h = elim (Option-cases (node_row db node)) [
  | inl m ↦ absurd (ground arith)
  | inr (n, at) ↦ ground arith
]

drain_node-write :
    (node : ℕ) (db db' : Db)
    → drain_node node db ≡ ok (tt, db')
    → (n : Node) × (node_row db node ≡ some n)
      × (is_cordoned n.state ≡ false)
      × (db' ≡ record db {
        nodes = update_row (λ (x : Node). x.id) node (λ x. record x { state = draining }) db.nodes;
      })
unfolding drain_node
drain_node-write node db db' h = elim (Option-cases (node_row db node)) [
  | inl m ↦ absurd (ground arith)
  | inr (n, at) ↦ (n, at, ground arith, ground arith)
]

aged-id : (now : ℕ) (x : Node) → (aged now x).id ≡ x.id
unfolding aged
aged-id now x = ground arith

aged-cordoned : (now : ℕ) (x : Node) → is_cordoned x.state ≡ true → (aged now x).state ≡ x.state
unfolding aged
aged-cordoned now x h = ground arith

Beat-keeps :
    {db db' : Db}
    → Beat db db'
    → (i : ℕ) (n : Node) → node_row db i ≡ some n
    → is_cordoned n.state ≡ true
    → StillThere db' i n
unfolding mark_stale
Beat-keeps {db} {db'} (beats now node h) i n at c =
    updated_row _ (λ x. refl) node i db db' n (heartbeat-write now node db db' h) at
      (λ _. beaten-cordoned n.state c)
Beat-keeps {db} {db'} (drains node h) i n at c =
    let (k, at_k, free, w) = drain_node-write node db db' h in
    updated_row _ (λ x. refl) node i db db' n w at (λ e. absurd (ground arith))
Beat-keeps {db} {db'} (ages now w) i n at c = (
  aged now n,
  ap (λ x. node_row x i) w
      ∙ row-map (aged now) (aged-id now) i db.nodes
      ∙ ap (apply_to (aged now)) at,
  aged-cordoned now n c,
)

-- No heartbeat, drain or stale sweep, in any number and order, changes the state of a node that is
-- draining or retired.
pub cordon_holds :
    {db db' : Db}
    → Beats db db'
    → (i : ℕ) (n : Node) → node_row db i ≡ some n
    → is_cordoned n.state ≡ true
    → StillThere db' i n
cordon_holds none_yet i n at c = (n, at, refl)
cordon_holds (then_one r s) i n at c =
    let (m, at_m, e) = cordon_holds r i n at c in
    let (k, at_k, e') = Beat-keeps s i m at_m (subst (λ x. is_cordoned x ≡ true) (sym e) c) in
    (k, at_k, e' ∙ e)

-- The uncordon leaves the node n of the row `node` in the state `s`, and writes nothing else.
pub Leaves : ℕ → ℕ → Db → Node → NodeState → Type 0
Leaves now node db n s =
    (db' : Db) × (uncordon_node now node db ≡ ok (tt, db'))
    × (db' ≡ record db { nodes = db'.nodes })
    × ((i : ℕ)
        → node_row db' i ≡ (if i == node then some (record n { state = s }) else node_row db i))

-- What an uncordon does with the node n of the row `node`.
pub data Uncordons (now node : ℕ) (db : Db) (n : Node) : Type 0 where
  refuses : n.state ≡ retired → uncordon_node now node db ≡ err conflict → Uncordons now node db n
  ignores :
      is_cordoned n.state ≡ false
      → uncordon_node now node db ≡ ok (tt, db)
      → Uncordons now node db n
  readies :
      (t : ℕ)
      → n.state ≡ draining
      → n.last_heartbeat ≡ some t
      → now < t + 30000
      → Leaves now node db n ready
      → Uncordons now node db n
  silences :
      (t : ℕ)
      → n.state ≡ draining
      → n.last_heartbeat ≡ some t
      → t + 30000 ≤ now
      → Leaves now node db n unreachable
      → Uncordons now node db n
  unheard :
      n.state ≡ draining
      → n.last_heartbeat ≡ none
      → Leaves now node db n unreachable
      → Uncordons now node db n

uncordon_node-Leaves :
    (now node : ℕ) (db : Db) (n : Node)
    → node_row db node ≡ some n
    → n.state ≡ draining
    → Leaves now node db n (if is_fresh now n.last_heartbeat then ready else unreachable)
unfolding uncordon_node Leaves
uncordon_node-Leaves now node db n at d = (
  record db { nodes = update_row (λ (x : Node). x.id) node (uncordoned now) db.nodes },
  rw (at, d) refl,
  refl,
  λ i.
      row-update_row (λ (x : Node). x.id) (uncordoned now) (λ x. refl) node i db.nodes
      ∙ written i (i == node) refl,
)
  where
    written :
        (i : ℕ) (b : Bool)
        → (i == node) ≡ b
        → (if b then apply_to (uncordoned now) (node_row db i) else node_row db i) ≡ (
            if b
            then some
                (record n { state = if is_fresh now n.last_heartbeat then ready else unreachable })
            else node_row db i)
    written i true e = let same : i ≡ node = ground arith in rw (same, at) refl
    written i false e = refl

uncordon_draining :
    (now node : ℕ) (db : Db) (n : Node) (heard : Option ℕ)
    → n.state ≡ draining
    → n.last_heartbeat ≡ heard
    → Leaves now node db n (if is_fresh now heard then ready else unreachable)
    → Uncordons now node db n
unfolding is_fresh
uncordon_draining now node db n none d at r = unheard d at r
uncordon_draining now node db n (some t) d at r = elim (Bool-cases (ltb now (t + 30000))) [
  | inl soon ↦
      readies t d at (ground arith)
        (subst (λ (b : Bool). Leaves now node db n (if b then ready else unreachable)) soon r)
  | inr late ↦
      silences t d at (ground arith)
        (subst (λ (b : Bool). Leaves now node db n (if b then ready else unreachable)) late r)
]

-- An uncordon refuses a retired node and leaves one that is neither draining nor retired as it is. A
-- draining node becomes ready when its last heartbeat is less than 30 seconds old, and unreachable
-- when it is older or there was none; its reservations, the other nodes and the other tables stay.
pub uncordon_exact :
    (now node : ℕ) (db : Db) (n : Node) → node_row db node ≡ some n → Uncordons now node db n
unfolding uncordon_node
uncordon_exact now node db n at = by_state n.state refl
  where
    by_state : (s : NodeState) → n.state ≡ s → Uncordons now node db n
    by_state pending e = ignores (rw e refl) (rw (at, e) refl)
    by_state retired e = refuses e (rw (at, e) refl)
    by_state draining e =
        uncordon_draining now node db n n.last_heartbeat e refl
          (uncordon_node-Leaves now node db n at e)
    by_state ready e = ignores (rw e refl) (rw (at, e) refl)
    by_state unreachable e = ignores (rw e refl) (rw (at, e) refl)
