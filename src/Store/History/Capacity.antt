-- ===== src/Store/History/Capacity.antt =====
-- What an accepted placement guarantees of the node and of the environment's binding.
use navarch.Prelude.{
  ltb_ℤ-true, pos, int64_max, word_mod, Bool-cases, ℕ, ◌≡◌, refl, ◌∙◌, ap, true, false, inl, inr,
  Option, none, some, List, arith, update_row, row, ℤ, ltb_ℤ, ltb_ℤ-false, ◌≤ℤ◌, ◌+ℤ◌, ◌-ℤ◌,
  +ℤ_parts, -ℤ_parts, row-update_row, ==_self, ==_iff,
}
use navarch.Store.{
  wrapped_from_above, pending, Deployment, Environment, Node, free_cpu_millis, free_memory_bytes,
  Db, ok, deployment_row, environment_row, node_row, same_state,
}
use navarch.Store.Placement.{NewInstance, admits, bind_first, bind_home, reserve, place_deployment}
use navarch.Store.History.Place.{place-effect}

reserve_fits :
    (capacity alloc peak : ℤ) → ltb_ℤ (capacity -ℤ alloc) peak ≡ false → alloc +ℤ peak ≤ℤ capacity
reserve_fits capacity alloc peak h =
    omega
      (arith, ltb_ℤ-false (capacity -ℤ alloc) peak h, +ℤ_parts alloc peak, -ℤ_parts capacity alloc)

cpu_reserved :
    (n : Node) (cpu : ℤ)
    → ltb_ℤ (free_cpu_millis n) cpu ≡ false
    → n.alloc_cpu_millis +ℤ cpu ≤ℤ n.cpu_millis
unfolding free_cpu_millis
cpu_reserved n cpu h = reserve_fits n.cpu_millis n.alloc_cpu_millis cpu h

-- A wrapped difference is no larger than the difference.
unwrapped : (d peak : ℤ) → ltb_ℤ (wrapped_from_above d) peak ≡ false → ltb_ℤ d peak ≡ false
unwrapped d peak h = elim (Bool-cases (ltb_ℤ (pos int64_max) d)) [
  | inl high ↦ ltb_ℤ-true d peak (
      omega (arith, ltb_ℤ-false (d -ℤ pos word_mod) peak (ground arith), -ℤ_parts d (pos word_mod)))
  | inr low ↦ ground arith
]

mem_reserved :
    (n : Node) (mem : ℤ)
    → ltb_ℤ (free_memory_bytes n) mem ≡ false
    → n.alloc_memory_bytes +ℤ mem ≤ℤ n.memory_bytes
unfolding free_memory_bytes
mem_reserved n mem h =
    reserve_fits n.memory_bytes n.alloc_memory_bytes mem
      (unwrapped (n.memory_bytes -ℤ n.alloc_memory_bytes) mem h)

reserved_row :
    (cpu mem : ℤ) (node : ℕ) (n : Node) (rows : List Node)
    → row (λ (x : Node). x.id) node rows ≡ some n
    → row (λ (x : Node). x.id) node (update_row (λ (x : Node). x.id) node (reserve cpu mem) rows)
      ≡ some (reserve cpu mem n)
reserved_row cpu mem node n rows at =
    row-update_row (λ (x : Node). x.id) (reserve cpu mem) (λ x. refl) node node rows
    ∙ rw (==_self node, at) refl

bound_row :
    (home : Option ℕ) (env node : ℕ) (e : Environment) (rows : List Environment)
    → row (λ (x : Environment). x.id) env rows ≡ some e
    → e.home_node_id ≡ home
    → admits home node ≡ true
    → (o : Environment) × (row (λ (x : Environment). x.id) env (bind_first home env node rows)
        ≡ some o)
      × (o.home_node_id ≡ some node)
bound_row none env node e rows at h ok_home = (
  bind_home node e,
  row-update_row (λ (x : Environment). x.id) (bind_home node) (λ x. refl) env env rows
      ∙ rw (==_self env, at) refl,
  refl,
)
bound_row (some k) env node e rows at h ok_home = (e, at, h ∙ ap some ((==_iff k node).0 ok_home))

-- A placement of a pending deployment that succeeds leaves the node's reservations within its
-- capacity, and the environment bound to that node.
pub place_within_capacity :
    (now dep node : ℕ) (insts : List NewInstance) (cpu mem : ℤ) (db db' : Db) (d : Deployment)
    → deployment_row db dep ≡ some d
    → same_state d.state pending ≡ true
    → place_deployment now dep node insts cpu mem db ≡ ok (tt, db')
    → (n : Node) × (node_row db' node ≡ some n)
      × (n.alloc_cpu_millis ≤ℤ n.cpu_millis)
      × (n.alloc_memory_bytes ≤ℤ n.memory_bytes)
      × (e : Environment) × (environment_row db' d.environment_id ≡ some e)
      × (e.home_node_id ≡ some node)
place_within_capacity now dep node insts cpu mem db db' d at p h =
    let (d', at', cases) = place-effect now dep node insts cpu mem db db' h in
    let same : d' ≡ d = ground arith in
    elim cases [
      | inl (miss, _) ↦ absurd (ground arith)
      | inr (e, n, a, eq) ↦
          let (o, at_o, home) =
            bound_row e.home_node_id d'.environment_id node e db.environments a.at_e refl a.home in
          (
            reserve cpu mem n,
            rw eq (reserved_row cpu mem node n db.nodes a.at_n),
            cpu_reserved n cpu a.cpu_fits,
            mem_reserved n mem a.mem_fits,
            o,
            rw (eq, ← same) at_o,
            home,
          )
    ]
