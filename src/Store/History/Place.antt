-- ===== src/Store/History/Place.antt =====
-- PlaceDeployment: what it accepts and writes, the capacity it leaves, and the invariant.
use navarch.Prelude.{
  ℕ, ◌≡◌, refl, sym, subst, true, false, inl, inr, ◌⊎◌, Option, none, some, List, arith, Bool-cases,
  Option-cases, row, ℤ, ltb_ℤ, row-key,
}
use navarch.Store.{
  DeploymentState, pending, scheduling, Deployment, Environment, Node, free_cpu_millis,
  free_memory_bytes, Db, ok, deployment_row, environment_row, node_row, same_state, set_state,
  is_active, is_live,
}
use navarch.Store.Placement.{
  NewInstance, admits, bind_first, bind_home, placed, place_pending, place_deployment,
}
use navarch.Store.History.{Inv}
use navarch.Store.History.Evolve.{SamePointers, Evolves, Evolves-Inv}
use navarch.Store.History.Rows.{evolve_row, row_back, row_forth}
use navarch.Store.History.Advance.{same_pointers}

-- The facts behind an accepted placement.
pub record Accepted (db : Db) (dep node : ℕ) (cpu mem : ℤ) (d : Deployment) (e : Environment)
    (n : Node) : Type 0 where
  pub at_d : deployment_row db dep ≡ some d
  pub is_pending : same_state d.state pending ≡ true
  pub at_e : environment_row db d.environment_id ≡ some e
  pub home : admits e.home_node_id node ≡ true
  pub at_n : node_row db node ≡ some n
  pub cpu_fits : ltb_ℤ (free_cpu_millis n) cpu ≡ false
  pub mem_fits : ltb_ℤ (free_memory_bytes n) mem ≡ false

place_pending-effect :
    (now : ℕ) (d : Deployment) (node : ℕ) (insts : List NewInstance) (cpu mem : ℤ) (db db' : Db)
    → deployment_row db d.id ≡ some d
    → same_state d.state pending ≡ true
    → place_pending now d node insts cpu mem db ≡ ok (tt, db')
    → (e : Environment) × (n : Node) × Accepted db d.id node cpu mem d e n
      × (db' ≡ placed now d e node insts cpu mem db)
unfolding place_pending
place_pending-effect now d node insts cpu mem db db' at p h =
    elim (Option-cases (environment_row db d.environment_id)) [
      | inl missing ↦ absurd (ground arith)
      | inr (e, at_e) ↦ elim (Option-cases (node_row db node)) [
        | inl missing ↦ absurd (ground arith)
        | inr (n, at_n) ↦ (
          e,
          n,
          record {
            at_d = at;
            is_pending = p;
            at_e = at_e;
            home = ground arith;
            at_n = at_n;
            cpu_fits = ground arith;
            mem_fits = ground arith;
          },
          ground arith,
        )
      ]
    ]

pub place-effect :
    (now dep node : ℕ) (insts : List NewInstance) (cpu mem : ℤ) (db db' : Db)
    → place_deployment now dep node insts cpu mem db ≡ ok (tt, db')
    → (d : Deployment) × (deployment_row db dep ≡ some d)
      × (((same_state d.state pending ≡ false) × (db' ≡ db))
          ⊎ ((e : Environment) × (n : Node) × Accepted db dep node cpu mem d e n
              × (db' ≡ placed now d e node insts cpu mem db)))
unfolding place_deployment
place-effect now dep node insts cpu mem db db' h = elim (Option-cases (deployment_row db dep)) [
  | inl missing ↦ absurd (ground arith)
  | inr (d, at) ↦
      let here : dep ≡ d.id = sym (row-key (λ (x : Deployment). x.id) dep db.deployments d at) in
      (
        d,
        at,
        elim (Bool-cases (same_state d.state pending)) [
          | inl p ↦ inr (
              subst
                (λ i.
                  (e : Environment) × (n : Node) × Accepted db i node cpu mem d e n
                  × (db' ≡ placed now d e node insts cpu mem db))
                (sym here)
                (place_pending-effect now d node insts cpu mem db db'
                  (subst (λ i. deployment_row db i ≡ some d) here at) p (ground arith)))
          | inr p ↦ inl (p, ground arith)
        ],
      )
]

active_not_live : (s : DeploymentState) → is_active s ≡ true → is_live s ≡ false
active_not_live s h = ground arith

abbrev SameLive : Environment → Environment → Type 0
SameLive o e = o.live_deployment_id ≡ e.live_deployment_id

bind_first-same :
    (home : Option ℕ) (env node : ℕ) (db db' : Db)
    → db'.environments ≡ bind_first home env node db.environments
    → SamePointers db db'
bind_first-same (some h) env node db db' eq = same_pointers db db' eq
bind_first-same none env node db db' eq = record {
  env_back = λ i o h.
      row_back (λ (x : Environment). x.id) (bind_home node) (λ x. refl) SameLive (λ x. refl) env
        db.environments (λ x at. refl) i o
        (subst (λ t. row (λ (x : Environment). x.id) i t ≡ some o) eq h);
  env_forth = λ i o h.
      let (e, at, same) =
        row_forth (λ (x : Environment). x.id) (bind_home node) (λ x. refl) SameLive (λ x. refl) env
          db.environments (λ x at. refl) i o h in
      (e, subst (λ t. row (λ (x : Environment). x.id) i t ≡ some e) (sym eq) at, same);
}

placed-Evolves :
    (now : ℕ) (d : Deployment) (e : Environment) (node : ℕ) (insts : List NewInstance) (cpu mem : ℤ)
    (db : Db)
    → deployment_row db d.id ≡ some d
    → is_active d.state ≡ true
    → Evolves db (placed now d e node insts cpu mem db)
placed-Evolves now d e node insts cpu mem db at act =
    evolve_row db (placed now d e node insts cpu mem db) d.id (set_state scheduling "" now)
      (λ x. refl) refl
      (λ c at_c.
        let same : d ≡ c = ground arith in
        record {
          env = refl;
          revision = refl;
          slot = refl;
          is_live =
              subst (λ (x : Deployment). is_live x.state ≡ false) same
                (active_not_live d.state act);
          active = λ _. subst (λ (x : Deployment). is_active x.state ≡ true) same act;
        })
      (bind_first-same e.home_node_id d.environment_id node db
        (placed now d e node insts cpu mem db) refl)

pending_active : (s : DeploymentState) → same_state s pending ≡ true → is_active s ≡ true
pending_active s h = ground arith

-- A placement keeps the invariant of the deployments.
pub place-Inv :
    (now dep node : ℕ) (insts : List NewInstance) (cpu mem : ℤ) (db db' : Db)
    → place_deployment now dep node insts cpu mem db ≡ ok (tt, db')
    → Inv db
    → Inv db'
place-Inv now dep node insts cpu mem db db' h v =
    let (d, at, cases) = place-effect now dep node insts cpu mem db db' h in
    let here : dep ≡ d.id = sym (row-key (λ (x : Deployment). x.id) dep db.deployments d at) in
    elim cases [
      | inl (p, e) ↦ rw e v
      | inr (e, n, a, eq) ↦ rw eq (
          Evolves-Inv
            (placed-Evolves now d e node insts cpu mem db
              (subst (λ i. deployment_row db i ≡ some d) here at)
              (pending_active d.state a.is_pending))
            v)
    ]
