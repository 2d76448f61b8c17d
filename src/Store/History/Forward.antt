-- ===== src/Store/History/Forward.antt =====
-- What the transactions that keep every deployment do to its row and its state.
use navarch.Prelude.{
  ℕ, ◌≤◌, ◌≡◌, refl, sym, ◌∙◌, subst, ap, true, inl, inr, Option, some, List, arith, row, ℤ, String,
  any, update_row, apply_to, row-key, ◌==◌,
}
use navarch.Store.{
  DeploymentState, pending, scheduling, starting, healthy, live, superseded, failed, stopped,
  Deployment, Db, ok, deployment_row, same_state, set_state,
}
use navarch.Store.Deployments.{valid_transitions, promote_deployment}
use navarch.Store.Placement.{NewInstance, place_deployment}
use navarch.Store.History.Rows.{row_forth}
use navarch.Store.History.Advance.{update-effect}
use navarch.Store.History.Place.{place-effect}
use navarch.Store.History.Create.{create-effect, unbroken, skip_head}
use navarch.Store.History.Promote.{promote-effect, turn, row-promoted}
use navarch.Store.History.Environments.{releases-rows}
use navarch.Store.History.Steps.{
  Step, creates, places, advances, promotes, frees, reports, releases, claims, tends, frees-rows,
  reports-rows, claims-deployments,
}

-- Where a state stands in a rollout; the ends come last.
abbrev pub rank : DeploymentState → ℕ
rank pending = 0
rank scheduling = 1
rank starting = 2
rank healthy = 3
rank live = 4
rank superseded = 5
rank failed = 5
rank stopped = 6

-- A later version of the same row.
pub record Onward (d c : Deployment) : Type 0 where
  pub env : c.environment_id ≡ d.environment_id
  pub revision : c.revision ≡ d.revision
  pub slot : c.slot ≡ d.slot
  pub resolved : c.resolved_spec ≡ d.resolved_spec
  pub forward : rank d.state ≤ rank c.state

pub Onward-refl : (d : Deployment) → Onward d d
Onward-refl d = record {
  env = refl;
  revision = refl;
  slot = refl;
  resolved = refl;
  forward = omega arith;
}

pub Onward-trans : {a b c : Deployment} → Onward a b → Onward b c → Onward a c
Onward-trans p q = record {
  env = q.env ∙ p.env;
  revision = q.revision ∙ p.revision;
  slot = q.slot ∙ p.slot;
  resolved = q.resolved ∙ p.resolved;
  forward = omega arith;
}

allowed_forward :
    (to from : DeploymentState) (allowed : List DeploymentState)
    → valid_transitions to ≡ some allowed
    → any (same_state from) allowed ≡ true
    → rank from ≤ rank to
unfolding valid_transitions
allowed_forward to from allowed v a = ground arith

turn-Onward :
    (now id : ℕ) (prev : Option ℕ) (p : ℕ) (d : Deployment)
    → ((p == id) ≡ true → same_state d.state healthy ≡ true)
    → Onward d (turn now id prev p d)
turn-Onward now id prev p d h = record {
  env = ground arith;
  revision = ground arith;
  slot = ground arith;
  resolved = ground arith;
  forward = ground arith;
}

hit-id : (id p : ℕ) → (p == id) ≡ true → p ≡ id
hit-id id p h = ground arith

some_inj : {a b : Deployment} → some a ≡ some b → a ≡ b
some_inj e = cc

-- The row after a transaction.
abbrev pub Later : Db → ℕ → Deployment → Type 0
Later db' p d = (c : Deployment) × (deployment_row db' p ≡ some c) × Onward d c

set_state-Later :
    (db db' : Db) (id now : ℕ) (to : DeploymentState) (reason : String) (k : Deployment)
    → db'.deployments
      ≡ update_row (λ (x : Deployment). x.id) id (set_state to reason now) db.deployments
    → deployment_row db id ≡ some k
    → rank k.state ≤ rank to
    → (p : ℕ) (d : Deployment) → deployment_row db p ≡ some d
    → Later db' p d
set_state-Later db db' id now to reason k e at_k le p d at =
    let (c, at_c, o) =
      row_forth (λ (x : Deployment). x.id) (set_state to reason now) (λ x. refl) Onward Onward-refl
        id db.deployments
        (λ x at_x.
          let same : k ≡ x = some_inj (sym at_k ∙ at_x) in
          record {
            env = refl;
            revision = refl;
            slot = refl;
            resolved = refl;
            forward = subst (λ (y : Deployment). rank y.state ≤ rank to) same le;
          })
        p d at in
    (c, subst (λ t. row (λ (x : Deployment). x.id) p t ≡ some c) (sym e) at_c, o)

pending_first : (s : DeploymentState) → same_state s pending ≡ true → rank s ≤ rank scheduling
pending_first s h = ground arith

places-Later :
    (now dep node : ℕ) (insts : List NewInstance) (cpu mem : ℤ) (db db' : Db)
    → place_deployment now dep node insts cpu mem db ≡ ok (tt, db')
    → (p : ℕ) (d : Deployment) → deployment_row db p ≡ some d
    → Later db' p d
places-Later now dep node insts cpu mem db db' h p d at =
    let (k, at_k, cases) = place-effect now dep node insts cpu mem db db' h in
    let own : dep ≡ k.id = sym (row-key (λ (x : Deployment). x.id) dep db.deployments k at_k) in
    elim cases [
      | inl (_, same) ↦ (d, rw same at, Onward-refl d)
      | inr (e, n, a, w) ↦
          set_state-Later db db' k.id now scheduling "" k (ap (λ (x : Db). x.deployments) w)
            (subst (λ i. deployment_row db i ≡ some k) own at_k)
            (pending_first k.state a.is_pending) p d at
    ]

promotes-Later :
    (now id : ℕ) (prev : Option ℕ) (db db' : Db)
    → promote_deployment now id db ≡ ok (prev, db')
    → (p : ℕ) (d : Deployment) → deployment_row db p ≡ some d
    → Later db' p d
promotes-Later now id prev db db' h p d at =
    let (k, e, m) = promote-effect now id prev db db' h in
    (
      turn now id e.live_deployment_id p d,
      rw m.written (
          row-promoted now id k.environment_id e.live_deployment_id db p
          ∙ ap (apply_to (turn now id e.live_deployment_id p)) at),
      turn-Onward now id e.live_deployment_id p d (λ hit.
          let same : k ≡ d =
            some_inj
              (sym m.at_d ∙ subst (λ i. deployment_row db i ≡ some d) (hit-id id p hit) at) in
          subst (λ (x : Deployment). same_state x.state healthy ≡ true) same m.is_healthy),
    )

-- A transaction leaves every deployment in place: its environment, revision, colour and resolved
-- specification are unchanged, and its state has not moved back.
pub Step-forward :
    {db db' : Db}
    → Step db db'
    → (p : ℕ) (d : Deployment) → deployment_row db p ≡ some d
    → Later db' p d
Step-forward {db} {db'} (creates id now q n h) p d at =
    let (e, c) = create-effect id now q db db' n h in
    (
      d,
      rw c.written
          (skip_head n db.deployments p (unbroken n d p db.deployments c.unique at).id ∙ at),
      Onward-refl d,
    )
Step-forward {db} {db'} (places now dep node insts cpu mem h) p d at =
    places-Later now dep node insts cpu mem db db' h p d at
Step-forward {db} {db'} (advances now id to reason t h) p d at =
    let (k, allowed, at_k, v, a, w) = update-effect now id to reason db db' h in
    set_state-Later db db' id now to reason k (ap (λ (x : Db). x.deployments) w) at_k
      (allowed_forward to k.state allowed v a) p d at
Step-forward {db} {db'} (promotes now id prev h) p d at = promotes-Later now id prev db db' h p d at
Step-forward {db} {db'} (frees dep h) p d at = (
  d,
  subst (λ t. row (λ (x : Deployment). x.id) p t ≡ some d) (sym (frees-rows dep db db' h).0) at,
  Onward-refl d,
)
Step-forward {db} {db'} (reports now node id o h) p d at = (
  d,
  subst (λ t. row (λ (x : Deployment). x.id) p t ≡ some d)
      (sym (reports-rows now node id o db db' h).0) at,
  Onward-refl d,
)
Step-forward {db} {db'} (releases env h) p d at = (
  d,
  subst (λ t. row (λ (x : Deployment). x.id) p t ≡ some d) (sym (releases-rows env db db' h).0) at,
  Onward-refl d,
)
Step-forward {db} {db'} (claims now within org w) p d at = (
  d,
  subst (λ t. row (λ (x : Deployment). x.id) p t ≡ some d)
      (sym (claims-deployments now within org db db' w)) at,
  Onward-refl d,
)
Step-forward {db} {db'} (tends ns w) p d at =
    (d, ap (λ x. deployment_row x p) w ∙ at, Onward-refl d)
