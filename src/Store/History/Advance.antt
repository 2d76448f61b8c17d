-- ===== src/Store/History/Advance.antt =====
-- UpdateDeploymentState keeps the invariant for the targets that the control plane asks for.
use navarch.Prelude.{
  ℕ, ◌≡◌, refl, sym, subst, String, Bool, true, false, some, List, any, arith, row,
}
use navarch.Store.{
  DeploymentState, starting, healthy, failed, Deployment, Environment, Db, ok, deployment_row,
  same_state, set_state, is_active, is_live,
}
use navarch.Store.Deployments.{valid_transitions, advanced, update_deployment_state}
use navarch.Store.History.{Inv}
use navarch.Store.History.Evolve.{SamePointers, Evolves, Evolves-Inv}
use navarch.Store.History.Rows.{evolve_row}

pub same_pointers : (db db' : Db) → db'.environments ≡ db.environments → SamePointers db db'
same_pointers db db' e = record {
  env_back = λ i o h. (o, subst (λ t. row (λ (x : Environment). x.id) i t ≡ some o) e h, refl);
  env_forth =
      λ i o h. (o, subst (λ t. row (λ (x : Environment). x.id) i t ≡ some o) (sym e) h, refl);
}

-- An accepted change names a row whose state is listed for the target, and writes that row.
pub update-effect :
    (now id : ℕ) (to : DeploymentState) (reason : String) (db db' : Db)
    → update_deployment_state now id to reason db ≡ ok (tt, db')
    → (d : Deployment) × (allowed : List DeploymentState) × (deployment_row db id ≡ some d)
      × (valid_transitions to ≡ some allowed)
      × (any (same_state d.state) allowed ≡ true)
      × (db' ≡ advanced now id to reason db)
unfolding update_deployment_state
update-effect now id to reason db db' h = ground arith

-- The targets that the scheduler and the controller ask for.
abbrev pub is_rollout_target : DeploymentState → Bool
is_rollout_target starting = true
is_rollout_target healthy = true
is_rollout_target failed = true
is_rollout_target _ = false

target_keeps :
    (to from : DeploymentState) (allowed : List DeploymentState)
    → is_rollout_target to ≡ true
    → valid_transitions to ≡ some allowed
    → any (same_state from) allowed ≡ true
    → (is_live from ≡ is_live to) × (is_active from ≡ true)
unfolding valid_transitions
target_keeps to from allowed t v a = ground arith

-- The transition keeps what is live, and only drops what is active.
pub update-Evolves :
    (now id : ℕ) (to : DeploymentState) (reason : String) (db db' : Db)
    → is_rollout_target to ≡ true
    → update_deployment_state now id to reason db ≡ ok (tt, db')
    → Evolves db db'
update-Evolves now id to reason db db' t h =
    let (d, allowed, at_d, v, a, e) = update-effect now id to reason db db' h in
    rw e (
      evolve_row db (advanced now id to reason db) id (set_state to reason now) (λ x. refl) refl
        (λ c at_c.
          let same : d ≡ c = ground arith in
          let (l, act) = target_keeps to d.state allowed t v a in
          record {
            env = refl;
            revision = refl;
            slot = refl;
            is_live = subst (λ (x : Deployment). is_live x.state ≡ is_live to) same l;
            active = λ _. subst (λ (x : Deployment). is_active x.state ≡ true) same act;
          })
        (same_pointers db (advanced now id to reason db) refl))

pub update-Inv :
    (now id : ℕ) (to : DeploymentState) (reason : String) (db db' : Db)
    → is_rollout_target to ≡ true
    → update_deployment_state now id to reason db ≡ ok (tt, db')
    → Inv db
    → Inv db'
update-Inv now id to reason db db' t h v =
    Evolves-Inv (update-Evolves now id to reason db db' t h) v
