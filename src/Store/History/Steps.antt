-- ===== src/Store/History/Steps.antt =====
-- The transactions that keep every deployment, and sequences of them. An update of a deployment's
-- state is taken at the targets that the scheduler and the controller ask for.
use navarch.Prelude.{
  ℕ, ◌≡◌, sym, subst, ap, true, Option, none, some, List, [], arith, row, ℤ, String,
}
use navarch.Store.{
  DeploymentState, Node, Deployment, Environment, Db, ok, deployment_row, environment_row,
}
use navarch.Store.Deployments.{
  CreateDeploymentParams, create_deployment, update_deployment_state, promote_deployment,
}
use navarch.Store.Placement.{
  NewInstance, ObservedInstance, place_deployment, delete_instances, report_instance,
}
use navarch.Store.History.{Inv}
use navarch.Store.History.Evolve.{Keeps-refl, SamePointers, Evolves-Inv}
use navarch.Store.Homes.{release_environment_home}
use navarch.Store.Previews.{claim_previews}
use navarch.Store.History.Environments.{releases-rows, claims-same}
use navarch.Store.History.Advance.{is_rollout_target, update-Inv, same_pointers}
use navarch.Store.History.Place.{place-Inv}
use navarch.Store.History.Create.{create-Inv}
use navarch.Store.History.Flip.{promote-Inv}

pub data Step (db db' : Db) : Type 0 where
  creates :
      (id now : ℕ) (p : CreateDeploymentParams) (d : Deployment)
      → create_deployment id now p db ≡ ok (d, db')
      → Step db db'
  places :
      (now dep node : ℕ) (insts : List NewInstance) (cpu mem : ℤ)
      → place_deployment now dep node insts cpu mem db ≡ ok (tt, db')
      → Step db db'
  advances :
      (now id : ℕ) (to : DeploymentState) (reason : String)
      → is_rollout_target to ≡ true
      → update_deployment_state now id to reason db ≡ ok (tt, db')
      → Step db db'
  promotes :
      (now id : ℕ) (prev : Option ℕ) → promote_deployment now id db ≡ ok (prev, db') → Step db db'
  frees : (dep : ℕ) → delete_instances dep db ≡ ok (tt, db') → Step db db'
  reports :
      (now node id : ℕ) (o : ObservedInstance)
      → report_instance now node id o db ≡ ok (tt, db')
      → Step db db'
  releases : (env : ℕ) → release_environment_home env db ≡ ok (tt, db') → Step db db'
  claims :
      (now within : ℕ) (org : Option ℕ) → db' ≡ (claim_previews now within org db).1 → Step db db'
  -- The handlers of nodes write the nodes alone.
  tends : (ns : List Node) → db' ≡ record db { nodes = ns } → Step db db'

pub data Reach (db : Db) : Db → Type 0 where
  here : Reach db db
  next : {a b : Db} → Reach db a → Step a b → Reach db b

same_deployments-Inv :
    (db db' : Db) → db'.deployments ≡ db.deployments → SamePointers db db' → Inv db → Inv db'
same_deployments-Inv db db' e s v =
    Evolves-Inv
      (record {
        back = λ p c h.
            (c, subst (λ t. row (λ (x : Deployment). x.id) p t ≡ some c) e h, Keeps-refl c);
        forth = λ p d h.
            (d, subst (λ t. row (λ (x : Deployment). x.id) p t ≡ some d) (sym e) h, Keeps-refl d);
        pointers = s;
      })
      v

-- Instances, for one, are written without touching deployments or environments.
pub same_rows-Inv :
    (db db' : Db)
    → db'.deployments ≡ db.deployments
    → db'.environments ≡ db.environments
    → Inv db
    → Inv db'
same_rows-Inv db db' e f = same_deployments-Inv db db' e (same_pointers db db' f)

pub frees-rows :
    (dep : ℕ) (db db' : Db)
    → delete_instances dep db ≡ ok (tt, db')
    → (db'.deployments ≡ db.deployments) × (db'.environments ≡ db.environments)
unfolding delete_instances
frees-rows dep db db' h = (ground arith, ground arith)

pub reports-rows :
    (now node id : ℕ) (o : ObservedInstance) (db db' : Db)
    → report_instance now node id o db ≡ ok (tt, db')
    → (db'.deployments ≡ db.deployments) × (db'.environments ≡ db.environments)
unfolding report_instance
reports-rows now node id o db db' h = (ground arith, ground arith)

pub claims-deployments :
    (now within : ℕ) (org : Option ℕ) (db db' : Db)
    → db' ≡ (claim_previews now within org db).1
    → db'.deployments ≡ db.deployments
unfolding claim_previews
claims-deployments now within org db db' w = ap (λ (x : Db). x.deployments) w

pub Step-Inv : {db db' : Db} → Step db db' → Inv db → Inv db'
Step-Inv {db} {db'} (creates id now p d h) v = create-Inv id now p db db' d h v
Step-Inv {db} {db'} (places now dep node insts cpu mem h) v =
    place-Inv now dep node insts cpu mem db db' h v
Step-Inv {db} {db'} (advances now id to reason t h) v = update-Inv now id to reason db db' t h v
Step-Inv {db} {db'} (promotes now id prev h) v = promote-Inv now id prev db db' h v
Step-Inv {db} {db'} (frees dep h) v =
    let (e, f) = frees-rows dep db db' h in same_rows-Inv db db' e f v
Step-Inv {db} {db'} (reports now node id o h) v =
    let (e, f) = reports-rows now node id o db db' h in same_rows-Inv db db' e f v
Step-Inv {db} {db'} (releases env h) v =
    let (e, s) = releases-rows env db db' h in same_deployments-Inv db db' e s v
Step-Inv {db} {db'} (claims now within org w) v =
    same_deployments-Inv db db' (claims-deployments now within org db db' w)
      (subst (SamePointers db) (sym w) (claims-same now within org db)) v
Step-Inv {db} {db'} (tends ns w) v =
    same_rows-Inv db db' (ap (λ (x : Db). x.deployments) w) (ap (λ (x : Db). x.environments) w) v

-- Any sequence of these transactions keeps the invariant.
pub Reach-Inv : {db db' : Db} → Reach db db' → Inv db → Inv db'
Reach-Inv here v = v
Reach-Inv (next r s) v = Step-Inv s (Reach-Inv r v)

abbrev pub NoDeployments : Db → Type 0
NoDeployments db =
    (db.deployments ≡ [])
    × ((i : ℕ) (e : Environment) → environment_row db i ≡ some e → e.live_deployment_id ≡ none)

-- Before the first deployment the invariant holds.
pub empty-Inv : (db : Db) → NoDeployments db → Inv db
unfolding row
empty-Inv db (e, f) = record {
  pointed = λ i p o at live. absurd (ground (arith, f i o));
  pointing = λ p d at l. absurd (nothing p d at);
  one_active = λ p q d c at _ _ _ _. absurd (nothing p d at);
  revisions = λ p q d c at _ _ _. absurd (nothing p d at);
  colours = λ p q d c at _ _ _ _. absurd (nothing p d at);
}
  where
    nothing : (p : ℕ) (d : Deployment) → deployment_row db p ≡ some d → ⊥
    nothing p d at = ground arith
