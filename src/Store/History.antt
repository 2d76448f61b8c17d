-- ===== src/Store/History.antt =====
-- What holds of the deployments and environments between two transactions.
pub mod Evolve
pub mod Rows
pub mod Advance
pub mod Place
pub mod Create
pub mod Promote
pub mod Flip
pub mod Swap
pub mod Succeeds
pub mod Environments
pub mod Keyed
pub mod Expire
pub mod Steps
pub mod Forward
pub mod Life
pub mod Capacity
use navarch.Prelude.{ℕ, ◌≡◌, ◌≢◌, true, some, Option}
use navarch.Store.{
  Db, Deployment, Environment, is_active, is_live, Slot, deployment_row, environment_row,
}

pub record Inv (db : Db) : Type 0 where
  -- An environment's pointer names a live deployment of that environment.
  pub pointed :
      (i p : ℕ) (e : Environment)
      → environment_row db i ≡ some e
      → e.live_deployment_id ≡ some p
      → (d : Deployment) × (deployment_row db p ≡ some d)
        × (is_live d.state ≡ true)
        × (d.environment_id ≡ i)
  -- A live deployment is the one that its environment points at.
  pub pointing :
      (p : ℕ) (d : Deployment)
      → deployment_row db p ≡ some d
      → is_live d.state ≡ true
      → (e : Environment) × (environment_row db d.environment_id ≡ some e)
        × (e.live_deployment_id ≡ some p)
  pub one_active :
      (p q : ℕ) (d c : Deployment)
      → deployment_row db p ≡ some d
      → deployment_row db q ≡ some c
      → d.environment_id ≡ c.environment_id
      → is_active d.state ≡ true
      → is_active c.state ≡ true
      → p ≡ q
  pub revisions :
      (p q : ℕ) (d c : Deployment)
      → deployment_row db p ≡ some d
      → deployment_row db q ≡ some c
      → d.environment_id ≡ c.environment_id
      → d.revision ≡ c.revision
      → p ≡ q
  -- A deployment that is rolling out never shares its colour with the live one.
  pub colours :
      (p q : ℕ) (d c : Deployment)
      → deployment_row db p ≡ some d
      → deployment_row db q ≡ some c
      → d.environment_id ≡ c.environment_id
      → is_live d.state ≡ true
      → is_active c.state ≡ true
      → d.slot ≢ c.slot
