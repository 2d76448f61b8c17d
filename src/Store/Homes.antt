-- ===== src/Store/Homes.antt =====
-- ReleaseEnvironmentHome of internal/store/instances.go: clearing an environment's node binding.
use navarch.Prelude.{ℕ, ◌≡◌, refl, sym, ◌∙◌, Option, none, some, List, [], ◌∷◌, update_row}
use navarch.Spec.{pinned_services}
use navarch.Spec.Durable.{Reason, durable_reasons, durable_reasons-nil}
use navarch.Store.{
  Deployment, Environment, Event, Db, conflict, Result, ok, err, ◌>>=◌, ◌>>◌, scan, deployment_row,
  environment_row,
}

abbrev pub unbind_home : Environment → Environment
unbind_home e = record e { home_node_id = none }

abbrev pub released : ℕ → Db → Db
released env db = record db {
  environments = update_row (λ (x : Environment). x.id) env unbind_home db.environments;
  events = Event.environment_home_released env ∷ db.events;
}

abbrev pub done : ℕ → Db → Result (Unit {0} × Db)
done env db = ok (tt, released env db)

-- Reasons of the live specification are a conflict.
abbrev pub refuse : List Reason → Result (Unit {0})
refuse [] = ok tt
refuse (r ∷ rs) = err conflict

-- What is live describes the durable state; nothing live has none.
unfoldable pub check_durable : Option ℕ → Db → Result (Unit {0})
check_durable none db = ok tt
check_durable (some p) db = do
  d ← scan (deployment_row db p)
  refuse (durable_reasons d.resolved_spec)

-- ReleaseEnvironmentHome, for the binding that was read.
unfoldable pub release_bound : Option ℕ → Option ℕ → ℕ → Db → Result (Unit {0} × Db)
unfolding check_durable
release_bound none live env db = ok (tt, db)
release_bound (some h) live env db = do check_durable live db; done env db

unfoldable pub release_environment_home : ℕ → Db → Result (Unit {0} × Db)
unfolding release_bound
release_environment_home env db = do
  e ← scan (environment_row db env)
  release_bound e.home_node_id e.live_deployment_id env db

refuse-ok :
    (rs : List Reason) (next : Result (Unit {0} × Db)) {x : Unit {0} × Db}
    → (refuse rs >> next) ≡ ok x
    → rs ≡ []
refuse-ok [] next h = refl
refuse-ok (r ∷ rs) next h = cc

-- When a bound environment with a live deployment is released, the live specification has no pinned
-- service and declares no volume.
pub release_leaves_nothing :
    (env h p : ℕ) (db db' : Db) (e : Environment) (d : Deployment)
    → environment_row db env ≡ some e
    → e.home_node_id ≡ some h
    → e.live_deployment_id ≡ some p
    → deployment_row db p ≡ some d
    → release_environment_home env db ≡ ok (tt, db')
    → (pinned_services d.resolved_spec ≡ []) × (d.resolved_spec.volumes ≡ [])
unfolding release_environment_home
release_leaves_nothing env h p db db' e d at_e home live at_d r =
    let clean = refuse-ok (durable_reasons d.resolved_spec) (done env db) (sym reached ∙ r) in
    let all = durable_reasons-nil d.resolved_spec clean in (all.0, all.1)
  where
    reached :
        release_environment_home env db ≡ (refuse (durable_reasons d.resolved_spec) >> done env db)
    reached = rw (release_environment_home, at_e, home, live, at_d) refl
