-- ===== src/Store/History/Environments.antt =====
-- Releasing an environment's home and claiming warnings, which write environments beside their
-- pointers (internal/store/instances.go and previews.go).
use navarch.Prelude.{
  ℕ, ◌≡◌, refl, sym, ◌∙◌, ap, subst, inl, inr, ◌⊎◌, Option, none, some, List, [], ◌∷◌, arith, row,
  apply_to, Option-cases, if◌then◌else◌,
}
use navarch.Store.{Environment, Db, Result, ok, err, ◌>>◌, environment_row}
use navarch.Store.Homes.{
  unbind_home, released, done, check_durable, release_bound, release_environment_home,
}
use navarch.Store.Previews.{is_due, mark_due, warn, claim_previews}
use navarch.Store.History.Evolve.{SamePointers}
use navarch.Store.History.Rows.{row_back, row_forth}
use navarch.Store.History.Advance.{same_pointers}

SameLive : Environment → Environment → Type 0
SameLive o e = o.live_deployment_id ≡ e.live_deployment_id

then_released :
    (r : Result (Unit {0})) (env : ℕ) (db db' : Db)
    → (r >> done env db) ≡ ok (tt, db')
    → db' ≡ released env db
then_released (ok u) env db db' h = ground arith
then_released (err e) env db db' h = absurd (ground arith)

bound-effect :
    (home live : Option ℕ) (env : ℕ) (db db' : Db)
    → release_bound home live env db ≡ ok (tt, db')
    → (db' ≡ db) ⊎ (db' ≡ released env db)
unfolding release_bound
bound-effect none live env db db' h = inl (ground arith)
bound-effect (some n) live env db db' h = inr (then_released (check_durable live db) env db db' h)

-- A release that succeeds writes nothing, or the released environment.
pub release-effect :
    (env : ℕ) (db db' : Db)
    → release_environment_home env db ≡ ok (tt, db')
    → (db' ≡ db) ⊎ (db' ≡ released env db)
unfolding release_environment_home
release-effect env db db' h = elim (Option-cases (environment_row db env)) [
  | inl missing ↦ absurd (ground arith)
  | inr (e, at) ↦
      bound-effect e.home_node_id e.live_deployment_id env db db'
        (sym (rw (release_environment_home, at) refl) ∙ h)
]

released-same : (env : ℕ) (db : Db) → SamePointers db (released env db)
unfolding SameLive
released-same env db = record {
  env_back =
      row_back (λ (x : Environment). x.id) unbind_home (λ x. refl) SameLive (λ x. refl) env
        db.environments (λ x h. refl);
  env_forth =
      row_forth (λ (x : Environment). x.id) unbind_home (λ x. refl) SameLive (λ x. refl) env
        db.environments (λ x h. refl);
}

pub releases-rows :
    (env : ℕ) (db db' : Db)
    → release_environment_home env db ≡ ok (tt, db')
    → (db'.deployments ≡ db.deployments) × SamePointers db db'
releases-rows env db db' h = elim (release-effect env db db' h) [
  | inl e ↦
      (ap (λ (x : Db). x.deployments) e, same_pointers db db' (ap (λ (x : Db). x.environments) e))
  | inr e ↦
      (ap (λ (x : Db). x.deployments) e, subst (SamePointers db) (sym e) (released-same env db))
]

module _ (now within : ℕ) (org : Option ℕ) where
  marked : Environment → Environment
  unfolding is_due
  marked e = if is_due now within org e then warn now e else e

  row-mark_due :
      (i : ℕ) (es : List Environment)
      → row (λ (x : Environment). x.id) i (mark_due now within org es)
        ≡ apply_to marked (row (λ (x : Environment). x.id) i es)
  unfolding mark_due row marked
  row-mark_due i [] = refl
  row-mark_due i (e ∷ es) = ground (arith, row-mark_due i es)

  marked-live : (e : Environment) → e.live_deployment_id ≡ (marked e).live_deployment_id
  unfolding marked
  marked-live e = ground arith

  -- A claim of warnings leaves the pointers.
  pub claims-same : (db : Db) → SamePointers db (claim_previews now within org db).1
  unfolding claim_previews
  claims-same db = record {
    env_back = λ i e h. elim (Option-cases (environment_row db i)) [
      | inl missing ↦
          absurd (let nothing = row-mark_due i db.environments ∙ ap (apply_to marked) missing in cc)
      | inr (o, at) ↦
          let now_o = row-mark_due i db.environments ∙ ap (apply_to marked) at in
          let same : marked o ≡ e = cc in
          (o, at, marked-live o ∙ ap (λ (x : Environment). x.live_deployment_id) same)
    ];
    env_forth = λ i o at.
        (marked o, row-mark_due i db.environments ∙ ap (apply_to marked) at, marked-live o);
  }
