-- ===== src/Store/Rollback.antt =====
-- RollbackDeployment of internal/store/deployments.go, with RequiredSecrets of
-- internal/spec/spec.go. The matches of SecretRefPattern in a template are a parameter. The
-- reads before the creation see the same database as the creation does.
pub mod Required
use text.Mathlib.Text.{◌==◌ as str_eq}
use navarch.Prelude.{
  ℕ, ◌≡◌, refl, ap, String, Bool, true, ◌&&◌, Option, none, some, List, [], ◌∷◌, any, all, ltb,
  ◌==◌, if◌then◌else◌, sort_by, str_leb, ℤ, pos, ltb_ℤ, pos_part, arith, Option-cases, Bool-cases,
  inl, inr,
}
use navarch.Spec.{GoMap, Service, DeploymentSpec}
use navarch.Store.{
  Secret, Deployment, pending, Db, invalid, Result, ok, ◌>>=◌, ◌>>◌, require, scan, deployment_row,
  environment_row, scan-eq-ok, require-eq-ok,
}
use navarch.Store.Deployments.{create_deployment, new_deployment}
use navarch.Store.History.{Inv}
use navarch.Store.History.Create.{create-Inv, create-effect}

-- seen[k] = struct{}{}
unfoldable pub note_key : String → List String → List String
note_key k seen = if any (str_eq k) seen then seen else k ∷ seen

unfoldable pub note_all : List String → List String → List String
unfolding note_key
note_all [] seen = seen
note_all (k ∷ ks) seen = note_all ks (note_key k seen)

unfoldable pub secrets_of : (String → List String) → GoMap String → List String → List String
unfolding note_all
secrets_of refs [] seen = seen
secrets_of refs ((key, template) ∷ m) seen = secrets_of refs m (note_all (refs template) seen)

unfoldable pub collect_secrets : (String → List String) → GoMap Service → List String → List String
unfolding secrets_of
collect_secrets refs [] seen = seen
collect_secrets refs ((name, svc) ∷ m) seen =
    collect_secrets refs m (secrets_of refs svc.secret_env seen)

-- RequiredSecrets.
unfoldable pub required_secrets : (String → List String) → DeploymentSpec → List String
unfolding collect_secrets
required_secrets refs s = sort_by str_leb (collect_secrets refs s.services [])

-- environment_id = $1 AND revision = $2
unfoldable pub at_revision : ℕ → ℕ → List Deployment → Option Deployment
at_revision env revision [] = none
at_revision env revision (d ∷ ds) =
    let rest = at_revision env revision ds in
    if d.environment_id == env && d.revision == revision then some d else rest

-- The later of a row and the best of the rest: ORDER BY revision DESC LIMIT 1.
unfoldable pub later_of : Deployment → Option Deployment → Option Deployment
later_of d none = some d
later_of d (some b) = if ltb d.revision b.revision then some b else some d

unfoldable pub latest_below : ℕ → ℕ → List Deployment → Option Deployment
unfolding later_of
latest_below env bound [] = none
latest_below env bound (d ∷ ds) =
    let rest = latest_below env bound ds in
    if d.environment_id == env && ltb d.revision bound then later_of d rest else rest

-- The revision before the live one; without a live one the comparison is NULL.
unfoldable pub before_live : ℕ → Db → Option Deployment
unfolding latest_below
before_live env db = elim (environment_row db env) [
  | none ↦ none
  | some e ↦ elim e.live_deployment_id [
    | none ↦ none
    | some p ↦ elim (deployment_row db p) [
      | none ↦ none
      | some l ↦ latest_below env l.revision db.deployments
    ]
  ]
]

unfoldable pub rollback_target : ℕ → ℤ → Db → Option Deployment
unfolding before_live at_revision
rollback_target env to db =
    if ltb_ℤ (pos 0) to then at_revision env (pos_part to) db.deployments else before_live env db

unfoldable pub has_secret : ℕ → Db → String → Bool
has_secret env db key = any (λ (s : Secret). s.environment_id == env && str_eq s.key key) db.secrets

-- RollbackDeployment.
unfoldable pub rollback_deployment :
    (String → List String) → ℕ → ℕ → ℕ → ℤ → Db → Result (Deployment × Db)
unfolding rollback_target has_secret required_secrets
rollback_deployment refs id now env to db = do
  old ← scan (rollback_target env to db)
  require (all (has_secret env db) (required_secrets refs old.resolved_spec)) invalid
  create_deployment id now
      (record {
        environment_id = env;
        stack_version_id = old.stack_version_id;
        resolved_spec = old.resolved_spec;
        created_by = "rollback";
      })
      db

at_revision-env :
    (env revision : ℕ) (ds : List Deployment) (d : Deployment)
    → at_revision env revision ds ≡ some d
    → d.environment_id ≡ env
unfolding at_revision
at_revision-env env revision [] d h = cc
at_revision-env env revision (x ∷ xs) d h = ground (arith, at_revision-env env revision xs d)

later_of-env :
    (env : ℕ) (x : Deployment) (o : Option Deployment) (d : Deployment)
    → x.environment_id ≡ env
    → ((b : Deployment) → o ≡ some b → b.environment_id ≡ env)
    → later_of x o ≡ some d
    → d.environment_id ≡ env
unfolding later_of
later_of-env env x none d e f h = ground arith
later_of-env env x (some b) d e f h = ground (arith, f b refl)

latest_below-env :
    (env bound : ℕ) (ds : List Deployment) (d : Deployment)
    → latest_below env bound ds ≡ some d
    → d.environment_id ≡ env
unfolding latest_below
latest_below-env env bound [] d h = cc
latest_below-env env bound (x ∷ xs) d h =
    elim (Bool-cases (x.environment_id == env && ltb x.revision bound)) [
      | inl hit ↦
          later_of-env env x (latest_below env bound xs) d (ground arith)
            (λ b k. latest_below-env env bound xs b k) (ground arith)
      | inr miss ↦ latest_below-env env bound xs d (ground arith)
    ]

rollback_target-env :
    (env : ℕ) (to : ℤ) (db : Db) (d : Deployment)
    → rollback_target env to db ≡ some d
    → d.environment_id ≡ env
unfolding rollback_target before_live
rollback_target-env env to db d h = elim (Bool-cases (ltb_ℤ (pos 0) to)) [
  | inl named ↦ at_revision-env env (pos_part to) db.deployments d (ground arith)
  | inr last ↦ elim (Option-cases (environment_row db env)) [
    | inl no_env ↦ absurd (ground arith)
    | inr (e, at_e) ↦ elim (Option-cases e.live_deployment_id) [
      | inl no_live ↦ absurd (ground arith)
      | inr (p, at_p) ↦ elim (Option-cases (deployment_row db p)) [
        | inl no_row ↦ absurd (ground arith)
        | inr (l, at_l) ↦ latest_below-env env l.revision db.deployments d (ground arith)
      ]
    ]
  ]
]

-- Under the invariant, a rollback that succeeds adds one pending deployment and changes no other: the
-- new one takes the stack version and the specification of the target, a deployment of the same
-- environment whose required secrets are all set, and the invariant is kept.
pub rollback_appends :
    (refs : String → List String) (id now env : ℕ) (to : ℤ) (db db' : Db) (d : Deployment)
    → Inv db
    → rollback_deployment refs id now env to db ≡ ok (d, db')
    → (old : Deployment) × (rollback_target env to db ≡ some old)
      × (old.environment_id ≡ env)
      × (all (has_secret env db) (required_secrets refs old.resolved_spec) ≡ true)
      × (d.stack_version_id ≡ old.stack_version_id)
      × (d.resolved_spec ≡ old.resolved_spec)
      × (d.state ≡ pending)
      × (db'.deployments ≡ d ∷ db.deployments)
      × Inv db'
unfolding rollback_deployment new_deployment
rollback_appends refs id now env to db db' d v h =
    let (old, at, k) = scan-eq-ok (rollback_target env to db) _ h in
    let (held, made) =
      require-eq-ok (all (has_secret env db) (required_secrets refs old.resolved_spec)) invalid _
        k in
    let (e, c) = create-effect id now _ db db' d made in
    (
      old,
      at,
      rollback_target-env env to db old at,
      held,
      ap (λ (x : Deployment). x.stack_version_id) c.is_new,
      ap (λ (x : Deployment). x.resolved_spec) c.is_new,
      ap (λ (x : Deployment). x.state) c.is_new,
      ap (λ (x : Db). x.deployments) c.written,
      create-Inv id now _ db db' d made v,
    )
