-- ===== src/Tests/Rollback.antt =====
-- Rollbacks: from the second revision to the first, and to one whose service refers to a secret.
use mathlib.Core.List.{Memᴰ}
use text.Mathlib.Text.{◌==◌ as str_eq}
use navarch.Store.Rollback.Required.{rollback-has_secret}
use navarch.Prelude.{
  any, ◌==◌, ◌&&◌, ◌≡◌, refl, true, String, pos, some, List, [], ◌∷◌, row, update_row, sort_by, all,
}
use navarch.Spec.{lookup, Service, DeploymentSpec}
use navarch.Spec.Equal.{service_eq}
use navarch.Store.{Secret, Db, failed, Deployment, pending, blue, ok}
use navarch.Store.Deployments.{
  create_deployment, drift_check, live_row, breaks_index, collides, same_project, same_slot,
  new_deployment, max_revision, next_slot, reject_pinned_drift, inserted,
}
use navarch.Store.History.{Inv}
use navarch.Store.Rollback.{
  rollback_deployment, rollback_target, has_secret, required_secrets, rollback_appends,
}
use navarch.Tests.Data.{web, stack_spec, fresh_db, first_deployment, second_live_db}
use navarch.Tests.Store.{second_live-Inv}

abbrev no_refs : String → List String
no_refs template = []

abbrev third_deployment : Deployment
third_deployment = record first_deployment {
  id = 102;
  revision = 3;
  slot = blue;
  project_name = record { env8 = 0; revision = 3; slot = blue };
  created_by = "rollback";
  created_at = 10000;
  updated_at = 10000;
}

rolled_back :
    rollback_deployment no_refs 102 10000 5 (pos 0) second_live_db
    ≡ ok (third_deployment, inserted third_deployment second_live_db)
unfolding rollback_deployment row update_row create_deployment drift_check live_row breaks_index
    collides same_project same_slot new_deployment max_revision next_slot reject_pinned_drift lookup
    service_eq sort_by
rolled_back = refl

rollback_appends_example :
    (old : Deployment) × (rollback_target 5 (pos 0) second_live_db ≡ some old)
    × (old.environment_id ≡ 5)
    × (all (has_secret 5 second_live_db) (required_secrets no_refs old.resolved_spec) ≡ true)
    × (third_deployment.stack_version_id ≡ old.stack_version_id)
    × (third_deployment.resolved_spec ≡ old.resolved_spec)
    × (third_deployment.state ≡ pending)
    × ((inserted third_deployment second_live_db).deployments
        ≡ third_deployment ∷ second_live_db.deployments)
    × Inv (inserted third_deployment second_live_db)
rollback_appends_example =
    rollback_appends no_refs 102 10000 5 (pos 0) second_live_db
      (inserted third_deployment second_live_db) third_deployment second_live-Inv rolled_back

-- A service whose template refers to a secret.
abbrev refs : String → List String
refs template = "token" ∷ []

abbrev secret_web : Service
secret_web = record web { secret_env = ("TOKEN", "{{ secret.token }}") ∷ [] }

abbrev secret_spec : DeploymentSpec
secret_spec = record stack_spec { services = ("web", secret_web) ∷ [] }

abbrev failed_deployment : Deployment
failed_deployment = record first_deployment { state = failed; resolved_spec = secret_spec }

abbrev secret_db : Db
secret_db = record fresh_db {
  deployments = failed_deployment ∷ [];
  secrets =
      record {
        environment_id = 5;
        key = "token";
        ciphertext = 1 ∷ [];
        key_id = "k";
        version = 1;
        created_at = 100;
      }
      ∷ [];
}

abbrev again : Deployment
again = record failed_deployment {
  id = 102;
  revision = 2;
  project_name = record { env8 = 0; revision = 2; slot = blue };
  state = pending;
  created_by = "rollback";
  created_at = 10000;
  updated_at = 10000;
}

rolled_again :
    rollback_deployment refs 102 10000 5 (pos 1) secret_db ≡ ok (again, inserted again secret_db)
unfolding rollback_deployment row update_row create_deployment drift_check live_row breaks_index
    collides same_project same_slot new_deployment max_revision next_slot reject_pinned_drift lookup
    service_eq sort_by
rolled_again = refl

rollback-has_secret_example :
    any (λ (s : Secret). s.environment_id == 5 && str_eq s.key "token") secret_db.secrets ≡ true
rollback-has_secret_example =
    rollback-has_secret refs 102 10000 5 (pos 1) secret_db (inserted again secret_db) again
      rolled_again "web" secret_web "TOKEN" "{{ secret.token }}" "token" (Memᴰ.head refl)
      (Memᴰ.head refl) (Memᴰ.head refl)
