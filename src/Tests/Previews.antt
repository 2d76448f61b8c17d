-- ===== src/Tests/Previews.antt =====
-- A preview beside the shop: its secret is set twice, it is warned about, and it expires.
use navarch.Prelude.{
  ◌≡◌, refl, false, true, not, ◌&&◌, pos, Option, none, some, [], ◌∷◌, All, map, select, ◌==◌, row,
}
use navarch.Store.{
  Environment, Secret, Db, ok, live, ServiceInstance, InstanceState, LogRequest, log_done,
}
use navarch.Store.Logs.{
  CreateLogRequestParams, new_request, requested, complete_log_request, log_request_owned_by_node,
  on_node,
}
use navarch.Store.Logs.Owner.{complete-others}
use navarch.Logbuf.{Buffer, write}
use navarch.Rollout.Reaper.{reap_once, reap_keeps_secrets}
use navarch.Store.Secrets.{set_secret, stored, new_version, current}
use navarch.Store.Secrets.Versions.{set_secret-current}
use navarch.Store.Previews.{victims, expire_environments, is_due, claim_previews}
use navarch.Store.Previews.Expiry.{IsReaped, expire-IsReaped, IsKept, expire-IsKept}
use navarch.Store.Previews.Warnings.{claim_once}
use navarch.Tests.Data.{shop, fresh_db, first_deployment}

abbrev preview : Environment
preview = record shop { id = 6; ephemeral = true; expires_at = some 5000 }

abbrev first_key : Secret
first_key = record {
  environment_id = 6;
  key = "token";
  ciphertext = 1 ∷ [];
  key_id = "k";
  version = 1;
  created_at = 100;
}

abbrev preview_db : Db
preview_db = record fresh_db { environments = preview ∷ shop ∷ []; secrets = first_key ∷ [] }

abbrev rotated_db : Db
unfolding new_version
rotated_db = stored (new_version 200 6 "token" (2 ∷ []) "k" preview_db) preview_db

rotated : set_secret 200 6 "token" (2 ∷ []) "k" preview_db ≡ ok (tt, rotated_db)
unfolding set_secret row
rotated = refl

set_secret-current_example :
    map (λ (s : Secret). s.ciphertext) (current 6 "token" rotated_db.secrets) ≡ (2 ∷ []) ∷ []
set_secret-current_example =
    set_secret-current 200 6 "token" (2 ∷ []) "k" preview_db rotated_db rotated

expire-IsReaped_example :
    All
      (λ e. IsReaped e (expire_environments 6000 none preview_db).1)
      (victims 6000 none preview_db)
expire-IsReaped_example = expire-IsReaped 6000 none preview_db

expire-IsKept_example : IsKept 5 preview_db (expire_environments 6000 none preview_db).1
expire-IsKept_example = expire-IsKept 6000 5 none preview_db refl

claim_once_example :
    (claim_previews 4100 3600 none (claim_previews 4000 3600 none preview_db).1).0
    ≡ map
        (λ (e : Environment). e.id)
        (select
          (λ e. is_due 4100 3600 none e && not (is_due 4000 3600 none e))
          preview_db.environments)
claim_once_example = claim_once 4000 3600 4100 3600 none none preview_db

abbrev web_instance : ServiceInstance
web_instance = record {
  id = 50;
  deployment_id = 100;
  node_id = 8;
  service_name = "web";
  swappable = true;
  image_ref = "web:1";
  state = InstanceState.running;
  container_id = "c1";
  health_status = "running";
  restart_count = 0;
  last_error = "";
  started_at = none;
  ingress_port = 0;
}

abbrev running_db : Db
running_db = record fresh_db {
  deployments = record first_deployment { state = live } ∷ [];
  instances = web_instance ∷ [];
}

abbrev tail_web : CreateLogRequestParams
tail_web = record { environment_id = 5; service_name = "web"; tail_lines = pos 10; follow = false }

abbrev web_request : LogRequest
web_request = new_request 70 1000 tail_web web_instance

abbrev asked_db : Db
asked_db = requested web_request running_db

abbrev answered_db : Db
answered_db = record asked_db { log_requests = record web_request { state = log_done } ∷ [] }

answered_by_node : complete_log_request 2000 8 70 "" asked_db ≡ ok (tt, answered_db)
unfolding complete_log_request
answered_by_node = refl

complete-others_example :
    (log_request_owned_by_node 8 70 asked_db ≡ true)
    × (select (λ r. not (r.id == 70 && on_node 8 asked_db r)) answered_db.log_requests
        ≡ select (λ r. not (r.id == 70 && on_node 8 asked_db r)) asked_db.log_requests)
complete-others_example = complete-others 2000 8 70 "" asked_db answered_db answered_by_node

abbrev output : Option Buffer
output = some (write 1500 70 (65 ∷ []) (record { entries = []; max_bytes = 4; max_requests = 2 })).1

reap_keeps_secrets_example :
    current 5 "token" (reap_once 6000 none true (preview_db, output)).0.secrets
    ≡ current 5 "token" preview_db.secrets
reap_keeps_secrets_example = reap_keeps_secrets 6000 5 none true preview_db output "token" refl
