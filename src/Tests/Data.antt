-- ===== src/Tests/Data.antt =====
-- The fleet, and the databases that the first rollout goes through.
use navarch.Prelude.{ℕ, pos, String, Bool, true, false, Option, none, some, List, [], ◌∷◌}
use navarch.Spec.{Ingress, Service, DeploymentSpec, GoMap}
use navarch.Store.{
  pending, starting, healthy, Deployment, Environment, Node, NodeState, ready, draining, Db, blue,
  green,
}
use navarch.Store.Deployments.{
  CreateDeploymentParams, inserted, advanced, promoted, supersede_previous,
}
use navarch.Store.Placement.{NewInstance, placed}

abbrev service : String → Bool → ℕ → ℕ → Option Ingress → Service
service name swappable cpu memory ingress = record {
  name = name;
  image = "registry/app:1";
  command = [];
  entrypoint = [];
  working_dir = "";
  user = "";
  env = [];
  secret_env = [];
  ports = [];
  mounts = [];
  depends = [];
  health = none;
  limits = record { cpu_millis = cpu; memory_bytes = memory };
  restart = "always";
  swappable = swappable;
  ingress = ingress;
}

abbrev pub web : Service
web = service "web" true 100 64 (some (record { port = 80; path = "/" }))

abbrev pub postgres : Service
postgres = service "postgres" false 200 256 none

abbrev spec_of : GoMap Service → DeploymentSpec
spec_of services = record { spec_version = 1; services = services; volumes = []; networks = [] }

abbrev pub stack_spec : DeploymentSpec
stack_spec = spec_of (("web", web) ∷ ("postgres", postgres) ∷ [])

abbrev pub stack_spec_reversed : DeploymentSpec
stack_spec_reversed = spec_of (("postgres", postgres) ∷ ("web", web) ∷ [])

-- Swappable, with a limit of 2 ^ 62 bytes.
abbrev pub huge_spec : DeploymentSpec
huge_spec = spec_of (("web", service "web" true 100 4611686018427387904 none) ∷ [])

abbrev node : ℕ → String → NodeState → ℕ → ℕ → Node
node id hostname state cpu memory = record {
  id = id;
  org_id = 1;
  hostname = hostname;
  advertise_addr = "10.0.0.1";
  state = state;
  cpu_millis = pos cpu;
  memory_bytes = pos memory;
  alloc_cpu_millis = pos 0;
  alloc_memory_bytes = pos 0;
  last_heartbeat = some 1000;
}

abbrev pub small_node : Node
small_node = node 7 "a.example" ready 1000 1024

abbrev pub large_node : Node
large_node = node 8 "b.example" ready 4000 8192

abbrev pub drained_node : Node
drained_node = node 9 "c.example" draining 4000 8192

abbrev pub shop : Environment
shop = record {
  id = 5;
  stack_id = 3;
  org_id = 1;
  hostname = "shop.example";
  live_deployment_id = none;
  ephemeral = false;
  expires_at = none;
  expiry_warned_at = none;
  home_node_id = none;
}

abbrev pub fresh_db : Db
fresh_db = record {
  deployments = [];
  environments = shop ∷ [];
  nodes = small_node ∷ large_node ∷ drained_node ∷ [];
  instances = [];
  stack_versions = (11, 3) ∷ [];
  secrets = [];
  tombstones = [];
  log_requests = [];
  events = [];
}

abbrev pub request : CreateDeploymentParams
request = record {
  environment_id = 5;
  stack_version_id = 11;
  resolved_spec = stack_spec;
  created_by = "ops";
}

abbrev pub first_deployment : Deployment
first_deployment = record {
  id = 100;
  environment_id = 5;
  stack_version_id = 11;
  stack_id = 3;
  revision = 1;
  slot = blue;
  project_name = record { env8 = 0; revision = 1; slot = blue };
  state = pending;
  resolved_spec = stack_spec;
  promoted_at = none;
  superseded_at = none;
  failure_reason = "";
  created_by = "ops";
  created_at = 1000;
  updated_at = 1000;
}

abbrev pub created_db : Db
created_db = inserted first_deployment fresh_db

abbrev pub instances : List NewInstance
instances =
    record { id = 200; service_name = "web"; swappable = true; image_ref = "registry/app:1" }
    ∷ record {
      id = 201;
      service_name = "postgres";
      swappable = false;
      image_ref = "registry/app:1";
    }
    ∷ []

abbrev pub placed_db : Db
placed_db = placed 2000 first_deployment shop 8 instances (pos 400) (pos 384) created_db

abbrev pub started_db : Db
started_db = advanced 3000 100 starting "" placed_db

abbrev pub healthy_db : Db
healthy_db = advanced 4000 100 healthy "" started_db

abbrev pub live_db : Db
live_db = promoted 5000 100 5 healthy_db

abbrev pub first_healthy : Deployment
first_healthy = record first_deployment { state = healthy; updated_at = 4000 }

abbrev pub shop_on_large : Environment
shop_on_large = record shop { home_node_id = some 8 }

-- The second revision of the same stack.
abbrev pub second_deployment : Deployment
second_deployment = record first_deployment {
  id = 101;
  revision = 2;
  slot = green;
  project_name = record { env8 = 0; revision = 2; slot = green };
  created_at = 6000;
  updated_at = 6000;
}

abbrev pub second_created_db : Db
second_created_db = inserted second_deployment live_db

abbrev pub shop_live : Environment
shop_live = record shop { home_node_id = some 8; live_deployment_id = some 100 }

abbrev pub second_placed_db : Db
second_placed_db =
    placed 6000 second_deployment shop_live 8 [] (pos 400) (pos 384) second_created_db

abbrev pub second_healthy_db : Db
second_healthy_db = advanced 8000 101 healthy "" (advanced 7000 101 starting "" second_placed_db)

abbrev pub second_healthy : Deployment
second_healthy = record second_deployment { state = healthy; updated_at = 8000 }

abbrev pub second_live_db : Db
second_live_db = promoted 9000 101 5 (supersede_previous 9000 (some 100) second_healthy_db)
