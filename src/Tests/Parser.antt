-- ===== src/Tests/Parser.antt =====
-- A stack of a web service and its database, and two services that depend on each other.
use navarch.Parser.Errors.{ValidationError}
use navarch.Prelude.{
  sort_by, str_leb, ℕ, ◌≡◌, ◌≢◌, refl, Bool, true, false, String, Option, none, some, List, [], ◌∷◌,
  ltb,
}
use navarch.Spec.{Service, DeploymentSpec}
use navarch.Parser.Compose.{
  str, mapping, Fields, no_fields, field, ServiceConfig, VolumeMount, VolumeConfig, Project,
}
use navarch.Parser.Preflight.{preflight}
use navarch.Parser.Convert.{Library, convert_service, service_errors}
use navarch.Parser.Convert.Accepts.{IsAccepted, convert_service-IsAccepted}
use navarch.Parser.Graph.{find_cycle, found}
use navarch.Parser.Graph.Result.{Decides, find_cycle-Decides}
use navarch.Parser.Parse.{Load, loaded, parse, accepted, spec_of}
use navarch.Parser.Parse.Valid.{IsValid, parse-IsValid}

abbrev simple_library : Library
simple_library = record {
  D = ℕ;
  C = ℕ;
  seconds = λ d. d;
  is_positive = ltb 0;
  millis = λ c. c;
  quote = λ s. s;
  has_secret_ref = λ s. false;
  sort_by_field = λ es. sort_by (λ (a b : ValidationError). str_leb a.on b.on) es;
}

abbrev declares_mode : String → Fields → Fields
declares_mode mode rest = field "x-composectl" (mapping (field "rollout" (str mode) rest)) no_fields

abbrev bare : String → ServiceConfig ℕ ℕ
bare image = record {
  image = image;
  command = [];
  entrypoint = [];
  working_dir = "";
  user = "";
  restart = "";
  privileged = false;
  network_mode = "";
  container_name = "";
  cap_add = [];
  cap_drop = [];
  pid = "";
  ipc = "";
  uts = "";
  userns_mode = "";
  runtime = "";
  devices = [];
  device_cgroup_rules = [];
  gpus = [];
  security_opt = [];
  sysctls = [];
  cgroup_parent = "";
  cgroup = "";
  volumes_from = [];
  extra_hosts = [];
  has_logging = false;
  log_driver = "";
  log_opt = [];
  isolation = "";
  storage_opt = [];
  volume_driver = "";
  has_credential_spec = false;
  oom_kill_disable = false;
  has_build = false;
  secrets = [];
  configs = [];
  tmpfs = [];
  links = [];
  external_links = [];
  environment = [];
  ports = [];
  volumes = [];
  depends_on = [];
  health_check = none;
  deploy = none;
  scale = none;
  extensions = no_fields;
}

abbrev web : ServiceConfig ℕ ℕ
web = record (bare "web:1") {
  depends_on = ("db", "service_started") ∷ [];
  extensions = declares_mode "swap" no_fields;
}

abbrev data_volume : VolumeMount
data_volume = record { kind = "volume"; source = "data"; target = "/var/lib"; read_only = false }

abbrev db : ServiceConfig ℕ ℕ
db = record (bare "db:1") { volumes = data_volume ∷ []; extensions = declares_mode "pin" no_fields }

abbrev local_volume : VolumeConfig
local_volume = record { driver = ""; driver_opts = []; is_external = false }

abbrev stack : Project ℕ ℕ
stack = record { services = ("web", web) ∷ ("db", db) ∷ []; volumes = ("data", local_volume) ∷ [] }

db_errors : service_errors simple_library "db" db ≡ []
unfolding service_errors navarch.Parser.Errors.collect navarch.Parser.Convert.directives
    navarch.Parser.Convert.port_checks navarch.Parser.Mounts.mount_errors
    navarch.Parser.Convert.depend_checks navarch.Parser.Convert.scale_checks
    navarch.Parser.Convert.ingress_errors navarch.Parser.Extensions.parse_ingress_extension
    navarch.Parser.Convert.rollout_errors navarch.Parser.Extensions.parse_rollout_extension
    navarch.Parser.Convert.rollout_checks
db_errors = refl

convert_service-IsAccepted_example :
    IsAccepted simple_library db (convert_service simple_library "db" db)
convert_service-IsAccepted_example = convert_service-IsAccepted simple_library "db" db db_errors

abbrev no_document : Project ℕ ℕ → Option Fields
no_document p = some no_fields

abbrev load_it : Bool → Project ℕ ℕ → Load (Project ℕ ℕ)
load_it b p = loaded p

stack_accepted :
    parse simple_library (Project ℕ ℕ) no_document load_it stack
    ≡ accepted (spec_of simple_library stack)
unfolding parse navarch.Parser.Convert.directives navarch.Parser.Convert.port_checks
    navarch.Parser.Mounts.mount_errors navarch.Parser.Convert.depend_checks
    navarch.Parser.Convert.scale_checks navarch.Parser.Convert.ingress_errors
    navarch.Parser.Extensions.parse_ingress_extension navarch.Parser.Convert.rollout_errors
    navarch.Parser.Extensions.parse_rollout_extension navarch.Parser.Convert.rollout_checks
    navarch.Parser.Mounts.has_writable_volume navarch.Parser.Mounts.convert_mounts
    navarch.Prelude.sort_by navarch.Prelude.str_leb
stack_accepted = refl

parse-IsValid_example :
    (preflight (no_document stack) ≡ [])
    × ((p : Project ℕ ℕ) × ((load_it true stack ≡ loaded p)
          × IsValid simple_library p (spec_of simple_library stack)))
parse-IsValid_example =
    parse-IsValid simple_library (Project ℕ ℕ) no_document load_it stack
      (spec_of simple_library stack) stack_accepted

abbrev pub needs : String → List String → Service
needs name deps = record {
  name = name;
  image = "i";
  command = [];
  entrypoint = [];
  working_dir = "";
  user = "";
  env = [];
  secret_env = [];
  ports = [];
  mounts = [];
  depends = deps;
  health = none;
  limits = record { cpu_millis = 1; memory_bytes = 1 };
  restart = "";
  swappable = true;
  ingress = none;
}

abbrev knot : DeploymentSpec
knot = record {
  spec_version = 1;
  services =
      ("a", needs "a" ("b" ∷ [])) ∷ ("b", needs "b" ("c" ∷ [])) ∷ ("c", needs "c" ("b" ∷ [])) ∷ [];
  volumes = [];
  networks = [];
}

knot_found : find_cycle knot ≡ found ("b" ∷ "c" ∷ "b" ∷ [])
unfolding find_cycle navarch.Prelude.sort_by navarch.Prelude.str_leb
knot_found = refl

find_cycle-Decides_example : Decides knot (find_cycle knot)
find_cycle-Decides_example = find_cycle-Decides knot
