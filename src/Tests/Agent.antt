-- ===== src/Tests/Agent.antt =====
-- A node with one desired service, whose Docker lists an orphan, and a container that is watched.
use text.Mathlib.Text.{◌==◌ as str_eq}
use text.Mathlib.TextEquality.{eq_iff}
use navarch.Prelude.{
  ℕ, ◌<◌, ◌≡◌, refl, String, true, false, some, List, [], ◌∷◌, All, map, ◌⊎◌, arith, subst,
  Bool-cases, inl, inr, if◌then◌else◌, sym, ap, ◌∙◌,
}
use navarch.Store.{InstanceState, blue}
use navarch.Agent.Docker.{
  DesiredInstance, Managed, Observed, answered, refused, ensure_image, ensure_network,
  ensure_container, attach_network, inspect_health, stop_remove, list_managed,
  prune_revision_networks, ensure_volume, remove_env, DockerDriver,
}
use navarch.Agent.Health.{watch, since_first, watch-debounces}
use navarch.Agent.Ensure.{container_name}
use navarch.Agent.Order.{by_name, topo_group}
use navarch.Agent.Order.Names.{names, IsOrdered}
use navarch.Agent.Order.Parsed.{parsed_group-IsOrdered}
use navarch.Parser.Graph.{validate_graph, depends_of, is_service}
use navarch.Spec.{DeploymentSpec, lookup}
use navarch.Agent.Reconcile.{Reconciler, holds, reconcile_ordered}
use navarch.Agent.Reconcile.Removals.{AllAllowed, reconcile_removes_orphans}
use navarch.Agent.Reconcile.Teardown.{reports_teardown, reconcile_tears_down}
use navarch.Tests.Parser.{needs}

abbrev instance_of : ℕ → String → List String → DesiredInstance
instance_of id name deps = record {
  instance_id = id;
  deployment_id = "d";
  env8 = "aaaa";
  project_name = "cc-aaaa-r1-blue";
  slot = blue;
  revision = 1;
  service_name = name;
  swappable = true;
  service = needs name deps;
  state = InstanceState.pending;
  container_id = "";
}

abbrev two_services : List DesiredInstance
two_services = instance_of 1 "web" ("db" ∷ []) ∷ instance_of 2 "db" [] ∷ []

abbrev healthy_now : Observed
healthy_now = record {
  running = true;
  status = "";
  exit_code = 0;
  restart_count = 0;
  published_port = 0;
}

abbrev orphan : Managed
orphan = record { id = "c9"; name = "cc-aaaa-r0-green-web"; service = "web"; swappable = true }

-- Everything succeeds but the teardown of one environment.
abbrev docker : DockerDriver ℕ
docker before (ensure_image ref) = answered ""
docker before (ensure_network n l) = answered tt
docker before (ensure_container cs s) =
    answered (record { id = "c1"; created = true; recreated = false })
docker before (attach_network i n a) = answered tt
docker before (inspect_health i) = answered healthy_now
docker before (stop_remove i) = answered tt
docker before (list_managed e) = answered (orphan ∷ [])
docker before (prune_revision_networks e w) = answered tt
docker before (ensure_volume v l) = answered tt
docker before (remove_env e) = refused "busy"

abbrev idle : Reconciler
idle = record { first_running = []; torn_down = "cccc" ∷ []; known_envs = [] }

reconcile_removes_orphans_example :
    AllAllowed docker
      (map container_name two_services)
      ("bbbb" ∷ [])
      ("cccc" ∷ [])
      (reconcile_ordered docker 100 (λ e. 7) ("bbbb" ∷ []) two_services idle).1.1
reconcile_removes_orphans_example =
    reconcile_removes_orphans docker 100 (λ e. 7) ("bbbb" ∷ []) two_services idle

reconcile_tears_down_example :
    (holds
        (reconcile_ordered docker 100 (λ e. 7) ("bbbb" ∷ []) two_services idle).1.0.torn_down
        "bbbb"
      ≡ true)
    ⊎ (reports_teardown "bbbb"
          (reconcile_ordered docker 100 (λ e. 7) ("bbbb" ∷ []) two_services idle).0.1
        ≡ true)
reconcile_tears_down_example =
    reconcile_tears_down docker 100 (λ e. 7) ("bbbb" ∷ []) two_services idle "bbbb" refl

watch-debounces_example :
    watch 1 (λ t. healthy_now) (1000 ∷ 4000 ∷ 7000 ∷ []) []
    ≡ since_first 1000 (1000 ∷ 4000 ∷ 7000 ∷ [])
unfolding navarch.Agent.Health.first_seen
watch-debounces_example =
    watch-debounces 1 1000 (λ t. healthy_now) (4000 ∷ 7000 ∷ []) [] (refl, (refl, (refl, tt))) refl

abbrev two_spec : DeploymentSpec
two_spec = record {
  spec_version = 1;
  services = ("web", needs "web" ("db" ∷ [])) ∷ ("db", needs "db" []) ∷ [];
  volumes = [];
  networks = [];
}

abbrev plain : String → String
plain s = s

two_valid : validate_graph plain two_spec ≡ []
unfolding validate_graph navarch.Prelude.sort_by navarch.Prelude.str_leb
two_valid = refl

same_depends :
    (n : String) (di : DesiredInstance)
    → by_name n two_services ≡ some di
    → di.service.depends ≡ depends_of two_spec n
unfolding by_name depends_of lookup
same_depends n di at_name = elim (Bool-cases (str_eq "db" n)) [
  | inl is_db ↦ elim (Bool-cases (str_eq "web" n)) [
    | inl is_web ↦ absurd (
        let same = (eq_iff "web" n).0 is_web ∙ sym ((eq_iff "db" n).0 is_db) in
        ground (arith, ap (λ x. str_eq x "db") same))
    | inr not_web ↦ ground arith
  ]
  | inr not_db ↦ elim (Bool-cases (str_eq "web" n)) [
    | inl is_web ↦ ground arith
    | inr not_web ↦ absurd (ground arith)
  ]
]

all_services : (n : String) → names two_services n ≡ true → is_service two_spec n ≡ true
unfolding is_service lookup
all_services n h = ground arith

parsed_group-IsOrdered_example :
    (out : List DesiredInstance) × ((topo_group two_services ≡ some out)
      × (IsOrdered two_services out
          × ((n : String) → names two_services n ≡ true → names out n ≡ true)))
parsed_group-IsOrdered_example =
    parsed_group-IsOrdered plain two_spec two_services two_valid same_depends all_services
