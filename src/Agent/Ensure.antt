-- ===== src/Agent/Ensure.antt =====
-- containerName, containerSpec and ensure of internal/agent/reconcile.go. A pass is explicit state:
-- the calls so far and the map firstRunning. fmt.Sprintf is the concatenation of its parts.
use Prim.Native.String.{◌++◌ as cat}
use text.Mathlib.Text.{◌==◌ as str_eq}
use navarch.Prelude.{ℕ, String, Bool, true, false, Option, none, some, List, [], ◌∷◌, if◌then◌else◌}
use navarch.Spec.{Mount, mount_volume, mount_tmpfs, Ingress}
use navarch.Store.{InstanceState}
use navarch.Agent.Docker.{
  DesiredInstance, VolumeMount, ContainerSpec, Ensured, Observed, Answer, answered, refused, Call,
  ensure_image, ensure_network, ensure_container, attach_network, inspect_health, ensure_volume,
  Returns, DockerDriver, Report,
}
use navarch.Agent.Health.{FirstRunning, has_test, observe}

unfoldable pub container_name : DesiredInstance → String
container_name di =
    if di.swappable
    then cat di.project_name (cat "-" di.service_name)
    else cat "cc-" (cat di.env8 (cat "-pinned-" di.service_name))

-- The named volumes; another mount is passed over.
unfoldable pub volume_mounts : String → List Mount → List VolumeMount
volume_mounts env8 [] = []
volume_mounts env8 (m ∷ ms) =
    let rest = volume_mounts env8 ms in
    elim m.kind [
      | mount_volume ↦
          record {
            volume = cat "cc-" (cat env8 (cat "-" m.source));
            target = m.target;
            read_only = m.read_only;
          }
          ∷ rest
      | mount_tmpfs ↦ rest
    ]

abbrev pub published_port : Option Ingress → ℕ
published_port none = 0
published_port (some i) = i.port

abbrev bool_str : Bool → String
bool_str b = if b then "true" else "false"

unfoldable pub container_spec : DesiredInstance → String → ContainerSpec
unfolding volume_mounts
container_spec di name = record {
  name = name;
  image = di.service.image;
  env = di.service.env;
  secret_env = di.service.secret_env;
  cmd = di.service.command;
  entrypoint = di.service.entrypoint;
  working_dir = di.service.working_dir;
  user = di.service.user;
  mounts = volume_mounts di.env8 di.service.mounts;
  health = di.service.health;
  labels =
      ("cc.env", di.env8)
      ∷ ("cc.deployment", di.deployment_id)
      ∷ ("cc.service", di.service_name)
      ∷ ("cc.swappable", bool_str di.swappable)
      ∷ [];
  network = di.project_name;
  restart = di.service.restart;
  cpu_millis = di.service.limits.cpu_millis;
  memory_bytes = di.service.limits.memory_bytes;
  publish_port = published_port di.service.ingress;
}

-- A report with nothing but the instance.
abbrev pub blank : ℕ → Report
blank id = record {
  instance_id = id;
  state = InstanceState.pending;
  container_id = "";
  health_status = "";
  last_error = "";
  restart_count = 0;
  set_started = false;
  recreated = false;
  ingress_port = 0;
}

-- return fail(err)
abbrev pub fail_report : Report → String → Report
fail_report rep msg = record rep { state = InstanceState.failed; last_error = msg }

abbrev pub labels_of : DesiredInstance → List (String × String)
labels_of di = ("cc.env", di.env8) ∷ []

abbrev pub with_image : String → ContainerSpec → ContainerSpec
with_image digest cs = if str_eq digest "" then cs else record cs { image = digest }

module _ {S : Type 0} (docker : DockerDriver S) where
  abbrev pub Pass : Type 0
  Pass = List (Call S) × FirstRunning

  -- if err != nil { return fail(err) }
  abbrev pub or_fail :
      {A : Type 0} → Report → (A → Pass → Report × Pass) → Pass → Answer A → Report × Pass
  or_fail rep next p (answered a) = next a p
  or_fail rep next p (refused msg) = (fail_report rep msg, p)

  -- One call, and what follows its answer.
  abbrev pub attempt :
      (c : Call S) → Report → (Returns c → Pass → Report × Pass) → Pass → Report × Pass
  attempt c rep next (calls, m) = or_fail rep next (c ∷ calls, m) (docker calls c)

  unfoldable pub ensure_volumes :
      List (String × String)
      → Report
      → (Pass → Report × Pass)
      → List VolumeMount
      → Pass
      → Report × Pass
  ensure_volumes labels rep next [] p = next p
  ensure_volumes labels rep next (v ∷ vs) p =
      attempt (ensure_volume v.volume labels) rep (λ u q. ensure_volumes labels rep next vs q) p

  abbrev pub record_health : DesiredInstance → Report → ℕ → Observed → Pass → Report × Pass
  record_health di rep now h (calls, m) =
      let (seen, later) = observe now di.instance_id (has_test di.service.health) h m in
      (
        record rep {
          restart_count = h.restart_count;
          ingress_port = h.published_port;
          state = seen.0;
          health_status = seen.1;
        },
        (calls, later),
      )

  -- From the container's id on.
  abbrev pub inspect : DesiredInstance → ℕ → Report → String → Pass → Report × Pass
  inspect di now rep id p =
      let started = record rep { container_id = id; set_started = true } in
      attempt (inspect_health id) started (λ h q. record_health di started now h q) p

  -- A pinned container joins the network of this revision.
  abbrev pub join : DesiredInstance → ℕ → Ensured → Pass → Report × Pass
  join di now e p =
      let rep = record (blank di.instance_id) { recreated = e.recreated } in
      if di.swappable
      then inspect di now rep e.id p
      else attempt (attach_network e.id di.project_name di.service_name) rep
          (λ u q. inspect di now rep e.id q) p

  -- ensure, at the clock reading `now` of observe.
  unfoldable pub ensure : ℕ → DesiredInstance → String → S → Pass → Report × Pass
  unfolding ensure_volumes observe container_spec
  ensure now di name secrets p =
      let rep = blank di.instance_id in
      attempt (ensure_image di.service.image) rep
        (λ digest q.
          attempt (ensure_network di.project_name (labels_of di)) rep
            (λ u r.
              let cs = with_image digest (container_spec di name) in
              ensure_volumes (labels_of di) rep
                (λ t. attempt (ensure_container cs secrets) rep (λ e w. join di now e w) t)
                cs.mounts r)
            q)
        p
