-- ===== src/Spec.antt =====
-- internal/spec/spec.go: the normalized deployment specification.
-- A Go map is the list of its pairs, with distinct keys, in the order a range loop visits them.
-- CPUMillis and MemoryBytes are Go's 64-bit words, given by their bit patterns below 2 ^ 64.
pub mod Capacity
pub mod Equal
pub mod Durable
use navarch.Prelude.{
  ℕ, String, Bool, true, false, Option, none, some, List, [], ◌∷◌, map, if◌then◌else◌, ◌%◌, ◌*◌,
  select, not, ℤ, add64, word_mod, signed64, sort_by, str_leb,
}
use text.Mathlib.Text.{◌==◌ as str_eq}

abbrev pub GoMap : Type 0 → Type 0
GoMap V = List (String × V)

unfoldable pub lookup : {V : Type 0} → String → GoMap V → Option V
lookup k [] = none
lookup k ((j, v) ∷ m) = let rest = lookup k m in if str_eq j k then some v else rest

abbrev pub keys : {V : Type 0} → GoMap V → List String
keys m = map (λ p. p.0) m

pub record Port : Type 0 where
  pub container : ℕ
  pub protocol : String

pub data MountKind : Type 0 where
  mount_volume mount_tmpfs : MountKind

pub record Mount : Type 0 where
  pub kind : MountKind
  pub source : String
  pub target : String
  pub read_only : Bool

pub record HealthCheck : Type 0 where
  pub test : List String
  pub interval_sec : ℕ
  pub timeout_sec : ℕ
  pub retries : ℕ
  pub start_sec : ℕ

pub record ResourceLimit : Type 0 where
  pub cpu_millis : ℕ
  pub memory_bytes : ℕ

pub record Ingress : Type 0 where
  pub port : ℕ
  pub path : String

pub record Volume : Type 0 where
  pub name : String
  pub driver : String
  pub owner : String

pub record Service : Type 0 where
  pub name : String
  pub image : String
  pub command : List String
  pub entrypoint : List String
  pub working_dir : String
  pub user : String
  pub env : GoMap String
  pub secret_env : GoMap String
  pub ports : List Port
  pub mounts : List Mount
  pub depends : List String
  pub health : Option HealthCheck
  pub limits : ResourceLimit
  pub restart : String
  pub swappable : Bool
  pub ingress : Option Ingress

pub record DeploymentSpec : Type 0 where
  pub spec_version : ℕ
  pub services : GoMap Service
  pub volumes : GoMap Volume
  pub networks : List String

-- ServiceNames: the keys, sorted.
unfoldable pub service_names : DeploymentSpec → List String
service_names s = sort_by str_leb (keys s.services)

-- s.Services[name].Swappable, where a missing key reads as the zero value.
unfoldable pub is_swappable : DeploymentSpec → String → Bool
unfolding lookup
is_swappable s n = elim (lookup n s.services) [ none ↦ false | some svc ↦ svc.swappable ]

unfoldable pub has_ingress : DeploymentSpec → String → Bool
unfolding lookup
has_ingress s n = elim (lookup n s.services) [
  | none ↦ false
  | some svc ↦ elim svc.ingress [ none ↦ false | some _ ↦ true ]
]

unfoldable pub swappable_services : DeploymentSpec → List String
unfolding is_swappable service_names
swappable_services s = select (is_swappable s) (service_names s)

unfoldable pub pinned_services : DeploymentSpec → List String
unfolding is_swappable service_names
pinned_services s = select (λ n. not (is_swappable s n)) (service_names s)

abbrev first_with_ingress : DeploymentSpec → List String → Option String
first_with_ingress s [] = none
first_with_ingress s (n ∷ ns) =
    let rest = first_with_ingress s ns in if has_ingress s n then some n else rest

-- The `ok` of the pair is whether there is a name.
unfoldable pub ingress_service : DeploymentSpec → Option String
unfolding has_ingress service_names
ingress_service s = first_with_ingress s (service_names s)

-- The two loops of PeakMemoryBytes and PeakCPUMillis, on bit patterns that wrap at 2 ^ 64.
peak_from : (Service → ℕ) → ℕ → GoMap Service → ℕ
peak_from amount total [] = total
peak_from amount total ((name, svc) ∷ rest) =
    peak_from amount (add64 total (if svc.swappable then amount svc * 2 % word_mod else amount svc))
      rest

unfoldable pub peak_memory_bytes : DeploymentSpec → ℤ
unfolding peak_from
peak_memory_bytes s = signed64 (peak_from (λ svc. svc.limits.memory_bytes) 0 s.services)

unfoldable pub peak_cpu_millis : DeploymentSpec → ℤ
unfolding peak_from
peak_cpu_millis s = signed64 (peak_from (λ svc. svc.limits.cpu_millis) 0 s.services)
