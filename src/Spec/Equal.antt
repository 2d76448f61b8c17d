-- ===== src/Spec/Equal.antt =====
-- reflect.DeepEqual on the services of two specifications (used by rejectPinnedDrift in
-- internal/store/deployments.go). Maps are equal when they have the same keys with equal values,
-- in any order. A nil and an empty slice are one list here: both come from decoded JSON, where
-- omitempty leaves an empty list out.
use navarch.Prelude.{
  String, Bool, true, false, ◌&&◌, Option, none, some, List, [], ◌∷◌, length, all, ◌==◌, ◌≡◌, refl,
  arith,
}
use text.Mathlib.Text.{◌==◌ as str_eq}
use text.Mathlib.TextEquality.{eq_iff}
use navarch.Spec.{
  GoMap, lookup, Port, MountKind, mount_volume, mount_tmpfs, Mount, HealthCheck, ResourceLimit,
  Ingress, Service,
}

pub list_eq {ℓ} : {A : Type ℓ} → (A → A → Bool) → List A → List A → Bool
list_eq eq [] [] = true
list_eq eq (x ∷ xs) (y ∷ ys) = eq x y && list_eq eq xs ys
list_eq eq xs ys = false

option_eq {ℓ} : {A : Type ℓ} → (A → A → Bool) → Option A → Option A → Bool
option_eq eq none none = true
option_eq eq (some x) (some y) = eq x y
option_eq eq x y = false

map_eq : GoMap String → GoMap String → Bool
map_eq m n = length m == length n && all (λ p. option_eq str_eq (lookup p.0 n) (some p.1)) m

bool_eq : Bool → Bool → Bool
bool_eq true b = b
bool_eq false true = false
bool_eq false false = true

kind_eq : MountKind → MountKind → Bool
kind_eq mount_volume mount_volume = true
kind_eq mount_tmpfs mount_tmpfs = true
kind_eq a b = false

port_eq : Port → Port → Bool
port_eq a b = a.container == b.container && str_eq a.protocol b.protocol

mount_eq : Mount → Mount → Bool
mount_eq a b =
    kind_eq a.kind b.kind
    && str_eq a.source b.source
    && str_eq a.target b.target
    && bool_eq a.read_only b.read_only

health_eq : HealthCheck → HealthCheck → Bool
health_eq a b =
    list_eq str_eq a.test b.test
    && a.interval_sec == b.interval_sec
    && a.timeout_sec == b.timeout_sec
    && a.retries == b.retries
    && a.start_sec == b.start_sec

limits_eq : ResourceLimit → ResourceLimit → Bool
limits_eq a b = a.cpu_millis == b.cpu_millis && a.memory_bytes == b.memory_bytes

ingress_eq : Ingress → Ingress → Bool
ingress_eq a b = a.port == b.port && str_eq a.path b.path

same_command : Service → Service → Bool
same_command a b =
    str_eq a.name b.name
    && str_eq a.image b.image
    && list_eq str_eq a.command b.command
    && list_eq str_eq a.entrypoint b.entrypoint
    && str_eq a.working_dir b.working_dir
    && str_eq a.user b.user
    && map_eq a.env b.env
    && map_eq a.secret_env b.secret_env

same_resources : Service → Service → Bool
same_resources a b =
    list_eq port_eq a.ports b.ports
    && list_eq mount_eq a.mounts b.mounts
    && list_eq str_eq a.depends b.depends
    && option_eq health_eq a.health b.health
    && limits_eq a.limits b.limits
    && str_eq a.restart b.restart
    && bool_eq a.swappable b.swappable
    && option_eq ingress_eq a.ingress b.ingress

unfoldable pub service_eq : Service → Service → Bool
unfolding same_command same_resources lookup list_eq option_eq map_eq bool_eq kind_eq port_eq
    mount_eq health_eq limits_eq ingress_eq
service_eq a b = same_command a b && same_resources a b

list_eq_sound {ℓ} :
    {A : Type ℓ} (eq : A → A → Bool)
    → ((x y : A) → eq x y ≡ true → x ≡ y)
    → (xs ys : List A) → list_eq eq xs ys ≡ true
    → xs ≡ ys
unfolding list_eq
list_eq_sound eq h [] [] e = refl
list_eq_sound eq h [] (y ∷ ys) e = cc
list_eq_sound eq h (x ∷ xs) [] e = cc
list_eq_sound eq h (x ∷ xs) (y ∷ ys) e = ground (arith, h x y, list_eq_sound eq h xs ys)

mount_eq_sound : (a b : Mount) → mount_eq a b ≡ true → a ≡ b
unfolding mount_eq kind_eq bool_eq
mount_eq_sound a b e = ground (arith, eq_iff a.source b.source, eq_iff a.target b.target)

bool_eq_sound : (a b : Bool) → bool_eq a b ≡ true → a ≡ b
unfolding bool_eq
bool_eq_sound a b e = ground arith

service_eq-parts :
    (a b : Service)
    → service_eq a b ≡ true
    → (same_command a b ≡ true) × (same_resources a b ≡ true)
unfolding service_eq
service_eq-parts a b e = both (same_command a b) (same_resources a b) e
  where
    both : (x y : Bool) → x && y ≡ true → (x ≡ true) × (y ≡ true)
    both x y h = ground arith

same_command-image : (a b : Service) → same_command a b ≡ true → a.image ≡ b.image
unfolding same_command
same_command-image a b e = ground (arith, eq_iff a.image b.image)

same_resources-parts :
    (a b : Service)
    → same_resources a b ≡ true
    → (a.mounts ≡ b.mounts)
      × (a.swappable ≡ b.swappable)
      × (a.limits.memory_bytes ≡ b.limits.memory_bytes)
unfolding same_resources limits_eq
same_resources-parts a b e = ground (
  arith,
  bool_eq_sound a.swappable b.swappable,
  list_eq_sound mount_eq mount_eq_sound a.mounts b.mounts,
)

-- Services that compare equal have the same image, mounts, cardinality and memory limit.
pub service_eq_sound :
    (a b : Service)
    → service_eq a b ≡ true
    → (a.image ≡ b.image)
      × (a.mounts ≡ b.mounts)
      × (a.swappable ≡ b.swappable)
      × (a.limits.memory_bytes ≡ b.limits.memory_bytes)
service_eq_sound a b e =
    let (c, r) = service_eq-parts a b e in
    let (m, w, l) = same_resources-parts a b r in (same_command-image a b c, m, w, l)
