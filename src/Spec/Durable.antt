-- ===== src/Spec/Durable.antt =====
-- DurableReasons of internal/spec/spec.go: what ties a stack to the node it was first placed on.
use text.Mathlib.Text.{◌==◌ as str_eq}
use navarch.Prelude.{
  String, Bool, true, false, ◌||◌, not, none, some, List, [], ◌∷◌, ◌++◌, map, any, select,
  if◌then◌else◌, ◌≡◌, refl, sym, ap, subst, ◌∙◌, All, All-mono, arith, Bool-cases, inl, inr,
}
use navarch.Spec.{
  lookup, keys, MountKind, mount_volume, mount_tmpfs, Mount, Volume, DeploymentSpec, service_names,
  pinned_services,
}

-- The texts of fmt.Sprintf, by their parts.
pub data Reason : Type 0 where
  pinned_service : String → Reason
  mounted_volume : String → String → Reason
  named_volume : String → Reason

unfoldable is_volume : MountKind → Bool
is_volume mount_volume = true
is_volume mount_tmpfs = false

-- m.Kind != MountVolume || m.Source == "" || seen[m.Source]
unfoldable pub is_skipped : List String → Mount → Bool
unfolding is_volume
is_skipped seen m = not (is_volume m.kind) || str_eq m.source "" || any (str_eq m.source) seen

-- The inner loop: the reasons of one service's mounts, and the names seen after it.
unfoldable pub scan_mounts : String → List Mount → List String → List Reason × List String
unfolding is_skipped
scan_mounts name [] seen = ([], seen)
scan_mounts name (m ∷ ms) seen =
    let skip = scan_mounts name ms seen in
    let (out, after) = scan_mounts name ms (m.source ∷ seen) in
    if is_skipped seen m then skip else (mounted_volume m.source name ∷ out, after)

-- s.Services[name].Mounts
unfoldable pub mounts_of : DeploymentSpec → String → List Mount
unfolding lookup
mounts_of s name = elim (lookup name s.services) [ none ↦ [] | some svc ↦ svc.mounts ]

unfoldable pub scan_services :
    DeploymentSpec → List String → List String → List Reason × List String
unfolding scan_mounts mounts_of
scan_services s [] seen = ([], seen)
scan_services s (n ∷ ns) seen =
    let (out, seen1) = scan_mounts n (mounts_of s n) seen in
    let (rest, seen2) = scan_services s ns seen1 in (out ++ rest, seen2)

-- The volumes that no service mounts.
unfoldable unmounted_reasons : DeploymentSpec → List Reason
unfolding scan_services
unmounted_reasons s =
    map named_volume
      (select (λ v. not (any (str_eq v) (scan_services s (service_names s) []).1)) (keys s.volumes))

unfoldable unpinned_reasons : DeploymentSpec → List Reason
unfolding scan_services unmounted_reasons
unpinned_reasons s = (scan_services s (service_names s) []).0 ++ unmounted_reasons s

-- DurableReasons.
unfoldable pub durable_reasons : DeploymentSpec → List Reason
unfolding unpinned_reasons
durable_reasons s = map pinned_service (pinned_services s) ++ unpinned_reasons s

append-nil : {A : Type 0} (xs ys : List A) → (xs ++ ys) ≡ [] → (xs ≡ []) × (ys ≡ [])
append-nil [] ys h = (refl, h)
append-nil (x ∷ xs) ys h = absurd (cons-nil h)
  where
    cons-nil : {A : Type 0} {x : A} {xs : List A} → x ∷ xs ≡ [] → ⊥
    cons-nil e = cc

map-nil : {A B : Type 0} (f : A → B) (xs : List A) → map f xs ≡ [] → xs ≡ []
map-nil f [] h = refl
map-nil f (x ∷ xs) h = absurd (cons-nil h)
  where
    cons-nil : {A : Type 0} {x : A} {xs : List A} → x ∷ xs ≡ [] → ⊥
    cons-nil e = cc

-- No reason means that every mount was passed over, with nothing newly seen.
scan_mounts-nil :
    (name : String) (ms : List Mount) (seen : List String)
    → (scan_mounts name ms seen).0 ≡ []
    → ((scan_mounts name ms seen).1 ≡ seen) × All (λ m. is_skipped seen m ≡ true) ms
unfolding scan_mounts
scan_mounts-nil name [] seen h = (refl, tt)
scan_mounts-nil name (m ∷ ms) seen h = elim (Bool-cases (is_skipped seen m)) [
  | inl skip ↦
      let (e, r) = scan_mounts-nil name ms seen (
        subst
          (λ (b : Bool).
            (if b then scan_mounts name ms seen else (
              mounted_volume m.source name ∷ (scan_mounts name ms (m.source ∷ seen)).0,
              (scan_mounts name ms (m.source ∷ seen)).1,
            )).0
            ≡ [])
          skip h) in
      ((rw skip e), (skip, r))
  | inr keep ↦ absurd (
      cons-nil (
        subst
          (λ (b : Bool).
            (if b then scan_mounts name ms seen else (
              mounted_volume m.source name ∷ (scan_mounts name ms (m.source ∷ seen)).0,
              (scan_mounts name ms (m.source ∷ seen)).1,
            )).0
            ≡ [])
          keep h))
]
  where
    cons-nil : {A : Type 0} {x : A} {xs : List A} → x ∷ xs ≡ [] → ⊥
    cons-nil e = cc

scan_services-nil :
    (s : DeploymentSpec) (ns : List String) (seen : List String)
    → (scan_services s ns seen).0 ≡ []
    → ((scan_services s ns seen).1 ≡ seen)
      × All (λ n. All (λ m. is_skipped seen m ≡ true) (mounts_of s n)) ns
unfolding scan_services
scan_services-nil s [] seen h = (refl, tt)
scan_services-nil s (n ∷ ns) seen h =
    let (first, rest) = append-nil _ _ h in
    let (e, r) = scan_mounts-nil n (mounts_of s n) seen first in
    let later = scan_services-nil s ns seen (subst (λ w. (scan_services s ns w).0 ≡ []) e rest) in
    (ap (λ w. (scan_services s ns w).1) e ∙ later.0, (r, later.1))

unseen : (vs : List String) → select (λ v. not (any (str_eq v) [])) vs ≡ vs
unseen [] = refl
unseen (v ∷ vs) = ap (λ w. v ∷ w) (unseen vs)

-- A mount that is passed over when nothing is seen is no volume or has no name.
skipped-unnamed :
    (m : Mount) → is_skipped [] m ≡ true → m.kind ≡ mount_volume → str_eq m.source "" ≡ true
unfolding is_skipped is_volume
skipped-unnamed m h e = ground arith

-- A stack with no durable reason has no pinned service, declares no volume, and in every service
-- each mount of a volume, read-only or not, has no name.
pub durable_reasons-nil :
    (s : DeploymentSpec)
    → durable_reasons s ≡ []
    → (pinned_services s ≡ [])
      × (s.volumes ≡ [])
      × All
          (λ n. All (λ m. m.kind ≡ mount_volume → str_eq m.source "" ≡ true) (mounts_of s n))
          (service_names s)
unfolding durable_reasons unpinned_reasons unmounted_reasons
durable_reasons-nil s h =
    let (p, q) = append-nil (map pinned_service (pinned_services s)) (unpinned_reasons s) h in
    let (r, t) = append-nil (scan_services s (service_names s) []).0 (unmounted_reasons s) q in
    let (seen, mounts) = scan_services-nil s (service_names s) [] r in
    let vols = map-nil named_volume _ (
      subst (λ w. map named_volume (select (λ v. not (any (str_eq v) w)) (keys s.volumes)) ≡ [])
        seen t) in
    (
      map-nil pinned_service _ p,
      map-nil (λ (v : String × Volume). v.0) s.volumes (sym (unseen (keys s.volumes)) ∙ vols),
      All-mono _ _
          (λ n. All-mono (λ m. is_skipped [] m ≡ true) _ (λ m. skipped-unnamed m) (mounts_of s n))
          (service_names s) mounts,
    )
