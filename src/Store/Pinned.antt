-- ===== src/Store/Pinned.antt =====
-- What rejectPinnedDrift of internal/store/deployments.go keeps of the live revision.
use mathlib.Core.List.{Memᴰ}
use navarch.Prelude.{
  All, ◌⊎◌, none, Bool-cases, ℕ, ◌≡◌, refl, sym, ◌∙◌, subst, ap, String, true, false, inl, inr,
  some, [], ◌∷◌, arith, Option-cases,
}
use navarch.Spec.{GoMap, lookup, Service, DeploymentSpec}
use navarch.Spec.Equal.{service_eq, service_eq_sound}
use navarch.Store.{Deployment, Environment, Db, ok, err, conflict, deployment_row, environment_row}
use navarch.Store.Deployments.{
  CreateDeploymentParams, reject_pinned_drift, drift_check, live_row, create_deployment,
  new_deployment,
}
use navarch.Store.History.Create.{create-effect}

-- The pinned service `old` is still there under its name, pinned and with the same image, mounts
-- and memory limit.
pub StaysPinned : String → Service → DeploymentSpec → Type 0
StaysPinned name old next =
    (new : Service) × (lookup name next.services ≡ some new)
    × (new.swappable ≡ false)
    × (new.image ≡ old.image)
    × (new.mounts ≡ old.mounts)
    × (new.limits.memory_bytes ≡ old.limits.memory_bytes)

head_stays :
    (name : String) (old : Service) (rest : GoMap Service) (next : DeploymentSpec)
    → reject_pinned_drift ((name, old) ∷ rest) next ≡ ok tt
    → old.swappable ≡ false
    → StaysPinned name old next
unfolding reject_pinned_drift StaysPinned
head_stays name old rest next h pinned = elim (Option-cases (lookup name next.services)) [
  | inl missing ↦ absurd (ground arith)
  | inr (new, at) ↦
      let equal : service_eq old new ≡ true = ground arith in
      let (image, mounts, swappable, memory) = service_eq_sound old new equal in
      (new, at, sym swappable ∙ pinned, sym image, sym mounts, sym memory)
]

tail_accepted :
    (name : String) (old : Service) (rest : GoMap Service) (next : DeploymentSpec)
    → reject_pinned_drift ((name, old) ∷ rest) next ≡ ok tt
    → reject_pinned_drift rest next ≡ ok tt
unfolding reject_pinned_drift
tail_accepted name old rest next h = ground arith

accepted-stays :
    (live : GoMap Service) (next : DeploymentSpec)
    → reject_pinned_drift live next ≡ ok tt
    → (name : String) (old : Service) → Memᴰ (name, old) live
    → old.swappable ≡ false
    → StaysPinned name old next
accepted-stays [] next h name old m pinned = elim m [ ]
accepted-stays ((n, o) ∷ live) next h name old (Memᴰ.head e) pinned =
    subst (λ (s : String × Service). StaysPinned s.0 s.1 next) (sym e)
      (head_stays n o live next h
        (subst (λ (s : String × Service). s.1.swappable ≡ false) e pinned))
accepted-stays ((n, o) ∷ live) next h name old (Memᴰ.tail m) pinned =
    accepted-stays live next (tail_accepted n o live next h) name old m pinned

-- The service `old` is pinned, and under its name there is none, or one that is swappable or
-- compares different.
pub Drifts : String → Service → DeploymentSpec → Type 0
Drifts name old next =
    (old.swappable ≡ false)
    × ((lookup name next.services ≡ none)
        ⊎ ((new : Service) × (lookup name next.services ≡ some new)
            × ((new.swappable ≡ true) ⊎ (service_eq old new ≡ false))))

pub data Judges (live : GoMap Service) (next : DeploymentSpec) : Type 0 where
  accepts :
      reject_pinned_drift live next ≡ ok tt
      → All (λ s. (s.1.swappable ≡ true) ⊎ StaysPinned s.0 s.1 next) live
      → Judges live next
  rejects :
      (name : String) (old : Service)
      → Memᴰ (name, old) live
      → Drifts name old next
      → reject_pinned_drift live next ≡ err conflict
      → Judges live next

head-Drifts :
    (name : String) (old : Service) (rest : GoMap Service) (next : DeploymentSpec)
    → reject_pinned_drift rest next ≡ ok tt
    → old.swappable ≡ false
    → (Drifts name old next × (reject_pinned_drift ((name, old) ∷ rest) next ≡ err conflict))
      ⊎ (reject_pinned_drift ((name, old) ∷ rest) next ≡ ok tt)
unfolding reject_pinned_drift Drifts
head-Drifts name old rest next h pinned = elim (Option-cases (lookup name next.services)) [
  | inl missing ↦ inl ((pinned, inl missing), rw (pinned, missing) refl)
  | inr (new, at) ↦ elim (Bool-cases new.swappable) [
    | inl swap ↦ inl ((pinned, inr (new, at, inl swap)), rw (pinned, at, swap) refl)
    | inr keep ↦ elim (Bool-cases (service_eq old new)) [
      | inl same ↦ inr (rw (pinned, at, same, keep) h)
      | inr differs ↦
          inl ((pinned, inr (new, at, inr differs)), rw (pinned, at, differs, keep) refl)
    ]
  ]
]

head_refused :
    (name : String) (old : Service) (rest : GoMap Service) (next : DeploymentSpec)
    → reject_pinned_drift rest next ≡ err conflict
    → reject_pinned_drift ((name, old) ∷ rest) next ≡ err conflict
unfolding reject_pinned_drift
head_refused name old rest next h = ground arith

-- rejectPinnedDrift accepts or refuses. When it accepts, every pinned service of the live
-- specification stays under its name, pinned and with the same image, mounts and memory limit; when
-- it refuses, a pinned one is gone, is swappable now, or compares different.
pub reject_pinned_drift-Judges : (live : GoMap Service) (next : DeploymentSpec) → Judges live next
unfolding reject_pinned_drift
reject_pinned_drift-Judges [] next = accepts refl tt
reject_pinned_drift-Judges ((name, old) ∷ rest) next = elim (reject_pinned_drift-Judges rest next) [
  | rejects n o m d e ↦ rejects n o (Memᴰ.tail m) d (head_refused name old rest next e)
  | accepts e all ↦ elim (Bool-cases old.swappable) [
    | inl swap ↦ accepts (rw swap e) (inl swap, all)
    | inr pinned ↦ elim (head-Drifts name old rest next e pinned) [
      | inl (d, e') ↦ rejects name old (Memᴰ.head refl) d e'
      | inr e' ↦ accepts e' (inr (head_stays name old rest next e' pinned), all)
    ]
  ]
]

-- A deployment that is created over a live one keeps each of its pinned services: under the same
-- name there is a pinned service with the same image, mounts and memory limit.
pub create-keeps_pinned :
    (id now : ℕ) (p : CreateDeploymentParams) (db db' : Db) (n d : Deployment) (e : Environment)
    (i : ℕ)
    → create_deployment id now p db ≡ ok (n, db')
    → environment_row db p.environment_id ≡ some e
    → e.live_deployment_id ≡ some i
    → deployment_row db i ≡ some d
    → (name : String) (old : Service) → Memᴰ (name, old) d.resolved_spec.services
    → old.swappable ≡ false
    → StaysPinned name old n.resolved_spec
unfolding live_row drift_check new_deployment
create-keeps_pinned id now p db db' n d e i h at_e live at_d name old m pinned =
    let (o, c) = create-effect id now p db db' n h in
    let same : o ≡ e = some_inj (sym c.at_e ∙ at_e) in
    let check =
      subst (λ (x : Environment). drift_check (live_row db x) p.resolved_spec ≡ ok tt) same
        c.undrifted in
    let row : live_row db e ≡ some d = rw (live, at_d) refl in
    let accepted : reject_pinned_drift d.resolved_spec.services p.resolved_spec ≡ ok tt =
      subst (λ r. drift_check r p.resolved_spec ≡ ok tt) row check in
    subst (λ s. StaysPinned name old s) (sym (ap (λ (x : Deployment). x.resolved_spec) c.is_new))
      (accepted-stays d.resolved_spec.services p.resolved_spec accepted name old m pinned)
  where
    some_inj : {a b : Environment} → some a ≡ some b → a ≡ b
    some_inj e = cc
