-- ===== src/Store/Rollback/Required.antt =====
-- The keys of RequiredSecrets (internal/spec/spec.go) and the secrets that a rollback needs.
use mathlib.Core.List.{Memᴰ, Permᴰ}
use text.Mathlib.Text.{◌==◌ as str_eq}
use text.Mathlib.TextEquality.{eq_iff}
use navarch.Prelude.{
  ℕ, ◌≡◌, ◌==◌, ◌&&◌, refl, sym, ◌∙◌, subst, ap, String, Bool, true, List, [], ◌∷◌, any, all,
  sort_by-perm, str_leb, ℤ, arith, Bool-cases, inl, inr,
}
use navarch.Spec.{GoMap, Service, DeploymentSpec}
use navarch.Store.{Secret, Deployment, Db, ok, invalid, scan-eq-ok, require-eq-ok}
use navarch.Store.Deployments.{new_deployment}
use navarch.Store.History.Create.{create-effect}
use navarch.Store.Rollback.{
  note_key, note_all, secrets_of, collect_secrets, required_secrets, has_secret,
  rollback_deployment, rollback_target,
}

-- The key is in the list.
abbrev listed : String → List String → Bool
listed k l = any (str_eq k) l

str_refl : (k : String) → str_eq k k ≡ true
str_refl k = (eq_iff k k).1 refl

listed_perm : (k : String) {l m : List String} → Permᴰ l m → listed k l ≡ listed k m
listed_perm k Permᴰ.nil = refl
listed_perm k (Permᴰ.cons e p) = ground (arith, listed_perm k p, e)
listed_perm k (Permᴰ.swap e f) = ground (arith, e, f)
listed_perm k (Permᴰ.trans p q) = listed_perm k p ∙ listed_perm k q

note_key-keeps :
    (x k : String) (seen : List String) → listed x seen ≡ true → listed x (note_key k seen) ≡ true
unfolding note_key
note_key-keeps x k seen h = ground arith

note_key-notes : (k : String) (seen : List String) → listed k (note_key k seen) ≡ true
unfolding note_key
note_key-notes k seen = ground (arith, str_refl k)

note_all-keeps :
    (x : String) (ks seen : List String) → listed x seen ≡ true → listed x (note_all ks seen) ≡ true
unfolding note_all
note_all-keeps x [] seen h = h
note_all-keeps x (k ∷ ks) seen h = note_all-keeps x ks (note_key k seen) (note_key-keeps x k seen h)

note_all-notes :
    (x : String) (ks seen : List String) → Memᴰ x ks → listed x (note_all ks seen) ≡ true
unfolding note_all
note_all-notes x [] seen m = elim m [ ]
note_all-notes x (k ∷ ks) seen (Memᴰ.head e) =
    note_all-keeps x ks (note_key k seen)
      (subst (λ y. listed y (note_key k seen) ≡ true) (sym e) (note_key-notes k seen))
note_all-notes x (k ∷ ks) seen (Memᴰ.tail m) = note_all-notes x ks (note_key k seen) m

module _ (refs : String → List String) (x : String) where
  secrets_of-keeps :
      (m : GoMap String) (seen : List String)
      → listed x seen ≡ true
      → listed x (secrets_of refs m seen) ≡ true
  unfolding secrets_of
  secrets_of-keeps [] seen h = h
  secrets_of-keeps ((key, template) ∷ m) seen h =
      secrets_of-keeps m _ (note_all-keeps x (refs template) seen h)

  secrets_of-notes :
      (m : GoMap String) (seen : List String) (key template : String)
      → Memᴰ (key, template) m
      → Memᴰ x (refs template)
      → listed x (secrets_of refs m seen) ≡ true
  unfolding secrets_of
  secrets_of-notes [] seen key template at h = elim at [ ]
  secrets_of-notes ((k, t) ∷ m) seen key template (Memᴰ.head e) h =
      secrets_of-keeps m _
        (note_all-notes x (refs t) seen (subst (λ (p : String × String). Memᴰ x (refs p.1)) e h))
  secrets_of-notes ((k, t) ∷ m) seen key template (Memᴰ.tail at) h =
      secrets_of-notes m _ key template at h

  collect_secrets-keeps :
      (m : GoMap Service) (seen : List String)
      → listed x seen ≡ true
      → listed x (collect_secrets refs m seen) ≡ true
  unfolding collect_secrets
  collect_secrets-keeps [] seen h = h
  collect_secrets-keeps ((name, svc) ∷ m) seen h =
      collect_secrets-keeps m _ (secrets_of-keeps svc.secret_env seen h)

  collect_secrets-notes :
      (m : GoMap Service) (seen : List String) (name : String) (svc : Service)
      (key template : String)
      → Memᴰ (name, svc) m
      → Memᴰ (key, template) svc.secret_env
      → Memᴰ x (refs template)
      → listed x (collect_secrets refs m seen) ≡ true
  unfolding collect_secrets
  collect_secrets-notes [] seen name svc key template at env h = elim at [ ]
  collect_secrets-notes ((n, s) ∷ m) seen name svc key template (Memᴰ.head e) env h =
      collect_secrets-keeps m _ (
        secrets_of-notes s.secret_env seen key template
          (subst (λ (p : String × Service). Memᴰ (key, template) p.1.secret_env) e env) h)
  collect_secrets-notes ((n, s) ∷ m) seen name svc key template (Memᴰ.tail at) env h =
      collect_secrets-notes m _ name svc key template at env h

  required_secrets-listed :
      (s : DeploymentSpec) (name : String) (svc : Service) (key template : String)
      → Memᴰ (name, svc) s.services
      → Memᴰ (key, template) svc.secret_env
      → Memᴰ x (refs template)
      → listed x (required_secrets refs s) ≡ true
  unfolding required_secrets
  required_secrets-listed s name svc key template at env h =
      listed_perm x (sort_by-perm str_leb (collect_secrets refs s.services []))
      ∙ collect_secrets-notes s.services [] name svc key template at env h

all-listed :
    (f : String → Bool) (k : String) (l : List String)
    → all f l ≡ true
    → listed k l ≡ true
    → f k ≡ true
all-listed f k [] h e = cc
all-listed f k (x ∷ l) h e = elim (Bool-cases (str_eq k x)) [
  | inl same ↦ subst (λ y. f y ≡ true) (sym ((eq_iff k x).0 same)) (ground arith)
  | inr other ↦ all-listed f k l (ground arith) (ground arith)
]

-- When a rollback succeeds, every secret that a service of the new deployment refers to, in any
-- template of its secret environment, has a row for the environment.
pub rollback-has_secret :
    (refs : String → List String) (id now env : ℕ) (to : ℤ) (db db' : Db) (d : Deployment)
    → rollback_deployment refs id now env to db ≡ ok (d, db')
    → (name : String) (svc : Service) (key template x : String)
    → Memᴰ (name, svc) d.resolved_spec.services
    → Memᴰ (key, template) svc.secret_env
    → Memᴰ x (refs template)
    → any (λ (s : Secret). s.environment_id == env && str_eq s.key x) db.secrets ≡ true
unfolding rollback_deployment has_secret new_deployment
rollback-has_secret refs id now env to db db' d h name svc key template x at in_env ref =
    let (old, _, k) = scan-eq-ok (rollback_target env to db) _ h in
    let (held, made) =
      require-eq-ok (all (has_secret env db) (required_secrets refs old.resolved_spec)) invalid _
        k in
    let (e, c) = create-effect id now _ db db' d made in
    let same : d.resolved_spec ≡ old.resolved_spec =
      ap (λ (y : Deployment). y.resolved_spec) c.is_new in
    all-listed (has_secret env db) x (required_secrets refs old.resolved_spec) held (
      required_secrets-listed refs x old.resolved_spec name svc key template
        (subst (λ s. Memᴰ (name, svc) s.services) same at) in_env ref)
