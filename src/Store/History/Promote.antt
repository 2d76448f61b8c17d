-- ===== src/Store/History/Promote.antt =====
-- PromoteDeployment: what it writes, and the invariant.
use navarch.Prelude.{
  ℕ, ◌≡◌, ◌≢◌, refl, sym, ◌∙◌, subst, ap, Bool, true, false, inl, inr, ◌⊎◌, Option, none, some,
  arith, Bool-cases, Option-cases, row-update_row, ◌==◌, if◌then◌else◌, apply_to,
}
use navarch.Store.{
  healthy, Deployment, Environment, Db, ok, deployment_row, environment_row, is_active, is_live,
  same_state,
}
use navarch.Store.Deployments.{
  supersede, make_live, supersede_previous, promoted, promote_deployment,
}

-- The facts behind an accepted promotion.
pub record Promotes (now id : ℕ) (prev : Option ℕ) (db db' : Db) (d : Deployment) (e : Environment)
    : Type 0 where
  pub at_d : deployment_row db id ≡ some d
  pub is_healthy : same_state d.state healthy ≡ true
  pub at_e : environment_row db d.environment_id ≡ some e
  pub prior : prev ≡ e.live_deployment_id
  pub written :
      db' ≡ promoted now id d.environment_id (supersede_previous now e.live_deployment_id db)

pub promote-effect :
    (now id : ℕ) (prev : Option ℕ) (db db' : Db)
    → promote_deployment now id db ≡ ok (prev, db')
    → (d : Deployment) × (e : Environment) × Promotes now id prev db db' d e
unfolding promote_deployment
promote-effect now id prev db db' h = elim (Option-cases (deployment_row db id)) [
  | inl missing ↦ absurd (ground arith)
  | inr (d, at_d) ↦ elim (Option-cases (environment_row db d.environment_id)) [
    | inl missing ↦ absurd (ground arith)
    | inr (e, at_e) ↦ (
      d,
      e,
      record {
        at_d = at_d;
        is_healthy = ground arith;
        at_e = at_e;
        prior = ground arith;
        written = ground arith;
      },
    )
  ]
]

-- How a promotion turns one row.
pub record Turned (id : ℕ) (prev : Option ℕ) (p : ℕ) (d c : Deployment) : Type 0 where
  pub env : c.environment_id ≡ d.environment_id
  pub revision : c.revision ≡ d.revision
  pub slot : c.slot ≡ d.slot
  pub state :
      ((p ≡ id) × (is_live c.state ≡ true) × (is_active c.state ≡ false))
      ⊎ ((p ≢ id)
          × (prev ≡ some p)
          × (is_live c.state ≡ false)
          × (is_active c.state ≡ is_active d.state))
      ⊎ ((p ≢ id) × (prev ≢ some p) × (c.state ≡ d.state))

abbrev pub is_prior : Option ℕ → ℕ → Bool
is_prior none p = false
is_prior (some v) p = p == v

row-supersede_previous :
    (now : ℕ) (prev : Option ℕ) (db : Db) (p : ℕ)
    → deployment_row (supersede_previous now prev db) p ≡ (
        if is_prior prev p
        then apply_to (supersede now) (deployment_row db p)
        else deployment_row db p)
row-supersede_previous now none db p = refl
row-supersede_previous now (some v) db p =
    row-update_row (λ (x : Deployment). x.id) (supersede now) (λ x. keeps_id x) v p db.deployments
  where
    keeps_id : (x : Deployment) → (supersede now x).id ≡ x.id
    keeps_id x = ground arith

abbrev pub turn : ℕ → ℕ → Option ℕ → ℕ → Deployment → Deployment
turn now id prev p d =
    let d1 = if is_prior prev p then supersede now d else d in
    if p == id then make_live now d1 else d1

pub row-promoted :
    (now id env : ℕ) (prev : Option ℕ) (db : Db) (p : ℕ)
    → deployment_row (promoted now id env (supersede_previous now prev db)) p
      ≡ apply_to (turn now id prev p) (deployment_row db p)
row-promoted now id env prev db p =
    row-update_row (λ (x : Deployment). x.id) (make_live now) (λ x. refl) id p
      (supersede_previous now prev db).deployments
    ∙ rw (row-supersede_previous now prev db p) (fold (deployment_row db p))
  where
    fold :
        (o : Option Deployment)
        → (if p == id
            then apply_to
                (make_live now)
                (if is_prior prev p then apply_to (supersede now) o else o)
            else (if is_prior prev p then apply_to (supersede now) o else o))
          ≡ apply_to (turn now id prev p) o
    fold none = ground arith
    fold (some d) = ground arith

is_prior-eq : (prev : Option ℕ) (p : ℕ) → is_prior prev p ≡ true → prev ≡ some p
is_prior-eq none p h = cc
is_prior-eq (some v) p h = ground arith

is_prior-ne : (prev : Option ℕ) (p : ℕ) → is_prior prev p ≡ false → prev ≢ some p
is_prior-ne none p h e = cc
is_prior-ne (some v) p h e = ground arith

superseded_state :
    (now : ℕ) (d : Deployment)
    → (is_live (supersede now d).state ≡ false)
      × (is_active (supersede now d).state ≡ is_active d.state)
superseded_state now d = ground arith

turn-Turned :
    (now id : ℕ) (prev : Option ℕ) (p : ℕ) (d : Deployment)
    → Turned id prev p d (turn now id prev p d)
turn-Turned now id prev p d = elim (Bool-cases (p == id)) [
  | inl hit ↦ rw hit (record {
    env = ground arith;
    revision = ground arith;
    slot = ground arith;
    state = inl (ground arith, refl, refl);
  })
  | inr miss ↦ elim (Bool-cases (is_prior prev p)) [
    | inl was ↦
        rw (miss, was)
          (record {
            env = ground arith;
            revision = ground arith;
            slot = ground arith;
            state = inr (
                inl (
                  ground arith,
                  is_prior-eq prev p was,
                  (superseded_state now d).0,
                  (superseded_state now d).1,
                ));
          })
    | inr other ↦
        rw (miss, other)
          (record {
            env = refl;
            revision = refl;
            slot = refl;
            state = inr (inr (ground arith, is_prior-ne prev p other, refl));
          })
  ]
]

module _ (now id env : ℕ) (prev : Option ℕ) (db : Db) where
  abbrev pub after : Db
  after = promoted now id env (supersede_previous now prev db)

  pub Turned-back :
      (p : ℕ) (c : Deployment)
      → deployment_row after p ≡ some c
      → (d : Deployment) × (deployment_row db p ≡ some d) × Turned id prev p d c
  Turned-back p c h = elim (Option-cases (deployment_row db p)) [
    | inl none_at ↦ absurd (ground (arith, row-promoted now id env prev db p))
    | inr (d, at) ↦
        let same : turn now id prev p d ≡ c =
          inj
            (sym (row-promoted now id env prev db p ∙ ap (apply_to (turn now id prev p)) at) ∙ h) in
        (d, at, subst (Turned id prev p d) same (turn-Turned now id prev p d))
  ]
    where
      inj : {a b : Deployment} → some a ≡ some b → a ≡ b
      inj e = cc

  pub Turned-forth :
      (p : ℕ) (d : Deployment)
      → deployment_row db p ≡ some d
      → (c : Deployment) × (deployment_row after p ≡ some c) × Turned id prev p d c
  Turned-forth p d at = (
    turn now id prev p d,
    row-promoted now id env prev db p ∙ ap (apply_to (turn now id prev p)) at,
    turn-Turned now id prev p d,
  )
