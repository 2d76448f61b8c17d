-- ===== src/Store/History/Create.antt =====
-- CreateDeployment: what it accepts and writes, and the invariant.
use navarch.Prelude.{
  ℕ, ◌≡◌, ◌≢◌, refl, sym, ◌∙◌, subst, ap, true, false, inl, inr, ◌⊎◌, Option, some, List, ◌∷◌, any,
  arith, row, Bool-cases, Option-cases, any_of_row, row-key, ◌==◌,
}
use navarch.Store.{
  Deployment, Environment, Db, ok, deployment_row, environment_row, is_active, is_live,
}
use navarch.Store.Deployments.{
  CreateDeploymentParams, collides, breaks_index, new_deployment, next_slot, live_row, drift_check,
  inserted, create_deployment,
}
use navarch.Store.History.{Inv}

-- The facts behind an accepted creation.
pub record Created (id now : ℕ) (p : CreateDeploymentParams) (db db' : Db) (d : Deployment)
    (e : Environment) : Type 0 where
  pub at_e : environment_row db p.environment_id ≡ some e
  pub undrifted : drift_check (live_row db e) p.resolved_spec ≡ ok tt
  pub is_new : d ≡ new_deployment id now p e (live_row db e) db.deployments
  pub unique : breaks_index d db.deployments ≡ false
  pub written : db' ≡ inserted d db

pub create-effect :
    (id now : ℕ) (p : CreateDeploymentParams) (db db' : Db) (d : Deployment)
    → create_deployment id now p db ≡ ok (d, db')
    → (e : Environment) × Created id now p db db' d e
unfolding create_deployment
create-effect id now p db db' d h = elim (Option-cases (environment_row db p.environment_id)) [
  | inl missing ↦ absurd (ground arith)
  | inr (e, at_e) ↦ (
    e,
    record {
      at_e = at_e;
      undrifted = ground arith;
      is_new = ground arith;
      unique = ground arith;
      written = ground arith;
    },
  )
]

-- A row that is already there differs from the new one wherever an index asks for it.
pub record Apart (n c : Deployment) (q : ℕ) : Type 0 where
  pub id : (n.id == q) ≡ false
  pub idle : c.environment_id ≡ n.environment_id → is_active c.state ≡ false
  pub revision : c.environment_id ≡ n.environment_id → c.revision ≢ n.revision

apart : (n c : Deployment) (q : ℕ) → c.id ≡ q → collides n c ≡ false → Apart n c q
unfolding collides
apart n c q k h = record {
  id = ground arith;
  idle = λ same. ground arith;
  revision = λ same rev. ground arith;
}

pub unbroken :
    (n c : Deployment) (q : ℕ) (rows : List Deployment)
    → breaks_index n rows ≡ false
    → row (λ (x : Deployment). x.id) q rows ≡ some c
    → Apart n c q
unfolding breaks_index
unbroken n c q rows b at =
    apart n c q (row-key (λ (x : Deployment). x.id) q rows c at) (elim (Bool-cases (collides n c)) [
      | inl bad ↦ absurd (
          let seen : any (collides n) rows ≡ true =
            any_of_row (λ (x : Deployment). x.id) (collides n) q rows c at bad in
          ground arith)
      | inr good ↦ good
    ])

head_or_tail :
    (d c : Deployment) (ds : List Deployment) (p : ℕ)
    → row (λ (x : Deployment). x.id) p (d ∷ ds) ≡ some c
    → (((d.id == p) ≡ true) × (d ≡ c)) ⊎ (row (λ (x : Deployment). x.id) p ds ≡ some c)
unfolding row
head_or_tail d c ds p h = ground arith

pub skip_head :
    (d : Deployment) (ds : List Deployment) (p : ℕ)
    → (d.id == p) ≡ false
    → row (λ (x : Deployment). x.id) p (d ∷ ds) ≡ row (λ (x : Deployment). x.id) p ds
unfolding row
skip_head d ds p h = rw h

-- What a row must satisfy to be added.
record IsAddable (db : Db) (n : Deployment) : Type 0 where
  apart_of : (q : ℕ) (c : Deployment) → deployment_row db q ≡ some c → Apart n c q
  not_live : is_live n.state ≡ false
  other_colour :
      (q : ℕ) (c : Deployment)
      → deployment_row db q ≡ some c
      → c.environment_id ≡ n.environment_id
      → is_live c.state ≡ true
      → c.slot ≢ n.slot

inserted-Inv : (db : Db) (n : Deployment) → IsAddable db n → Inv db → Inv (inserted n db)
inserted-Inv db n a h = record {
  pointed = λ i p e at live.
      let (d, at_d, l, env) = h.pointed i p e at live in
      (d, skip_head n db.deployments p (a.apart_of p d at_d).id ∙ at_d, l, env);
  pointing = λ p c at l. elim (head_or_tail n c db.deployments p at) [
    | inl (_, same) ↦ absurd (ground (arith, a.not_live))
    | inr old ↦ h.pointing p c old l
  ];
  one_active = λ p q d c at_d at_c env x y. elim (head_or_tail n d db.deployments p at_d) [
    | inl (hit, same) ↦ elim (head_or_tail n c db.deployments q at_c) [
      | inl (hit', same') ↦ ground arith
      | inr old ↦ absurd (ground (arith, (a.apart_of q c old).idle))
    ]
    | inr old ↦ elim (head_or_tail n c db.deployments q at_c) [
      | inl (hit', same') ↦ absurd (ground (arith, (a.apart_of p d old).idle))
      | inr old' ↦ h.one_active p q d c old old' env x y
    ]
  ];
  revisions = λ p q d c at_d at_c env x. elim (head_or_tail n d db.deployments p at_d) [
    | inl (hit, same) ↦ elim (head_or_tail n c db.deployments q at_c) [
      | inl (hit', same') ↦ ground arith
      | inr old ↦ absurd (ground (arith, (a.apart_of q c old).revision))
    ]
    | inr old ↦ elim (head_or_tail n c db.deployments q at_c) [
      | inl (hit', same') ↦ absurd (ground (arith, (a.apart_of p d old).revision))
      | inr old' ↦ h.revisions p q d c old old' env x
    ]
  ];
  colours = λ p q d c at_d at_c env x y. elim (head_or_tail n d db.deployments p at_d) [
    | inl (hit, same) ↦ absurd (ground (arith, a.not_live))
    | inr old ↦ elim (head_or_tail n c db.deployments q at_c) [
      | inl (hit', same') ↦
          subst (λ (k : Deployment). d.slot ≢ k.slot) same'
            (a.other_colour p d old (env ∙ ap (λ (k : Deployment). k.environment_id) (sym same')) x)
      | inr old' ↦ h.colours p q d c old old' env x y
    ]
  ];
}

live_row-eq :
    (db : Db) (e : Environment) (q : ℕ) (c : Deployment)
    → e.live_deployment_id ≡ some q
    → deployment_row db q ≡ some c
    → live_row db e ≡ some c
unfolding live_row
live_row-eq db e q c h at = ground arith

next_slot-ne : (o : Option Deployment) (c : Deployment) → o ≡ some c → c.slot ≢ next_slot o
unfolding next_slot
next_slot-ne o c h k = ground arith

created-IsAddable :
    (id now : ℕ) (p : CreateDeploymentParams) (db : Db) (e : Environment)
    → environment_row db p.environment_id ≡ some e
    → breaks_index (new_deployment id now p e (live_row db e) db.deployments) db.deployments ≡ false
    → Inv db
    → IsAddable db (new_deployment id now p e (live_row db e) db.deployments)
unfolding new_deployment
created-IsAddable id now p db e at_e u h = record {
  apart_of = λ q c at. unbroken _ c q db.deployments u at;
  not_live = refl;
  other_colour = λ q c at env l.
      let (e', at_e', live) = h.pointing q c at l in
      let same : e' ≡ e = ground arith in
      next_slot-ne (live_row db e) c (
        live_row-eq db e q c (subst (λ (x : Environment). x.live_deployment_id ≡ some q) same live)
          at);
}

-- A created deployment keeps the invariant of deployments and environments.
pub create-Inv :
    (id now : ℕ) (p : CreateDeploymentParams) (db db' : Db) (d : Deployment)
    → create_deployment id now p db ≡ ok (d, db')
    → Inv db
    → Inv db'
create-Inv id now p db db' d h v =
    let (e, c) = create-effect id now p db db' d h in
    let n = new_deployment id now p e (live_row db e) db.deployments in
    rw (c.written, c.is_new)
      (inserted-Inv db n
        (created-IsAddable id now p db e c.at_e
          (subst (λ k. breaks_index k db.deployments ≡ false) c.is_new c.unique) v)
        v)
