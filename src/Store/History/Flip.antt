-- ===== src/Store/History/Flip.antt =====
-- A promotion keeps the invariant: exactly the promoted deployment becomes the live one.
use navarch.Prelude.{
  ℕ, ◌≡◌, ◌≢◌, refl, sym, ◌∙◌, subst, ap, true, false, inl, inr, ◌⊎◌, Option, none, some, arith,
  row, Bool-cases, row-update_row, ◌==◌, ==_iff, ==_self, if◌then◌else◌, apply_to,
}
use navarch.Store.{
  DeploymentState, healthy, Deployment, Environment, Db, ok, deployment_row, environment_row,
  is_active, is_live, same_state,
}
use navarch.Store.Deployments.{supersede_previous, point_at, promote_deployment}
use navarch.Store.History.{Inv}
use navarch.Store.History.Promote.{promote-effect, Turned, after, Turned-back, Turned-forth}

some_inj {ℓ} : {A : Type ℓ} {a b : A} → some a ≡ some b → a ≡ b
some_inj e = cc

previous_environments :
    (now : ℕ) (prev : Option ℕ) (db : Db)
    → (supersede_previous now prev db).environments ≡ db.environments
previous_environments now none db = refl
previous_environments now (some v) db = refl

healthy_active : (s : DeploymentState) → same_state s healthy ≡ true → is_active s ≡ true
healthy_active s h = ground arith

Turned-active :
    (id : ℕ) (prev : Option ℕ) (p : ℕ) (d c : Deployment)
    → Turned id prev p d c
    → is_active c.state ≡ true
    → (is_active d.state ≡ true) × (p ≢ id)
Turned-active id prev p d c t h = elim t.state [
  | inl (hit, l, a) ↦ absurd (ground arith)
  | inr (inl (miss, was, l, a)) ↦ (sym a ∙ h, miss)
  | inr (inr (miss, other, s)) ↦ (ap is_active (sym s) ∙ h, miss)
]

Turned-live :
    (id : ℕ) (prev : Option ℕ) (p : ℕ) (d c : Deployment)
    → Turned id prev p d c
    → is_live c.state ≡ true
    → (p ≡ id) ⊎ ((p ≢ id) × (prev ≢ some p) × (is_live d.state ≡ true))
Turned-live id prev p d c t h = elim t.state [
  | inl (hit, l, a) ↦ inl hit
  | inr (inl (miss, was, l, a)) ↦ absurd (ground arith)
  | inr (inr (miss, other, s)) ↦ inr (miss, other, ap is_live (sym s) ∙ h)
]

-- A live row that is neither promoted nor superseded stays live.
Turned-stays :
    (id : ℕ) (prev : Option ℕ) (p : ℕ) (d c : Deployment)
    → Turned id prev p d c
    → prev ≢ some p
    → is_live d.state ≡ true
    → is_live c.state ≡ true
Turned-stays id prev p d c t other h = elim t.state [
  | inl (hit, l, a) ↦ l
  | inr (inl (miss, was, l, a)) ↦ absurd (other was)
  | inr (inr (miss, _, s)) ↦ ap is_live s ∙ h
]

module _ (now id : ℕ) (db : Db) (d : Deployment) (e : Environment)
    (at_d : deployment_row db id ≡ some d) (is_healthy : same_state d.state healthy ≡ true)
    (at_e : environment_row db d.environment_id ≡ some e) (v : Inv db) where
  Turned-self : (a c : Deployment) → Turned id e.live_deployment_id id a c → is_live c.state ≡ true
  Turned-self a c t = elim t.state [
    | inl (hit, l, _) ↦ l
    | inr (inl (miss, _, _, _)) ↦ absurd (miss refl)
    | inr (inr (miss, _, _)) ↦ absurd (miss refl)
  ]

  abbrev prev : Option ℕ
  prev = e.live_deployment_id

  abbrev db' : Db
  db' = after now id d.environment_id prev db

  env-row :
      (i : ℕ)
      → environment_row db' i ≡ (
          if i == d.environment_id
          then apply_to (point_at id) (environment_row db i)
          else environment_row db i)
  env-row i =
      row-update_row (λ (x : Environment). x.id) (point_at id) (λ x. refl) d.environment_id i
        (supersede_previous now prev db).environments
      ∙ ap
          (λ t.
            if i == d.environment_id
            then apply_to (point_at id) (row (λ (x : Environment). x.id) i t)
            else row (λ (x : Environment). x.id) i t)
          (previous_environments now prev db)

  here : environment_row db' d.environment_id ≡ some (point_at id e)
  here = env-row d.environment_id ∙ rw (==_self d.environment_id, at_e) refl

  elsewhere :
      (i : ℕ) → (i == d.environment_id) ≡ false → environment_row db' i ≡ environment_row db i
  elsewhere i miss = env-row i ∙ rw miss refl

  flip_pointed :
      (i p : ℕ) (o : Environment)
      → environment_row db' i ≡ some o
      → o.live_deployment_id ≡ some p
      → (c : Deployment) × (deployment_row db' p ≡ some c)
        × (is_live c.state ≡ true)
        × (c.environment_id ≡ i)
  flip_pointed i p o at live = elim (Bool-cases (i == d.environment_id)) [
    | inl hit ↦
        let env : i ≡ d.environment_id = (==_iff i d.environment_id).0 hit in
        let same : o ≡ point_at id e =
          some_inj
            (sym at ∙ subst (λ k. environment_row db' k ≡ some (point_at id e)) (sym env) here) in
        let to : id ≡ p =
          some_inj (subst (λ (x : Environment). x.live_deployment_id ≡ some p) same live) in
        let (c, at_c, t) = Turned-forth now id d.environment_id prev db id d at_d in
        (c, subst (λ k. deployment_row db' k ≡ some c) to at_c, Turned-self d c t, t.env ∙ sym env)
    | inr miss ↦
        let (a, at_a, l, env) = v.pointed i p o (sym (elsewhere i miss) ∙ at) live in
        let other : prev ≢ some p = λ was. not_here i miss (
          sym env
          ∙ (let (b, at_b, _, env_b) = v.pointed d.environment_id p e at_e was in
              ap (λ (x : Deployment). x.environment_id) (some_inj (sym at_a ∙ at_b)) ∙ env_b)) in
        let (c, at_c, t) = Turned-forth now id d.environment_id prev db p a at_a in
        (c, at_c, Turned-stays id prev p a c t other l, t.env ∙ env)
  ]
    where
      not_here : (k : ℕ) → (k == d.environment_id) ≡ false → k ≡ d.environment_id → ⊥
      not_here k miss hit = ground arith

  flip_pointing :
      (p : ℕ) (c : Deployment)
      → deployment_row db' p ≡ some c
      → is_live c.state ≡ true
      → (o : Environment) × (environment_row db' c.environment_id ≡ some o)
        × (o.live_deployment_id ≡ some p)
  flip_pointing p c at l =
      let (a, at_a, t) = Turned-back now id d.environment_id prev db p c at in
      elim (Turned-live id prev p a c t l) [
        | inl hit ↦
            let same : a ≡ d =
              some_inj (sym at_a ∙ subst (λ k. deployment_row db k ≡ some d) (sym hit) at_d) in
            let env : c.environment_id ≡ d.environment_id =
              t.env ∙ ap (λ (x : Deployment). x.environment_id) same in
            (point_at id e, rw env here, ap some (sym hit))
        | inr (miss, other, was) ↦
            let (o, at_o, live) = v.pointing p a at_a was in
            elim (Bool-cases (a.environment_id == d.environment_id)) [
              | inl hit ↦
                  let env : a.environment_id ≡ d.environment_id =
                    (==_iff a.environment_id d.environment_id).0 hit in
                  let same : o ≡ e =
                    some_inj
                      (sym at_o ∙ subst (λ k. environment_row db k ≡ some e) (sym env) at_e) in
                  absurd
                    (other (subst (λ (x : Environment). x.live_deployment_id ≡ some p) same live))
              | inr away ↦ (o, rw t.env (elsewhere a.environment_id away ∙ at_o), live)
            ]
      ]

  -- A promoted database keeps the invariant.
  pub flip-Inv : Inv db'
  flip-Inv = record {
    pointed = flip_pointed;
    pointing = flip_pointing;
    one_active = λ p q a c at_a at_c env x y.
        let (a0, at_a0, t) = Turned-back now id d.environment_id prev db p a at_a in
        let (c0, at_c0, u) = Turned-back now id d.environment_id prev db q c at_c in
        v.one_active p q a0 c0 at_a0 at_c0 (sym t.env ∙ env ∙ u.env)
          (Turned-active id prev p a0 a t x).0 (Turned-active id prev q c0 c u y).0;
    revisions = λ p q a c at_a at_c env x.
        let (a0, at_a0, t) = Turned-back now id d.environment_id prev db p a at_a in
        let (c0, at_c0, u) = Turned-back now id d.environment_id prev db q c at_c in
        v.revisions p q a0 c0 at_a0 at_c0 (sym t.env ∙ env ∙ u.env)
          (sym t.revision ∙ x ∙ u.revision);
    colours = λ p q a c at_a at_c env x y.
        let (a0, at_a0, t) = Turned-back now id d.environment_id prev db p a at_a in
        let (c0, at_c0, u) = Turned-back now id d.environment_id prev db q c at_c in
        let (act, miss) = Turned-active id prev q c0 c u y in
        let env0 : a0.environment_id ≡ c0.environment_id = sym t.env ∙ env ∙ u.env in
        elim (Turned-live id prev p a0 a t x) [
          | inl hit ↦
              let same : a0 ≡ d =
                some_inj (sym at_a0 ∙ subst (λ k. deployment_row db k ≡ some d) (sym hit) at_d) in
              absurd (
                miss (
                  sym (
                    v.one_active id q d c0 at_d at_c0
                      (ap (λ (k : Deployment). k.environment_id) (sym same) ∙ env0)
                      (healthy_active d.state is_healthy) act)))
          | inr (_, _, was) ↦
              λ same. v.colours p q a0 c0 at_a0 at_c0 env0 was act (sym t.slot ∙ same ∙ u.slot)
        ];
  }

-- A promotion keeps the invariant.
pub promote-Inv :
    (now id : ℕ) (prev : Option ℕ) (db db' : Db)
    → promote_deployment now id db ≡ ok (prev, db')
    → Inv db
    → Inv db'
promote-Inv now id prev db db' h v =
    let (d, e, p) = promote-effect now id prev db db' h in
    rw p.written (flip-Inv now id db d e p.at_d p.is_healthy p.at_e v)
