-- ===== src/Store/History/Swap.antt =====
-- What PromoteDeployment turns over, and that it can always do so for a healthy deployment.
use navarch.Prelude.{
  ℕ, ◌≡◌, ◌≢◌, refl, sym, ◌∙◌, subst, ap, Bool, true, false, Option, none, some, List, arith, row,
  update_row, ==_self, ◌==◌, if◌then◌else◌, apply_to, row-update_row,
}
use navarch.Store.{
  healthy, superseded, Deployment, Environment, Db, ok, deployment_row, environment_row, is_live,
  same_state,
}
use navarch.Store.Deployments.{
  make_live, supersede_previous, point_at, promoted, promote_deployment,
}
use navarch.Store.History.{Inv}
use navarch.Store.History.Promote.{promote-effect, turn, row-promoted}

-- How the rows of a database follow from a promotion of id over prev.
pub record Swap (now id env : ℕ) (prev : Option ℕ) (db db' : Db) : Type 0 where
  pub promotes :
      (d : Deployment)
      → deployment_row db id ≡ some d
      → deployment_row db' id ≡ some (make_live now d)
  pub supersedes :
      (v : ℕ) (c : Deployment)
      → prev ≡ some v
      → deployment_row db v ≡ some c
      → deployment_row db' v
        ≡ some (record c { state = superseded; superseded_at = some now; updated_at = now })
  pub leaves : (p : ℕ) → p ≢ id → prev ≢ some p → deployment_row db' p ≡ deployment_row db p
  pub repoints :
      (e : Environment) → environment_row db' env ≡ some e → e.live_deployment_id ≡ some id
  pub others : (i : ℕ) → i ≢ env → environment_row db' i ≡ environment_row db i

some_inj : {A : Type 0} {a b : A} → some a ≡ some b → a ≡ b
some_inj e = cc

clash : {b : Bool} → b ≡ true → b ≡ false → ⊥
clash p q = cc

turn_self :
    (now id : ℕ) (prev : Option ℕ) (d : Deployment)
    → same_state d.state healthy ≡ true
    → turn now id prev id d ≡ make_live now d
turn_self now id prev d h = ground (arith, ==_self id)

turn-prior :
    (now id v : ℕ) (c : Deployment)
    → v ≢ id
    → is_live c.state ≡ true
    → turn now id (some v) v c
      ≡ record c { state = superseded; superseded_at = some now; updated_at = now }
turn-prior now id v c n l = ground (arith, ==_self v)

turn-other :
    (now id : ℕ) (prev : Option ℕ) (p : ℕ) (o : Option Deployment)
    → p ≢ id
    → prev ≢ some p
    → apply_to (turn now id prev p) o ≡ o
turn-other now id none p none n m = refl
turn-other now id none p (some d) n m = ground arith
turn-other now id (some v) p none n m = refl
turn-other now id (some v) p (some d) n m = ground (arith, m)

healthy_not_live : (d : Deployment) → same_state d.state healthy ≡ true → is_live d.state ≡ false
healthy_not_live d h = ground arith

repointed :
    (id env i : ℕ) (rows : List Environment)
    → row
        (λ (x : Environment). x.id)
        i
        (update_row (λ (x : Environment). x.id) env (point_at id) rows)
      ≡ (if i == env
          then apply_to (point_at id) (row (λ (x : Environment). x.id) i rows)
          else row (λ (x : Environment). x.id) i rows)
repointed id env i rows =
    row-update_row (λ (x : Environment). x.id) (point_at id) (λ x. refl) env i rows

same_environments :
    (now : ℕ) (prev : Option ℕ) (db : Db)
    → (supersede_previous now prev db).environments ≡ db.environments
same_environments now none db = refl
same_environments now (some v) db = refl

prior_live :
    (db : Db)
    → Inv db
    → (i q : ℕ) (e : Environment) (c : Deployment) → environment_row db i ≡ some e
    → e.live_deployment_id ≡ some q
    → deployment_row db q ≡ some c
    → is_live c.state ≡ true
prior_live db v i q e c at_e l at_c =
    let (x, at_x, was, _) = v.pointed i q e at_e l in
    subst (λ (y : Deployment). is_live y.state ≡ true) (some_inj (sym at_x ∙ at_c)) was

apart :
    (db : Db) (id q : ℕ) (d c : Deployment)
    → deployment_row db id ≡ some d
    → deployment_row db q ≡ some c
    → same_state d.state healthy ≡ true
    → is_live c.state ≡ true
    → q ≢ id
apart db id q d c at at_c h l e = absurd (
    clash
      (subst (λ (x : Deployment). is_live x.state ≡ true)
        (some_inj (sym at_c ∙ ap (deployment_row db) e ∙ at)) l)
      (healthy_not_live d h))

repoints_at :
    (id env i : ℕ) (was : Option Environment) (o : Environment)
    → i ≡ env
    → (if i == env then apply_to (point_at id) was else was) ≡ some o
    → o.live_deployment_id ≡ some id
repoints_at id env i none o h k = absurd (ground arith)
repoints_at id env i (some e) o h k = ground arith

elsewhere :
    (id env i : ℕ) (was : Option Environment)
    → i ≢ env
    → (if i == env then apply_to (point_at id) was else was) ≡ was
elsewhere id env i was n = ground arith

-- Under the invariant, a promotion that succeeds makes the named deployment live, supersedes the one
-- that its environment pointed at, points the environment at the new one, and leaves the rows of
-- every other deployment and environment.
pub promote_swaps :
    (now id : ℕ) (prev : Option ℕ) (db db' : Db) (d : Deployment)
    → Inv db
    → deployment_row db id ≡ some d
    → promote_deployment now id db ≡ ok (prev, db')
    → Swap now id d.environment_id prev db db'
promote_swaps now id prev db db' d v at h =
    let (k, e, m) = promote-effect now id prev db db' h in
    let same : k ≡ d = some_inj (sym m.at_d ∙ at) in
    let is_healthy : same_state d.state healthy ≡ true =
      subst (λ (x : Deployment). same_state x.state healthy ≡ true) same m.is_healthy in
    let w : db' ≡ promoted now id d.environment_id (supersede_previous now prev db) =
      m.written
      ∙ ap
          (λ (x : Deployment).
            promoted now id x.environment_id (supersede_previous now e.live_deployment_id db))
          same
      ∙ ap (λ q. promoted now id d.environment_id (supersede_previous now q db)) (sym m.prior) in
    let rows : (p : ℕ)
        → deployment_row db' p ≡ apply_to (turn now id prev p) (deployment_row db p) =
      λ p. ap (λ x. deployment_row x p) w ∙ row-promoted now id d.environment_id prev db p in
    let envs : (i : ℕ)
        → environment_row db' i ≡ (
            if i == d.environment_id
            then apply_to (point_at id) (environment_row db i)
            else environment_row db i) =
      λ i.
        ap (λ x. environment_row x i) w
        ∙ repointed id d.environment_id i (supersede_previous now prev db).environments
        ∙ ap
            (λ t.
              if i == d.environment_id
              then apply_to (point_at id) (row (λ (x : Environment). x.id) i t)
              else row (λ (x : Environment). x.id) i t)
            (same_environments now prev db) in
    let at_e : environment_row db d.environment_id ≡ some e =
      subst (λ (x : Deployment). environment_row db x.environment_id ≡ some e) same m.at_e in
    record {
      promotes = λ c at_c.
          rows id
          ∙ ap (apply_to (turn now id prev id)) at_c
          ∙ ap some (
              turn_self now id prev c (
                subst (λ (x : Deployment). same_state x.state healthy ≡ true)
                  (some_inj (sym at ∙ at_c)) is_healthy));
      supersedes = λ q c prior at_c.
          let was = prior_live db v d.environment_id q e c at_e (sym m.prior ∙ prior) at_c in
          rows q
          ∙ ap (apply_to (turn now id prev q)) at_c
          ∙ ap (λ o. some (turn now id o q c)) prior
          ∙ ap some (turn-prior now id q c (apart db id q d c at at_c is_healthy was) was);
      leaves = λ p n other. rows p ∙ turn-other now id prev p (deployment_row db p) n other;
      repoints = λ o at_o.
          repoints_at id d.environment_id _ (environment_row db d.environment_id) o refl
            (sym (envs d.environment_id) ∙ at_o);
      others = λ i n. envs i ∙ elsewhere id d.environment_id i (environment_row db i) n;
    }
