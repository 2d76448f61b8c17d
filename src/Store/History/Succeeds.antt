-- ===== src/Store/History/Succeeds.antt =====
-- When PromoteDeployment succeeds.
use navarch.Prelude.{
  ℕ, ◌≡◌, refl, sym, ◌∙◌, subst, Bool, true, false, Option, none, some, List, [], ◌∷◌, any, All,
  All-mono, arith, update_row, not, ◌&&◌, ◌==◌, if◌then◌else◌, ==_iff,
}
use navarch.Store.{
  healthy, Deployment, Environment, Db, ok, deployment_row, environment_row, is_live, same_state,
}
use navarch.Store.Deployments.{
  supersede, supersede_previous, promoted, other_live, promote_deployment,
}
use navarch.Store.History.{Inv}

-- The primary key: a row of the table is the one that its id finds.
abbrev pub IsKeyed : Db → Type 0
IsKeyed db = All (λ (d : Deployment). deployment_row db d.id ≡ some d) db.deployments

any-false : {A : Type 0} (f : A → Bool) (xs : List A) → All (λ x. f x ≡ false) xs → any f xs ≡ false
any-false f [] h = refl
any-false f (x ∷ xs) h = ground (arith, any-false f xs)

any-update_row :
    {A : Type 0} (key : A → ℕ) (i : ℕ) (g : A → A) (f : A → Bool) (xs : List A)
    → All (λ x. f (if key x == i then g x else x) ≡ false) xs
    → any f (update_row key i g xs) ≡ false
unfolding update_row
any-update_row key i g f [] h = refl
any-update_row key i g f (x ∷ xs) h = ground (arith, any-update_row key i g f xs)

some_inj : {A : Type 0} {a b : A} → some a ≡ some b → a ≡ b
some_inj e = cc

module _ (now id : ℕ) (db : Db) (env : ℕ) (e : Environment) where
  abbrev disturbs : Deployment → Bool
  disturbs x = x.environment_id == env && is_live x.state && not (x.id == id)

  -- A live row of the environment is the one that it points at.
  is_pointed :
      Inv db
      → environment_row db env ≡ some e
      → (x : Deployment) → deployment_row db x.id ≡ some x
      → (x.environment_id == env) ≡ true
      → is_live x.state ≡ true
      → e.live_deployment_id ≡ some x.id
  is_pointed v at_e x at_x in_env l =
      let (o, at_o, p) = v.pointing x.id x at_x l in
      let same : o ≡ e = some_inj (
        sym at_o
        ∙ subst (λ i. environment_row db i ≡ some e) (sym ((==_iff x.environment_id env).0 in_env))
            at_e) in
      subst (λ (y : Environment). y.live_deployment_id ≡ some x.id) same p

  undisturbed :
      (prev : Option ℕ)
      → ((x : Deployment)
          → deployment_row db x.id ≡ some x
          → (x.environment_id == env) ≡ true
          → is_live x.state ≡ true
          → prev ≡ some x.id)
      → IsKeyed db
      → other_live id env (supersede_previous now prev db).deployments ≡ false
  undisturbed none f k =
      any-false disturbs db.deployments
        (All-mono _ _ (λ x at. ground (arith, f x at)) db.deployments k)
  undisturbed (some q) f k =
      any-update_row (λ (x : Deployment). x.id) q (supersede now) disturbs db.deployments
        (All-mono _ _ (λ x at. ground (arith, f x at)) db.deployments k)

-- Under the invariant and the primary key, the promotion of a healthy deployment whose environment
-- exists succeeds: it returns the previous pointer and commits its writes.
pub promote_succeeds :
    (now id : ℕ) (db : Db) (d : Deployment) (e : Environment)
    → Inv db
    → IsKeyed db
    → deployment_row db id ≡ some d
    → same_state d.state healthy ≡ true
    → environment_row db d.environment_id ≡ some e
    → promote_deployment now id db
      ≡ ok (
        e.live_deployment_id,
        promoted now id d.environment_id (supersede_previous now e.live_deployment_id db),
      )
unfolding promote_deployment
promote_succeeds now id db d e v k at h at_e =
    rw
      (
        at,
        h,
        at_e,
        undisturbed now id db d.environment_id e e.live_deployment_id
            (is_pointed now id db d.environment_id e v at_e) k,
      )
      refl
