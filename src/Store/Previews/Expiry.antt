-- ===== src/Store/Previews/Expiry.antt =====
-- What an expiry destroys, and what it keeps.
use navarch.Prelude.{
  ℕ, ◌≡◌, refl, ◌∙◌, Bool, true, false, not, Option, List, [], ◌∷◌, any, select, ◌==◌, arith, All,
  row,
}
use navarch.Store.{Deployment, Environment, Secret, Tombstone, Db, short_id, environment_row}
use navarch.Store.Previews.{
  has_tombstone, entomb, delete_environment, reap, reap_all, victims, expire_environments,
}

-- Nothing of the environment is left, and there is the instruction to destroy it on its node.
pub record IsReaped (e : Environment) (db : Db) : Type 0 where
  pub tombstone : has_tombstone (short_id e.id) db.tombstones ≡ true
  pub no_environment : any (λ (x : Environment). x.id == e.id) db.environments ≡ false
  pub no_deployment : any (λ (d : Deployment). d.environment_id == e.id) db.deployments ≡ false
  pub no_secret : any (λ (s : Secret). s.environment_id == e.id) db.secrets ≡ false

module _ {ℓ} {A : Type ℓ} (p q : A → Bool) where
  any-select : (l : List A) → any p l ≡ false → any p (select q l) ≡ false
  any-select [] h = refl
  any-select (x ∷ l) h = ground (arith, any-select l)

  select-none : (l : List A) → ((x : A) → q x ≡ not (p x)) → any p (select q l) ≡ false
  select-none [] h = refl
  select-none (x ∷ l) h = ground (arith, h x, select-none l h)

entomb-has :
    (now env8 org : ℕ) (rows : List Tombstone)
    → has_tombstone env8 (entomb now env8 org rows) ≡ true
unfolding entomb
entomb-has now env8 org rows = ground arith

entomb-keeps :
    (now env8 org k : ℕ) (rows : List Tombstone)
    → has_tombstone k rows ≡ true
    → has_tombstone k (entomb now env8 org rows) ≡ true
unfolding entomb
entomb-keeps now env8 org k rows h = ground arith

reap-IsReaped : (now : ℕ) (e : Environment) (db : Db) → IsReaped e (reap now e db)
unfolding reap delete_environment
reap-IsReaped now e db = record {
  tombstone = entomb-has now (short_id e.id) e.org_id db.tombstones;
  no_environment =
      select-none (λ x. x.id == e.id) (λ x. not (x.id == e.id)) db.environments (λ x. refl);
  no_deployment =
      select-none (λ d. d.environment_id == e.id) (λ d. not (d.environment_id == e.id))
        db.deployments (λ x. refl);
  no_secret =
      select-none (λ s. s.environment_id == e.id) (λ s. not (s.environment_id == e.id)) db.secrets
        (λ x. refl);
}

-- What is reaped stays so while others are.
reap-keeps : (now : ℕ) (e f : Environment) (db : Db) → IsReaped e db → IsReaped e (reap now f db)
unfolding reap delete_environment
reap-keeps now e f db r = record {
  tombstone = entomb-keeps now (short_id f.id) f.org_id (short_id e.id) db.tombstones r.tombstone;
  no_environment = any-select _ _ db.environments r.no_environment;
  no_deployment = any-select _ _ db.deployments r.no_deployment;
  no_secret = any-select _ _ db.secrets r.no_secret;
}

reap_all-keeps :
    (now : ℕ) (e : Environment) (es : List Environment) (db : Db)
    → IsReaped e db
    → IsReaped e (reap_all now es db)
unfolding reap_all
reap_all-keeps now e [] db r = r
reap_all-keeps now e (f ∷ es) db r =
    reap_all-keeps now e es (reap now f db) (reap-keeps now e f db r)

reap_all-IsReaped :
    (now : ℕ) (es : List Environment) (db : Db) → All (λ e. IsReaped e (reap_all now es db)) es
unfolding reap_all
reap_all-IsReaped now [] db = tt
reap_all-IsReaped now (e ∷ es) db = (
  reap_all-keeps now e es (reap now e db) (reap-IsReaped now e db),
  reap_all-IsReaped now es (reap now e db),
)

-- An expiry leaves nothing of an expired preview in scope: its row, its deployments and its secrets
-- are gone, and its tombstone is there.
pub expire-IsReaped :
    (now : ℕ) (org : Option ℕ) (db : Db)
    → All (λ e. IsReaped e (expire_environments now org db).1) (victims now org db)
unfolding expire_environments
expire-IsReaped now org db = reap_all-IsReaped now (victims now org db) db

-- The rows of one environment.
pub record IsKept (env : ℕ) (db later : Db) : Type 0 where
  pub same_environment : environment_row later env ≡ environment_row db env
  pub same_deployments :
      select (λ (d : Deployment). d.environment_id == env) later.deployments
      ≡ select (λ (d : Deployment). d.environment_id == env) db.deployments
  pub same_secrets :
      select (λ (s : Secret). s.environment_id == env) later.secrets
      ≡ select (λ (s : Secret). s.environment_id == env) db.secrets
  pub same_nodes : later.nodes ≡ db.nodes

row-select :
    (env gone : ℕ) (l : List Environment)
    → (gone == env) ≡ false
    → row (λ (e : Environment). e.id) env (select (λ e. not (e.id == gone)) l)
      ≡ row (λ (e : Environment). e.id) env l
unfolding row
row-select env gone [] h = refl
row-select env gone (e ∷ l) h = ground (arith, row-select env gone l h)

select-others {ℓ} :
    {A : Type ℓ} (key : A → ℕ) (env gone : ℕ) (l : List A)
    → (gone == env) ≡ false
    → select (λ x. key x == env) (select (λ x. not (key x == gone)) l)
      ≡ select (λ x. key x == env) l
select-others key env gone [] h = refl
select-others key env gone (x ∷ l) h = ground (arith, select-others key env gone l h)

reap_all-IsKept :
    (now env : ℕ) (es : List Environment) (db : Db)
    → any (λ (e : Environment). e.id == env) es ≡ false
    → IsKept env db (reap_all now es db)
unfolding reap_all reap delete_environment
reap_all-IsKept now env [] db h = record {
  same_environment = refl;
  same_deployments = refl;
  same_secrets = refl;
  same_nodes = refl;
}
reap_all-IsKept now env (e ∷ es) db h =
    let rest = reap_all-IsKept now env es (reap now e db) (ground (arith, h)) in
    let other : (e.id == env) ≡ false = ground (arith, h) in
    record {
      same_environment = rest.same_environment ∙ row-select env e.id db.environments other;
      same_deployments =
          rest.same_deployments
          ∙ select-others (λ (d : Deployment). d.environment_id) env e.id db.deployments other;
      same_secrets =
          rest.same_secrets
          ∙ select-others (λ (s : Secret). s.environment_id) env e.id db.secrets other;
      same_nodes = rest.same_nodes;
    }

-- An expiry keeps the row, the deployments and the secrets of every environment that is not an
-- expired preview in scope, and changes no node: capacity that a preview reserved stays reserved.
pub expire-IsKept :
    (now env : ℕ) (org : Option ℕ) (db : Db)
    → any (λ (e : Environment). e.id == env) (victims now org db) ≡ false
    → IsKept env db (expire_environments now org db).1
unfolding expire_environments
expire-IsKept now env org db h = reap_all-IsKept now env (victims now org db) db h
