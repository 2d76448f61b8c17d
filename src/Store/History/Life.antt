-- ===== src/Store/History/Life.antt =====
-- Histories: any sequence of the control plane's transactions, the expiry of previews among them.
use navarch.Prelude.{
  ℕ, ◌≡◌, refl, sym, subst, ap, true, inl, inr, ◌⊎◌, Option, some, any, row, ◌==◌, Bool-cases,
}
use navarch.Store.{Deployment, Environment, Db, deployment_row, set_state, scheduling}
use navarch.Store.Previews.{victims, expire_environments}
use navarch.Store.History.{Inv}
use navarch.Store.History.Advance.{update-effect}
use navarch.Store.History.Place.{place-effect}
use navarch.Store.History.Create.{create-effect}
use navarch.Store.History.Promote.{promote-effect}
use navarch.Store.History.Environments.{releases-rows}
use navarch.Store.History.Succeeds.{IsKeyed}
use navarch.Store.History.Keyed.{Keyed, update_row-Keyed, promoted-Keyed, inserted-Keyed}
use navarch.Store.History.Expire.{reap_all-kept, reap_all-row}
use navarch.Store.History.Steps.{
  Step, creates, places, advances, promotes, frees, reports, releases, claims, tends, Step-Inv,
  same_rows-Inv, frees-rows, reports-rows, claims-deployments,
}
use navarch.Store.History.Forward.{Later, Onward-refl, Onward-trans, Step-forward}

-- A transaction: one that keeps every deployment, an expiry, or one of those that write neither
-- deployments nor environments, as those of secrets, tombstones and log requests.
pub data Change (db db' : Db) : Type 0 where
  runs : Step db db' → Change db db'
  expires : (now : ℕ) (org : Option ℕ) → db' ≡ (expire_environments now org db).1 → Change db db'
  elsewhere : db'.deployments ≡ db.deployments → db'.environments ≡ db.environments → Change db db'

pub data History (db : Db) : Db → Type 0 where
  begins : History db db
  goes_on : {a b : Db} → History db a → Change a b → History db b

same-Keyed : (db db' : Db) → db'.deployments ≡ db.deployments → IsKeyed db → IsKeyed db'
same-Keyed db db' e k = subst Keyed (sym e) k

Step-Keyed : {db db' : Db} → Step db db' → IsKeyed db → IsKeyed db'
Step-Keyed {db} {db'} (creates id now p d h) k =
    let (e, c) = create-effect id now p db db' d h in
    subst IsKeyed (sym c.written) (inserted-Keyed d db c.unique k)
Step-Keyed {db} {db'} (places now dep node insts cpu mem h) k =
    let (d, at, cases) = place-effect now dep node insts cpu mem db db' h in
    elim cases [
      | inl (_, same) ↦ subst IsKeyed (sym same) k
      | inr (e, n, a, w) ↦
          subst IsKeyed (sym w)
            (update_row-Keyed d.id (set_state scheduling "" now) (λ x. refl) db.deployments k)
    ]
Step-Keyed {db} {db'} (advances now id to reason t h) k =
    let (d, allowed, at, v, a, w) = update-effect now id to reason db db' h in
    subst IsKeyed (sym w)
      (update_row-Keyed id (set_state to reason now) (λ x. refl) db.deployments k)
Step-Keyed {db} {db'} (promotes now id prev h) k =
    let (d, e, m) = promote-effect now id prev db db' h in
    subst IsKeyed (sym m.written) (promoted-Keyed now id d.environment_id e.live_deployment_id db k)
Step-Keyed {db} {db'} (frees dep h) k = same-Keyed db db' (frees-rows dep db db' h).0 k
Step-Keyed {db} {db'} (reports now node id o h) k =
    same-Keyed db db' (reports-rows now node id o db db' h).0 k
Step-Keyed {db} {db'} (releases env h) k = same-Keyed db db' (releases-rows env db db' h).0 k
Step-Keyed {db} {db'} (claims now within org w) k =
    same-Keyed db db' (claims-deployments now within org db db' w) k
Step-Keyed {db} {db'} (tends ns w) k = same-Keyed db db' (ap (λ (x : Db). x.deployments) w) k

Change-Inv : {db db' : Db} → Change db db' → IsKeyed db → Inv db → IsKeyed db' × Inv db'
unfolding expire_environments
Change-Inv (runs s) k v = (Step-Keyed s k, Step-Inv s v)
Change-Inv {db} {db'} (expires now org w) k v =
    subst (λ x. IsKeyed x × Inv x) (sym w) (reap_all-kept now (victims now org db) db k v)
Change-Inv {db} {db'} (elsewhere e f) k v = (same-Keyed db db' e k, same_rows-Inv db db' e f v)

-- Every history of creations, placements, promotions, updates of a state to starting, healthy or
-- failed, deletions and reports of instances, releases of a home, claims of warnings, expiries, and
-- writes to other tables keeps the primary key of deployments and the invariant: a pointer names a
-- live deployment and the reverse, an environment has one active deployment, its revisions are
-- distinct, and an active deployment's colour is not the live one's.
pub History-Inv : {db db' : Db} → History db db' → IsKeyed db → Inv db → IsKeyed db' × Inv db'
History-Inv begins k v = (k, v)
History-Inv (goes_on r s) k v = let (k', v') = History-Inv r k v in Change-Inv s k' v'

-- An expiry took the environment, in one transaction or in a history.
abbrev pub Expires : {db db' : Db} → Change db db' → ℕ → Type 0
Expires {db} (expires now org w) env =
    any (λ (e : Environment). e.id == env) (victims now org db) ≡ true
Expires c env = ⊥

abbrev pub Expired : {db db' : Db} → History db db' → ℕ → Type 0
Expired begins env = ⊥
Expired (goes_on r s) env = Expired r env ⊎ Expires s env

Change-forward :
    {db db' : Db} (s : Change db db') (p : ℕ) (d : Deployment)
    → deployment_row db p ≡ some d
    → Later db' p d ⊎ Expires s d.environment_id
unfolding expire_environments
Change-forward (runs s) p d at = inl (Step-forward s p d at)
Change-forward {db} {db'} (expires now org w) p d at =
    elim (Bool-cases (any (λ (e : Environment). e.id == d.environment_id) (victims now org db))) [
      | inl gone ↦ inr gone
      | inr other ↦ inl (
        d,
        subst (λ x. deployment_row x p ≡ some d) (sym w)
            (reap_all-row now (victims now org db) db p d at other),
        Onward-refl d,
      )
    ]
Change-forward {db} {db'} (elsewhere e f) p d at =
    inl (d, subst (λ t. row (λ (x : Deployment). x.id) p t ≡ some d) (sym e) at, Onward-refl d)

-- Over any such history a deployment's row stays, with its environment, revision, colour and resolved
-- specification unchanged and its state never moved back, unless one of the history's expiries took
-- its environment.
pub History-forward :
    {db db' : Db} (r : History db db') (p : ℕ) (d : Deployment)
    → deployment_row db p ≡ some d
    → Later db' p d ⊎ Expired r d.environment_id
History-forward begins p d at = inl (d, at, Onward-refl d)
History-forward (goes_on r s) p d at = elim (History-forward r p d at) [
  | inr gone ↦ inr (inl gone)
  | inl (c, at_c, o) ↦ elim (Change-forward s p c at_c) [
    | inl (e, at_e, o') ↦ inl (e, at_e, Onward-trans o o')
    | inr gone ↦ inr (inr (subst (Expires s) o.env gone))
  ]
]
