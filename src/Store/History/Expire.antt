-- ===== src/Store/History/Expire.antt =====
-- What an expiry leaves of deployments and environments: the rows of the environments that stay.
use navarch.Prelude.{
  ℕ, ◌≡◌, refl, sym, ◌∙◌, subst, true, false, not, some, List, [], ◌∷◌, arith, any, row, select,
  ◌==◌, Bool,
}
use navarch.Store.{Event, short_id, Deployment, Environment, Db, deployment_row}
use navarch.Store.Previews.{entomb, delete_environment, reap, reap_all}
use navarch.Store.History.{Inv}
use navarch.Store.History.Keyed.{select-Keyed, row-select, row-select_back}
use navarch.Store.History.Succeeds.{IsKeyed}

-- The deployments outside an environment.
abbrev stays : ℕ → Deployment → Bool
stays gone d = not (d.environment_id == gone)

row-select_other :
    (gone i : ℕ) (es : List Environment) (e : Environment)
    → row (λ (x : Environment). x.id) i (select (λ (x : Environment). not (x.id == gone)) es)
      ≡ some e
    → (row (λ (x : Environment). x.id) i es ≡ some e) × ((i == gone) ≡ false)
unfolding row
row-select_other gone i [] e at = absurd cc
row-select_other gone i (x ∷ es) e at = ground (arith, row-select_other gone i es e)

row-select_kept :
    (gone i : ℕ) (es : List Environment)
    → (i == gone) ≡ false
    → row (λ (x : Environment). x.id) i (select (λ (x : Environment). not (x.id == gone)) es)
      ≡ row (λ (x : Environment). x.id) i es
unfolding row
row-select_kept gone i [] h = refl
row-select_kept gone i (x ∷ es) h = ground (arith, row-select_kept gone i es h)

module _ (gone : ℕ) (db : Db) (k : IsKeyed db) where
  row_of :
      (p : ℕ) (d : Deployment)
      → deployment_row (delete_environment gone db) p ≡ some d
      → (deployment_row db p ≡ some d) × (stays gone d ≡ true)
  unfolding delete_environment
  row_of p d at = row-select_back (stays gone) p db.deployments d k at

  delete_environment-Inv : Inv db → Inv (delete_environment gone db)
  unfolding delete_environment
  delete_environment-Inv h = record {
    pointed = λ i p e at live.
        let (at_e, other) = row-select_other gone i db.environments e at in
        let (d, at_d, l, env) = h.pointed i p e at_e live in
        (
          d,
          row-select (stays gone) p db.deployments d at_d
              (subst (λ j. not (j == gone) ≡ true) (sym env) (rw other refl)),
          l,
          env,
        );
    pointing = λ p d at l.
        let (at_d, other) = row_of p d at in
        let (e, at_e, live) = h.pointing p d at_d l in
        (e, row-select_kept gone d.environment_id db.environments (ground arith) ∙ at_e, live);
    one_active = λ p q d c at_d at_c. h.one_active p q d c (row_of p d at_d).0 (row_of q c at_c).0;
    revisions = λ p q d c at_d at_c. h.revisions p q d c (row_of p d at_d).0 (row_of q c at_c).0;
    colours = λ p q d c at_d at_c. h.colours p q d c (row_of p d at_d).0 (row_of q c at_c).0;
  }

abbrev buried : ℕ → Environment → Db → Db
buried now e db = record db {
  events = Event.preview_expired e.id ∷ db.events;
  tombstones = entomb now (short_id e.id) e.org_id db.tombstones;
}

reap-kept :
    (now : ℕ) (e : Environment) (db : Db)
    → IsKeyed db
    → Inv db
    → IsKeyed (reap now e db) × Inv (reap now e db)
unfolding reap delete_environment
reap-kept now e db k h = (
  select-Keyed (stays e.id) db.deployments k,
  delete_environment-Inv e.id (buried now e db) k (record {
    pointed = h.pointed;
    pointing = h.pointing;
    one_active = h.one_active;
    revisions = h.revisions;
    colours = h.colours;
  }),
)

-- Reaping any environments keeps the primary key and the invariant.
pub reap_all-kept :
    (now : ℕ) (es : List Environment) (db : Db)
    → IsKeyed db
    → Inv db
    → IsKeyed (reap_all now es db) × Inv (reap_all now es db)
unfolding reap_all
reap_all-kept now [] db k h = (k, h)
reap_all-kept now (e ∷ es) db k h =
    let (k', h') = reap-kept now e db k h in reap_all-kept now es (reap now e db) k' h'

-- Reaping other environments leaves a deployment's row.
pub reap_all-row :
    (now : ℕ) (es : List Environment) (db : Db) (p : ℕ) (d : Deployment)
    → deployment_row db p ≡ some d
    → any (λ (e : Environment). e.id == d.environment_id) es ≡ false
    → deployment_row (reap_all now es db) p ≡ some d
unfolding reap_all reap delete_environment
reap_all-row now [] db p d at h = at
reap_all-row now (e ∷ es) db p d at h =
    reap_all-row now es (reap now e db) p d
      (row-select (stays e.id) p db.deployments d at (ground arith)) (ground arith)
