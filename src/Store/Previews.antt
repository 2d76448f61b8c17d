-- ===== src/Store/Previews.antt =====
-- internal/store/previews.go: expiry with its cascade, tombstones, and the warnings before it. The
-- cascade is the ON DELETE CASCADE of migrations/0001_init.up.sql.
pub mod Expiry
pub mod Warnings
use navarch.Prelude.{
  ℕ, ◌+◌, ◌<◌, Bool, true, false, not, ◌&&◌, ◌||◌, Option, none, some, List, [], ◌∷◌, any, select,
  map, ltb, ◌==◌, if◌then◌else◌,
}
use navarch.Store.{
  Deployment, Environment, Node, ServiceInstance, Secret, Tombstone, LogRequest, Event, Db,
  short_id, node_row,
}

-- $1::uuid IS NULL OR a.org_id = $1
abbrev pub scoped : Option ℕ → ℕ → Bool
scoped none org = true
scoped (some o) org = org == o

-- expires_at < now(), which NULL is not.
abbrev pub expired : ℕ → Option ℕ → Bool
expired now none = false
expired now (some t) = ltb t now

abbrev pub is_victim : ℕ → Option ℕ → Environment → Bool
is_victim now org e = e.ephemeral && expired now e.expires_at && scoped org e.org_id

abbrev pub has_tombstone : ℕ → List Tombstone → Bool
has_tombstone env8 rows = any (λ (t : Tombstone). t.env8 == env8) rows

-- INSERT ... ON CONFLICT (env8) DO NOTHING
unfoldable pub entomb : ℕ → ℕ → ℕ → List Tombstone → List Tombstone
entomb now env8 org rows =
    if has_tombstone env8 rows
    then rows
    else record { env8 = env8; org_id = org; created_at = now } ∷ rows

-- The deployment whose row an event refers to.
abbrev event_deployment : Event → Option ℕ
event_deployment (Event.deployment_created id) = some id
event_deployment (Event.deployment_state_changed id) = some id
event_deployment (Event.deployment_superseded id) = some id
event_deployment (Event.deployment_promoted id) = some id
event_deployment e = none

abbrev pub deployed_in : ℕ → List Deployment → ℕ → Bool
deployed_in env rows id = any (λ (d : Deployment). d.id == id && d.environment_id == env) rows

abbrev outlives : ℕ → List Deployment → Option ℕ → Bool
outlives env rows none = true
outlives env rows (some id) = not (deployed_in env rows id)

-- The request reads an instance of a deployment that goes.
abbrev reads_gone : ℕ → List Deployment → List ServiceInstance → LogRequest → Bool
reads_gone env ds rows r =
    any (λ (i : ServiceInstance). i.id == r.instance_id && deployed_in env ds i.deployment_id) rows

-- DELETE FROM environments WHERE id = $1, with what refers to the row.
unfoldable pub delete_environment : ℕ → Db → Db
delete_environment env db = record db {
  environments = select (λ (e : Environment). not (e.id == env)) db.environments;
  deployments = select (λ (d : Deployment). not (d.environment_id == env)) db.deployments;
  instances =
      select (λ (i : ServiceInstance). not (deployed_in env db.deployments i.deployment_id))
        db.instances;
  secrets = select (λ (s : Secret). not (s.environment_id == env)) db.secrets;
  log_requests =
      select (λ r. not (r.environment_id == env || reads_gone env db.deployments db.instances r))
        db.log_requests;
  events = select (λ e. outlives env db.deployments (event_deployment e)) db.events;
}

-- The event, the tombstone and the deletion of one preview. The pointer to the live deployment is
-- cleared before the row goes, so nothing is left of it.
unfoldable pub reap : ℕ → Environment → Db → Db
unfolding entomb delete_environment
reap now e db = delete_environment e.id (record db {
  events = Event.preview_expired e.id ∷ db.events;
  tombstones = entomb now (short_id e.id) e.org_id db.tombstones;
})

unfoldable pub reap_all : ℕ → List Environment → Db → Db
unfolding reap
reap_all now [] db = db
reap_all now (e ∷ es) db = reap_all now es (reap now e db)

abbrev pub victims : ℕ → Option ℕ → Db → List Environment
victims now org db = select (is_victim now org) db.environments

-- ExpireEnvironments and ExpireEnvironmentsForOrg: the env8s, and the database.
unfoldable pub expire_environments : ℕ → Option ℕ → Db → List ℕ × Db
unfolding reap_all
expire_environments now org db = (
  map (λ (e : Environment). short_id e.id) (victims now org db),
  reap_all now (victims now org db) db,
)

-- TombstonesForNode, without the order.
abbrev tombstones_in : Option Node → ℕ → ℕ → List Tombstone → List ℕ
tombstones_in none now max_age rows = []
tombstones_in (some n) now max_age rows =
    map (λ (t : Tombstone). t.env8)
      (select (λ (t : Tombstone). t.org_id == n.org_id && ltb now (t.created_at + max_age)) rows)

unfoldable pub tombstones_for_node : ℕ → ℕ → ℕ → Db → List ℕ
tombstones_for_node now node max_age db = tombstones_in (node_row db node) now max_age db.tombstones

-- SweepTombstones and SweepTombstonesForOrg.
unfoldable pub sweep_tombstones : ℕ → ℕ → Option ℕ → Db → Db
sweep_tombstones now max_age org db = record db {
  tombstones =
      select (λ (t : Tombstone). not (ltb (t.created_at + max_age) now && scoped org t.org_id))
        db.tombstones;
}

-- expires_at > now() AND expires_at < now() + the window
abbrev pub closes_within : ℕ → ℕ → Option ℕ → Bool
closes_within now within none = false
closes_within now within (some t) = ltb now t && ltb t (now + within)

abbrev pub is_unwarned : Option ℕ → Bool
is_unwarned none = true
is_unwarned (some t) = false

unfoldable pub is_due : ℕ → ℕ → Option ℕ → Environment → Bool
is_due now within org e =
    e.ephemeral
    && is_unwarned e.expiry_warned_at
    && closes_within now within e.expires_at
    && scoped org e.org_id

abbrev pub warn : ℕ → Environment → Environment
warn now e = record e { expiry_warned_at = some now }

unfoldable pub mark_due : ℕ → ℕ → Option ℕ → List Environment → List Environment
unfolding is_due
mark_due now within org [] = []
mark_due now within org (e ∷ es) =
    (if is_due now within org e then warn now e else e) ∷ mark_due now within org es

-- ClaimPreviewsForExpiryWarning and its scoped form: the environments that are claimed.
unfoldable pub claim_previews : ℕ → ℕ → Option ℕ → Db → List ℕ × Db
unfolding is_due mark_due
claim_previews now within org db = (
  map (λ (e : Environment). e.id) (select (is_due now within org) db.environments),
  record db { environments = mark_due now within org db.environments },
)
