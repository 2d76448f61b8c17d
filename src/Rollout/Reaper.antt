-- ===== src/Rollout/Reaper.antt =====
-- internal/rollout/reaper.go: one pass over the store and the log buffer. Whether a notifier and a
-- buffer are attached are arguments; sending the warnings is not modelled.
use navarch.Prelude.{
  ℕ, ◌≡◌, refl, sym, ap, ◌∙◌, Bool, true, false, Option, none, some, List, [], ◌∷◌, any, ◌==◌,
  String,
}
use navarch.Store.{Db, Environment}
use navarch.Store.Previews.{victims, expire_environments, claim_previews, sweep_tombstones}
use navarch.Store.Previews.Expiry.{expire-IsKept}
use navarch.Store.Secrets.{prune_secret_versions, current}
use navarch.Store.Secrets.Versions.{prune-current, current-of_env}
use navarch.Store.Logs.{sweep_log_requests}
use navarch.Logbuf.{Entry, Buffer, find_entry, drop_request, expire}

-- 24 hours, an hour, ten minutes and thirty days.
abbrev pub tombstone_retention : ℕ
tombstone_retention = 86400000

abbrev pub expiry_warning : ℕ
expiry_warning = 3600000

abbrev pub log_buffer_idle_ttl : ℕ
log_buffer_idle_ttl = 600000

abbrev pub secret_version_retention : ℕ
secret_version_retention = 2592000000

-- for _, id := range swept { r.logs.Drop(id) }
unfoldable pub drop_all : List ℕ → Buffer → Buffer
unfolding drop_request
drop_all [] b = b
drop_all (id ∷ ids) b = drop_all ids (drop_request id b)

-- if r.logs != nil
unfoldable pub free_logs : ℕ → List ℕ → Option Buffer → Option Buffer
unfolding drop_all expire
free_logs now ids none = none
free_logs now ids (some b) = some (expire now log_buffer_idle_ttl (drop_all ids b)).1

-- warnExpiring's claim, if a notifier is attached.
abbrev pub warn_expiring : Bool → ℕ → Option ℕ → Db → Db
warn_expiring false now org db = db
warn_expiring true now org db = (claim_previews now expiry_warning org db).1

-- The database when the requests are swept.
unfoldable pub before_sweep : ℕ → Option ℕ → Bool → Db → Db
unfolding expire_environments claim_previews
before_sweep now org notify db = warn_expiring notify now org (expire_environments now org db).1

-- ReapOnce.
unfoldable pub reap_once : ℕ → Option ℕ → Bool → Db × Option Buffer → Db × Option Buffer
unfolding before_sweep sweep_log_requests free_logs prune_secret_versions sweep_tombstones
reap_once now org notify (db, logs) =
    let (swept, later) = sweep_log_requests now (before_sweep now org notify db) in
    (
      sweep_tombstones now tombstone_retention org
          (prune_secret_versions now secret_version_retention org later).1,
      free_logs now swept logs,
    )

-- The entry of a request in the buffer, if there is a buffer.
abbrev pub entry_in : ℕ → Option Buffer → Option Entry
entry_in id none = none
entry_in id (some b) = find_entry id b.entries

warn_expiring-secrets :
    (notify : Bool) (now : ℕ) (org : Option ℕ) (db : Db)
    → (warn_expiring notify now org db).secrets ≡ db.secrets
unfolding claim_previews
warn_expiring-secrets false now org db = refl
warn_expiring-secrets true now org db = refl

-- A pass of the reaper leaves the current version of every secret of an environment that is no
-- expired preview in scope.
pub reap_keeps_secrets :
    (now env : ℕ) (org : Option ℕ) (notify : Bool) (db : Db) (logs : Option Buffer) (key : String)
    → any (λ (e : Environment). e.id == env) (victims now org db) ≡ false
    → current env key (reap_once now org notify (db, logs)).0.secrets ≡ current env key db.secrets
unfolding reap_once before_sweep sweep_log_requests sweep_tombstones
reap_keeps_secrets now env org notify db logs key h =
    let swept = (sweep_log_requests now (before_sweep now org notify db)).1 in
    prune-current now secret_version_retention org swept env key
    ∙ ap (current env key) (warn_expiring-secrets notify now org (expire_environments now org db).1)
    ∙ sym (current-of_env env key (expire_environments now org db).1.secrets)
    ∙ ap (current env key) (expire-IsKept now env org db h).same_secrets
    ∙ current-of_env env key db.secrets
