-- ===== src/Store/Secrets.antt =====
-- internal/store/secrets.go: setting, reading, deleting and pruning the versions of secrets.
pub mod Versions
use Prim.Native.Nat.{max}
use text.Mathlib.Text.{◌==◌ as str_eq}
use text.Mathlib.TextEquality.{eq_iff}
use navarch.Prelude.{
  ℕ, suc, ◌+◌, ◌≤◌, ◌≡◌, refl, sym, ap, ◌∙◌, subst, String, Bool, true, false, not, ◌&&◌, ◌||◌,
  Option, none, some, List, [], ◌∷◌, ◌++◌, any, select, map, length, ltb, ◌==◌, ==_iff,
  if◌then◌else◌, arith, Bool-cases, inl, inr, ◌⊎◌,
}
use navarch.Store.{
  Secret, Environment, Event, Db, not_found, Result, ok, err, ◌>>=◌, ◌>>◌, require, scan,
  environment_row, scan-eq-ok, require-eq-ok,
}

-- environment_id = $1 AND key = $2
abbrev pub of_key : ℕ → String → Secret → Bool
of_key env key s = s.environment_id == env && str_eq s.key key

-- COALESCE(MAX(version), 0)
unfoldable pub latest_version : ℕ → String → List Secret → ℕ
latest_version env key [] = 0
latest_version env key (s ∷ rows) =
    let rest = latest_version env key rows in if of_key env key s then max s.version rest else rest

unfoldable pub new_version : ℕ → ℕ → String → List ℕ → String → Db → Secret
unfolding latest_version
new_version now env key ciphertext key_id db = record {
  environment_id = env;
  key = key;
  ciphertext = ciphertext;
  key_id = key_id;
  version = latest_version env key db.secrets + 1;
  created_at = now;
}

abbrev pub stored : Secret → Db → Db
stored s db = record db {
  secrets = s ∷ db.secrets;
  events = Event.secret_set s.environment_id s.key ∷ db.events;
}

-- SetSecret. An unknown environment breaks the foreign key, which is not found.
unfoldable pub set_secret : ℕ → ℕ → String → List ℕ → String → Db → Result (Unit {0} × Db)
unfolding new_version
set_secret now env key ciphertext key_id db = do
  e ← scan (environment_row db env)
  ok (tt, stored (new_version now env key ciphertext key_id db) db)

-- DeleteSecret.
unfoldable pub delete_secret : ℕ → String → Db → Result (Unit {0} × Db)
delete_secret env key db = do
  require (any (of_key env key) db.secrets) not_found
  e ← scan (environment_row db env)
  ok (
    tt,
    record db {
      secrets = select (λ s. not (of_key env key s)) db.secrets;
      events = Event.secret_deleted env key ∷ db.events;
    },
  )

abbrev pub at_version : ℕ → String → ℕ → List Secret → List Secret
at_version env key v rows = select (λ s. of_key env key s && s.version == v) rows

-- version = (SELECT MAX(version) ...): what an agent of the environment reads for the key.
unfoldable pub current : ℕ → String → List Secret → List Secret
unfolding latest_version
current env key rows = at_version env key (latest_version env key rows) rows

-- $2 IS NULL OR a.org_id = $2, for the organization of the secret's environment.
abbrev pub in_scope : Option ℕ → Db → ℕ → Bool
in_scope none db env = true
in_scope (some org) db env = elim (environment_row db env) [
  | none ↦ false
  | some e ↦ e.org_id == org
]

-- A version that a later one has replaced, older than the retention.
unfoldable pub is_superseded : ℕ → ℕ → Option ℕ → Db → Secret → Bool
unfolding latest_version
is_superseded now keep org db s =
    in_scope org db s.environment_id
    && ltb s.version (latest_version s.environment_id s.key db.secrets)
    && ltb (s.created_at + keep) now

-- PruneSecretVersions and PruneSecretVersionsForOrg, with the number of deleted rows.
unfoldable pub prune_secret_versions : ℕ → ℕ → Option ℕ → Db → ℕ × Db
unfolding is_superseded
prune_secret_versions now keep org db = (
  length (select (is_superseded now keep org db) db.secrets),
  record db { secrets = select (λ s. not (is_superseded now keep org db s)) db.secrets },
)
