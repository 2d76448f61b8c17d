-- ===== src/Store/Secrets/Versions.antt =====
-- The version of a secret that is read, across setting and pruning.
use text.Mathlib.TextEquality.{eq_iff}
use navarch.Prelude.{
  ℕ, suc, ◌+◌, ◌≤◌, ◌≡◌, refl, sym, ap, ◌∙◌, subst, String, Bool, true, not, ◌&&◌, Option, List, [],
  ◌∷◌, select, map, ◌==◌, ==_iff, arith, Bool-cases, inl, inr,
}
use navarch.Store.{Secret, Db, Result, ok, err, environment_row, scan-eq-ok}
use navarch.Store.Secrets.{
  of_key, latest_version, new_version, stored, set_secret, at_version, current, is_superseded,
  prune_secret_versions,
}

latest-new :
    (env : ℕ) (key : String) (s : Secret) (rows : List Secret)
    → of_key env key s ≡ true
    → s.version ≡ latest_version env key rows + 1
    → latest_version env key (s ∷ rows) ≡ latest_version env key rows + 1
unfolding latest_version
latest-new env key s rows h v = ground (arith, h, v)

-- No row has a version above the latest.
none_above :
    (env : ℕ) (key : String) (rows : List Secret) (v : ℕ)
    → suc (latest_version env key rows) ≤ v
    → at_version env key v rows ≡ []
unfolding latest_version
none_above env key [] v h = refl
none_above env key (s ∷ rows) v h = ground (arith, none_above env key rows v)

current-new :
    (env : ℕ) (key : String) (s : Secret) (rows : List Secret)
    → of_key env key s ≡ true
    → s.version ≡ latest_version env key rows + 1
    → current env key (s ∷ rows) ≡ s ∷ []
unfolding current
current-new env key s rows h v =
    let others = none_above env key rows (latest_version env key rows + 1) (omega arith) in
    subst (λ n. at_version env key n (s ∷ rows) ≡ s ∷ []) (sym (latest-new env key s rows h v))
      (ground (arith, h, v, others))

of_key_self :
    (now env : ℕ) (key : String) (ciphertext : List ℕ) (key_id : String) (db : Db)
    → of_key env key (new_version now env key ciphertext key_id db) ≡ true
unfolding new_version
of_key_self now env key ciphertext key_id db = let self = (eq_iff key key).1 refl in ground arith

-- When SetSecret succeeds, the current version of the key, which the agents read, is one row, and its
-- ciphertext is the one that was set.
pub set_secret-current :
    (now env : ℕ) (key : String) (ciphertext : List ℕ) (key_id : String) (db db' : Db)
    → set_secret now env key ciphertext key_id db ≡ ok (tt, db')
    → map (λ (s : Secret). s.ciphertext) (current env key db'.secrets) ≡ ciphertext ∷ []
unfolding set_secret
set_secret-current now env key ciphertext key_id db db' h =
    let s = new_version now env key ciphertext key_id db in
    let (e, _, done) = scan-eq-ok (environment_row db env) (λ e. ok (tt, stored s db)) h in
    ap (λ (x : Result (Unit {0} × Db)). ciphertexts x) (sym done)
    ∙ ap (map (λ (s : Secret). s.ciphertext))
        (current-new env key s db.secrets (of_key_self now env key ciphertext key_id db) refl)
  where
    ciphertexts : Result (Unit {0} × Db) → List (List ℕ)
    ciphertexts (ok (u, d)) = map (λ (s : Secret). s.ciphertext) (current env key d.secrets)
    ciphertexts (err c) = []

-- Dropping rows lowers the latest version, or keeps it.
latest-select :
    (env : ℕ) (key : String) (p : Secret → Bool) (rows : List Secret)
    → latest_version env key (select p rows) ≤ latest_version env key rows
unfolding latest_version
latest-select env key p [] = omega arith
latest-select env key p (s ∷ rows) = ground (arith, latest-select env key p rows)

-- Rows at the latest version that are kept hold it up.
latest-kept :
    (env : ℕ) (key : String) (p : Secret → Bool) (m : ℕ) (rows : List Secret)
    → ((s : Secret) → of_key env key s ≡ true → s.version ≡ m → p s ≡ true)
    → latest_version env key rows ≡ m
    → m ≤ latest_version env key (select p rows)
unfolding latest_version
latest-kept env key p m [] keep e = omega (arith, e)
latest-kept env key p m (s ∷ rows) keep e = elim (Bool-cases (of_key env key s)) [
  | inl mine ↦ elim (Bool-cases (s.version == m)) [
    | inl at ↦ let kept = keep s mine ((==_iff s.version m).0 at) in ground (arith, mine)
    | inr below ↦
        let rest = latest-kept env key p m rows keep (ground (arith, mine)) in ground (arith, mine)
  ]
  | inr other ↦
      let rest = latest-kept env key p m rows keep (ground (arith, other)) in ground (arith, other)
]

select-select :
    (p q : Secret → Bool) (rows : List Secret)
    → ((s : Secret) → q s ≡ true → p s ≡ true)
    → select q (select p rows) ≡ select q rows
select-select p q [] h = refl
select-select p q (s ∷ rows) h = ground (arith, h s, select-select p q rows h)

-- A current version is not superseded.
current-stays :
    (now keep : ℕ) (org : Option ℕ) (db : Db) (env : ℕ) (key : String) (s : Secret)
    → of_key env key s ≡ true
    → s.version ≡ latest_version env key db.secrets
    → not (is_superseded now keep org db s) ≡ true
unfolding is_superseded
current-stays now keep org db env key s mine at =
    let same_env = (==_iff s.environment_id env).0 (ground (arith, mine)) in
    let same_key = (eq_iff s.key key).0 (ground (arith, mine)) in
    let newest =
      at
      ∙ sym (ap (λ e. latest_version e key db.secrets) same_env)
      ∙ sym (ap (λ k. latest_version s.environment_id k db.secrets) same_key) in
    ground (arith, newest)

-- Pruning leaves the current version of every key of every environment as it is, whatever the
-- retention, the clock and the organization.
pub prune-current :
    (now keep : ℕ) (org : Option ℕ) (db : Db) (env : ℕ) (key : String)
    → current env key (prune_secret_versions now keep org db).1.secrets ≡ current env key db.secrets
unfolding prune_secret_versions current
prune-current now keep org db env key =
    let p = λ (s : Secret). not (is_superseded now keep org db s) in
    let stays = current-stays now keep org db env key in
    let same =
      order (latest-select env key p db.secrets)
        (latest-kept env key p (latest_version env key db.secrets) db.secrets stays refl) in
    subst (λ n. at_version env key n (select p db.secrets) ≡ current env key db.secrets) (sym same)
      (select-select p (λ s. of_key env key s && s.version == latest_version env key db.secrets)
        db.secrets (λ s h. stays s (ground (arith, h)) (ground (arith, h))))
  where
    order : {m n : ℕ} → m ≤ n → n ≤ m → m ≡ n
    order a b = omega (arith, a, b)

latest-of_env :
    (env : ℕ) (key : String) (rows : List Secret)
    → latest_version env key (select (λ s. s.environment_id == env) rows)
      ≡ latest_version env key rows
unfolding latest_version
latest-of_env env key [] = refl
latest-of_env env key (s ∷ rows) = ground (arith, latest-of_env env key rows)

-- What is current depends on the environment's rows only.
pub current-of_env :
    (env : ℕ) (key : String) (rows : List Secret)
    → current env key (select (λ s. s.environment_id == env) rows) ≡ current env key rows
unfolding current
current-of_env env key rows =
    subst
      (λ n.
        at_version env key n (select (λ s. s.environment_id == env) rows) ≡ current env key rows)
      (sym (latest-of_env env key rows))
      (select-select (λ s. s.environment_id == env)
        (λ s. of_key env key s && s.version == latest_version env key rows) rows
        (λ s h. ground (arith, h)))
