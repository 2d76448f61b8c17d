-- ===== src/Rollout/Controller/Safe.antt =====
-- A pass of the controller keeps the store's invariant, and tears nothing down before the router
-- has been repointed.
use navarch.Prelude.{
  ℕ, ◌+◌, ◌≡◌, refl, sym, ◌∙◌, ap, subst, String, Bool, true, false, Option, none, some, List, [],
  ◌∷◌, inl, inr, arith, count_if, ltb, ◌==◌, ◌&&◌, length, Bool-cases,
}
use navarch.Store.{
  starting, healthy, failed, superseded, scheduling, same_state, Deployment, InstanceState, Db,
  Result, ok, err, committed,
}
use navarch.Store.Deployments.{update_deployment_state, promote_deployment, supersede_previous}
use navarch.Store.Placement.{instance_states, delete_instances}
use navarch.Store.History.{Inv}
use navarch.Store.History.Advance.{update-effect}
use navarch.Store.History.Promote.{promote-effect}
use navarch.Store.History.Steps.{here, next, Reach-Inv, advances, promotes, frees}
use navarch.Rollout.Controller.{
  advance, advance_with, advance_healthy, failure_reason, is_broken, is_waiting, is_running,
  dropped,
}
use navarch.Rollout.Controller.Routes.{Route, synced_routes}
use navarch.Rollout.Controller.Loop.{
  FirstTerminal, first_seen, teardown, teardown_all, advance_all, is_synced, finish, reconcile_once,
  list_rollouts,
}

-- What an advance that returns no error can do.
pub data Advanced (now id : ℕ) (db db' : Db) : Type 0 where
  rests : db' ≡ db → Advanced now id db db'
  starts : update_deployment_state now id starting "" db ≡ ok (tt, db') → Advanced now id db db'
  passes : update_deployment_state now id healthy "" db ≡ ok (tt, db') → Advanced now id db db'
  breaks :
      (reason : String)
      → update_deployment_state now id failed reason db ≡ ok (tt, db')
      → Advanced now id db db'
  goes_live :
      (prev : Option ℕ) → promote_deployment now id db ≡ ok (prev, db') → Advanced now id db db'

module _ (collate : String → String → Bool) (now start_timeout : ℕ) where
  dropped-eq-ok :
      (r : Result (Option ℕ × Db)) (db' : Db)
      → dropped r ≡ ok (tt, db')
      → (prev : Option ℕ) × (r ≡ ok (prev, db'))
  dropped-eq-ok (ok (p, x)) db' h = (p, ground arith)
  dropped-eq-ok (err e) db' h = cc

  advance_healthy-Advanced :
      (d : Deployment) (states : List InstanceState) (db db' : Db)
      → advance_healthy collate now start_timeout d states db ≡ ok (tt, db')
      → Advanced now d.id db db'
  unfolding advance_healthy
  advance_healthy-Advanced d states db db' h =
      elim (Bool-cases (same_state d.state scheduling && count_if is_waiting states == 0)) [
        | inl a ↦ starts (ground arith)
        | inr a ↦
            elim (Bool-cases
              (same_state d.state starting && count_if is_running states == length states)) [
                | inl b ↦ passes (ground arith)
                | inr b ↦
                    elim (Bool-cases
                      (same_state d.state starting && ltb (d.updated_at + start_timeout) now)) [
                        | inl c ↦ breaks "timed out waiting for health" (ground arith)
                        | inr c ↦ elim (Bool-cases (same_state d.state healthy)) [
                          | inl k ↦
                              let (p, e) =
                                dropped-eq-ok (promote_deployment now d.id db) db' (ground arith) in
                              goes_live p e
                          | inr k ↦ rests (ground arith)
                        ]
                      ]
              ]
      ]

  advance_with-Advanced :
      (d : Deployment) (states : List InstanceState) (db db' : Db)
      → advance_with collate now start_timeout d states db ≡ ok (tt, db')
      → Advanced now d.id db db'
  unfolding advance_with
  advance_with-Advanced d [] db db' h = rests (ground arith)
  advance_with-Advanced d (s ∷ ss) db db' h =
      elim (Bool-cases (ltb 0 (count_if is_broken (s ∷ ss)))) [
        | inl a ↦ breaks (failure_reason collate d.id db.instances) (ground arith)
        | inr a ↦ advance_healthy-Advanced d (s ∷ ss) db db' (ground arith)
      ]

  advance-Advanced :
      (d : Deployment) (db db' : Db)
      → advance collate now start_timeout d db ≡ ok (tt, db')
      → Advanced now d.id db db'
  unfolding advance
  advance-Advanced d db db' h = advance_with-Advanced d (instance_states d.id db.instances) db db' h

Advanced-Inv : {now id : ℕ} {db db' : Db} → Advanced now id db db' → Inv db → Inv db'
Advanced-Inv (rests e) v = subst Inv (sym e) v
Advanced-Inv {now = now} {id = id} (starts h) v =
    Reach-Inv (next here (advances now id starting "" refl h)) v
Advanced-Inv {now = now} {id = id} (passes h) v =
    Reach-Inv (next here (advances now id healthy "" refl h)) v
Advanced-Inv {now = now} {id = id} (breaks reason h) v =
    Reach-Inv (next here (advances now id failed reason refl h)) v
Advanced-Inv {now = now} {id = id} (goes_live p h) v = Reach-Inv (next here (promotes now id p h)) v

supersede-instances :
    (now : ℕ) (prev : Option ℕ) (db : Db)
    → (supersede_previous now prev db).instances ≡ db.instances
supersede-instances now none db = refl
supersede-instances now (some v) db = refl

Advanced-instances :
    {now id : ℕ} {db db' : Db} → Advanced now id db db' → db'.instances ≡ db.instances
Advanced-instances (rests e) = ap (λ (x : Db). x.instances) e
Advanced-instances {now = now} {id = id} {db = db} {db' = db'} (starts h) =
    ap (λ (x : Db). x.instances) (update-effect now id starting "" db db' h).5
Advanced-instances {now = now} {id = id} {db = db} {db' = db'} (passes h) =
    ap (λ (x : Db). x.instances) (update-effect now id healthy "" db db' h).5
Advanced-instances {now = now} {id = id} {db = db} {db' = db'} (breaks reason h) =
    ap (λ (x : Db). x.instances) (update-effect now id failed reason db db' h).5
Advanced-instances {now = now} {id = id} {db = db} {db' = db'} (goes_live p h) =
    let (d, e, m) = promote-effect now id p db db' h in
    ap (λ (x : Db). x.instances) m.written ∙ supersede-instances now e.live_deployment_id db

teardown-Inv :
    (clock grace : ℕ) (m : FirstTerminal) (k : ℕ) (db : Db)
    → Inv db
    → Inv (teardown clock grace m k db).1
unfolding teardown
teardown-Inv clock grace m k db v = elim (Bool-cases (ltb clock (first_seen clock k m + grace))) [
  | inl early ↦ rw early v
  | inr late ↦ rw late (deleted (delete_instances k db) refl)
]
  where
    deleted :
        (r : Result (Unit {0} × Db))
        → delete_instances k db ≡ r
        → Inv
            (elim r as (λ _. FirstTerminal × Db) [
              | ok x ↦ ([], x.1)
              | err e ↦ (((k, first_seen clock k m) ∷ []), db)
            ]).1
    deleted (ok (tt, db')) e = Reach-Inv (next here (frees k e)) v
    deleted (err x) e = v

teardown_all-Inv :
    (clock grace : ℕ) (m : FirstTerminal) (ds : List Deployment) (db : Db)
    → Inv db
    → Inv (teardown_all clock grace m ds db).1
unfolding teardown_all
teardown_all-Inv clock grace m [] db v = v
teardown_all-Inv clock grace m (d ∷ ds) db v =
    teardown_all-Inv clock grace m ds _ (teardown-Inv clock grace m d.id db v)

module _ (collate : String → String → Bool) (now start_timeout clock grace strand : ℕ) where
  advance_all-kept :
      (ds : List Deployment) (db : Db)
      → (Inv db → Inv (advance_all collate now start_timeout clock grace strand ds db))
        × ((advance_all collate now start_timeout clock grace strand ds db).instances
            ≡ db.instances)
  unfolding advance_all
  advance_all-kept [] db = (λ v. v, refl)
  advance_all-kept (d ∷ ds) db =
      let one = after_one (advance collate now start_timeout d db) refl in
      let rest = advance_all-kept ds (committed db (advance collate now start_timeout d db)) in
      (λ v. rest.0 (one.0 v), rest.1 ∙ one.1)
    where
      after_one :
          (r : Result (Unit {0} × Db))
          → advance collate now start_timeout d db ≡ r
          → (Inv db → Inv (committed db r)) × ((committed db r).instances ≡ db.instances)
      after_one (ok (tt, x)) e =
          let a = advance-Advanced collate now start_timeout d db x e in
          (λ v. Advanced-Inv a v, Advanced-instances a)
      after_one (err x) e = (λ v. v, refl)

  finish-Inv :
      (org : Option ℕ) (b : Bool) (m : FirstTerminal) (db : Db)
      → Inv db
      → Inv (finish collate now start_timeout clock grace strand org b m db).1
  unfolding finish
  finish-Inv org false m db v = v
  finish-Inv org true m db v =
      teardown_all-Inv clock grace m (list_rollouts org (superseded ∷ failed ∷ []) db) db v

  -- A pass of the controller keeps the invariant, whatever each deployment's advance and each
  -- teardown does.
  pub reconcile-Inv :
      (org : Option ℕ) (sync : Option (List Route → Bool)) (m : FirstTerminal) (db : Db)
      → Inv db
      → Inv (reconcile_once collate now start_timeout clock grace strand org sync m db).1
  unfolding reconcile_once
  reconcile-Inv org sync m db v =
      finish-Inv org _ m _
        ((advance_all-kept (list_rollouts org (scheduling ∷ starting ∷ healthy ∷ []) db) db).0 v)

  -- When the router could not be synced, a pass deletes no instance and forgets no terminal
  -- deployment: the old revision keeps serving.
  pub unsynced_keeps :
      (org : Option ℕ) (sync : List Route → Bool) (m : FirstTerminal) (db : Db)
      → ((routes : List Route) → sync routes ≡ false)
      → ((reconcile_once collate now start_timeout clock grace strand org
            (some sync)
            m
            db).1.instances
          ≡ db.instances)
        × ((reconcile_once collate now start_timeout clock grace strand org (some sync) m db).0 ≡ m)
  unfolding reconcile_once is_synced finish
  unsynced_keeps org sync m db f =
      rw
        (f (
          synced_routes now strand (
            advance_all collate now start_timeout clock grace strand
              (list_rollouts org (scheduling ∷ starting ∷ healthy ∷ []) db) db)))
        (
          (advance_all-kept (list_rollouts org (scheduling ∷ starting ∷ healthy ∷ []) db) db).1,
          refl,
        )
