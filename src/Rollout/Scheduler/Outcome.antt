-- ===== src/Rollout/Scheduler/Outcome.antt =====
-- What one placement of the scheduler can do, and that a whole pass keeps the store's invariant.
use navarch.Prelude.{
  ℕ, ℤ, String, ◌≡◌, refl, sym, ◌∙◌, ap, subst, Bool, Option, none, some, List, [], ◌∷◌, ◌⊎◌, inl,
  inr, arith, map, Bool-cases, Option-cases, ltb_ℤ, ◌||◌, ◌==◌,
}
use mathlib.Core.List.{Memᴰ}
use navarch.Spec.{peak_memory_bytes, peak_cpu_millis}
use navarch.Store.{
  failed, Node, free_memory_bytes, free_cpu_millis, Db, Error, conflict, not_found, invalid,
  unknown_state, Result, ok, err, committed,
}
use navarch.Store.Deployments.{update_deployment_state}
use navarch.Store.Placement.{place_deployment}
use navarch.Store.Nodes.{list_ready_nodes, homed_per_node, mark_stale, aged}
use navarch.Store.History.{Inv}
use navarch.Store.History.Steps.{here, next, Reach-Inv, places, advances, tends}
use navarch.Rollout.Floats.{Floats}
use navarch.Rollout.Scheduler.{best_node}
use navarch.Rollout.Scheduler.Best.{IsBest, best_node_optimal}
use navarch.Rollout.Scheduler.Place.{
  PendingDeployment, node_by_id, new_instances, settle, commit, place_home, place_chosen, place_on,
  place, place_all, schedule_once, list_pending_deployments,
}

node_by_id-mem :
    (ns : List Node) (h : ℕ) (n : Node) → node_by_id ns h ≡ some n → Memᴰ n ns × (h ≡ n.id)
unfolding node_by_id
node_by_id-mem [] h n e = cc
node_by_id-mem (m ∷ ns) h n e = elim (Bool-cases (m.id == h)) [
  | inl hit ↦ (Memᴰ.head (ground arith), ground arith)
  | inr miss ↦ let (k, i) = node_by_id-mem ns h n (ground arith) in (Memᴰ.tail k, i)
]

best_mem :
    (fl : Floats) (homed : ℕ → ℕ) (cpu mem : ℤ) (ns : List Node) (n : Node)
    → best_node fl ns homed cpu mem ≡ some n
    → Memᴰ n ns
unfolding IsBest
best_mem fl homed cpu mem ns n e =
    let b : IsBest fl homed cpu mem ns (some n) =
      subst (IsBest fl homed cpu mem ns) e (best_node_optimal fl homed cpu mem ns) in
    b.0

module _ (fl : Floats) (collate : String → String → Bool) (row_id : ℕ → String → ℕ)
    (no_home_room no_fleet_room : ℤ → ℤ → String) (error_text : Error → String) (now : ℕ) where
  -- The placement waits, fails the deployment, or runs it on one of the nodes.
  pub data Outcome (dep : PendingDeployment) (ns : List Node) (db db' : Db) : Type 0 where
    waits : db' ≡ db → Outcome dep ns db db'
    fails :
        (reason : String)
        → update_deployment_state now dep.deployment.id failed reason db ≡ ok (tt, db')
        → Outcome dep ns db db'
    runs :
        (n : Node)
        → Memᴰ n ns
        → (dep.home_node_id ≡ none) ⊎ (dep.home_node_id ≡ some n.id)
        → place_deployment now dep.deployment.id n.id
            (new_instances row_id dep.deployment.id dep.deployment.resolved_spec.services)
            (peak_cpu_millis dep.deployment.resolved_spec)
            (peak_memory_bytes dep.deployment.resolved_spec)
            db
          ≡ ok (tt, db')
        → Outcome dep ns db db'

  settle-eq-ok :
      (dep : ℕ) (db db' : Db) (r : Result (Unit {0} × Db))
      → settle fl collate row_id no_home_room no_fleet_room error_text now dep db r ≡ ok (tt, db')
      → (r ≡ ok (tt, db'))
        ⊎ (update_deployment_state now dep failed (error_text conflict) db ≡ ok (tt, db'))
  unfolding settle
  settle-eq-ok dep db db' (ok (u, x)) h = inl h
  settle-eq-ok dep db db' (err conflict) h = inr h
  settle-eq-ok dep db db' (err not_found) h = cc
  settle-eq-ok dep db db' (err invalid) h = cc
  settle-eq-ok dep db db' (err unknown_state) h = cc

  commit-Outcome :
      (dep : PendingDeployment) (ns : List Node) (n : Node) (db db' : Db)
      → Memᴰ n ns
      → (dep.home_node_id ≡ none) ⊎ (dep.home_node_id ≡ some n.id)
      → commit fl collate row_id no_home_room no_fleet_room error_text now dep n.id db
        ≡ ok (tt, db')
      → Outcome dep ns db db'
  unfolding commit
  commit-Outcome dep ns n db db' m home h = elim (settle-eq-ok dep.deployment.id db db' _ h) [
    | inl k ↦ runs n m home k
    | inr k ↦ fails (error_text conflict) k
  ]

  home-Outcome :
      (dep : PendingDeployment) (ns : List Node) (h : ℕ) (o : Option Node) (db db' : Db)
      → node_by_id ns h ≡ o
      → dep.home_node_id ≡ some h
      → place_home fl collate row_id no_home_room no_fleet_room error_text now dep
          (peak_cpu_millis dep.deployment.resolved_spec)
          (peak_memory_bytes dep.deployment.resolved_spec)
          o
          db
        ≡ ok (tt, db')
      → Outcome dep ns db db'
  unfolding place_home
  home-Outcome dep ns h none db db' e home k = waits (ground arith)
  home-Outcome dep ns h (some n) db db' e home k =
      let (m, same) = node_by_id-mem ns h n e in
      elim (Bool-cases (
        ltb_ℤ (free_memory_bytes n) (peak_memory_bytes dep.deployment.resolved_spec)
        || ltb_ℤ (free_cpu_millis n) (peak_cpu_millis dep.deployment.resolved_spec))) [
          | inl full ↦
              fails
                (no_home_room (peak_memory_bytes dep.deployment.resolved_spec)
                  (peak_cpu_millis dep.deployment.resolved_spec))
                (ground arith)
          | inr room ↦ commit-Outcome dep ns n db db' m (inr (home ∙ ap some same)) (ground arith)
        ]

  chosen-Outcome :
      (dep : PendingDeployment) (ns : List Node) (o : Option Node) (db db' : Db)
      → best_node fl ns
          (homed_per_node dep.org_id db)
          (peak_cpu_millis dep.deployment.resolved_spec)
          (peak_memory_bytes dep.deployment.resolved_spec)
        ≡ o
      → dep.home_node_id ≡ none
      → place_chosen fl collate row_id no_home_room no_fleet_room error_text now dep
          (peak_cpu_millis dep.deployment.resolved_spec)
          (peak_memory_bytes dep.deployment.resolved_spec)
          o
          db
        ≡ ok (tt, db')
      → Outcome dep ns db db'
  unfolding place_chosen
  chosen-Outcome dep ns none db db' e home k = fails _ k
  chosen-Outcome dep ns (some n) db db' e home k =
      commit-Outcome dep ns n db db' (best_mem fl _ _ _ ns n e) (inl home) k

  place_on-Outcome :
      (dep : PendingDeployment) (ns : List Node) (db db' : Db)
      → place_on fl collate row_id no_home_room no_fleet_room error_text now dep ns db
        ≡ ok (tt, db')
      → Outcome dep ns db db'
  unfolding place_on
  place_on-Outcome dep [] db db' h = waits (ground arith)
  place_on-Outcome dep (n ∷ ns) db db' h = elim (Option-cases dep.home_node_id) [
    | inl e ↦ chosen-Outcome dep (n ∷ ns) _ db db' refl e (ground arith)
    | inr (k, e) ↦ home-Outcome dep (n ∷ ns) k _ db db' refl e (ground arith)
  ]

  -- A placement that returns no error leaves the database alone, or fails the deployment, or
  -- places it on a ready node of its organization, which is the home node if the environment has
  -- one.
  pub place-Outcome :
      (dep : PendingDeployment) (db db' : Db)
      → place fl collate row_id no_home_room no_fleet_room error_text now dep db ≡ ok (tt, db')
      → Outcome dep (list_ready_nodes collate now dep.org_id db) db db'
  unfolding place
  place-Outcome dep db db' h = place_on-Outcome dep _ db db' h

  Outcome-Inv :
      {dep : PendingDeployment} {ns : List Node} {db db' : Db}
      → Outcome dep ns db db'
      → Inv db
      → Inv db'
  Outcome-Inv (waits e) v = subst Inv (sym e) v
  Outcome-Inv {db = db} {db' = db'} (fails reason h) v =
      Reach-Inv (next here (advances now _ failed reason refl h)) v
  Outcome-Inv (runs n m home h) v = Reach-Inv (next here (places now _ n.id _ _ _ h)) v

  place_all-Inv :
      (deps : List PendingDeployment) (db : Db)
      → Inv db
      → Inv (place_all fl collate row_id no_home_room no_fleet_room error_text now deps db)
  unfolding place_all
  place_all-Inv [] db v = v
  place_all-Inv (dep ∷ deps) db v = place_all-Inv deps _ (after_one _ refl)
    where
      after_one :
          (r : Result (Unit {0} × Db))
          → place fl collate row_id no_home_room no_fleet_room error_text now dep db ≡ r
          → Inv (committed db r)
      after_one (ok (u, db')) e = Outcome-Inv (place-Outcome dep db db' e) v
      after_one (err x) e = v

  -- A pass of the scheduler over the pending deployments, of every organization or of one, keeps the
  -- invariant, whatever each placement does.
  pub schedule-Inv :
      (org : Option ℕ) (db : Db)
      → Inv db
      → Inv (schedule_once fl collate row_id no_home_room no_fleet_room error_text now org db)
  unfolding schedule_once mark_stale
  schedule-Inv org db v =
      place_all-Inv (list_pending_deployments org (mark_stale now db)) (mark_stale now db)
        (Reach-Inv (next here (tends (map (aged now) db.nodes) (marked db))) v)
    where
      marked : (db : Db) → mark_stale now db ≡ record db { nodes = map (aged now) db.nodes }
      marked db = refl
