-- ===== src/Store/Logs/Owner.antt =====
-- Whose output a request may read, and who may answer it.
use text.Mathlib.Text.{◌==◌ as str_eq}
use navarch.Prelude.{
  ℕ, ◌≤◌, ◌≡◌, refl, sym, ap, ◌∙◌, ◌==◌, String, true, false, not, ◌&&◌, some, List, [], ◌∷◌,
  select, arith,
}
use navarch.Store.{
  Deployment, ServiceInstance, LogRequest, Db, Result, ok, err, deployment_row, require-eq-ok,
  not_found,
}
use navarch.Store.Logs.{
  CreateLogRequestParams, Candidate, serves, on_node, completed, complete_rows,
  complete_log_request, max_log_tail_lines, log_request_owned_by_node,
}

-- A candidate is an instance of the service, in a deployment of the environment that runs.
IsCandidate : ℕ → String → Db → Candidate → Type 0
IsCandidate env service db c =
    (deployment_row db c.instance.deployment_id ≡ some c.deployment)
    × (serves env service c.instance c.deployment ≡ true)

-- What a created request reads.
pub record Targets (db : Db) (p : CreateLogRequestParams) (r : LogRequest) (i : ServiceInstance)
    (d : Deployment) : Type 0 where
  pub of_row : deployment_row db i.deployment_id ≡ some d
  pub serving : serves p.environment_id p.service_name i d ≡ true
  pub instance : r.instance_id ≡ i.id
  pub container : r.container_id ≡ i.container_id
  pub named : str_eq r.container_id "" ≡ false
  pub some_lines : 1 ≤ r.tail_lines
  pub few_lines : r.tail_lines ≤ max_log_tail_lines

-- The requests that a completion may not touch.
complete_rows-others :
    (now node id : ℕ) (failure : String) (db : Db) (rows : List LogRequest)
    → select
        (λ r. not (r.id == id && on_node node db r))
        (complete_rows now node id failure db rows)
      ≡ select (λ r. not (r.id == id && on_node node db r)) rows
unfolding complete_rows on_node completed
complete_rows-others now node id failure db [] = refl
complete_rows-others now node id failure db (r ∷ rows) =
    ground (arith, complete_rows-others now node id failure db rows)

-- A completion that succeeds changes no request but the named one, and that only when it reads an
-- instance on the node that completes it, which the completion requires.
pub complete-others :
    (now node id : ℕ) (failure : String) (db db' : Db)
    → complete_log_request now node id failure db ≡ ok (tt, db')
    → (log_request_owned_by_node node id db ≡ true)
      × (select (λ r. not (r.id == id && on_node node db r)) db'.log_requests
          ≡ select (λ r. not (r.id == id && on_node node db r)) db.log_requests)
unfolding complete_log_request
complete-others now node id failure db db' h =
    let (owned, done) = require-eq-ok (log_request_owned_by_node node id db) not_found _ h in
    let same : complete_rows now node id failure db db.log_requests ≡ db'.log_requests =
      ap rows_of done in
    (
      owned,
      ap (select (λ r. not (r.id == id && on_node node db r))) (sym same)
          ∙ complete_rows-others now node id failure db db.log_requests,
    )
  where
    rows_of : Result (Unit {0} × Db) → List LogRequest
    rows_of (ok (u, d)) = d.log_requests
    rows_of (err e) = []
