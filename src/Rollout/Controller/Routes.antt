-- ===== src/Rollout/Controller/Routes.antt =====
-- ListLiveRoutes (internal/store/deployments.go) and syncRouter
-- (internal/rollout/controller.go): the routes that the router is given.
-- `strand` is a number of milliseconds. An instance's port of zero is the column's NULL.
use navarch.Prelude.{
  ℕ, ◌+◌, String, Bool, true, false, ◌&&◌, ◌||◌, not, Option, none, some, List, [], ◌∷◌, ◌++◌, map,
  select, ltb, ◌==◌, if◌then◌else◌,
}
use text.Mathlib.Text.{◌==◌ as str_eq}
use navarch.Spec.{DeploymentSpec, lookup, ingress_service}
use navarch.Store.{
  Deployment, Environment, Node, ServiceInstance, ProjectName, Db, is_live, short_id,
  environment_row, node_row,
}
use navarch.Store.Nodes.{is_ready}
use navarch.Store.Placement.{belongs_to}

pub record LiveRoute : Type 0 where
  pub env8 : ℕ
  pub project_name : ProjectName
  pub ingress_service : String
  pub hostname : String
  pub ingress_port : ℕ
  pub node_addr : String
  pub published_port : ℕ

-- router.Route.
pub record Route : Type 0 where
  pub key : ℕ
  pub hostname : String
  pub target : String
  pub port : ℕ

abbrev since : ℕ → ℕ → Option ℕ → Bool
since now strand none = false
since now strand (some t) = ltb now (t + strand)

-- LEFT JOIN nodes n ON n.id = e.home_node_id
unfoldable pub home_node : Db → Environment → Option Node
home_node db e = elim e.home_node_id [ none ↦ none | some h ↦ node_row db h ]

-- The condition on the node; zero disables the withdrawal.
unfoldable pub is_reachable : ℕ → ℕ → Option Node → Bool
is_reachable now strand o =
    if strand == 0
    then true
    else elim o [ none ↦ false | some n ↦ is_ready n.state && since now strand n.last_heartbeat ]

-- The ports of the LEFT JOIN on the instances that report one; no instance gives one row with 0.
unfoldable pub published_ports : ℕ → List ServiceInstance → List ℕ
published_ports dep rows =
    elim (select (λ (r : ServiceInstance). belongs_to dep r && not (r.ingress_port == 0)) rows) [
      | [] ↦ 0 ∷ []
      | r ∷ rs ↦ map (λ (x : ServiceInstance). x.ingress_port) (r ∷ rs)
    ]

-- COALESCE(host(n.advertise_addr), '')
abbrev address : Option Node → String
address none = ""
address (some n) = n.advertise_addr

-- ds.Services[name].Ingress.Port, for a name that IngressService gave.
abbrev port_of : DeploymentSpec → String → ℕ
port_of s name = elim (lookup name s.services) [
  | none ↦ 0
  | some svc ↦ elim svc.ingress [ none ↦ 0 | some i ↦ i.port ]
]

-- IngressService gives no name to a stack without one, and its rows are skipped.
unfoldable pub routes_of : Db → Deployment → Environment → List LiveRoute
unfolding home_node published_ports lookup
routes_of db d e = elim (ingress_service d.resolved_spec) [
  | none ↦ []
  | some name ↦
      map
        (λ port. record {
          env8 = short_id d.environment_id;
          project_name = d.project_name;
          ingress_service = name;
          hostname = e.hostname;
          ingress_port = port_of d.resolved_spec name;
          node_addr = address (home_node db e);
          published_port = port;
        })
        (published_ports d.id db.instances)
]

-- NULL means every organization.
abbrev in_org : Option ℕ → Environment → Bool
in_org none e = true
in_org (some org) e = e.org_id == org

unfoldable pub deployment_routes : ℕ → ℕ → Option ℕ → Db → Deployment → List LiveRoute
unfolding routes_of is_reachable home_node
deployment_routes now strand org db d = elim (environment_row db d.environment_id) [
  | none ↦ []
  | some e ↦
      if is_live d.state
        && not (str_eq e.hostname "")
        && is_reachable now strand (home_node db e)
        && in_org org e
      then routes_of db d e
      else []
]

unfoldable pub all_routes : ℕ → ℕ → Option ℕ → Db → List Deployment → List LiveRoute
unfolding deployment_routes
all_routes now strand org db [] = []
all_routes now strand org db (d ∷ ds) =
    deployment_routes now strand org db d ++ all_routes now strand org db ds

-- liveRoutes.
unfoldable pub live_routes : ℕ → ℕ → Option ℕ → Db → List LiveRoute
unfolding all_routes
live_routes now strand org db = all_routes now strand org db db.deployments

-- A route with no address or no port yet is omitted.
unfoldable pub is_targeted : LiveRoute → Bool
is_targeted r = not (str_eq r.node_addr "" || r.published_port == 0)

-- The routes that syncRouter hands to the router.
unfoldable pub synced_routes : ℕ → ℕ → Db → List Route
unfolding live_routes is_targeted
synced_routes now strand db =
    map
      (λ r. record {
        key = r.env8;
        hostname = r.hostname;
        target = r.node_addr;
        port = r.published_port;
      })
      (select is_targeted (live_routes now strand none db))
