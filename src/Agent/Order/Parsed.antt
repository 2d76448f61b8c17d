-- ===== src/Agent/Order/Parsed.antt =====
-- What the parser accepts, the agent can order: the order in which findCycle leaves the services gives
-- each of them a rank above those of its dependencies.
use text.Mathlib.Text.{◌==◌ as str_eq}
use text.Mathlib.TextEquality.{eq_iff}
use navarch.Prelude.{
  ℕ, suc, ◌≤◌, ◌<◌, ◌≡◌, sym, subst, String, true, false, some, List, [], ◌∷◌, arith, length,
  if◌then◌else◌, Bool-cases, inl, inr,
}
use navarch.Spec.{DeploymentSpec, service_names}
use navarch.Parser.Errors.{collect-nil, append-nil, collect}
use navarch.Parser.Graph.{
  Visit, found, finished, exhausted, find_cycle, has_cycle, cycle_of, validate_graph, graph_checks,
  unknown_of, depends_of, is_service,
}
use navarch.Parser.Graph.Steps.{Depends, left_of}
use navarch.Parser.Graph.Order.{IsTopological, IsCycle, reach_in}
use navarch.Parser.Graph.Result.{Decides, Covers, find_cycle-Decides, known}
use navarch.Agent.Docker.{DesiredInstance}
use navarch.Agent.Order.{by_name, topo_group}
use navarch.Agent.Order.Names.{names, contains, IsOrdered, by_name-some}
use navarch.Agent.Order.Sorted.{topo_group-IsOrdered}

-- The place of the last occurrence, counted from the end; zero for a name that does not occur.
place : List String → String → ℕ
place [] n = 0
place (x ∷ l) n =
    let rest = place l n in if contains l n then rest else if str_eq x n then suc (length l) else 0

place-length : (l : List String) (n : String) → place l n ≤ length l
unfolding place
place-length [] n = omega arith
place-length (x ∷ l) n = ground (arith, place-length l n)

place_descends :
    (s : DeploymentSpec) (l : List String)
    → IsTopological s l
    → (a b : String) → contains l a ≡ true
    → Depends s a b
    → place l b < place l a
unfolding place
place_descends s [] t a b h d = absurd (ground arith)
place_descends s (x ∷ l) t a b h d = elim (Bool-cases (contains l a)) [
  | inl later ↦
      let inside = reach_in s l t.1 a b later d in
      let below = place_descends s l t.1 a b later d in rw (place, inside, later) below
  | inr last ↦ elim (Bool-cases (str_eq x a)) [
    | inl here ↦
        let inside = t.0 b (subst (λ y. Depends s y b) (sym ((eq_iff x a).0 here)) d) in
        rw (place, inside, last, here) (omega (arith, place-length l b))
    | inr other ↦ absurd (ground arith)
  ]
]

-- The list that findCycle leaves behind when it finds nothing.
ranked :
    (s : DeploymentSpec) (v : Visit)
    → Decides s v
    → has_cycle (cycle_of v) ≡ false
    → (l : List String) × (IsTopological s l
        × ((n : String) → contains (service_names s) n ≡ true → contains l n ≡ true))
unfolding Decides IsCycle Covers
ranked s (found c) (x, l, (e, k)) h =
    absurd (subst (λ t. has_cycle t ≡ false → ⊥) (sym e) (λ z. cc) h)
ranked s (finished w) d h = (left_of w.color, d.0)
ranked s exhausted d h = absurd d

-- The services of a specification with no violation of its graph, on a node that runs some of them:
-- topoGroup's fuel is enough, every name of the group is in what it returns, and in it each service
-- stands behind all of its dependencies that the group has.
pub parsed_group-IsOrdered :
    (quote : String → String) (s : DeploymentSpec) (group : List DesiredInstance)
    → validate_graph quote s ≡ []
    → ((n : String) (di : DesiredInstance)
        → by_name n group ≡ some di
        → di.service.depends ≡ depends_of s n)
    → ((n : String) → names group n ≡ true → is_service s n ≡ true)
    → (out : List DesiredInstance) × ((topo_group group ≡ some out)
        × (IsOrdered group out × ((n : String) → names group n ≡ true → names out n ≡ true)))
unfolding validate_graph graph_checks
parsed_group-IsOrdered quote s group h spec_of_group services =
    let (_, checks) =
      append-nil (unknown_of quote s (service_names s)) (collect (graph_checks s)) h in
    let (l, (t, all)) =
      ranked s (find_cycle s) (find_cycle-Decides s) (collect-nil (graph_checks s) checks).0 in
    topo_group-IsOrdered group (place l) (λ n d di at_name dep there.
      place_descends s l t n d (all n (known s n (services n (by_name-some n group di at_name))))
        (subst (λ ds. contains ds d ≡ true) (spec_of_group n di at_name) dep, services d there))
