-- ===== src/Parser/Graph.antt =====
-- validateGraph and findCycle of internal/parser/parser.go. The map `color` is the log of its
-- assignments, the last one first; `visit` has fuel for its nested calls.
pub mod Steps
pub mod Keeps
pub mod Visits
pub mod Order
pub mod Result
use Prim.Native.String.{◌++◌ as cat}
use text.Mathlib.Text.{◌==◌ as str_eq}
use navarch.Prelude.{
  ℕ, suc, zero, ltb, String, Bool, true, false, Option, none, some, List, [], ◌∷◌, ◌++◌, length,
  select, if◌then◌else◌,
}
use navarch.Spec.{GoMap, lookup, keys, Service, DeploymentSpec, service_names, has_ingress}
use navarch.Parser.Errors.{ValidationError, Check, check, collect, dotted}

pub data Colour : Type 0 where
  white grey black : Colour

pub record Walk : Type 0 where
  pub color : List (String × Colour)
  pub path : List String

-- visit gives `out`, or returns false, or has no fuel left.
pub data Visit : Type 0 where
  found : List String → Visit
  finished : Walk → Visit
  exhausted : Visit

-- What follows a visit that returns false.
unfoldable pub and_then : Visit → (Walk → Visit) → Visit
and_then (found c) k = found c
and_then (finished v) k = k v
and_then exhausted k = exhausted

-- color[n]
unfoldable pub colour_of : String → List (String × Colour) → Colour
colour_of n [] = white
colour_of n ((m, c) ∷ log) = let rest = colour_of n log in if str_eq m n then c else rest

-- color[n] = grey, path = append(path, n)
unfoldable pub enter : String → Walk → Walk
enter n w = record { color = (n, grey) ∷ w.color; path = w.path ++ n ∷ [] }

-- path[:len(path)-1]
unfoldable pub drop_last : List String → List String
drop_last [] = []
drop_last (x ∷ []) = []
drop_last (x ∷ y ∷ l) = x ∷ drop_last (y ∷ l)

unfoldable pub leave : String → Walk → Walk
unfolding drop_last
leave n w = record { color = (n, black) ∷ w.color; path = drop_last w.path }

-- path[i:] from the first i with path[i] == dep.
unfoldable pub path_from : String → List String → Option (List String)
path_from dep [] = none
path_from dep (p ∷ ps) = let rest = path_from dep ps in if str_eq p dep then some (p ∷ ps) else rest

unfoldable pub cycle_at : String → List String → List String
unfolding path_from
cycle_at dep path = elim (path_from dep path) [ some l ↦ l ++ dep ∷ [] | none ↦ path ++ dep ∷ [] ]

-- s.Services[n].Depends, and the test whether s.Services[n] is there.
unfoldable pub depends_of : DeploymentSpec → String → List String
unfolding lookup
depends_of s n = elim (lookup n s.services) [ none ↦ [] | some svc ↦ svc.depends ]

unfoldable pub is_service : DeploymentSpec → String → Bool
unfolding lookup
is_service s n = elim (lookup n s.services) [ none ↦ false | some svc ↦ true ]

-- The loop's body for one dependency, with the nested call of visit as `rec`.
unfoldable pub follow : (String → Walk → Visit) → DeploymentSpec → String → Walk → Visit
unfolding is_service colour_of cycle_at
follow rec s dep w = elim (is_service s dep) [
  | false ↦ finished w
  | true ↦ elim (colour_of dep w.color) [
    | grey ↦ found (cycle_at dep w.path)
    | white ↦ rec dep w
    | black ↦ finished w
  ]
]

unfoldable pub follow_all : (String → Walk → Visit) → DeploymentSpec → List String → Walk → Visit
unfolding follow and_then
follow_all rec s [] w = finished w
follow_all rec s (dep ∷ deps) w = and_then (follow rec s dep w) (λ v. follow_all rec s deps v)

unfoldable pub visit : ℕ → DeploymentSpec → String → Walk → Visit
unfolding follow_all depends_of enter leave and_then
visit zero s n w = exhausted
visit (suc fuel) s n w =
    and_then (follow_all (visit fuel s) s (depends_of s n) (enter n w)) (λ v. finished (leave n v))

-- color[name] == white && visit(name)
unfoldable pub visit_white : ℕ → DeploymentSpec → String → Walk → Visit
unfolding visit colour_of
visit_white fuel s n w = elim (colour_of n w.color) [ white ↦ visit fuel s n w | _ ↦ finished w ]

-- The loop over ServiceNames.
unfoldable pub visit_names : ℕ → DeploymentSpec → List String → Walk → Visit
unfolding visit_white and_then
visit_names fuel s [] w = finished w
visit_names fuel s (n ∷ ns) w = and_then (visit_white fuel s n w) (λ v. visit_names fuel s ns v)

abbrev pub start : Walk
start = record { color = []; path = [] }

-- No path of visits is longer than the services are many.
unfoldable pub find_cycle : DeploymentSpec → Visit
unfolding visit_names service_names
find_cycle s = visit_names (length s.services) s (service_names s) start

-- out, or nil.
abbrev pub cycle_of : Visit → List String
cycle_of (found c) = c
cycle_of v = []

-- strings.Join
unfoldable pub join : String → List String → String
join sep [] = ""
join sep (x ∷ []) = x
join sep (x ∷ y ∷ l) = cat x (cat sep (join sep (y ∷ l)))

unfoldable pub unknown_depends :
    (String → String) → DeploymentSpec → String → List String → List Check
unfolding is_service
unknown_depends quote s name [] = []
unknown_depends quote s name (dep ∷ deps) =
    check (elim (is_service s dep) [ true ↦ false | false ↦ true ]) (dotted name "depends_on")
      (cat "references unknown service " (quote dep))
    ∷ unknown_depends quote s name deps

unfoldable pub unknown_of : (String → String) → DeploymentSpec → List String → List ValidationError
unfolding unknown_depends collect depends_of
unknown_of quote s [] = []
unknown_of quote s (n ∷ ns) =
    collect (unknown_depends quote s n (depends_of s n)) ++ unknown_of quote s ns

abbrev pub has_cycle : List String → Bool
has_cycle [] = false
has_cycle (x ∷ l) = true

unfoldable pub graph_checks : DeploymentSpec → List Check
unfolding find_cycle join has_ingress service_names
graph_checks s =
    check (has_cycle (cycle_of (find_cycle s))) "depends_on"
      (cat "dependency cycle: " (join " -> " (cycle_of (find_cycle s))))
    ∷ check (ltb 1 (length (select (has_ingress s) (service_names s)))) "x-composectl.ingress" (
        cat "multiple services declare ingress: "
          (join ", " (select (has_ingress s) (service_names s))))
    ∷ []

unfoldable pub validate_graph : (String → String) → DeploymentSpec → List ValidationError
unfolding unknown_of collect graph_checks
validate_graph quote s = unknown_of quote s (service_names s) ++ collect (graph_checks s)
