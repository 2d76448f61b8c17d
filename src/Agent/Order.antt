-- ===== src/Agent/Order.antt =====
-- orderDesired and topoGroup of internal/agent/reconcile.go. The map byName keeps the last instance
-- of a name, and `color` the names that visit has entered: it never asks which of them are black.
pub mod Names
pub mod Sorted
pub mod Parsed
use text.Mathlib.Text.{◌==◌ as str_eq}
use navarch.Prelude.{
  ℕ, zero, suc, String, Bool, true, false, ◌&&◌, Option, none, some, List, [], ◌∷◌, ◌++◌, length,
  any, select, if◌then◌else◌, ltb,
}
use navarch.Spec.{Service}
use navarch.Agent.Docker.{DesiredInstance}

-- byName[name]
unfoldable pub by_name : String → List DesiredInstance → Option DesiredInstance
by_name name [] = none
by_name name (di ∷ rest) = elim (by_name name rest) [
  | some later ↦ some later
  | none ↦ if str_eq di.service_name name then some di else none
]

pub record Sorting : Type 0 where
  pub entered : List String
  pub out : List DesiredInstance

abbrev pub has_entered : String → Sorting → Bool
has_entered name st = any (λ n. str_eq n name) st.entered

-- if _, ok := byName[dep]; ok { visit(dep) }, with the nested call as `rec`; none is out of fuel.
unfoldable pub follow_deps :
    (String → Sorting → Option Sorting)
    → List DesiredInstance
    → List String
    → Sorting
    → Option Sorting
unfolding by_name
follow_deps rec group [] st = some st
follow_deps rec group (dep ∷ deps) st = elim (by_name dep group) [
  | none ↦ follow_deps rec group deps st
  | some di ↦ elim (rec dep st) [ none ↦ none | some next ↦ follow_deps rec group deps next ]
]

abbrev pub append_instance : DesiredInstance → Option Sorting → Option Sorting
append_instance di none = none
append_instance di (some st) = some (record st { out = st.out ++ di ∷ [] })

abbrev pub enter_name : String → Sorting → Sorting
enter_name name st = record st { entered = name ∷ st.entered }

-- di := byName[name], where visit is only called on names that are there.
unfoldable pub visit : ℕ → List DesiredInstance → String → Sorting → Option Sorting
unfolding follow_deps by_name
visit zero group name st = none
visit (suc fuel) group name st =
    if has_entered name st then some st else elim (by_name name group) [
      | none ↦ some (enter_name name st)
      | some di ↦
          append_instance di
            (follow_deps (visit fuel group) group di.service.depends (enter_name name st))
    ]

unfoldable pub visit_all :
    ℕ → List DesiredInstance → List DesiredInstance → Sorting → Option Sorting
unfolding visit
visit_all fuel group [] st = some st
visit_all fuel group (di ∷ rest) st = elim (visit fuel group di.service_name st) [
  | none ↦ none
  | some next ↦ visit_all fuel group rest next
]

abbrev pub unsorted : Sorting
unsorted = record { entered = []; out = [] }

abbrev pub sorted_out : Option Sorting → Option (List DesiredInstance)
sorted_out none = none
sorted_out (some st) = some st.out

-- No chain of calls is longer than the group, and one more call returns at once.
unfoldable pub topo_group : List DesiredInstance → Option (List DesiredInstance)
unfolding visit_all
topo_group group = sorted_out (visit_all (suc (length group)) group group unsorted)

abbrev pub same_group : DesiredInstance → DesiredInstance → Bool
same_group a b = str_eq a.env8 b.env8 && str_eq a.project_name b.project_name

-- groups[k], in the order of the input.
abbrev pub group_of : DesiredInstance → List DesiredInstance → List DesiredInstance
group_of di all = select (same_group di) all

-- The groups in the order of their first instances; `seen` is the instances before.
unfoldable pub order_groups :
    List DesiredInstance
    → List DesiredInstance
    → List DesiredInstance
    → Option (List DesiredInstance)
unfolding topo_group
order_groups all seen [] = some []
order_groups all seen (di ∷ rest) =
    let later = order_groups all (di ∷ seen) rest in
    if any (same_group di) seen then later else elim (topo_group (group_of di all)) [
      | none ↦ none
      | some first ↦ elim later [ none ↦ none | some others ↦ some (first ++ others) ]
    ]

-- orderDesired.
unfoldable pub order_desired : List DesiredInstance → Option (List DesiredInstance)
unfolding order_groups
order_desired desired =
    if ltb (length desired) 2 then some desired else order_groups desired [] desired
