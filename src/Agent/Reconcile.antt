-- ===== src/Agent/Reconcile.antt =====
-- Reconcile of internal/agent/reconcile.go. A Go set of names is a list without order; a map range is
-- in the order of the list.
pub mod Removals
pub mod Teardown
use Prim.Native.String.{◌++◌ as cat}
use text.Mathlib.Text.{◌==◌ as str_eq}
use navarch.Prelude.{
  ℕ, ◌==◌, ltb, ◌&&◌, not, String, Bool, true, false, Option, none, some, List, [], ◌∷◌, ◌++◌, map,
  any, length, select, if◌then◌else◌,
}
use navarch.Agent.Docker.{
  DesiredInstance, Managed, Answer, answered, refused, Call, stop_remove, list_managed,
  prune_revision_networks, remove_env, DockerDriver, Report,
}
use navarch.Agent.Health.{FirstRunning}
use navarch.Agent.Order.{order_desired}
use navarch.Agent.Ensure.{container_name, ensure, Pass}

pub data Op : Type 0 where
  teardown network_cleanup : Op

pub record EnvFailure : Type 0 where
  pub env8 : String
  pub op : Op
  pub error : String

pub record Reconciler : Type 0 where
  pub first_running : FirstRunning
  pub torn_down : List String
  pub known_envs : List String

-- m[k], for a map that is a set.
abbrev pub holds : List String → String → Bool
holds l k = any (λ x. str_eq x k) l

-- a[k] = true for the keys of the list.
unfoldable pub union : List String → List String → List String
union a [] = a
union a (k ∷ ks) = union (if holds a k then a else a ++ k ∷ []) ks

abbrev pub is_orphan : List String → Managed → Bool
is_orphan wanted m = not (holds wanted m.name) && m.swappable

-- fail(err), where the text before the cause is `what`.
abbrev pub cleanup_failure : String → String → Answer (Unit {0}) → List EnvFailure
cleanup_failure what env8 (answered u) = []
cleanup_failure what env8 (refused msg) =
    record { env8 = env8; op = network_cleanup; error = cat what msg } ∷ []

abbrev pub orphan_failure : String → Managed → Answer (Unit {0}) → List EnvFailure
orphan_failure env8 m a =
    cleanup_failure (cat "remove orphaned container " (cat m.name ": ")) env8 a

abbrev has_failed : List EnvFailure → Bool
has_failed [] = false
has_failed (f ∷ fs) = true

abbrev pub tear_failure : String → Answer (Unit {0}) → List EnvFailure
tear_failure env8 (answered u) = []
tear_failure env8 (refused msg) = record { env8 = env8; op = teardown; error = msg } ∷ []

abbrev pub torn_after : String → Answer (Unit {0}) → List String → List String
torn_after env8 (answered u) torn = env8 ∷ torn
torn_after env8 (refused msg) torn = torn

-- The env8s that are no longer offered.
abbrev pub forget_swept : List String → List String → List String
forget_swept offered torn =
    if ltb (length offered) (length torn) then select (holds offered) torn else torn

-- The environments of the desired instances.
abbrev pub touched : List DesiredInstance → List String
touched ordered = union [] (map (λ (d : DesiredInstance). d.env8) ordered)

module _ {S : Type 0} (docker : DockerDriver S) where
  -- The loop of ensure, over the ordered instances.
  unfoldable pub ensure_all :
      ℕ → (String → S) → List DesiredInstance → Pass docker → List Report × Pass docker
  unfolding ensure container_name
  ensure_all now secrets [] p = ([], p)
  ensure_all now secrets (di ∷ rest) p =
      let (rep, q) = ensure docker now di (container_name di) (secrets di.env8) p in
      let (reps, r) = ensure_all now secrets rest q in (rep ∷ reps, r)

  -- The managed containers of an environment: the orphans are removed.
  unfoldable pub remove_orphans :
      List String → String → List Managed → List (Call S) → List EnvFailure × List (Call S)
  remove_orphans wanted env8 [] calls = ([], calls)
  remove_orphans wanted env8 (m ∷ ms) calls =
      if is_orphan wanted m
      then (let (fs, later) = remove_orphans wanted env8 ms (stop_remove m.id ∷ calls) in
          (orphan_failure env8 m (docker calls (stop_remove m.id)) ++ fs, later))
      else remove_orphans wanted env8 ms calls

  abbrev pub sweep_listed :
      List String → String → Answer (List Managed) → List (Call S) → List EnvFailure × List (Call S)
  sweep_listed wanted env8 (answered ms) calls = remove_orphans wanted env8 ms calls
  sweep_listed wanted env8 (refused msg) calls = (
    record { env8 = env8; op = network_cleanup; error = cat "list managed containers: " msg } ∷ [],
    calls,
  )

  -- One environment: its orphans, then its networks.
  unfoldable pub cleanup_env :
      List String → List String → String → List (Call S) → List EnvFailure × List (Call S)
  unfolding remove_orphans
  cleanup_env wanted networks env8 calls =
      let (fs, later) =
        sweep_listed wanted env8 (docker calls (list_managed env8)) (list_managed env8 ∷ calls) in
      (
        fs ++ cleanup_failure "" env8 (docker later (prune_revision_networks env8 networks)),
        prune_revision_networks env8 networks ∷ later,
      )

  -- The failures, the environments to look at again, and the calls.
  unfoldable pub cleanup_all :
      List String
      → List String
      → List String
      → List (Call S)
      → List EnvFailure × (List String × List (Call S))
  unfolding cleanup_env
  cleanup_all wanted networks [] calls = ([], ([], calls))
  cleanup_all wanted networks (env8 ∷ envs) calls =
      let (fs, later) = cleanup_env wanted networks env8 calls in
      let (gs, (again, last)) = cleanup_all wanted networks envs later in
      (fs ++ gs, (if has_failed fs then env8 ∷ again else again, last))

  -- The loop over teardownEnvs.
  unfoldable pub tear_down :
      List String → List String → List (Call S) → List EnvFailure × (List String × List (Call S))
  tear_down [] torn calls = ([], (torn, calls))
  tear_down (env8 ∷ envs) torn calls =
      if holds torn env8
      then tear_down envs torn calls
      else (let answer = docker calls (remove_env env8) in
          let (fs, later) =
            tear_down envs (torn_after env8 answer torn) (remove_env env8 ∷ calls) in
          (tear_failure env8 answer ++ fs, later))

  abbrev pub Outcome : Type 0
  Outcome = (List Report × List EnvFailure) × (Reconciler × List (Call S))

  abbrev pub ensured :
      ℕ → (String → S) → List DesiredInstance → Reconciler → List Report × Pass docker
  ensured now secrets ordered r = ensure_all now secrets ordered ([], r.first_running)

  -- The cleanup of the environments known before and touched now.
  abbrev pub cleaned :
      ℕ
      → (String → S)
      → List DesiredInstance
      → Reconciler
      → List EnvFailure × (List String × List (Call S))
  cleaned now secrets ordered r =
      cleanup_all (map container_name ordered)
        (map (λ (d : DesiredInstance). d.project_name) ordered)
        (union r.known_envs (touched ordered)) (ensured now secrets ordered r).1.0

  abbrev pub torn :
      ℕ
      → (String → S)
      → List String
      → List DesiredInstance
      → Reconciler
      → List EnvFailure × (List String × List (Call S))
  torn now secrets offered ordered r =
      tear_down offered r.torn_down (cleaned now secrets ordered r).1.1

  -- Reconcile from the ordered instances on.
  unfoldable pub reconcile_ordered :
      ℕ → (String → S) → List String → List DesiredInstance → Reconciler → Outcome
  unfolding ensure_all cleanup_all tear_down container_name union
  reconcile_ordered now secrets offered ordered r =
      let (reports, (calls, seen)) = ensured now secrets ordered r in
      let (cleanups, (again, swept)) = cleaned now secrets ordered r in
      let (teardowns, (gone, last)) = torn now secrets offered ordered r in
      (
        (reports, cleanups ++ teardowns),
        (
          record {
            first_running =
                select (λ p. any (λ (d : DesiredInstance). d.instance_id == p.0) ordered) seen;
            torn_down = forget_swept offered gone;
            known_envs = union (touched ordered) again;
          },
          last,
        ),
      )

  -- Reconcile. orderDesired does not run out of fuel where the dependencies have a rank.
  unfoldable pub reconcile :
      ℕ → (String → S) → List String → List DesiredInstance → Reconciler → Option Outcome
  unfolding order_desired reconcile_ordered
  reconcile now secrets offered desired r = elim (order_desired desired) [
    | none ↦ none
    | some ordered ↦ some (reconcile_ordered now secrets offered ordered r)
  ]
