-- ===== src/Parser/Parse/Valid.antt =====
-- What Parse promises of a specification that it returns.
use text.Mathlib.Text.{◌==◌ as str_eq}
use text.Mathlib.TextEquality.{eq_iff}
use navarch.Prelude.{
  ℕ, ◌==◌, ◌≤◌, ltb, ◌≡◌, ◌≢◌, refl, sym, subst, ◌&&◌, not, String, Bool, true, false, Option, List,
  [], ◌∷◌, arith, All, length, select, any, Bool-cases, inl, inr,
}
use navarch.Spec.{GoMap, Service, DeploymentSpec, service_names, has_ingress}
use navarch.Parser.Compose.{Fields, VolumeMount, ServiceConfig, VolumeConfig, Project}
use navarch.Parser.Errors.{ValidationError, collect, collect-nil, append-nil}
use navarch.Parser.Preflight.{preflight}
use navarch.Parser.Mounts.{convert_mount, mount_errors, volume_owner, is_misparsed, misparses}
use navarch.Parser.Convert.{Library, service_errors, convert_service}
use navarch.Parser.Convert.Accepts.{IsAccepted, service_errors-quiet, convert_service-IsAccepted}
use navarch.Parser.Graph.{
  Visit, found, finished, exhausted, find_cycle, validate_graph, graph_checks, unknown_of,
  unknown_depends, depends_of, is_service, cycle_of, has_cycle,
}
use navarch.Parser.Graph.Steps.{contains}
use navarch.Parser.Graph.Order.{IsCycle, Reaches}
use navarch.Parser.Graph.Result.{Decides, find_cycle-Decides, known}
use navarch.Parser.Parse.{
  Load, loaded, failed, accepted, volume_checks, volume_errors, all_service_errors, spec_of,
  project_errors, parse, empty_errors, examine, inspect, judge, confirm,
}

-- The dependencies of one service are services.
unknown_depends_lem :
    (quote : String → String) (s : DeploymentSpec) (name : String) (deps : List String)
    → collect (unknown_depends quote s name deps) ≡ []
    → (d : String) → contains deps d ≡ true
    → is_service s d ≡ true
unfolding unknown_depends collect
unknown_depends_lem quote s name [] h d c = absurd (ground arith)
unknown_depends_lem quote s name (x ∷ deps) h d c = elim (Bool-cases (is_service s x)) [
  | inl e ↦ elim (Bool-cases (str_eq x d)) [
    | inl same ↦ subst (λ y. is_service s y ≡ true) ((eq_iff x d).0 same) e
    | inr other ↦ unknown_depends_lem quote s name deps (ground arith) d (ground arith)
  ]
  | inr e ↦ absurd (ground arith)
]

unknown_of_lem :
    (quote : String → String) (s : DeploymentSpec) (ns : List String)
    → unknown_of quote s ns ≡ []
    → (n d : String) → contains ns n ≡ true
    → contains (depends_of s n) d ≡ true
    → is_service s d ≡ true
unfolding unknown_of
unknown_of_lem quote s [] h n d m c = absurd (ground arith)
unknown_of_lem quote s (x ∷ ns) h n d m c =
    let (one, rest) =
      append-nil (collect (unknown_depends quote s x (depends_of s x))) (unknown_of quote s ns) h in
    elim (Bool-cases (str_eq x n)) [
      | inl same ↦
          unknown_depends_lem quote s x (depends_of s x) one d
            (subst (λ y. contains (depends_of s y) d ≡ true) (sym ((eq_iff x n).0 same)) c)
      | inr other ↦ unknown_of_lem quote s ns rest n d (ground arith) c
    ]

-- A service with a dependency is there.
depends_of-is_service :
    (s : DeploymentSpec) (n d : String) → contains (depends_of s n) d ≡ true → is_service s n ≡ true
unfolding depends_of is_service
depends_of-is_service s n d h = elim (Bool-cases (is_service s n)) [
  | inl e ↦ e
  | inr e ↦ absurd (ground arith)
]

-- A graph without a violation.
pub record IsGraph (s : DeploymentSpec) : Type 0 where
  pub closed : (a b : String) → contains (depends_of s a) b ≡ true → is_service s b ≡ true
  pub acyclic : (a : String) → ¬ Reaches s a a
  pub one_ingress : length (select (has_ingress s) (service_names s)) ≤ 1

no_cycle :
    (s : DeploymentSpec) (v : Visit)
    → Decides s v
    → has_cycle (cycle_of v) ≡ false
    → (a : String) → ¬ Reaches s a a
unfolding Decides IsCycle
no_cycle s (found c) (x, l, (e, k)) h =
    absurd (subst (λ t. has_cycle t ≡ false → ⊥) (sym e) (λ z. cc) h)
no_cycle s (finished w) d h = d.1
no_cycle s exhausted d h = absurd d

pub validate_graph-IsGraph :
    (quote : String → String) (s : DeploymentSpec) → validate_graph quote s ≡ [] → IsGraph s
unfolding validate_graph graph_checks
validate_graph-IsGraph quote s h =
    let (unknown, checks) =
      append-nil (unknown_of quote s (service_names s)) (collect (graph_checks s)) h in
    let q = collect-nil (graph_checks s) checks in
    record {
      closed = λ a b c.
          unknown_of_lem quote s (service_names s) unknown a b
            (known s a (depends_of-is_service s a b c)) c;
      acyclic = no_cycle s (find_cycle s) (find_cycle-Decides s) q.0;
      one_ingress = ground (arith, q.1.0);
    }

-- No mount was misread where the mounts have no violation.
not_misparsed :
    (quote : String → String) (name vol : String) (vs : List VolumeMount)
    → mount_errors quote name vs ≡ []
    → any (misparses vol) vs ≡ false
unfolding mount_errors convert_mount misparses
not_misparsed quote name vol [] h = refl
not_misparsed quote name vol (v ∷ vs) h =
    let (one, rest) = append-nil (convert_mount quote name v).0 (mount_errors quote name vs) h in
    let tail = not_misparsed quote name vol vs rest in ground (arith)

module _ (lib : Library) where
  open lib use {D, C, quote}

  unfoldable pub AllAccepted : GoMap (ServiceConfig D C) → Type 0
  AllAccepted services =
      All (λ (q : String × ServiceConfig D C). IsAccepted lib q.1 (convert_service lib q.0 q.1))
        services

  all_accepted :
      (services : GoMap (ServiceConfig D C))
      → all_service_errors lib services ≡ []
      → AllAccepted services
  unfolding all_service_errors AllAccepted
  all_accepted [] h = tt
  all_accepted ((name, svc) ∷ m) h =
      let (one, rest) = append-nil (service_errors lib name svc) (all_service_errors lib m) h in
      (convert_service-IsAccepted lib name svc one, all_accepted m rest)

  none_misparsed :
      (vol : String) (services : GoMap (ServiceConfig D C))
      → all_service_errors lib services ≡ []
      → is_misparsed services vol ≡ false
  unfolding all_service_errors is_misparsed
  none_misparsed vol [] h = refl
  none_misparsed vol ((name, svc) ∷ m) h =
      let (one, rest) = append-nil (service_errors lib name svc) (all_service_errors lib m) h in
      let here =
        not_misparsed quote name vol svc.volumes
          (service_errors-quiet lib name svc one).by_mounts in
      let there = none_misparsed vol m rest in ground arith

  -- Every declared volume is mounted by one service.
  unfoldable pub AllSingle : GoMap (ServiceConfig D C) → GoMap VolumeConfig → Type 0
  AllSingle services volumes =
      All (λ (q : String × VolumeConfig). (volume_owner services q.0).1 ≡ 1) volumes

  one_mount : (n : ℕ) (b : Bool) → b ≡ false → (n == 0 && not b) ≡ false → ltb 1 n ≡ false → n ≡ 1
  one_mount n b e h k = ground arith

  all_single :
      (services : GoMap (ServiceConfig D C)) (volumes : GoMap VolumeConfig)
      → all_service_errors lib services ≡ []
      → volume_errors lib services volumes ≡ []
      → AllSingle services volumes
  unfolding volume_errors volume_checks AllSingle
  all_single services [] h k = tt
  all_single services ((vol, v) ∷ m) h k =
      let (one, rest) =
        append-nil (collect (volume_checks lib services vol v)) (volume_errors lib services m) k in
      let q = collect-nil (volume_checks lib services vol v) one in
      (
        one_mount (volume_owner services vol).1 (is_misparsed services vol)
            (none_misparsed vol services h) q.1.1.1.0 q.1.1.1.1.0,
        all_single services m h rest,
      )

  -- What holds of the specification out of the project p.
  pub record IsValid (p : Project D C) (s : DeploymentSpec) : Type 0 where
    pub converted : s ≡ spec_of lib p
    pub services_accepted : AllAccepted p.services
    pub volumes_single : AllSingle p.services p.volumes
    pub graph : IsGraph s
    pub inhabited : s.services ≢ []

  not_empty : (m : GoMap Service) → empty_errors lib m ≡ [] → m ≢ []
  not_empty [] h e = absurd (ground arith)
  not_empty (x ∷ m) h e = absurd (ground arith)

  project_errors-IsValid : (p : Project D C) → project_errors lib p ≡ [] → IsValid p (spec_of lib p)
  unfolding project_errors
  project_errors-IsValid p h =
      let (services, h1) = append-nil (all_service_errors lib p.services) _ h in
      let (volumes, h2) = append-nil (volume_errors lib p.services p.volumes) _ h1 in
      let (graph, empty) = append-nil (validate_graph quote (spec_of lib p)) _ h2 in
      record {
        converted = refl;
        services_accepted = all_accepted p.services services;
        volumes_single = all_single p.services p.volumes services volumes;
        graph = validate_graph-IsGraph quote (spec_of lib p) graph;
        inhabited = not_empty (spec_of lib p).services empty;
      }

  module _ (Raw : Type 0) (unmarshal : Raw → Option Fields)
      (load : Bool → Raw → Load (Project D C)) where
    confirm-accepted :
        (t s : DeploymentSpec) (l : Load (Project D C))
        → confirm lib Raw unmarshal load t l ≡ accepted s
        → t ≡ s
    confirm-accepted t s (loaded p) h = ground arith
    confirm-accepted t s (failed m) h = absurd (ground arith)

    judge-accepted :
        (raw : Raw) (p : Project D C) (s : DeploymentSpec) (es : List ValidationError)
        → project_errors lib p ≡ es
        → judge lib Raw unmarshal load raw p es ≡ accepted s
        → IsValid p s
    judge-accepted raw p s [] e h =
        subst (IsValid p) (confirm-accepted (spec_of lib p) s (load false raw) h)
          (project_errors-IsValid p e)
    judge-accepted raw p s (x ∷ es) e h = absurd (ground arith)

    inspect-accepted :
        (raw : Raw) (s : DeploymentSpec) (l : Load (Project D C))
        → inspect lib Raw unmarshal load raw l ≡ accepted s
        → (p : Project D C) × ((l ≡ loaded p) × IsValid p s)
    inspect-accepted raw s (loaded p) h =
        (p, (refl, judge-accepted raw p s (project_errors lib p) refl h))
    inspect-accepted raw s (failed m) h = absurd (ground arith)

    examine-accepted :
        (raw : Raw) (s : DeploymentSpec) (es : List ValidationError)
        → examine lib Raw unmarshal load raw es ≡ accepted s
        → (es ≡ []) × ((p : Project D C) × ((load true raw ≡ loaded p) × IsValid p s))
    examine-accepted raw s [] h = (refl, inspect-accepted raw s (load true raw) h)
    examine-accepted raw s (x ∷ es) h = absurd (ground arith)

    -- When Parse returns a specification, the document passed the preflight and the first load, and
    -- the specification is that project's: every service is accepted, every declared volume is
    -- mounted by exactly one service, every dependency is a service, no service depends on itself
    -- along any chain, at most one service takes ingress, and there is a service.
    pub parse-IsValid :
        (raw : Raw) (s : DeploymentSpec)
        → parse lib Raw unmarshal load raw ≡ accepted s
        → (preflight (unmarshal raw) ≡ [])
          × ((p : Project D C) × ((load true raw ≡ loaded p) × IsValid p s))
    unfolding parse
    parse-IsValid raw s h = examine-accepted raw s (preflight (unmarshal raw)) h
