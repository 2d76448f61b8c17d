-- ===== src/Agent/Health.antt =====
-- mapHealth and observe of internal/agent/reconcile.go. The map firstRunning is a list of the
-- instances with the time of their first sighting.
use text.Mathlib.Text.{◌==◌ as str_eq}
use navarch.Prelude.{
  ℕ, ◌-◌, ltb, ◌==◌, ◌≡◌, refl, String, Bool, true, false, not, Option, none, some, List, [], ◌∷◌,
  select, arith, if◌then◌else◌, ap, All, ◌+◌, ◌∙◌, leb, Bool-cases, inl, inr,
}
use navarch.Spec.{HealthCheck}
use navarch.Store.{InstanceState}
use navarch.Agent.Docker.{Observed}

abbrev pub FirstRunning : Type 0
FirstRunning = List (ℕ × ℕ)

abbrev pub debounce : ℕ
debounce = 5000

unfoldable pub first_seen : ℕ → FirstRunning → Option ℕ
first_seen id [] = none
first_seen id ((i, t) ∷ m) = let rest = first_seen id m in if i == id then some t else rest

-- delete(r.firstRunning, id)
unfoldable pub forget : ℕ → FirstRunning → FirstRunning
forget id m = select (λ p. not (p.0 == id)) m

unfoldable pub map_health : Bool → Observed → InstanceState × String
map_health has_healthcheck h =
    if not h.running
    then if h.exit_code == 0
      then (InstanceState.stopped, "stopped")
      else (InstanceState.failed, "exited")
    else if has_healthcheck
    then if str_eq h.status "healthy"
      then (InstanceState.running, "healthy")
      else if str_eq h.status "unhealthy"
      then (InstanceState.unhealthy, "unhealthy")
      else (InstanceState.starting, "starting")
    else (InstanceState.running, "running")

-- di.Service.Health != nil && len(di.Service.Health.Test) > 0
abbrev pub has_test : Option HealthCheck → Bool
has_test none = false
has_test (some h) = elim h.test [ [] ↦ false | x ∷ l ↦ true ]

-- The state once the first sighting is known.
abbrev pub settled : ℕ → ℕ → InstanceState × String
settled now first =
    if ltb (now - first) debounce
    then (InstanceState.starting, "starting")
    else (InstanceState.running, "running")

abbrev pub debounced : ℕ → ℕ → Option ℕ → FirstRunning → (InstanceState × String) × FirstRunning
debounced now id none m = (settled now now, (id, now) ∷ m)
debounced now id (some t) m = (settled now t, m)

unfoldable pub observe :
    ℕ → ℕ → Bool → Observed → FirstRunning → (InstanceState × String) × FirstRunning
unfolding map_health forget first_seen
observe now id has_healthcheck h m =
    if not h.running
    then (map_health has_healthcheck h, forget id m)
    else if has_healthcheck
    then (map_health true h, m)
    else debounced now id (first_seen id m) m

-- What each of a row of ticks, at the times `ts`, reports of a running container without a
-- healthcheck.
unfoldable pub watch : ℕ → (ℕ → Observed) → List ℕ → FirstRunning → List (InstanceState × String)
unfolding observe
watch id h [] m = []
watch id h (t ∷ ts) m =
    let (report, later) = observe t id false (h t) m in report ∷ watch id h ts later

-- At each time, running just when 5000 milliseconds have passed since the first.
unfoldable pub since_first : ℕ → List ℕ → List (InstanceState × String)
since_first first [] = []
since_first first (t ∷ ts) =
    (if leb (first + 5000) t
      then (InstanceState.running, "running")
      else (InstanceState.starting, "starting"))
    ∷ since_first first ts

settled-since :
    (now first : ℕ)
    → settled now first ≡ (
        if leb (first + 5000) now
        then (InstanceState.running, "running")
        else (InstanceState.starting, "starting"))
settled-since now first = elim (Bool-cases (leb (first + 5000) now)) [
  | inl late ↦ let more : ltb (now - first) 5000 ≡ false = ground arith in rw (late, more) refl
  | inr early ↦ let less : ltb (now - first) 5000 ≡ true = ground arith in rw (early, less) refl
]

first_seen_self : (id t : ℕ) (m : FirstRunning) → first_seen id ((id, t) ∷ m) ≡ some t
unfolding first_seen
first_seen_self id t m = ground arith

observe-seen :
    (now id first : ℕ) (h : Observed) (m : FirstRunning)
    → h.running ≡ true
    → first_seen id m ≡ some first
    → observe now id false h m ≡ (settled now first, m)
unfolding observe
observe-seen now id first h m up seen = rw (observe, up, seen) refl

observe-unseen :
    (now id : ℕ) (h : Observed) (m : FirstRunning)
    → h.running ≡ true
    → first_seen id m ≡ none
    → observe now id false h m ≡ (settled now now, (id, now) ∷ m)
unfolding observe
observe-unseen now id h m up seen = rw (observe, up, seen) refl

watch-seen :
    (id first : ℕ) (h : ℕ → Observed) (ts : List ℕ) (m : FirstRunning)
    → All (λ t. (h t).running ≡ true) ts
    → first_seen id m ≡ some first
    → watch id h ts m ≡ since_first first ts
unfolding watch since_first
watch-seen id first h [] m up seen = refl
watch-seen id first h (t ∷ ts) m up seen =
    rw (watch, observe-seen t id first (h t) m up.0 seen)
      (ap (λ l. settled t first ∷ l) (watch-seen id first h ts m up.1 seen)
        ∙ ap (λ x. x ∷ since_first first ts) (settled-since t first))

-- A container without a healthcheck that is running at every tick is reported running at just
-- the ticks at least 5000 milliseconds after the first one that saw it, and starting before.
pub watch-debounces :
    (id first : ℕ) (h : ℕ → Observed) (ts : List ℕ) (m : FirstRunning)
    → All (λ t. (h t).running ≡ true) (first ∷ ts)
    → first_seen id m ≡ none
    → watch id h (first ∷ ts) m ≡ since_first first (first ∷ ts)
unfolding watch since_first
watch-debounces id first h ts m up unseen =
    rw (watch, observe-unseen first id (h first) m up.0 unseen)
      (ap (λ l. settled first first ∷ l)
          (watch-seen id first h ts ((id, first) ∷ m) up.1 (first_seen_self id first m))
        ∙ ap (λ x. x ∷ since_first first ts) (settled-since first first))
