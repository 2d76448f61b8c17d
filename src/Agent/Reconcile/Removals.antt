-- ===== src/Agent/Reconcile/Removals.antt =====
-- What Reconcile may destroy, and that it leaves no orphan without a report.
use mathlib.Core.List.{Memᴰ}
use text.Mathlib.TextEquality.{eq_iff}
use navarch.Prelude.{
  ap, ◌++◌, ℕ, ◌≡◌, refl, String, true, false, List, [], ◌∷◌, map, arith, Bool-cases, inl, inr, All,
  All-mono,
}
use navarch.Agent.Docker.{
  DesiredInstance, Managed, Answer, answered, refused, Call, ensure_image, ensure_network,
  ensure_container, attach_network, inspect_health, stop_remove, list_managed,
  prune_revision_networks, ensure_volume, remove_env, DockerDriver, Report, Returns, VolumeMount,
  Ensured,
}
use navarch.Agent.Ensure.{
  container_name, ensure, ensure_volumes, Pass, attempt, or_fail, with_image, container_spec,
  inspect, join, blank, labels_of, record_health,
}
use navarch.Agent.Reconcile.{
  Reconciler, holds, union, is_orphan, ensure_all, remove_orphans, sweep_listed, cleanup_env,
  cleanup_all, tear_down, torn_after, reconcile_ordered, touched,
}

module _ {S : Type 0} (docker : DockerDriver S) (wanted offered torn : List String) where
  -- A container in the answer to one of the earlier calls of the pass, latest first, that listed the
  -- containers of an environment.
  pub Listed : List (Call S) → Managed → Type 0
  Listed earlier m =
      (later before : List (Call S)) × (env8 : String) × (ms : List Managed) × (earlier
        ≡ later ++ list_managed env8 ∷ before)
      × (docker before (list_managed env8) ≡ answered ms)
      × Memᴰ m ms

  -- What a call destroys: a swappable container that was listed and is not wanted, or an environment
  -- that is offered for teardown and not recorded as torn down.
  pub Allowed : List (Call S) → Call S → Type 0
  Allowed earlier (stop_remove id) =
      (m : Managed) × (m.id ≡ id)
      × (m.swappable ≡ true)
      × (holds wanted m.name ≡ false)
      × Listed earlier m
  Allowed earlier (remove_env e) = (holds offered e ≡ true) × (holds torn e ≡ false)
  Allowed earlier c = Unit

  -- Each of the calls, latest first, is allowed after those before it.
  pub AllAllowed : List (Call S) → Type 0
  AllAllowed [] = Unit
  AllAllowed (c ∷ earlier) = Allowed earlier c × AllAllowed earlier

  -- A call that destroys nothing.
  IsMild : Call S → Type 0
  IsMild (stop_remove id) = ⊥
  IsMild (remove_env e) = ⊥
  IsMild c = Unit

  mild-Allowed : (earlier : List (Call S)) (c : Call S) → IsMild c → Allowed earlier c
  unfolding IsMild Allowed
  mild-Allowed earlier (stop_remove id) h = absurd h
  mild-Allowed earlier (remove_env e) h = absurd h
  mild-Allowed earlier (ensure_image r) h = tt
  mild-Allowed earlier (ensure_network n l) h = tt
  mild-Allowed earlier (ensure_container c s) h = tt
  mild-Allowed earlier (attach_network i n a) h = tt
  mild-Allowed earlier (inspect_health i) h = tt
  mild-Allowed earlier (list_managed e) h = tt
  mild-Allowed earlier (prune_revision_networks e w) h = tt
  mild-Allowed earlier (ensure_volume v l) h = tt

  -- A step of ensure keeps the calls allowed.
  IsHarmless : (Pass docker → Report × Pass docker) → Type 0
  IsHarmless f = (p : Pass docker) → AllAllowed p.0 → AllAllowed (f p).1.0

  or_fail-allowed :
      {A : Type 0} (rep : Report) (next : A → Pass docker → Report × Pass docker) (p : Pass docker)
      (x : Answer A)
      → AllAllowed p.0
      → ((a : A) → IsHarmless (next a))
      → AllAllowed (or_fail docker rep next p x).1.0
  unfolding IsHarmless
  or_fail-allowed rep next p (answered a) all h = h a p all
  or_fail-allowed rep next p (refused msg) all h = all

  attempt-IsHarmless :
      (c : Call S) (rep : Report) (next : Returns c → Pass docker → Report × Pass docker)
      → IsMild c
      → ((a : Returns c) → IsHarmless (next a))
      → IsHarmless (attempt docker c rep next)
  unfolding IsHarmless AllAllowed
  attempt-IsHarmless c rep next mild h (calls, m) all =
      or_fail-allowed rep next (c ∷ calls, m) (docker calls c) (mild-Allowed calls c mild, all) h

  ensure_volumes-IsHarmless :
      (labels : List (String × String)) (rep : Report) (next : Pass docker → Report × Pass docker)
      (vs : List VolumeMount)
      → IsHarmless next
      → IsHarmless (ensure_volumes docker labels rep next vs)
  unfolding ensure_volumes IsMild IsHarmless
  ensure_volumes-IsHarmless labels rep next [] h = h
  ensure_volumes-IsHarmless labels rep next (v ∷ vs) h =
      attempt-IsHarmless (ensure_volume v.volume labels) rep
        (λ u q. ensure_volumes docker labels rep next vs q) tt
        (λ u. ensure_volumes-IsHarmless labels rep next vs h)

  inspect-IsHarmless :
      (di : DesiredInstance) (now : ℕ) (rep : Report) (id : String)
      → IsHarmless (inspect docker di now rep id)
  unfolding IsMild IsHarmless
  inspect-IsHarmless di now rep id =
      attempt-IsHarmless (inspect_health id) (record rep { container_id = id; set_started = true })
        (λ h q.
          record_health docker di (record rep { container_id = id; set_started = true }) now h q)
        tt (λ h q all. all)

  join-IsHarmless :
      (di : DesiredInstance) (now : ℕ) (e : Ensured) → IsHarmless (join docker di now e)
  unfolding IsMild IsHarmless
  join-IsHarmless di now e p all = elim (Bool-cases di.swappable) [
    | inl s ↦ rw s (
        inspect-IsHarmless di now (record (blank di.instance_id) { recreated = e.recreated }) e.id p
          all)
    | inr s ↦ rw s (
        attempt-IsHarmless (attach_network e.id di.project_name di.service_name)
          (record (blank di.instance_id) { recreated = e.recreated })
          (λ u q.
            inspect docker di now (record (blank di.instance_id) { recreated = e.recreated }) e.id
              q)
          tt
          (λ u.
            inspect-IsHarmless di now (record (blank di.instance_id) { recreated = e.recreated })
              e.id)
          p all)
  ]

  ensure-IsHarmless :
      (now : ℕ) (di : DesiredInstance) (name : String) (s : S)
      → IsHarmless (ensure docker now di name s)
  unfolding ensure IsMild IsHarmless
  ensure-IsHarmless now di name s =
      attempt-IsHarmless (ensure_image di.service.image) rep
        (λ digest q.
          attempt docker (ensure_network di.project_name (labels_of di)) rep
            (λ u r. with_volumes digest r) q)
        tt
        (λ digest.
          attempt-IsHarmless (ensure_network di.project_name (labels_of di)) rep
            (λ u r. with_volumes digest r) tt
            (λ u.
              ensure_volumes-IsHarmless (labels_of di) rep (λ t. with_container digest t)
                (with_image digest (container_spec di name)).mounts
                (attempt-IsHarmless
                  (ensure_container (with_image digest (container_spec di name)) s) rep
                  (λ e w. join docker di now e w) tt (λ e. join-IsHarmless di now e))))
    where
      rep : Report
      rep = blank di.instance_id

      with_container : String → Pass docker → Report × Pass docker
      with_container digest t =
          attempt docker (ensure_container (with_image digest (container_spec di name)) s)
            (blank di.instance_id) (λ e w. join docker di now e w) t

      with_volumes : String → Pass docker → Report × Pass docker
      with_volumes digest r =
          ensure_volumes docker (labels_of di) (blank di.instance_id) (λ t. with_container digest t)
            (with_image digest (container_spec di name)).mounts r

  ensure_all-allowed :
      (now : ℕ) (secrets : String → S) (ds : List DesiredInstance) (p : Pass docker)
      → AllAllowed p.0
      → AllAllowed (ensure_all docker now secrets ds p).1.0
  unfolding ensure_all IsHarmless
  ensure_all-allowed now secrets [] p all = all
  ensure_all-allowed now secrets (di ∷ ds) p all =
      ensure_all-allowed now secrets ds _
        (ensure-IsHarmless now di (container_name di) (secrets di.env8) p all)

  Listed-later :
      (c : Call S) (earlier : List (Call S)) (m : Managed)
      → Listed earlier m
      → Listed (c ∷ earlier) m
  unfolding Listed
  Listed-later c earlier m (later, before, env8, ms, e, at, mem) =
      (c ∷ later, before, env8, ms, ap (λ l. c ∷ l) e, at, mem)

  -- The orphans of one listing, of which the rest is still to do.
  remove_orphans-allowed :
      (env8 : String) (ms : List Managed) (calls : List (Call S))
      → All (Listed calls) ms
      → AllAllowed calls
      → AllAllowed (remove_orphans docker wanted env8 ms calls).1
  unfolding remove_orphans AllAllowed Allowed
  remove_orphans-allowed env8 [] calls l all = all
  remove_orphans-allowed env8 (m ∷ ms) calls l all = elim (Bool-cases (is_orphan wanted m)) [
    | inl orphan ↦
        rw (remove_orphans, orphan)
          (remove_orphans-allowed env8 ms (stop_remove m.id ∷ calls)
            (All-mono (Listed calls) (Listed (stop_remove m.id ∷ calls))
              (Listed-later (stop_remove m.id) calls) ms l.1)
            ((m, refl, (ground arith), (ground arith), l.0), all))
    | inr keep ↦ rw (remove_orphans, keep) (remove_orphans-allowed env8 ms calls l.1 all)
  ]

  Memᴰ-All : (ms : List Managed) → All (λ m. Memᴰ m ms) ms
  Memᴰ-All [] = tt
  Memᴰ-All (m ∷ ms) = (
    Memᴰ.head refl,
    All-mono (λ x. Memᴰ x ms) (λ x. Memᴰ x (m ∷ ms)) (λ x h. Memᴰ.tail h) ms (Memᴰ-All ms),
  )

  sweep_listed-allowed :
      (env8 : String) (before : List (Call S)) (a : Answer (List Managed))
      → docker before (list_managed env8) ≡ a
      → AllAllowed (list_managed env8 ∷ before)
      → AllAllowed (sweep_listed docker wanted env8 a (list_managed env8 ∷ before)).1
  unfolding Listed
  sweep_listed-allowed env8 before (answered ms) e all =
      remove_orphans-allowed env8 ms (list_managed env8 ∷ before)
        (All-mono (λ m. Memᴰ m ms) (Listed (list_managed env8 ∷ before))
          (λ m h. ([], before, env8, ms, refl, e, h)) ms (Memᴰ-All ms))
        all
  sweep_listed-allowed env8 before (refused msg) e all = all

  cleanup_all-allowed :
      (networks envs : List String) (calls : List (Call S))
      → AllAllowed calls
      → AllAllowed (cleanup_all docker wanted networks envs calls).1.1
  unfolding cleanup_all cleanup_env AllAllowed Allowed
  cleanup_all-allowed networks [] calls all = all
  cleanup_all-allowed networks (env8 ∷ envs) calls all =
      cleanup_all-allowed networks envs _
        (tt, sweep_listed-allowed env8 calls (docker calls (list_managed env8)) refl (tt, all))

  tear_down-allowed :
      (envs now_torn : List String) (calls : List (Call S))
      → ((e : String) → holds envs e ≡ true → holds offered e ≡ true)
      → ((e : String) → holds torn e ≡ true → holds now_torn e ≡ true)
      → AllAllowed calls
      → AllAllowed (tear_down docker envs now_torn calls).1.1
  unfolding tear_down AllAllowed Allowed
  tear_down-allowed [] now_torn calls sub grown all = all
  tear_down-allowed (env8 ∷ envs) now_torn calls sub grown all =
      elim (Bool-cases (holds now_torn env8)) [
        | inl done ↦
            rw (tear_down, done)
              (tear_down-allowed envs now_torn calls (λ e h. sub e (ground arith)) grown all)
        | inr new ↦
            rw (tear_down, new)
              (tear_down-allowed envs (torn_after env8 (docker calls (remove_env env8)) now_torn)
                (remove_env env8 ∷ calls) (λ e h. sub e (ground arith))
                (λ e h. still e (docker calls (remove_env env8)) (grown e h))
                (
                  (sub env8 (let self = (eq_iff env8 env8).1 refl in ground arith), not_before new),
                  all,
                ))
      ]
    where
      still :
          (e : String) (a : Answer (Unit {0}))
          → holds now_torn e ≡ true
          → holds (torn_after env8 a now_torn) e ≡ true
      still e (answered u) h = ground arith
      still e (refused msg) h = h

      not_before : holds now_torn env8 ≡ false → holds torn env8 ≡ false
      not_before new = elim (Bool-cases (holds torn env8)) [
        | inl was ↦ absurd (let now = grown env8 was in ground arith)
        | inr was_not ↦ was_not
      ]

-- In a pass of Reconcile every container that is removed is in Docker's answer to an earlier call of
-- the same pass that listed an environment's containers, is swappable and has no name of a desired
-- instance, and every environment that is torn down is offered for teardown and not recorded as torn
-- down when the pass starts.
pub reconcile_removes_orphans :
    {S : Type 0} (docker : DockerDriver S) (now : ℕ) (secrets : String → S) (offered : List String)
    (ordered : List DesiredInstance) (r : Reconciler)
    → AllAllowed docker
        (map container_name ordered)
        offered
        r.torn_down
        (reconcile_ordered docker now secrets offered ordered r).1.1
unfolding reconcile_ordered AllAllowed
reconcile_removes_orphans docker now secrets offered ordered r =
    let wanted = map container_name ordered in
    tear_down-allowed docker wanted offered r.torn_down offered r.torn_down _ (λ e h. h) (λ e h. h)
      (cleanup_all-allowed docker wanted offered r.torn_down
        (map (λ (d : DesiredInstance). d.project_name) ordered)
        (union r.known_envs (touched ordered)) _
        (ensure_all-allowed docker wanted offered r.torn_down now secrets ordered
          ([], r.first_running) tt))
