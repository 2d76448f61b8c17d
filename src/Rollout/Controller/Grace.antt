-- ===== src/Rollout/Controller/Grace.antt =====
-- The teardown grace: what a pass may delete, and what it remembers.
use navarch.Prelude.{
  ℕ, ◌+◌, ◌≡◌, ◌≢◌, refl, ◌∙◌, ap, Bool, true, false, List, [], ◌∷◌, ◌++◌, ◌||◌, ◌⊎◌, inl, inr, not,
  select, any, arith, ltb, ◌==◌, if◌then◌else◌, Bool-cases, Option-cases,
}
use navarch.Store.{Error, Deployment, ServiceInstance, Db, Result, ok, err, deployment_row}
use navarch.Store.Placement.{belongs_to, delete_instances}
use navarch.Rollout.Controller.Loop.{FirstTerminal, first_seen, teardown, teardown_all}

-- The instance rows of one deployment.
abbrev pub own : ℕ → Db → List ServiceInstance
own dep db = select (belongs_to dep) db.instances

clash : {b : Bool} → b ≡ true → b ≡ false → ⊥
clash p q = cc

select_other :
    (dep k : ℕ) (rows : List ServiceInstance)
    → k ≢ dep
    → select (belongs_to dep) (select (λ r. not (belongs_to k r)) rows)
      ≡ select (belongs_to dep) rows
select_other dep k [] n = refl
select_other dep k (r ∷ rs) n = ground (arith, select_other dep k rs n)

delete-own :
    (k dep : ℕ) (db : Db) (r : Unit {0} × Db)
    → k ≢ dep
    → delete_instances k db ≡ ok r
    → own dep r.1 ≡ own dep db
unfolding delete_instances
delete-own k dep db r n h = elim (Option-cases (deployment_row db k)) [
  | inl m ↦ absurd (ground arith)
  | inr (d, at) ↦
      let left : r.1.instances ≡ select (λ x. not (belongs_to k x)) db.instances = ground arith in
      ap (select (belongs_to dep)) left ∙ select_other dep k db.instances n
]

Result-cases {ℓ} :
    {A : Type ℓ} (r : Result A) → ((a : A) × (r ≡ ok a)) ⊎ ((e : Error) × (r ≡ err e))
Result-cases (ok a) = inl (a, refl)
Result-cases (err e) = inr (e, refl)

teardown-own :
    (clock grace : ℕ) (m : FirstTerminal) (k dep : ℕ) (db : Db)
    → ltb clock (first_seen clock dep m + grace) ≡ true
    → own dep (teardown clock grace m k db).1 ≡ own dep db
unfolding teardown
teardown-own clock grace m k dep db h =
    elim (Bool-cases (ltb clock (first_seen clock k m + grace))) [
      | inl early ↦ rw early refl
      | inr late ↦ elim (Result-cases (delete_instances k db)) [
        | inl (r, e) ↦ rw (late, e) (delete-own k dep db r (apart k late) e)
        | inr (x, e) ↦ rw (late, e) refl
      ]
    ]
  where
    apart : (k : ℕ) → ltb clock (first_seen clock k m + grace) ≡ false → k ≢ dep
    apart k late same =
        clash (ap (λ (i : ℕ). ltb clock (first_seen clock i m + grace)) same ∙ h) late

teardown_all-own :
    (clock grace : ℕ) (m : FirstTerminal) (dep : ℕ) (ds : List Deployment) (db : Db)
    → ltb clock (first_seen clock dep m + grace) ≡ true
    → own dep (teardown_all clock grace m ds db).1 ≡ own dep db
unfolding teardown_all
teardown_all-own clock grace m dep [] db h = refl
teardown_all-own clock grace m dep (d ∷ ds) db h =
    teardown_all-own clock grace m dep ds _ h ∙ teardown-own clock grace m d.id dep db h

teardown-seen :
    (clock grace : ℕ) (m : FirstTerminal) (k dep later : ℕ) (db : Db) (rest : FirstTerminal)
    → ltb clock (first_seen clock dep m + grace) ≡ true
    → first_seen later dep ((teardown clock grace m k db).0 ++ rest)
      ≡ (if k == dep then first_seen clock dep m else first_seen later dep rest)
unfolding teardown first_seen
teardown-seen clock grace m k dep later db rest h = elim (Bool-cases (k == dep)) [
  | inl hit ↦
      let same : k ≡ dep = ground arith in
      let early : ltb clock (first_seen clock k m + grace) ≡ true =
        ap (λ (i : ℕ). ltb clock (first_seen clock i m + grace)) same ∙ h in
      rw (early, hit) (ap (λ (i : ℕ). first_seen clock i m) same)
  | inr miss ↦ elim (Bool-cases (ltb clock (first_seen clock k m + grace))) [
    | inl early ↦ rw (early, miss) refl
    | inr late ↦ elim (Result-cases (delete_instances k db)) [
      | inl (r, e) ↦ rw (late, e, miss) refl
      | inr (x, e) ↦ rw (late, e, miss) refl
    ]
  ]
]

teardown_all-seen :
    (clock grace : ℕ) (m : FirstTerminal) (dep later : ℕ) (ds : List Deployment) (db : Db)
    → ltb clock (first_seen clock dep m + grace) ≡ true
    → any (λ (d : Deployment). d.id == dep) ds ≡ true
    → first_seen later dep (teardown_all clock grace m ds db).0 ≡ first_seen clock dep m
unfolding teardown_all
teardown_all-seen clock grace m dep later [] db h e = cc
teardown_all-seen clock grace m dep later (d ∷ ds) db h e =
    teardown-seen clock grace m d.id dep later db _ h
    ∙ pick (d.id == dep) e (λ k. teardown_all-seen clock grace m dep later ds _ h k)
  where
    pick :
        {A : Type 0} {x y : A} (b : Bool)
        → (b || any (λ (x : Deployment). x.id == dep) ds) ≡ true
        → (any (λ (x : Deployment). x.id == dep) ds ≡ true → x ≡ y)
        → (if b then y else x) ≡ y
    pick true e f = refl
    pick false e f = f e

-- While less than the grace has passed since a deployment was first seen terminal, a teardown
-- pass that lists it deletes none of its instances, and the next pass, at any clock reading,
-- measures from that same moment.
pub grace_holds :
    (clock grace later : ℕ) (m : FirstTerminal) (dep : ℕ) (ds : List Deployment) (db : Db)
    → ltb clock (first_seen clock dep m + grace) ≡ true
    → any (λ (d : Deployment). d.id == dep) ds ≡ true
    → (own dep (teardown_all clock grace m ds db).1 ≡ own dep db)
      × (first_seen later dep (teardown_all clock grace m ds db).0 ≡ first_seen clock dep m)
grace_holds clock grace later m dep ds db h e = (
  teardown_all-own clock grace m dep ds db h,
  teardown_all-seen clock grace m dep later ds db h e,
)
