-- ===== src/Agent/Reconcile/Teardown.antt =====
-- What Reconcile does for each environment: a teardown or an orphan that it misses is reported.
use text.Mathlib.Text.{◌==◌ as str_eq}
use text.Mathlib.TextEquality.{eq_iff}
use navarch.Prelude.{
  ℕ, ◌≡◌, sym, subst, String, Bool, true, false, List, [], ◌∷◌, ◌++◌, any, arith, Bool-cases, inl,
  inr, ◌⊎◌, select, ltb, length,
}
use navarch.Agent.Docker.{
  DesiredInstance, Answer, answered, refused, Call, remove_env, DockerDriver,
}
use navarch.Agent.Reconcile.{
  teardown, network_cleanup, EnvFailure, Reconciler, holds, tear_down, tear_failure, torn_after,
  forget_swept, reconcile_ordered, cleaned, torn,
}

-- A failed teardown of the environment.
abbrev pub reports_teardown : String → List EnvFailure → Bool
reports_teardown env8 fs =
    any (λ (f : EnvFailure). elim f.op [ teardown ↦ str_eq f.env8 env8 | network_cleanup ↦ false ])
      fs

any-append :
    {A : Type 0} (p : A → Bool) (xs ys : List A) → any p ys ≡ true → any p (xs ++ ys) ≡ true
any-append p [] ys h = h
any-append p (x ∷ xs) ys h = ground (arith, any-append p xs ys h)

any-append_left :
    {A : Type 0} (p : A → Bool) (xs ys : List A) → any p xs ≡ true → any p (xs ++ ys) ≡ true
any-append_left p [] ys h = cc
any-append_left p (x ∷ xs) ys h = ground (arith, any-append_left p xs ys)

-- Of the names of one list only those in another are kept.
holds-select :
    (l m : List String) (e : String)
    → holds l e ≡ true
    → holds m e ≡ true
    → holds (select (holds m) l) e ≡ true
holds-select [] m e h k = cc
holds-select (x ∷ l) m e h k = elim (Bool-cases (str_eq x e)) [
  | inl same ↦
      let inside = subst (λ y. holds m y ≡ true) (sym ((eq_iff x e).0 same)) k in ground arith
  | inr other ↦ let rest = holds-select l m e (ground arith) k in ground arith
]

module _ {S : Type 0} (docker : DockerDriver S) where
  -- The environment is torn down, or its failure is among the reported.
  Handled : String → List EnvFailure → List String → Type 0
  Handled e fs torn = (holds torn e ≡ true) ⊎ (reports_teardown e fs ≡ true)

  tear_down-keeps :
      (envs torn : List String) (calls : List (Call S)) (e : String)
      → holds torn e ≡ true
      → holds (tear_down docker envs torn calls).1.0 e ≡ true
  unfolding tear_down
  tear_down-keeps [] torn calls e h = h
  tear_down-keeps (x ∷ envs) torn calls e h = elim (Bool-cases (holds torn x)) [
    | inl done ↦ rw (tear_down, done) (tear_down-keeps envs torn calls e h)
    | inr new ↦
        rw (tear_down, new) (tear_down-keeps envs _ _ e (still (docker calls (remove_env x))))
  ]
    where
      still : (a : Answer (Unit {0})) → holds (torn_after x a torn) e ≡ true
      still (answered u) = ground arith
      still (refused msg) = h

  tear_down-Handled :
      (envs torn : List String) (calls : List (Call S)) (e : String)
      → holds envs e ≡ true
      → Handled e (tear_down docker envs torn calls).0 (tear_down docker envs torn calls).1.0
  unfolding tear_down Handled
  tear_down-Handled [] torn calls e h = cc
  tear_down-Handled (x ∷ envs) torn calls e h = elim (Bool-cases (holds torn x)) [
    | inl done ↦ elim (Bool-cases (str_eq x e)) [
      | inl same ↦ inl (
          tear_down-keeps (x ∷ envs) torn calls e
            (subst (λ y. holds torn y ≡ true) ((eq_iff x e).0 same) done))
      | inr other ↦ rw (tear_down, done) (tear_down-Handled envs torn calls e (ground arith))
    ]
    | inr new ↦ elim (Bool-cases (str_eq x e)) [
      | inl same ↦ rw (tear_down, new) (first (docker calls (remove_env x)) ((eq_iff x e).0 same))
      | inr other ↦
          rw (tear_down, new)
            (elim (tear_down-Handled envs (torn_after x (docker calls (remove_env x)) torn)
              (remove_env x ∷ calls) e (ground arith)) [
                | inl k ↦ inl k
                | inr k ↦ inr (any-append _ (tear_failure x (docker calls (remove_env x))) _ k)
              ])
    ]
  ]
    where
      first :
          (a : Answer (Unit {0}))
          → x ≡ e
          → Handled e
              (tear_failure x a
                ++ (tear_down docker envs (torn_after x a torn) (remove_env x ∷ calls)).0)
              (tear_down docker envs (torn_after x a torn) (remove_env x ∷ calls)).1.0
      first (answered u) same = inl (
          tear_down-keeps envs (x ∷ torn) (remove_env x ∷ calls) e
            (let self = (eq_iff x e).1 same in ground arith))
      first (refused msg) same = inr (let self = (eq_iff x e).1 same in ground arith)

  -- Forgetting keeps what is still offered.
  forget_swept-holds :
      (offered torn : List String) (e : String)
      → holds offered e ≡ true
      → holds torn e ≡ true
      → holds (forget_swept offered torn) e ≡ true
  forget_swept-holds offered torn e o h = elim (Bool-cases (ltb (length offered) (length torn))) [
    | inl more ↦ rw more (holds-select torn offered e h o)
    | inr few ↦ rw few h
  ]

  -- After a pass of Reconcile, every environment that is offered for teardown is recorded as torn
  -- down, or its failed teardown is among the reported failures.
  pub reconcile_tears_down :
      (now : ℕ) (secrets : String → S) (offered : List String) (ordered : List DesiredInstance)
      (r : Reconciler) (env8 : String)
      → holds offered env8 ≡ true
      → (holds (reconcile_ordered docker now secrets offered ordered r).1.0.torn_down env8 ≡ true)
        ⊎ (reports_teardown env8 (reconcile_ordered docker now secrets offered ordered r).0.1
            ≡ true)
  unfolding reconcile_ordered Handled
  reconcile_tears_down now secrets offered ordered r env8 h =
      elim (tear_down-Handled offered r.torn_down (cleaned docker now secrets ordered r).1.1 env8
        h) [
          | inl k ↦
              inl (
                forget_swept-holds offered (torn docker now secrets offered ordered r).1.0 env8 h k)
          | inr k ↦ inr (
              any-append _ (cleaned docker now secrets ordered r).0
                (torn docker now secrets offered ordered r).0 k)
        ]
