-- ===== src/Agent/Order/Sorted.antt =====
-- topoGroup starts every dependency before the services that need it.
use text.Mathlib.Text.{◌==◌ as str_eq}
use text.Mathlib.TextEquality.{eq_iff}
use navarch.Prelude.{
  ℕ, zero, suc, ◌≤◌, ◌<◌, ◌≡◌, refl, ap, ◌∙◌, subst, String, true, false, not, Option, some, List,
  [], ◌∷◌, ◌++◌, length, arith, Bool-cases, Option-cases, inl, inr, ◌⊎◌,
}
use navarch.Agent.Docker.{DesiredInstance}
use navarch.Agent.Order.{
  by_name, Sorting, has_entered, follow_deps, enter_name, visit, visit_all, unsorted, sorted_out,
  topo_group,
}
use navarch.Agent.Order.Names.{
  names, fresh, contains, Follows, IsOrdered, by_name-named, by_name-none, by_name-some, names-snoc,
  count-le, fresh-enter, entered-enter, nothing, then_one,
}

module _ (group : List DesiredInstance) where
  -- What a visit keeps: the order of what is out, and every name that it entered is out.
  record Kept (st next : Sorting) : Type 0 where
    ordered : IsOrdered group next.out
    grows : (n : String) → names st.out n ≡ true → names next.out n ≡ true
    closed :
        (n : String)
        → has_entered n next ≡ true
        → (names next.out n ≡ true) ⊎ (has_entered n st ≡ true)
    keeps : (n : String) → has_entered n st ≡ true → has_entered n next ≡ true

  Kept-refl : (st : Sorting) → IsOrdered group st.out → Kept st st
  Kept-refl st o = record { ordered = o; grows = λ n h. h; closed = λ n h. inr h; keeps = λ n h. h }

  Kept-trans : (a b c : Sorting) → Kept a b → Kept b c → Kept a c
  Kept-trans a b c k l = record {
    ordered = l.ordered;
    grows = λ n h. l.grows n (k.grows n h);
    closed = λ n h. elim (l.closed n h) [
      | inl o ↦ inl o
      | inr e ↦ elim (k.closed n e) [ inl o ↦ inl (l.grows n o) | inr f ↦ inr f ]
    ];
    keeps = λ n h. l.keeps n (k.keeps n h);
  }

  Kept-fresh : (a b : Sorting) → Kept a b → fresh group b ≤ fresh group a
  Kept-fresh a b k =
      count-le (λ (di : DesiredInstance). not (has_entered di.service_name b))
        (λ (di : DesiredInstance). not (has_entered di.service_name a)) group
        (λ x h. let e = k.keeps x.service_name in ground arith)

  -- The instance is appended once its dependencies are out.
  Kept-append :
      (name : String) (di : DesiredInstance) (st next : Sorting)
      → str_eq di.service_name name ≡ true
      → Kept (enter_name name st) next
      → Follows group next.out di
      → Kept st (record next { out = next.out ++ di ∷ [] })
  Kept-append name di st next named k f = record {
    ordered = then_one next.out di k.ordered f;
    grows = λ n h. let g = k.grows n h in names-snoc next.out di n ∙ ground arith;
    closed = λ n h. elim (k.closed n h) [
      | inl o ↦ inl (names-snoc next.out di n ∙ ground arith)
      | inr e ↦ elim (entered-enter name n st e) [
        | inl same ↦ inl (
            names-snoc next.out di n
            ∙ (let here =
                  subst (λ x. str_eq di.service_name x ≡ true) ((eq_iff name n).0 same) named in
                ground arith))
        | inr old ↦ inr old
      ]
    ];
    keeps = λ n h. k.keeps n (ground arith);
  }

  module _ (rank : String → ℕ)
      (acyclic : (n d : String) (di : DesiredInstance)
        → by_name n group ≡ some di
        → contains di.service.depends d ≡ true
        → names group d ≡ true
        → rank d < rank n) where
    -- What was entered and is not out yet needs the current service.
    Above : ℕ → Sorting → Type 0
    Above r st = (e : String) → has_entered e st ≡ true → (names st.out e ≡ true) ⊎ (r ≤ rank e)

    Kept-Above : (r : ℕ) (a b : Sorting) → Kept a b → Above r a → Above r b
    unfolding Above
    Kept-Above r a b k h e entered = elim (k.closed e entered) [
      | inl o ↦ inl o
      | inr old ↦ elim (h e old) [ inl o ↦ inl (k.grows e o) | inr le ↦ inr le ]
    ]

    Above-mono : (r q : ℕ) (st : Sorting) → q ≤ r → Above r st → Above q st
    unfolding Above
    Above-mono r q st le h e entered = elim (h e entered) [
      | inl o ↦ inl o
      | inr k ↦ inr (omega (arith, le, k))
    ]

    -- A result, with its claim.
    Yields : Sorting → (Sorting → Type 0) → Option Sorting → Type 0
    Yields st claim o = (next : Sorting) × ((o ≡ some next) × (Kept st next × claim next))

    Visits : ℕ → (String → Sorting → Option Sorting) → Type 0
    Visits fuel rec =
        (name : String) (st : Sorting)
        → names group name ≡ true
        → IsOrdered group st.out
        → Above (suc (rank name)) st
        → fresh group st < fuel
        → Yields st (λ next. names next.out name ≡ true) (rec name st)

    follow_deps_lem :
        (fuel r : ℕ) (rec : String → Sorting → Option Sorting)
        → Visits fuel rec
        → (deps : List String) (st : Sorting)
        → ((d : String) → contains deps d ≡ true → names group d ≡ true → rank d < r)
        → IsOrdered group st.out
        → Above r st
        → fresh group st < fuel
        → Yields st
            (λ next.
              (d : String)
              → contains deps d ≡ true
              → names group d ≡ true
              → names next.out d ≡ true)
            (follow_deps rec group deps st)
    unfolding follow_deps Yields Visits
    follow_deps_lem fuel r rec v [] st low o a lt =
        (st, (refl, (Kept-refl st o, λ d h. absurd (ground arith))))
    follow_deps_lem fuel r rec v (dep ∷ deps) st low o a lt =
        elim (Option-cases (by_name dep group)) [
          | inl e ↦
              let absent = by_name-none dep group e in
              let (next, (is_next, (k, all))) =
                follow_deps_lem fuel r rec v deps st (λ d h. low d (ground arith)) o a lt in
              (
                next,
                (
                  rw (follow_deps, e) is_next,
                  (
                    k,
                    λ d h n. elim (Bool-cases (str_eq dep d)) [
                      | inl same ↦ absurd (
                          let gone =
                            subst (λ x. names group x ≡ false) ((eq_iff dep d).0 same) absent in
                          cc)
                      | inr other ↦ all d (ground arith) n
                    ],
                  ),
                ),
              )
          | inr (di, e) ↦
              let there = by_name-some dep group di e in
              let under = low dep (let self = (eq_iff dep dep).1 refl in ground arith) there in
              let (mid, (is_mid, (k, here))) =
                v dep st there o (Above-mono r (suc (rank dep)) st (omega (arith, under)) a) lt in
              let (next, (is_next, (l, all))) =
                follow_deps_lem fuel r rec v deps mid (λ d h. low d (ground arith)) k.ordered
                  (Kept-Above r st mid k a) (omega (arith, Kept-fresh st mid k, lt)) in
              (
                next,
                (
                  rw (follow_deps, e, is_mid) is_next,
                  (
                    Kept-trans st mid next k l,
                    λ d h n. elim (Bool-cases (str_eq dep d)) [
                      | inl same ↦
                          l.grows d
                            (subst (λ x. names mid.out x ≡ true) ((eq_iff dep d).0 same) here)
                      | inr other ↦ all d (ground arith) n
                    ],
                  ),
                ),
              )
        ]

    enter-Above :
        (name : String) (st : Sorting)
        → Above (suc (rank name)) st
        → Above (rank name) (enter_name name st)
    unfolding Above
    enter-Above name st a e entered = elim (entered-enter name e st entered) [
      | inl same ↦ inr (let r = ap rank ((eq_iff name e).0 same) in omega (arith, r))
      | inr old ↦ elim (a e old) [ inl o ↦ inl o | inr le ↦ inr (omega (arith, le)) ]
    ]

    visit-entered :
        (fuel : ℕ) (name : String) (st : Sorting)
        → has_entered name st ≡ true
        → visit (suc fuel) group name st ≡ some st
    unfolding visit
    visit-entered fuel name st e = rw (visit, e) refl

    visit-new :
        (fuel : ℕ) (name : String) (st next : Sorting) (di : DesiredInstance)
        → has_entered name st ≡ false
        → by_name name group ≡ some di
        → follow_deps (visit fuel group) group di.service.depends (enter_name name st) ≡ some next
        → visit (suc fuel) group name st ≡ some (record next { out = next.out ++ di ∷ [] })
    unfolding visit
    visit-new fuel name st next di e at_name f = rw (visit, e, at_name, f) refl

    visit-Visits : (fuel : ℕ) → Visits fuel (visit fuel group)
    unfolding Visits Yields Above
    visit-Visits zero name st there o a lt = absurd (omega (arith, lt))
    visit-Visits (suc fuel) name st there o a lt = elim (Bool-cases (has_entered name st)) [
      | inl e ↦ (
        st,
        (
          visit-entered fuel name st e,
          (Kept-refl st o, elim (a name e) [ inl out ↦ out | inr le ↦ absurd (omega (arith, le)) ]),
        ),
      )
      | inr e ↦ elim (Option-cases (by_name name group)) [
        | inl none_there ↦ absurd (let gone = by_name-none name group none_there in cc)
        | inr (di, at_name) ↦
            let smaller = fresh-enter name st group e there in
            let (next, (is_next, (k, all))) =
              follow_deps_lem fuel (rank name) (visit fuel group) (visit-Visits fuel)
                di.service.depends (enter_name name st) (λ d h n. acyclic name d di at_name h n) o
                (enter-Above name st a) (omega (arith, smaller, lt)) in
            let named = by_name-named name group di at_name in
            (
              record next { out = next.out ++ di ∷ [] },
              (
                visit-new fuel name st next di e at_name is_next,
                (
                  Kept-append name di st next named k all,
                  names-snoc next.out di name ∙ ground (arith, named),
                ),
              ),
            )
      ]
    ]

    -- Between two calls of the loop every entered name is out.
    visit_all_lem :
        (fuel : ℕ) (rest : List DesiredInstance) (st : Sorting)
        → ((n : String) → names rest n ≡ true → names group n ≡ true)
        → IsOrdered group st.out
        → ((e : String) → has_entered e st ≡ true → names st.out e ≡ true)
        → fresh group st < fuel
        → Yields st
            (λ next. (n : String) → names rest n ≡ true → names next.out n ≡ true)
            (visit_all fuel group rest st)
    unfolding visit_all Yields Visits Above
    visit_all_lem fuel [] st m o a lt = (st, (refl, (Kept-refl st o, λ n h. absurd (ground arith))))
    visit_all_lem fuel (di ∷ rest) st m o a lt =
        let there =
          m di.service_name
            (let self = (eq_iff di.service_name di.service_name).1 refl in ground arith) in
        let (mid, (is_mid, (k, here))) =
          visit-Visits fuel di.service_name st there o (λ e h. inl (a e h)) lt in
        let (next, (is_next, (l, all))) =
          visit_all_lem fuel rest mid (λ n h. m n (ground arith)) k.ordered
            (λ e h. elim (k.closed e h) [ inl out ↦ out | inr old ↦ k.grows e (a e old) ])
            (omega (arith, Kept-fresh st mid k, lt)) in
        (
          next,
          (
            rw (visit_all, is_mid) is_next,
            (
              Kept-trans st mid next k l,
              λ n h. elim (Bool-cases (str_eq di.service_name n)) [
                | inl same ↦
                    l.grows n
                      (subst (λ x. names mid.out x ≡ true) ((eq_iff di.service_name n).0 same) here)
                | inr other ↦ all n (ground arith)
              ],
            ),
          ),
        )

    fresh_bound : (l : List DesiredInstance) (st : Sorting) → fresh l st ≤ length l
    fresh_bound [] st = omega arith
    fresh_bound (x ∷ l) st = ground (arith, fresh_bound l st)

    -- When the services' dependencies descend along some rank, topoGroup's fuel is enough, every
    -- name of the group is in what it returns, and in it each service stands behind all of its
    -- dependencies that the group has.
    pub topo_group-IsOrdered :
        (out : List DesiredInstance) × ((topo_group group ≡ some out)
          × (IsOrdered group out × ((n : String) → names group n ≡ true → names out n ≡ true)))
    unfolding topo_group Yields
    topo_group-IsOrdered =
        let (next, (is_next, (k, all))) =
          visit_all_lem (suc (length group)) group unsorted (λ n h. h) nothing
            (λ e h. absurd (ground arith)) (omega (arith, fresh_bound group unsorted)) in
        (next.out, (ap sorted_out is_next, (k.ordered, all)))
