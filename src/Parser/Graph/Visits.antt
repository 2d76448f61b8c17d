-- ===== src/Parser/Graph/Visits.antt =====
-- What each outcome of a visit means, and that the fuel of findCycle is enough.
use text.Mathlib.Text.{◌==◌ as str_eq}
use text.Mathlib.TextEquality.{eq_iff}
use navarch.Prelude.{
  ℕ, zero, suc, ◌≤◌, ◌≡◌, refl, sym, subst, String, true, false, List, [], ◌∷◌, arith, Bool-cases,
  inl, inr,
}
use navarch.Spec.{DeploymentSpec}
use navarch.Parser.Graph.{
  white, grey, black, Walk, Visit, found, finished, exhausted, colour_of, enter, leave, cycle_at,
  depends_of, is_service, follow, follow_all, visit, and_then,
}
use navarch.Parser.Graph.Steps.{contains, left_of, left_of-black, whites}
use navarch.Parser.Graph.Order.{IsChain, AllIn, cycle_at-IsCycle}
use navarch.Parser.Graph.Keeps.{
  Colour-cases, IsSound, Gives, Keeps-refl, Keeps-IsSound, Keeps-whites, enter-whites,
  enter-IsSound, leave-Keeps, enter-IsChain, leave-left, visit-suc, Gives-mono, Gives-and_then,
}

module _ (s : DeploymentSpec) (names : List String) where
  module _ (known : (n : String) → is_service s n ≡ true → contains names n ≡ true) where
    -- A visit works where at most `bound` services are white.
    unfoldable pub Works : ℕ → (String → Walk → Visit) → Type 0
    Works bound rec =
        (n : String) (w : Walk)
        → contains names n ≡ true
        → colour_of n w.color ≡ white
        → IsSound s names w
        → IsChain s w.path n
        → whites names w.color ≤ bound
        → Gives s names w (λ v. contains (left_of v.color) n ≡ true) (rec n w)

    module _ (bound : ℕ) (rec : String → Walk → Visit) (works : Works bound rec) where
      follow-out :
          (dep : String) (w : Walk) → is_service s dep ≡ false → follow rec s dep w ≡ finished w
      unfolding follow
      follow-out dep w out = rw (follow, out) refl

      follow-white :
          (dep : String) (w : Walk)
          → is_service s dep ≡ true
          → colour_of dep w.color ≡ white
          → follow rec s dep w ≡ rec dep w
      unfolding follow
      follow-white dep w there e = rw (follow, there, e) refl

      follow-grey :
          (dep : String) (w : Walk)
          → is_service s dep ≡ true
          → colour_of dep w.color ≡ grey
          → follow rec s dep w ≡ found (cycle_at dep w.path)
      unfolding follow
      follow-grey dep w there e = rw (follow, there, e) refl

      follow-black :
          (dep : String) (w : Walk)
          → is_service s dep ≡ true
          → colour_of dep w.color ≡ black
          → follow rec s dep w ≡ finished w
      unfolding follow
      follow-black dep w there e = rw (follow, there, e) refl

      Follows : String → Walk → Visit → Type 0
      Follows dep w v =
          Gives s names w (λ u. is_service s dep ≡ true → contains (left_of u.color) dep ≡ true) v

      follow_lem :
          (dep : String) (w : Walk)
          → IsSound s names w
          → (is_service s dep ≡ true → IsChain s w.path dep)
          → whites names w.color ≤ bound
          → Follows dep w (follow rec s dep w)
      unfolding Gives Works Follows
      follow_lem dep w i chain le = elim (Bool-cases (is_service s dep)) [
        | inl there ↦ elim (Colour-cases (colour_of dep w.color)) [
          | inl e ↦ subst (Follows dep w) (sym (follow-white dep w there e)) (
              Gives-mono s names w _ _ (rec dep w) (λ u k h x. h)
                (works dep w (known dep there) e i (chain there) le))
          | inr (inl e) ↦
              subst (Follows dep w) (sym (follow-grey dep w there e))
                (cycle_at-IsCycle s dep w.path (chain there) (i.greys dep e))
          | inr (inr e) ↦
              subst (Follows dep w) (sym (follow-black dep w there e))
                (Keeps-refl s names w i, λ x. left_of-black dep w.color e)
        ]
        | inr out ↦
            subst (Follows dep w) (sym (follow-out dep w out)) (Keeps-refl s names w i, λ x. cc)
      ]

      -- All the dependencies of a service on the path.
      FollowsAll : List String → Walk → Visit → Type 0
      FollowsAll deps w v =
          Gives s names w
            (λ u.
              (d : String)
              → contains deps d ≡ true
              → is_service s d ≡ true
              → contains (left_of u.color) d ≡ true)
            v

      follow_all_lem :
          (deps : List String) (w : Walk)
          → IsSound s names w
          → ((d : String) → contains deps d ≡ true → is_service s d ≡ true → IsChain s w.path d)
          → whites names w.color ≤ bound
          → FollowsAll deps w (follow_all rec s deps w)
      unfolding follow_all FollowsAll Gives Follows
      follow_all_lem [] w i chain le = (Keeps-refl s names w i, λ d h. absurd (ground arith))
      follow_all_lem (dep ∷ deps) w i chain le =
          Gives-and_then s names w _ _ (follow rec s dep w) (λ v. follow_all rec s deps v)
            (λ u k at_dep.
              Gives-mono s names u _ _ (follow_all rec s deps u)
                (λ v l rest d h there. elim (Bool-cases (str_eq dep d)) [
                  | inl same ↦
                      let here =
                        at_dep (
                          subst (λ x. is_service s x ≡ true) (sym ((eq_iff dep d).0 same)) there) in
                      l.grows d (
                        subst (λ x. contains (left_of u.color) x ≡ true) ((eq_iff dep d).0 same)
                          here)
                  | inr other ↦ rest d (ground arith) there
                ])
                (follow_all_lem deps u (Keeps-IsSound s names w u i k)
                  (λ d h there.
                    subst (λ p. IsChain s p d) (sym k.same_path) (chain d (ground arith) there))
                  (omega (arith, Keeps-whites s names w u k, le))))
            (follow_lem dep w i (chain dep (ground (arith, (eq_iff dep dep).1 refl))) le)

    -- The call for one service: enough fuel is as much as there are white services.
    leave_lem :
        (n : String) (w : Walk) (v : Visit)
        → colour_of n w.color ≡ white
        → Gives s names (enter n w) (λ u. AllIn (left_of u.color) s n) v
        → Gives s names w
            (λ u. contains (left_of u.color) n ≡ true)
            (and_then v (λ u. finished (leave n u)))
    unfolding Gives and_then
    leave_lem n w (found c) h g = g
    leave_lem n w (finished u) h g = (leave-Keeps s names n w u h g.0 g.1, leave-left s names n u)
    leave_lem n w exhausted h g = g

    pub visit-Works : (fuel : ℕ) → Works fuel (visit fuel s)
    unfolding Works Gives FollowsAll
    visit-Works zero n w m h i c le = absurd (omega (arith, enter-whites s names n w m h, le))
    visit-Works (suc fuel) n w m h i c le =
        let lt = enter-whites s names n w m h in
        subst (Gives s names w _) (sym (visit-suc s names fuel n w)) (
          leave_lem n w _ h (
            Gives-mono s names (enter n w) _ _ _ (λ u k all d e. all d e.0 e.1)
              (follow_all_lem fuel (visit fuel s) (visit-Works fuel) (depends_of s n) (enter n w)
                (enter-IsSound s names n w i)
                (λ d e there. enter-IsChain s names n w d c (e, there)) (omega (arith, lt, le)))))
