-- ===== src/Parser/Graph/Result.antt =====
-- The whole of findCycle: the loop over the names, from no colour at all.
use mathlib.Core.List.{Permᴰ}
use text.Mathlib.Text.{◌==◌ as str_eq}
use text.Mathlib.TextEquality.{eq_iff}
use navarch.Prelude.{
  ℕ, suc, ◌≤◌, ◌≡◌, refl, sym, ap, ◌∙◌, subst, String, Bool, true, Option, none, some, List, [],
  ◌∷◌, arith, map, Bool-cases, inl, inr, ◌⊎◌, length, count_if, sort_by-perm, length-sort_by,
  str_leb,
}
use navarch.Spec.{DeploymentSpec, Service, GoMap, lookup, keys, service_names}
use navarch.Parser.Graph.{
  white, grey, black, Walk, Visit, found, finished, exhausted, colour_of, depends_of, is_service,
  visit, visit_names, visit_white, start, find_cycle,
}
use navarch.Parser.Graph.Steps.{contains, Depends, left_of, left_of-black, whites, is_white}
use navarch.Parser.Graph.Order.{
  IsCycle, IsChain, IsTopological, Reaches, step, along, IsTopological-acyclic,
}
use navarch.Parser.Graph.Keeps.{
  Colour-cases, IsSound, Gives, Keeps-refl, Keeps-IsSound, Keeps-whites, Gives-mono, Gives-and_then,
}
use navarch.Parser.Graph.Visits.{Works, visit-Works}

contains-perm : (n : String) {l m : List String} → Permᴰ l m → contains l n ≡ contains m n
contains-perm n Permᴰ.nil = refl
contains-perm n (Permᴰ.cons e p) = rw (e, contains-perm n p) refl
contains-perm n (Permᴰ.swap e f) = rw (e, f) (ground arith)
contains-perm n (Permᴰ.trans p q) = contains-perm n p ∙ contains-perm n q

contains-keys :
    {V : Type 0} (n : String) (m : GoMap V) (v : V)
    → lookup n m ≡ some v
    → contains (keys m) n ≡ true
unfolding lookup
contains-keys n [] v h = cc
contains-keys n ((k, u) ∷ m) v h = ground (arith, contains-keys n m v)

length-map {ℓ κ} : {A : Type ℓ} {B : Type κ} (f : A → B) (l : List A) → length (map f l) ≡ length l
length-map f [] = refl
length-map f (x ∷ l) = ap suc (length-map f l)

count_if-length : (p : String → Bool) (l : List String) → count_if p l ≤ length l
count_if-length p [] = omega arith
count_if-length p (x ∷ l) = ground (arith, count_if-length p l)

module _ (s : DeploymentSpec) where
  pub known : (n : String) → is_service s n ≡ true → contains (service_names s) n ≡ true
  unfolding is_service service_names
  known n h = elim (Option-of (lookup n s.services)) [
    | inl e ↦ absurd (ground arith)
    | inr (v, e) ↦
        contains-perm n (sort_by-perm str_leb (keys s.services)) ∙ contains-keys n s.services v e
  ]
    where
      Option-of : {A : Type 0} (o : Option A) → (o ≡ none) ⊎ ((a : A) × (o ≡ some a))
      Option-of none = inl refl
      Option-of (some a) = inr (a, refl)

  -- The names still to visit, from a walk that is between two visits.
  unfoldable pub Covers : List String → Walk → Type 0
  Covers ns w = (n : String) → contains ns n ≡ true → contains (left_of w.color) n ≡ true

  visit_white-white :
      (fuel : ℕ) (n : String) (w : Walk)
      → colour_of n w.color ≡ white
      → visit_white fuel s n w ≡ visit fuel s n w
  unfolding visit_white
  visit_white-white fuel n w h = rw (visit_white, h) refl

  visit_white-grey :
      (fuel : ℕ) (n : String) (w : Walk)
      → colour_of n w.color ≡ grey
      → visit_white fuel s n w ≡ finished w
  unfolding visit_white
  visit_white-grey fuel n w h = rw (visit_white, h) refl

  visit_white-black :
      (fuel : ℕ) (n : String) (w : Walk)
      → colour_of n w.color ≡ black
      → visit_white fuel s n w ≡ finished w
  unfolding visit_white
  visit_white-black fuel n w h = rw (visit_white, h) refl

  one_name :
      (fuel : ℕ) (n : String) (w : Walk)
      → contains (service_names s) n ≡ true
      → IsSound s (service_names s) w
      → w.path ≡ []
      → whites (service_names s) w.color ≤ fuel
      → Gives s
          (service_names s)
          w
          (λ v. contains (left_of v.color) n ≡ true)
          (visit_white fuel s n w)
  unfolding Gives Works
  one_name fuel n w m i e le = elim (Colour-cases (colour_of n w.color)) [
    | inl h ↦ subst (Gives s (service_names s) w _) (sym (visit_white-white fuel n w h)) (
        visit-Works s (service_names s) known fuel n w m h i (subst (λ p. IsChain s p n) (sym e) tt)
          le)
    | inr (inl h) ↦ absurd (no_grey_here (i.greys n h))
    | inr (inr h) ↦
        subst (Gives s (service_names s) w _) (sym (visit_white-black fuel n w h))
          (Keeps-refl s (service_names s) w i, left_of-black n w.color h)
  ]
    where
      no_grey_here : contains w.path n ≡ true → ⊥
      no_grey_here h = let empty = ap (λ p. contains p n) e in cc

  all_names :
      (fuel : ℕ) (ns : List String) (w : Walk)
      → ((n : String) → contains ns n ≡ true → contains (service_names s) n ≡ true)
      → IsSound s (service_names s) w
      → w.path ≡ []
      → whites (service_names s) w.color ≤ fuel
      → Gives s (service_names s) w (Covers ns) (visit_names fuel s ns w)
  unfolding Gives Covers visit_names
  all_names fuel [] w m i e le = (Keeps-refl s (service_names s) w i, λ n h. absurd (ground arith))
  all_names fuel (n ∷ ns) w m i e le =
      Gives-and_then s (service_names s) w _ _ (visit_white fuel s n w)
        (λ v. visit_names fuel s ns v)
        (λ u k here.
          Gives-mono s (service_names s) u _ _ (visit_names fuel s ns u)
            (λ v l rest d h. elim (Bool-cases (str_eq n d)) [
              | inl same ↦
                  l.grows d
                    (subst (λ x. contains (left_of u.color) x ≡ true) ((eq_iff n d).0 same) here)
              | inr other ↦ rest d (ground arith)
            ])
            (all_names fuel ns u (λ d h. m d (ground arith))
              (Keeps-IsSound s (service_names s) w u i k) (k.same_path ∙ e)
              (omega (arith, Keeps-whites s (service_names s) w u k, le))))
        (one_name fuel n w (m n (ground (arith, (eq_iff n n).1 refl))) i e le)

  -- A dependency starts at a service.
  Depends-is_service : (a b : String) → Depends s a b → is_service s a ≡ true
  unfolding depends_of is_service
  Depends-is_service a b d = elim (Bool-cases (is_service s a)) [
    | inl e ↦ e
    | inr e ↦ absurd (ground arith)
  ]

  -- What an outcome says of the dependencies: a closed chain of them, or an order with every
  -- service, its dependencies behind it, so that no service reaches itself.
  unfoldable pub Decides : Visit → Type 0
  Decides (found c) = IsCycle s c
  Decides (finished w) =
      (IsTopological s (left_of w.color) × Covers (service_names s) w)
      × ((a : String) → ¬ Reaches s a a)
  Decides exhausted = ⊥

  start-IsSound : IsSound s (service_names s) start
  unfolding colour_of left_of
  start-IsSound = record { greys = λ d h. cc; ordered = tt }

  Gives-Decides :
      (v : Visit) → Gives s (service_names s) start (Covers (service_names s)) v → Decides v
  unfolding Gives Decides Covers
  Gives-Decides (found c) g = g
  Gives-Decides (finished w) g = (
    (g.0.in_order, g.1),
    λ a r.
        IsTopological-acyclic s (left_of w.color) g.0.in_order a (g.1 a (known a (starts a r))) r,
  )
    where
      starts : (a : String) → Reaches s a a → is_service s a ≡ true
      starts a (step d) = Depends-is_service a _ d
      starts a (along d r) = Depends-is_service a _ d
  Gives-Decides exhausted g = g

  -- findCycle's result decides the question: what it returns is a closed chain of dependencies; when
  -- it returns nothing, the services were left in an order with each one's dependencies behind it,
  -- all services are in it, and none depends on itself along any chain.
  pub find_cycle-Decides : Decides (find_cycle s)
  unfolding find_cycle service_names
  find_cycle-Decides = Gives-Decides _ (
      all_names (length s.services) (service_names s) start (λ n h. h) start-IsSound refl
        (omega (
          arith,
          count_if-length (λ n. is_white (colour_of n start.color)) (service_names s),
          length-sort_by str_leb (keys s.services),
          length-map (λ (p : String × Service). p.0) s.services,
        )))
