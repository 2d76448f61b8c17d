-- ===== src/Parser/Graph/Keeps.antt =====
-- What a call of visit keeps of a walk, and what each of its outcomes means.
use text.Mathlib.Text.{◌==◌ as str_eq}
use text.Mathlib.TextEquality.{eq_iff}
use navarch.Prelude.{
  ℕ, suc, ◌≤◌, ◌<◌, ◌≡◌, refl, sym, ap, ◌∙◌, subst, String, true, false, List, [], ◌∷◌, ◌++◌, arith,
  Bool-cases, inl, inr, ◌⊎◌,
}
use navarch.Spec.{DeploymentSpec}
use navarch.Parser.Graph.{
  Colour, white, grey, black, Walk, Visit, found, finished, exhausted, colour_of, enter, leave,
  drop_last, depends_of, follow_all, visit, and_then,
}
use navarch.Parser.Graph.Steps.{
  contains, Depends, left_of, contains-snoc, contains-last, drop_last-snoc, is_white, whites,
  count_if-le, count_if-lt,
}
use navarch.Parser.Graph.Order.{IsChain, IsCycle, IsTopological, AllIn, IsChain-snoc}

pub Colour-cases : (c : Colour) → (c ≡ white) ⊎ ((c ≡ grey) ⊎ (c ≡ black))
Colour-cases white = inl refl
Colour-cases grey = inr (inl refl)
Colour-cases black = inr (inr refl)

module _ (s : DeploymentSpec) (names : List String) where
  -- The grey services are those of the path, and what was left is in order.
  pub record IsSound (w : Walk) : Type 0 where
    pub greys : (d : String) → colour_of d w.color ≡ grey → contains w.path d ≡ true
    pub ordered : IsTopological s (left_of w.color)

  -- What a call that returns false keeps: the path, and the services that it has seen.
  pub record Keeps (w v : Walk) : Type 0 where
    pub same_path : v.path ≡ w.path
    pub no_grey : (d : String) → colour_of d v.color ≡ grey → colour_of d w.color ≡ grey
    pub no_white : (d : String) → colour_of d v.color ≡ white → colour_of d w.color ≡ white
    pub grows :
        (d : String) → contains (left_of w.color) d ≡ true → contains (left_of v.color) d ≡ true
    pub in_order : IsTopological s (left_of v.color)

  -- A cycle is found, or the walk goes on with the claim; fuel does not run out.
  unfoldable pub Gives : Walk → (Walk → Type 0) → Visit → Type 0
  Gives w claim (found c) = IsCycle s c
  Gives w claim (finished v) = Keeps w v × claim v
  Gives w claim exhausted = ⊥

  pub Keeps-refl : (w : Walk) → IsSound w → Keeps w w
  Keeps-refl w i = record {
    same_path = refl;
    no_grey = λ d h. h;
    no_white = λ d h. h;
    grows = λ d h. h;
    in_order = i.ordered;
  }

  pub Keeps-trans : (u v w : Walk) → Keeps u v → Keeps v w → Keeps u w
  Keeps-trans u v w k l = record {
    same_path = l.same_path ∙ k.same_path;
    no_grey = λ d h. k.no_grey d (l.no_grey d h);
    no_white = λ d h. k.no_white d (l.no_white d h);
    grows = λ d h. l.grows d (k.grows d h);
    in_order = l.in_order;
  }

  pub Keeps-IsSound : (w v : Walk) → IsSound w → Keeps w v → IsSound v
  Keeps-IsSound w v i k = record {
    greys = λ d h. subst (λ p. contains p d ≡ true) (sym k.same_path) (i.greys d (k.no_grey d h));
    ordered = k.in_order;
  }

  is_white_iff : (c : Colour) → is_white c ≡ true → c ≡ white
  is_white_iff white h = refl
  is_white_iff grey h = cc
  is_white_iff black h = cc

  pub Keeps-whites : (w v : Walk) → Keeps w v → whites names v.color ≤ whites names w.color
  unfolding colour_of
  Keeps-whites w v k =
      count_if-le _ _ names
        (λ n h. ap is_white (k.no_white n (is_white_iff (colour_of n v.color) h)))

  white_before :
      (n d : String) (c : Colour) (log : List (String × Colour))
      → is_white c ≡ false
      → colour_of d ((n, c) ∷ log) ≡ white
      → colour_of d log ≡ white
  unfolding colour_of
  white_before n d c log e h = elim (Bool-cases (str_eq n d)) [
    | inl same ↦ absurd (ground arith)
    | inr other ↦ ground arith
  ]

  -- Entering a white service leaves fewer of them.
  pub enter-whites :
      (n : String) (w : Walk)
      → contains names n ≡ true
      → colour_of n w.color ≡ white
      → whites names (enter n w).color < whites names w.color
  unfolding enter colour_of
  enter-whites n w c h =
      count_if-lt _ _ names n
        (λ m e.
          ap is_white (
            white_before n m grey w.color refl
              (is_white_iff (colour_of m ((n, grey) ∷ w.color)) e)))
        c (ap is_white h) (rw ((eq_iff n n).1 refl) refl)

  pub enter-IsSound : (n : String) (w : Walk) → IsSound w → IsSound (enter n w)
  unfolding enter colour_of left_of
  enter-IsSound n w i = record {
    greys = λ d h. elim (Bool-cases (str_eq n d)) [
      | inl same ↦
          subst (λ x. contains (w.path ++ n ∷ []) x ≡ true) ((eq_iff n d).0 same)
            (contains-last w.path n)
      | inr other ↦ contains-snoc w.path n d (i.greys d (ground arith))
    ];
    ordered = i.ordered;
  }

  -- A visit from the entry to the exit of its service.
  pub leave-Keeps :
      (n : String) (w v : Walk)
      → colour_of n w.color ≡ white
      → Keeps (enter n w) v
      → AllIn (left_of v.color) s n
      → Keeps w (leave n v)
  unfolding enter leave colour_of left_of
  leave-Keeps n w v h k a = record {
    same_path = ap drop_last k.same_path ∙ drop_last-snoc w.path n;
    no_grey = λ d e. elim (Bool-cases (str_eq n d)) [
      | inl same ↦ absurd (ground arith)
      | inr other ↦ let g = k.no_grey d (ground arith) in ground arith
    ];
    no_white = λ d e.
        white_before n d grey w.color refl (k.no_white d (white_before n d black v.color refl e));
    grows = λ d e. let inside = k.grows d e in ground (arith, inside);
    in_order = (a, k.in_order);
  }

  pub enter-IsChain :
      (n : String) (w : Walk) (d : String)
      → IsChain s w.path n
      → Depends s n d
      → IsChain s (enter n w).path d
  unfolding enter
  enter-IsChain n w d c e = IsChain-snoc s n d w.path c e

  pub leave-left : (n : String) (w : Walk) → contains (left_of (leave n w).color) n ≡ true
  unfolding leave left_of
  leave-left n w = ground (arith, (eq_iff n n).1 refl)

  pub visit-suc :
      (fuel : ℕ) (n : String) (w : Walk)
      → visit (suc fuel) s n w
        ≡ and_then
            (follow_all (visit fuel s) s (depends_of s n) (enter n w))
            (λ v. finished (leave n v))
  unfolding visit
  visit-suc fuel n w = refl

  pub Gives-mono :
      (w : Walk) (P Q : Walk → Type 0) (v : Visit)
      → ((u : Walk) → Keeps w u → P u → Q u)
      → Gives w P v
      → Gives w Q v
  unfolding Gives
  Gives-mono w P Q (found c) f g = g
  Gives-mono w P Q (finished u) f g = (g.0, f u g.0 g.1)
  Gives-mono w P Q exhausted f g = g

  Gives-trans : (w u : Walk) (Q : Walk → Type 0) (v : Visit) → Keeps w u → Gives u Q v → Gives w Q v
  unfolding Gives
  Gives-trans w u Q (found c) k g = g
  Gives-trans w u Q (finished v) k g = (Keeps-trans w u v k g.0, g.1)
  Gives-trans w u Q exhausted k g = g

  pub Gives-and_then :
      (w : Walk) (P Q : Walk → Type 0) (v : Visit) (k : Walk → Visit)
      → ((u : Walk) → Keeps w u → P u → Gives u Q (k u))
      → Gives w P v
      → Gives w Q (and_then v k)
  unfolding Gives and_then
  Gives-and_then w P Q (found c) k f g = g
  Gives-and_then w P Q (finished u) k f g = Gives-trans w u Q (k u) g.0 (f u g.0 g.1)
  Gives-and_then w P Q exhausted k f g = g
