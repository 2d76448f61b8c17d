-- ===== src/Rollout/Scheduler/Best.antt =====
-- bestNode chooses the optimum of that order, so the order of the rows does not matter.
use navarch.Prelude.{
  ℕ, ℤ, Bool, true, false, Option, none, some, List, [], ◌∷◌, ◌≡◌, refl, sym, ◌∙◌, ◌⊎◌, inl, inr,
  Bool-cases, subst, ap,
}
use mathlib.Core.List.{Memᴰ, Permᴰ}
use mathlib.Core.List.Memᴰ
use mathlib.Core.List.Permᴰ
use native.Mathlib.Decide.{ℕ_discrete as dec_eq}
use navarch.Rollout.Floats.{Floats}
use navarch.Store.{Node}
use navarch.Rollout.Scheduler.{fits, prefers, consider, best_from, best_node}
use navarch.Rollout.Scheduler.Order.{prefers_asymm, prefers_weak, prefers_total, prefers_irrefl}

some_inj : {A : Type 0} {x y : A} → some x ≡ some y → x ≡ y
some_inj e = cc

none-some : {A : Type 0} {x : A} → none ≡ some x → ⊥
none-some e = cc

clash {ℓ} : {A : Type ℓ} {b : Bool} → b ≡ true → b ≡ false → A
clash p q = absurd (subst (λ b. elim b as (λ _. Type 0) [ true ↦ Unit | false ↦ ⊥ ]) (sym p ∙ q) tt)

-- Permᴰ.mem without the truncation.
perm_mem : {A : Type 0} {a : A} {l₁ l₂ : List A} → Permᴰ l₁ l₂ → Memᴰ a l₁ → Memᴰ a l₂
perm_mem Permᴰ.nil m = m
perm_mem (Permᴰ.cons e p) (Memᴰ.head f) = Memᴰ.head (f ∙ e)
perm_mem (Permᴰ.cons e p) (Memᴰ.tail m) = Memᴰ.tail (perm_mem p m)
perm_mem (Permᴰ.swap e f) (Memᴰ.head g) = Memᴰ.tail (Memᴰ.head (g ∙ e))
perm_mem (Permᴰ.swap e f) (Memᴰ.tail (Memᴰ.head g)) = Memᴰ.head (g ∙ f)
perm_mem (Permᴰ.swap e f) (Memᴰ.tail (Memᴰ.tail m)) = Memᴰ.tail (Memᴰ.tail m)
perm_mem (Permᴰ.trans p q) m = perm_mem q (perm_mem p m)

module _ (fl : Floats) (homed : ℕ → ℕ) (peak_cpu peak_mem : ℤ) where
  -- b is the best of a candidate and of the rows.
  record Beats (best : Option Node) (ns : List Node) (b : Node) : Type 0 where
    source : (best ≡ some b) ⊎ (Memᴰ b ns × (fits fl peak_cpu peak_mem b ≡ true))
    over_rows :
        (x : Node) → Memᴰ x ns → fits fl peak_cpu peak_mem x ≡ true → prefers fl homed x b ≡ false
    over_best : (y : Node) → best ≡ some y → prefers fl homed y b ≡ false

  -- What one row of the loop does to the best node.
  consider-some :
      (best : Option Node) (n : Node)
      → fits fl peak_cpu peak_mem n ≡ true
      → (b : Node) × (consider fl homed peak_cpu peak_mem best n ≡ some b)
        × ((b ≡ n) ⊎ (best ≡ some b))
        × (prefers fl homed n b ≡ false)
        × ((y : Node) → best ≡ some y → prefers fl homed y b ≡ false)
  unfolding consider
  consider-some none n f = (n, rw f refl, inl refl, prefers_irrefl fl homed n, λ y e. cc)
  consider-some (some y) n f = elim (Bool-cases (prefers fl homed n y)) [
    | inl p ↦ (
      n,
      rw f rw p refl,
      inl refl,
      prefers_irrefl fl homed n,
      λ z e. subst (λ w. prefers fl homed w n ≡ false) (some_inj e) (prefers_asymm fl homed n y p),
    )
    | inr p ↦ (
      y,
      rw f rw p refl,
      inr refl,
      p,
      λ z e. subst (λ w. prefers fl homed w y ≡ false) (some_inj e) (prefers_irrefl fl homed y),
    )
  ]

  consider-skip :
      (best : Option Node) (n : Node)
      → fits fl peak_cpu peak_mem n ≡ false
      → consider fl homed peak_cpu peak_mem best n ≡ best
  unfolding consider
  consider-skip best n f = rw f refl

  best_from-Beats :
      (best : Option Node) (ns : List Node) (b : Node)
      → best_from fl homed peak_cpu peak_mem best ns ≡ some b
      → Beats best ns b
  unfolding best_from
  best_from-Beats best [] b h = record {
    source = inl h;
    over_rows = λ x m. absurd (Memᴰ.not-nil m);
    over_best = λ y e.
        subst (λ w. prefers fl homed w b ≡ false) (some_inj (sym h ∙ e))
          (prefers_irrefl fl homed b);
  }
  best_from-Beats best (n ∷ ns) b h = elim (Bool-cases (fits fl peak_cpu peak_mem n)) [
    | inl f ↦
        let c = consider-some best n f in
        let i = best_from-Beats (consider fl homed peak_cpu peak_mem best n) ns b h in
        record {
          source = elim i.source [
            | inl e ↦ elim c.2 [
              | inl e2 ↦ inr (
                Memᴰ.head (some_inj (sym e ∙ c.1) ∙ e2),
                subst (λ w. fits fl peak_cpu peak_mem w ≡ true) (sym (some_inj (sym e ∙ c.1) ∙ e2))
                    f,
              )
              | inr e2 ↦ inl (e2 ∙ sym c.1 ∙ e)
            ]
            | inr m ↦ inr (Memᴰ.tail m.0, m.1)
          ];
          over_rows = λ x m g. elim (Memᴰ.cases_cons m) [
            | inl e ↦
                prefers_weak fl homed x c.0 b
                  (subst (λ w. prefers fl homed w c.0 ≡ false) (sym e) c.3) (i.over_best c.0 c.1)
            | inr m ↦ i.over_rows x m g
          ];
          over_best = λ y e. prefers_weak fl homed y c.0 b (c.4 y e) (i.over_best c.0 c.1);
        }
    | inr f ↦
        let i = best_from-Beats best ns b (
          subst (λ w. best_from fl homed peak_cpu peak_mem w ns ≡ some b) (consider-skip best n f)
            h) in
        record {
          source = elim i.source [ inl e ↦ inl e | inr m ↦ inr (Memᴰ.tail m.0, m.1) ];
          over_rows = λ x m g. elim (Memᴰ.cases_cons m) [
            | inl e ↦ clash g (subst (λ w. fits fl peak_cpu peak_mem w ≡ false) (sym e) f)
            | inr m ↦ i.over_rows x m g
          ];
          over_best = i.over_best;
        }
  ]

  -- From some best node the loop ends with one.
  best_from-keeps :
      (b : Node) (ns : List Node)
      → (c : Node) × (best_from fl homed peak_cpu peak_mem (some b) ns ≡ some c)
  unfolding best_from
  best_from-keeps b [] = (b, refl)
  best_from-keeps b (n ∷ ns) = elim (Bool-cases (fits fl peak_cpu peak_mem n)) [
    | inl f ↦
        let c = consider-some (some b) n f in
        let i = best_from-keeps c.0 ns in
        (i.0, ap (λ w. best_from fl homed peak_cpu peak_mem w ns) c.1 ∙ i.1)
    | inr f ↦
        let i = best_from-keeps b ns in
        (
          i.0,
          ap (λ w. best_from fl homed peak_cpu peak_mem w ns) (consider-skip (some b) n f) ∙ i.1,
        )
  ]

  best_from-none :
      (ns : List Node)
      → best_from fl homed peak_cpu peak_mem none ns ≡ none
      → (x : Node) → Memᴰ x ns
      → fits fl peak_cpu peak_mem x ≡ false
  unfolding best_from
  best_from-none [] h x m = absurd (Memᴰ.not-nil m)
  best_from-none (n ∷ ns) h x m = elim (Bool-cases (fits fl peak_cpu peak_mem n)) [
    | inl f ↦
        let c = consider-some none n f in
        let i = best_from-keeps c.0 ns in
        absurd (none-some (sym h ∙ ap (λ w. best_from fl homed peak_cpu peak_mem w ns) c.1 ∙ i.1))
    | inr f ↦ elim (Memᴰ.cases_cons m) [
      | inl e ↦ subst (λ w. fits fl peak_cpu peak_mem w ≡ false) (sym e) f
      | inr k ↦
          best_from-none ns
            (subst (λ w. best_from fl homed peak_cpu peak_mem w ns ≡ none) (consider-skip none n f)
              h)
            x k
    ]
  ]

  -- The best choice: a row that fits and that no row that fits is preferred to, or no row fits.
  unfoldable pub IsBest : List Node → Option Node → Type 0
  IsBest ns none = (x : Node) → Memᴰ x ns → fits fl peak_cpu peak_mem x ≡ false
  IsBest ns (some b) =
      Memᴰ b ns
      × (fits fl peak_cpu peak_mem b ≡ true)
      × ((x : Node) → Memᴰ x ns → fits fl peak_cpu peak_mem x ≡ true → prefers fl homed x b ≡ false)

  best_from-IsBest :
      (ns : List Node) (o : Option Node)
      → best_from fl homed peak_cpu peak_mem none ns ≡ o
      → IsBest ns o
  unfolding IsBest
  best_from-IsBest ns none e = best_from-none ns e
  best_from-IsBest ns (some b) e =
      let i = best_from-Beats none ns b e in
      elim i.source [ inl e2 ↦ absurd (none-some e2) | inr (m, f) ↦ (m, f, i.over_rows) ]

  -- The chosen node is one of the nodes, fits the rollout, and no node that fits is preferred to
  -- it; when none is chosen, no node fits.
  pub best_node_optimal : (ns : List Node) → IsBest ns (best_node fl ns homed peak_cpu peak_mem)
  unfolding best_node
  best_node_optimal ns = best_from-IsBest ns _ refl

  IsBest-unique :
      (ns : List Node)
      → ((a b : Node) → Memᴰ a ns → Memᴰ b ns → a.id ≡ b.id → a ≡ b)
      → (o p : Option Node) → IsBest ns o
      → IsBest ns p
      → o ≡ p
  unfolding IsBest
  IsBest-unique ns d none none h k = refl
  IsBest-unique ns d none (some b) h k = clash k.1 (h b k.0)
  IsBest-unique ns d (some a) none h k = clash h.1 (k a h.0)
  IsBest-unique ns d (some a) (some b) h k = elim (dec_eq a.id b.id) [
    | yes e ↦ ap some (d a b h.0 k.0 e)
    | no f ↦ elim (prefers_total fl homed a b f) [
      | inl p ↦ clash p (k.2 a h.0 h.1)
      | inr p ↦ clash p (h.2 b k.0 k.1)
    ]
  ]

  IsBest-perm : (ns ms : List Node) (o : Option Node) → Permᴰ ns ms → IsBest ns o → IsBest ms o
  unfolding IsBest
  IsBest-perm ns ms none p h = λ x m. h x (perm_mem (Permᴰ.symm p) m)
  IsBest-perm ns ms (some b) p h = (perm_mem p h.0, h.1, λ x m. h.2 x (perm_mem (Permᴰ.symm p) m))

  -- When no two different nodes share an id, the choice does not depend on the order of the nodes.
  pub best_node_perm :
      (ns ms : List Node)
      → Permᴰ ns ms
      → ((a b : Node) → Memᴰ a ms → Memᴰ b ms → a.id ≡ b.id → a ≡ b)
      → best_node fl ns homed peak_cpu peak_mem ≡ best_node fl ms homed peak_cpu peak_mem
  best_node_perm ns ms p d =
      IsBest-unique ms d _ _ (IsBest-perm ns ms _ p (best_node_optimal ns)) (best_node_optimal ms)
