-- ===== src/Rollout/Scheduler/Order.antt =====
-- The preference of bestNode's switch as a strict weak order.
use navarch.Prelude.{ℕ, ℤ, pos, ltb_ℤ, true, false, arith, ◌≡◌, ◌≢◌, ◌⊎◌, inl, inr, Bool-cases}
use navarch.Rollout.Floats.{Floats}
use navarch.Store.{Node}
use navarch.Rollout.Scheduler.{fraction, free_ratio, replaces, prefers}

module _ (fl : Floats) where
  open fl use {F, lt, is_nan, lt_irrefl, lt_trans, lt_weak, div_not_nan, one_not_nan, fmin_not_nan}

  fraction_not_nan : (free capacity : ℤ) → is_nan (fraction fl free capacity) ≡ false
  unfolding fraction
  fraction_not_nan free capacity = elim (Bool-cases (ltb_ℤ (pos 0) capacity)) [
    | inl h ↦ rw h (div_not_nan free capacity h)
    | inr h ↦ rw h one_not_nan
  ]

  free_ratio_not_nan : (n : Node) → is_nan (free_ratio fl n) ≡ false
  unfolding free_ratio
  free_ratio_not_nan n = fmin_not_nan _ _ (fraction_not_nan _ _) (fraction_not_nan _ _)

  replaces_trans :
      (ha ia hb ib hc ic : ℕ) (fa fb fc : F)
      → is_nan fa ≡ false
      → is_nan fb ≡ false
      → is_nan fc ≡ false
      → replaces fl ha fa ia hb fb ib ≡ true
      → replaces fl hb fb ib hc fc ic ≡ true
      → replaces fl ha fa ia hc fc ic ≡ true
  unfolding replaces
  replaces_trans ha ia hb ib hc ic fa fb fc na nb nc p q = ground (
    arith,
    lt_trans fc fb fa,
    lt_weak fb fc fa,
    lt_weak fc fa fb,
    lt_weak fa fb fc,
    lt_weak fa fc fb,
    lt_weak fc fb fa,
    lt_weak fb fa fc,
  )

  replaces_asymm :
      (ha ia hb ib : ℕ) (fa fb : F)
      → replaces fl ha fa ia hb fb ib ≡ true
      → replaces fl hb fb ib ha fa ia ≡ false
  unfolding replaces
  replaces_asymm ha ia hb ib fa fb p = ground (arith, lt_trans fa fb fa, lt_irrefl fa)

  replaces_total :
      (ha ia hb ib : ℕ) (fa fb : F)
      → ia ≢ ib
      → (replaces fl ha fa ia hb fb ib ≡ true) ⊎ (replaces fl hb fb ib ha fa ia ≡ true)
  unfolding replaces
  replaces_total ha ia hb ib fa fb p = ground (arith)

  -- Not being preferred is transitive too.
  replaces_weak :
      (ha ia hb ib hc ic : ℕ) (fa fb fc : F)
      → is_nan fa ≡ false
      → is_nan fb ≡ false
      → is_nan fc ≡ false
      → replaces fl ha fa ia hb fb ib ≡ false
      → replaces fl hb fb ib hc fc ic ≡ false
      → replaces fl ha fa ia hc fc ic ≡ false
  unfolding replaces
  replaces_weak ha ia hb ib hc ic fa fb fc na nb nc p q = ground (
    arith,
    lt_trans fa fb fc,
    lt_trans fa fc fb,
    lt_trans fb fa fc,
    lt_trans fb fc fa,
    lt_trans fc fa fb,
    lt_trans fc fb fa,
    lt_weak fb fc fa,
    lt_weak fc fa fb,
    lt_weak fa fb fc,
    lt_weak fa fc fb,
    lt_weak fc fb fa,
    lt_weak fb fa fc,
  )

  module _ (homed : ℕ → ℕ) where
    pub prefers_asymm : (a b : Node) → prefers fl homed a b ≡ true → prefers fl homed b a ≡ false
    unfolding prefers
    prefers_asymm a b p = replaces_asymm (homed a.id) a.id (homed b.id) b.id _ _ p

    pub prefers_weak :
        (a b c : Node)
        → prefers fl homed a b ≡ false
        → prefers fl homed b c ≡ false
        → prefers fl homed a c ≡ false
    unfolding prefers
    prefers_weak a b c p q =
        replaces_weak (homed a.id) a.id (homed b.id) b.id (homed c.id) c.id _ _ _
          (free_ratio_not_nan a) (free_ratio_not_nan b) (free_ratio_not_nan c) p q

    pub prefers_total :
        (a b : Node) → a.id ≢ b.id → (prefers fl homed a b ≡ true) ⊎ (prefers fl homed b a ≡ true)
    unfolding prefers
    prefers_total a b p = replaces_total (homed a.id) a.id (homed b.id) b.id _ _ p

    pub prefers_irrefl : (a : Node) → prefers fl homed a a ≡ false
    prefers_irrefl a = elim (Bool-cases (prefers fl homed a a)) [
      | inl h ↦ prefers_asymm a a h
      | inr h ↦ h
    ]
