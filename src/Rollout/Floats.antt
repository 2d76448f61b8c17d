-- ===== src/Rollout/Floats.antt =====
-- The float64 operations that freeRatio and bestNode use, with the IEEE 754 facts about them.
use navarch.Prelude.{ℤ, pos, Bool, true, false, ◌≡◌, ltb_ℤ}

pub record Floats : Type 1 where
  pub F : Type 0
  pub of_int : ℤ → F
  pub one : F
  pub div : F → F → F
  pub fmin : F → F → F
  pub lt : F → F → Bool
  pub is_nan : F → Bool
  -- `<` is irreflexive and transitive, and every comparison with a NaN is false.
  pub lt_irrefl : (a : F) → lt a a ≡ false
  pub lt_trans : (a b c : F) → lt a b ≡ true → lt b c ≡ true → lt a c ≡ true
  -- Values that are not NaN and not ordered are interchangeable.
  pub lt_weak : (a b c : F) → is_nan b ≡ false → lt a b ≡ false → lt b c ≡ false → lt a c ≡ false
  pub one_not_nan : is_nan one ≡ false
  -- An integer over a positive integer is a number, and so is the smaller of two numbers.
  pub div_not_nan : (a b : ℤ) → ltb_ℤ (pos 0) b ≡ true → is_nan (div (of_int a) (of_int b)) ≡ false
  pub fmin_not_nan : (a b : F) → is_nan a ≡ false → is_nan b ≡ false → is_nan (fmin a b) ≡ false
