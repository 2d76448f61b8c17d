-- ===== src/Parser/Errors.antt =====
-- internal/parser/errors.go, and the tests of the parser as a table: each test that fires gives its
-- error, in the order of the source.
use Prim.Native.String.{◌++◌ as cat}
use text.Mathlib.Text.{◌==◌ as str_eq}
use navarch.Prelude.{
  ◌≡◌, refl, String, Bool, true, false, not, List, [], ◌∷◌, ◌++◌, All, arith, if◌then◌else◌,
  Bool-cases, inl, inr,
}

pub record ValidationError : Type 0 where
  pub on : String
  pub message : String

-- if test { errs = append(errs, ValidationError{on, message}) }
pub record Check : Type 0 where
  pub fires : Bool
  pub on : String
  pub message : String

abbrev pub check : Bool → String → String → Check
check b on message = record { fires = b; on = on; message = message }

unfoldable pub collect : List Check → List ValidationError
collect [] = []
collect (c ∷ cs) =
    let rest = collect cs in
    if c.fires then record { on = c.on; message = c.message } ∷ rest else rest

-- "services." + name + "." + f
abbrev pub dotted : String → String → String
dotted name f = cat "services." (cat name (cat "." f))

-- s != "" and len(l) > 0
abbrev pub is_set : String → Bool
is_set s = not (str_eq s "")

abbrev pub is_filled {ℓ} : {A : Type ℓ} → List A → Bool
is_filled [] = false
is_filled (x ∷ xs) = true

pub collect-nil : (cs : List Check) → collect cs ≡ [] → All (λ (c : Check). c.fires ≡ false) cs
unfolding collect
collect-nil [] h = tt
collect-nil (c ∷ cs) h = elim (Bool-cases c.fires) [
  | inl fired ↦ absurd (ground arith)
  | inr quiet ↦ (quiet, collect-nil cs (ground arith))
]

pub append-nil {ℓ} : {A : Type ℓ} (xs ys : List A) → xs ++ ys ≡ [] → (xs ≡ []) × (ys ≡ [])
append-nil [] ys h = (refl, h)
append-nil (x ∷ xs) ys h = absurd (ground arith)
