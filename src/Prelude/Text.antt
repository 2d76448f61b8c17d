-- ===== src/Prelude/Text.antt =====
-- The byte order of texts. UTF-8 keeps the order of the code points, so `sort.Strings` compares
-- the sequences of code points.
use Prim.Native.Nat.{ℕ}
use Prim.Native.Char.{code}
use Prim.Native.String.{String}
use mathlib.Core.Path.{◌≡◌, refl, ap₂}
use mathlib.Core.Logic.{◌⊎◌, inl, inr}
use mathlib.Core.Bool.{Bool, true, false}
use mathlib.Core.List.{List, [], ◌∷◌}
use native.Mathlib.Omega.{arith}
use text.Mathlib.TextEquality.{Char-path}
use navarch.Prelude.Tests.{ltb, ◌==◌, if◌then◌else◌}
use navarch.Prelude.Sort.{IsOrder}

abbrev pub codes : String → List ℕ
codes String.[] = []
codes (String.◌∷◌ c s) = code c ∷ codes s

pub lex_leb : List ℕ → List ℕ → Bool
lex_leb [] ys = true
lex_leb (x ∷ xs) [] = false
lex_leb (x ∷ xs) (y ∷ ys) = let rest = lex_leb xs ys in if x == y then rest else ltb x y

lex_total : (a b : List ℕ) → (lex_leb a b ≡ true) ⊎ (lex_leb b a ≡ true)
unfolding lex_leb
lex_total [] b = inl refl
lex_total (x ∷ xs) [] = inr refl
lex_total (x ∷ xs) (y ∷ ys) = ground (arith, lex_total xs ys)

lex_antisymm : (a b : List ℕ) → lex_leb a b ≡ true → lex_leb b a ≡ true → a ≡ b
unfolding lex_leb
lex_antisymm [] [] h k = refl
lex_antisymm [] (y ∷ ys) h k = cc
lex_antisymm (x ∷ xs) [] h k = cc
lex_antisymm (x ∷ xs) (y ∷ ys) h k = ground (arith, lex_antisymm xs ys)

lex_trans : (a b c : List ℕ) → lex_leb a b ≡ true → lex_leb b c ≡ true → lex_leb a c ≡ true
unfolding lex_leb
lex_trans [] b c h k = refl
lex_trans (x ∷ xs) [] c h k = cc
lex_trans (x ∷ xs) (y ∷ ys) [] h k = cc
lex_trans (x ∷ xs) (y ∷ ys) (z ∷ zs) h k = ground (arith, lex_trans xs ys zs)

codes_injective : (s t : String) → codes s ≡ codes t → s ≡ t
codes_injective String.[] String.[] e = refl
codes_injective String.[] (String.◌∷◌ d t) e = cc
codes_injective (String.◌∷◌ c s) String.[] e = cc
codes_injective (String.◌∷◌ c s) (String.◌∷◌ d t) e =
    ap₂ String.◌∷◌ (Char-path c d (cc)) (codes_injective s t (cc))

unfoldable pub str_leb : String → String → Bool
unfolding lex_leb
str_leb s t = lex_leb (codes s) (codes t)

pub str_leb-IsOrder : IsOrder str_leb
unfolding str_leb
str_leb-IsOrder = record {
  total = λ s t. lex_total (codes s) (codes t);
  antisymm = λ s t h k. codes_injective s t (lex_antisymm (codes s) (codes t) h k);
  trans = λ s t u. lex_trans (codes s) (codes t) (codes u);
}
