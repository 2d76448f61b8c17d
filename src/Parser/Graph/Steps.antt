-- ===== src/Parser/Graph/Steps.antt =====
-- The log of colours and the path of findCycle: what entering and leaving a service does to them.
use text.Mathlib.Text.{◌==◌ as str_eq}
use text.Mathlib.TextEquality.{eq_iff}
use navarch.Prelude.{
  ℕ, ◌≤◌, ◌<◌, ◌≡◌, refl, ap, ◌∙◌, String, Bool, true, false, List, [], ◌∷◌, ◌++◌, arith, count_if,
  Bool-cases, inl, inr, any,
}
use navarch.Spec.{DeploymentSpec}
use navarch.Parser.Graph.{Colour, white, grey, black, colour_of, drop_last, depends_of, is_service}

-- Membership in a list of names.
abbrev pub contains : List String → String → Bool
contains l n = any (λ m. str_eq m n) l

-- A dependency on a service that is there.
abbrev pub Depends : DeploymentSpec → String → String → Type 0
Depends s a b = (contains (depends_of s a) b ≡ true) × (is_service s b ≡ true)

-- The services that were left, the last one first.
unfoldable pub left_of : List (String × Colour) → List String
left_of [] = []
left_of ((n, black) ∷ log) = n ∷ left_of log
left_of ((n, c) ∷ log) = left_of log

pub contains-snoc :
    (l : List String) (n m : String) → contains l m ≡ true → contains (l ++ n ∷ []) m ≡ true
contains-snoc [] n m h = cc
contains-snoc (x ∷ l) n m h = ground (arith, contains-snoc l n m)

pub contains-last : (l : List String) (n : String) → contains (l ++ n ∷ []) n ≡ true
contains-last [] n = ground (arith, (eq_iff n n).1 refl)
contains-last (x ∷ l) n = ground (arith, contains-last l n)

pub drop_last-snoc : (l : List String) (n : String) → drop_last (l ++ n ∷ []) ≡ l
unfolding drop_last
drop_last-snoc [] n = refl
drop_last-snoc (x ∷ []) n = refl
drop_last-snoc (x ∷ y ∷ l) n = ap (λ r. x ∷ r) (drop_last-snoc (y ∷ l) n)

-- What is black was left.
pub left_of-black :
    (n : String) (log : List (String × Colour))
    → colour_of n log ≡ black
    → contains (left_of log) n ≡ true
unfolding colour_of left_of
left_of-black n [] h = absurd (ground arith)
left_of-black n ((m, black) ∷ log) h = ground (arith, left_of-black n log)
left_of-black n ((m, white) ∷ log) h = ground (arith, left_of-black n log)
left_of-black n ((m, grey) ∷ log) h = ground (arith, left_of-black n log)

-- The number of services that no visit has entered.
abbrev pub is_white : Colour → Bool
is_white white = true
is_white c = false

abbrev pub whites : List String → List (String × Colour) → ℕ
unfolding colour_of
whites names log = count_if (λ n. is_white (colour_of n log)) names

-- Fewer names pass a stronger test, and still fewer when one of them fails it.
pub count_if-le :
    (p q : String → Bool) (l : List String)
    → ((n : String) → p n ≡ true → q n ≡ true)
    → count_if p l ≤ count_if q l
count_if-le p q [] h = omega arith
count_if-le p q (x ∷ l) h = ground (arith, h x, count_if-le p q l h)

pub count_if-lt :
    (p q : String → Bool) (l : List String) (m : String)
    → ((n : String) → p n ≡ true → q n ≡ true)
    → contains l m ≡ true
    → q m ≡ true
    → p m ≡ false
    → count_if p l < count_if q l
count_if-lt p q [] m h c qm pm = absurd (ground arith)
count_if-lt p q (x ∷ l) m h c qm pm = elim (Bool-cases (str_eq x m)) [
  | inl e ↦
      let xm = (eq_iff x m).0 e in
      let qx = ap q xm ∙ qm in let px = ap p xm ∙ pm in ground (arith, qx, px, count_if-le p q l h)
  | inr ne ↦ ground (arith, h x, ne, c, count_if-lt p q l m h)
]
