-- ===== src/Agent/Order/Names.antt =====
-- The names of a group, and what topoGroup has entered and put out.
use text.Mathlib.Text.{◌==◌ as str_eq}
use text.Mathlib.TextEquality.{eq_iff}
use navarch.Prelude.{
  ℕ, ◌≤◌, ◌<◌, ◌≡◌, refl, sym, subst, String, Bool, true, false, not, ◌||◌, none, some, List, [],
  ◌∷◌, ◌++◌, any, count_if, arith, Bool-cases, Option-cases, inl, inr, ◌⊎◌,
}
use navarch.Agent.Docker.{DesiredInstance}
use navarch.Agent.Order.{by_name, Sorting, has_entered, enter_name}

-- An instance of that name is in the list.
abbrev pub names : List DesiredInstance → String → Bool
names l n = any (λ (di : DesiredInstance). str_eq di.service_name n) l

-- The instances whose names visit has not entered.
abbrev pub fresh : List DesiredInstance → Sorting → ℕ
fresh group st = count_if (λ (di : DesiredInstance). not (has_entered di.service_name st)) group

abbrev pub contains : List String → String → Bool
contains l d = any (λ n. str_eq n d) l

-- Every dependency that the group has stands before its instance, or is in `before`.
abbrev pub Follows : List DesiredInstance → List DesiredInstance → DesiredInstance → Type 0
Follows group before di =
    (d : String)
    → contains di.service.depends d ≡ true
    → names group d ≡ true
    → names before d ≡ true

pub data IsOrdered (group : List DesiredInstance) : List DesiredInstance → Type 0 where
  nothing : IsOrdered group []
  then_one :
      (l : List DesiredInstance) (di : DesiredInstance)
      → IsOrdered group l
      → Follows group l di
      → IsOrdered group (l ++ di ∷ [])

pub by_name-named :
    (name : String) (l : List DesiredInstance) (di : DesiredInstance)
    → by_name name l ≡ some di
    → str_eq di.service_name name ≡ true
unfolding by_name
by_name-named name [] di h = cc
by_name-named name (x ∷ l) di h = elim (Option-cases (by_name name l)) [
  | inl e ↦ ground arith
  | inr (later, e) ↦ let named = by_name-named name l later e in ground arith
]

pub by_name-none :
    (name : String) (l : List DesiredInstance) → by_name name l ≡ none → names l name ≡ false
unfolding by_name
by_name-none name [] h = refl
by_name-none name (x ∷ l) h = elim (Option-cases (by_name name l)) [
  | inl e ↦ let rest = by_name-none name l e in ground arith
  | inr (later, e) ↦ absurd (ground arith)
]

pub by_name-some :
    (name : String) (l : List DesiredInstance) (di : DesiredInstance)
    → by_name name l ≡ some di
    → names l name ≡ true
unfolding by_name
by_name-some name [] di h = cc
by_name-some name (x ∷ l) di h = elim (Option-cases (by_name name l)) [
  | inl e ↦ ground arith
  | inr (later, e) ↦ let rest = by_name-some name l later e in ground arith
]

pub names-snoc :
    (l : List DesiredInstance) (di : DesiredInstance) (n : String)
    → names (l ++ di ∷ []) n ≡ (names l n || str_eq di.service_name n)
names-snoc [] di n = ground arith
names-snoc (x ∷ l) di n = ground (arith, names-snoc l di n)

-- Entering a name of the group leaves fewer fresh ones.
pub count-le :
    (p q : DesiredInstance → Bool) (l : List DesiredInstance)
    → ((x : DesiredInstance) → p x ≡ true → q x ≡ true)
    → count_if p l ≤ count_if q l
count-le p q [] h = omega arith
count-le p q (x ∷ l) h = ground (arith, h x, count-le p q l h)

pub fresh-enter :
    (name : String) (st : Sorting) (l : List DesiredInstance)
    → has_entered name st ≡ false
    → names l name ≡ true
    → fresh l (enter_name name st) < fresh l st
fresh-enter name st [] e h = absurd (ground arith)
fresh-enter name st (x ∷ l) e h = elim (Bool-cases (str_eq name x.service_name)) [
  | inl same ↦
      let out = subst (λ n. has_entered n st ≡ false) ((eq_iff name x.service_name).0 same) e in
      let le =
        count-le (λ (di : DesiredInstance). not (has_entered di.service_name (enter_name name st)))
          (λ (di : DesiredInstance). not (has_entered di.service_name st)) l
          (λ y k. ground arith) in
      ground (arith, le, out)
  | inr other ↦
      let flipped = flip_false x.service_name other in
      let rest = fresh-enter name st l e (ground arith) in ground (arith, rest)
]
  where
    flip_false : (n : String) → str_eq name n ≡ false → str_eq n name ≡ false
    flip_false n f = elim (Bool-cases (str_eq n name)) [
      | inl t ↦ absurd (let back = (eq_iff name n).1 (sym ((eq_iff n name).0 t)) in ground arith)
      | inr g ↦ g
    ]

pub entered-enter :
    (name e : String) (st : Sorting)
    → has_entered e (enter_name name st) ≡ true
    → (str_eq name e ≡ true) ⊎ (has_entered e st ≡ true)
entered-enter name e st h = elim (Bool-cases (str_eq name e)) [
  | inl same ↦ inl same
  | inr other ↦ inr (ground arith)
]
