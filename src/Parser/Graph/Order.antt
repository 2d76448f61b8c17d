-- ===== src/Parser/Graph/Order.antt =====
-- The chain of a path, and the order in which findCycle leaves the services.
use text.Mathlib.Text.{◌==◌ as str_eq}
use text.Mathlib.TextEquality.{eq_iff}
use navarch.Prelude.{
  ◌≡◌, refl, sym, ap, subst, String, true, some, List, [], ◌∷◌, ◌++◌, arith, Bool-cases, inl, inr,
}
use navarch.Spec.{DeploymentSpec}
use navarch.Parser.Graph.{path_from, cycle_at}
use navarch.Parser.Graph.Steps.{contains, Depends}

abbrev pub head_or : String → List String → String
head_or n [] = n
head_or n (x ∷ l) = x

-- Each element depends on the next one, and the last on the target.
abbrev pub IsChain : DeploymentSpec → List String → String → Type 0
IsChain s [] target = Unit
IsChain s (x ∷ l) target = Depends s x (head_or target l) × IsChain s l target

-- A closed chain: c is l and then the head of l once more.
unfoldable pub IsCycle : DeploymentSpec → List String → Type 0
IsCycle s c = (x : String) × (l : List String) × ((c ≡ (x ∷ l) ++ x ∷ []) × IsChain s (x ∷ l) x)

-- Every dependency stands later in the list.
abbrev pub AllIn : List String → DeploymentSpec → String → Type 0
AllIn l s n = (d : String) → Depends s n d → contains l d ≡ true

abbrev pub IsTopological : DeploymentSpec → List String → Type 0
IsTopological s [] = Unit
IsTopological s (n ∷ l) = AllIn l s n × IsTopological s l

head_or-snoc : (n m : String) (l : List String) → head_or m (l ++ n ∷ []) ≡ head_or n l
head_or-snoc n m [] = refl
head_or-snoc n m (x ∷ l) = refl

pub IsChain-snoc :
    (s : DeploymentSpec) (n m : String) (l : List String)
    → IsChain s l n
    → Depends s n m
    → IsChain s (l ++ n ∷ []) m
IsChain-snoc s n m [] c d = (d, tt)
IsChain-snoc s n m (x ∷ l) c d =
    (subst (Depends s x) (sym (head_or-snoc n m l)) c.0, IsChain-snoc s n m l c.1 d)

-- From the first occurrence of its target on, a chain is closed.
path_from-IsChain :
    (s : DeploymentSpec) (dep : String) (path : List String)
    → IsChain s path dep
    → contains path dep ≡ true
    → (l : List String) × ((path_from dep path ≡ some (dep ∷ l)) × IsChain s (dep ∷ l) dep)
unfolding path_from
path_from-IsChain s dep [] c h = absurd (ground arith)
path_from-IsChain s dep (p ∷ ps) c h = elim (Bool-cases (str_eq p dep)) [
  | inl e ↦
      let same = (eq_iff p dep).0 e in
      (ps, (rw e (ap (λ x. some (x ∷ ps)) same), subst (λ x. IsChain s (x ∷ ps) dep) same c))
  | inr ne ↦ let (l, (e, k)) = path_from-IsChain s dep ps c.1 (ground arith) in (l, (rw ne e, k))
]

pub cycle_at-IsCycle :
    (s : DeploymentSpec) (dep : String) (path : List String)
    → IsChain s path dep
    → contains path dep ≡ true
    → IsCycle s (cycle_at dep path)
unfolding cycle_at IsCycle
cycle_at-IsCycle s dep path c h =
    let (l, (e, k)) = path_from-IsChain s dep path c h in (dep, l, (rw (cycle_at, e) refl, k))

-- One step or more along the dependencies.
pub data Reaches (s : DeploymentSpec) : String → String → Type 0 where
  step : {a b : String} → Depends s a b → Reaches s a b
  along : {a b c : String} → Depends s a b → Reaches s b c → Reaches s a c

-- What a listed service reaches is listed.
pub reach_in :
    (s : DeploymentSpec) (l : List String)
    → IsTopological s l
    → (a b : String) → contains l a ≡ true
    → Depends s a b
    → contains l b ≡ true
reach_in s [] t a b h d = absurd (ground arith)
reach_in s (n ∷ l) t a b h d = elim (Bool-cases (str_eq n a)) [
  | inl e ↦
      let inside = t.0 b (subst (λ x. Depends s x b) (sym ((eq_iff n a).0 e)) d) in
      ground (arith, inside)
  | inr ne ↦ let rest = reach_in s l t.1 a b (ground arith) d in ground (arith, rest)
]

Reaches-contains :
    (s : DeploymentSpec) (l : List String)
    → IsTopological s l
    → (a b : String) → Reaches s a b
    → contains l a ≡ true
    → contains l b ≡ true
Reaches-contains s l t a b (step d) h = reach_in s l t a b h d
Reaches-contains s l t a c (along {b = b} d r) h =
    Reaches-contains s l t b c r (reach_in s l t a b h d)

-- The head's dependencies lead into the tail.
Reaches-tail :
    (s : DeploymentSpec) (n : String) (l : List String)
    → IsTopological s (n ∷ l)
    → (b : String) → Reaches s n b
    → contains l b ≡ true
Reaches-tail s n l t b (step d) = t.0 b d
Reaches-tail s n l t c (along {b = b} d r) = Reaches-contains s l t.1 b c r (t.0 b d)

pub IsTopological-acyclic :
    (s : DeploymentSpec) (l : List String)
    → IsTopological s l
    → (a : String) → contains l a ≡ true
    → ¬ Reaches s a a
IsTopological-acyclic s [] t a h r = ground arith
IsTopological-acyclic s (n ∷ l) t a h r = elim (Bool-cases (str_eq n a)) [
  | inl e ↦
      let same = (eq_iff n a).0 e in
      IsTopological-acyclic s l t.1 a
        (Reaches-tail s n l t a (subst (λ x. Reaches s x a) (sym same) r)) r
  | inr ne ↦ IsTopological-acyclic s l t.1 a (ground arith) r
]
