-- ===== src/Prelude/Sort.antt =====
-- Sorting by a Boolean order (sort.Slice, sort.Strings): the result is ascending, has the same
-- elements, and does not depend on the order of the input when the order is total.
use Prim.Native.Nat.{suc}
use mathlib.Core.Path.{◌≡◌, refl, ap, ◌∙◌}
use mathlib.Core.Logic.{◌⊎◌, inl, inr}
use mathlib.Core.Bool.{Bool, true, false}
use mathlib.Core.List.{List, [], ◌∷◌, Permᴰ}
use mathlib.Core.List.Permᴰ
use native.Mathlib.Omega.{arith}
use navarch.Prelude.Tests.{if◌then◌else◌, Bool-cases}
use navarch.Prelude.Lists.{All, length}

module _ {ℓ} {A : Type ℓ} (le : A → A → Bool) where
  pub insert_sorted : A → List A → List A
  insert_sorted x [] = x ∷ []
  insert_sorted x (y ∷ l) = let rest = y ∷ insert_sorted x l in if le x y then x ∷ y ∷ l else rest

  unfoldable pub sort_by : List A → List A
  unfolding insert_sorted
  sort_by [] = []
  sort_by (x ∷ l) = insert_sorted x (sort_by l)

  -- Each element is at most all that follow it.
  abbrev pub IsAscending : List A → Type ℓ
  IsAscending [] = Unit
  IsAscending (x ∷ l) = All (λ y. le x y ≡ true) l × IsAscending l

  pub record IsOrder : Type ℓ where
    pub total : (x y : A) → (le x y ≡ true) ⊎ (le y x ≡ true)
    pub antisymm : (x y : A) → le x y ≡ true → le y x ≡ true → x ≡ y
    pub trans : (x y z : A) → le x y ≡ true → le y z ≡ true → le x z ≡ true

  All-insert_sorted {κ} :
      (P : A → Type κ) (x : A) (l : List A) → P x → All P l → All P (insert_sorted x l)
  unfolding insert_sorted
  All-insert_sorted P x [] px h = (px, tt)
  All-insert_sorted P x (y ∷ l) px h = elim (Bool-cases (le x y)) [
    | inl e ↦ rw e (px, (h.0, h.1))
    | inr e ↦ rw e (h.0, All-insert_sorted P x l px h.1)
  ]

  pub All-sort_by {κ} : (P : A → Type κ) (l : List A) → All P l → All P (sort_by l)
  unfolding sort_by
  All-sort_by P [] h = tt
  All-sort_by P (x ∷ l) h = All-insert_sorted P x (sort_by l) h.0 (All-sort_by P l h.1)

  length-insert_sorted : (x : A) (l : List A) → length (insert_sorted x l) ≡ suc (length l)
  unfolding insert_sorted
  length-insert_sorted x [] = refl
  length-insert_sorted x (y ∷ l) = elim (Bool-cases (le x y)) [
    | inl e ↦ rw e refl
    | inr e ↦ rw e (ap suc (length-insert_sorted x l))
  ]

  pub length-sort_by : (l : List A) → length (sort_by l) ≡ length l
  unfolding sort_by
  length-sort_by [] = refl
  length-sort_by (x ∷ l) = length-insert_sorted x (sort_by l) ∙ ap suc (length-sort_by l)

  module _ (o : IsOrder) where
    le_of_not : (x y : A) → le x y ≡ false → le y x ≡ true
    le_of_not x y e = elim (o.total x y) [ inl h ↦ cc | inr h ↦ h ]

    All-trans :
        (x y : A) (l : List A)
        → le x y ≡ true
        → All (λ z. le y z ≡ true) l
        → All (λ z. le x z ≡ true) l
    All-trans x y [] h a = tt
    All-trans x y (z ∷ l) h a = (o.trans x y z h a.0, All-trans x y l h a.1)

    insert_sorted-IsAscending :
        (x : A) (l : List A) → IsAscending l → IsAscending (insert_sorted x l)
    unfolding insert_sorted
    insert_sorted-IsAscending x [] s = (tt, tt)
    insert_sorted-IsAscending x (y ∷ l) s = elim (Bool-cases (le x y)) [
      | inl e ↦ rw e ((e, All-trans x y l e s.0), s)
      | inr e ↦ rw e (
        All-insert_sorted (λ z. le y z ≡ true) x l (le_of_not x y e) s.0,
        insert_sorted-IsAscending x l s.1,
      )
    ]

    pub sort_by-IsAscending : (l : List A) → IsAscending (sort_by l)
    unfolding sort_by
    sort_by-IsAscending [] = tt
    sort_by-IsAscending (x ∷ l) = insert_sorted-IsAscending x (sort_by l) (sort_by-IsAscending l)

    insert_sorted_comm :
        (x y : A) (l : List A)
        → insert_sorted x (insert_sorted y l) ≡ insert_sorted y (insert_sorted x l)
    unfolding insert_sorted
    insert_sorted_comm x y [] = ground (arith, o.total x y, o.antisymm x y)
    insert_sorted_comm x y (z ∷ l) = ground (
      arith,
      o.total x y,
      o.antisymm x y,
      o.total x z,
      o.total y z,
      o.trans x y z,
      o.trans y x z,
      insert_sorted_comm x y l,
    )

    -- Any two orders of the same elements are sorted to the same list.
    pub sort_by_perm : {l m : List A} → Permᴰ l m → sort_by l ≡ sort_by m
    unfolding sort_by
    sort_by_perm Permᴰ.nil = refl
    sort_by_perm (Permᴰ.cons {b = b} e p) = rw (e, sort_by_perm p)
    sort_by_perm (Permᴰ.swap {l = l} e f) = rw (e, f) (insert_sorted_comm _ _ (sort_by l))
    sort_by_perm (Permᴰ.trans p q) = sort_by_perm p ∙ sort_by_perm q

  -- Sorting rearranges.
  insert_sorted-perm : (x : A) (l : List A) → Permᴰ (insert_sorted x l) (x ∷ l)
  unfolding insert_sorted
  insert_sorted-perm x [] = Permᴰ.refl (x ∷ [])
  insert_sorted-perm x (y ∷ l) = elim (Bool-cases (le x y)) [
    | inl e ↦ rw e (Permᴰ.refl (x ∷ y ∷ l))
    | inr e ↦ rw e (Permᴰ.trans (Permᴰ.cons refl (insert_sorted-perm x l)) (Permᴰ.swap refl refl))
  ]

  pub sort_by-perm : (l : List A) → Permᴰ (sort_by l) l
  unfolding sort_by
  sort_by-perm [] = Permᴰ.nil
  sort_by-perm (x ∷ l) =
      Permᴰ.trans (insert_sorted-perm x (sort_by l)) (Permᴰ.cons refl (sort_by-perm l))
