-- ===== src/Store/History/Rows.antt =====
-- One updated row of a table, seen through lookups.
use navarch.Prelude.{
  ℕ, ◌≡◌, sym, ◌∙◌, ap, subst, Bool, inl, inr, Option, none, some, List, arith, row, update_row,
  apply_to, row-update_row, ◌==◌, ==_iff, if◌then◌else◌, Bool-cases, Option-cases,
}
use navarch.Store.{Db, Deployment, deployment_row}
use navarch.Store.History.Evolve.{Keeps, Keeps-refl, SamePointers, Evolves}

module _ {ℓ κ} {A : Type ℓ} (key : A → ℕ) (f : A → A) (keep : (x : A) → key (f x) ≡ key x)
    (R : A → A → Type κ) (same : (x : A) → R x x) where
  -- A row of the updated table comes from a row of the old one.
  pub row_back :
      (i : ℕ) (xs : List A)
      → ((x : A) → row key i xs ≡ some x → R x (f x))
      → (p : ℕ) (y : A) → row key p (update_row key i f xs) ≡ some y
      → (x : A) × (row key p xs ≡ some x) × R x y
  row_back i xs hit p y h = elim (Option-cases (row key p xs)) [
    | inl e ↦ absurd (nowhere (p == i) (sym (seen none e) ∙ h))
    | inr (x, e) ↦ elim (Bool-cases (p == i)) [
      | inl hit_p ↦
          let e' : p ≡ i = (==_iff p i).0 hit_p in
          let y_is : f x ≡ y = ground (arith, seen (some x) e) in
          (x, e, subst (R x) y_is (hit x (subst (λ k. row key k xs ≡ some x) e' e)))
      | inr miss ↦
          let y_is : x ≡ y = ground (arith, seen (some x) e) in (x, e, subst (R x) y_is (same x))
    ]
  ]
    where
      seen :
          (o : Option A)
          → row key p xs ≡ o
          → row key p (update_row key i f xs) ≡ (if p == i then apply_to f o else o)
      seen o e = row-update_row key f keep i p xs ∙ ap (λ o. if p == i then apply_to f o else o) e

      nowhere : (b : Bool) → (if b then none else none) ≡ some y → ⊥
      nowhere b e = ground arith

  pub row_forth :
      (i : ℕ) (xs : List A)
      → ((x : A) → row key i xs ≡ some x → R x (f x))
      → (p : ℕ) (x : A) → row key p xs ≡ some x
      → (y : A) × (row key p (update_row key i f xs) ≡ some y) × R x y
  row_forth i xs hit p x h = elim (Bool-cases (p == i)) [
    | inl e ↦
        let e' : p ≡ i = (==_iff p i).0 e in
        (
          f x,
          row-update_row key f keep i p xs ∙ rw e (ap (apply_to f) h),
          hit x (subst (λ k. row key k xs ≡ some x) e' h),
        )
    | inr e ↦ (x, row-update_row key f keep i p xs ∙ rw e h, same x)
  ]

-- A transaction that updates one deployment, and no live pointer, evolves the database.
pub evolve_row :
    (db db' : Db) (i : ℕ) (f : Deployment → Deployment)
    → ((x : Deployment) → (f x).id ≡ x.id)
    → db'.deployments ≡ update_row (λ (x : Deployment). x.id) i f db.deployments
    → ((d : Deployment) → deployment_row db i ≡ some d → Keeps d (f d))
    → SamePointers db db'
    → Evolves db db'
evolve_row db db' i f keep e hit s = record {
  back = λ p c h.
      row_back (λ (x : Deployment). x.id) f keep Keeps Keeps-refl i db.deployments hit p c
        (subst (λ t. row (λ (x : Deployment). x.id) p t ≡ some c) e h);
  forth = λ p d h.
      let (c, at_c, k) =
        row_forth (λ (x : Deployment). x.id) f keep Keeps Keeps-refl i db.deployments hit p d h in
      (c, subst (λ t. row (λ (x : Deployment). x.id) p t ≡ some c) (sym e) at_c, k);
  pointers = s;
}
