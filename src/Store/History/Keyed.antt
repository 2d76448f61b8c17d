-- ===== src/Store/History/Keyed.antt =====
-- The primary key of deployments under the writes of a transaction: that every row of the table is
-- the one its id finds.
use navarch.Prelude.{
  ℕ, ◌≡◌, refl, ◌∙◌, ap, subst, true, false, Bool, inl, inr, Option, none, some, List, [], ◌∷◌,
  arith, row, update_row, row-update_row, row-key, All, All-mono, select, if◌then◌else◌, ◌==◌,
  ==_self, Bool-cases,
}
use navarch.Store.{Deployment, Db, deployment_row}
use navarch.Store.Deployments.{
  promoted, supersede, make_live, supersede_previous, inserted, breaks_index,
}
use navarch.Store.History.Create.{unbroken, skip_head}
use navarch.Store.History.Succeeds.{IsKeyed}

-- The rows of a table with a primary key.
abbrev pub Keyed : List Deployment → Type 0
Keyed ds = All (λ (d : Deployment). row (λ (x : Deployment). x.id) d.id ds ≡ some d) ds

module _ (i : ℕ) (f : Deployment → Deployment) (keep : (x : Deployment) → (f x).id ≡ x.id)
    (ds : List Deployment) where
  updated_at :
      (x : Deployment)
      → row (λ (y : Deployment). y.id) x.id ds ≡ some x
      → (b : Bool) → (x.id == i) ≡ b
      → row
          (λ (y : Deployment). y.id)
          (if b then f x else x).id
          (update_row (λ (y : Deployment). y.id) i f ds)
        ≡ some (if b then f x else x)
  updated_at x at true e =
      ap (λ k. row (λ (y : Deployment). y.id) k (update_row (λ (y : Deployment). y.id) i f ds))
        (keep x)
      ∙ row-update_row (λ (y : Deployment). y.id) f keep i x.id ds
      ∙ rw (e, at) refl
  updated_at x at false e =
      row-update_row (λ (y : Deployment). y.id) f keep i x.id ds ∙ rw (e, at) refl

  updated-All :
      (ms : List Deployment)
      → All (λ (d : Deployment). row (λ (x : Deployment). x.id) d.id ds ≡ some d) ms
      → All
          (λ (d : Deployment).
            row (λ (x : Deployment). x.id) d.id (update_row (λ (y : Deployment). y.id) i f ds)
            ≡ some d)
          (update_row (λ (y : Deployment). y.id) i f ms)
  unfolding update_row
  updated-All [] h = tt
  updated-All (m ∷ ms) h = (updated_at m h.0 (m.id == i) refl, updated-All ms h.1)

  pub update_row-Keyed : Keyed ds → Keyed (update_row (λ (y : Deployment). y.id) i f ds)
  update_row-Keyed h = updated-All ds h

supersede_previous-Keyed :
    (now : ℕ) (prev : Option ℕ) (db : Db) → IsKeyed db → IsKeyed (supersede_previous now prev db)
supersede_previous-Keyed now none db k = k
supersede_previous-Keyed now (some v) db k =
    update_row-Keyed v (supersede now) (λ x. keeps_id x) db.deployments k
  where
    keeps_id : (x : Deployment) → (supersede now x).id ≡ x.id
    keeps_id x = ground arith

pub promoted-Keyed :
    (now id env : ℕ) (prev : Option ℕ) (db : Db)
    → IsKeyed db
    → IsKeyed (promoted now id env (supersede_previous now prev db))
promoted-Keyed now id env prev db k =
    update_row-Keyed id (make_live now) (λ x. refl) (supersede_previous now prev db).deployments
      (supersede_previous-Keyed now prev db k)

pub inserted-Keyed :
    (d : Deployment) (db : Db)
    → breaks_index d db.deployments ≡ false
    → IsKeyed db
    → IsKeyed (inserted d db)
unfolding row
inserted-Keyed d db u k = (
  rw (==_self d.id) refl,
  All-mono (λ (x : Deployment). deployment_row db x.id ≡ some x) _
      (λ x at. skip_head d db.deployments x.id (unbroken d x x.id db.deployments u at).id ∙ at)
      db.deployments k,
)

-- A selection finds the rows that pass.
pub row-select :
    (q : Deployment → Bool) (p : ℕ) (ds : List Deployment) (d : Deployment)
    → row (λ (x : Deployment). x.id) p ds ≡ some d
    → q d ≡ true
    → row (λ (x : Deployment). x.id) p (select q ds) ≡ some d
unfolding row
row-select q p [] d h k = h
row-select q p (x ∷ ds) d h k = ground (arith, row-select q p ds d)

module _ (q : Deployment → Bool) where
  All-select :
      (P : Deployment → Type 0) (ds : List Deployment)
      → All P ds
      → All (λ d. P d × (q d ≡ true)) (select q ds)
  All-select P [] h = tt
  All-select P (d ∷ ds) h = elim (Bool-cases (q d)) [
    | inl passes ↦ rw passes ((h.0, passes), All-select P ds h.1)
    | inr fails ↦ rw fails (All-select P ds h.1)
  ]

  pub select-Keyed : (ds : List Deployment) → Keyed ds → Keyed (select q ds)
  select-Keyed ds k =
      All-mono (λ d. (row (λ (x : Deployment). x.id) d.id ds ≡ some d) × (q d ≡ true)) _
        (λ d h. row-select q d.id ds d h.0 h.1) (select q ds) (All-select _ ds k)

  All-row :
      (P : Deployment → Type 0) (p : ℕ) (ds : List Deployment) (d : Deployment)
      → All P ds
      → row (λ (x : Deployment). x.id) p ds ≡ some d
      → P d
  unfolding row
  All-row P p [] d h at = absurd cc
  All-row P p (x ∷ ds) d h at = elim (Bool-cases (x.id == p)) [
    | inl hit ↦ let same : x ≡ d = ground arith in subst P same h.0
    | inr miss ↦ All-row P p ds d h.1 (ground arith)
  ]

  -- A row of a selection passes, and is the row of the table.
  pub row-select_back :
      (p : ℕ) (ds : List Deployment) (d : Deployment)
      → Keyed ds
      → row (λ (x : Deployment). x.id) p (select q ds) ≡ some d
      → (row (λ (x : Deployment). x.id) p ds ≡ some d) × (q d ≡ true)
  row-select_back p ds d k at =
      let (found, passes) =
        All-row (λ d. (row (λ (x : Deployment). x.id) d.id ds ≡ some d) × (q d ≡ true)) p
          (select q ds) d (All-select _ ds k) at in
      let own : d.id ≡ p = row-key (λ (x : Deployment). x.id) p (select q ds) d at in
      (subst (λ i. row (λ (x : Deployment). x.id) i ds ≡ some d) own found, passes)
