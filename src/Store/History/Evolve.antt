-- ===== src/Store/History/Evolve.antt =====
-- Transactions that change neither which deployment is live nor, except to drop it, which is
-- active.
use navarch.Prelude.{ℕ, ◌≡◌, ◌∙◌, sym, subst, refl, true, some}
use navarch.Store.{Db, Deployment, Environment, is_active, is_live, deployment_row, environment_row}
use navarch.Store.History.{Inv}

pub record Keeps (d c : Deployment) : Type 0 where
  pub env : d.environment_id ≡ c.environment_id
  pub revision : d.revision ≡ c.revision
  pub slot : d.slot ≡ c.slot
  pub is_live : is_live d.state ≡ is_live c.state
  pub active : is_active c.state ≡ true → is_active d.state ≡ true

pub Keeps-refl : (d : Deployment) → Keeps d d
Keeps-refl d = record { env = refl; revision = refl; slot = refl; is_live = refl; active = λ h. h }

pub record SamePointers (db db' : Db) : Type 0 where
  pub env_back :
      (i : ℕ) (e : Environment)
      → environment_row db' i ≡ some e
      → (o : Environment) × (environment_row db i ≡ some o)
        × (o.live_deployment_id ≡ e.live_deployment_id)
  pub env_forth :
      (i : ℕ) (o : Environment)
      → environment_row db i ≡ some o
      → (e : Environment) × (environment_row db' i ≡ some e)
        × (o.live_deployment_id ≡ e.live_deployment_id)

pub record Evolves (db db' : Db) : Type 0 where
  pub back :
      (p : ℕ) (c : Deployment)
      → deployment_row db' p ≡ some c
      → (d : Deployment) × (deployment_row db p ≡ some d) × Keeps d c
  pub forth :
      (p : ℕ) (d : Deployment)
      → deployment_row db p ≡ some d
      → (c : Deployment) × (deployment_row db' p ≡ some c) × Keeps d c
  pub pointers : SamePointers db db'

pub Evolves-Inv : {db db' : Db} → Evolves db db' → Inv db → Inv db'
Evolves-Inv {db} {db'} v h = record {
  pointed = λ i p e at live.
      let (o, at_o, same) = v.pointers.env_back i e at in
      let (d, at_d, is_l, in_env) = h.pointed i p o at_o (same ∙ live) in
      let (c, at_c, k) = v.forth p d at_d in (c, at_c, sym k.is_live ∙ is_l, sym k.env ∙ in_env);
  pointing = λ p c at l.
      let (d, at_d, k) = v.back p c at in
      let (o, at_o, live) = h.pointing p d at_d (k.is_live ∙ l) in
      let (e, at_e, same) = v.pointers.env_forth d.environment_id o at_o in
      (e, subst (λ i. environment_row db' i ≡ some e) k.env at_e, sym same ∙ live);
  one_active = λ p q d c at_d at_c env a b.
      let (d0, at_d0, k) = v.back p d at_d in
      let (c0, at_c0, m) = v.back q c at_c in
      h.one_active p q d0 c0 at_d0 at_c0 (k.env ∙ env ∙ sym m.env) (k.active a) (m.active b);
  revisions = λ p q d c at_d at_c env rev.
      let (d0, at_d0, k) = v.back p d at_d in
      let (c0, at_c0, m) = v.back q c at_c in
      h.revisions p q d0 c0 at_d0 at_c0 (k.env ∙ env ∙ sym m.env)
        (k.revision ∙ rev ∙ sym m.revision);
  colours = λ p q d c at_d at_c env a b same.
      let (d0, at_d0, k) = v.back p d at_d in
      let (c0, at_c0, m) = v.back q c at_c in
      h.colours p q d0 c0 at_d0 at_c0 (k.env ∙ env ∙ sym m.env) (k.is_live ∙ a) (m.active b)
        (k.slot ∙ same ∙ sym m.slot);
}
