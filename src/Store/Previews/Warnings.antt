-- ===== src/Store/Previews/Warnings.antt =====
-- A preview is claimed for its warning once.
use navarch.Prelude.{
  ℕ, ◌≡◌, refl, false, not, ◌&&◌, Option, List, [], ◌∷◌, select, map, arith, Bool-cases, inl, inr,
}
use navarch.Store.{Environment, Db}
use navarch.Store.Previews.{is_due, mark_due, warn, claim_previews}

abbrev ids : List Environment → List ℕ
ids es = map (λ (e : Environment). e.id) es

-- What is warned about is not due again.
warn-is_due :
    (now within t : ℕ) (org : Option ℕ) (e : Environment) → is_due now within org (warn t e) ≡ false
unfolding is_due
warn-is_due now within t org e = ground arith

mark_due-due :
    (now within later next : ℕ) (org scope : Option ℕ) (es : List Environment)
    → ids (select (is_due later next scope) (mark_due now within org es))
      ≡ ids (select (λ e. is_due later next scope e && not (is_due now within org e)) es)
unfolding mark_due
mark_due-due now within later next org scope [] = refl
mark_due-due now within later next org scope (e ∷ es) =
    elim (Bool-cases (is_due now within org e)) [
      | inl due ↦
          let warned = warn-is_due later next now scope e in
          let rest = mark_due-due now within later next org scope es in
          ground (arith, due, warned, rest)
      | inr quiet ↦
          let rest = mark_due-due now within later next org scope es in ground (arith, quiet, rest)
    ]

-- A second claim, at any time and with any window and scope, gets exactly the previews due then that
-- the first one did not get.
pub claim_once :
    (now within later next : ℕ) (org scope : Option ℕ) (db : Db)
    → (claim_previews later next scope (claim_previews now within org db).1).0
      ≡ map
          (λ (e : Environment). e.id)
          (select (λ e. is_due later next scope e && not (is_due now within org e)) db.environments)
unfolding claim_previews
claim_once now within later next org scope db =
    mark_due-due now within later next org scope db.environments
