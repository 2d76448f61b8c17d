-- ===== src/Tests/Life.antt =====
-- The two rollouts of the fleet and an expiry after them; a preview's deployment that is pending when
-- its environment expires; and a second revision with a pinned service.
use mathlib.Core.List.{Memᴰ}
use navarch.Prelude.{arith, true, ◌≡◌, refl, ◌⊎◌, none, some, [], ◌∷◌, row, update_row}
use navarch.Spec.{lookup}
use navarch.Spec.Equal.{service_eq}
use navarch.Store.{Environment, Db, ok, live, environment_row}
use navarch.Store.Deployments.{
  create_deployment, drift_check, live_row, breaks_index, collides, same_project, same_slot,
  new_deployment, max_revision, next_slot, reject_pinned_drift, inserted,
}
use navarch.Store.Previews.{expire_environments}
use navarch.Store.Pinned.{StaysPinned, create-keeps_pinned, Judges, reject_pinned_drift-Judges}
use navarch.Store.History.{Inv}
use navarch.Store.History.Succeeds.{IsKeyed}
use navarch.Store.History.Steps.{Reach, here, next, creates, empty-Inv, NoDeployments}
use navarch.Store.History.Forward.{Later}
use navarch.Store.History.Life.{
  History, begins, goes_on, runs, expires, Expired, History-Inv, History-forward,
}
use navarch.Tests.Data.{
  stack_spec, huge_spec, fresh_db, first_healthy, live_db, second_healthy_db, shop, shop_live,
  request, first_deployment, second_deployment, second_created_db, postgres,
}
use navarch.Tests.Store.{second_rollout, first_row, creates_second}

unrolled : {a b : Db} → Reach a b → History a b
unrolled here = begins
unrolled (next r s) = goes_on (unrolled r) (runs s)

abbrev preview_shop : Environment
preview_shop = record shop { ephemeral = true; expires_at = some 5000 }

abbrev preview_db : Db
preview_db = record fresh_db { environments = preview_shop ∷ [] }

creates_preview :
    create_deployment 100 1000 request preview_db
    ≡ ok (first_deployment, inserted first_deployment preview_db)
unfolding create_deployment row update_row drift_check live_row breaks_index collides same_project
    same_slot new_deployment max_revision next_slot reject_pinned_drift lookup service_eq
creates_preview = refl

preview_NoDeployments : NoDeployments preview_db
unfolding row
preview_NoDeployments = (refl, λ i e at. ground arith)

preview_life :
    History preview_db (expire_environments 6000 none (inserted first_deployment preview_db)).1
preview_life =
    goes_on (goes_on begins (runs (creates 100 1000 request first_deployment creates_preview)))
      (expires 6000 none refl)

History-Inv_example :
    IsKeyed (expire_environments 6000 none (inserted first_deployment preview_db)).1
    × Inv (expire_environments 6000 none (inserted first_deployment preview_db)).1
History-Inv_example = History-Inv preview_life tt (empty-Inv preview_db preview_NoDeployments)

second_life : History live_db (expire_environments 9000 none second_healthy_db).1
second_life = goes_on (unrolled second_rollout) (expires 9000 none refl)

History-forward_example :
    Later
      (expire_environments 9000 none second_healthy_db).1
      100
      (record first_healthy { state = live; promoted_at = some 5000; updated_at = 5000 })
    ⊎ Expired second_life 5
History-forward_example = History-forward second_life 100 _ first_row

shop_row : environment_row live_db 5 ≡ some shop_live
unfolding row update_row
shop_row = refl

create-keeps_pinned_example : StaysPinned "postgres" postgres second_deployment.resolved_spec
create-keeps_pinned_example =
    create-keeps_pinned 101 6000 request live_db second_created_db second_deployment
      (record first_healthy { state = live; promoted_at = some 5000; updated_at = 5000 }) shop_live
      100 creates_second shop_row refl first_row "postgres" postgres (Memᴰ.tail (Memᴰ.head refl))
      refl

reject_pinned_drift-Judges_example : Judges stack_spec.services huge_spec
reject_pinned_drift-Judges_example = reject_pinned_drift-Judges stack_spec.services huge_spec
