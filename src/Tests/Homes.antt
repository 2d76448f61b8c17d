-- ===== src/Tests/Homes.antt =====
-- A stack with nothing durable is released from its node.
use text.Mathlib.Text.{◌==◌ as str_eq}
use navarch.Prelude.{◌≡◌, refl, true, some, [], ◌∷◌, row, sort_by, All}
use navarch.Spec.{mount_volume, service_names, pinned_services, is_swappable, lookup}
use navarch.Spec.Durable.{
  durable_reasons, durable_reasons-nil, scan_mounts, scan_services, mounts_of,
}
use navarch.Store.{Deployment, Environment, Db, ok, deployment_row, environment_row}
use navarch.Store.Homes.{release_environment_home, released, release_leaves_nothing}
use navarch.Tests.Data.{huge_spec, first_deployment, shop, fresh_db}

abbrev free_deployment : Deployment
free_deployment = record first_deployment { resolved_spec = huge_spec }

abbrev bound_shop : Environment
bound_shop = record shop { home_node_id = some 8; live_deployment_id = some 100 }

abbrev bound_db : Db
bound_db = record fresh_db { deployments = free_deployment ∷ []; environments = bound_shop ∷ [] }

nothing_durable : durable_reasons huge_spec ≡ []
unfolding durable_reasons pinned_services service_names sort_by is_swappable lookup scan_services
    mounts_of scan_mounts
nothing_durable = refl

durable_reasons-nil_example :
    (pinned_services huge_spec ≡ [])
    × (huge_spec.volumes ≡ [])
    × All
        (λ n. All (λ m. m.kind ≡ mount_volume → str_eq m.source "" ≡ true) (mounts_of huge_spec n))
        (service_names huge_spec)
durable_reasons-nil_example = durable_reasons-nil huge_spec nothing_durable

bound_row : environment_row bound_db 5 ≡ some bound_shop
unfolding row
bound_row = refl

free_row : deployment_row bound_db 100 ≡ some free_deployment
unfolding row
free_row = refl

shop_released : release_environment_home 5 bound_db ≡ ok (tt, released 5 bound_db)
unfolding release_environment_home row durable_reasons pinned_services service_names sort_by
    is_swappable lookup scan_services mounts_of scan_mounts
shop_released = refl

release_leaves_nothing_example : (pinned_services huge_spec ≡ []) × (huge_spec.volumes ≡ [])
release_leaves_nothing_example =
    release_leaves_nothing 5 8 100 bound_db (released 5 bound_db) bound_shop free_deployment
      bound_row refl refl free_row shop_released
