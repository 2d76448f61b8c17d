-- ===== src/Tests/Store.antt =====
-- The first rollout of the fleet, step by step.
use navarch.Prelude.{pos, ◌≡◌, refl, none, some, [], row, update_row, arith, ◌≤ℤ◌}
use navarch.Prelude.Int.{◌-ℤ◌, ◌+ℤ◌}
use navarch.Spec.{lookup}
use navarch.Store.{
  starting, healthy, Environment, Node, Db, free_cpu_millis, free_memory_bytes, ok, deployment_row,
  environment_row, node_row, live, draining,
}
use navarch.Store.Deployments.{
  create_deployment, update_deployment_state, promote_deployment, drift_check, live_row,
  breaks_index, collides, same_project, same_slot, new_deployment, max_revision, next_slot,
  reject_pinned_drift, valid_transitions, advanced,
}
use navarch.Store.Placement.{place_deployment}
use navarch.Spec.Equal.{service_eq}
use navarch.Store.History.{Inv}
use navarch.Store.History.Steps.{
  Reach, here, next, creates, places, advances, promotes, Reach-Inv, empty-Inv, NoDeployments,
}
use navarch.Store.History.Swap.{Swap, promote_swaps}
use navarch.Store.History.Succeeds.{promote_succeeds, IsKeyed}
use navarch.Store.History.Capacity.{place_within_capacity}
use navarch.Store.Nodes.{heartbeat, mark_stale, beaten}
use navarch.Store.Nodes.Cordon.{
  none_yet, then_one, beats, ages, cordon_holds, uncordon_exact, Uncordons, StillThere,
}
use navarch.Tests.Data.{
  fresh_db, request, first_deployment, created_db, instances, placed_db, started_db, healthy_db,
  live_db, first_healthy, second_deployment, second_created_db, second_placed_db, second_healthy_db,
  second_live_db, second_healthy, shop_live, drained_node,
}

pub creates_first : create_deployment 100 1000 request fresh_db ≡ ok (first_deployment, created_db)
unfolding create_deployment row update_row drift_check live_row breaks_index collides same_project
    same_slot new_deployment max_revision next_slot reject_pinned_drift lookup service_eq
creates_first = refl

places_first :
    place_deployment 2000 100 8 instances (pos 400) (pos 384) created_db ≡ ok (tt, placed_db)
unfolding place_deployment row update_row free_cpu_millis ◌-ℤ◌ ◌+ℤ◌ free_memory_bytes
places_first = refl

starts_first : update_deployment_state 3000 100 starting "" placed_db ≡ ok (tt, started_db)
unfolding update_deployment_state valid_transitions row update_row
starts_first = refl

passes_first : update_deployment_state 4000 100 healthy "" started_db ≡ ok (tt, healthy_db)
unfolding update_deployment_state valid_transitions row update_row
passes_first = refl

promotes_first : promote_deployment 5000 100 healthy_db ≡ ok (none, live_db)
unfolding promote_deployment row update_row
promotes_first = refl

pub creates_second :
    create_deployment 101 6000 request live_db ≡ ok (second_deployment, second_created_db)
unfolding create_deployment row update_row drift_check live_row breaks_index collides same_project
    same_slot new_deployment max_revision next_slot reject_pinned_drift lookup service_eq
creates_second = refl

places_second :
    place_deployment 6000 101 8 [] (pos 400) (pos 384) second_created_db ≡ ok (tt, second_placed_db)
unfolding place_deployment row update_row free_cpu_millis ◌-ℤ◌ ◌+ℤ◌ free_memory_bytes
places_second = refl

starts_second :
    update_deployment_state 7000 101 starting "" second_placed_db
    ≡ ok (tt, advanced 7000 101 starting "" second_placed_db)
unfolding update_deployment_state valid_transitions row update_row
starts_second = refl

passes_second :
    update_deployment_state 8000 101 healthy "" (advanced 7000 101 starting "" second_placed_db)
    ≡ ok (tt, second_healthy_db)
unfolding update_deployment_state valid_transitions row update_row
passes_second = refl

promotes_second : promote_deployment 9000 101 second_healthy_db ≡ ok (some 100, second_live_db)
unfolding promote_deployment row update_row
promotes_second = refl

fresh_NoDeployments : NoDeployments fresh_db
unfolding row
fresh_NoDeployments = (refl, λ i e at. ground arith)

pub fresh-Inv : Inv fresh_db
fresh-Inv = empty-Inv fresh_db fresh_NoDeployments

pub first_rollout : Reach fresh_db live_db
first_rollout =
    next
      (next
        (next
          (next (next here (creates 100 1000 request first_deployment creates_first))
            (places 2000 100 8 instances (pos 400) (pos 384) places_first))
          (advances 3000 100 starting "" refl starts_first))
        (advances 4000 100 healthy "" refl passes_first))
      (promotes 5000 100 none promotes_first)

pub second_rollout : Reach live_db second_healthy_db
second_rollout =
    next
      (next
        (next (next here (creates 101 6000 request second_deployment creates_second))
          (places 6000 101 8 [] (pos 400) (pos 384) places_second))
        (advances 7000 101 starting "" refl starts_second))
      (advances 8000 101 healthy "" refl passes_second)

pub created-Inv : Inv created_db
created-Inv =
    Reach-Inv (next here (creates 100 1000 request first_deployment creates_first)) fresh-Inv

pub live-Inv : Inv live_db
live-Inv = Reach-Inv first_rollout fresh-Inv

healthy-Inv : Inv second_healthy_db
healthy-Inv = Reach-Inv second_rollout live-Inv

pub first_row :
    deployment_row live_db 100
    ≡ some (record first_healthy { state = live; promoted_at = some 5000; updated_at = 5000 })
unfolding row update_row
first_row = refl

second_row : deployment_row second_healthy_db 101 ≡ some second_healthy
unfolding row update_row
second_row = refl

shop_row : environment_row second_healthy_db 5 ≡ some shop_live
unfolding row update_row
shop_row = refl

second-IsKeyed : IsKeyed second_healthy_db
unfolding row update_row
second-IsKeyed = (refl, (refl, tt))

promote_succeeds_example :
    promote_deployment 9000 101 second_healthy_db ≡ ok (some 100, second_live_db)
promote_succeeds_example =
    promote_succeeds 9000 101 second_healthy_db second_healthy shop_live healthy-Inv second-IsKeyed
      second_row refl shop_row

promote_swaps_example : Swap 9000 101 5 (some 100) second_healthy_db second_live_db
promote_swaps_example =
    promote_swaps 9000 101 (some 100) second_healthy_db second_live_db second_healthy healthy-Inv
      second_row promotes_second

created_row : deployment_row created_db 100 ≡ some first_deployment
unfolding row
created_row = refl

place_within_capacity_example :
    (n : Node) × (node_row placed_db 8 ≡ some n)
    × (n.alloc_cpu_millis ≤ℤ n.cpu_millis)
    × (n.alloc_memory_bytes ≤ℤ n.memory_bytes)
    × (e : Environment) × (environment_row placed_db 5 ≡ some e)
    × (e.home_node_id ≡ some 8)
place_within_capacity_example =
    place_within_capacity 2000 100 8 instances (pos 400) (pos 384) created_db placed_db
      first_deployment created_row refl places_first

-- The drained node heartbeats at 50000 and is swept at 60000.
abbrev beaten_db : Db
beaten_db = record fresh_db {
  nodes =
      update_row (λ (x : Node). x.id) 9
        (λ x. record x { state = draining; last_heartbeat = some 50000 }) fresh_db.nodes;
}

drained_row : node_row fresh_db 9 ≡ some drained_node
unfolding row
drained_row = refl

drained_beats : heartbeat 50000 9 fresh_db ≡ ok (tt, beaten_db)
unfolding heartbeat row update_row beaten
drained_beats = refl

cordon_holds_example : StillThere (mark_stale 60000 beaten_db) 9 drained_node
cordon_holds_example =
    cordon_holds (then_one (then_one none_yet (beats 50000 9 drained_beats)) (ages 60000 refl)) 9
      drained_node drained_row refl

uncordon_exact_example : Uncordons 20000 9 fresh_db drained_node
uncordon_exact_example = uncordon_exact 20000 9 fresh_db drained_node drained_row

pub second_live-Inv : Inv second_live_db
second_live-Inv = Reach-Inv (next here (promotes 9000 101 (some 100) promotes_second)) healthy-Inv
