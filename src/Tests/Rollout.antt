-- ===== src/Tests/Rollout.antt =====
-- The scheduler and the controller on the fleet. The floats are thousandths in the natural numbers.
use Prim.Native.Nat.{min}
use mathlib.Core.List.{Memᴰ, Permᴰ}
use mathlib.Core.List.Memᴰ
use navarch.Prelude.{
  ℕ, ◌+◌, ◌*◌, ◌/◌, ℤ, pos, pos_part, String, ◌≡◌, refl, sym, ◌∙◌, Bool, true, false, none, some,
  List, [], ◌∷◌, arith, ltb, str_leb, sort_by, row,
}
use navarch.Prelude.Int.{◌-ℤ◌}
use navarch.Spec.{peak_memory_bytes, peak_cpu_millis}
use navarch.Store.{free_memory_bytes, free_cpu_millis, Node, Db, Error, ok}
use navarch.Store.History.{Inv}
use navarch.Store.Placement.{placed, place_deployment}
use navarch.Store.Nodes.{list_ready_nodes, homed_per_node}
use navarch.Rollout.Floats.{Floats}
use navarch.Rollout.Scheduler.{best_node, best_from, consider, free_ratio, fraction, fits, prefers}
use navarch.Rollout.Scheduler.Best.{IsBest, best_node_optimal, best_node_perm}
use navarch.Rollout.Scheduler.Place.{PendingDeployment, place, schedule_once}
use navarch.Rollout.Scheduler.Outcome.{Outcome, place-Outcome, schedule-Inv}
use navarch.Rollout.Controller.Routes.{Route}
use navarch.Rollout.Controller.Loop.{first_seen, teardown_all, reconcile_once}
use navarch.Rollout.Controller.Grace.{own, grace_holds}
use navarch.Rollout.Controller.Safe.{reconcile-Inv, unsynced_keeps}
use navarch.Tests.Data.{shop, created_db, second_live_db, first_deployment, small_node, large_node}
use navarch.Tests.Store.{created-Inv, second_live-Inv}

abbrev thousandths : Floats
thousandths = record {
  F = ℕ;
  of_int = pos_part;
  one = 1000;
  div = λ a b. a * 1000 / b;
  fmin = min;
  lt = ltb;
  is_nan = λ _. false;
  lt_irrefl = λ a. ground arith;
  lt_trans = λ a b c p q. ground arith;
  lt_weak = λ a b c n p q. ground arith;
  one_not_nan = refl;
  div_not_nan = λ a b h. refl;
  fmin_not_nan = λ a b h k. refl;
}

abbrev nobody : ℕ → ℕ
nobody n = 0

best_node_optimal_example :
    IsBest thousandths nobody
      (pos 400)
      (pos 384)
      (small_node ∷ large_node ∷ [])
      (best_node thousandths (small_node ∷ large_node ∷ []) nobody (pos 400) (pos 384))
best_node_optimal_example =
    best_node_optimal thousandths nobody (pos 400) (pos 384) (small_node ∷ large_node ∷ [])

swapped : Permᴰ (small_node ∷ large_node ∷ []) (large_node ∷ small_node ∷ [])
swapped = Permᴰ.swap refl refl

two_ids :
    (a b : Node)
    → Memᴰ a (large_node ∷ small_node ∷ [])
    → Memᴰ b (large_node ∷ small_node ∷ [])
    → a.id ≡ b.id
    → a ≡ b
two_ids a b (Memᴰ.head e) (Memᴰ.head f) same = e ∙ sym f
two_ids a b (Memᴰ.head e) (Memᴰ.tail (Memᴰ.tail m)) same = absurd (Memᴰ.not-nil m)
two_ids a b (Memᴰ.tail (Memᴰ.tail m)) k same = absurd (Memᴰ.not-nil m)
two_ids a b (Memᴰ.tail (Memᴰ.head e)) (Memᴰ.tail (Memᴰ.tail m)) same = absurd (Memᴰ.not-nil m)
two_ids a b (Memᴰ.head e) (Memᴰ.tail (Memᴰ.head f)) same = absurd (ground arith)
two_ids a b (Memᴰ.tail (Memᴰ.head e)) (Memᴰ.head f) same = absurd (ground arith)
two_ids a b (Memᴰ.tail (Memᴰ.head e)) (Memᴰ.tail (Memᴰ.head f)) same = e ∙ sym f

best_node_perm_example :
    best_node thousandths (small_node ∷ large_node ∷ []) nobody (pos 400) (pos 384)
    ≡ best_node thousandths (large_node ∷ small_node ∷ []) nobody (pos 400) (pos 384)
best_node_perm_example =
    best_node_perm thousandths nobody (pos 400) (pos 384) (small_node ∷ large_node ∷ [])
      (large_node ∷ small_node ∷ []) swapped two_ids

abbrev row_ids : ℕ → String → ℕ
row_ids dep name = 200

abbrev say : ℤ → ℤ → String
say a b = "no room"

abbrev explain : Error → String
explain e = "conflict"

abbrev candidate : PendingDeployment
candidate = record { deployment = first_deployment; org_id = 1; home_node_id = none }

abbrev chosen_db : Db
chosen_db =
    placed 2000 first_deployment shop 7
      (record { id = 200; service_name = "web"; swappable = true; image_ref = "registry/app:1" }
        ∷ record {
          id = 200;
          service_name = "postgres";
          swappable = false;
          image_ref = "registry/app:1";
        }
        ∷ [])
      (pos 400) (pos 384) created_db

candidate_placed :
    place thousandths str_leb row_ids say say explain 2000 candidate created_db ≡ ok (tt, chosen_db)
unfolding place list_ready_nodes sort_by str_leb best_node best_from consider fits free_memory_bytes
    ◌-ℤ◌ peak_memory_bytes free_cpu_millis peak_cpu_millis prefers homed_per_node free_ratio
    fraction place_deployment row
candidate_placed = refl

place-Outcome_example :
    Outcome thousandths str_leb row_ids say say explain 2000 candidate
      (list_ready_nodes str_leb 2000 1 created_db)
      created_db
      chosen_db
place-Outcome_example =
    place-Outcome thousandths str_leb row_ids say say explain 2000 candidate created_db chosen_db
      candidate_placed

schedule-Inv_example :
    Inv (schedule_once thousandths str_leb row_ids say say explain 2000 (some 1) created_db)
schedule-Inv_example =
    schedule-Inv thousandths str_leb row_ids say say explain 2000 (some 1) created_db created-Inv

reconcile-Inv_example :
    Inv
      (reconcile_once str_leb 9000 300000 9000 5000 90000 none
        (some (λ routes. true))
        []
        second_live_db).1
reconcile-Inv_example =
    reconcile-Inv str_leb 9000 300000 9000 5000 90000 none (some (λ routes. true)) [] second_live_db
      second_live-Inv

abbrev refuses : List Route → Bool
refuses routes = false

unsynced_keeps_example :
    ((reconcile_once str_leb 9000 300000 9000 5000 90000 none
        (some refuses)
        []
        second_live_db).1.instances
      ≡ second_live_db.instances)
    × ((reconcile_once str_leb 9000 300000 9000 5000 90000 none (some refuses) [] second_live_db).0
        ≡ [])
unsynced_keeps_example =
    unsynced_keeps str_leb 9000 300000 9000 5000 90000 none refuses [] second_live_db
      (λ routes. refl)

-- First seen at 9000, with a grace of 5000.
early : ltb 10000 (first_seen 10000 100 ((100, 9000) ∷ []) + 5000) ≡ true
unfolding first_seen
early = refl

grace_holds_example :
    (own 100 (teardown_all 10000 5000 ((100, 9000) ∷ []) (first_deployment ∷ []) second_live_db).1
      ≡ own 100 second_live_db)
    × (first_seen 11000 100
          (teardown_all 10000 5000 ((100, 9000) ∷ []) (first_deployment ∷ []) second_live_db).0
        ≡ first_seen 10000 100 ((100, 9000) ∷ []))
grace_holds_example =
    grace_holds 10000 5000 11000 ((100, 9000) ∷ []) 100 (first_deployment ∷ []) second_live_db early
      refl
