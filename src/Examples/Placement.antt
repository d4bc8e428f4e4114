-- ===== src/Examples/Placement.antt =====
-- The scheduler on a store of one job with two groups, an eligible node and a draining one.
use nomad_rs.Base.{
  ◌≤◌, ◌≡◌, refl, subst, none, some, [], arith, length, filter, All, String_discrete,
}
use nomad_rs.Base.Int.{◌+ℤ◌, ◌-ℤ◌, add_i32, sub_i32, wrap_i32}
use nomad_rs.Base.HashMap.{get}
use nomad_rs.Error.{ok}
use nomad_rs.Jobspec.{Job}
use nomad_rs.State.{get_job, list_nodes, list_allocs}
use nomad_rs.State.Valid.{IsValid}
use nomad_rs.Scheduler.{process_eval, node_eligible}
use nomad_rs.Scheduler.Score.{less, plus, demand_from, group_demand, is_live}
use nomad_rs.Scheduler.Capacity.{cpu, load, Demands}
use nomad_rs.Scheduler.Exact.{live_allocs}
use nomad_rs.Scheduler.Subscribed.{NotOver, Within, process_eval-Within}
use nomad_rs.Scheduler.Placements.{Named, asked}
use nomad_rs.Scheduler.Placed.{Placed, DistinctAllocs, process_eval-Placed, process_eval-Named}
use nomad_rs.Scheduler.Drain.{process_and_apply, drain_queue}
use nomad_rs.Scheduler.Drain.Accepts.{Commits, process_and_apply-ok}
use nomad_rs.Scheduler.Drain.Finishes.{Finished, drain_queue-Finished}
use nomad_rs.Base.{first, List, true, ◌∷◌}
use nomad_rs.Base.Int.{ℤ, ◌≤ℤ◌}
use nomad_rs.Node.{Node}
use nomad_rs.Jobspec.{Resources}
use nomad_rs.Constraint.{satisfied_by, affinity_satisfied_by}
use nomad_rs.Scheduler.{
  Candidate, best, sort_by, insert_sorted, compare_candidates, candidates, is_feasible, fits,
  meets_constraints, all_satisfied,
}
use nomad_rs.Scheduler.Score.{
  score_node, bonus_for, bonus_from, bin_pack, utilization, affinity_from, free_from,
}
use nomad_rs.Scheduler.Ranking.{Ranks, Stands, score_of, best-candidates}
use nomad_rs.Examples.{node_1, small, large, db_group}
use nomad_rs.Examples.{matchers, integers, store, shop, eval_1}
use nomad_rs.Examples.Stores.{store-IsValid, machine}
use nomad_rs.Examples.Queues.{one}

numbers : Unit {0}
unfolding add_i32 sub_i32 wrap_i32 ◌+ℤ◌ ◌-ℤ◌ plus less demand_from group_demand is_live load
    live_allocs list_allocs list_nodes String_discrete get get_job
numbers = tt

not_over : NotOver cpu store
unfolding numbers
not_over = record {
  ranged = (omega arith, (omega arith, tt));
  demands = (omega arith, tt);
  within = (omega arith, (omega arith, tt));
}

found : get_job eval_1.job_id store ≡ some shop
unfolding numbers
found = refl

shop-Demands : All (Demands cpu) shop.task_groups
unfolding numbers
shop-Demands = (omega arith, (omega arith, tt))

Demands-of : (j : Job) → get_job eval_1.job_id store ≡ some j → All (Demands cpu) j.task_groups
unfolding numbers
Demands-of j e =
    subst (λ o. elim o as (λ _. Type 0) [ none ↦ Unit | some x ↦ All (Demands cpu) x.task_groups ])
      e shop-Demands

process_eval-Within_example :
    All
      (Within cpu store (process_eval matchers integers eval_1 store).allocs)
      (filter node_eligible (list_nodes store))
process_eval-Within_example =
    process_eval-Within matchers integers cpu eval_1 store store-IsValid not_over Demands-of

process_and_apply-ok_example :
    let r = process_and_apply matchers integers eval_1 machine in
    (r.1 ≡ ok (process_eval matchers integers eval_1 store))
    × Commits (process_eval matchers integers eval_1 store).allocs store r.0.state
    × IsValid r.0.state
process_and_apply-ok_example = process_and_apply-ok matchers integers eval_1 machine store-IsValid

process_eval-Placed_example :
    All (Placed matchers eval_1 store shop) (process_eval matchers integers eval_1 store).allocs
process_eval-Placed_example =
    process_eval-Placed matchers integers eval_1 store shop store-IsValid found

process_eval-Named_example :
    Named "e1" 0 (process_eval matchers integers eval_1 store).allocs
    × DistinctAllocs (process_eval matchers integers eval_1 store).allocs
    × (length (process_eval matchers integers eval_1 store).allocs ≤ asked shop.task_groups)
process_eval-Named_example =
    process_eval-Named matchers integers eval_1 store shop store-IsValid found

drain_queue-Finished_example :
    Finished (λ m. m ≡ []) 0 (drain_queue matchers integers 2 (λ n. n) one machine)
drain_queue-Finished_example =
    drain_queue-Finished matchers integers 2 (λ n. n) one machine (omega arith) refl refl
      store-IsValid

abbrev ranked : Ranks integers
ranked = record { rank = λ z. z; total_cmp = λ x y. refl }

abbrev frees : List (Node × Resources)
frees = (node_1, small) ∷ (node_1, large) ∷ []

abbrev winner : Candidate ℤ
winner = record {
  node = node_1;
  free = large;
  score = score_of matchers integers eval_1 shop db_group store (node_1, large);
  order = 1;
}

scoring : Unit {0}
unfolding numbers best sort_by insert_sorted compare_candidates candidates is_feasible fits
    meets_constraints all_satisfied satisfied_by affinity_satisfied_by score_node bonus_for
    bonus_from bin_pack utilization affinity_from free_from
scoring = tt

takes_winner :
    best integers (candidates matchers eval_1 shop db_group integers store 0 frees) ≡ some winner
unfolding scoring
takes_winner = refl

small_feasible : is_feasible matchers db_group (group_demand db_group) (node_1, small) ≡ true
unfolding scoring
small_feasible = refl

best-candidates_example :
    Stands matchers integers eval_1 shop db_group store frees winner
    × (score_of matchers integers eval_1 shop db_group store (node_1, small) ≤ℤ winner.score)
best-candidates_example =
    best-candidates matchers integers eval_1 shop db_group store ranked frees winner (node_1, small)
      takes_winner (first ((node_1, large) ∷ [])) small_feasible
