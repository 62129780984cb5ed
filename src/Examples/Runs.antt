-- ===== src/Examples/Runs.antt =====
-- The execution of the plan for "db" and "api".
use tugtainer.Base.{◌≡◌, refl, true, Option, some, [], ◌∷◌, Text, codes, lookup, elem, ◌==◌, arith}
use tugtainer.ActionResult.{UpdatePlanResult, updated, new_result}
use tugtainer.Exec.{value, ok}
use tugtainer.Graph.Dfs.Distinct.{Distinct}
use tugtainer.Update.Item.{Item}
use tugtainer.Check.Row.{find_row}
use tugtainer.Update.Records.{
  Settled, update_containers_data_after_execution, find_row-update_containers_data_after_execution,
}
use tugtainer.Update.Run.{Run, Database, execute_update_plan, update_all}
use tugtainer.Update.Run.Ending.{DatabaseAnswers, execute_update_plan_total}
use tugtainer.Update.Run.Concluded.{Handled, update_all-Handled}
use tugtainer.Examples.Containers.{api, db, row, host}
use tugtainer.Examples.Plans.{plan}
use tugtainer.Examples.Updates.{by_name, agent, clock_runs, ready}
use tugtainer.Examples.Checks.{ttl}

abbrev database : Database Text
database = record { hooks_map = λ log names. value []; committed = λ log. value tt; now = λ log. 7 }

abbrev at_start : Run Text ttl
at_start = record {
  items = (codes "api", ready.item) ∷ [];
  log = [];
  rows = row (codes "db") true ∷ [];
  cache = [];
}

answers : DatabaseAnswers by_name ttl agent database 61 host (api ∷ db ∷ []) plan
answers = record { hooks_found = λ log names. ([], refl); commits = λ log. refl }

execute_update_plan_total_example :
    (r : Option UpdatePlanResult) × ((execute_update_plan by_name ttl agent database 61 host
        (api ∷ db ∷ [])
        plan
        true
        (codes "k")
        at_start).0
      ≡ ok r)
execute_update_plan_total_example =
    execute_update_plan_total by_name ttl agent database 61 host (api ∷ db ∷ []) plan answers
      clock_runs (omega arith) true (codes "k") at_start

distinct : Distinct plan.order
unfolding elem ◌==◌
distinct = (refl, (refl, tt))

in_order : elem (codes "api") plan.order ≡ true
unfolding elem ◌==◌
in_order = refl

item_there : lookup (codes "api") at_start.items ≡ some ready.item
unfolding lookup ◌==◌
item_there = refl

update_all-Handled_example :
    (new : Item Text) × (lookup
        (codes "api")
        (update_all by_name ttl agent database 61 host (api ∷ db ∷ []) plan [] at_start).1.items
      ≡ some new)
    × Handled (elem (codes "api") plan.to_update) ready.item new
update_all-Handled_example =
    update_all-Handled by_name ttl agent database 61 host (api ∷ db ∷ []) plan clock_runs
      (omega arith) distinct [] at_start (codes "api") ready.item in_order item_there

abbrev outcome : UpdatePlanResult
outcome = record {
  host_id = 1;
  host_name = codes "h";
  items = record (new_result db) { result = some updated } ∷ [];
}

row_there : find_row 1 (codes "db") at_start.rows ≡ some (row (codes "db") true)
unfolding find_row ◌==◌
row_there = refl

find_row-update_containers_data_after_execution_example :
    Settled 1 outcome.items 1
      (codes "db")
      (row (codes "db") true)
      (find_row 1 (codes "db") (update_containers_data_after_execution outcome 7 at_start.rows))
find_row-update_containers_data_after_execution_example =
    find_row-update_containers_data_after_execution outcome 7 at_start.rows 1 (codes "db")
      (row (codes "db") true) row_there
