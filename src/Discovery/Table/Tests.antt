-- ===== src/Discovery/Table/Tests.antt =====
-- The theorems on the watchers of a resolver at a history of three calls.
use yggdrasil_ecosystem.Prelude.{◌≡◌, List, [], ◌∷◌}
use yggdrasil_ecosystem.Prelude.Text.{codes}
use yggdrasil_ecosystem.Discovery.Table.{WatchCall, add_call, del_call, new_table, calls}
use yggdrasil_ecosystem.Discovery.Table.Laws.{IsOneLoop, calls-IsOneLoop}
use yggdrasil_ecosystem.Discovery.Table.Watching.{watching, watching_all, watching-calls}

abbrev three_calls : List WatchCall
three_calls = add_call (codes "app") 1 ∷ add_call (codes "app") 2 ∷ del_call (codes "app") 1 ∷ []

calls-IsOneLoop_example : IsOneLoop (codes "app") (calls three_calls new_table)
calls-IsOneLoop_example = calls-IsOneLoop three_calls (codes "app")

watching-calls_example :
    watching (calls three_calls new_table) (codes "app") 2
    ≡ watching_all three_calls (watching new_table) (codes "app") 2
watching-calls_example = watching-calls three_calls new_table (codes "app") 2
