-- ===== src/Stats/Tests.antt =====
-- stats.py at concrete inputs.
use frp_python.Prelude.{lookup, insert, erase, refl, List, [], ◌∷◌, nat_eq, string_eq, list_eq}
use frp_python.Stats.{Stats, new_stats, on_connect, on_disconnect, on_data_in}
use frp_python.Stats.Invariant.{
  Event, connect, disconnect, data_in, IsConsistent, AllFit, run, run-IsConsistent,
  new_stats-IsConsistent,
}

abbrev session : List Event
session =
    connect "web" "a" "tcp" 80 1
    ∷ connect "web" "b" "tcp" 80 2
    ∷ data_in "a" 10
    ∷ disconnect "a"
    ∷ []

session-AllFit : AllFit session (new_stats 0)
unfolding on_connect on_disconnect on_data_in lookup insert erase
session-AllFit = (refl, (refl, (tt, (refl, tt))))

run-IsConsistent_example : IsConsistent (run session (new_stats 0))
run-IsConsistent_example =
    run-IsConsistent session (new_stats 0) session-AllFit (new_stats-IsConsistent 0)

abbrev busy : Stats
busy = run (connect "web" "a" "tcp" 80 1 ∷ []) (new_stats 0)

busy-AllFit : AllFit (connect "web" "a" "tcp" 80 1 ∷ []) (new_stats 0)
unfolding lookup
busy-AllFit = (refl, tt)
