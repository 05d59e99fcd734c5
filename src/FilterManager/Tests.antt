-- ===== src/FilterManager/Tests.antt =====
-- filtermanager.go: the theorem at a concrete run.
use psh_mosn.Base.{
  ℕ, ◌+◌, ◌≡◌, refl, true, false, List, [], ◌∷◌, ◌++◌, replicate, if◌then◌else◌, ◌==◌,
}
use psh_mosn.FilterManager.{
  FilterStatus, continue, stop_iteration, Answers, initialize_read_filters, continue_reading,
  on_continue_reading, read_loop, on_write_loop, on_write,
}
use psh_mosn.FilterManager.Writing.{Asked, on_write_loop-Asked}
use psh_mosn.FilterManager.Order.{
  Event, initializes, continues, run, new_connections, upto, run-in_order,
}

-- Every filter stops the chain when it is told of the connection.
abbrev stopping : Answers
stopping = record {
  new_connection = λ i. stop_iteration;
  data_status = λ i. continue;
  has_data = λ i. true;
}

abbrev events : List Event
events = initializes stopping ∷ continues stopping 0 ∷ []

run-in_order_example :
    (c : ℕ) × (d : ℕ) × (c + d ≡ 3)
    × ((run events (replicate 3 false)).0 ≡ replicate c true ++ replicate d false)
    × (new_connections (run events (replicate 3 false)).1 ≡ upto 0 c)
unfolding initialize_read_filters on_continue_reading read_loop
run-in_order_example = run-in_order 3 events (tt, (refl, tt))

two_told : new_connections (run events (replicate 3 false)).1 ≡ 0 ∷ 1 ∷ []
unfolding run initialize_read_filters continue_reading on_continue_reading read_loop
two_told = refl

-- The second write filter stops the chain.
abbrev second_stops : ℕ → FilterStatus
second_stops i = if i == 1 then stop_iteration else continue

on_write-stopped : on_write_loop second_stops 0 3 ≡ (stop_iteration, on_write 0 ∷ on_write 1 ∷ [])
unfolding on_write_loop
on_write-stopped = refl

on_write_loop-Asked_example :
    Asked second_stops 0 3 (on_write_loop second_stops 0 3).0 (on_write_loop second_stops 0 3).1
on_write_loop-Asked_example = on_write_loop-Asked second_stops 3
