-- ===== src/FilterManager.antt =====
-- pkg/network/filtermanager.go: the chains of read and write filters of a connection. What a filter
-- answers is a parameter of each call; the calls of the filters show as a list. A filter that is asked
-- does not call back into the chain here, before it has answered. The index of a filter is its place.
pub mod Order
pub mod Writing
mod Tests
use psh_mosn.Base.{
  ℕ, zero, suc, ◌+◌, Bool, true, false, List, [], ◌∷◌, ◌++◌, if◌then◌else◌, take, drop,
}

pub data FilterStatus : Type 0 where
  continue stop_iteration : FilterStatus

pub data FilterCall : Type 0 where
  on_new_connection on_data on_write : ℕ → FilterCall

-- What the filters answer during one call, and whether the read buffer has data for each.
pub record Answers : Type 0 where
  pub new_connection : ℕ → FilterStatus
  pub data_status : ℕ → FilterStatus
  pub has_data : ℕ → Bool

abbrev pub unless_stopped : {A : Type 0} → FilterStatus → A → A → A
unless_stopped continue x y = x
unless_stopped stop_iteration x y = y

-- The outcome of the loop: the flags `initialized` from here on, and the calls.
abbrev pub Outcome : Type 0
Outcome = List Bool × List FilterCall

abbrev pub called : FilterCall → Outcome → Outcome
called c o = (o.0, c ∷ o.1)

-- The part of the loop's body behind OnNewConnection, for filter `i`, which is initialized.
abbrev pub offer_data : Answers → ℕ → List Bool → Outcome → Outcome
offer_data a i fs rest =
    let more : Outcome = (true ∷ rest.0, rest.1) in
    if a.has_data i
    then called (on_data i) (unless_stopped (a.data_status i) more (true ∷ fs, []))
    else more

unfoldable pub read_loop : Answers → ℕ → List Bool → Outcome
read_loop a i [] = ([], [])
read_loop a i (true ∷ fs) = offer_data a i fs (read_loop a (i + 1) fs)
read_loop a i (false ∷ fs) =
    let offered = offer_data a i fs (read_loop a (i + 1) fs) in
    called (on_new_connection i) (unless_stopped (a.new_connection i) offered (true ∷ fs, []))

-- `onContinueReading`, which starts at filter `k`: the first one, or that behind the filter given.
unfoldable pub on_continue_reading : Answers → ℕ → List Bool → Outcome
unfolding read_loop
on_continue_reading a k fs = let rest = read_loop a k (drop k fs) in (take k fs ++ rest.0, rest.1)

unfoldable pub initialize_read_filters : Answers → List Bool → Bool × Outcome
unfolding on_continue_reading
initialize_read_filters a [] = (false, ([], []))
initialize_read_filters a (f ∷ fs) = (true, on_continue_reading a 0 (f ∷ fs))

unfoldable pub on_read : Answers → List Bool → Outcome
unfolding on_continue_reading
on_read a fs = on_continue_reading a 0 fs

-- `ContinueReading` of filter `j`, whose index has been set.
unfoldable pub continue_reading : Answers → ℕ → List Bool → Outcome
unfolding on_continue_reading
continue_reading a j fs = on_continue_reading a (j + 1) fs

-- `OnWrite` over `n` write filters from filter `i` on.
unfoldable pub on_write_loop : (ℕ → FilterStatus) → ℕ → ℕ → FilterStatus × List FilterCall
on_write_loop a i zero = (continue, [])
on_write_loop a i (suc n) =
    let rest = on_write_loop a (i + 1) n in
    unless_stopped (a i) (rest.0, on_write i ∷ rest.1) (stop_iteration, on_write i ∷ [])
