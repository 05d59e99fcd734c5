-- ===== src/Upstream/Subsets/Hosts.antt =====
-- subsetlbimpl.go: the hosts of a subset, one host set of it, when hosts are added and removed.
pub mod Removal
pub mod Update
use psh_mosn.Base.{
  ℕ, zero, suc, ◌+◌, ◌-◌, Bool, true, false, Option, none, some, List, [], ◌∷◌, ◌++◌, if◌then◌else◌,
  leb, length, get_elem?, take,
}
use psh_mosn.Upstream.{Host, health}
use psh_mosn.Upstream.Cluster.{move_over}
use psh_mosn.Upstream.Cluster.Matching.{same_address, listed, where_is}

-- The first loop of `GetFinalHosts`.
abbrev pub add_missing : List Host → List Host → List Host
add_missing hosts [] = hosts
add_missing hosts (h ∷ added) =
    add_missing (if listed hosts h then hosts else hosts ++ h ∷ []) added

abbrev pub is_at : Host → Option Host → Bool
is_at h none = false
is_at h (some a) = same_address h a

-- The inner one of the second loop: it ranges over the slice that there is when it starts, from the index `i` and over
-- `rounds` of its elements, while hosts are taken out in place and the slice has the length `n`. A removal behind the
-- end of the shorter slice panics: `none`.
abbrev pub remove_loop : Host → ℕ → ℕ → List Host → ℕ → Option (List Host)
remove_loop h zero i arr n = some (take n arr)
remove_loop h (suc rounds) i arr n =
    let removed = remove_loop h rounds (suc i) (move_over arr n i) (n - 1) in
    let kept = remove_loop h rounds (suc i) arr n in
    if is_at h (get_elem? arr i) then (if leb (suc i) n then removed else none) else kept

abbrev pub remove_each : List Host → List Host → Option (List Host)
remove_each hosts [] = some hosts
remove_each hosts (h ∷ removed) = elim (remove_loop h (length hosts) 0 hosts (length hosts)) [
  | none ↦ none
  | some rest ↦ remove_each rest removed
]

unfoldable pub get_final_hosts : List Host → List Host → List Host → Option (List Host)
get_final_hosts hosts added removed = remove_each (add_missing hosts added) removed

-- The hosts and healthy hosts of the set after an update, with the predicate of the subset.
unfoldable pub update_host_subset :
    (Host → Bool) → List Host → List Host → List Host → Option (List Host × List Host)
unfolding get_final_hosts health
update_host_subset predicate hosts added removed =
    elim (get_final_hosts hosts (where_is predicate added) (where_is predicate removed)) [
      | none ↦ none
      | some final ↦ some (final, where_is health final)
    ]
