-- ===== src/Upstream/Cluster.antt =====
-- pkg/upstream/cluster/concreteclusters.go and cluster.go: the hosts of a simple cluster. Once a cluster
-- has been updated, its host list, the host set's and the set's healthy hosts are slices of one array:
-- the state keeps the array and the lengths of the slices. Locality lists are nil, as the code sets them.
pub mod Matching
pub mod Updates
pub mod Sharing
use psh_mosn.Base.{
  ℕ, zero, suc, ◌+◌, ◌-◌, Bool, true, false, not, ◌&&◌, ◌||◌, Option, none, some, List, [], ◌∷◌,
  ◌++◌, ltb, ◌==◌, if◌then◌else◌, length, take, drop,
}
use psh_mosn.Base.Strings.{GoString, str_eq}
use psh_mosn.Upstream.{Host, health, set_weight}

abbrev pub contains : GoString → List GoString → Bool
contains a [] = false
contains a (b ∷ bs) = str_eq b a || contains a bs

-- The inner loop: the current hosts with the address of a new one, which take over its weight and leave
-- the list, and the others.
unfoldable pub take_matching : Host → List Host → List Host × List Host
unfolding set_weight
take_matching nh [] = ([], [])
take_matching nh (c ∷ cs) =
    let r = take_matching nh cs in
    if str_eq nh.address_string c.address_string
    then (set_weight nh.weight c ∷ r.0, r.1)
    else (r.0, c ∷ r.1)

pub record Update : Type 0 where
  pub final_hosts : List Host
  pub hosts_added : List Host
  pub hosts_removed : List Host

-- What one new host adds to the outcome of those behind it.
unfoldable pub with_host : Host → List Host → Update → Update
with_host nh [] u = record u { final_hosts = nh ∷ u.final_hosts; hosts_added = nh ∷ u.hosts_added }
with_host nh (c ∷ cs) u = record u { final_hosts = c ∷ (cs ++ u.final_hosts) }

unfoldable pub update_loop : List Host → List GoString → List Host → Update
unfolding with_host take_matching
update_loop [] host_addrs current = record {
  final_hosts = [];
  hosts_added = [];
  hosts_removed = current;
}
update_loop (nh ∷ new_hosts) host_addrs current =
    let (matched, rest) = take_matching nh current in
    let skipped = update_loop new_hosts host_addrs current in
    let more = update_loop new_hosts (nh.address_string ∷ host_addrs) rest in
    if contains nh.address_string host_addrs then skipped else with_host nh matched more

unfoldable pub update_dynamic_host_list : List Host → List Host → Bool × Update
unfolding update_loop
update_dynamic_host_list new_hosts current =
    let u = update_loop new_hosts [] current in
    (ltb 0 (length u.hosts_added) || ltb 0 (length u.hosts_removed), u)

-- The slices of a cluster: sc.hosts and the host set's hosts, arr[:len], and its healthy hosts,
-- arr[:healthy_len].
pub record Cluster : Type 0 where
  pub arr : List Host
  pub len : ℕ
  pub healthy_len : ℕ

abbrev pub hosts : Cluster → List Host
hosts c = take c.len c.arr

abbrev pub healthy_hosts : Cluster → List Host
healthy_hosts c = take c.healthy_len c.arr

-- What the callbacks of the host set and the health checker are told: the hosts added and removed.
abbrev pub MemberUpdate : Type 0
MemberUpdate = Option (List Host × List Host)

abbrev updated_if : Bool × Update → Cluster → Cluster × MemberUpdate
updated_if (true, u) c = (
  record { arr = u.final_hosts; len = length u.final_hosts; healthy_len = length u.final_hosts },
  some (u.hosts_added, u.hosts_removed),
)
updated_if (false, u) c = (c, none)

-- `UpdateHosts`, which makes the hosts healthy whatever their flags say.
unfoldable pub update_hosts : Cluster → List Host → Cluster × MemberUpdate
unfolding update_dynamic_host_list
update_hosts c new_hosts = updated_if (update_dynamic_host_list new_hosts (hosts c)) c

-- append(s[:i], s[i+1:]...) for the slice arr[:n]: the rest of the slice moves down in the array.
abbrev pub move_over : List Host → ℕ → ℕ → List Host
move_over arr n i = take i arr ++ (drop (i + 1) (take n arr) ++ drop (n - 1) arr)

abbrev pub index_by : (Host → GoString) → GoString → List Host → Option ℕ
index_by key s [] = none
index_by key s (h ∷ hs) =
    let rest = index_by key s hs in
    if str_eq (key h) s then some 0 else elim rest [ none ↦ none | some i ↦ some (i + 1) ]

abbrev remove_at : Option ℕ → Cluster → Cluster × MemberUpdate
remove_at none c = (c, none)
remove_at (some i) c =
    let arr = move_over c.arr c.len i in
    update_hosts (record c { arr = arr }) (take (c.len - 1) arr)

-- `RemoveClusterHosts` of clustermanager.go, on a simple cluster that it finds.
unfoldable pub remove_cluster_hosts : Cluster → Host → Cluster × MemberUpdate
unfolding update_hosts
remove_cluster_hosts c h = remove_at (index_by (λ a. a.address_string) h.address_string (hosts c)) c

abbrev unhealthy_at : Option ℕ → Cluster → Cluster
unhealthy_at none c = c
unhealthy_at (some i) c = record c {
  arr = move_over c.arr c.healthy_len i;
  healthy_len = c.healthy_len - 1;
}

abbrev if_found : Option ℕ → Cluster → Cluster → Cluster
if_found none c d = c
if_found (some i) c d = d

-- `delHealthHost` for a cluster of one host set: found by address, taken out by host name.
unfoldable pub del_health_host : Cluster → Host → Cluster
del_health_host c h =
    if_found (index_by (λ a. a.address_string) h.address_string (hosts c)) c
      (unhealthy_at (index_by (λ a. a.hostname) h.hostname (healthy_hosts c)) c)

abbrev pub panic_if_found : Option ℕ → Cluster → Option Cluster
panic_if_found none c = some c
panic_if_found (some i) c = none

-- `addHealthyHost`: with no locality list the index len - 1 of the last one is out of range, and the
-- call panics (`none`).
unfoldable pub add_healthy_host : Cluster → Host → Option Cluster
add_healthy_host c h =
    panic_if_found (index_by (λ a. a.address_string) h.address_string (hosts c)) c

-- `refreshHealthHosts`
unfoldable pub refresh_health_hosts : Cluster → Host → Option Cluster
unfolding health del_health_host add_healthy_host
refresh_health_hosts c h =
    let added = add_healthy_host c h in if health h then added else some (del_health_host c h)

-- getHealthHost
unfoldable pub get_health_host : List Host → List Host
unfolding health
get_health_host [] = []
get_health_host (h ∷ hs) = let rest = get_health_host hs in if health h then h ∷ rest else rest
