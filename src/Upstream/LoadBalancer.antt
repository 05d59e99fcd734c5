-- ===== src/Upstream/LoadBalancer.antt =====
-- pkg/upstream/cluster/loadbalancer.go: the round robin and the random choice of a host.
pub mod Turns
pub mod Cycle
use psh_mosn.Base.{
  ℕ, zero, suc, ◌+◌, ◌%◌, Bool, Option, none, some, List, [], ◌∷◌, leb, ◌==◌, if◌then◌else◌, length,
  get_elem?,
}
use psh_mosn.Upstream.{Host, HostSet}

abbrev pub u32 : ℕ → ℕ
u32 n = n % 4294967296

-- hostSets[p].HealthyHosts()
abbrev pub healthy_at : List HostSet → ℕ → List Host
healthy_at [] p = []
healthy_at (s ∷ sets) zero = s.healthy_hosts
healthy_at (s ∷ sets) (suc p) = healthy_at sets p

pub record RoundRobin : Type 0 where
  pub rr_index_priority : ℕ
  pub rr_index : ℕ

abbrev pub pick : RoundRobin → List Host → RoundRobin × Option Host
pick l [] = (l, none)
pick l (h ∷ hs) = (
  record l { rr_index = u32 (l.rr_index + 1) },
  get_elem? (h ∷ hs) (l.rr_index % u32 (length (h ∷ hs))),
)

-- `none` is a panic, where there is no host set.
unfoldable pub choose_round_robin : List HostSet → RoundRobin → Option (RoundRobin × Option Host)
choose_round_robin sets l =
    let num = u32 (length sets) in
    let current = healthy_at sets (l.rr_index_priority % num) in
    let next = u32 (l.rr_index_priority + 1) % num in
    let moved = pick (record { rr_index_priority = next; rr_index = 0 }) (healthy_at sets next) in
    if num == 0
    then none
    else some (if leb (u32 (length current)) l.rr_index then moved else pick l current)

-- rand.Intn is a parameter: `draw n` for a positive `n`. It panics at zero.
abbrev pick_random : ℕ → List Host → Option Host
pick_random j [] = none
pick_random j (h ∷ hs) = get_elem? (h ∷ hs) j

unfoldable pub choose_random : (ℕ → ℕ) → (ℕ → ℕ) → List HostSet → Option (Option Host)
choose_random draw_set draw_host [] = none
choose_random draw_set draw_host (s ∷ sets) =
    let hosts = healthy_at (s ∷ sets) (draw_set (length (s ∷ sets))) in
    some (pick_random (draw_host (length hosts)) hosts)
