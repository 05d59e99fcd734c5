-- ===== src/Upstream/Tests.antt =====
-- pkg/upstream: runs of the models, and the theorems at concrete hosts.
use mathlib.Core.Option
use psh_mosn.Base.{
  ℕ, ◌*◌, ◌≡◌, ◌↔◌, refl, inl, true, false, none, some, List, [], ◌∷◌, arith, length,
}
use psh_mosn.Upstream.{Host, HostSet}
use psh_mosn.Upstream.LoadBalancer.Turns.{choices, rounds, turns}
use psh_mosn.Upstream.LoadBalancer.Cycle.{choices-rounds}
use psh_mosn.Upstream.HealthCheck.{
  HealthChecker, Session, Occurrence, interval_over, succeeds, fails, runs_out, failure_active,
  new_health_check_session, occur_all,
}
use psh_mosn.Upstream.HealthCheck.Detector.{Tracks, detect, changes}
use psh_mosn.Upstream.HealthCheck.Detector.Steps.{occur_all-detect}
use psh_mosn.Upstream.HealthCheck.Gauge.{potential, occur_all-gauge}
use psh_mosn.Upstream.Cluster.{
  hosts, healthy_hosts, update_dynamic_host_list, del_health_host, add_healthy_host,
  remove_cluster_hosts,
}
use psh_mosn.Upstream.Cluster.Updates.{update_dynamic_host_list-description}
use psh_mosn.Upstream.Cluster.Sharing.{updated, before, del_health_host-shared}

-- A host named and addressed by one byte.
abbrev host : ℕ → Host
host n = record {
  hostname = n ∷ [];
  address_string = n ∷ [];
  weight = 1;
  used = false;
  active_hc_flag = false;
  outlier_check_flag = false;
}

abbrev host_set : ℕ → List Host → HostSet
host_set p hs = record {
  priority = p;
  hosts = hs;
  healthy_hosts = hs;
  hosts_per_locality = [];
  healthy_hosts_per_locality = [];
}

-- Two hosts, none, and one.
abbrev three_sets : List HostSet
three_sets = host_set 0 (host 1 ∷ host 2 ∷ []) ∷ host_set 1 [] ∷ host_set 2 (host 3 ∷ []) ∷ []

choices-rounds_example :
    Option.map
      (λ a. a.0)
      (choices
        (2 * length (turns three_sets))
        three_sets
        (record { rr_index_priority = 0; rr_index = 0 }))
    ≡ some (rounds 2 (some (host 1) ∷ some (host 2) ∷ none ∷ some (host 3) ∷ []))
choices-rounds_example =
    choices-rounds three_sets (record { rr_index_priority = 0; rr_index = 0 }) 2 (omega arith)
      (omega arith, (omega arith, (omega arith, tt))) (inl (refl, omega arith, omega arith))

abbrev checker : HealthChecker
checker = record {
  local_process_healthy = 0;
  healthy_threshold = 2;
  unhealthy_threshold = 3;
  stats = record {
    attempt = 0;
    success = 0;
    failure = 0;
    passive_failure = 0;
    network_failure = 0;
    healthy = 0;
  };
}

abbrev session : Session
session = record { health_checker = checker; num_healthy = 0; num_un_healthy = 0; host = host 1 }

abbrev bad_hour : List Occurrence
bad_hour =
    interval_over
    ∷ fails failure_active
    ∷ runs_out
    ∷ fails failure_active
    ∷ succeeds
    ∷ succeeds
    ∷ []

occur_all-detect_example :
    Tracks 2 3
      (occur_all session bad_hour).0
      (detect 2 3 (record { up = true; streak = 0 }) bad_hour).0
    × (changes (occur_all session bad_hour).1
        ≡ (detect 2 3 (record { up = true; streak = 0 }) bad_hour).1)
occur_all-detect_example =
    occur_all-detect 2 3 bad_hour session (record { up = true; streak = 0 })
      (record { healthy = (omega arith, omega arith); unhealthy = (omega arith, omega arith) })
      (record {
        healthy_threshold = refl;
        unhealthy_threshold = refl;
        flag = refl;
        counted = refl;
        below = omega arith;
      })

-- The third failure turns the host unhealthy, and the second success healthy again.
bad_hour_detected :
    (detect 2 3 (record { up = true; streak = 0 }) bad_hour).1
    ≡ false ∷ false ∷ true ∷ false ∷ true ∷ []
unfolding detect
bad_hour_detected = refl

occur_all-gauge_example :
    potential (occur_all (new_health_check_session checker (host 1)) bad_hour).0
    ≡ 18446744073709551615
occur_all-gauge_example = occur_all-gauge checker (host 1) bad_hour

-- Of two current hosts one stays, one goes, and one comes, which is named twice.
update_dynamic_host_list-description_example :
    let (changed, u) =
      update_dynamic_host_list (host 3 ∷ host 1 ∷ host 3 ∷ []) (host 1 ∷ host 2 ∷ []) in
    (u.final_hosts ≡ host 3 ∷ host 1 ∷ [])
    × (u.hosts_added ≡ host 3 ∷ [])
    × (u.hosts_removed ≡ host 2 ∷ [])
    × ((changed ≡ false) ↔ ((u.hosts_added ≡ []) × (u.hosts_removed ≡ [])))
update_dynamic_host_list-description_example =
    update_dynamic_host_list-description (host 3 ∷ host 1 ∷ host 3 ∷ []) (host 1 ∷ host 2 ∷ [])
      (refl, (refl, tt))

del_health_host-shared_example :
    let c = del_health_host (updated (before [] (host 2 ∷ []) (host 1) (host 3))) (host 1) in
    (healthy_hosts c ≡ host 2 ∷ host 3 ∷ [])
    × (hosts c ≡ host 2 ∷ host 3 ∷ host 3 ∷ [])
    × (add_healthy_host c (host 1) ≡ some c)
del_health_host-shared_example =
    del_health_host-shared [] (host 2 ∷ []) (host 1) (host 3) tt (refl, (refl, (refl, tt))) tt

-- `RemoveClusterHosts` of a host that is not the last finds that nothing has changed.
first_removed :
    remove_cluster_hosts (updated (host 1 ∷ host 2 ∷ host 3 ∷ [])) (host 1)
    ≡ (record { arr = host 2 ∷ host 3 ∷ host 3 ∷ []; len = 3; healthy_len = 3 }, none)
unfolding remove_cluster_hosts
first_removed = refl
