-- ===== src/Upstream/HealthCheck.antt =====
-- pkg/upstream/healthcheck/healthchecker.go: one session of active health checks, with the counters of
-- its checker. Callbacks and timers show as calls.
pub mod Detector
pub mod Gauge
use psh_mosn.Base.{
  ℕ, zero, suc, ◌+◌, ◌%◌, Bool, true, false, not, List, [], ◌∷◌, ◌++◌, ◌==◌, if◌then◌else◌,
}
use psh_mosn.Upstream.{
  Host, HealthFlag, failed_active_hc, contain_health_flag, set_health_flag, clear_health_flag,
}

pub data FailureType : Type 0 where
  failure_network failure_passive failure_active : FailureType

pub record Stats : Type 0 where
  pub attempt : ℕ
  pub success : ℕ
  pub failure : ℕ
  pub passive_failure : ℕ
  pub network_failure : ℕ
  pub healthy : ℕ

-- The fields of healthChecker that a session reads or writes. `local_process_healthy` is a uint64.
pub record HealthChecker : Type 0 where
  pub local_process_healthy : ℕ
  pub healthy_threshold : ℕ
  pub unhealthy_threshold : ℕ
  pub stats : Stats

pub record Session : Type 0 where
  pub health_checker : HealthChecker
  pub num_healthy : ℕ
  pub num_un_healthy : ℕ
  pub host : Host

-- What a session calls: the callbacks with the host and whether it changed, and the timers.
pub data Call : Type 0 where
  callbacks : Host → Bool → Call
  timeout_stop interval_start timeout_start : Call

unfoldable pub refresh_healthy_stat : HealthChecker → HealthChecker
refresh_healthy_stat c = record c { stats = record (c.stats) { healthy = c.local_process_healthy } }

unfoldable pub dec_healthy : HealthChecker → HealthChecker
unfolding refresh_healthy_stat
dec_healthy c = refresh_healthy_stat (record c {
  local_process_healthy = (c.local_process_healthy + 18446744073709551615) % 18446744073709551616;
})

unfoldable pub inc_healthy : HealthChecker → HealthChecker
unfolding refresh_healthy_stat
inc_healthy c =
    refresh_healthy_stat
      (record c { local_process_healthy = (c.local_process_healthy + 1) % 18446744073709551616 })

unfoldable pub new_health_check_session : HealthChecker → Host → Session
unfolding contain_health_flag dec_healthy
new_health_check_session c h = record {
  health_checker = if contain_health_flag failed_active_hc h then c else dec_healthy c;
  num_healthy = 0;
  num_un_healthy = 0;
  host = h;
}

-- The part of `handleSuccess` for a host that is flagged: the session and stateChanged. The first
-- argument is whether the count `n` has reached the threshold.
unfoldable pub healthy_counted : Bool → ℕ → Session → Session × Bool
unfolding inc_healthy clear_health_flag
healthy_counted true n s = (
  record s {
    num_healthy = n;
    host = clear_health_flag failed_active_hc s.host;
    health_checker = inc_healthy s.health_checker;
  },
  true,
)
healthy_counted false n s = (record s { num_healthy = n }, false)

unfoldable pub count_healthy : Session → Session × Bool
unfolding healthy_counted
count_healthy s =
    let n = (s.num_healthy + 1) % 4294967296 in
    healthy_counted (n == s.health_checker.healthy_threshold) n s

abbrev pub add_success : Stats → Stats
add_success t = record t { success = t.success + 1 }

abbrev pub finish_success : Session × Bool → Session × List Call
finish_success (s, changed) =
    let c = s.health_checker in
    (
      record s { health_checker = refresh_healthy_stat (record c { stats = add_success c.stats }) },
      callbacks s.host changed ∷ timeout_stop ∷ interval_start ∷ [],
    )

unfoldable pub handle_success : Session → Session × List Call
unfolding count_healthy contain_health_flag refresh_healthy_stat
handle_success s =
    let s0 : Session = record s { num_un_healthy = 0 } in
    finish_success
      (if contain_health_flag failed_active_hc s.host then count_healthy s0 else (s0, false))

-- The part of `SetUnhealthy` for a host that is not flagged.
unfoldable pub unhealthy_counted : Bool → ℕ → Session → Session × Bool
unfolding dec_healthy set_health_flag
unhealthy_counted true n s = (
  record s {
    num_un_healthy = n;
    host = set_health_flag failed_active_hc s.host;
    health_checker = dec_healthy s.health_checker;
  },
  true,
)
unhealthy_counted false n s = (record s { num_un_healthy = n }, false)

unfoldable pub count_unhealthy : Session → Session × Bool
unfolding unhealthy_counted
count_unhealthy s =
    let n = (s.num_un_healthy + 1) % 4294967296 in
    unhealthy_counted (n == s.health_checker.unhealthy_threshold) n s

abbrev pub add_failure : FailureType → Stats → Stats
add_failure failure_network t = record t {
  failure = t.failure + 1;
  network_failure = t.network_failure + 1;
}
add_failure failure_passive t = record t {
  failure = t.failure + 1;
  passive_failure = t.passive_failure + 1;
}
add_failure failure_active t = record t { failure = t.failure + 1 }

abbrev pub finish_failure : FailureType → Session × Bool → Session × List Call
finish_failure f (s, changed) =
    let c = s.health_checker in
    (
      record s {
        health_checker = refresh_healthy_stat (record c { stats = add_failure f c.stats });
      },
      callbacks s.host changed ∷ [],
    )

unfoldable pub set_unhealthy : Session → FailureType → Session × List Call
unfolding count_unhealthy contain_health_flag refresh_healthy_stat
set_unhealthy s f =
    let s0 : Session = record s { num_healthy = 0 } in
    finish_failure f
      (if contain_health_flag failed_active_hc s.host then (s0, false) else count_unhealthy s0)

unfoldable pub handle_failure : Session → FailureType → Session × List Call
unfolding set_unhealthy
handle_failure s f =
    let (s', calls) = set_unhealthy s f in (s', calls ++ timeout_stop ∷ interval_start ∷ [])

unfoldable pub on_timeout : Session → Session × List Call
unfolding set_unhealthy
on_timeout s =
    let (s', calls) = set_unhealthy s failure_network in (s', calls ++ interval_start ∷ [])

unfoldable pub on_interval : Session → Session × List Call
on_interval s =
    let c = s.health_checker in
    let t = c.stats in
    (
      record s { health_checker = record c { stats = record t { attempt = t.attempt + 1 } } },
      timeout_start ∷ [],
    )

-- What happens to a session: its interval timer fires, or a check succeeds, fails or runs out of time.
pub data Occurrence : Type 0 where
  interval_over succeeds runs_out : Occurrence
  fails : FailureType → Occurrence

unfoldable pub occur : Session → Occurrence → Session × List Call
unfolding on_interval handle_success handle_failure on_timeout
occur s interval_over = on_interval s
occur s succeeds = handle_success s
occur s (fails f) = handle_failure s f
occur s runs_out = on_timeout s

unfoldable pub occur_all : Session → List Occurrence → Session × List Call
occur_all s [] = (s, [])
occur_all s (o ∷ os) =
    let (s1, calls) = occur s o in let (s2, later) = occur_all s1 os in (s2, calls ++ later)
