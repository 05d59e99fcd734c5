-- ===== src/Upstream/HealthCheck/Gauge.antt =====
-- healthchecker.go: the count of healthy hosts, which is a gauge of the checker.
use psh_mosn.Base.{
  ℕ, ◌+◌, ◌%◌, ◌≡◌, refl, ◌∙◌, inl, inr, Bool, true, false, List, [], ◌∷◌, arith, if◌then◌else◌,
  Bool-cases, by_true, by_false,
}
use psh_mosn.Upstream.{Host, contain_health_flag, set_health_flag, clear_health_flag}
use psh_mosn.Upstream.HealthCheck.{
  HealthChecker, Session, FailureType, failure_network, count_healthy, count_unhealthy,
  healthy_counted, unhealthy_counted, dec_healthy, inc_healthy, refresh_healthy_stat,
  handle_success, set_unhealthy, finish_success, finish_failure, handle_failure, on_timeout,
  on_interval, new_health_check_session, Occurrence, interval_over, succeeds, runs_out, fails,
  occur, occur_all,
}

-- 1 for a host that is flagged.
abbrev pub flagged : Bool → ℕ
flagged true = 1
flagged false = 0

-- The count, were the host of the session healthy.
abbrev pub potential : Session → ℕ
potential s =
    (s.health_checker.local_process_healthy + flagged s.host.active_hc_flag) % 18446744073709551616

abbrev Keeps : Session → Session → Type 0
Keeps s s' = potential s' ≡ potential s

healthy_counted-Keeps :
    (b : Bool) (n : ℕ) (s : Session)
    → s.host.active_hc_flag ≡ true
    → Keeps s (healthy_counted b n s).0
unfolding healthy_counted inc_healthy refresh_healthy_stat clear_health_flag
healthy_counted-Keeps true n s e = rw e (omega arith)
healthy_counted-Keeps false n s e = refl

unhealthy_counted-Keeps :
    (b : Bool) (n : ℕ) (s : Session)
    → s.host.active_hc_flag ≡ false
    → Keeps s (unhealthy_counted b n s).0
unfolding unhealthy_counted dec_healthy refresh_healthy_stat set_health_flag
unhealthy_counted-Keeps true n s e = rw e (omega arith)
unhealthy_counted-Keeps false n s e = refl

finish_success-Keeps :
    (s : Session) (r : Session × Bool) → Keeps s r.0 → Keeps s (finish_success r).0
unfolding refresh_healthy_stat
finish_success-Keeps s r k = k

finish_failure-Keeps :
    (s : Session) (f : FailureType) (r : Session × Bool)
    → Keeps s r.0
    → Keeps s (finish_failure f r).0
unfolding refresh_healthy_stat
finish_failure-Keeps s f r k = k

handle_success-Keeps : (s : Session) → Keeps s (handle_success s).0
unfolding handle_success contain_health_flag count_healthy
handle_success-Keeps s =
    let s0 : Session = record s { num_un_healthy = 0 } in
    let r = if s.host.active_hc_flag then count_healthy s0 else (s0, false) in
    elim (Bool-cases s.host.active_hc_flag) [
      | inl e ↦ finish_success-Keeps s r (
          by_true (λ q. Keeps s q.0) s.host.active_hc_flag (count_healthy s0) (s0, false) e
            (healthy_counted-Keeps _ _ s0 e))
      | inr e ↦
          finish_success-Keeps s r (
            by_false (λ q. Keeps s q.0) s.host.active_hc_flag (count_healthy s0) (s0, false) e refl)
    ]

set_unhealthy-Keeps : (s : Session) (f : FailureType) → Keeps s (set_unhealthy s f).0
unfolding set_unhealthy contain_health_flag count_unhealthy
set_unhealthy-Keeps s f =
    let s0 : Session = record s { num_healthy = 0 } in
    let r = if s.host.active_hc_flag then (s0, false) else count_unhealthy s0 in
    elim (Bool-cases s.host.active_hc_flag) [
      | inl e ↦
          finish_failure-Keeps s f r (
            by_true (λ q. Keeps s q.0) s.host.active_hc_flag (s0, false) (count_unhealthy s0) e
              refl)
      | inr e ↦ finish_failure-Keeps s f r (
          by_false (λ q. Keeps s q.0) s.host.active_hc_flag (s0, false) (count_unhealthy s0) e
            (unhealthy_counted-Keeps _ _ s0 e))
    ]

occur-Keeps : (s : Session) (o : Occurrence) → Keeps s (occur s o).0
unfolding occur handle_failure on_timeout on_interval
occur-Keeps s interval_over = refl
occur-Keeps s succeeds = handle_success-Keeps s
occur-Keeps s (fails f) = set_unhealthy-Keeps s f
occur-Keeps s runs_out = set_unhealthy-Keeps s failure_network

occur_all-Keeps : (os : List Occurrence) (s : Session) → Keeps s (occur_all s os).0
unfolding occur_all
occur_all-Keeps [] s = refl
occur_all-Keeps (o ∷ os) s = occur_all-Keeps os (occur s o).0 ∙ occur-Keeps s o

new_session-potential :
    (c : HealthChecker) (a : Host)
    → potential (new_health_check_session c a)
      ≡ (c.local_process_healthy + (if a.active_hc_flag then 1 else 18446744073709551615))
        % 18446744073709551616
unfolding new_health_check_session contain_health_flag dec_healthy refresh_healthy_stat
new_session-potential c a = created a.active_hc_flag
  where
    created :
        (b : Bool)
        → ((if b then c else dec_healthy c).local_process_healthy + flagged b)
            % 18446744073709551616
          ≡ (c.local_process_healthy + (if b then 1 else 18446744073709551615))
            % 18446744073709551616
    created true = refl
    created false = omega arith

-- The count of healthy hosts and the flag of a session's host change together: after any checks, the
-- count and the flag (as 1) add up to what they did when the session was made. For a host that is
-- flagged then this is the count before and 1, so that its recovery adds 1 to the count. For one that
-- is not, it is the count before less 1, modulo 2^64: the creation takes a healthy host off the count.
pub occur_all-gauge :
    (c : HealthChecker) (a : Host) (os : List Occurrence)
    → potential (occur_all (new_health_check_session c a) os).0
      ≡ (c.local_process_healthy + (if a.active_hc_flag then 1 else 18446744073709551615))
        % 18446744073709551616
occur_all-gauge c a os =
    occur_all-Keeps os (new_health_check_session c a) ∙ new_session-potential c a
