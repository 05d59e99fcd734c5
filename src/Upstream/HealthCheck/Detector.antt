-- ===== src/Upstream/HealthCheck/Detector.antt =====
-- healthchecker.go: a session against a detector that counts contrary results in a row.
pub mod Steps
use psh_mosn.Base.{
  ℕ, zero, suc, ◌+◌, ◌%◌, ◌≤◌, ◌<◌, ◌≡◌, refl, ap, ◌∙◌, inl, inr, Bool, true, false, not, List, [],
  ◌∷◌, ◌++◌, arith, ◌==◌, if◌then◌else◌, Bool-cases, by_true, by_false,
}
use psh_mosn.Upstream.{
  Host, failed_active_hc, contain_health_flag, set_health_flag, clear_health_flag,
}
use psh_mosn.Upstream.HealthCheck.{
  HealthChecker, Session, Call, callbacks, timeout_stop, timeout_start, interval_start, FailureType,
  failure_network, failure_passive, failure_active, count_healthy, count_unhealthy, healthy_counted,
  unhealthy_counted, dec_healthy, inc_healthy, refresh_healthy_stat, handle_success, set_unhealthy,
  finish_success, finish_failure, add_success, add_failure, handle_failure, on_timeout, on_interval,
  Occurrence, interval_over, succeeds, runs_out, fails, occur, occur_all,
}

-- Whether the host counts as healthy, and how many results in a row have said otherwise.
pub record Detector : Type 0 where
  pub up : Bool
  pub streak : ℕ

-- A result against the state; the Boolean is whether the streak has reached the threshold.
abbrev pub turned : Bool → Detector → Detector × Bool
turned true d = (record { up = not d.up; streak = 0 }, true)
turned false d = (record d { streak = d.streak + 1 }, false)

abbrev pub against : ℕ → Detector → Detector × Bool
against threshold d = turned (d.streak + 1 == threshold) d

abbrev pub agree : Detector → Detector × Bool
agree d = (record d { streak = 0 }, false)

abbrev pub good : ℕ → Detector → Detector × Bool
good healthy_threshold d = if d.up then agree d else against healthy_threshold d

abbrev pub bad : ℕ → Detector → Detector × Bool
bad unhealthy_threshold d = if d.up then against unhealthy_threshold d else agree d

-- The changes that the detector reports, one Boolean for each result, and its last state.
abbrev pub reported : Bool → Detector × List Bool → Detector × List Bool
reported c r = (r.0, c ∷ r.1)

unfoldable pub detect : ℕ → ℕ → Detector → List Occurrence → Detector × List Bool
detect h u d [] = (d, [])
detect h u d (interval_over ∷ os) = detect h u d os
detect h u d (succeeds ∷ os) = reported (good h d).1 (detect h u (good h d).0 os)
detect h u d (fails f ∷ os) = reported (bad u d).1 (detect h u (bad u d).0 os)
detect h u d (runs_out ∷ os) = reported (bad u d).1 (detect h u (bad u d).0 os)

-- The changes that the callbacks of a session are given.
abbrev pub changes : List Call → List Bool
changes [] = []
changes (callbacks h changed ∷ calls) = changed ∷ changes calls
changes (timeout_stop ∷ calls) = changes calls
changes (interval_start ∷ calls) = changes calls
changes (timeout_start ∷ calls) = changes calls

pub changes-append : (a b : List Call) → changes (a ++ b) ≡ changes a ++ changes b
changes-append [] b = refl
changes-append (callbacks h c ∷ a) b = ap (λ q. c ∷ q) (changes-append a b)
changes-append (timeout_stop ∷ a) b = changes-append a b
changes-append (interval_start ∷ a) b = changes-append a b
changes-append (timeout_start ∷ a) b = changes-append a b

pub record Thresholds (h u : ℕ) : Type 0 where
  pub healthy : (0 < h) × (h < 4294967296)
  pub unhealthy : (0 < u) × (u < 4294967296)

-- The session is in the state of the detector.
pub record Tracks (h u : ℕ) (s : Session) (d : Detector) : Type 0 where
  pub healthy_threshold : s.health_checker.healthy_threshold ≡ h
  pub unhealthy_threshold : s.health_checker.unhealthy_threshold ≡ u
  pub flag : s.host.active_hc_flag ≡ not d.up
  pub counted : (if d.up then s.num_un_healthy else s.num_healthy) ≡ d.streak
  pub below : d.streak < (if d.up then u else h)

-- A step of the session against one of the detector.
abbrev pub Follows : ℕ → ℕ → Session × List Call → Detector × Bool → Type 0
Follows h u (s, calls) (d, changed) = Tracks h u s d × (changes calls ≡ changed ∷ [])
