-- ===== src/Upstream/HealthCheck/Detector/Steps.antt =====
-- healthchecker.go: each step of a session follows the detector, and so does a run.
use psh_mosn.Base.{
  ℕ, ◌+◌, ◌%◌, ◌<◌, ◌≡◌, refl, ap, ◌∙◌, Bool, true, false, List, [], ◌∷◌, ◌++◌, arith, ◌==◌,
  if◌then◌else◌, by_true, by_false,
}
use psh_mosn.Upstream.{contain_health_flag, set_health_flag, clear_health_flag}
use psh_mosn.Upstream.HealthCheck.{
  Session, Call, timeout_stop, interval_start, FailureType, failure_network, count_healthy,
  count_unhealthy, healthy_counted, unhealthy_counted, dec_healthy, inc_healthy,
  refresh_healthy_stat, handle_success, set_unhealthy, finish_success, finish_failure,
  handle_failure, on_timeout, on_interval, Occurrence, interval_over, succeeds, runs_out, fails,
  occur, occur_all,
}
use psh_mosn.Upstream.HealthCheck.Detector.{
  Detector, turned, against, reported, good, bad, detect, changes, changes-append, Thresholds,
  Tracks, Follows,
}

finish_success-Follows :
    (h u : ℕ) (s : Session) (d : Detector) (c : Bool)
    → Tracks h u s d
    → Follows h u (finish_success (s, c)) (d, c)
unfolding refresh_healthy_stat
finish_success-Follows h u s d c k = (
  record {
    healthy_threshold = k.healthy_threshold;
    unhealthy_threshold = k.unhealthy_threshold;
    flag = k.flag;
    counted = k.counted;
    below = k.below;
  },
  refl,
)

finish_failure-Follows :
    (h u : ℕ) (s : Session) (f : FailureType) (d : Detector) (c : Bool)
    → Tracks h u s d
    → Follows h u (finish_failure f (s, c)) (d, c)
unfolding refresh_healthy_stat
finish_failure-Follows h u s f d c k = (
  record {
    healthy_threshold = k.healthy_threshold;
    unhealthy_threshold = k.unhealthy_threshold;
    flag = k.flag;
    counted = k.counted;
    below = k.below;
  },
  refl,
)

module _ (h u : ℕ) (t : Thresholds h u) where
  abbrev Counted : Session × Bool → Detector × Bool → Type 0
  Counted r q = Tracks h u r.0 q.0 × (r.1 ≡ q.1)

  finish_success-Counted :
      (r : Session × Bool) (q : Detector × Bool) → Counted r q → Follows h u (finish_success r) q
  finish_success-Counted r q (k, e) = rw (← e) (finish_success-Follows h u r.0 q.0 r.1 k)

  finish_failure-Counted :
      (f : FailureType) (r : Session × Bool) (q : Detector × Bool)
      → Counted r q
      → Follows h u (finish_failure f r) q
  finish_failure-Counted f r q (k, e) = rw (← e) (finish_failure-Follows h u r.0 f q.0 r.1 k)

  -- A result that agrees with the state of the host ends a streak.
  agree-Tracks :
      (s s0 : Session) (b : Bool) (n : ℕ)
      → Tracks h u s (record { up = b; streak = n })
      → s0.health_checker ≡ s.health_checker
      → s0.host ≡ s.host
      → (if b then s0.num_un_healthy else s0.num_healthy) ≡ 0
      → Tracks h u s0 (record { up = b; streak = 0 })
  agree-Tracks s s0 b n k same_checker same_host e = record {
    healthy_threshold = ap (λ c. c.healthy_threshold) same_checker ∙ k.healthy_threshold;
    unhealthy_threshold = ap (λ c. c.unhealthy_threshold) same_checker ∙ k.unhealthy_threshold;
    flag = ap (λ a. a.active_hc_flag) same_host ∙ k.flag;
    counted = e;
    below = ground (arith, k.below);
  }

  healthy_counted-Tracks :
      (b : Bool) (s : Session) (n m : ℕ)
      → Tracks h u s (record { up = false; streak = n })
      → m ≡ n + 1
      → (b ≡ false → n + 1 < h)
      → Counted
          (healthy_counted b m (record s { num_un_healthy = 0 }))
          (turned b (record { up = false; streak = n }))
  unfolding healthy_counted refresh_healthy_stat inc_healthy clear_health_flag
  healthy_counted-Tracks true s n m k e low = (
    record {
      healthy_threshold = k.healthy_threshold;
      unhealthy_threshold = k.unhealthy_threshold;
      flag = refl;
      counted = refl;
      below = t.unhealthy.0;
    },
    refl,
  )
  healthy_counted-Tracks false s n m k e low = (
    record {
      healthy_threshold = k.healthy_threshold;
      unhealthy_threshold = k.unhealthy_threshold;
      flag = k.flag;
      counted = e;
      below = low refl;
    },
    refl,
  )

  count_healthy-Tracks :
      (s : Session) (n : ℕ)
      → Tracks h u s (record { up = false; streak = n })
      → Counted
          (count_healthy (record s { num_un_healthy = 0 }))
          (against h (record { up = false; streak = n }))
  unfolding count_healthy
  count_healthy-Tracks s n k =
      let m = (s.num_healthy + 1) % 4294967296 in
      let up : m ≡ n + 1 = omega (arith, k.counted, k.below, t.healthy) in
      let test : (m == s.health_checker.healthy_threshold) ≡ (n + 1 == h) =
        λ i. up i == k.healthy_threshold i in
      rw test (healthy_counted-Tracks (n + 1 == h) s n m k up (λ e. ground (arith, k.below)))

  unhealthy_counted-Tracks :
      (b : Bool) (s : Session) (n m : ℕ)
      → Tracks h u s (record { up = true; streak = n })
      → m ≡ n + 1
      → (b ≡ false → n + 1 < u)
      → Counted
          (unhealthy_counted b m (record s { num_healthy = 0 }))
          (turned b (record { up = true; streak = n }))
  unfolding unhealthy_counted refresh_healthy_stat dec_healthy set_health_flag
  unhealthy_counted-Tracks true s n m k e low = (
    record {
      healthy_threshold = k.healthy_threshold;
      unhealthy_threshold = k.unhealthy_threshold;
      flag = refl;
      counted = refl;
      below = t.healthy.0;
    },
    refl,
  )
  unhealthy_counted-Tracks false s n m k e low = (
    record {
      healthy_threshold = k.healthy_threshold;
      unhealthy_threshold = k.unhealthy_threshold;
      flag = k.flag;
      counted = e;
      below = low refl;
    },
    refl,
  )

  count_unhealthy-Tracks :
      (s : Session) (n : ℕ)
      → Tracks h u s (record { up = true; streak = n })
      → Counted
          (count_unhealthy (record s { num_healthy = 0 }))
          (against u (record { up = true; streak = n }))
  unfolding count_unhealthy
  count_unhealthy-Tracks s n k =
      let m = (s.num_un_healthy + 1) % 4294967296 in
      let up : m ≡ n + 1 = omega (arith, k.counted, k.below, t.unhealthy) in
      let test : (m == s.health_checker.unhealthy_threshold) ≡ (n + 1 == u) =
        λ i. up i == k.unhealthy_threshold i in
      rw test (unhealthy_counted-Tracks (n + 1 == u) s n m k up (λ e. ground (arith, k.below)))

  handle_success-by :
      (s : Session) (b : Bool) (n : ℕ)
      → Tracks h u s (record { up = b; streak = n })
      → Follows h u (handle_success s) (good h (record { up = b; streak = n }))
  unfolding handle_success contain_health_flag
  handle_success-by s true n k =
      let s0 : Session = record s { num_un_healthy = 0 } in
      let q : Detector × Bool = (record { up = true; streak = 0 }, false) in
      finish_success-Counted _ q (
        by_false (λ r. Counted r q) s.host.active_hc_flag (count_healthy s0) (s0, false) k.flag
          (agree-Tracks s s0 true n k refl refl refl, refl))
  handle_success-by s false n k =
      let s0 : Session = record s { num_un_healthy = 0 } in
      let q = against h (record { up = false; streak = n }) in
      finish_success-Counted _ q (
        by_true (λ r. Counted r q) s.host.active_hc_flag (count_healthy s0) (s0, false) k.flag
          (count_healthy-Tracks s n k))

  set_unhealthy-by :
      (s : Session) (f : FailureType) (b : Bool) (n : ℕ)
      → Tracks h u s (record { up = b; streak = n })
      → Follows h u (set_unhealthy s f) (bad u (record { up = b; streak = n }))
  unfolding set_unhealthy contain_health_flag
  set_unhealthy-by s f false n k =
      let s0 : Session = record s { num_healthy = 0 } in
      let q : Detector × Bool = (record { up = false; streak = 0 }, false) in
      finish_failure-Counted f _ q (
        by_true (λ r. Counted r q) s.host.active_hc_flag (s0, false) (count_unhealthy s0) k.flag
          (agree-Tracks s s0 false n k refl refl refl, refl))
  set_unhealthy-by s f true n k =
      let s0 : Session = record s { num_healthy = 0 } in
      let q = against u (record { up = true; streak = n }) in
      finish_failure-Counted f _ q (
        by_false (λ r. Counted r q) s.host.active_hc_flag (s0, false) (count_unhealthy s0) k.flag
          (count_unhealthy-Tracks s n k))

  -- Further calls of a step that are no callbacks.
  Follows-quiet :
      (s : Session) (calls more : List Call) (q : Detector × Bool)
      → Follows h u (s, calls) q
      → changes more ≡ []
      → Follows h u (s, calls ++ more) q
  Follows-quiet s calls more q (k, e) none_more =
      (k, changes-append calls more ∙ λ i. e i ++ none_more i)

  -- A session, run over what happens to it, is in step with the detector.
  abbrev Run : Session × List Call → Detector × List Bool → Type 0
  Run r q = Tracks h u r.0 q.0 × (changes r.1 ≡ q.1)

  Run-step :
      (calls : List Call) (q : Detector × Bool) (r : Session × List Call)
      (rest : Detector × List Bool)
      → changes calls ≡ q.1 ∷ []
      → Run r rest
      → Run (r.0, calls ++ r.1) (reported q.1 rest)
  Run-step calls q r rest e (k, f) = (k, changes-append calls r.1 ∙ λ i. e i ++ f i)

  occur_all-Run :
      (os : List Occurrence) (s : Session) (d : Detector)
      → Tracks h u s d
      → Run (occur_all s os) (detect h u d os)
  unfolding occur_all occur detect handle_failure on_timeout on_interval
  occur_all-Run [] s d k = (k, refl)
  occur_all-Run (interval_over ∷ os) s d k = occur_all-Run os (on_interval s).0 d (record {
    healthy_threshold = k.healthy_threshold;
    unhealthy_threshold = k.unhealthy_threshold;
    flag = k.flag;
    counted = k.counted;
    below = k.below;
  })
  occur_all-Run (succeeds ∷ os) s d k =
      let (here, one) = handle_success-by s d.up d.streak k in
      Run-step (handle_success s).1 (good h d) (occur_all (handle_success s).0 os)
        (detect h u (good h d).0 os) one (occur_all-Run os (handle_success s).0 (good h d).0 here)
  occur_all-Run (fails f ∷ os) s d k =
      let r = handle_failure s f in
      let (here, one) =
        Follows-quiet r.0 (set_unhealthy s f).1 (timeout_stop ∷ interval_start ∷ []) (bad u d)
          (set_unhealthy-by s f d.up d.streak k) refl in
      Run-step r.1 (bad u d) (occur_all r.0 os) (detect h u (bad u d).0 os) one
        (occur_all-Run os r.0 (bad u d).0 here)
  occur_all-Run (runs_out ∷ os) s d k =
      let r = on_timeout s in
      let (here, one) =
        Follows-quiet r.0 (set_unhealthy s failure_network).1 (interval_start ∷ []) (bad u d)
          (set_unhealthy-by s failure_network d.up d.streak k) refl in
      Run-step r.1 (bad u d) (occur_all r.0 os) (detect h u (bad u d).0 os) one
        (occur_all-Run os r.0 (bad u d).0 here)

-- A session of health checks, with thresholds between 1 and 2^32 - 1, whose host and counters are in
-- the state of a detector, is so after any checks, failures and timeouts: the host turns unhealthy
-- exactly when `unhealthy_threshold` results in a row say so, and healthy again when
-- `healthy_threshold` in a row do. Every result runs the callbacks once, told of a change exactly
-- when there is one.
pub occur_all-detect :
    (h u : ℕ) (os : List Occurrence) (s : Session) (d : Detector)
    → Thresholds h u
    → Tracks h u s d
    → Tracks h u (occur_all s os).0 (detect h u d os).0
      × (changes (occur_all s os).1 ≡ (detect h u d os).1)
occur_all-detect h u os s d t k = occur_all-Run h u t os s d k
