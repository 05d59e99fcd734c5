-- ===== src/Proxy/Response/Timers.antt =====
-- downstream.go: the timers of a stream without a retry policy.
use psh_mosn.Base.{
  by_both, ◌≡◌, sym, ◌∙◌, inl, inr, Bool-cases, Bool, true, false, not, ◌&&◌, ◌||◌, Option, none,
  some, arith, by_true,
}
use psh_mosn.Retry.{other_reason}
use psh_mosn.Proxy.{DownStream}
use psh_mosn.Proxy.Upstream
use psh_mosn.Proxy.Downstream.{is_some}
use psh_mosn.Proxy.Responses.{
  UpstreamResetType, upstream_global_timeout, upstream_per_try_timeout, on_upstream_reset,
  on_response_timeout, on_per_req_timeout,
}
use psh_mosn.Proxy.Response.{Core}
use psh_mosn.Proxy.Response.Closing.{on_upstream_reset-Over, on_upstream_reset-reset}
use psh_mosn.Proxy.Response.Control.{
  is_empty, has_stop, fits, Queued, Queued-on_upstream_reset, on_upstream_reset-waits,
}
use psh_mosn.Proxy.Response.Dying.{Pending, Dying}

abbrev pub Waiting : Option Bool → DownStream → Type 0
Waiting none s = Unit {0}
Waiting (some true) s = Unit {0}
Waiting (some false) s =
    ((is_empty s.control && s.downstream_cleaned) ≡ false)
    × ((s.downstream_cleaned && not (has_stop s.control)) ≡ false)

-- A stream that is not over, and that waits for its worker if it has been cleaned.
pub record Timed (d : Option Bool) (s : DownStream) : Type 0 where
  pub core : Core s
  pub fitting : fits (is_some s.upstream_request) s.control ≡ true
  pub unfinished : s.upstream_process_done ≡ false
  pub unreset : s.upstream_reset ≡ false
  pub waiting : Waiting d s

pub Timed-request_reset :
    (d : Option Bool) (s : DownStream) → Timed d s → Timed d (Upstream.reset_stream s)
unfolding Upstream.reset_stream
Timed-request_reset none s h = ground arith
Timed-request_reset (some true) s h = ground arith
Timed-request_reset (some false) s h = ground arith

Pending-Timed :
    (d : Option Bool) (s t : DownStream)
    → Timed d s
    → Queued s t
    → t.upstream_process_done ≡ true
    → t.upstream_reset ≡ true
    → (s.downstream_cleaned ≡ false → is_empty t.control ≡ false)
    → Pending d t
Pending-Timed none s t h q e f w = tt
Pending-Timed (some true) s t h q e f w = tt
Pending-Timed (some false) s t h q e f w = elim (Bool-cases s.downstream_cleaned) [
  | inl cleaned ↦ ground arith
  | inr uncleaned ↦ let waits = w uncleaned in ground arith
]

pub Dying-Timed :
    (d : Option Bool) (kind : UpstreamResetType) (s : DownStream)
    → Timed d s
    → Dying d (on_upstream_reset kind other_reason s)
Dying-Timed d kind s h =
    let t = on_upstream_reset kind other_reason s in
    let (core, over) =
      on_upstream_reset-Over kind other_reason s h.core (h.unfinished ∙ sym h.unreset) in
    let q = Queued-on_upstream_reset kind other_reason s h.core.off in
    record {
      core = core;
      reset_ends = ground arith;
      fitting = let f = h.fitting in ground arith;
      pending =
          Pending-Timed d s t h q over (on_upstream_reset-reset kind other_reason s h.core.off)
            (λ e. on_upstream_reset-waits kind other_reason s h.core.off e h.unreset);
    }

-- A timer that runs finds the stream unfinished.
pub Timed-Dying :
    (d : Option Bool) (s : DownStream)
    → Dying d s
    → (s.response_timer || s.per_retry_timer) ≡ true
    → Timed d s
Timed-Dying d s h r = record {
  core = h.core;
  fitting = h.fitting;
  unfinished = unfinished;
  unreset = let e = h.reset_ends in ground arith;
  waiting = from_pending d h.pending;
}
  where
    unfinished : s.upstream_process_done ≡ false
    unfinished = let q = h.core.quiet in ground arith

    from_pending : (b : Option Bool) → Pending b s → Waiting b s
    from_pending none p = tt
    from_pending (some true) p = tt
    from_pending (some false) p = (ground arith, p.2)

Timed-stopped :
    (d : Option Bool) (s : DownStream) → Timed d s → Timed d (record s { response_timer = false })
Timed-stopped none s h = ground arith
Timed-stopped (some true) s h = ground arith
Timed-stopped (some false) s h = ground arith

Timed-skipped :
    (d : Option Bool) (s : DownStream) → Timed d s → Timed d (record s { per_retry_timer = false })
Timed-skipped none s h = ground arith
Timed-skipped (some true) s h = ground arith
Timed-skipped (some false) s h = ground arith

-- What the timers come to: the stream dies, or nothing happens.
pub Dying-response_timeout :
    (d : Option Bool) (s : DownStream) → Timed d s → Dying d (on_response_timeout s)
unfolding on_response_timeout
Dying-response_timeout d s h =
    let t : DownStream = record s { response_timer = false } in
    Dying-Timed d upstream_global_timeout (Upstream.reset_stream t)
      (Timed-request_reset d t (Timed-stopped d s h))

pub Dying-per_req_timeout :
    (P : Option DownStream → Type 0) (d : Option Bool) (s : DownStream)
    → Timed d s
    → s.per_retry_timer ≡ true
    → P (some s)
    → ((t : DownStream) → Dying d t → P (some t))
    → P (on_per_req_timeout s)
unfolding on_per_req_timeout
Dying-per_req_timeout P d s h r same dies =
    let t : DownStream = record s { per_retry_timer = false } in
    let u = on_upstream_reset upstream_per_try_timeout other_reason (Upstream.reset_stream t) in
    let q = h.core.timed_request in
    by_both P s.downstream_response_started (some s) _ same (
      by_true P (is_some s.upstream_request) (some u) none (ground arith) (
        dies u (
          Dying-Timed d upstream_per_try_timeout (Upstream.reset_stream t)
            (Timed-request_reset d t (Timed-skipped d s h)))))
