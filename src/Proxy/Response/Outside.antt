-- ===== src/Proxy/Response/Outside.antt =====
-- event.go and downstream.go: what the timers and the stream layer call on a stream without a retry policy.
use psh_mosn.Base.{
  ◌≡◌, inl, inr, refl, sym, ◌∙◌, Bool, true, false, ◌||◌, Option, none, some, if◌then◌else◌, arith,
  by_true, by_false, Bool-cases,
}
use psh_mosn.Proxy.{DownStream, Control, offer}
use psh_mosn.Proxy.Downstream.{is_some}
use psh_mosn.Proxy.Responses.{on_response_timeout, on_per_req_timeout}
use psh_mosn.Proxy.Worker.{Worker, called}
use psh_mosn.Proxy.Response.{Core}
use psh_mosn.Proxy.Response.Control.{has_stop-offer, fit, fits-offer, is_empty-offer}
use psh_mosn.Proxy.Response.Dying.{Dying, Pending}
use psh_mosn.Proxy.Response.Timers.{
  Timed, Timed-Dying, Dying-response_timeout, Dying-per_req_timeout,
}
use psh_mosn.Proxy.Response.Live.{Live, Order}
use psh_mosn.Proxy.Response.Jobs.{Good, Goes}

Timed-Live : (o : Order) (s : DownStream) → Live o s → Timed (some false) s
Timed-Live o s h = record {
  core = h.core;
  fitting = let e = h.idle in ground arith;
  unfinished = h.unfinished;
  unreset = h.unreset;
  waiting = let u = h.uncleaned in (ground arith, ground arith);
}

Timed-Good :
    (o : Order) (w : Worker)
    → Good o w
    → (w.stream.response_timer || w.stream.per_retry_timer) ≡ true
    → Timed w.done w.stream
Timed-Good o w (inl (e, h)) r = rw e (Timed-Live o w.stream h)
Timed-Good o w (inr h) r = Timed-Dying w.done w.stream h r

pub Goes-response_timeout :
    (o : Order) (w : Worker)
    → Good o w
    → Goes o (
        called w
          (some (if w.stream.response_timer then on_response_timeout w.stream else w.stream)))
Goes-response_timeout o w g =
    let s = w.stream in
    elim (Bool-cases s.response_timer) [
      | inl runs ↦
          by_true (λ t. Goes o (called w (some t))) s.response_timer (on_response_timeout s) s runs
            (
              record w { stream = on_response_timeout s },
              refl,
              inr (Dying-response_timeout w.done s (Timed-Good o w g (ground arith))),
            )
      | inr stopped ↦
          by_false (λ t. Goes o (called w (some t))) s.response_timer (on_response_timeout s) s
            stopped (w, refl, g)
    ]

pub Goes-per_req_timeout :
    (o : Order) (w : Worker)
    → Good o w
    → Goes o
        (called w (if w.stream.per_retry_timer then on_per_req_timeout w.stream else some w.stream))
Goes-per_req_timeout o w g =
    let s = w.stream in
    elim (Bool-cases s.per_retry_timer) [
      | inl runs ↦
          by_true (λ m. Goes o (called w m)) s.per_retry_timer (on_per_req_timeout s) (some s) runs
            (Dying-per_req_timeout (λ m. Goes o (called w m)) w.done s
              (Timed-Good o w g (ground arith)) runs (w, refl, g)
              (λ t h. (record w { stream = t }, refl, inr h)))
      | inr stopped ↦
          by_false (λ m. Goes o (called w m)) s.per_retry_timer (on_per_req_timeout s) (some s)
            stopped (w, refl, g)
    ]

pub Core-Good : (o : Order) (w : Worker) → Good o w → Core w.stream
Core-Good o w (inl (e, h)) = h.core
Core-Good o w (inr h) = h.core

-- A control event is offered.
Pending-offer :
    (d : Option Bool) (s : DownStream) (c : Control) → Pending d s → Pending d (offer c s)
Pending-offer none s c p = tt
Pending-offer (some true) s c p = tt
Pending-offer (some false) s c p =
    ground (arith, has_stop-offer s.control c, is_empty-offer s.control c)

Dying-offer :
    (d : Option Bool) (s : DownStream) (c : Control)
    → fit (is_some s.upstream_request) c ≡ true
    → Dying d s
    → Dying d (offer c s)
Dying-offer d s c f h = record {
  core = let k = h.core in ground arith;
  reset_ends = h.reset_ends;
  fitting =
      let k = h.fitting in ground (arith, fits-offer (is_some s.upstream_request) s.control c);
  pending = Pending-offer d s c h.pending;
}

Live-offer :
    (o : Order) (s : DownStream) (c : Control)
    → fit (is_some s.upstream_request) c ≡ true
    → Live o s
    → Dying (some false) (offer c s)
Live-offer o s c f h = record {
  core = let k = h.core in ground arith;
  reset_ends = let u = h.unreset in ground arith;
  fitting = let i = h.idle in ground (arith, fits-offer (is_some s.upstream_request) s.control c);
  pending = (
    h.unfinished ∙ sym h.unreset,
    is_empty-offer s.control c,
    let u = h.uncleaned in ground arith,
  );
}

pub Good-offer :
    (o : Order) (w : Worker) (c : Control)
    → fit (is_some w.stream.upstream_request) c ≡ true
    → Good o w
    → Goes o (called w (some (offer c w.stream)))
Good-offer o w c f (inl (e, h)) =
    (record w { stream = offer c w.stream }, refl, inr (rw e (Live-offer o w.stream c f h)))
Good-offer o w c f (inr h) =
    (record w { stream = offer c w.stream }, refl, inr (Dying-offer w.done w.stream c f h))
