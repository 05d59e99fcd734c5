-- ===== src/Proxy/Response/Run.antt =====
-- event.go, downstream.go and upstream.go: the response of a stream without a retry policy, over all
-- sequences of events.
use psh_mosn.Base.{
  ◌-◌, ◌==◌, ◌≡◌, ◌≢◌, inl, inr, refl, sym, ◌∙◌, Bool, true, false, Option, none, some, List, [],
  ◌∷◌, arith, by_true,
}
use mathlib.Core.Path.{subst}
use psh_mosn.Proxy.{Bytes, DownStream, Control, reset_downstream, reset_upstream, new_active_stream}
use psh_mosn.Proxy.Responses.{do_retry}
use psh_mosn.Proxy.Worker.{
  Input, job, control, on_reset_downstream, on_reset_upstream, on_receive_data, on_decode_error,
  response_timeout, per_req_timeout, retry_timeout, Worker, new_worker, run_job, handled,
  if_processing, next_control, called, step, run,
}
use psh_mosn.Proxy.Response.{broken, phase, expected}
use psh_mosn.Proxy.Response.Control.{is_empty}
use psh_mosn.Proxy.Response.Dying.{Dying, Dies-control, Pending}
use psh_mosn.Proxy.Response.Live.{Live, Order}
use psh_mosn.Proxy.Response.Jobs.{allowed, next, next_job, Allowed, Good, Goes, begin, Goes-job}
use psh_mosn.Proxy.Response.Outside.{
  Goes-response_timeout, Goes-per_req_timeout, Core-Good, Good-offer,
}

abbrev entry : Option Bool → DownStream → Worker
entry d s = record { done = d; stream = s }

-- The worker's entry written out.
Goes-entry :
    (o : Order) (w : Worker) (f : Worker → Option Worker)
    → w.done ≡ some false
    → Goes o (f (entry (some false) w.stream))
    → Goes o (f w)
Goes-entry o w f e h = subst (λ d. Goes o (f (entry d w.stream))) (sym e) h

-- A job of a stream that is dying is passed over: none is taken while a control event waits.
Goes-passed :
    (o : Order) (d : Option Bool) (s : DownStream) (m : Option Worker)
    → is_empty s.control ≡ true
    → Dying d s
    → Goes o (if_processing d (entry d s) m)
Goes-passed o none s m e h = (entry none s, refl, inr h)
Goes-passed o (some true) s m e h = (entry (some true) s, refl, inr h)
Goes-passed o (some false) s m e h = let waits = h.pending.1 in absurd cc

Goes-idle :
    (o : Order) (w : Worker) (cs : List Control) → cs ≡ [] → Good o w → Goes o (next_control cs w)
Goes-idle o w [] e g = (w, refl, g)
Goes-idle o w (c ∷ cs) e g = absurd cc

Goes-control : (o : Order) (w : Worker) → Good o w → Goes o (next_control w.stream.control w)
Goes-control o w (inl (e, h)) = Goes-idle o w w.stream.control h.idle (inl (e, h))
Goes-control o w (inr h) =
    let (w', e, h') = Dies-control w.done w.stream w.stream.control refl h in (w', e, inr h')

Good-received :
    (o : Order) (w : Worker) (bs : Bytes)
    → Good o w
    → let s = w.stream in
      Good o (record w { stream = record s { downstream_req_data_buf = some bs } })
Good-received o w bs (inl (e, h)) = inl (e, ground arith)
Good-received o w bs (inr h) = inr (record {
  core = let k = h.core in ground arith;
  reset_ends = h.reset_ends;
  fitting = h.fitting;
  pending = received w.done h.pending;
})
  where
    received :
        (d : Option Bool)
        → Pending d w.stream
        → let s = w.stream in Pending d (record s { downstream_req_data_buf = some bs })
    received none p = tt
    received (some true) p = tt
    received (some false) p = p

Goes-step :
    (i : Input) (o : Order) (w : Worker)
    → Good o w
    → allowed o w i ≡ true
    → Goes (next i o) (step i w)
unfolding step
Goes-step (job j) o w (inl (e, h)) a =
    Goes-entry (next_job j o) w (λ v. if_processing v.done v (handled (run_job j v.stream))) e
      (Goes-job j o w.stream h (ground arith))
Goes-step (job j) o w (inr h) a =
    Goes-passed (next_job j o) w.done w.stream (handled (run_job j w.stream)) (ground arith) h
Goes-step control o w g a = Goes-control o w g
Goes-step on_reset_downstream o w g a = Good-offer o w reset_downstream refl g
Goes-step (on_reset_upstream reason) o w g a = Good-offer o w (reset_upstream reason) a g
Goes-step (on_receive_data bs) o w g a =
    let s = w.stream in
    (
      record w { stream = record s { downstream_req_data_buf = some bs } },
      refl,
      Good-received o w bs g,
    )
Goes-step (on_decode_error code hs) o w g a = absurd cc
Goes-step response_timeout o w g a = Goes-response_timeout o w g
Goes-step per_req_timeout o w g a = Goes-per_req_timeout o w g
Goes-step (retry_timeout found) o w g a =
    let s = w.stream in
    let none_left : (s.retry_timers == 0) ≡ true =
      let k = (Core-Good o w g).no_retry in ground arith in
    by_true (λ m. Goes o (called w m)) (s.retry_timers == 0) (some s)
      (do_retry found (record s { retry_timers = s.retry_timers - 1 })) none_left (w, refl, g)

Goes-run :
    (is : List Input) (o : Order) (w : Worker)
    → Good o w
    → Allowed o w is
    → (o' : Order) × Goes o' (run is w)
unfolding run
Goes-run [] o w g a = (o, (w, refl, g))
Goes-run (i ∷ is) o w g a =
    let (w1, e1, g1) = Goes-step i o w g a.0 in
    let (o2, (w2, e2, g2)) = Goes-run is (next i o) w1 g1 (a.1 w1 e1) in (o2, (w2, rw e1 e2, g2))

abbrev started : Worker
started = let s = new_active_stream in entry (some false) (record s { control = [] })

Live-started : Live begin started.stream
unfolding new_active_stream
Live-started = ground arith

expected-ne-broken : (done begun : Bool) → expected done begun ≢ broken
expected-ne-broken true begun = λ e. cc
expected-ne-broken false true = λ e. cc
expected-ne-broken false false = λ e. cc

-- The worker of a new stream starts it, and takes what comes in afterwards: the parts of a request that can
-- be decoded and of the response to it, in their order, each only while no control event waits; resets of the stream,
-- and of its upstream request once there is one; the ends of timers, in any order. The route has no retry policy.
-- Then no call panics, and what the stream has sent is a response as far as it has come: nothing before the
-- response starts; then headers and data; and once the process is done, a response that one part has ended, or a
-- reset, with no part after either.
pub phase-run :
    (inputs : List Input)
    → Allowed begin new_worker (control ∷ inputs)
    → (w : Worker) × (run (control ∷ inputs) new_worker ≡ some w)
      × (phase w.stream.effects
          ≡ expected w.stream.upstream_process_done w.stream.downstream_response_started)
      × (phase w.stream.effects ≢ broken)
unfolding run step new_active_stream
phase-run inputs a =
    let (o, (w, e, g)) =
      Goes-run inputs begin started (inl (refl, Live-started)) (a.1 started refl) in
    let agrees = (Core-Good o w g).agrees in
    (
      w,
      e,
      agrees,
      λ b.
          expected-ne-broken w.stream.upstream_process_done w.stream.downstream_response_started
            (sym agrees ∙ b),
    )
