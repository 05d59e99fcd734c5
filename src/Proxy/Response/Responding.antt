-- ===== src/Proxy/Response/Responding.antt =====
-- downstream.go: how the handlers of a live stream lead to its end, and the response from upstream.
use psh_mosn.Base.{ℕ, ◌≡◌, sym, ◌∙◌, Bool, true, false, not, ◌&&◌, Option, none, some, arith}
use psh_mosn.Upstream.Resources.{Resource}
use psh_mosn.Retry.{RetryState, StreamResetReason, other_reason, new_retry_state}
use psh_mosn.Retry
use psh_mosn.Proxy.{
  emit, Effect, Headers, Bytes, DownStream, append_headers, append_data, append_trailers,
}
use psh_mosn.Proxy.Upstream
use psh_mosn.Proxy.Upstream.{NewStream, failed, start_request, on_failure, has_sender}
use psh_mosn.Proxy.Downstream.{
  Route, Lookup, no_cluster, no_pool, pool, is_some, sent_if, routed, received, receive_headers,
  send_request, send_hijack_reply, initialize_failed, reset_if, on_upstream_request_sent,
  setup_per_req_timeout, clean_up, clean_stream, end_stream, respond_headers, respond_data,
  respond_trailers,
}
use psh_mosn.Proxy.Responses.{
  status_of, finished_if, started, on_upstream_response_recv_finished, on_upstream_headers,
  on_upstream_data, on_upstream_trailers,
}
use psh_mosn.Proxy.Leak.{rejected}
use psh_mosn.Proxy.Response.{Core, retry_off, phase, after, closed}
use psh_mosn.Proxy.Response.Closing.{Over, send_hijack_reply-Over, check_retry-Unretried}
use psh_mosn.Proxy.Response.Control.{
  Queued, Queued-reply, Queued-trans, Queued-end_stream, fits, is_empty,
}
use psh_mosn.Proxy.Response.Dying.{Dying, Dying-Over, Pending-waiting}
use psh_mosn.Proxy.Response.Live.{Live, Order, fresh, waiting, streaming, is_fresh}

Live-fits :
    (o : Order) (s : DownStream) → Live o s → fits (is_some s.upstream_request) s.control ≡ true
Live-fits o s h = ground arith

Dying-reply :
    (code : ℕ) (o : Order) (hs : Headers) (end : Bool) (s : DownStream)
    → Live o s
    → o.request ≡ fresh
    → Dying
        (some (send_hijack_reply code (received hs end s)).upstream_process_done)
        (send_hijack_reply code (received hs end s))
Dying-reply code o hs end s h e =
    let t = received hs end s in
    Dying-Over t (send_hijack_reply code t)
      (send_hijack_reply-Over code t (ground arith) (ground arith)) (Queued-reply code t)
      (Live-fits o s h)

-- A request that is rejected.
pub Dying-rejected :
    (route : Option Route) (found : Lookup) (res : Resource) (hs : Headers) (end : Bool) (o : Order)
    (s : DownStream)
    → rejected route found ≡ true
    → Live o s
    → o.request ≡ fresh
    → Dying
        (some (receive_headers route found res hs end s).upstream_process_done)
        (receive_headers route found res hs end s)
unfolding receive_headers send_request initialize_failed
Dying-rejected none found res hs end o s r h e = Dying-reply 404 o hs end s h e
Dying-rejected (some _) no_cluster res hs end o s r h e = Dying-reply 404 o hs end s h e
Dying-rejected (some _) no_pool res hs end o s r h e = Dying-reply 500 o hs end s h e
Dying-rejected (some _) (pool a) res hs end o s r h e = absurd cc

-- A stream that waits for a reset of the upstream request.
record Failing (s : DownStream) : Type 0 where
  core : Core s
  unfinished : s.upstream_process_done ≡ false
  unreset : s.upstream_reset ≡ false
  uncleaned : s.downstream_cleaned ≡ false
  has_request : is_some s.upstream_request ≡ true
  fitting : fits (is_some s.upstream_request) s.control ≡ true
  waits : is_empty s.control ≡ false

Failing-sent : (s : DownStream) → Failing s → Failing (on_upstream_request_sent s)
unfolding on_upstream_request_sent setup_per_req_timeout
Failing-sent s h = ground arith

Failing-sent_if : (end : Bool) (s : DownStream) → Failing s → Failing (sent_if end s)
Failing-sent_if true s h = Failing-sent s h
Failing-sent_if false s h = h

Dying-Failing : (s : DownStream) → Failing s → Dying (some s.upstream_process_done) s
Dying-Failing s h = record {
  core = h.core;
  reset_ends = ground arith;
  fitting = h.fitting;
  pending =
      Pending-waiting s.upstream_process_done s (h.unfinished ∙ sym h.unreset) h.waits
        (ground arith);
}

-- A request whose upstream stream cannot be made.
pub Dying-failed :
    (r : Route) (reason : StreamResetReason) (res : Resource) (hs : Headers) (end : Bool)
    (o : Order) (s : DownStream)
    → r.retry_on ≡ false
    → Live o s
    → o.request ≡ fresh
    → Dying
        (some (receive_headers (some r) (pool (failed reason)) res hs end s).upstream_process_done)
        (receive_headers (some r) (pool (failed reason)) res hs end s)
unfolding receive_headers send_request start_request on_failure new_retry_state
Dying-failed r reason res hs end o s off h e =
    let s1 = start_request (failed reason) end hs (routed r res hs (received hs end s)) in
    let failing : Failing s1 = ground arith in
    Dying-Failing (sent_if end s1) (Failing-sent_if end s1 failing)

-- The handler of response headers without a retry policy.
on_upstream_headers-off :
    (P : DownStream → Type 0) (hs : Headers) (end : Bool) (s : DownStream)
    → retry_off s.retry_state ≡ true
    → ((x : Option RetryState)
        → retry_off x ≡ true
        → P (respond_headers hs end (finished_if end (started (record s { retry_state = x })))))
    → P (on_upstream_headers hs end s)
unfolding on_upstream_headers
on_upstream_headers-off P hs end s off k =
    let (x, still, same) = check_retry-Unretried (status_of hs) other_reason end s off in
    rw same (k x still)

pub Live-headers :
    (hs : Headers) (o : Order) (s : DownStream)
    → Live o s
    → o.response ≡ waiting
    → is_fresh o.request ≡ false
    → Live (record o { response = streaming }) (on_upstream_headers hs false s)
unfolding respond_headers Retry.reset
Live-headers hs o s h e n =
    on_upstream_headers-off (Live (record o { response = streaming })) hs false s h.core.off
      (λ x off. ground arith)

pub Live-data :
    (bs : Bytes) (o : Order) (s : DownStream)
    → Live o s
    → o.response ≡ streaming
    → Live (record o { response = streaming }) (on_upstream_data bs false s)
unfolding on_upstream_data respond_data
Live-data bs o s h e = ground arith

-- The last part of the response, sent once what is left of the request has been cleaned up.
abbrev last_part : Effect → DownStream → DownStream
last_part e s =
    let finished = on_upstream_response_recv_finished s in
    end_stream (emit e (record finished { upstream_process_done = true }))

Over-last :
    (e : Effect) (s : DownStream)
    → (s.downstream_reset && not s.downstream_cleaned) ≡ false
    → retry_off s.retry_state ≡ true
    → s.retry_timers ≡ 0
    → after e (phase s.effects) ≡ closed
    → Over (last_part e s)
unfolding on_upstream_response_recv_finished end_stream clean_stream clean_up Upstream.reset_stream
    Retry.reset
Over-last e s r off n c = ground arith

Queued-finished : (s : DownStream) → Queued s (on_upstream_response_recv_finished s)
unfolding on_upstream_response_recv_finished clean_up Upstream.reset_stream
Queued-finished s = ground arith

Queued-last : (e : Effect) (s : DownStream) → Queued s (last_part e s)
Queued-last e s =
    let finished = on_upstream_response_recv_finished s in
    let t = emit e (record finished { upstream_process_done = true }) in
    Queued-trans s finished (end_stream t) (Queued-finished s)
      (Queued-trans finished t (end_stream t) (ground arith) (Queued-end_stream t))

Dying-last :
    (e : Effect) (o : Order) (s : DownStream)
    → Live o s
    → after e (phase s.effects) ≡ closed
    → Dying (some (last_part e s).upstream_process_done) (last_part e s)
Dying-last e o s h c =
    Dying-Over s (last_part e s) (Over-last e s h.core.reset_cleans h.core.off h.core.no_retry c)
      (Queued-last e s) (Live-fits o s h)

reset_if-off : (x : Option RetryState) → retry_off x ≡ true → retry_off (reset_if x) ≡ true
unfolding Retry.reset
reset_if-off x h = ground arith

pub Dying-headers :
    (hs : Headers) (o : Order) (s : DownStream)
    → Live o s
    → o.response ≡ waiting
    → Dying
        (some (on_upstream_headers hs true s).upstream_process_done)
        (on_upstream_headers hs true s)
unfolding respond_headers
Dying-headers hs o s h e =
    on_upstream_headers-off (λ t. Dying (some t.upstream_process_done) t) hs true s h.core.off
      (λ x off.
        let t = started (record s { retry_state = x }) in
        Dying-Over s (last_part (append_headers hs true) t)
          (Over-last (append_headers hs true) t h.core.reset_cleans (reset_if-off x off)
            h.core.no_retry (ground arith))
          (Queued-trans s t (last_part (append_headers hs true) t) (ground arith)
            (Queued-last (append_headers hs true) t))
          (Live-fits o s h))

pub Dying-data :
    (bs : Bytes) (o : Order) (s : DownStream)
    → Live o s
    → o.response ≡ streaming
    → Dying (some (on_upstream_data bs true s).upstream_process_done) (on_upstream_data bs true s)
unfolding on_upstream_data respond_data
Dying-data bs o s h e = Dying-last (append_data bs true) o s h (ground arith)

pub Dying-trailers :
    (t : Headers) (o : Order) (s : DownStream)
    → Live o s
    → o.response ≡ streaming
    → Dying (some (on_upstream_trailers t s).upstream_process_done) (on_upstream_trailers t s)
unfolding on_upstream_trailers respond_trailers
Dying-trailers t o s h e = Dying-last (append_trailers t) o s h (ground arith)
