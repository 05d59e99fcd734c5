-- ===== src/Proxy/Response/Jobs.antt =====
-- event.go, downstream.go and upstream.go: the response of a stream without a retry policy, over all
-- sequences of events.
use psh_mosn.Base.{
  ◌≡◌, ◌⊎◌, inl, inr, refl, ap, Bool, true, false, not, ◌&&◌, Option, none, some, List, [], ◌∷◌,
  arith, by_true,
}
use psh_mosn.Upstream.Resources.{Resource}
use psh_mosn.Proxy.{Headers, DownStream}
use psh_mosn.Proxy.Upstream.{ready, failed}
use psh_mosn.Proxy.Downstream.{
  Route, Lookup, no_cluster, no_pool, pool, is_some, receive_headers, receive_data,
  receive_trailers,
}
use psh_mosn.Proxy.Responses.{on_upstream_headers, on_upstream_data, on_upstream_trailers}
use psh_mosn.Proxy.Worker.{
  Job, headers, body, trailers, upstream_headers, upstream_data, upstream_trailers, Input, job,
  on_reset_upstream, on_decode_error, Worker, run_job, when_requested, handled, step,
}
use psh_mosn.Proxy.Response.Control.{is_empty}
use psh_mosn.Proxy.Response.Dying.{Dying}
use psh_mosn.Proxy.Response.Live.{
  Live, Order, fresh, complete, waiting, streaming, finished, is_fresh, is_receiving, is_waiting,
  is_streaming, requested, responded, Live-ready, Live-body, Live-trailers,
}
use psh_mosn.Proxy.Response.Responding.{
  Dying-rejected, Dying-failed, Live-headers, Live-data, Dying-headers, Dying-data, Dying-trailers,
}

abbrev pub without_retry : Option Route → Bool
without_retry none = true
without_retry (some r) = not r.retry_on

-- What may come next. Jobs come in the order of a request and of the response to it, and the worker takes
-- one only where no control event waits. The route has no retry policy, the upstream request is reset only once
-- there is one, and the request can be decoded.
abbrev pub allowed_job : Order → Job → Bool
allowed_job o (headers route found res hs end) = is_fresh o.request && without_retry route
allowed_job o (body bs end) = is_receiving o.request
allowed_job o (trailers t) = is_receiving o.request
allowed_job o (upstream_headers hs end) = not (is_fresh o.request) && is_waiting o.response
allowed_job o (upstream_data bs end) = is_streaming o.response
allowed_job o (upstream_trailers t) = is_streaming o.response

abbrev pub allowed : Order → Worker → Input → Bool
allowed o w (job j) = is_empty w.stream.control && allowed_job o j
allowed o w (on_reset_upstream reason) = is_some w.stream.upstream_request
allowed o w (on_decode_error code hs) = false
allowed o w _ = true

abbrev pub next_job : Job → Order → Order
next_job (headers route found res hs end) o = record o { request = requested end }
next_job (body bs end) o = record o { request = requested end }
next_job (trailers t) o = record o { request = complete }
next_job (upstream_headers hs end) o = record o { response = responded end }
next_job (upstream_data bs end) o = record o { response = responded end }
next_job (upstream_trailers t) o = record o { response = finished }

abbrev pub next : Input → Order → Order
next (job j) o = next_job j o
next _ o = o

-- Every input is allowed where it comes, as long as nothing panics.
abbrev pub Allowed : Order → Worker → List Input → Type 0
Allowed o w [] = Unit {0}
Allowed o w (i ∷ is) =
    (allowed o w i ≡ true) × ((w' : Worker) → step i w ≡ some w' → Allowed (next i o) w' is)

abbrev pub Good : Order → Worker → Type 0
Good o w = ((w.done ≡ some false) × Live o w.stream) ⊎ Dying w.done w.stream

abbrev pub Goes : Order → Option Worker → Type 0
Goes o m = (w : Worker) × (m ≡ some w) × Good o w

abbrev pub begin : Order
begin = record { request = fresh; response = waiting }

pub Goes-Live : (o : Order) (t : DownStream) → Live o t → Goes o (handled (some t))
Goes-Live o t h = (
  record { done = some t.upstream_process_done; stream = t },
  refl,
  inl (ap some h.unfinished, h),
)

pub Goes-Dying :
    (o : Order) (t : DownStream)
    → Dying (some t.upstream_process_done) t
    → Goes o (handled (some t))
Goes-Dying o t h = (record { done = some t.upstream_process_done; stream = t }, refl, inr h)

pub Goes-some :
    (o : Order) (m : Option DownStream) (t : DownStream)
    → m ≡ some t
    → Live o t
    → Goes o (handled m)
Goes-some o m t e h = rw e (Goes-Live o t h)

pub Goes-requested :
    (o : Order) (s t : DownStream)
    → is_some s.upstream_request ≡ true
    → Goes o (handled (some t))
    → Goes o (handled (when_requested s t))
Goes-requested o s t e h =
    by_true (λ m. Goes o (handled m)) (is_some s.upstream_request) (some t) none e h

pub Goes-headers :
    (route : Option Route) (found : Lookup) (res : Resource) (hs : Headers) (end : Bool) (o : Order)
    (s : DownStream)
    → Live o s
    → o.request ≡ fresh
    → without_retry route ≡ true
    → Goes
        (record o { request = requested end })
        (handled (some (receive_headers route found res hs end s)))
Goes-headers none found res hs end o s h e off =
    Goes-Dying _ (receive_headers none found res hs end s)
      (Dying-rejected none found res hs end o s refl h e)
Goes-headers (some r) no_cluster res hs end o s h e off =
    Goes-Dying _ (receive_headers (some r) no_cluster res hs end s)
      (Dying-rejected (some r) no_cluster res hs end o s refl h e)
Goes-headers (some r) no_pool res hs end o s h e off =
    Goes-Dying _ (receive_headers (some r) no_pool res hs end s)
      (Dying-rejected (some r) no_pool res hs end o s refl h e)
Goes-headers (some r) (pool ready) res hs end o s h e off =
    Goes-Live _ (receive_headers (some r) (pool ready) res hs end s)
      (Live-ready r res hs end o s (ground arith) h e)
Goes-headers (some r) (pool (failed reason)) res hs end o s h e off =
    Goes-Dying _ (receive_headers (some r) (pool (failed reason)) res hs end s)
      (Dying-failed r reason res hs end o s (ground arith) h e)

pub Goes-job :
    (j : Job) (o : Order) (s : DownStream)
    → Live o s
    → allowed_job o j ≡ true
    → Goes (next_job j o) (handled (run_job j s))
unfolding run_job
Goes-job (headers route found res hs end) o s h a =
    Goes-headers route found res hs end o s h (ground arith) (ground arith)
Goes-job (body bs end) o s h a =
    let (t, e, live) = Live-body bs end o s h (ground arith) in
    Goes-some (record o { request = requested end }) (receive_data bs end s) t e live
Goes-job (trailers ts) o s h a =
    let (t, e, live) = Live-trailers ts o s h (ground arith) in
    Goes-some (record o { request = complete }) (receive_trailers ts s) t e live
Goes-job (upstream_headers hs true) o s h a =
    Goes-requested (record o { response = finished }) s (on_upstream_headers hs true s)
      (ground arith)
      (Goes-Dying (record o { response = finished }) (on_upstream_headers hs true s)
        (Dying-headers hs o s h (ground arith)))
Goes-job (upstream_headers hs false) o s h a =
    Goes-requested (record o { response = streaming }) s (on_upstream_headers hs false s)
      (ground arith)
      (Goes-Live (record o { response = streaming }) (on_upstream_headers hs false s)
        (Live-headers hs o s h (ground arith) (ground arith)))
Goes-job (upstream_data bs true) o s h a =
    Goes-requested (record o { response = finished }) s (on_upstream_data bs true s) (ground arith)
      (Goes-Dying (record o { response = finished }) (on_upstream_data bs true s)
        (Dying-data bs o s h (ground arith)))
Goes-job (upstream_data bs false) o s h a =
    Goes-requested (record o { response = streaming }) s (on_upstream_data bs false s)
      (ground arith)
      (Goes-Live (record o { response = streaming }) (on_upstream_data bs false s)
        (Live-data bs o s h (ground arith)))
Goes-job (upstream_trailers ts) o s h a =
    Goes-requested (record o { response = finished }) s (on_upstream_trailers ts s) (ground arith)
      (Goes-Dying (record o { response = finished }) (on_upstream_trailers ts s)
        (Dying-trailers ts o s h (ground arith)))
