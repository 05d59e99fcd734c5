-- ===== src/Proxy/Worker.antt =====
-- pkg/proxy/event.go: the worker of a stream. Handlers run one at a time; what the stream layer, the
-- timers and the connections call comes in between, in any order that the theorems do not rule out.
use psh_mosn.Base.{
  ℕ, ◌-◌, Bool, true, false, Option, none, some, List, [], ◌∷◌, if◌then◌else◌, ◌==◌,
}
use psh_mosn.Upstream.Resources.{Resource}
use psh_mosn.Retry.{StreamResetReason}
use psh_mosn.Proxy.{
  Headers, Bytes, DownStream, Control, start_event, stop_event, reset_downstream, reset_upstream,
  offer, new_active_stream,
}
use psh_mosn.Proxy.Upstream.{without_sender}
use psh_mosn.Proxy.Downstream.{
  Route, Lookup, receive_headers, receive_data, receive_trailers, reset_stream, respond_headers,
  with_status, is_some,
}
use psh_mosn.Proxy.Responses.{
  upstream_reset, on_upstream_reset, on_upstream_headers, on_upstream_data, on_upstream_trailers,
  on_response_timeout, on_per_req_timeout, do_retry,
}

-- The job events.
pub data Job : Type 0 where
  headers : Option Route → Lookup → Resource → Headers → Bool → Job
  body : Bytes → Bool → Job
  trailers : Headers → Job
  upstream_headers : Headers → Bool → Job
  upstream_data : Bytes → Bool → Job
  upstream_trailers : Headers → Job

pub data Input : Type 0 where
  -- The worker takes a job, or the first of the control events.
  job : Job → Input
  control : Input
  -- OnResetStream of the stream or its upstream request.
  on_reset_downstream : Input
  on_reset_upstream : StreamResetReason → Input
  -- OnReceiveData, before its job; OnDecodeError, with the code of the reply and the headers given.
  on_receive_data : Bytes → Input
  on_decode_error : ℕ → Headers → Input
  -- A timer ends.
  response_timeout per_req_timeout : Input
  retry_timeout : Lookup → Input

-- The entry of the stream in the worker's map, and the stream.
pub record Worker : Type 0 where
  pub done : Option Bool
  pub stream : DownStream

abbrev pub new_worker : Worker
new_worker = record { done = none; stream = new_active_stream }

-- Events from upstream go to the upstream request that the stream has now, and panic without one.
abbrev pub when_requested : DownStream → DownStream → Option DownStream
when_requested s s' = if is_some s.upstream_request then some s' else none

unfoldable pub run_job : Job → DownStream → Option DownStream
unfolding receive_headers receive_data receive_trailers on_upstream_headers on_upstream_data
    on_upstream_trailers
run_job (headers route found res h end) s = some (receive_headers route found res h end s)
run_job (body bytes end) s = receive_data bytes end s
run_job (trailers t) s = receive_trailers t s
run_job (upstream_headers h end) s = when_requested s (on_upstream_headers h end s)
run_job (upstream_data bytes end) s = when_requested s (on_upstream_data bytes end s)
run_job (upstream_trailers t) s = when_requested s (on_upstream_trailers t s)

-- streamMap[id] = streamMap[id] || upstreamProcessDone, after a handler.
abbrev pub handled : Option DownStream → Option Worker
handled none = none
handled (some s) = some (record { done = some s.upstream_process_done; stream = s })

-- Only a stream that is in the map, and not done, is handled.
abbrev pub if_processing : Option Bool → Worker → Option Worker → Option Worker
if_processing none w h = some w
if_processing (some true) w h = some w
if_processing (some false) w h = h

-- `ResetStream` of the upstream request.
abbrev pub upstream_reset_stream : StreamResetReason → DownStream → Option DownStream
upstream_reset_stream reason s = when_requested s (
    on_upstream_reset upstream_reset reason
      (record s { upstream_request = without_sender s.upstream_request }))

-- The control event, with the others left.
abbrev pub take_control : Control → Worker → Option Worker
take_control start_event w = some (record w { done = some false })
take_control stop_event w = some (record w { done = none })
take_control reset_downstream w = if_processing w.done w (handled (some (reset_stream w.stream)))
take_control (reset_upstream reason) w =
    if_processing w.done w (handled (upstream_reset_stream reason w.stream))

abbrev pub with_control : List Control → Worker → Worker
with_control cs w = let s = w.stream in record w { stream = record s { control = cs } }

abbrev pub next_control : List Control → Worker → Option Worker
next_control [] w = some w
next_control (c ∷ cs) w = take_control c (with_control cs w)

-- A call from outside the worker.
abbrev pub called : Worker → Option DownStream → Option Worker
called w none = none
called w (some s) = some (record w { stream = s })

-- `OnReceiveData`, before it offers its job, and `OnDecodeError`.
abbrev pub data_buffered : Bytes → DownStream → DownStream
data_buffered bytes s = record s { downstream_req_data_buf = some bytes }

abbrev pub decode_failed : ℕ → Headers → DownStream → DownStream
decode_failed code h s =
    let replied = offer reset_downstream (respond_headers (with_status code h) true s) in
    if s.upstream_process_done then s else replied

unfoldable pub step : Input → Worker → Option Worker
unfolding run_job reset_stream on_upstream_reset respond_headers on_response_timeout
    on_per_req_timeout do_retry
step (job j) w = if_processing w.done w (handled (run_job j w.stream))
step control w = next_control w.stream.control w
step on_reset_downstream w = called w (some (offer reset_downstream w.stream))
step (on_reset_upstream reason) w = called w (some (offer (reset_upstream reason) w.stream))
step (on_receive_data bytes) w = called w (some (data_buffered bytes w.stream))
step (on_decode_error code h) w = called w (some (decode_failed code h w.stream))
step response_timeout w =
    let s = w.stream in called w (some (if s.response_timer then on_response_timeout s else s))
step per_req_timeout w =
    let s = w.stream in called w (if s.per_retry_timer then on_per_req_timeout s else some s)
step (retry_timeout found) w =
    let s = w.stream in
    called w (
      if s.retry_timers == 0
      then some s
      else do_retry found (record s { retry_timers = s.retry_timers - 1 }))

abbrev pub and_then : Option Worker → (Worker → Option Worker) → Option Worker
and_then none f = none
and_then (some w) f = f w

unfoldable pub run : List Input → Worker → Option Worker
unfolding step
run [] w = some w
run (i ∷ is) w = and_then (step i w) (run is)
