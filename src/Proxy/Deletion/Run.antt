-- ===== src/Proxy/Deletion/Run.antt =====
-- event.go and downstream.go: a stream is deleted at most once, whatever comes in and in whatever order.
use psh_mosn.Base.{
  by_both, ◌-◌, ◌==◌, ◌≡◌, refl, sym, some_eq, Bool, true, false, Option, none, some, List, [], ◌∷◌,
  if◌then◌else◌,
}
use psh_mosn.Proxy.{
  new_active_stream, DownStream, offer, Control, start_event, stop_event, reset_downstream,
  reset_upstream,
}
use psh_mosn.Proxy.Upstream.{without_sender}
use psh_mosn.Proxy.Downstream.{reset_stream, respond_headers, with_status}
use psh_mosn.Proxy.Responses.{
  upstream_reset, on_upstream_reset, on_upstream_headers, on_upstream_data, on_upstream_trailers,
  on_response_timeout, on_per_req_timeout, do_retry,
}
use psh_mosn.Proxy.Panics.{IfRuns, IfRuns-when_requested}
use psh_mosn.Proxy.Worker.{
  Job, headers, body, trailers, upstream_headers, upstream_data, upstream_trailers, Input, job,
  control, on_reset_downstream, on_reset_upstream, on_receive_data, on_decode_error,
  response_timeout, per_req_timeout, retry_timeout, Worker, new_worker, run_job, handled,
  if_processing, next_control, take_control, with_control, called, and_then, step, run,
  upstream_reset_stream,
}
use psh_mosn.Proxy.Deletion.{
  Once, deletions, receive_headers-Once, receive_data-Once, receive_trailers-Once,
  reset_stream-Once, respond_headers-Once,
}
use psh_mosn.Proxy.Deletion.Responses.{
  on_upstream_reset-Once, on_upstream_headers-Once, on_upstream_data-Once,
  on_upstream_trailers-Once, on_response_timeout-Once, on_per_req_timeout-Once, do_retry-Once,
}

abbrev WorkerOnce : Worker → Type 0
WorkerOnce w = Once w.stream

run_job-Once : (j : Job) (s : DownStream) → Once s → IfRuns Once (run_job j s)
unfolding run_job
run_job-Once (headers route found res hs end) s h = receive_headers-Once route found res hs end s h
run_job-Once (body bs end) s h = receive_data-Once bs end s h
run_job-Once (trailers t) s h = receive_trailers-Once t s h
run_job-Once (upstream_headers hs end) s h =
    IfRuns-when_requested Once s (on_upstream_headers hs end s)
      (on_upstream_headers-Once hs end s h)
run_job-Once (upstream_data bs end) s h =
    IfRuns-when_requested Once s (on_upstream_data bs end s) (on_upstream_data-Once bs end s h)
run_job-Once (upstream_trailers t) s h =
    IfRuns-when_requested Once s (on_upstream_trailers t s) (on_upstream_trailers-Once t s h)

handled-Once : (o : Option DownStream) → IfRuns Once o → IfRuns WorkerOnce (handled o)
handled-Once none h = tt
handled-Once (some s) h = h

if_processing-Once :
    (d : Option Bool) (w : Worker) (o : Option Worker)
    → WorkerOnce w
    → IfRuns WorkerOnce o
    → IfRuns WorkerOnce (if_processing d w o)
if_processing-Once none w o h k = h
if_processing-Once (some true) w o h k = h
if_processing-Once (some false) w o h k = k

take_control-Once : (c : Control) (w : Worker) → WorkerOnce w → IfRuns WorkerOnce (take_control c w)
take_control-Once start_event w h = h
take_control-Once stop_event w h = h
take_control-Once reset_downstream w h =
    if_processing-Once w.done w (handled (some (reset_stream w.stream))) h
      (reset_stream-Once w.stream h)
take_control-Once (reset_upstream reason) w h =
    let s = w.stream in
    let s1 : DownStream = record s { upstream_request = without_sender s.upstream_request } in
    if_processing-Once w.done w (handled (upstream_reset_stream reason s)) h (
      handled-Once (upstream_reset_stream reason s) (
        IfRuns-when_requested Once s (on_upstream_reset upstream_reset reason s1)
          (on_upstream_reset-Once upstream_reset reason s1 h)))

next_control-Once :
    (cs : List Control) (w : Worker) → WorkerOnce w → IfRuns WorkerOnce (next_control cs w)
next_control-Once [] w h = h
next_control-Once (c ∷ cs) w h = take_control-Once c (with_control cs w) h

called-Once : (w : Worker) (o : Option DownStream) → IfRuns Once o → IfRuns WorkerOnce (called w o)
called-Once w none h = tt
called-Once w (some s) h = h

step-Once : (i : Input) (w : Worker) → WorkerOnce w → IfRuns WorkerOnce (step i w)
unfolding step
step-Once (job j) w h =
    if_processing-Once w.done w (handled (run_job j w.stream)) h
      (handled-Once (run_job j w.stream) (run_job-Once j w.stream h))
step-Once control w h = next_control-Once w.stream.control w h
step-Once on_reset_downstream w h = h
step-Once (on_reset_upstream reason) w h = h
step-Once (on_receive_data bs) w h = h
step-Once (on_decode_error code hs) w h =
    let s = w.stream in
    by_both Once s.upstream_process_done s
      (offer reset_downstream (respond_headers (with_status code hs) true s)) h
      (respond_headers-Once (with_status code hs) true s h)
step-Once response_timeout w h =
    let s = w.stream in
    by_both Once s.response_timer (on_response_timeout s) s (on_response_timeout-Once s h) h
step-Once per_req_timeout w h =
    let s = w.stream in
    called-Once w (if s.per_retry_timer then on_per_req_timeout s else some s) (
      by_both (IfRuns Once) s.per_retry_timer (on_per_req_timeout s) (some s)
        (on_per_req_timeout-Once s h) h)
step-Once (retry_timeout found) w h =
    let s = w.stream in
    let s1 : DownStream = record s { retry_timers = s.retry_timers - 1 } in
    called-Once w (if s.retry_timers == 0 then some s else do_retry found s1) (
      by_both (IfRuns Once) (s.retry_timers == 0) (some s) (do_retry found s1) h
        (do_retry-Once found s1 h))

run-Once : (is : List Input) (w : Worker) → WorkerOnce w → IfRuns WorkerOnce (run is w)
unfolding run
run-Once [] w h = h
run-Once (i ∷ is) w h = following (step i w) (step-Once i w h) (run-Once is)
  where
    following :
        (o : Option Worker)
        → IfRuns WorkerOnce o
        → ((w' : Worker) → WorkerOnce w' → IfRuns WorkerOnce (run is w'))
        → IfRuns WorkerOnce (and_then o (run is))
    following none k r = tt
    following (some w') k r = r w' k

of_run : (o : Option Worker) (w : Worker) → IfRuns WorkerOnce o → o ≡ some w → WorkerOnce w
of_run none w h e = absurd cc
of_run (some v) w h e = rw (some_eq (sym e)) h

-- Whatever a new stream's worker takes, and the stream layer, the timers and the connections call, in
-- any order: where no call has panicked, the stream has been taken off the list of its proxy, with its filters
-- destroyed and the metrics counted down, exactly once if it has been cleaned, and otherwise not at all.
pub deletions-run :
    (inputs : List Input) (w : Worker)
    → run inputs new_worker ≡ some w
    → deletions w.stream.effects ≡ (if w.stream.downstream_cleaned then 1 else 0)
unfolding new_active_stream
deletions-run inputs w e = of_run (run inputs new_worker) w (run-Once inputs new_worker refl) e
