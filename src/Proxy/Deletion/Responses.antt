-- ===== src/Proxy/Deletion/Responses.antt =====
-- downstream.go: how often the handlers of a response, and of the timers, take a stream off the list of its proxy.
use psh_mosn.Base.{by_both, ◌+◌, Bool, true, false, not, ◌&&◌, Option, none, some, [], arith}
use psh_mosn.Base.Int.{ℤ}
use psh_mosn.Retry.{
  RetryState, RetryCheckStatus, should_retry, no_retry, retry_overflow, StreamResetReason,
  other_reason, retry,
}
use psh_mosn.Proxy.{Headers, Bytes, DownStream, ◌>>=◌}
use psh_mosn.Proxy.Upstream
use psh_mosn.Proxy.Upstream.{NewStream, ready, failed, start_request, on_ready, on_failure}
use psh_mosn.Proxy.Downstream.{
  Lookup, no_cluster, no_pool, pool, clean_up, send_hijack_reply, setup_per_req_timeout,
  initialize_failed, is_some, or_empty,
}
use psh_mosn.Proxy.Responses.{
  UpstreamResetType, setup_retry, answered, check_retry, reset_or_reply, on_upstream_reset,
  on_upstream_response_recv_finished, on_upstream_headers, on_upstream_data, on_upstream_trailers,
  on_response_timeout, on_per_req_timeout, retry_data, retry_trailers, do_retry, is_global,
  finished_if, started, status_of, upstream_global_timeout, upstream_per_try_timeout, reset_code,
}
use psh_mosn.Proxy.Panics.{IfRuns, IfRuns-then}
use psh_mosn.Proxy.Deletion.{
  Once, request_reset-Once, end_stream-Once, respond_headers-Once, respond_data-Once,
  respond_trailers-Once, send_hijack_reply-Once, setup_per_req_timeout-Once, initialize_failed-Once,
  start_request-Once, append_data-Once, append_trailers-Once,
}

setup_retry-Once : (end : Bool) (s : DownStream) → Once s → Once (setup_retry end s).1
unfolding setup_retry
setup_retry-Once end s h = ground (arith, request_reset-Once s)

check_retry-Once :
    (status : Option ℤ) (reason : StreamResetReason) (end : Bool) (s : DownStream)
    → Once s
    → Once (check_retry status reason end s).1
check_retry-Once status reason end s h = checked s.retry_state
  where
    answer : (o : RetryState × RetryCheckStatus) → Once (answered end s o).1
    answer (r, should_retry) =
        setup_retry-Once end (record s { retry_state = some r; retry_timers = s.retry_timers + 1 })
          h
    answer (r, no_retry) = h
    answer (r, retry_overflow) = h

    checked :
        (o : Option RetryState)
        → Once
            (elim o as (λ q. Bool × DownStream) [
              | none ↦ (false, s)
              | some r ↦ answered end s (retry r status reason)
            ]).1
    checked none = h
    checked (some r) = answer (retry r status reason)

reset_or_reply-Once :
    (kind : UpstreamResetType) (s : DownStream) → Once s → Once (reset_or_reply kind s)
unfolding reset_or_reply clean_up
reset_or_reply-Once kind s h =
    ground
      (arith, end_stream-Once (clean_up s), send_hijack_reply-Once (reset_code kind) (clean_up s))

pub on_upstream_reset-Once :
    (kind : UpstreamResetType) (reason : StreamResetReason) (s : DownStream)
    → Once s
    → Once (on_upstream_reset kind reason s)
unfolding on_upstream_reset
on_upstream_reset-Once kind reason s h =
    let s1 : DownStream = record s { upstream_reset = true } in
    let checked = check_retry none reason true s1 in
    let kept : Once checked.1 = check_retry-Once none reason true s1 h in
    by_both Once s.upstream_reset s _ h (
      by_both Once (not (is_global kind) && s.downstream_response_started) _
        (reset_or_reply kind s1)
        (by_both Once checked.0 checked.1 (reset_or_reply kind checked.1) kept
          (reset_or_reply-Once kind checked.1 kept))
        (reset_or_reply-Once kind s1 h))

finished-Once : (s : DownStream) → Once s → Once (on_upstream_response_recv_finished s)
unfolding on_upstream_response_recv_finished clean_up
finished-Once s h = ground (arith, request_reset-Once s)

finished_if-Once : (end : Bool) (s : DownStream) → Once s → Once (finished_if end s)
finished_if-Once true s h = finished-Once s h
finished_if-Once false s h = h

pub on_upstream_headers-Once :
    (hs : Headers) (end : Bool) (s : DownStream) → Once s → Once (on_upstream_headers hs end s)
unfolding on_upstream_headers
on_upstream_headers-Once hs end s h =
    let checked = check_retry (status_of hs) other_reason end s in
    let kept : Once checked.1 = check_retry-Once (status_of hs) other_reason end s h in
    by_both Once checked.0 checked.1 _ kept (
      respond_headers-Once hs end (finished_if end (started checked.1))
        (finished_if-Once end (started checked.1) kept))

pub on_upstream_data-Once :
    (bs : Bytes) (end : Bool) (s : DownStream) → Once s → Once (on_upstream_data bs end s)
unfolding on_upstream_data
on_upstream_data-Once bs end s h =
    respond_data-Once bs end (finished_if end s) (finished_if-Once end s h)

pub on_upstream_trailers-Once :
    (t : Headers) (s : DownStream) → Once s → Once (on_upstream_trailers t s)
unfolding on_upstream_trailers
on_upstream_trailers-Once t s h =
    respond_trailers-Once t (on_upstream_response_recv_finished s) (finished-Once s h)

pub on_response_timeout-Once : (s : DownStream) → Once s → Once (on_response_timeout s)
unfolding on_response_timeout
on_response_timeout-Once s h =
    let s1 : DownStream = record s { response_timer = false } in
    on_upstream_reset-Once upstream_global_timeout other_reason (Upstream.reset_stream s1)
      (request_reset-Once s1 h)

pub on_per_req_timeout-Once : (s : DownStream) → Once s → IfRuns Once (on_per_req_timeout s)
unfolding on_per_req_timeout
on_per_req_timeout-Once s h =
    let s1 : DownStream = record s { per_retry_timer = false } in
    by_both (IfRuns Once) s.downstream_response_started (some s) _ h (
      by_both (IfRuns Once) (is_some s.upstream_request)
        (some (on_upstream_reset upstream_per_try_timeout other_reason (Upstream.reset_stream s1)))
        none
        (on_upstream_reset-Once upstream_per_try_timeout other_reason (Upstream.reset_stream s1)
          (request_reset-Once s1 h))
        tt)

retry_data-Once :
    (o : Option Bytes) (end : Bool) (s : DownStream) → Once s → IfRuns Once (retry_data o end s)
retry_data-Once none end s h = h
retry_data-Once (some bytes) end s h = append_data-Once [] end s h

retry_trailers-Once :
    (o : Option Headers) (s : DownStream) → Once s → IfRuns Once (retry_trailers o s)
retry_trailers-Once none s h = h
retry_trailers-Once (some t) s h = append_trailers-Once t s h

failed_retry-Once :
    (found : Lookup) (s : DownStream)
    → Once s
    → Once (clean_up (send_hijack_reply 500 (initialize_failed found s)))
unfolding clean_up
failed_retry-Once found s h =
    send_hijack_reply-Once 500 (initialize_failed found s) (initialize_failed-Once found s h)

pub do_retry-Once : (found : Lookup) (s : DownStream) → Once s → IfRuns Once (do_retry found s)
unfolding do_retry
do_retry-Once no_cluster s h = failed_retry-Once no_cluster s h
do_retry-Once no_pool s h = failed_retry-Once no_pool s h
do_retry-Once (pool answer) s h =
    let end = is_some s.downstream_req_data_buf && is_some s.downstream_req_trailers in
    let begun = start_request answer end (or_empty s.downstream_req_headers) s in
    let appended =
      retry_data s.downstream_req_data_buf (not (is_some s.downstream_req_trailers)) begun in
    IfRuns-then Once (appended >>= retry_trailers s.downstream_req_trailers)
      (λ s2. some (setup_per_req_timeout s2))
      (IfRuns-then Once appended (retry_trailers s.downstream_req_trailers)
        (retry_data-Once s.downstream_req_data_buf (not (is_some s.downstream_req_trailers)) begun
          (start_request-Once answer end (or_empty s.downstream_req_headers) s h))
        (retry_trailers-Once s.downstream_req_trailers))
      setup_per_req_timeout-Once
