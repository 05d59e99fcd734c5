-- ===== src/Proxy/Downstream.antt =====
-- pkg/proxy/downstream.go: the handlers of a stream.
use psh_mosn.Base.{ℕ, Bool, true, false, not, ◌||◌, Option, none, some, [], if◌then◌else◌}
use psh_mosn.Base.Int.{is_positive}
use psh_mosn.Base.Strings.{insert, text}
use psh_mosn.Upstream.Resources.{Resource}
use psh_mosn.Retry.{
  RetryState, StreamResetReason, stream_overflow, other_reason, RetryCheckStatus, should_retry,
  no_retry, retry_overflow, new_retry_state, retry,
}
use psh_mosn.Retry
use psh_mosn.Proxy.{
  Headers, Bytes, Timeout, DownStream, append_headers, append_data, append_trailers, reset_response,
  delete_active_stream, stop_event, reset_downstream, emit, offer, ◌>>=◌,
}
use psh_mosn.Proxy.Timeouts.{itoa, parse_proxy_timeout}
use psh_mosn.Proxy.Upstream.{NewStream, start_request, without_sender}
use psh_mosn.Proxy.Upstream

abbrev pub reset_if : Option RetryState → Option RetryState
reset_if none = none
reset_if (some r) = some (Retry.reset r)

unfoldable pub clean_up : DownStream → DownStream
unfolding Retry.reset
clean_up s = record s {
  upstream_request = without_sender s.upstream_request;
  retry_state = reset_if s.retry_state;
  per_retry_timer = false;
  response_timer = false;
}

unfoldable pub clean_stream : DownStream → DownStream
unfolding clean_up Upstream.reset_stream
clean_stream s =
    let cleaned = clean_up (Upstream.reset_stream (record s { downstream_cleaned = true })) in
    if s.downstream_cleaned then s else offer stop_event (emit delete_active_stream cleaned)

-- The stream layer tells the stream of its reset, and OnResetStream offers the event.
abbrev pub reset_sender : DownStream → DownStream
reset_sender s = offer reset_downstream (emit reset_response s)

unfoldable pub end_stream : DownStream → DownStream
unfolding clean_stream
end_stream s =
    if not s.downstream_recv_done || not s.upstream_process_done
    then reset_sender (record s { upstream_process_done = true })
    else clean_stream s

-- `ResetStream`
unfoldable pub reset_stream : DownStream → DownStream
unfolding clean_stream
reset_stream s =
    if s.downstream_reset then s else clean_stream (record s { downstream_reset = true })

abbrev pub ended_if : Bool → DownStream → DownStream
ended_if end s = if end then end_stream s else s

-- `appendHeaders` with `doAppendHeaders`, and its kin.
unfoldable pub respond_headers : Headers → Bool → DownStream → DownStream
unfolding end_stream
respond_headers headers end s =
    ended_if end (emit (append_headers headers end) (record s { upstream_process_done = end }))

unfoldable pub respond_data : Bytes → Bool → DownStream → DownStream
unfolding end_stream
respond_data bytes end s =
    ended_if end (emit (append_data bytes end) (record s { upstream_process_done = end }))

unfoldable pub respond_trailers : Headers → DownStream → DownStream
unfolding end_stream
respond_trailers trailers s =
    end_stream (emit (append_trailers trailers) (record s { upstream_process_done = true }))

abbrev pub or_empty : Option Headers → Headers
or_empty none = []
or_empty (some h) = h

-- headers[HeaderStatus] = code, in the map of the request's headers, which becomes the response's.
abbrev pub with_status : ℕ → Headers → Headers
with_status code h = insert (text "x-mosn-status") (itoa code) h

abbrev pub status_set : ℕ → Option Headers → Option Headers
status_set code none = none
status_set code (some h) = some (with_status code h)

unfoldable pub send_hijack_reply : ℕ → DownStream → DownStream
unfolding respond_headers itoa
send_hijack_reply code s =
    respond_headers (with_status code (or_empty s.downstream_req_headers)) true
      (record s { downstream_req_headers = status_set code s.downstream_req_headers })

unfoldable pub setup_per_req_timeout : DownStream → DownStream
setup_per_req_timeout s =
    if is_positive s.timeout.try_timeout then record s { per_retry_timer = true } else s

abbrev pub is_some {ℓ} : {A : Type ℓ} → Option A → Bool
is_some none = false
is_some (some a) = true

abbrev pub start_response_timer : DownStream → DownStream
start_response_timer s =
    if is_positive s.timeout.global_timeout then record s { response_timer = true } else s

unfoldable pub on_upstream_request_sent : DownStream → DownStream
unfolding setup_per_req_timeout
on_upstream_request_sent s =
    let s1 : DownStream = record s { upstream_request_sent = true } in
    if is_some s.upstream_request then start_response_timer (setup_per_req_timeout s1) else s1

-- What `Route` answers: the timeouts and the retry policy of the route's rule.
pub record Route : Type 0 where
  pub timeout : Timeout
  pub retry_on : Bool
  pub num_retries : ℕ

-- What `initializeUpstreamConnectionPool` finds: no cluster, no pool in it, or a pool and what it answers.
pub data Lookup : Type 0 where
  no_cluster no_pool : Lookup
  pool : NewStream → Lookup

-- The reply where there is no pool.
unfoldable pub initialize_failed : Lookup → DownStream → DownStream
unfolding send_hijack_reply
initialize_failed no_cluster s = send_hijack_reply 404 s
initialize_failed no_pool s = send_hijack_reply 500 s
initialize_failed (pool a) s = s

abbrev pub sent_if : Bool → DownStream → DownStream
sent_if end s = if end then on_upstream_request_sent s else s

abbrev pub routed : Route → Resource → Headers → DownStream → DownStream
routed route res headers s = record s {
  timeout = parse_proxy_timeout route.timeout headers;
  retry_state = some (new_retry_state route.retry_on route.num_retries res);
}

-- `doReceiveHeaders` behind the choice of a route, with the retry resource of the cluster.
unfoldable pub send_request : Route → Lookup → Resource → Headers → Bool → DownStream → DownStream
unfolding initialize_failed parse_proxy_timeout new_retry_state start_request
    on_upstream_request_sent
send_request route no_cluster res headers end s = initialize_failed no_cluster s
send_request route no_pool res headers end s = initialize_failed no_pool s
send_request route (pool answer) res headers end s =
    sent_if end (start_request answer end headers (routed route res headers s))

abbrev pub received : Headers → Bool → DownStream → DownStream
received headers end s = record s {
  downstream_recv_done = end;
  downstream_req_headers = some headers;
}

unfoldable pub receive_headers :
    Option Route → Lookup → Resource → Headers → Bool → DownStream → DownStream
unfolding send_request send_hijack_reply
receive_headers none found res headers end s = send_hijack_reply 404 (received headers end s)
receive_headers (some r) found res headers end s =
    send_request r found res headers end (received headers end s)

abbrev pub clean_if_done : DownStream → DownStream
clean_if_done s = if s.upstream_process_done then clean_stream s else s

unfoldable pub receive_data : Bytes → Bool → DownStream → Option DownStream
unfolding on_upstream_request_sent Upstream.append_data clean_stream
receive_data bytes end s =
    let sent = sent_if end (record s { downstream_recv_done = end }) in
    let rest = Upstream.append_data bytes end sent >>= (λ s1. some (clean_if_done s1)) in
    if s.upstream_process_done then some s else rest

unfoldable pub receive_trailers : Headers → DownStream → Option DownStream
unfolding on_upstream_request_sent Upstream.append_trailers clean_stream
receive_trailers trailers s =
    let sent =
      on_upstream_request_sent
        (record s { downstream_recv_done = true; downstream_req_trailers = some trailers }) in
    let rest = Upstream.append_trailers trailers sent >>= (λ s1. some (clean_if_done s1)) in
    if s.upstream_process_done then some s else rest
