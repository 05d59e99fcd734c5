-- ===== src/Proxy/Responses.antt =====
-- pkg/proxy/downstream.go: what the upstream request and the timers call on a stream, and retries.
use psh_mosn.Base.{ℕ, ◌+◌, Bool, true, false, not, ◌&&◌, Option, none, some, [], if◌then◌else◌}
use psh_mosn.Base.Int.{ℤ, pos}
use psh_mosn.Base.Strings.{lookup, text}
use psh_mosn.Retry.{
  RetryState, StreamResetReason, other_reason, RetryCheckStatus, should_retry, no_retry,
  retry_overflow, retry,
}
use psh_mosn.Proxy.{Headers, Bytes, DownStream, ◌>>=◌}
use psh_mosn.Proxy.Timeouts.{parse_int}
use psh_mosn.Proxy.Upstream.{NewStream, start_request, without_sender}
use psh_mosn.Proxy.Upstream
use psh_mosn.Proxy.Downstream.{
  Lookup, pool, clean_up, end_stream, respond_headers, respond_data, respond_trailers,
  send_hijack_reply, initialize_failed, setup_per_req_timeout, is_some, or_empty, reset_if,
}

pub data UpstreamResetType : Type 0 where
  upstream_reset upstream_global_timeout upstream_per_try_timeout : UpstreamResetType

-- `setupRetry`, with whether it agrees.
unfoldable pub setup_retry : Bool → DownStream → Bool × DownStream
unfolding Upstream.reset_stream
setup_retry end s =
    let s1 = if end then s else Upstream.reset_stream s in
    if not s.upstream_request_sent then (false, s) else (
      true,
      record s1 { upstream_request = without_sender s1.upstream_request; per_retry_timer = false },
    )

-- The answer of `retry`, which has started a timer where it is ShouldRetry.
abbrev pub answered : Bool → DownStream → RetryState × RetryCheckStatus → Bool × DownStream
answered end s (r, should_retry) =
    setup_retry end (record s { retry_state = some r; retry_timers = s.retry_timers + 1 })
answered end s (r, no_retry) = (false, record s { retry_state = some r })
answered end s (r, retry_overflow) = (false, record s { retry_state = some r })

-- The retry check of both handlers: whether the handler returns for a retry.
abbrev pub check_retry : Option ℤ → StreamResetReason → Bool → DownStream → Bool × DownStream
check_retry status reason end s = elim s.retry_state [
  | none ↦ (false, s)
  | some r ↦ answered end s (retry r status reason)
]

abbrev pub is_global : UpstreamResetType → Bool
is_global upstream_reset = false
is_global upstream_global_timeout = true
is_global upstream_per_try_timeout = false

abbrev pub reset_code : UpstreamResetType → ℕ
reset_code upstream_reset = 500
reset_code upstream_global_timeout = 504
reset_code upstream_per_try_timeout = 504

-- The end of `onUpstreamReset`; `resetStream` of the stream is `endStream`.
unfoldable pub reset_or_reply : UpstreamResetType → DownStream → DownStream
unfolding clean_up end_stream send_hijack_reply
reset_or_reply kind s =
    let s1 = clean_up s in
    if s1.downstream_response_started then end_stream s1 else send_hijack_reply (reset_code kind) s1

unfoldable pub on_upstream_reset : UpstreamResetType → StreamResetReason → DownStream → DownStream
unfolding reset_or_reply setup_retry retry
on_upstream_reset kind reason s =
    let s1 : DownStream = record s { upstream_reset = true } in
    let checked = check_retry none reason true s1 in
    if s.upstream_reset
    then s
    else if not (is_global kind) && s.downstream_response_started
    then (if checked.0 then checked.1 else reset_or_reply kind checked.1)
    else reset_or_reply kind s1

unfoldable pub on_upstream_response_recv_finished : DownStream → DownStream
unfolding Upstream.reset_stream clean_up
on_upstream_response_recv_finished s =
    clean_up (if not s.upstream_request_sent then Upstream.reset_stream s else s)

abbrev pub finished_if : Bool → DownStream → DownStream
finished_if end s = if end then on_upstream_response_recv_finished s else s

-- HeaderStatus as strconv.Atoi reads it, which gives 0 with an error.
abbrev pub status_of : Headers → Option ℤ
status_of headers = elim (lookup (text "x-mosn-status") headers) [
  | none ↦ none
  | some code ↦ some (elim (parse_int code) [ none ↦ pos 0 | some z ↦ z ])
]

abbrev pub started : DownStream → DownStream
started s = record s { retry_state = reset_if s.retry_state; downstream_response_started = true }

unfoldable pub on_upstream_headers : Headers → Bool → DownStream → DownStream
unfolding setup_retry retry on_upstream_response_recv_finished respond_headers parse_int
on_upstream_headers headers end s =
    let checked = check_retry (status_of headers) other_reason end s in
    if checked.0
    then checked.1
    else respond_headers headers end (finished_if end (started checked.1))

unfoldable pub on_upstream_data : Bytes → Bool → DownStream → DownStream
unfolding on_upstream_response_recv_finished respond_data
on_upstream_data bytes end s = respond_data bytes end (finished_if end s)

unfoldable pub on_upstream_trailers : Headers → DownStream → DownStream
unfolding on_upstream_response_recv_finished respond_trailers
on_upstream_trailers trailers s = respond_trailers trailers (on_upstream_response_recv_finished s)

unfoldable pub on_response_timeout : DownStream → DownStream
unfolding Upstream.reset_stream on_upstream_reset
on_response_timeout s =
    on_upstream_reset upstream_global_timeout other_reason
      (Upstream.reset_stream (record s { response_timer = false }))

-- A nil upstream request is not tested.
unfoldable pub on_per_req_timeout : DownStream → Option DownStream
unfolding Upstream.reset_stream on_upstream_reset
on_per_req_timeout s =
    if s.downstream_response_started
    then some s
    else if is_some s.upstream_request
    then some (
        on_upstream_reset upstream_per_try_timeout other_reason
          (Upstream.reset_stream (record s { per_retry_timer = false })))
    else none

abbrev pub retry_data : Option Bytes → Bool → DownStream → Option DownStream
retry_data none end s = some s
retry_data (some bytes) end s = Upstream.append_data [] end s

abbrev pub retry_trailers : Option Headers → DownStream → Option DownStream
retry_trailers none s = some s
retry_trailers (some trailers) s = Upstream.append_trailers trailers s

-- `doRetry`, with what it finds. The data are those of `Clone` of iobuffer.go, which returns an empty
-- buffer; where there is no pool, a second reply follows that of the search.
unfoldable pub do_retry : Lookup → DownStream → Option DownStream
unfolding initialize_failed send_hijack_reply clean_up start_request Upstream.append_data
    Upstream.append_trailers setup_per_req_timeout
do_retry (pool answer) s =
    let end = is_some s.downstream_req_data_buf && is_some s.downstream_req_trailers in
    let begun = start_request answer end (or_empty s.downstream_req_headers) s in
    retry_data s.downstream_req_data_buf (not (is_some s.downstream_req_trailers)) begun
    >>= (λ s1. retry_trailers s.downstream_req_trailers s1)
    >>= (λ s2. some (setup_per_req_timeout s2))
do_retry found s = some (clean_up (send_hijack_reply 500 (initialize_failed found s)))
