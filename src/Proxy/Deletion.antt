-- ===== src/Proxy/Deletion.antt =====
-- downstream.go: how often a stream is taken off the list of its proxy.
pub mod Responses
pub mod Run
use psh_mosn.Base.{
  by_both, ℕ, suc, ◌+◌, ◌≤◌, ◌≡◌, refl, Bool, true, false, not, ◌&&◌, ◌||◌, Option, none, some,
  List, [], ◌∷◌, if◌then◌else◌, arith, some_eq,
}
use psh_mosn.Base.Int.{ℤ}
use psh_mosn.Upstream.Resources.{Resource}
use psh_mosn.Retry.{
  RetryState, RetryCheckStatus, should_retry, no_retry, retry_overflow, StreamResetReason,
  other_reason, retry,
}
use psh_mosn.Proxy.{
  Headers, Bytes, Effect, append_headers, append_data, append_trailers, reset_response,
  send_headers, send_data, send_trailers, reset_request, delete_active_stream, DownStream, emit,
  ◌>>=◌, Control, start_event, stop_event, reset_downstream, reset_upstream,
}
use psh_mosn.Proxy.Upstream
use psh_mosn.Proxy.Upstream.{NewStream, ready, failed, start_request, on_ready, on_failure}
use psh_mosn.Proxy.Downstream.{
  Route, Lookup, no_cluster, no_pool, pool, clean_up, clean_stream, end_stream, reset_stream,
  ended_if, respond_headers, respond_data, respond_trailers, send_hijack_reply,
  setup_per_req_timeout, on_upstream_request_sent, initialize_failed, send_request, receive_headers,
  receive_data, receive_trailers, clean_if_done, sent_if, status_set, is_some, or_empty, routed,
  received,
}
use psh_mosn.Proxy.Responses.{
  UpstreamResetType, setup_retry, answered, check_retry, reset_or_reply, on_upstream_reset,
  on_upstream_response_recv_finished, on_upstream_headers, on_upstream_data, on_upstream_trailers,
  on_response_timeout, on_per_req_timeout, retry_data, retry_trailers, do_retry, is_global,
  finished_if, started, status_of, upstream_global_timeout, upstream_per_try_timeout, reset_code,
}
use psh_mosn.Proxy.Panics.{IfRuns, IfRuns-then, IfRuns-when_alive, IfRuns-when_requested}
use psh_mosn.Proxy.Worker.{
  Job, headers, body, trailers, upstream_headers, upstream_data, upstream_trailers, Input, job,
  control, on_reset_downstream, on_reset_upstream, on_receive_data, on_decode_error,
  response_timeout, per_req_timeout, retry_timeout, Worker, new_worker, run_job, handled,
  if_processing, next_control, take_control, called, step, run,
}

abbrev pub is_deletion : Effect → Bool
is_deletion delete_active_stream = true
is_deletion _ = false

abbrev pub deletions : List Effect → ℕ
deletions [] = 0
deletions (e ∷ es) = if is_deletion e then suc (deletions es) else deletions es

-- Deleted once if it has been cleaned, and otherwise not at all.
abbrev pub Once : DownStream → Type 0
Once s = deletions s.effects ≡ (if s.downstream_cleaned then 1 else 0)

pub request_reset-Once : (s : DownStream) → Once s → Once (Upstream.reset_stream s)
unfolding Upstream.reset_stream
request_reset-Once s h = ground arith

clean_stream-Once : (s : DownStream) → Once s → Once (clean_stream s)
unfolding clean_stream clean_up Upstream.reset_stream
clean_stream-Once s h = ground arith

pub end_stream-Once : (s : DownStream) → Once s → Once (end_stream s)
unfolding end_stream
end_stream-Once s h = ground (arith, clean_stream-Once s)

pub reset_stream-Once : (s : DownStream) → Once s → Once (reset_stream s)
unfolding reset_stream
reset_stream-Once s h = ground (arith, clean_stream-Once (record s { downstream_reset = true }))

pub respond_headers-Once :
    (hs : Headers) (end : Bool) (s : DownStream) → Once s → Once (respond_headers hs end s)
unfolding respond_headers
respond_headers-Once hs true s h =
    end_stream-Once (emit (append_headers hs true) (record s { upstream_process_done = true })) h
respond_headers-Once hs false s h = h

pub respond_data-Once :
    (bs : Bytes) (end : Bool) (s : DownStream) → Once s → Once (respond_data bs end s)
unfolding respond_data
respond_data-Once bs true s h =
    end_stream-Once (emit (append_data bs true) (record s { upstream_process_done = true })) h
respond_data-Once bs false s h = h

pub respond_trailers-Once : (t : Headers) (s : DownStream) → Once s → Once (respond_trailers t s)
unfolding respond_trailers
respond_trailers-Once t s h =
    end_stream-Once (emit (append_trailers t) (record s { upstream_process_done = true })) h

pub send_hijack_reply-Once : (code : ℕ) (s : DownStream) → Once s → Once (send_hijack_reply code s)
unfolding send_hijack_reply
send_hijack_reply-Once code s h =
    respond_headers-Once _ true
      (record s { downstream_req_headers = status_set code s.downstream_req_headers }) h

pub setup_per_req_timeout-Once : (s : DownStream) → Once s → Once (setup_per_req_timeout s)
unfolding setup_per_req_timeout
setup_per_req_timeout-Once s h = ground arith

on_upstream_request_sent-Once : (s : DownStream) → Once s → Once (on_upstream_request_sent s)
unfolding on_upstream_request_sent setup_per_req_timeout
on_upstream_request_sent-Once s h = ground arith

pub initialize_failed-Once :
    (found : Lookup) (s : DownStream) → Once s → Once (initialize_failed found s)
unfolding initialize_failed
initialize_failed-Once no_cluster s h = send_hijack_reply-Once 404 s h
initialize_failed-Once no_pool s h = send_hijack_reply-Once 500 s h
initialize_failed-Once (pool a) s h = h

pub start_request-Once :
    (answer : NewStream) (end : Bool) (hs : Headers) (s : DownStream)
    → Once s
    → Once (start_request answer end hs s)
unfolding start_request on_ready on_failure
start_request-Once ready end hs s h = h
start_request-Once (failed reason) end hs s h = h

sent_if-Once : (end : Bool) (s : DownStream) → Once s → Once (sent_if end s)
sent_if-Once true s h = on_upstream_request_sent-Once s h
sent_if-Once false s h = h

send_request-Once :
    (r : Route) (found : Lookup) (res : Resource) (hs : Headers) (end : Bool) (s : DownStream)
    → Once s
    → Once (send_request r found res hs end s)
unfolding send_request
send_request-Once r no_cluster res hs end s h = initialize_failed-Once no_cluster s h
send_request-Once r no_pool res hs end s h = initialize_failed-Once no_pool s h
send_request-Once r (pool answer) res hs end s h =
    let s1 = routed r res hs s in
    sent_if-Once end (start_request answer end hs s1) (start_request-Once answer end hs s1 h)

pub receive_headers-Once :
    (route : Option Route) (found : Lookup) (res : Resource) (hs : Headers) (end : Bool)
    (s : DownStream)
    → Once s
    → Once (receive_headers route found res hs end s)
unfolding receive_headers
receive_headers-Once none found res hs end s h = send_hijack_reply-Once 404 (received hs end s) h
receive_headers-Once (some r) found res hs end s h =
    send_request-Once r found res hs end (received hs end s) h

pub append_data-Once :
    (bs : Bytes) (end : Bool) (s : DownStream)
    → Once s
    → IfRuns Once (Upstream.append_data bs end s)
unfolding Upstream.append_data
append_data-Once bs end s h =
    IfRuns-when_alive Once s.upstream_request
      (λ r.
        emit (send_data bs end) (record s {
          upstream_request = some (record r { send_complete = end; data_sent = true });
        }))
      (λ r. h)

pub append_trailers-Once :
    (t : Headers) (s : DownStream) → Once s → IfRuns Once (Upstream.append_trailers t s)
unfolding Upstream.append_trailers
append_trailers-Once t s h =
    IfRuns-when_alive Once s.upstream_request
      (λ r. emit (send_trailers t) (record s {
        upstream_request = some (record r { send_complete = true; trailer_sent = true });
      }))
      (λ r. h)

clean_if_done-Once : (s : DownStream) → Once s → Once (clean_if_done s)
clean_if_done-Once s h = ground (arith, clean_stream-Once s)

pub receive_data-Once :
    (bs : Bytes) (end : Bool) (s : DownStream) → Once s → IfRuns Once (receive_data bs end s)
unfolding receive_data
receive_data-Once bs end s h =
    let sent = sent_if end (record s { downstream_recv_done = end }) in
    by_both (IfRuns Once) s.upstream_process_done (some s) _ h (
      IfRuns-then Once (Upstream.append_data bs end sent) _
        (append_data-Once bs end sent
          (sent_if-Once end (record s { downstream_recv_done = end }) h))
        clean_if_done-Once)

pub receive_trailers-Once :
    (t : Headers) (s : DownStream) → Once s → IfRuns Once (receive_trailers t s)
unfolding receive_trailers
receive_trailers-Once t s h =
    let s1 : DownStream = record s {
      downstream_recv_done = true;
      downstream_req_trailers = some t;
    } in
    by_both (IfRuns Once) s.upstream_process_done (some s) _ h (
      IfRuns-then Once (Upstream.append_trailers t (on_upstream_request_sent s1)) _
        (append_trailers-Once t (on_upstream_request_sent s1) (on_upstream_request_sent-Once s1 h))
        clean_if_done-Once)
