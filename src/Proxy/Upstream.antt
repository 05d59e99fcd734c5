-- ===== src/Proxy/Upstream.antt =====
-- pkg/proxy/upstream.go: the request that a stream sends upstream.
use psh_mosn.Base.{Bool, true, false, not, ◌&&◌, Option, none, some, if◌then◌else◌}
use psh_mosn.Retry.{StreamResetReason}
use psh_mosn.Proxy.{
  Headers, Bytes, UpstreamRequest, DownStream, send_headers, send_data, send_trailers,
  reset_request, reset_upstream, emit, offer,
}

-- What connPool.NewStream answers before it returns: OnReady, or OnFailure with a reason.
pub data NewStream : Type 0 where
  ready : NewStream
  failed : StreamResetReason → NewStream

abbrev pub has_sender : Option UpstreamRequest → Bool
has_sender none = false
has_sender (some r) = r.request_sender

-- `resetStream`: a request without a sender stays as it is. The callers test for a nil request.
unfoldable pub reset_stream : DownStream → DownStream
reset_stream s = if has_sender s.upstream_request then emit reset_request s else s

-- requestSender = nil
abbrev pub without_sender : Option UpstreamRequest → Option UpstreamRequest
without_sender none = none
without_sender (some r) = some (record r { request_sender = false })

-- `OnReady`
unfoldable pub on_ready : UpstreamRequest → Headers → DownStream → DownStream
on_ready r headers s =
    emit (send_headers headers (r.send_complete && not r.data_sent && not r.trailer_sent))
      (record s { upstream_request = some (record r { request_sender = true }) })

-- `OnFailure`, behind which OnResetStream offers the event.
unfoldable pub on_failure : UpstreamRequest → StreamResetReason → DownStream → DownStream
on_failure r reason s = offer (reset_upstream reason) (record s { upstream_request = some r })

-- A new upstreamRequest and its `appendHeaders`; the headers sent are those of the downstream request.
unfoldable pub start_request : NewStream → Bool → Headers → DownStream → DownStream
unfolding on_ready on_failure
start_request answer end_stream headers s =
    let r : UpstreamRequest = record {
      request_sender = false;
      send_complete = end_stream;
      data_sent = false;
      trailer_sent = false;
    } in
    elim answer [ ready ↦ on_ready r headers s | failed reason ↦ on_failure r reason s ]

-- The nil sender of a request whose stream could not be made, or has been reset, is not tested.
abbrev pub when_alive : Option UpstreamRequest → (UpstreamRequest → DownStream) → Option DownStream
when_alive none f = none
when_alive (some r) f = if r.request_sender then some (f r) else none

unfoldable pub append_data : Bytes → Bool → DownStream → Option DownStream
append_data bytes end_stream s = when_alive s.upstream_request (λ r.
    emit (send_data bytes end_stream) (record s {
      upstream_request = some (record r { send_complete = end_stream; data_sent = true });
    }))

unfoldable pub append_trailers : Headers → DownStream → Option DownStream
append_trailers trailers s = when_alive s.upstream_request (λ r.
    emit (send_trailers trailers) (record s {
      upstream_request = some (record r { send_complete = true; trailer_sent = true });
    }))
