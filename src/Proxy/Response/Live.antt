-- ===== src/Proxy/Response/Live.antt =====
-- downstream.go: a stream that its worker handles, with the order in which requests and responses come.
use psh_mosn.Base.{
  ◌≡◌, refl, ap, ◌∙◌, Bool, true, false, not, ◌&&◌, ◌||◌, Option, none, some, [], if◌then◌else◌,
  arith, by_true, by_false,
}
use psh_mosn.Upstream.Resources.{Resource}
use psh_mosn.Retry.{new_retry_state}
use psh_mosn.Proxy.{
  emit, send_data, send_trailers, ◌>>=◌, Headers, Bytes, DownStream, UpstreamRequest,
}
use psh_mosn.Proxy.Upstream
use psh_mosn.Proxy.Upstream.{
  NewStream, ready, failed, start_request, on_ready, on_failure, has_sender, when_alive,
}
use psh_mosn.Proxy.Downstream.{
  Route, pool, sent_if, clean_if_done, received, routed, receive_headers, send_request,
  receive_data, receive_trailers, on_upstream_request_sent, setup_per_req_timeout, clean_stream,
}
use psh_mosn.Proxy.Response.{Core}

-- How much of the request and of the response has been handled.
pub data Request : Type 0 where
  fresh receiving complete : Request

pub data Response : Type 0 where
  waiting streaming finished : Response

pub record Order : Type 0 where
  pub request : Request
  pub response : Response

abbrev pub is_fresh : Request → Bool
is_fresh fresh = true
is_fresh _ = false

abbrev pub is_receiving : Request → Bool
is_receiving receiving = true
is_receiving _ = false

abbrev pub is_waiting : Response → Bool
is_waiting waiting = true
is_waiting _ = false

abbrev pub is_streaming : Response → Bool
is_streaming streaming = true
is_streaming _ = false

abbrev pub is_finished : Response → Bool
is_finished finished = true
is_finished _ = false

abbrev pub requested : Bool → Request
requested true = complete
requested false = receiving

abbrev pub responded : Bool → Response
responded true = finished
responded false = streaming

pub record Live (o : Order) (s : DownStream) : Type 0 where
  pub core : Core s
  pub idle : s.control ≡ []
  pub unfinished : s.upstream_process_done ≡ false
  pub unreset : s.upstream_reset ≡ false
  pub uncleaned : s.downstream_cleaned ≡ false
  pub in_step : s.downstream_response_started ≡ is_streaming o.response
  pub more : is_finished o.response ≡ false
  pub nothing_yet :
      (is_fresh o.request
        && (s.response_timer || (s.per_retry_timer || not (is_waiting o.response))))
      ≡ false
  pub sender : (not (is_fresh o.request) && not (has_sender s.upstream_request)) ≡ false

-- The request is on its way, and the timers start.
Live-sent :
    (o : Order) (s : DownStream)
    → Live o s
    → is_fresh o.request ≡ false
    → Live o (on_upstream_request_sent s)
unfolding on_upstream_request_sent setup_per_req_timeout
Live-sent o s h e = ground arith

Live-sent_if :
    (end : Bool) (o : Order) (s : DownStream)
    → Live o s
    → is_fresh o.request ≡ false
    → Live o (sent_if end s)
Live-sent_if true o s h e = Live-sent o s h e
Live-sent_if false o s h e = h

-- A request for which there is a pool that answers at once.
pub Live-ready :
    (r : Route) (res : Resource) (hs : Headers) (end : Bool) (o : Order) (s : DownStream)
    → r.retry_on ≡ false
    → Live o s
    → o.request ≡ fresh
    → Live
        (record o { request = requested end })
        (receive_headers (some r) (pool ready) res hs end s)
unfolding receive_headers send_request start_request on_ready new_retry_state
Live-ready r res hs true o s off h e =
    Live-sent_if true (record o { request = complete })
      (start_request ready true hs (routed r res hs (received hs true s))) (ground arith) refl
Live-ready r res hs false o s off h e = ground arith

clean_if_done-unfinished : (s : DownStream) → s.upstream_process_done ≡ false → clean_if_done s ≡ s
clean_if_done-unfinished s e =
    by_false (λ t. t ≡ s) s.upstream_process_done (clean_stream s) s e refl

-- Where the sender is there, something is sent, and the stream lives on.
when_alive-Live :
    (o : Order) (s : DownStream) (u : Option UpstreamRequest) (f : UpstreamRequest → DownStream)
    → has_sender u ≡ true
    → ((r : UpstreamRequest) → r.request_sender ≡ true → Live o (f r))
    → (t : DownStream) × (when_alive u f ≡ some t) × Live o t
when_alive-Live o s none f h k = absurd cc
when_alive-Live o s (some r) f h k =
    (f r, by_true (λ m. m ≡ some (f r)) r.request_sender (some (f r)) none h refl, k r h)

-- A handler that passes the guard on the end of the process.
Live-guarded :
    (o : Order) (s : DownStream) (m : Option DownStream)
    → s.upstream_process_done ≡ false
    → ((t : DownStream) × (m ≡ some t) × Live o t)
    → (t : DownStream) × ((if s.upstream_process_done
          then some s
          else (m >>= (λ s1. some (clean_if_done s1))))
        ≡ some t)
      × Live o t
Live-guarded o s m e (t, sent, live) = (
  t,
  by_false (λ z. z ≡ some t) s.upstream_process_done (some s)
      (m >>= (λ s1. some (clean_if_done s1))) e
      (ap (λ z. z >>= (λ s1. some (clean_if_done s1))) sent
        ∙ ap some (clean_if_done-unfinished t live.unfinished)),
  live,
)

requested-ne-fresh : (end : Bool) → is_fresh (requested end) ≡ false
requested-ne-fresh true = refl
requested-ne-fresh false = refl

Live-more :
    (end : Bool) (o : Order) (s : DownStream)
    → Live o s
    → o.request ≡ receiving
    → Live (record o { request = requested end }) (record s { downstream_recv_done = end })
Live-more true o s h e = ground arith
Live-more false o s h e = ground arith

Live-has_sender :
    (end : Bool) (o : Order) (s : DownStream)
    → Live (record o { request = requested end }) s
    → has_sender s.upstream_request ≡ true
Live-has_sender true o s h = ground arith
Live-has_sender false o s h = ground arith

Live-send_data :
    (bs : Bytes) (end : Bool) (o : Order) (s : DownStream) (r : UpstreamRequest)
    → Live o s
    → r.request_sender ≡ true
    → Live o (
        emit (send_data bs end) (record s {
          upstream_request = some (record r { send_complete = end; data_sent = true });
        }))
Live-send_data bs end o s r h e = ground arith

Live-send_trailers :
    (t : Headers) (o : Order) (s : DownStream) (r : UpstreamRequest)
    → Live o s
    → r.request_sender ≡ true
    → Live o (
        emit (send_trailers t) (record s {
          upstream_request = some (record r { send_complete = true; trailer_sent = true });
        }))
Live-send_trailers t o s r h e = ground arith

pub Live-body :
    (bs : Bytes) (end : Bool) (o : Order) (s : DownStream)
    → Live o s
    → o.request ≡ receiving
    → (t : DownStream) × (receive_data bs end s ≡ some t)
      × Live (record o { request = requested end }) t
unfolding receive_data Upstream.append_data
Live-body bs end o s h e =
    let o1 : Order = record o { request = requested end } in
    let begun : DownStream = record s { downstream_recv_done = end } in
    let sent = sent_if end begun in
    let live : Live o1 sent =
      Live-sent_if end o1 begun (Live-more end o s h e) (requested-ne-fresh end) in
    Live-guarded o1 s (Upstream.append_data bs end sent) h.unfinished (
      when_alive-Live o1 sent sent.upstream_request
        (λ r. emit (send_data bs end) (record sent {
          upstream_request = some (record r { send_complete = end; data_sent = true });
        }))
        (Live-has_sender end o sent live) (λ r alive. Live-send_data bs end o1 sent r live alive))

pub Live-trailers :
    (t : Headers) (o : Order) (s : DownStream)
    → Live o s
    → o.request ≡ receiving
    → (s1 : DownStream) × (receive_trailers t s ≡ some s1)
      × Live (record o { request = complete }) s1
unfolding receive_trailers Upstream.append_trailers
Live-trailers t o s h e =
    let o1 : Order = record o { request = complete } in
    let begun : DownStream = record s {
      downstream_recv_done = true;
      downstream_req_trailers = some t;
    } in
    let sent = on_upstream_request_sent begun in
    let live : Live o1 sent = Live-sent o1 begun (ground arith) refl in
    Live-guarded o1 s (Upstream.append_trailers t sent) h.unfinished (
      when_alive-Live o1 sent sent.upstream_request
        (λ r. emit (send_trailers t) (record sent {
          upstream_request = some (record r { send_complete = true; trailer_sent = true });
        }))
        (Live-has_sender true o sent live) (λ r alive. Live-send_trailers t o1 sent r live alive))
