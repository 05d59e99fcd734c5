-- ===== src/Proxy/Response/Control.antt =====
-- event.go and downstream.go: the control events that wait for a stream.
use psh_mosn.Base.{
  by_both, ℕ, ◌≡◌, refl, Bool, true, false, not, ◌&&◌, ◌||◌, List, [], ◌∷◌, ◌++◌, arith,
}
use psh_mosn.Retry.{StreamResetReason}
use psh_mosn.Proxy.{
  Headers, DownStream, emit, append_headers, Control, start_event, stop_event, reset_downstream,
  reset_upstream,
}
use psh_mosn.Proxy.Upstream
use psh_mosn.Proxy.Downstream.{
  clean_up, clean_stream, end_stream, reset_stream, respond_headers, send_hijack_reply, is_some,
  with_status, or_empty, status_set,
}
use psh_mosn.Proxy.Responses.{UpstreamResetType, reset_or_reply, on_upstream_reset, reset_code}
use psh_mosn.Proxy.Response.{retry_off}
use psh_mosn.Proxy.Response.Closing.{on_upstream_reset-off}

abbrev pub is_stop : Control → Bool
is_stop stop_event = true
is_stop _ = false

abbrev pub has_stop : List Control → Bool
has_stop [] = false
has_stop (c ∷ cs) = is_stop c || has_stop cs

abbrev pub is_empty : List Control → Bool
is_empty [] = true
is_empty (c ∷ cs) = false

-- A reset of the upstream request waits only where there is one, and the start is over.
abbrev pub fit : Bool → Control → Bool
fit requested start_event = false
fit requested stop_event = true
fit requested reset_downstream = true
fit requested (reset_upstream reason) = requested

abbrev pub fits : Bool → List Control → Bool
fits requested [] = true
fits requested (c ∷ cs) = fit requested c && fits requested cs

pub has_stop-offer :
    (cs : List Control) (c : Control) → has_stop (cs ++ c ∷ []) ≡ (has_stop cs || is_stop c)
has_stop-offer [] c = ground arith
has_stop-offer (d ∷ cs) c = ground (arith, has_stop-offer cs c)

pub fits-offer :
    (requested : Bool) (cs : List Control) (c : Control)
    → fits requested (cs ++ c ∷ []) ≡ (fits requested cs && fit requested c)
fits-offer requested [] c = ground arith
fits-offer requested (d ∷ cs) c = ground (arith, fits-offer requested cs c)

pub is_empty-offer : (cs : List Control) (c : Control) → is_empty (cs ++ c ∷ []) ≡ false
is_empty-offer [] c = refl
is_empty-offer (d ∷ cs) c = refl

-- What an operation does to the queue: from `s` to `t`.
pub record Queued (s t : DownStream) : Type 0 where
  pub keeps_fit :
      (fits (is_some s.upstream_request) s.control
        && not (fits (is_some t.upstream_request) t.control))
      ≡ false
  pub keeps_request : (is_some s.upstream_request && not (is_some t.upstream_request)) ≡ false
  pub keeps_stop : (has_stop s.control && not (has_stop t.control)) ≡ false
  pub stops :
      (not s.downstream_cleaned && (t.downstream_cleaned && not (has_stop t.control))) ≡ false
  pub stays_cleaned : (s.downstream_cleaned && not t.downstream_cleaned) ≡ false
  pub fills : (not (is_empty s.control) && is_empty t.control) ≡ false

Queued-clean_stream : (s : DownStream) → Queued s (clean_stream s)
unfolding clean_stream clean_up Upstream.reset_stream
Queued-clean_stream s = ground (
  arith,
  has_stop-offer s.control stop_event,
  is_empty-offer s.control stop_event,
  fits-offer (is_some s.upstream_request) s.control stop_event,
)

Queued-refl : (s : DownStream) → Queued s s
Queued-refl s = ground arith

pub Queued-trans : (s t u : DownStream) → Queued s t → Queued t u → Queued s u
Queued-trans s t u h k = ground arith

pub Queued-end_stream : (s : DownStream) → Queued s (end_stream s)
unfolding end_stream
Queued-end_stream s = ground (
  arith,
  has_stop-offer s.control reset_downstream,
  is_empty-offer s.control reset_downstream,
  fits-offer (is_some s.upstream_request) s.control reset_downstream,
  Queued-clean_stream s,
)

pub Queued-reset_stream : (s : DownStream) → Queued s (reset_stream s)
unfolding reset_stream
Queued-reset_stream s = ground (arith, Queued-clean_stream (record s { downstream_reset = true }))

pub Queued-clean_up : (s : DownStream) → Queued s (clean_up s)
unfolding clean_up
Queued-clean_up s = ground arith

pub Queued-request_reset : (s : DownStream) → Queued s (Upstream.reset_stream s)
unfolding Upstream.reset_stream
Queued-request_reset s = ground arith

pub Queued-respond_headers :
    (hs : Headers) (end : Bool) (s : DownStream) → Queued s (respond_headers hs end s)
unfolding respond_headers
Queued-respond_headers hs true s =
    let t = emit (append_headers hs true) (record s { upstream_process_done = true }) in
    Queued-trans s t (end_stream t) (ground arith) (Queued-end_stream t)
Queued-respond_headers hs false s = ground arith

pub Queued-reply : (code : ℕ) (s : DownStream) → Queued s (send_hijack_reply code s)
unfolding send_hijack_reply
Queued-reply code s =
    let t : DownStream = record s {
      downstream_req_headers = status_set code s.downstream_req_headers;
    } in
    let hs = with_status code (or_empty s.downstream_req_headers) in
    Queued-trans s t (respond_headers hs true t) (ground arith) (Queued-respond_headers hs true t)

pub Queued-reset_or_reply :
    (kind : UpstreamResetType) (s : DownStream) → Queued s (reset_or_reply kind s)
unfolding reset_or_reply
Queued-reset_or_reply kind s =
    let s1 = clean_up s in
    by_both (Queued s) s1.downstream_response_started (end_stream s1)
      (send_hijack_reply (reset_code kind) s1)
      (Queued-trans s s1 (end_stream s1) (Queued-clean_up s) (Queued-end_stream s1))
      (Queued-trans s s1 (send_hijack_reply (reset_code kind) s1) (Queued-clean_up s)
        (Queued-reply (reset_code kind) s1))

pub Queued-on_upstream_reset :
    (kind : UpstreamResetType) (reason : StreamResetReason) (s : DownStream)
    → retry_off s.retry_state ≡ true
    → Queued s (on_upstream_reset kind reason s)
Queued-on_upstream_reset kind reason s off =
    on_upstream_reset-off (Queued s) kind reason s off (λ old. Queued-refl s)
      (λ new x still.
        let t : DownStream = record s { upstream_reset = true; retry_state = x } in
        Queued-trans s t (reset_or_reply kind t) (ground arith) (Queued-reset_or_reply kind t))

-- The end of a stream that has not been cleaned waits for the worker.
pub end_stream-waits :
    (s : DownStream) → s.downstream_cleaned ≡ false → is_empty (end_stream s).control ≡ false
unfolding end_stream clean_stream clean_up Upstream.reset_stream
end_stream-waits s h =
    ground (arith, is_empty-offer s.control stop_event, is_empty-offer s.control reset_downstream)

pub respond_headers-waits :
    (hs : Headers) (s : DownStream)
    → s.downstream_cleaned ≡ false
    → is_empty (respond_headers hs true s).control ≡ false
unfolding respond_headers
respond_headers-waits hs s h =
    end_stream-waits (emit (append_headers hs true) (record s { upstream_process_done = true })) h

pub reply-waits :
    (code : ℕ) (s : DownStream)
    → s.downstream_cleaned ≡ false
    → is_empty (send_hijack_reply code s).control ≡ false
unfolding send_hijack_reply
reply-waits code s h =
    respond_headers-waits (with_status code (or_empty s.downstream_req_headers))
      (record s { downstream_req_headers = status_set code s.downstream_req_headers }) h

reset_or_reply-waits :
    (kind : UpstreamResetType) (s : DownStream)
    → s.downstream_cleaned ≡ false
    → is_empty (reset_or_reply kind s).control ≡ false
unfolding reset_or_reply clean_up
reset_or_reply-waits kind s h =
    let s1 = clean_up s in
    by_both (λ t. is_empty t.control ≡ false) s1.downstream_response_started (end_stream s1)
      (send_hijack_reply (reset_code kind) s1) (end_stream-waits s1 h)
      (reply-waits (reset_code kind) s1 h)

pub on_upstream_reset-waits :
    (kind : UpstreamResetType) (reason : StreamResetReason) (s : DownStream)
    → retry_off s.retry_state ≡ true
    → s.downstream_cleaned ≡ false
    → s.upstream_reset ≡ false
    → is_empty (on_upstream_reset kind reason s).control ≡ false
on_upstream_reset-waits kind reason s off h e =
    on_upstream_reset-off (λ t. is_empty t.control ≡ false) kind reason s off (λ old. absurd cc)
      (λ new x still.
        reset_or_reply-waits kind (record s { upstream_reset = true; retry_state = x }) h)
