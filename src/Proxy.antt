-- ===== src/Proxy.antt =====
-- pkg/proxy/downstream.go and upstream.go: a stream that the proxy has accepted, and its upstream
-- request. What the stream does to its two senders shows as a list of effects, the newest first; what it
-- offers to its worker (event.go) as a queue. No stream filter is configured. A panic is `none`.
mod Tests
pub mod Timeouts
pub mod Upstream
pub mod Downstream
pub mod Responses
pub mod Worker
pub mod Panics
pub mod Leak
pub mod Response
pub mod Retrying
pub mod Deletion
use psh_mosn.Base.{ℕ, ◌+◌, Bool, true, false, Option, none, some, List, [], ◌∷◌, ◌++◌}
use psh_mosn.Base.Int.{ℤ}
use psh_mosn.Base.Strings.{GoString}
use psh_mosn.Retry.{RetryState, StreamResetReason}

abbrev pub Headers : Type 0
Headers = List (GoString × GoString)

abbrev pub Bytes : Type 0
Bytes = List ℕ

pub record Timeout : Type 0 where
  pub global_timeout : ℤ
  pub try_timeout : ℤ

-- upstreamRequest; `request_sender` is whether there is one. The code never sets its `host`.
pub record UpstreamRequest : Type 0 where
  pub request_sender : Bool
  pub send_complete : Bool
  pub data_sent : Bool
  pub trailer_sent : Bool

pub data Effect : Type 0 where
  -- To the sender of the response.
  append_headers : Headers → Bool → Effect
  append_data : Bytes → Bool → Effect
  append_trailers : Headers → Effect
  reset_response : Effect
  -- To the sender of the upstream request.
  send_headers : Headers → Bool → Effect
  send_data : Bytes → Bool → Effect
  send_trailers : Headers → Effect
  reset_request : Effect
  -- The filters are destroyed, the metrics counted down and the stream taken off the proxy's list.
  delete_active_stream : Effect

-- The control events of event.go, for one stream.
pub data Control : Type 0 where
  start_event stop_event reset_downstream : Control
  reset_upstream : StreamResetReason → Control

-- `per_retry_timer` and `response_timer` are whether they run. `retry_timers` counts the timers of
-- retrystate.go, which nothing stops; the retry state is there once a route has been found.
pub record DownStream : Type 0 where
  pub timeout : Timeout
  pub retry_state : Option RetryState
  pub upstream_request : Option UpstreamRequest
  pub per_retry_timer : Bool
  pub response_timer : Bool
  pub retry_timers : ℕ
  pub downstream_req_headers : Option Headers
  pub downstream_req_data_buf : Option Bytes
  pub downstream_req_trailers : Option Headers
  pub downstream_response_started : Bool
  pub downstream_recv_done : Bool
  pub upstream_request_sent : Bool
  pub upstream_process_done : Bool
  pub downstream_reset : Bool
  pub downstream_cleaned : Bool
  pub upstream_reset : Bool
  pub effects : List Effect
  pub control : List Control

-- `newActiveStream`
unfoldable pub new_active_stream : DownStream
new_active_stream = record {
  timeout = record { global_timeout = ℤ.pos 0; try_timeout = ℤ.pos 0 };
  retry_state = none;
  upstream_request = none;
  per_retry_timer = false;
  response_timer = false;
  retry_timers = 0;
  downstream_req_headers = none;
  downstream_req_data_buf = none;
  downstream_req_trailers = none;
  downstream_response_started = false;
  downstream_recv_done = false;
  upstream_request_sent = false;
  upstream_process_done = false;
  downstream_reset = false;
  downstream_cleaned = false;
  upstream_reset = false;
  effects = [];
  control = start_event ∷ [];
}

abbrev pub emit : Effect → DownStream → DownStream
emit e s = record s { effects = e ∷ s.effects }

-- workerPool.Offer of a control event.
abbrev pub offer : Control → DownStream → DownStream
offer c s = record s { control = s.control ++ c ∷ [] }

infixl 5 ◌>>=◌
abbrev pub ◌>>=◌ : Option DownStream → (DownStream → Option DownStream) → Option DownStream
none >>= f = none
some s >>= f = f s
