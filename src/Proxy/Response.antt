-- ===== src/Proxy/Response.antt =====
-- downstream.go: the response that a stream sends, and what holds of a stream without a retry policy.
pub mod Closing
pub mod Control
pub mod Dying
pub mod Jobs
pub mod Outside
pub mod Run
pub mod Responding
pub mod Live
pub mod Timers
use psh_mosn.Base.{
  ℕ, ◌≡◌, Bool, true, false, not, ◌&&◌, ◌||◌, Option, none, some, List, [], ◌∷◌, if◌then◌else◌,
}
use psh_mosn.Retry.{RetryState}
use psh_mosn.Proxy.{
  Effect, append_headers, append_data, append_trailers, reset_response, send_headers, send_data,
  send_trailers, reset_request, delete_active_stream, DownStream,
}
use psh_mosn.Proxy.Downstream.{is_some}

-- A response is headers, then data, then trailers, and one of them ends it; a reset closes it at any time.
pub data Phase : Type 0 where
  silent ongoing closed broken : Phase

abbrev pub on_headers : Bool → Phase → Phase
on_headers end silent = if end then closed else ongoing
on_headers end _ = broken

abbrev pub on_data : Bool → Phase → Phase
on_data end ongoing = if end then closed else ongoing
on_data end _ = broken

abbrev pub on_reset : Phase → Phase
on_reset broken = broken
on_reset _ = closed

abbrev pub after : Effect → Phase → Phase
after (append_headers h end) p = on_headers end p
after (append_data b end) p = on_data end p
after (append_trailers t) p = on_data true p
after reset_response p = on_reset p
after _ p = p

abbrev pub phase : List Effect → Phase
phase [] = silent
phase (e ∷ es) = after e (phase es)

-- What the flags of the stream say of its response.
abbrev pub expected : Bool → Bool → Phase
expected true started = closed
expected false true = ongoing
expected false false = silent

abbrev pub retry_off : Option RetryState → Bool
retry_off none = true
retry_off (some r) = not r.retry_on

-- Conditions on the flags of a stream: `b && c ≡ false` says that they exclude each other.
pub record Core (s : DownStream) : Type 0 where
  pub agrees : phase s.effects ≡ expected s.upstream_process_done s.downstream_response_started
  pub quiet : (s.upstream_process_done && (s.response_timer || s.per_retry_timer)) ≡ false
  pub timed_request : (s.per_retry_timer && not (is_some s.upstream_request)) ≡ false
  pub reset_cleans : (s.downstream_reset && not s.downstream_cleaned) ≡ false
  pub off : retry_off s.retry_state ≡ true
  pub no_retry : s.retry_timers ≡ 0
