-- ===== src/Retry.antt =====
-- pkg/proxy/retrystate.go: the retries of a proxied request, with the retry resource of its cluster.
-- `status` is the HeaderStatus of the response, as strconv.Atoi reads it, where there is one; the
-- random delay and the timer, which call `doRetry` later, are left out.
mod Tests
pub mod Balance
use psh_mosn.Base.{
  ℕ, zero, suc, ◌+◌, ◌-◌, Bool, true, false, not, ◌&&◌, Option, none, some, List, [], ◌∷◌, ltb, leb,
  ◌==◌, if◌then◌else◌,
}
use psh_mosn.Base.Int.{ℤ, pos, negsuc}
use psh_mosn.Upstream.Resources.{Resource, can_create, increase, decrease}

pub data StreamResetReason : Type 0 where
  stream_overflow other_reason : StreamResetReason

pub data RetryCheckStatus : Type 0 where
  should_retry no_retry retry_overflow : RetryCheckStatus

-- `pending` is whether retryFunc is set; `retries` is the cluster's resource, which other requests
-- share; the counters are those of its statistics.
pub record RetryState : Type 0 where
  pub retry_on : Bool
  pub reties_remaining : ℕ
  pub pending : Bool
  pub retries : Resource
  pub upstream_request_retry : ℕ
  pub upstream_request_retry_overflow : ℕ

unfoldable pub new_retry_state : Bool → ℕ → Resource → RetryState
new_retry_state retry_on num_retries r = record {
  retry_on = retry_on;
  reties_remaining = if ltb 3 num_retries then num_retries else 3;
  pending = false;
  retries = r;
  upstream_request_retry = 0;
  upstream_request_retry_overflow = 0;
}

unfoldable pub reset : RetryState → RetryState
unfolding decrease
reset s = if s.pending then record s { retries = decrease s.retries; pending = false } else s

abbrev is_server_error : Option ℤ → Bool
is_server_error none = false
is_server_error (some (pos n)) = leb 500 n
is_server_error (some (negsuc n)) = false

unfoldable pub do_retry_check : RetryState → Option ℤ → StreamResetReason → Bool
do_retry_check s status stream_overflow = false
do_retry_check s status other_reason = s.retry_on && is_server_error status

-- The test of the resource is as in the code: where another retry can be created, the answer is
-- RetryOverflow.
unfoldable pub should_retry_check :
    RetryState → Option ℤ → StreamResetReason → RetryState × RetryCheckStatus
unfolding do_retry_check can_create
should_retry_check s status reason =
    let s1 : RetryState = record s { reties_remaining = s.reties_remaining - 1 } in
    let s2 : RetryState = record s1 {
      upstream_request_retry_overflow = s.upstream_request_retry_overflow + 1;
    } in
    if s.reties_remaining == 0
    then (s, no_retry)
    else (if not (do_retry_check s status reason)
        then (s1, no_retry)
        else (if can_create s.retries then (s2, retry_overflow) else (s1, should_retry)))

unfoldable pub schedule_retry : RetryState → RetryState
unfolding increase
schedule_retry s = record s {
  pending = true;
  retries = increase s.retries;
  upstream_request_retry = s.upstream_request_retry + 1;
}

abbrev pub scheduled_if : RetryState × RetryCheckStatus → RetryState × RetryCheckStatus
scheduled_if (s, should_retry) = (schedule_retry s, should_retry)
scheduled_if (s, no_retry) = (s, no_retry)
scheduled_if (s, retry_overflow) = (s, retry_overflow)

unfoldable pub retry : RetryState → Option ℤ → StreamResetReason → RetryState × RetryCheckStatus
unfolding reset should_retry_check
retry s status reason = scheduled_if (should_retry_check (reset s) status reason)
