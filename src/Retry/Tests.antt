-- ===== src/Retry/Tests.antt =====
-- retrystate.go: the theorems at a concrete request.
use psh_mosn.Base.{◌≤◌, ◌≡◌, refl, true, false, some, List, [], ◌∷◌, arith}
use psh_mosn.Base.Int.{pos}
use psh_mosn.Upstream.Resources.{Resource, can_create}
use psh_mosn.Retry.{RetryState, other_reason, should_retry, retry, reset}
use psh_mosn.Retry.Balance.{
  Event, tries, other_decreases, run, others, run-others, retry-over_limit,
}

-- All three retries of the cluster are taken up by others.
abbrev busy : Resource
busy = record { current = 3; max = 3 }

abbrev request : RetryState
request = record {
  retry_on = true;
  reties_remaining = 3;
  pending = false;
  retries = busy;
  upstream_request_retry = 0;
  upstream_request_retry_overflow = 0;
}

abbrev events : List Event
events =
    tries (some (pos 503)) other_reason ∷ other_decreases ∷ tries (some (pos 200)) other_reason ∷ []

run-others_example :
    ((run request events).1 ≤ 3) × ((reset (run request events).0).retries ≡ others busy events)
run-others_example = run-others events request refl (omega arith)

retried : (retry request (some (pos 503)) other_reason).1 ≡ should_retry
unfolding retry
retried = refl

retry-over_limit_example : can_create (reset request).retries ≡ false
retry-over_limit_example = retry-over_limit request (some (pos 503)) other_reason retried
