-- ===== src/Proxy/Response/Closing.antt =====
-- downstream.go: the ends of a response.
use psh_mosn.Base.{
  by_both, ℕ, ◌≡◌, refl, ◌∙◌, inl, inr, Bool-cases, by_true, by_false, Bool, true, false, not, ◌&&◌,
  Option, none, some, arith,
}
use psh_mosn.Base.Int.{ℤ}
use psh_mosn.Retry.{
  RetryState, StreamResetReason, stream_overflow, other_reason, RetryCheckStatus, should_retry,
  no_retry, retry_overflow, retry, should_retry_check, do_retry_check,
}
use psh_mosn.Retry
use psh_mosn.Proxy.{Headers, DownStream}
use psh_mosn.Proxy.Upstream
use psh_mosn.Proxy.Downstream.{
  clean_up, clean_stream, end_stream, reset_stream, respond_headers, send_hijack_reply, with_status,
  or_empty, status_set,
}
use psh_mosn.Proxy.Responses.{
  UpstreamResetType, check_retry, answered, reset_or_reply, on_upstream_reset, is_global,
  reset_code,
}
use psh_mosn.Proxy.Response.{retry_off, Core}

pub request_reset-Core : (s : DownStream) → Core s → Core (Upstream.reset_stream s)
unfolding Upstream.reset_stream
request_reset-Core s h = ground arith

pub clean_up-Core : (s : DownStream) → Core s → Core (clean_up s)
unfolding clean_up Retry.reset
clean_up-Core s h = ground arith

pub clean_stream-Core : (s : DownStream) → Core s → Core (clean_stream s)
unfolding clean_stream clean_up Upstream.reset_stream Retry.reset
clean_stream-Core s h = ground arith

pub reset_stream-Core : (s : DownStream) → Core s → Core (reset_stream s)
unfolding reset_stream clean_stream clean_up Upstream.reset_stream Retry.reset
reset_stream-Core s h = ground arith

-- The stream holds up, and its response is over.
abbrev pub Over : DownStream → Type 0
Over s = Core s × (s.upstream_process_done ≡ true)

-- Nothing has been sent yet, and no timer runs.
abbrev pub Unanswered : DownStream → Type 0
Unanswered s =
    (s.upstream_process_done ≡ false)
    × (s.downstream_response_started ≡ false)
    × (s.response_timer ≡ false)
    × (s.per_retry_timer ≡ false)

pub respond_headers-Over :
    (hs : Headers) (s : DownStream) → Core s → Unanswered s → Over (respond_headers hs true s)
unfolding respond_headers end_stream clean_stream clean_up Upstream.reset_stream Retry.reset
respond_headers-Over hs s h u = ground arith

pub send_hijack_reply-Over :
    (code : ℕ) (s : DownStream) → Core s → Unanswered s → Over (send_hijack_reply code s)
unfolding send_hijack_reply
send_hijack_reply-Over code s h u =
    respond_headers-Over (with_status code (or_empty s.downstream_req_headers))
      (record s { downstream_req_headers = status_set code s.downstream_req_headers })
      (ground arith) (ground arith)

pub end_stream-Over :
    (s : DownStream)
    → Core s
    → s.response_timer ≡ false
    → s.per_retry_timer ≡ false
    → Over (end_stream s)
unfolding end_stream clean_stream clean_up Upstream.reset_stream Retry.reset
end_stream-Over s h t p = ground arith

-- Without a retry policy the check never asks for a retry, and leaves the rest of the stream alone.
abbrev pub Unretried : DownStream → Bool × DownStream → Type 0
Unretried s o =
    (x : Option RetryState) × (retry_off x ≡ true) × (o ≡ (false, record s { retry_state = x }))

retry-off :
    (status : Option ℤ) (reason : StreamResetReason) (r : RetryState)
    → r.retry_on ≡ false
    → ((retry r status reason).1 ≡ no_retry) × ((retry r status reason).0.retry_on ≡ false)
unfolding retry should_retry_check do_retry_check Retry.reset
retry-off status stream_overflow r h = ground arith
retry-off status other_reason r h = ground arith

answered-no_retry :
    (end : Bool) (s : DownStream) (o : RetryState × RetryCheckStatus)
    → o.1 ≡ no_retry
    → answered end s o ≡ (false, record s { retry_state = some o.0 })
answered-no_retry end s (r, should_retry) h = absurd cc
answered-no_retry end s (r, no_retry) h = refl
answered-no_retry end s (r, retry_overflow) h = absurd cc

pub answered-Unretried :
    (status : Option ℤ) (reason : StreamResetReason) (end : Bool) (s : DownStream) (r : RetryState)
    → retry_off (some r) ≡ true
    → Unretried s (answered end s (retry r status reason))
answered-Unretried status reason end s r h =
    let off : r.retry_on ≡ false = ground arith in
    let (none_now, still_off) = retry-off status reason r off in
    (
      some (retry r status reason).0,
      ground arith,
      answered-no_retry end s (retry r status reason) none_now,
    )

pub check_retry-Unretried :
    (status : Option ℤ) (reason : StreamResetReason) (end : Bool) (s : DownStream)
    → retry_off s.retry_state ≡ true
    → Unretried s (check_retry status reason end s)
check_retry-Unretried status reason end s h = checked s.retry_state refl h
  where
    checked :
        (o : Option RetryState)
        → s.retry_state ≡ o
        → retry_off o ≡ true
        → Unretried s (elim o as (λ q. Bool × DownStream) [
          | none ↦ (false, s)
          | some r ↦ answered end s (retry r status reason)
        ])
    checked none e k = (none, refl, ground arith)
    checked (some r) e k = answered-Unretried status reason end s r k

pub reset_or_reply-Over :
    (kind : UpstreamResetType) (s : DownStream)
    → Core s
    → s.upstream_process_done ≡ false
    → Over (reset_or_reply kind s)
unfolding reset_or_reply clean_up Retry.reset
reset_or_reply-Over kind s h e = ground (
  arith,
  end_stream-Over (clean_up s),
  send_hijack_reply-Over (reset_code kind) (clean_up s),
  clean_up-Core s,
)

-- What `on_upstream_reset` comes to without a retry policy.
pub on_upstream_reset-off :
    (P : DownStream → Type 0) (kind : UpstreamResetType) (reason : StreamResetReason)
    (s : DownStream)
    → retry_off s.retry_state ≡ true
    → (s.upstream_reset ≡ true → P s)
    → (s.upstream_reset ≡ false
        → (x : Option RetryState) → retry_off x ≡ true
        → P (reset_or_reply kind (record s { upstream_reset = true; retry_state = x })))
    → P (on_upstream_reset kind reason s)
unfolding on_upstream_reset
on_upstream_reset-off P kind reason s off h k = elim (Bool-cases s.upstream_reset) [
  | inl old ↦ by_true P s.upstream_reset s _ old (h old)
  | inr new ↦ by_false P s.upstream_reset s _ new (
      let s1 : DownStream = record s { upstream_reset = true } in
      let (x, still, same) = check_retry-Unretried none reason true s1 off in
      rw same (
        by_both P (not (is_global kind) && s.downstream_response_started)
          (reset_or_reply kind (record s1 { retry_state = x })) (reset_or_reply kind s1)
          (k new x still) (k new s.retry_state off)))
]

pub on_upstream_reset-Over :
    (kind : UpstreamResetType) (reason : StreamResetReason) (s : DownStream)
    → Core s
    → s.upstream_process_done ≡ s.upstream_reset
    → Over (on_upstream_reset kind reason s)
on_upstream_reset-Over kind reason s h e =
    on_upstream_reset-off Over kind reason s h.off (λ old. (h, e ∙ old))
      (λ new x off.
        reset_or_reply-Over kind (record s { upstream_reset = true; retry_state = x })
          (ground arith) (e ∙ new))

reset_or_reply-reset :
    (kind : UpstreamResetType) (s : DownStream)
    → (reset_or_reply kind s).upstream_reset ≡ s.upstream_reset
unfolding reset_or_reply clean_up Retry.reset end_stream clean_stream Upstream.reset_stream
    send_hijack_reply respond_headers
reset_or_reply-reset kind s = ground arith

pub on_upstream_reset-reset :
    (kind : UpstreamResetType) (reason : StreamResetReason) (s : DownStream)
    → retry_off s.retry_state ≡ true
    → (on_upstream_reset kind reason s).upstream_reset ≡ true
on_upstream_reset-reset kind reason s off =
    on_upstream_reset-off (λ t. t.upstream_reset ≡ true) kind reason s off (λ old. old)
      (λ new x still.
        reset_or_reply-reset kind (record s { upstream_reset = true; retry_state = x }))
