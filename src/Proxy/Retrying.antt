-- ===== src/Proxy/Retrying.antt =====
-- downstream.go and retrystate.go: the retries of a stream.
use psh_mosn.Base.{
  by_both, ℕ, ◌≡◌, refl, ap, ◌∙◌, Bool, true, false, not, ◌&&◌, ◌||◌, Option, none, some, List, [],
  ◌∷◌, ◌++◌, ◌⊎◌, inl, inr,
}
use psh_mosn.Base.Int.{is_positive}
use psh_mosn.Retry.{should_retry, retry_overflow}
use psh_mosn.Retry
use psh_mosn.Proxy.{
  Headers, Bytes, DownStream, UpstreamRequest, Effect, append_headers, send_headers, send_data,
  send_trailers, reset_request, emit, ◌>>=◌,
}
use psh_mosn.Proxy.Upstream
use psh_mosn.Proxy.Upstream.{
  NewStream, ready, start_request, has_sender, on_ready, append_data, append_trailers,
}
use psh_mosn.Proxy.Downstream.{
  Lookup, no_cluster, no_pool, pool, clean_up, clean_stream, end_stream, respond_headers,
  send_hijack_reply, initialize_failed, setup_per_req_timeout, is_some, or_empty, reset_sender,
  with_status, status_set,
}
use psh_mosn.Proxy.Responses.{do_retry, retry_data, retry_trailers}
use psh_mosn.Proxy.Response.{Phase, silent, ongoing, closed, broken, phase, on_headers, on_reset}

-- The parts of a request that a retry sends, the newest first.
abbrev pub body_part : Option Bytes → Bool → List Effect
body_part none end = []
body_part (some bytes) end = send_data [] end ∷ []

abbrev pub trailer_part : Option Headers → List Effect
trailer_part none = []
trailer_part (some t) = send_trailers t ∷ []

per_req-effects : (s : DownStream) → (setup_per_req_timeout s).effects ≡ s.effects
unfolding setup_per_req_timeout
per_req-effects s =
    by_both (λ s'. s'.effects ≡ s.effects) (is_positive s.timeout.try_timeout)
      (record s { per_retry_timer = true }) s refl refl

per_req-ends :
    (s : DownStream)
    → (s' : DownStream) × (some (setup_per_req_timeout s) ≡ some s') × (s'.effects ≡ s.effects)
per_req-ends s = (setup_per_req_timeout s, refl, per_req-effects s)

abbrev fresh : Bool → UpstreamRequest
fresh end = record {
  request_sender = false;
  send_complete = end;
  data_sent = false;
  trailer_sent = false;
}

effects-rest :
    (body : Option Bytes) (trailers : Option Headers) (h : Headers) (s : DownStream)
    → (s' : DownStream) × ((retry_data body
            (not (is_some trailers))
            (on_ready (fresh (is_some body && is_some trailers)) h s)
          >>= (λ s1. retry_trailers trailers s1)
          >>= (λ s2. some (setup_per_req_timeout s2)))
        ≡ some s')
      × (s'.effects
          ≡ trailer_part trailers
            ++ body_part body (not (is_some trailers))
            ++ send_headers h (is_some body && is_some trailers) ∷ s.effects)
unfolding on_ready append_data append_trailers
effects-rest none none h s = per_req-ends _
effects-rest none (some t) h s = per_req-ends _
effects-rest (some d) none h s = per_req-ends _
effects-rest (some d) (some t) h s = per_req-ends _

effects-do_retry :
    (s : DownStream)
    → (s' : DownStream) × (do_retry (pool ready) s ≡ some s')
      × (s'.effects
          ≡ trailer_part s.downstream_req_trailers
            ++ body_part s.downstream_req_data_buf (not (is_some s.downstream_req_trailers))
            ++ send_headers
                (or_empty s.downstream_req_headers)
                (is_some s.downstream_req_data_buf && is_some s.downstream_req_trailers)
              ∷ s.effects)
unfolding do_retry start_request
effects-do_retry s =
    effects-rest s.downstream_req_data_buf s.downstream_req_trailers
      (or_empty s.downstream_req_headers) s

on_headers-twice : (p : Phase) → on_headers true (on_headers true p) ≡ broken
on_headers-twice silent = refl
on_headers-twice ongoing = refl
on_headers-twice closed = refl
on_headers-twice broken = refl

on_reset-ended : (p : Phase) → on_reset (on_headers true p) ≡ on_headers true p
on_reset-ended silent = refl
on_reset-ended ongoing = refl
on_reset-ended closed = refl
on_reset-ended broken = refl

reset_stream-phase : (s : DownStream) → phase (Upstream.reset_stream s).effects ≡ phase s.effects
unfolding Upstream.reset_stream
reset_stream-phase s =
    by_both (λ (t : DownStream). phase t.effects ≡ phase s.effects) (has_sender s.upstream_request)
      (emit reset_request s) s refl refl

clean_stream-phase : (s : DownStream) → phase (clean_stream s).effects ≡ phase s.effects
unfolding clean_stream clean_up
clean_stream-phase s =
    by_both (λ (t : DownStream). phase t.effects ≡ phase s.effects) s.downstream_cleaned s _ refl
      (reset_stream-phase (record s { downstream_cleaned = true }))

end_stream-phase :
    (s : DownStream) (p : Phase)
    → phase s.effects ≡ on_headers true p
    → phase (end_stream s).effects ≡ on_headers true p
unfolding end_stream
end_stream-phase s p e =
    by_both (λ (t : DownStream). phase t.effects ≡ on_headers true p)
      (not s.downstream_recv_done || not s.upstream_process_done)
      (reset_sender (record s { upstream_process_done = true })) (clean_stream s)
      (ap on_reset e ∙ on_reset-ended p) (clean_stream-phase s ∙ e)

reply-phase :
    (code : ℕ) (s : DownStream)
    → phase (send_hijack_reply code s).effects ≡ on_headers true (phase s.effects)
unfolding send_hijack_reply respond_headers
reply-phase code s =
    end_stream-phase
      (emit (append_headers (with_status code (or_empty s.downstream_req_headers)) true) (record s {
        downstream_req_headers = status_set code s.downstream_req_headers;
        upstream_process_done = true;
      }))
      (phase s.effects) refl

replied_twice :
    (code : ℕ) (s : DownStream)
    → phase (send_hijack_reply 500 (send_hijack_reply code s)).effects ≡ broken
replied_twice code s =
    reply-phase 500 (send_hijack_reply code s)
    ∙ ap (on_headers true) (reply-phase code s)
    ∙ on_headers-twice (phase s.effects)

phase-do_retry :
    (found : Lookup) (s : DownStream)
    → (found ≡ no_cluster) ⊎ (found ≡ no_pool)
    → (s' : DownStream) × (do_retry found s ≡ some s') × (phase s'.effects ≡ broken)
unfolding do_retry initialize_failed clean_up
phase-do_retry (pool a) s h = elim h [ inl e ↦ absurd cc | inr e ↦ absurd cc ]
phase-do_retry no_cluster s h = (_, refl, replied_twice 404 s)
phase-do_retry no_pool s h = (_, refl, replied_twice 500 s)

-- What a retry of a stream sends, without a panic. Where a pool answers at once, it is the headers of the request again,
-- marked as its end exactly where both a body and trailers follow, then an empty body for the body, marked as the end
-- where no trailers follow, then the trailers. Where there is no cluster or no pool, it is two replies, so that the
-- response is broken, whatever has been sent before.
pub do_retry-sends :
    (s : DownStream)
    → ((s' : DownStream) × (do_retry (pool ready) s ≡ some s')
        × (s'.effects
            ≡ trailer_part s.downstream_req_trailers
              ++ body_part s.downstream_req_data_buf (not (is_some s.downstream_req_trailers))
              ++ send_headers
                  (or_empty s.downstream_req_headers)
                  (is_some s.downstream_req_data_buf && is_some s.downstream_req_trailers)
                ∷ s.effects))
      × ((s' : DownStream) × (do_retry no_cluster s ≡ some s') × (phase s'.effects ≡ broken))
      × ((s' : DownStream) × (do_retry no_pool s ≡ some s') × (phase s'.effects ≡ broken))
do_retry-sends s = (
  effects-do_retry s,
  phase-do_retry no_cluster s (inl refl),
  phase-do_retry no_pool s (inr refl),
)

abbrev Unretried : ℕ → DownStream → Type 0
Unretried n s = (s.retry_timers ≡ n) × (s.upstream_process_done ≡ true)
