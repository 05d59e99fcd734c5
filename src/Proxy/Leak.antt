-- ===== src/Proxy/Leak.antt =====
-- downstream.go and event.go: a request that is rejected before it has been received completely.
use psh_mosn.Base.{
  ℕ, ◌≡◌, refl, ◌∙◌, some_eq, Bool, true, false, Option, none, some, List, [], ◌∷◌, ◌++◌, arith,
}
use psh_mosn.Upstream.Resources.{Resource}
use psh_mosn.Proxy.{
  Headers, new_active_stream, Control, start_event, stop_event, reset_downstream, reset_upstream,
  Effect, append_headers, reset_response,
}
use psh_mosn.Proxy.Downstream.{
  Route, Lookup, no_cluster, no_pool, pool, send_hijack_reply, with_status, received,
}
use psh_mosn.Proxy.Worker.{
  Input, job, control, on_reset_downstream, on_reset_upstream, on_receive_data, on_decode_error,
  response_timeout, per_req_timeout, retry_timeout, headers, Worker, new_worker, with_control,
  next_control, and_then, step, run,
}

abbrev OnlyResets : List Control → Type 0
OnlyResets [] = Unit {0}
OnlyResets (start_event ∷ cs) = ⊥
OnlyResets (stop_event ∷ cs) = ⊥
OnlyResets (reset_downstream ∷ cs) = OnlyResets cs
OnlyResets (reset_upstream reason ∷ cs) = OnlyResets cs

-- The worker takes nothing more for the stream, no timer of it runs, and nothing is left that would remove it.
record Stuck (es : List Effect) (w : Worker) : Type 0 where
  is_done : w.done ≡ some true
  process_done : w.stream.upstream_process_done ≡ true
  uncleaned : w.stream.downstream_cleaned ≡ false
  no_response_timer : w.stream.response_timer ≡ false
  no_retry_timer : w.stream.per_retry_timer ≡ false
  no_retry : w.stream.retry_timers ≡ 0
  resets : OnlyResets w.stream.control
  same : w.stream.effects ≡ es

OnlyResets-offer :
    (cs : List Control) (c : Control)
    → OnlyResets cs
    → OnlyResets (c ∷ [])
    → OnlyResets (cs ++ c ∷ [])
OnlyResets-offer [] c h k = k
OnlyResets-offer (start_event ∷ cs) c h k = h
OnlyResets-offer (stop_event ∷ cs) c h k = h
OnlyResets-offer (reset_downstream ∷ cs) c h k = OnlyResets-offer cs c h k
OnlyResets-offer (reset_upstream reason ∷ cs) c h k = OnlyResets-offer cs c h k

abbrev Still : List Effect → Option Worker → Type 0
Still es o = (w : Worker) × (o ≡ some w) × Stuck es w

Stuck-control :
    (es : List Effect) (cs : List Control) (w : Worker)
    → Stuck es w
    → OnlyResets cs
    → Stuck es (with_control cs w)
Stuck-control es cs w h r = record {
  is_done = h.is_done;
  process_done = h.process_done;
  uncleaned = h.uncleaned;
  no_response_timer = h.no_response_timer;
  no_retry_timer = h.no_retry_timer;
  no_retry = h.no_retry;
  resets = r;
  same = h.same;
}

Still-control :
    (es : List Effect) (cs : List Control) (w : Worker)
    → Stuck es w
    → OnlyResets cs
    → Still es (next_control cs w)
Still-control es [] w h r = (w, refl, h)
Still-control es (start_event ∷ cs) w h r = elim r [ ]
Still-control es (stop_event ∷ cs) w h r = elim r [ ]
Still-control es (reset_downstream ∷ cs) w h r =
    (with_control cs w, ground arith, Stuck-control es cs w h r)
Still-control es (reset_upstream reason ∷ cs) w h r =
    (with_control cs w, ground arith, Stuck-control es cs w h r)

Still-step : (es : List Effect) (i : Input) (w : Worker) → Stuck es w → Still es (step i w)
unfolding step
Still-step es (job j) w h = (w, rw h.is_done, h)
Still-step es control w h = Still-control es w.stream.control w h h.resets
Still-step es on_reset_downstream w h =
    let cs = w.stream.control ++ reset_downstream ∷ [] in
    (
      with_control cs w,
      refl,
      Stuck-control es cs w h (OnlyResets-offer w.stream.control reset_downstream h.resets tt),
    )
Still-step es (on_reset_upstream reason) w h =
    let cs = w.stream.control ++ reset_upstream reason ∷ [] in
    (
      with_control cs w,
      refl,
      Stuck-control es cs w h
          (OnlyResets-offer w.stream.control (reset_upstream reason) h.resets tt),
    )
Still-step es (on_receive_data bs) w h =
    let s = w.stream in
    (
      record w { stream = record s { downstream_req_data_buf = some bs } },
      refl,
      record {
        is_done = h.is_done;
        process_done = h.process_done;
        uncleaned = h.uncleaned;
        no_response_timer = h.no_response_timer;
        no_retry_timer = h.no_retry_timer;
        no_retry = h.no_retry;
        resets = h.resets;
        same = h.same;
      },
    )
Still-step es (on_decode_error code hs) w h = (w, rw h.process_done, h)
Still-step es response_timeout w h = (w, rw h.no_response_timer, h)
Still-step es per_req_timeout w h = (w, rw h.no_retry_timer, h)
Still-step es (retry_timeout found) w h = (w, rw h.no_retry, h)

Still-run : (es : List Effect) (is : List Input) (w : Worker) → Stuck es w → Still es (run is w)
unfolding run
Still-run es [] w h = (w, refl, h)
Still-run es (i ∷ is) w h =
    let (w1, e, h1) = Still-step es i w h in
    let (w2, e2, h2) = Still-run es is w1 h1 in (w2, rw e e2, h2)

-- There is no route, no cluster or no pool.
abbrev pub rejected : Option Route → Lookup → Bool
rejected none found = true
rejected (some r) no_cluster = true
rejected (some r) no_pool = true
rejected (some r) (pool answer) = false

abbrev pub rejection : Option Route → Lookup → ℕ
rejection none found = 404
rejection (some r) no_cluster = 404
rejection (some r) no_pool = 500
rejection (some r) (pool answer) = 200

abbrev pub reply : ℕ → Headers → List Effect
reply code hs = reset_response ∷ append_headers (with_status code hs) true ∷ []

-- The worker after the headers.
abbrev after_reply : ℕ → Headers → Worker
after_reply code hs =
    let begun = new_active_stream in
    record {
      done = some true;
      stream = send_hijack_reply code (received hs false (record begun { control = [] }));
    }

Stuck-reply : (code : ℕ) (hs : Headers) → Stuck (reply code hs) (after_reply code hs)
unfolding new_active_stream send_hijack_reply
Stuck-reply code hs = record {
  is_done = refl;
  process_done = refl;
  uncleaned = refl;
  no_response_timer = refl;
  no_retry_timer = refl;
  no_retry = refl;
  resets = tt;
  same = refl;
}

Still-headers :
    (route : Option Route) (found : Lookup) (res : Resource) (hs : Headers)
    → rejected route found ≡ true
    → Still
        (reply (rejection route found) hs)
        (run (control ∷ job (headers route found res hs false) ∷ []) new_worker)
unfolding run new_active_stream
Still-headers none found res hs h = (after_reply 404 hs, refl, Stuck-reply 404 hs)
Still-headers (some r) no_cluster res hs h = (after_reply 404 hs, refl, Stuck-reply 404 hs)
Still-headers (some r) no_pool res hs h = (after_reply 500 hs, refl, Stuck-reply 500 hs)
Still-headers (some r) (pool answer) res hs h = absurd cc

run-append :
    (is js : List Input) (w w1 : Worker) → run is w ≡ some w1 → run (is ++ js) w ≡ run js w1
unfolding run
run-append [] js w w1 e = rw (some_eq e) refl
run-append (i ∷ is) js w w1 e = following (step i w) e (run-append is js)
  where
    following :
        (o : Option Worker)
        → and_then o (run is) ≡ some w1
        → ((v u : Worker) → run is v ≡ some u → run (is ++ js) v ≡ run js u)
        → and_then o (run (is ++ js)) ≡ run js w1
    following none k ih = absurd cc
    following (some v) k ih = ih v w1 k

-- A new stream's worker starts, and takes headers of a request with more to come, for which there is no route, no
-- cluster or no pool. Whatever comes in behind them, and in whatever order, no call panics, and the stream sends
-- nothing after the reply, which it ends, and the reset that follows it. It is never cleaned: it stays on the list of
-- its proxy, and its filters are not destroyed.
pub run-never_cleaned :
    (route : Option Route) (found : Lookup) (res : Resource) (hs : Headers) (inputs : List Input)
    → rejected route found ≡ true
    → (w : Worker) × (run (control ∷ job (headers route found res hs false) ∷ inputs) new_worker
        ≡ some w)
      × (w.stream.effects ≡ reply (rejection route found) hs)
      × (w.stream.downstream_cleaned ≡ false)
run-never_cleaned route found res hs inputs h =
    let es = reply (rejection route found) hs in
    let (w1, e1, h1) = Still-headers route found res hs h in
    let (w2, e2, h2) = Still-run es inputs w1 h1 in
    (
      w2,
      run-append (control ∷ job (headers route found res hs false) ∷ []) inputs new_worker w1 e1
          ∙ e2,
      h2.same,
      h2.uncleaned,
    )
