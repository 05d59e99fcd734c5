-- ===== src/Proxy/Tests.antt =====
-- The theorems on a proxied stream at concrete requests.
use psh_mosn.Base.{
  arith, ◌≡◌, refl, sym, ap, ◌∙◌, ◌≢◌, Bool, true, false, not, ◌&&◌, Option, none, some, List, [],
  ◌∷◌, ◌++◌, if◌then◌else◌,
}
use psh_mosn.Base.Int.{pos}
use psh_mosn.Base.Strings.{text}
use psh_mosn.Upstream.Resources.{Resource}
use psh_mosn.Proxy.{Headers, DownStream, new_active_stream, send_headers}
use psh_mosn.Proxy.Downstream.{Route, no_cluster, no_pool, pool, is_some}
use psh_mosn.Proxy.Upstream.{ready}
use psh_mosn.Proxy.Responses.{do_retry}
use psh_mosn.Proxy.Worker.{
  Input, job, control, response_timeout, headers, body, upstream_headers, Worker, new_worker, step,
  run,
}
use psh_mosn.Proxy.Timeouts.{parse_proxy_timeout, itoa}
use psh_mosn.Proxy.Timeouts.Printed.{parse_proxy_timeout-printed}
use psh_mosn.Proxy.Leak.{reply, run-never_cleaned}
use psh_mosn.Proxy.Response.{broken, phase, expected}
use psh_mosn.Proxy.Response.Live.{Order}
use psh_mosn.Proxy.Response.Jobs.{allowed, next, Allowed, begin}
use psh_mosn.Proxy.Response.Run.{phase-run}
use psh_mosn.Proxy.Deletion.{deletions}
use psh_mosn.Proxy.Deletion.Run.{deletions-run}
use psh_mosn.Proxy.Retrying.{body_part, trailer_part, do_retry-sends}

abbrev route : Route
route = record {
  timeout = record { global_timeout = pos 60; try_timeout = pos 5 };
  retry_on = false;
  num_retries = 0;
}

abbrev retries : Resource
retries = record { current = 0; max = 3 }

abbrev request_headers : Headers
request_headers = (text "service", text "a") ∷ []

-- A request with a body, and its response.
abbrev inputs : List Input
inputs =
    job (headers (some route) (pool ready) retries request_headers false)
    ∷ job (body (1 ∷ 2 ∷ []) true)
    ∷ job (upstream_headers [] false)
    ∷ response_timeout
    ∷ []

-- The test of `Allowed`.
unfoldable all_allowed : List Input → Order → Worker → Bool
unfolding step
all_allowed [] o w = true
all_allowed (i ∷ is) o w =
    allowed o w i
    && elim (step i w) as (λ m. Bool) [ none ↦ true | some w' ↦ all_allowed is (next i o) w' ]

and_both : (b c : Bool) → (b && c) ≡ true → (b ≡ true) × (c ≡ true)
and_both true c e = (refl, e)
and_both false c e = absurd cc

all_allowed-Allowed :
    (is : List Input) (o : Order) (w : Worker) → all_allowed is o w ≡ true → Allowed o w is
unfolding all_allowed
all_allowed-Allowed [] o w e = tt
all_allowed-Allowed (i ∷ is) o w e = (
  (and_both (allowed o w i) _ e).0,
  λ v k. all_allowed-Allowed is (next i o) v (
      ap
        (λ (m : Option Worker). elim m as (λ m'. Bool) [
          | none ↦ true
          | some w' ↦ all_allowed is (next i o) w'
        ])
        (sym k)
      ∙ (and_both (allowed o w i) _ e).1),
)

inputs-Allowed : Allowed begin new_worker (control ∷ inputs)
unfolding new_active_stream all_allowed
inputs-Allowed = all_allowed-Allowed (control ∷ inputs) begin new_worker refl

phase-run_example :
    (w : Worker) × (run (control ∷ inputs) new_worker ≡ some w)
    × (phase w.stream.effects
        ≡ expected w.stream.upstream_process_done w.stream.downstream_response_started)
    × (phase w.stream.effects ≢ broken)
phase-run_example = phase-run inputs inputs-Allowed

abbrev AfterInputs : Worker → Type 0
AfterInputs w = run (control ∷ inputs ++ control ∷ control ∷ []) new_worker ≡ some w

inputs_run : (w : Worker) × AfterInputs w
unfolding run new_active_stream
inputs_run = (_, refl)

deletions-run_example :
    deletions inputs_run.0.stream.effects
    ≡ (if inputs_run.0.stream.downstream_cleaned then 1 else 0)
deletions-run_example =
    deletions-run (control ∷ inputs ++ control ∷ control ∷ []) inputs_run.0 inputs_run.1

run-never_cleaned_example :
    (w : Worker) × (run
        (control
          ∷ job (headers none no_cluster retries request_headers false)
          ∷ control
          ∷ job (body [] true)
          ∷ [])
        new_worker
      ≡ some w)
    × (w.stream.effects ≡ reply 404 request_headers)
    × (w.stream.downstream_cleaned ≡ false)
run-never_cleaned_example =
    run-never_cleaned none no_cluster retries request_headers (control ∷ job (body [] true) ∷ [])
      refl

-- A stream with a request that has a body and no trailers.
abbrev requested : DownStream
requested =
    let s = new_active_stream in
    record s {
      downstream_req_headers = some request_headers;
      downstream_req_data_buf = some (7 ∷ []);
    }

do_retry-sends_example :
    ((s' : DownStream) × (do_retry (pool ready) requested ≡ some s')
      × (s'.effects
          ≡ trailer_part requested.downstream_req_trailers
            ++ body_part (some (7 ∷ [])) (not (is_some requested.downstream_req_trailers))
            ++ send_headers request_headers (is_some requested.downstream_req_trailers)
              ∷ requested.effects))
    × ((s' : DownStream) × (do_retry no_cluster requested ≡ some s') × (phase s'.effects ≡ broken))
    × ((s' : DownStream) × (do_retry no_pool requested ≡ some s') × (phase s'.effects ≡ broken))
do_retry-sends_example = do_retry-sends requested

-- The try header is longer than the global timeout of the route, but not than that of the header.
abbrev timeout_headers : Headers
timeout_headers =
    (text "x-mosn-try-timeout", text "70") ∷ (text "x-mosn-global-timeout", text "100") ∷ []

parse_proxy_timeout-printed_example :
    let t =
      parse_proxy_timeout
        (record { global_timeout = pos 60; try_timeout = pos 5 })
        timeout_headers in
    (t.global_timeout ≡ pos 100) × (t.try_timeout ≡ pos 70)
unfolding itoa
parse_proxy_timeout-printed_example =
    parse_proxy_timeout-printed (some 70) (some 100) 5 60 timeout_headers (omega arith)
      (omega arith) refl refl
