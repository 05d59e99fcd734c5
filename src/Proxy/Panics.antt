-- ===== src/Proxy/Panics.antt =====
-- What holds of the outcome of a handler, unless it panics.
use psh_mosn.Base.{Bool, true, false, Option, none, some, if◌then◌else◌}
use psh_mosn.Proxy.{DownStream, UpstreamRequest, ◌>>=◌}
use psh_mosn.Proxy.Upstream.{when_alive}
use psh_mosn.Proxy.Downstream.{is_some}
use psh_mosn.Proxy.Worker.{when_requested}

abbrev pub IfRuns {ℓ} : {A : Type 0} → (A → Type ℓ) → Option A → Type ℓ
IfRuns P none = Unit
IfRuns P (some s) = P s

module _ {ℓ} (P : DownStream → Type ℓ) where
  pub IfRuns-then :
      (m : Option DownStream) (f : DownStream → Option DownStream)
      → IfRuns P m
      → ((s : DownStream) → P s → IfRuns P (f s))
      → IfRuns P (m >>= f)
  IfRuns-then none f h k = tt
  IfRuns-then (some s) f h k = k s h

  IfRuns-if : (c : Bool) (s : DownStream) → P s → IfRuns P (if c then some s else none)
  IfRuns-if true s h = h
  IfRuns-if false s h = tt

  pub IfRuns-when_alive :
      (u : Option UpstreamRequest) (f : UpstreamRequest → DownStream)
      → ((r : UpstreamRequest) → P (f r))
      → IfRuns P (when_alive u f)
  IfRuns-when_alive none f h = tt
  IfRuns-when_alive (some r) f h = IfRuns-if r.request_sender (f r) (h r)

  pub IfRuns-when_requested : (s s' : DownStream) → P s' → IfRuns P (when_requested s s')
  IfRuns-when_requested s s' h = requested s.upstream_request
    where
      requested : (u : Option UpstreamRequest) → IfRuns P (if is_some u then some s' else none)
      requested none = tt
      requested (some r) = h
