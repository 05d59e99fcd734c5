-- ===== src/Proxy/Response/Dying.antt =====
-- event.go and downstream.go: a stream for which a control event waits, or which its worker has left.
use psh_mosn.Base.{
  ◌≡◌, refl, sym, ap, ◌∙◌, Bool, true, false, not, ◌&&◌, Option, none, some, List, [], ◌∷◌,
  if◌then◌else◌, arith,
}
use psh_mosn.Retry.{StreamResetReason}
use psh_mosn.Proxy.{DownStream, Control, start_event, stop_event, reset_downstream, reset_upstream}
use psh_mosn.Proxy.Upstream
use psh_mosn.Proxy.Upstream.{without_sender}
use psh_mosn.Proxy.Downstream.{reset_stream, clean_stream, clean_up, is_some}
use psh_mosn.Proxy.Responses.{upstream_reset, on_upstream_reset}
use psh_mosn.Proxy.Worker.{Worker, next_control, handled, upstream_reset_stream}
use psh_mosn.Proxy.Response.{Core}
use psh_mosn.Proxy.Response.Closing.{Over, reset_stream-Core, on_upstream_reset-Over}
use psh_mosn.Proxy.Response.Control.{
  is_empty, is_stop, has_stop, fit, fits, Queued, Queued-trans, Queued-reset_stream,
  Queued-on_upstream_reset,
}

-- While the worker still handles the stream.
abbrev pub Pending : Option Bool → DownStream → Type 0
Pending none s = Unit {0}
Pending (some true) s = Unit {0}
Pending (some false) s =
    (s.upstream_process_done ≡ s.upstream_reset)
    × (is_empty s.control ≡ false)
    × ((s.downstream_cleaned && not (has_stop s.control)) ≡ false)

pub record Dying (d : Option Bool) (s : DownStream) : Type 0 where
  pub core : Core s
  pub reset_ends : (s.upstream_reset && not s.upstream_process_done) ≡ false
  pub fitting : fits (is_some s.upstream_request) s.control ≡ true
  pub pending : Pending d s

-- The outcome is no panic, and dies as well.
abbrev pub Dies : Option Worker → Type 0
Dies o = (w : Worker) × (o ≡ some w) × Dying w.done w.stream

-- A handler has run, and the response is over.
pub Dying-Over :
    (s t : DownStream)
    → Over t
    → Queued s t
    → fits (is_some s.upstream_request) s.control ≡ true
    → Dying (some t.upstream_process_done) t
Dying-Over s t (core, over) q f = record {
  core = core;
  reset_ends = ground arith;
  fitting = ground arith;
  pending = over_pending t.upstream_process_done over;
}
  where
    over_pending : (b : Bool) → b ≡ true → Pending (some b) t
    over_pending true e = tt
    over_pending false e = absurd cc

pub Pending-waiting :
    (b : Bool) (t : DownStream)
    → t.upstream_process_done ≡ t.upstream_reset
    → is_empty t.control ≡ false
    → (t.downstream_cleaned && not (has_stop t.control)) ≡ false
    → Pending (some b) t
Pending-waiting true t e w h = tt
Pending-waiting false t e w h = (e, w, h)

has_stop-waits : (cs : List Control) → has_stop cs ≡ true → is_empty cs ≡ false
has_stop-waits [] h = cc
has_stop-waits (c ∷ cs) h = refl

-- A reset of the downstream stream cleans it, and leaves the rest of the flags.
reset_stream-cleans :
    (s : DownStream)
    → (s.downstream_reset && not s.downstream_cleaned) ≡ false
    → ((reset_stream s).downstream_cleaned ≡ true)
      × ((reset_stream s).upstream_process_done ≡ s.upstream_process_done)
      × ((reset_stream s).upstream_reset ≡ s.upstream_reset)
unfolding reset_stream clean_stream clean_up Upstream.reset_stream
reset_stream-cleans s h = ground arith

Pending-cleaned :
    (b : Bool) (t : DownStream)
    → t.upstream_process_done ≡ t.upstream_reset
    → has_stop t.control ≡ true
    → Pending (some b) t
Pending-cleaned true t e h = tt
Pending-cleaned false t e h = (e, has_stop-waits t.control h, rw h (ground arith))

Dying-reset_downstream :
    (s : DownStream)
    → Core s
    → s.upstream_process_done ≡ s.upstream_reset
    → fits (is_some s.upstream_request) s.control ≡ true
    → (s.downstream_cleaned && not (has_stop s.control)) ≡ false
    → Dying (some (reset_stream s).upstream_process_done) (reset_stream s)
Dying-reset_downstream s h e f c =
    let q = Queued-reset_stream s in
    let (cleaned, same, same') = reset_stream-cleans s h.reset_cleans in
    record {
      core = reset_stream-Core s h;
      reset_ends = ground arith;
      fitting = ground arith;
      pending =
          Pending-cleaned (reset_stream s).upstream_process_done (reset_stream s)
            (same ∙ e ∙ sym same') (ground arith);
    }

-- The queue changes, and the worker's entry with it.
Dying-with :
    (d : Option Bool) (s : DownStream) (cs : List Control)
    → Core s
    → (s.upstream_reset && not s.upstream_process_done) ≡ false
    → fits (is_some s.upstream_request) cs ≡ true
    → Pending d (record s { control = cs })
    → Dying d (record s { control = cs })
Dying-with d s cs h e f p = record { core = ground arith; reset_ends = e; fitting = f; pending = p }

-- Taking a control event from the queue.
fits-taken :
    (requested : Bool) (ds cs : List Control) (c : Control)
    → ds ≡ c ∷ cs
    → fits requested ds ≡ true
    → (fit requested c ≡ true) × (fits requested cs ≡ true)
fits-taken requested ds cs c e h =
    let f : fits requested (c ∷ cs) ≡ true = ap (fits requested) (sym e) ∙ h in ground arith

has_stop-taken :
    (ds cs : List Control) (c : Control)
    → ds ≡ c ∷ cs
    → is_stop c ≡ false
    → has_stop ds ≡ has_stop cs
has_stop-taken ds cs c e h = ap has_stop e ∙ ground arith

Dies-if :
    (b : Bool) (t : DownStream)
    → b ≡ true
    → Dying (some t.upstream_process_done) t
    → Dies (handled (if b then some t else none))
Dies-if true t e h = (record { done = some t.upstream_process_done; stream = t }, refl, h)
Dies-if false t e h = absurd cc

Dying-reset_upstream :
    (reason : StreamResetReason) (s : DownStream)
    → Core s
    → s.upstream_process_done ≡ s.upstream_reset
    → fits (is_some s.upstream_request) s.control ≡ true
    → is_some s.upstream_request ≡ true
    → Dies (handled (upstream_reset_stream reason s))
Dying-reset_upstream reason s h e f r =
    let t : DownStream = record s { upstream_request = without_sender s.upstream_request } in
    let q : Queued s t = ground arith in
    Dies-if (is_some s.upstream_request) (on_upstream_reset upstream_reset reason t) r (
      Dying-Over s (on_upstream_reset upstream_reset reason t)
        (on_upstream_reset-Over upstream_reset reason t (ground arith) e)
        (Queued-trans s t (on_upstream_reset upstream_reset reason t) q
          (Queued-on_upstream_reset upstream_reset reason t h.off))
        f)

-- The worker has left the stream.
Dies-left :
    (d : Option Bool) (s : DownStream) (cs : List Control) (c : Control)
    → s.control ≡ c ∷ cs
    → Dying d s
    → Pending d (record s { control = cs })
    → Dies (some (record { done = d; stream = record s { control = cs } }))
Dies-left d s cs c e h p =
    let (fit_now, f) = fits-taken (is_some s.upstream_request) s.control cs c e h.fitting in
    (
      record { done = d; stream = record s { control = cs } },
      refl,
      Dying-with d s cs h.core h.reset_ends f p,
    )

pub Dies-control :
    (d : Option Bool) (s : DownStream) (cs : List Control)
    → s.control ≡ cs
    → Dying d s
    → Dies (next_control cs (record { done = d; stream = s }))
Dies-control d s [] e h = (record { done = d; stream = s }, refl, h)
Dies-control d s (start_event ∷ cs) e h =
    let (fit_now, f) =
      fits-taken (is_some s.upstream_request) s.control cs start_event e h.fitting in
    absurd cc
Dies-control d s (stop_event ∷ cs) e h =
    let (fit_now, f) =
      fits-taken (is_some s.upstream_request) s.control cs stop_event e h.fitting in
    (
      record { done = none; stream = record s { control = cs } },
      refl,
      Dying-with none s cs h.core h.reset_ends f tt,
    )
Dies-control none s (reset_downstream ∷ cs) e h = Dies-left none s cs reset_downstream e h tt
Dies-control none s (reset_upstream reason ∷ cs) e h =
    Dies-left none s cs (reset_upstream reason) e h tt
Dies-control (some true) s (reset_downstream ∷ cs) e h =
    Dies-left (some true) s cs reset_downstream e h tt
Dies-control (some true) s (reset_upstream reason ∷ cs) e h =
    Dies-left (some true) s cs (reset_upstream reason) e h tt
Dies-control (some false) s (reset_downstream ∷ cs) e h =
    let t : DownStream = record s { control = cs } in
    let (fit_now, f) =
      fits-taken (is_some s.upstream_request) s.control cs reset_downstream e h.fitting in
    (
      record { done = some (reset_stream t).upstream_process_done; stream = reset_stream t },
      refl,
      Dying-reset_downstream t (ground arith) h.pending.0 f (
          ap (λ b. s.downstream_cleaned && not b)
            (sym (has_stop-taken s.control cs reset_downstream e refl))
          ∙ h.pending.2),
    )
Dies-control (some false) s (reset_upstream reason ∷ cs) e h =
    let t : DownStream = record s { control = cs } in
    let (fit_now, f) =
      fits-taken (is_some s.upstream_request) s.control cs (reset_upstream reason) e h.fitting in
    Dying-reset_upstream reason t (ground arith) h.pending.0 f fit_now
