-- ===== src/Retry/Balance.antt =====
-- retrystate.go: what the retries of a request do to the retry resource, which others use as well.
use psh_mosn.Base.{
  ℕ, ◌+◌, ◌-◌, ◌%◌, ◌≤◌, ◌<◌, ◌≡◌, ◌≢◌, refl, sym, ap, ◌∙◌, inl, inr, Bool, true, false, not,
  Option, List, [], ◌∷◌, arith, ◌==◌, if◌then◌else◌, Bool-cases, by_true, by_false,
}
use psh_mosn.Base.Int.{ℤ}
use psh_mosn.Upstream.Resources.{Resource, can_create, increase, decrease}
use psh_mosn.Retry.{
  StreamResetReason, RetryCheckStatus, should_retry, no_retry, retry_overflow, RetryState, reset,
  do_retry_check, should_retry_check, schedule_retry, scheduled_if, retry,
}

-- A call of `retry` or `reset`, or another request that takes up or gives back a retry.
pub data Event : Type 0 where
  tries : Option ℤ → StreamResetReason → Event
  resets other_increases other_decreases : Event

abbrev pub on_resource : RetryState → Resource → RetryState
on_resource s r = record s { retries = r }

abbrev scheduled : RetryCheckStatus → ℕ
scheduled should_retry = 1
scheduled no_retry = 0
scheduled retry_overflow = 0

-- The state after the events, and how many retries have been scheduled.
unfoldable pub run : RetryState → List Event → RetryState × ℕ
unfolding retry reset increase decrease
run s [] = (s, 0)
run s (tries status reason ∷ es) =
    let r = retry s status reason in let rest = run r.0 es in (rest.0, scheduled r.1 + rest.1)
run s (resets ∷ es) = run (reset s) es
run s (other_increases ∷ es) = run (on_resource s (increase s.retries)) es
run s (other_decreases ∷ es) = run (on_resource s (decrease s.retries)) es

-- What the others alone do to the resource.
unfoldable pub others : Resource → List Event → Resource
unfolding increase decrease
others r [] = r
others r (tries status reason ∷ es) = others r es
others r (resets ∷ es) = others r es
others r (other_increases ∷ es) = others (increase r) es
others r (other_decreases ∷ es) = others (decrease r) es

abbrev pub InRange : Resource → Type 0
InRange r = r.current < 18446744073709551616

-- The state has taken up one retry of `r` if it is pending, and none otherwise.
abbrev Owes : Bool → Resource → Resource → Type 0
Owes true r s = s ≡ increase r
Owes false r s = s ≡ r

pub record Holds (r : Resource) (s : RetryState) : Type 0 where
  pub owes : Owes s.pending r s.retries
  pub range : InRange r

decrease-increase : (r : Resource) → InRange r → decrease (increase r) ≡ r
unfolding decrease increase
decrease-increase r h = λ i. record { current = back i; max = r.max }
  where
    back :
        ((r.current + 1) % 18446744073709551616 + 18446744073709551615) % 18446744073709551616
        ≡ r.current
    back = omega arith

increase-decrease : (r : Resource) → InRange r → increase (decrease r) ≡ r
unfolding decrease increase
increase-decrease r h = λ i. record { current = back i; max = r.max }
  where
    back :
        ((r.current + 18446744073709551615) % 18446744073709551616 + 1) % 18446744073709551616
        ≡ r.current
    back = omega arith

-- A state that has taken up nothing.
abbrev Free : Resource → RetryState → RetryState → Type 0
Free r s t = (t.retries ≡ r) × (t.pending ≡ false) × (t.reties_remaining ≡ s.reties_remaining)

reset-Free : (r : Resource) (s : RetryState) → Holds r s → Free r s (reset s)
unfolding reset
reset-Free r s k = split s.pending refl k.owes
  where
    gone : RetryState
    gone = record s { retries = decrease s.retries; pending = false }

    split :
        (b : Bool) → s.pending ≡ b → Owes b r s.retries → Free r s (if s.pending then gone else s)
    split true e o =
        by_true (Free r s) s.pending gone s e
          (ap decrease o ∙ decrease-increase r k.range, refl, refl)
    split false e o = by_false (Free r s) s.pending gone s e (o, e, refl)

-- A check leaves the resource and the pending retry alone, and takes at most what remains.
abbrev Checked : RetryState → RetryState × RetryCheckStatus → Type 0
Checked s r =
    (r.0.retries ≡ s.retries)
    × (r.0.pending ≡ s.pending)
    × (scheduled r.1 + r.0.reties_remaining ≤ s.reties_remaining)

should_retry_check-Checked :
    (s : RetryState) (status : Option ℤ) (reason : StreamResetReason)
    → Checked s (should_retry_check s status reason)
unfolding should_retry_check
should_retry_check-Checked s status reason = elim (Bool-cases (s.reties_remaining == 0)) [
  | inl e ↦ by_true (Checked s) _ (s, no_retry) later e (refl, refl, omega arith)
  | inr e ↦
      let some_left : 0 < s.reties_remaining = ground arith in
      by_false (Checked s) _ (s, no_retry) later e
        (either (not (do_retry_check s status reason)) (s1, no_retry) tested
          (refl, refl, omega arith)
          (either (can_create s.retries) (s2, retry_overflow) (s1, should_retry)
            (refl, refl, omega arith) (refl, refl, omega arith)))
]
  where
    s1 : RetryState
    s1 = record s { reties_remaining = s.reties_remaining - 1 }

    s2 : RetryState
    s2 = record s1 { upstream_request_retry_overflow = s.upstream_request_retry_overflow + 1 }

    tested : RetryState × RetryCheckStatus
    tested = if can_create s.retries then (s2, retry_overflow) else (s1, should_retry)

    later : RetryState × RetryCheckStatus
    later = if not (do_retry_check s status reason) then (s1, no_retry) else tested

    either :
        (b : Bool) (x y : RetryState × RetryCheckStatus)
        → Checked s x
        → Checked s y
        → Checked s (if b then x else y)
    either true x y p q = p
    either false x y p q = q

Owes-free : (b : Bool) (r q : Resource) → b ≡ false → q ≡ r → Owes b r q
Owes-free true r q e o = absurd cc
Owes-free false r q e o = o

-- One call of `retry`.
abbrev Tried : Resource → RetryState → RetryState × RetryCheckStatus → Type 0
Tried r s x = Holds r x.0 × (scheduled x.1 + x.0.reties_remaining ≤ s.reties_remaining)

module _ (r : Resource) (s t : RetryState) (range : InRange r) (f : Free r s t) where
  unscheduled : (u : RetryState) (c : RetryCheckStatus) → Checked t (u, c) → Tried r s (u, c)
  unscheduled u c (same, still, most) = (
    record { owes = Owes-free u.pending r u.retries (still ∙ f.1) (same ∙ f.0); range = range },
    omega (arith, most, f.2),
  )

  scheduled_if-Tried :
      (u : RetryState) (c : RetryCheckStatus) → Checked t (u, c) → Tried r s (scheduled_if (u, c))
  unfolding schedule_retry
  scheduled_if-Tried u should_retry (same, still, most) =
      (record { owes = ap increase (same ∙ f.0); range = range }, omega (arith, most, f.2))
  scheduled_if-Tried u no_retry h = unscheduled u no_retry h
  scheduled_if-Tried u retry_overflow h = unscheduled u retry_overflow h

retry-Tried :
    (r : Resource) (s : RetryState) (status : Option ℤ) (reason : StreamResetReason)
    → Holds r s
    → Tried r s (retry s status reason)
unfolding retry
retry-Tried r s status reason k =
    scheduled_if-Tried r s (reset s) k.range (reset-Free r s k) _ _
      (should_retry_check-Checked (reset s) status reason)

-- What others do to the resource.
Holds-increase :
    (r : Resource) (s : RetryState)
    → Holds r s
    → Holds (increase r) (on_resource s (increase s.retries))
unfolding increase
Holds-increase r s k = record { owes = owing s.pending k.owes; range = omega arith }
  where
    owing : (b : Bool) → Owes b r s.retries → Owes b (increase r) (increase s.retries)
    owing true o = ap increase o
    owing false o = ap increase o

Holds-decrease :
    (r : Resource) (s : RetryState)
    → Holds r s
    → Holds (decrease r) (on_resource s (decrease s.retries))
unfolding decrease
Holds-decrease r s k = record { owes = owing s.pending k.owes; range = omega arith }
  where
    owing : (b : Bool) → Owes b r s.retries → Owes b (decrease r) (decrease s.retries)
    owing true o = ap decrease o ∙ decrease-increase r k.range ∙ sym (increase-decrease r k.range)
    owing false o = ap decrease o

run-Holds :
    (es : List Event) (r : Resource) (s : RetryState)
    → Holds r s
    → Holds (others r es) (run s es).0
      × ((run s es).1 + (run s es).0.reties_remaining ≤ s.reties_remaining)
unfolding run others
run-Holds [] r s k = (k, omega arith)
run-Holds (tries status reason ∷ es) r s k =
    let (held, most) = retry-Tried r s status reason k in
    let (later, rest) = run-Holds es r (retry s status reason).0 held in
    (later, omega (arith, most, rest))
run-Holds (resets ∷ es) r s k =
    let f = reset-Free r s k in
    let (later, rest) = run-Holds es r (reset s) (record {
      owes = Owes-free (reset s).pending r (reset s).retries f.1 f.0;
      range = k.range;
    }) in
    (later, omega (arith, rest, f.2))
run-Holds (other_increases ∷ es) r s k = run-Holds es _ _ (Holds-increase r s k)
run-Holds (other_decreases ∷ es) r s k = run-Holds es _ _ (Holds-decrease r s k)

-- However the calls of a request and what others do to the retry resource interleave, a request that
-- has no retry pending at first schedules at most as many retries as it has left, and a reset at the
-- end leaves the resource as the others alone would have: no retry is lost or given back twice.
pub run-others :
    (es : List Event) (s : RetryState)
    → s.pending ≡ false
    → InRange s.retries
    → ((run s es).1 ≤ s.reties_remaining) × ((reset (run s es).0).retries ≡ others s.retries es)
run-others es s e range =
    let (held, most) =
      run-Holds es s.retries s
        (record { owes = Owes-free s.pending s.retries s.retries e refl; range = range }) in
    (omega (arith, most), (reset-Free (others s.retries es) (run s es).0 held).0)

-- Within the limit nothing is scheduled.
abbrev NotScheduled : RetryState × RetryCheckStatus → Type 0
NotScheduled x = (scheduled_if x).1 ≢ should_retry

should_retry_check-within :
    (t : RetryState) (status : Option ℤ) (reason : StreamResetReason)
    → can_create t.retries ≡ true
    → NotScheduled (should_retry_check t status reason)
unfolding should_retry_check
should_retry_check-within t status reason h =
    either (t.reties_remaining == 0) (t, no_retry) _ (λ e. absurd cc)
      (either (not (do_retry_check t status reason)) (t1, no_retry) _ (λ e. absurd cc)
        (by_true NotScheduled (can_create t.retries) (t2, retry_overflow) (t1, should_retry) h
          (λ e. absurd cc)))
  where
    t1 : RetryState
    t1 = record t { reties_remaining = t.reties_remaining - 1 }

    t2 : RetryState
    t2 = record t1 { upstream_request_retry_overflow = t.upstream_request_retry_overflow + 1 }

    either :
        (b : Bool) (x y : RetryState × RetryCheckStatus)
        → NotScheduled x
        → NotScheduled y
        → NotScheduled (if b then x else y)
    either true x y p q = p
    either false x y p q = q

-- `retry` schedules only where the resource, without a pending retry of the same request, does not
-- allow another: the test of CanCreate is the wrong way round.
pub retry-over_limit :
    (s : RetryState) (status : Option ℤ) (reason : StreamResetReason)
    → (retry s status reason).1 ≡ should_retry
    → can_create (reset s).retries ≡ false
unfolding retry
retry-over_limit s status reason h = elim (Bool-cases (can_create (reset s).retries)) [
  | inl e ↦ absurd (should_retry_check-within (reset s) status reason e h)
  | inr e ↦ e
]
