-- ===== src/FilterManager/Writing.antt =====
-- filtermanager.go: OnWrite, and where a write filter stops it.
use psh_mosn.Base.{ℕ, zero, suc, ◌+◌, ◌<◌, ◌≡◌, refl, ap, ◌∙◌, List, [], ◌∷◌, arith}
use psh_mosn.FilterManager.{
  FilterStatus, continue, stop_iteration, FilterCall, on_write, unless_stopped, on_write_loop,
}

-- The `n` filters from `i` on, in order.
abbrev pub writes : ℕ → ℕ → List FilterCall
writes i zero = []
writes i (suc n) = on_write i ∷ writes (i + 1) n

-- The `n` filters from `i` on let the write pass.
abbrev pub Pass : (ℕ → FilterStatus) → ℕ → ℕ → Type 0
Pass answer i zero = Unit {0}
Pass answer i (suc n) = (answer i ≡ continue) × Pass answer (i + 1) n

-- All filters are asked and let the write pass, or the first that stops it is the last that is asked.
abbrev pub Asked : (ℕ → FilterStatus) → ℕ → ℕ → FilterStatus → List FilterCall → Type 0
Asked answer i n continue calls = Pass answer i n × (calls ≡ writes i n)
Asked answer i n stop_iteration calls =
    (k : ℕ) × (k < n)
    × Pass answer i k
    × (answer (i + k) ≡ stop_iteration)
    × (calls ≡ writes i (suc k))

Asked-more :
    (answer : ℕ → FilterStatus) (i n : ℕ) (s : FilterStatus) (calls : List FilterCall)
    → answer i ≡ continue
    → Asked answer (i + 1) n s calls
    → Asked answer i (suc n) s (on_write i ∷ calls)
Asked-more answer i n continue calls e (pass, same) = ((e, pass), ap (λ q. on_write i ∷ q) same)
Asked-more answer i n stop_iteration calls e (k, below, pass, stop, same) =
    (suc k, omega arith, (e, pass), ap answer (omega arith) ∙ stop, ap (λ q. on_write i ∷ q) same)

Asked-stop :
    (answer : ℕ → FilterStatus) (i n : ℕ)
    → answer i ≡ stop_iteration
    → Asked answer i (suc n) stop_iteration (on_write i ∷ [])
Asked-stop answer i n e = (0, omega arith, tt, ap answer (omega arith) ∙ e, refl)

on_write_loop-Asked_from :
    (answer : ℕ → FilterStatus) (i n : ℕ)
    → Asked answer i n (on_write_loop answer i n).0 (on_write_loop answer i n).1
unfolding on_write_loop
on_write_loop-Asked_from answer i zero = (tt, refl)
on_write_loop-Asked_from answer i (suc n) =
    decided (answer i) refl (on_write_loop-Asked_from answer (i + 1) n)
  where
    rest : FilterStatus × List FilterCall
    rest = on_write_loop answer (i + 1) n

    decided :
        (s : FilterStatus)
        → answer i ≡ s
        → Asked answer (i + 1) n rest.0 rest.1
        → Asked answer i
            (suc n)
            (unless_stopped {A = FilterStatus × List FilterCall} s
              (rest.0, on_write i ∷ rest.1)
              (stop_iteration, on_write i ∷ [])).0
            (unless_stopped {A = FilterStatus × List FilterCall} s
              (rest.0, on_write i ∷ rest.1)
              (stop_iteration, on_write i ∷ [])).1
    decided continue e h = Asked-more answer i n rest.0 rest.1 e h
    decided stop_iteration e h = Asked-stop answer i n e

-- OnWrite asks its n write filters one after the other. Where it answers Continue, each of them has been asked once, in
-- order, and let the write pass; where it answers StopIteration, one of them has stopped the write, and exactly those
-- up to it have been asked, once and in order, and those before it let the write pass.
pub on_write_loop-Asked :
    (answer : ℕ → FilterStatus) (n : ℕ)
    → Asked answer 0 n (on_write_loop answer 0 n).0 (on_write_loop answer 0 n).1
on_write_loop-Asked answer n = on_write_loop-Asked_from answer 0 n
