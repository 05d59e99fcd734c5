-- ===== src/Proxy/Timeouts/Printed.antt =====
-- util.go: the timeouts that the headers of a request set, as strconv.Itoa prints them.
use psh_mosn.Base.{
  ℕ, zero, suc, ◌+◌, ◌-◌, ◌*◌, ◌/◌, ◌%◌, ◌≤◌, ◌<◌, ◌≡◌, refl, ap, ◌∙◌, inl, inr, true, false,
  Bool-cases, Option, none, some, [], ◌∷◌, if◌then◌else◌, arith, ltb, ltb→lt, leb, ◌==◌, ◌&&◌,
}
use psh_mosn.Base.Int.{ℤ, pos}
use psh_mosn.Base.Strings.{GoString, lookup, text}
use psh_mosn.Proxy.{Headers}
use psh_mosn.Proxy.Timeouts.{
  digits_onto, itoa, read_digits, positive, parse_int, or_set, ge_ℤ, parse_proxy_timeout,
}

abbrev StartsWithDigit : GoString → Type 0
StartsWithDigit [] = ⊥
StartsWithDigit (c ∷ s) = (48 ≤ c) × (c ≤ 57)

read_digits-digit :
    (d n : ℕ) (s : GoString) → d < 10 → read_digits ((48 + d) ∷ s) n ≡ read_digits s (n * 10 + d)
read_digits-digit d n s h =
    let digit : (leb 48 (48 + d) && leb (48 + d) 57) ≡ true = ground (arith, h) in
    let value : n * 10 + (48 + d - 48) ≡ n * 10 + d = omega arith in rw (digit, value) refl

digits_onto-StartsWithDigit :
    (fuel n : ℕ) (s : GoString) → n < fuel → StartsWithDigit (digits_onto fuel n s)
digits_onto-StartsWithDigit zero n s h = absurd (omega (arith, h))
digits_onto-StartsWithDigit (suc fuel) n s h = elim (Bool-cases (ltb n 10)) [
  | inl e ↦ rw e (omega arith, omega (arith, ltb→lt n 10 e))
  | inr e ↦
      rw e (digits_onto-StartsWithDigit fuel (n / 10) ((48 + n % 10) ∷ s) (ground (arith, h, e)))
]

-- Reading the digits of `n` before `s` goes on behind them with `n`.
read_digits-digits_onto :
    (fuel n : ℕ) (s : GoString) → n < fuel → read_digits (digits_onto fuel n s) 0 ≡ read_digits s n
read_digits-digits_onto zero n s h = absurd (omega (arith, h))
read_digits-digits_onto (suc fuel) n s h = elim (Bool-cases (ltb n 10)) [
  | inl e ↦
      let same : 0 * 10 + n ≡ n = omega arith in
      rw e (read_digits-digit n 0 s (ltb→lt n 10 e) ∙ ap (read_digits s) same)
  | inr e ↦
      let same : n / 10 * 10 + n % 10 ≡ n = omega arith in
      rw e (
        read_digits-digits_onto fuel (n / 10) ((48 + n % 10) ∷ s) (ground (arith, h, e))
        ∙ read_digits-digit (n % 10) (n / 10) s (omega arith)
        ∙ ap (read_digits s) same)
]

parse_int-digits : (s : GoString) → StartsWithDigit s → parse_int s ≡ positive (read_digits s 0)
unfolding parse_int
parse_int-digits [] h = absurd h
parse_int-digits (c ∷ s) (low, high) =
    let minus : (c == 45) ≡ false = ground (arith, low) in
    let plus : (c == 43) ≡ false = ground (arith, low) in rw (minus, plus) refl

parse_int-itoa : (n : ℕ) → n < 9223372036854775808 → parse_int (itoa n) ≡ some (pos n)
unfolding itoa
parse_int-itoa n h =
    let small : ltb n 9223372036854775808 ≡ true = ground (arith, h) in
    parse_int-digits (digits_onto (n + 1) n [])
      (digits_onto-StartsWithDigit (n + 1) n [] (omega arith))
    ∙ ap positive (read_digits-digits_onto (n + 1) n [] (omega arith))
    ∙ rw small refl

-- A header that is printed from a number, or none.
abbrev pub printed : Option ℕ → Option GoString
printed none = none
printed (some n) = some (itoa n)

abbrev pub FitsInt64 : Option ℕ → Type 0
FitsInt64 none = Unit {0}
FitsInt64 (some n) = n < 9223372036854775808

-- The value of a header where there is one, and that of the route.
abbrev pub chosen : Option ℕ → ℕ → ℕ
chosen none n = n
chosen (some m) n = m

or_set-printed :
    (o : Option ℕ) (n : ℕ) → FitsInt64 o → or_set (printed o) (pos n) ≡ pos (chosen o n)
or_set-printed none n h = refl
or_set-printed (some m) n h =
    ap (λ (o : Option ℤ). elim o as (λ x. ℤ) [ none ↦ pos n | some z ↦ z ]) (parse_int-itoa m h)

-- The headers of a request override the timeouts of its route, which are not negative: a header
-- that holds a number below 2^63 in decimal sets its timeout, whatever the route says, and the
-- timeout of the route stays where there is no header. The timeout of one try is kept where it is
-- shorter than that of the whole request, and zero, which is none, otherwise.
pub parse_proxy_timeout-printed :
    (try global : Option ℕ) (route_try route_global : ℕ) (headers : Headers)
    → FitsInt64 try
    → FitsInt64 global
    → lookup (text "x-mosn-try-timeout") headers ≡ printed try
    → lookup (text "x-mosn-global-timeout") headers ≡ printed global
    → let t =
        parse_proxy_timeout
          (record { global_timeout = pos route_global; try_timeout = pos route_try })
          headers in
      let whole = chosen global route_global in
      let one = chosen try route_try in
      (t.global_timeout ≡ pos whole) × (t.try_timeout ≡ pos (if ltb one whole then one else 0))
unfolding parse_proxy_timeout
parse_proxy_timeout-printed try global route_try route_global headers ht hg et eg =
    let a = or_set-printed global route_global hg in
    let b = or_set-printed try route_try ht in
    let whole = chosen global route_global in
    let one = chosen try route_try in
    (
      rw (eg, a) refl,
      rw (et, eg, a, b)
          (elim (Bool-cases (ltb one whole)) [
            | inl e ↦
                let longer : ge_ℤ (pos one) (pos whole) ≡ false = ground (arith, e) in
                rw (e, longer) refl
            | inr e ↦
                let longer : ge_ℤ (pos one) (pos whole) ≡ true = ground (arith, e) in
                rw (e, longer) refl
          ]),
    )
