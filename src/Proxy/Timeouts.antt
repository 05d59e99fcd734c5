-- ===== src/Proxy/Timeouts.antt =====
-- pkg/proxy/util.go: the timeouts of a request; strconv.ParseInt and strconv.Itoa in base ten.
pub mod Printed
use psh_mosn.Base.{
  ℕ, zero, suc, ◌+◌, ◌-◌, ◌*◌, ◌/◌, ◌%◌, Bool, ◌&&◌, Option, none, some, [], ◌∷◌, leb, ltb, ◌==◌,
  if◌then◌else◌,
}
use psh_mosn.Base.Int.{ℤ, pos, negsuc, pos_part, neg_part}
use psh_mosn.Base.Strings.{GoString, lookup, text}
use psh_mosn.Proxy.{Headers, Timeout}

-- The digits of a number, on fuel: one more than the number is enough.
abbrev pub digits_onto : ℕ → ℕ → GoString → GoString
digits_onto zero n s = s
digits_onto (suc fuel) n s =
    let more = digits_onto fuel (n / 10) ((48 + n % 10) ∷ s) in
    if ltb n 10 then (48 + n) ∷ s else more

-- strconv.Itoa of a number that is not negative.
unfoldable pub itoa : ℕ → GoString
itoa n = digits_onto (n + 1) n []

abbrev pub read_digits : GoString → ℕ → Option ℕ
read_digits [] n = some n
read_digits (c ∷ s) n =
    let more = read_digits s (n * 10 + (c - 48)) in if leb 48 c && leb c 57 then more else none

abbrev pub unsigned : GoString → Option ℕ
unsigned [] = none
unsigned (c ∷ s) = read_digits (c ∷ s) 0

abbrev pub positive : Option ℕ → Option ℤ
positive none = none
positive (some n) = if ltb n 9223372036854775808 then some (pos n) else none

abbrev pub negative : Option ℕ → Option ℤ
negative none = none
negative (some zero) = some (pos 0)
negative (some (suc n)) = if ltb n 9223372036854775808 then some (negsuc n) else none

-- strconv.ParseInt(s, 10, 64); `none` is an error.
unfoldable pub parse_int : GoString → Option ℤ
parse_int [] = none
parse_int (c ∷ s) =
    if c == 45
    then negative (unsigned s)
    else if c == 43
    then positive (unsigned s)
    else positive (unsigned (c ∷ s))

abbrev pub or_set : Option GoString → ℤ → ℤ
or_set none d = d
or_set (some value) d = elim (parse_int value) [ none ↦ d | some z ↦ z ]

-- a >= b
abbrev pub ge_ℤ : ℤ → ℤ → Bool
ge_ℤ a b = leb (pos_part b + neg_part a) (pos_part a + neg_part b)

-- The timeouts of the route, and those that headers of the request set instead.
unfoldable pub parse_proxy_timeout : Timeout → Headers → Timeout
unfolding parse_int
parse_proxy_timeout route headers =
    let try_timeout = or_set (lookup (text "x-mosn-try-timeout") headers) route.try_timeout in
    let global = or_set (lookup (text "x-mosn-global-timeout") headers) route.global_timeout in
    record {
      global_timeout = global;
      try_timeout = if ge_ℤ try_timeout global then pos 0 else try_timeout;
    }
