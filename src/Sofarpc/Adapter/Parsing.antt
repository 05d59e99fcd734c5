-- ===== src/Sofarpc/Adapter/Parsing.antt =====
-- adapter.go, with strconv: a number comes back from its decimal digits.
use psh_mosn.Base.{ℕ, ◌+◌, ◌-◌, ◌*◌, ◌^◌, ◌≤◌, inl, inr, [], ◌∷◌, arith, ltb, Bool-cases}
use psh_mosn.Base.Strings.{GoString}
use psh_mosn.Sofarpc.Adapter.{parse_digits, parse_uint}

-- Whatever the text is, the value is in the range of its type.
parse_digits-le : (most n : ℕ) (s : GoString) → n ≤ most → parse_digits most n s ≤ most
unfolding parse_digits
parse_digits-le most n [] h = h
parse_digits-le most n (c ∷ cs) h = elim (Bool-cases (ltb most (n * 10 + (c - b'0')))) [
  | inl over ↦ ground (arith)
  | inr fits ↦ ground (arith, parse_digits-le most (n * 10 + (c - b'0')) cs)
]

pub parse_uint-le : (s : GoString) (bits : ℕ) → parse_uint s bits ≤ 2 ^ bits - 1
unfolding parse_uint
parse_uint-le s bits = parse_digits-le (2 ^ bits - 1) 0 s (omega arith)
