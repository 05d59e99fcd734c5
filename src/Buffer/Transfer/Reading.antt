-- ===== src/Buffer/Transfer/Reading.antt =====
-- iobuffer.go: `ReadOnce` and one round of `ReadFrom`: what they add to the contents.
use mathlib.Core.List.{append_assoc, append-nil}
use psh_mosn.Base.{
  ℕ, zero, suc, ◌+◌, ◌-◌, ◌*◌, ◌≤◌, ◌<◌, ◌≡◌, refl, ap, ◌∙◌, inl, inr, not, ◌&&◌, List, [], ◌++◌,
  arith, ltb, ◌==◌, Bool-cases, length, length-append,
}
use psh_mosn.Buffer.{IoBuffer, cap, bytes, make_room, min_read, max_read, Inv, reset_if_empty}
use psh_mosn.Buffer.Appending.{
  HasRoom, HasRoom-make_room, HasRoom-moved, bytes-extended, extended-Inv, bytes-reset_if_empty,
  reset_if_empty-Inv,
}
use psh_mosn.Buffer.Transfer.{
  Reader, Status, Outcome, returned, panicked, out_of_fuel, filled, read_once_step, read_once_loop,
  read_once, move_down,
}

-- The io.Reader contract: it fills no more than the slice that it is given.
abbrev pub IsReader : Reader → Type 0
IsReader r = (k room : ℕ) → length (r k room).0 ≤ room

-- The bytes `got` follow the contents of `b`, and the count is theirs.
abbrev pub Received : IoBuffer → ℕ → Outcome → Type 0
Received b start out_of_fuel = ⊥
Received b start panicked = ⊥
Received b start (returned c n e) =
    (got : List ℕ) × (bytes c ≡ bytes b ++ got) × (n ≡ start + length got) × Inv c

module _ (b c : IoBuffer) (n : ℕ) (h : HasRoom b min_read c) where
  Received-nothing : (e : Status) → Received b n (returned c n e)
  Received-nothing e = ([], rw (append-nil (bytes b)) h.same, omega arith, h.valid)

  module _ (input : List ℕ) (fits : length input ≤ cap c - c.len) where
    filled-Inv : Inv (filled c input)
    unfolding filled
    filled-Inv = extended-Inv c input h.valid (omega (arith, h.room))

    bytes-filled : bytes (filled c input) ≡ bytes b ++ input
    unfolding filled
    bytes-filled =
        rw (bytes-extended c input h.valid (omega (arith, h.room))) (ap (λ q. q ++ input) h.same)

    Received-now : (e : Status) → Received b n (returned (filled c input) (n + length input) e)
    Received-now e = (input, bytes-filled, refl, filled-Inv)

    Received-later : (o : Outcome) → Received (filled c input) (n + length input) o → Received b n o
    Received-later (returned d n' e) (got, same, count, valid) = (
      input ++ got,
      same ∙ ap (λ q. q ++ got) bytes-filled ∙ append_assoc (bytes b) input got,
      omega (arith, length-append input got),
      valid,
    )
    Received-later panicked r = r
    Received-later out_of_fuel r = r

    Received-once :
        (e : Status) (again : IoBuffer → ℕ → Outcome)
        → (cap c - c.len ≡ length input
            → n + length input ≤ max_read
            → Received
                (filled c input)
                (n + length input)
                (again (filled c input) (n + length input)))
        → Received b n (read_once_step c n (cap c - c.len) input e again)
    unfolding read_once_step
    Received-once Status.timed_out again ih = Received-nothing Status.fine
    Received-once Status.at_eof again ih = Received-nothing Status.at_eof
    Received-once Status.failed again ih = Received-nothing Status.failed
    Received-once Status.fine again ih =
        elim (Bool-cases (cap c - c.len == length input && not (ltb max_read (n + length input)))) [
          | inl more ↦ rw more (Received-later _ (ih (ground arith) (ground arith)))
          | inr done ↦ rw done (Received-now Status.fine)
        ]

read_once_loop-Received :
    (fuel : ℕ) (r : Reader) (k : ℕ) (b : IoBuffer) (n : ℕ)
    → IsReader r
    → Inv b
    → n ≤ max_read
    → max_read < n + 1024 * fuel
    → Received b n (read_once_loop fuel r k b n)
unfolding read_once_loop
read_once_loop-Received zero r k b n c v small h = absurd (omega arith)
read_once_loop-Received (suc fuel) r k b n c v small h =
    let room = HasRoom-make_room b min_read v in
    let d = make_room b min_read in
    let input = (r k (cap d - d.len)).0 in
    let fits = c k (cap d - d.len) in
    Received-once b d n room input fits (r k (cap d - d.len)).1 (read_once_loop fuel r (suc k))
      (λ full few.
        read_once_loop-Received fuel r (suc k) (filled d input) (n + length input) c
          (filled-Inv b d n room input fits) few (omega (arith, room.room)))

move_down_lem : (b : IoBuffer) → Inv b → (bytes (move_down b) ≡ bytes b) × Inv (move_down b)
unfolding move_down
move_down_lem b v = elim (Bool-cases (ltb 0 b.off && ltb (b.len - b.off) 4096)) [
  | inl t ↦
      let m = HasRoom-moved b 0 v b.arr b.is_nil (omega (arith, v)) v.nil_empty in
      rw t (m.same, m.valid)
  | inr t ↦ rw t (refl, v)
]

-- With a reader that keeps the io.Reader contract, `ReadOnce` makes at most 129 reads, whatever the
-- reader returns: it does not run out of 129 rounds, puts what it counts behind the contents, changes
-- nothing else of the contents, and leaves the buffer well formed.
pub read_once-Received :
    (r : Reader) (b : IoBuffer) → IsReader r → Inv b → Received b 0 (read_once 129 r b)
unfolding read_once
read_once-Received r b c v =
    let (same, valid) = move_down_lem (reset_if_empty b) (reset_if_empty-Inv b v) in
    rebase (move_down (reset_if_empty b)) _ (same ∙ bytes-reset_if_empty b v) (
      read_once_loop-Received 129 r 0 (move_down (reset_if_empty b)) 0 c valid (omega arith)
        (omega arith))
  where
    rebase : (d : IoBuffer) (o : Outcome) → bytes d ≡ bytes b → Received d 0 o → Received b 0 o
    rebase d (returned e n s) p (got, same, count, valid) =
        (got, same ∙ ap (λ q. q ++ got) p, count, valid)
    rebase d panicked p x = x
    rebase d out_of_fuel p x = x
