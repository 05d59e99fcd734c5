-- ===== src/Buffer/Transfer.antt =====
-- iobuffer.go: `WriteTo`, `ReadFrom` and `ReadOnce`, which call a writer or a reader in a loop. The
-- writer, the reader and the connection are code outside the buffer: functions of the number of the
-- call. `ReadOnce` is modelled for a net.Conn; its deadlines show as the status `timeout`.
pub mod Laws
pub mod Reading
use psh_mosn.Base.{
  ℕ, zero, suc, ◌+◌, ◌-◌, ◌≤◌, ◌≡◌, Bool, true, false, not, ◌&&◌, ◌||◌, Option, none, some, List,
  [], ◌++◌, take, ltb, ◌==◌, if◌then◌else◌, length, copy_at,
}
use psh_mosn.Buffer.{IoBuffer, cap, bytes, buffered, reset_if_empty, make_room, min_read, max_read}

-- w.Write(p): the count and whether there is an error.
abbrev pub Writer : Type 0
Writer = ℕ → List ℕ → ℕ × Bool

pub data Status : Type 0 where
  fine at_eof timed_out failed : Status

-- r.Read(p) with a slice of that length: the bytes put there, and the error.
abbrev pub Reader : Type 0
Reader = ℕ → ℕ → List ℕ × Status

-- `none` is a panic or a loop that has not ended with the fuel given; `stopped` names which.
pub data Outcome : Type 0 where
  returned : IoBuffer → ℕ → Status → Outcome
  panicked out_of_fuel : Outcome

-- What `WriteTo` comes to: the buffer, the count, the bytes that the writer has taken, and the status.
pub data Written : Type 0 where
  written : IoBuffer → ℕ → List ℕ → Status → Written
  write_panicked write_out_of_fuel : Written

-- The body of the loop of `WriteTo` once the writer has answered (m, e). `sent` holds the bytes that
-- the writer has taken so far.
unfoldable pub write_to_step :
    IoBuffer → ℕ → List ℕ → ℕ → Bool → (IoBuffer → ℕ → List ℕ → Written) → Written
unfolding buffered
write_to_step b n sent m e again =
    let b' = record b { off = b.off + m } in
    let rest = again b' (n + m) sent in
    if ltb (buffered b) m
    then write_panicked
    else (if e
        then written b' (n + m) sent failed
        else (if m == 0 || m == buffered b then written b' (n + m) sent fine else rest))

-- Of the slice `p` that the writer is called with, it takes as many bytes as it answers.
unfoldable pub write_to_loop : ℕ → Writer → ℕ → IoBuffer → ℕ → List ℕ → Written
write_to_loop zero w k b n sent = write_out_of_fuel
write_to_loop (suc fuel) w k b n sent =
    let p = bytes b in
    let (m, e) = w k p in
    let body = write_to_step b n (sent ++ take m p) m e (write_to_loop fuel w (suc k)) in
    if ltb b.off b.len then body else written b n sent fine

unfoldable pub write_to : ℕ → Writer → IoBuffer → Written
write_to fuel w b = write_to_loop fuel w 0 b 0 []

-- b.buf[len:cap] filled by the reader's bytes, and the slice extended over them.
unfoldable pub filled : IoBuffer → List ℕ → IoBuffer
filled b input = record b { arr = copy_at b.arr b.len input; len = b.len + length input }

unfoldable pub read_from_step : IoBuffer → ℕ → List ℕ → Status → (IoBuffer → ℕ → Outcome) → Outcome
unfolding filled
read_from_step b n input Status.at_eof again = returned (filled b input) (n + length input) fine
read_from_step b n input Status.fine again =
    let rest = again (filled b input) (n + length input) in
    if length input == 0 then returned (filled b input) (n + length input) fine else rest
read_from_step b n input e again =
    returned (filled b input) (n + length input) (if length input == 0 then fine else e)

unfoldable pub read_from_loop : ℕ → Reader → ℕ → IoBuffer → ℕ → Outcome
read_from_loop zero r k b n = out_of_fuel
read_from_loop (suc fuel) r k b n =
    let c = make_room b min_read in
    let answer = r k (cap c - c.len) in
    read_from_step c n answer.0 answer.1 (read_from_loop fuel r (suc k))

unfoldable pub read_from : ℕ → Reader → IoBuffer → Outcome
read_from fuel r b = read_from_loop fuel r 0 (reset_if_empty b) 0

-- `if b.off > 0 && len(b.buf)-b.off < 4*MinRead`: the contents move to the front.
unfoldable pub move_down : IoBuffer → IoBuffer
move_down b =
    if ltb 0 b.off && ltb (b.len - b.off) 4096
    then record b { arr = copy_at b.arr 0 (bytes b); len = b.len - b.off; off = 0 }
    else b

-- A read that fails leaves out the bytes that came with the error.
unfoldable pub read_once_step :
    IoBuffer → ℕ → ℕ → List ℕ → Status → (IoBuffer → ℕ → Outcome) → Outcome
unfolding filled
read_once_step b n room input Status.timed_out again = returned b n fine
read_once_step b n room input Status.at_eof again = returned b n at_eof
read_once_step b n room input Status.failed again = returned b n failed
read_once_step b n room input Status.fine again =
    let b' = filled b input in
    let n' = n + length input in
    let rest = again b' n' in
    if room == length input && not (ltb max_read n') then rest else returned b' n' fine

unfoldable pub read_once_loop : ℕ → Reader → ℕ → IoBuffer → ℕ → Outcome
read_once_loop zero r k b n = out_of_fuel
read_once_loop (suc fuel) r k b n =
    let c = make_room b min_read in
    let room = cap c - c.len in
    let answer = r k room in
    read_once_step c n room answer.0 answer.1 (read_once_loop fuel r (suc k))

unfoldable pub read_once : ℕ → Reader → IoBuffer → Outcome
unfolding reset_if_empty move_down
read_once fuel r b = read_once_loop fuel r 0 (move_down (reset_if_empty b)) 0
