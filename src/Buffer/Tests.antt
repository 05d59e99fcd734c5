-- ===== src/Buffer/Tests.antt =====
-- iobuffer.go: runs of the model, and the theorems at concrete buffers.
use psh_mosn.Base.{
  ℕ, ◌≤◌, ◌<◌, suc, ◌≡◌, refl, false, none, some, List, [], ◌∷◌, arith, length, take, length-take,
  copy_at,
}
use psh_mosn.Buffer.{
  IoBuffer, bytes, bytes_or_panic, buffered, write, append, mark, restore, clone, append_byte, Inv,
  try_grow_by_reslice, grow, reallocate,
}
use psh_mosn.Buffer.Queue.{
  Op, writes, appends, reads, peeks, cuts, drains, resets, run_ops, queue_ops, run_ops-refines,
}
use psh_mosn.Buffer.Marks.{reads_all, restore-reads_all, restore-append_moved}
use psh_mosn.Buffer.Transfer.{
  Writer, Reader, Status, Written, written, write_to, write_to_loop, write_to_step, read_once,
}
use psh_mosn.Buffer.Transfer.Laws.{IsWriter, Sent, write_to-Sent}
use psh_mosn.Buffer.Transfer.Reading.{IsReader, Received, read_once-Received}

-- Three bytes behind two that have been read, in an array of eight.
abbrev half_read : IoBuffer
half_read = record {
  arr = 1 ∷ 2 ∷ 3 ∷ 4 ∷ 5 ∷ 0 ∷ 0 ∷ 0 ∷ [];
  len = 5;
  off = 2;
  off_mark = none;
  is_nil = false;
}

half_read-Inv : Inv half_read
half_read-Inv = record { within = omega arith; behind = omega arith; nil_empty = λ e. cc }

-- A write that fits is put behind the contents; one that does not moves or copies them.
write_in_place : bytes (write half_read (6 ∷ 7 ∷ [])).0 ≡ 3 ∷ 4 ∷ 5 ∷ 6 ∷ 7 ∷ []
unfolding write try_grow_by_reslice copy_at
write_in_place = refl

write_grows : (write half_read (6 ∷ 7 ∷ 8 ∷ 9 ∷ [])).0.off ≡ 0
unfolding write try_grow_by_reslice grow buffered reallocate
write_grows = refl

-- `Clone` loses the contents, and `AppendByte` its byte.
clone_is_empty : bytes (clone half_read) ≡ []
unfolding clone
clone_is_empty = refl

append_byte_zero : bytes (append_byte half_read 9) ≡ 3 ∷ 4 ∷ 5 ∷ 0 ∷ []
unfolding append_byte copy_at
append_byte_zero = refl

abbrev calls : List Op
calls =
    reads 1
    ∷ writes (6 ∷ 7 ∷ 8 ∷ 9 ∷ 10 ∷ 11 ∷ [])
    ∷ cuts 2
    ∷ appends (12 ∷ [])
    ∷ drains 100
    ∷ peeks 3
    ∷ resets
    ∷ reads 4
    ∷ []

run_ops-refines_example :
    ((bytes (run_ops calls half_read).0, (run_ops calls half_read).1)
      ≡ queue_ops calls (bytes half_read))
    × Inv (run_ops calls half_read).0
run_ops-refines_example = run_ops-refines calls half_read half_read-Inv

restore-reads_all_example :
    bytes_or_panic (restore (reads_all (1 ∷ 1 ∷ []) (mark half_read))) ≡ some (3 ∷ 4 ∷ 5 ∷ [])
restore-reads_all_example = restore-reads_all (1 ∷ 1 ∷ []) half_read (omega arith)

-- Two of the three bytes are lost, since two had been read before the mark.
restore-append_moved_example :
    bytes_or_panic (restore (append (mark half_read) (6 ∷ 7 ∷ 8 ∷ 9 ∷ [])))
    ≡ some (5 ∷ 6 ∷ 7 ∷ 8 ∷ 9 ∷ [])
restore-append_moved_example =
    restore-append_moved half_read (6 ∷ 7 ∷ 8 ∷ 9 ∷ []) half_read-Inv (omega arith) (omega arith)

-- One byte is left unread in an array of ten: after an append of two, the offset that is restored is
-- above the length, and `Bytes` panics.
abbrev nearly_read : IoBuffer
nearly_read = record {
  arr = 1 ∷ 2 ∷ 3 ∷ 4 ∷ 5 ∷ 6 ∷ 7 ∷ 8 ∷ 9 ∷ 0 ∷ [];
  len = 9;
  off = 8;
  off_mark = none;
  is_nil = false;
}

restore_beyond : bytes_or_panic (restore (append (mark nearly_read) (10 ∷ 11 ∷ []))) ≡ none
unfolding bytes_or_panic restore append mark
restore_beyond = refl

-- A writer that takes one byte in a call.
abbrev one_by_one : Writer
one_by_one k [] = (0, false)
one_by_one k (x ∷ p) = (1, false)

takes_one : (k : ℕ) (p : List ℕ) → (one_by_one k p).0 ≤ length p
takes_one k [] = omega arith
takes_one k (x ∷ p) = omega arith

one_by_one-IsWriter : IsWriter one_by_one
one_by_one-IsWriter = record { takes = takes_one; moves = moves_one }
  where
    moves_one :
        (k : ℕ) (p : List ℕ) → (one_by_one k p).1 ≡ false → 0 < length p → 0 < (one_by_one k p).0
    moves_one k [] e h = absurd (omega arith)
    moves_one k (x ∷ p) e h = omega arith

-- The writer gets the three bytes that have not been read.
abbrev bytes_sent : Written → List ℕ
bytes_sent (written c n sent e) = sent
bytes_sent _ = []

write_to_all : bytes_sent (write_to 4 one_by_one half_read) ≡ 3 ∷ 4 ∷ 5 ∷ []
unfolding write_to write_to_loop write_to_step
write_to_all = refl

write_to-Sent_example :
    Sent half_read 0 [] (write_to (suc (buffered half_read)) one_by_one half_read)
write_to-Sent_example = write_to-Sent one_by_one half_read one_by_one-IsWriter half_read-Inv

-- A reader that has two bytes for each call.
abbrev two_bytes : Reader
two_bytes k room = (take room (1 ∷ 2 ∷ []), Status.fine)

two_bytes-IsReader : IsReader two_bytes
two_bytes-IsReader k room = omega (arith, length-take {A = ℕ} room (1 ∷ 2 ∷ []))

read_once-Received_example : Received half_read 0 (read_once 129 two_bytes half_read)
read_once-Received_example = read_once-Received two_bytes half_read two_bytes-IsReader half_read-Inv
