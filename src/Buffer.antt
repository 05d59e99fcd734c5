-- ===== src/Buffer.antt =====
-- The byte buffer of pkg/network/buffer/iobuffer.go. A slice is the array that backs it with its
-- length; the array is as long as the slice's capacity. Slices that alias the buffer (`Peek`,
-- `Bytes`) are the bytes they show at the time of the call. Counts and lengths that Go passes as
-- `int` are not negative here, and an allocation succeeds. Where the offset is above the length, which
-- only `Restore` can do, `b.buf[b.off:]` panics in Go; `bytes_or_panic` says so, and the other
-- operations are those of the code where it is not above.
pub mod Writing
pub mod Appending
pub mod Queue
pub mod Marks
pub mod Transfer
mod Tests
use psh_mosn.Base.{
  ℕ, zero, suc, ◌+◌, ◌-◌, ◌*◌, ◌/◌, ◌≤◌, ◌≡◌, Bool, true, false, not, ◌&&◌, ◌||◌, Option, none,
  some, List, [], ◌∷◌, ltb, leb, ◌==◌, if◌then◌else◌, length, take, drop, replicate, copy_at,
}
use Prim.Native.Nat.{min}

abbrev pub min_read : ℕ
min_read = 1024

abbrev pub max_read : ℕ
max_read = 131072

-- `off_mark` is `none` for ResetOffMark.
pub record IoBuffer : Type 0 where
  pub arr : List ℕ
  pub len : ℕ
  pub off : ℕ
  pub off_mark : Option ℕ
  pub is_nil : Bool

-- cap(b.buf)
abbrev pub cap : IoBuffer → ℕ
cap b = length b.arr

-- The contents: what `b.buf[b.off:]` shows where the offset is not above the length.
abbrev pub bytes : IoBuffer → List ℕ
bytes b = drop b.off (take b.len b.arr)

-- `Bytes`; `none` is the panic of the slice expression. `Restore` can leave the offset above the
-- length.
unfoldable pub bytes_or_panic : IoBuffer → Option (List ℕ)
bytes_or_panic b = if leb b.off b.len then some (bytes b) else none

abbrev pub make_slice : ℕ → List ℕ
make_slice n = replicate n 0

-- copy(b.buf[from:to], src), where `to` is the length of the slice.
abbrev pub copy_into : List ℕ → ℕ → ℕ → List ℕ → List ℕ
copy_into arr from to src = copy_at arr from (take (to - from) src)

unfoldable pub new_io_buffer : ℕ → IoBuffer
new_io_buffer capacity = record {
  arr = make_slice capacity;
  len = 0;
  off = 0;
  off_mark = none;
  is_nil = false;
}

-- An empty slice counts as nil, and a slice has no spare capacity.
unfoldable pub new_io_buffer_bytes : List ℕ → IoBuffer
new_io_buffer_bytes bs = record {
  arr = bs;
  len = length bs;
  off = 0;
  off_mark = none;
  is_nil = length bs == 0;
}

unfoldable pub buffered : IoBuffer → ℕ
buffered b = b.len - b.off

unfoldable pub reset : IoBuffer → IoBuffer
reset b = record b { len = 0; off = 0; off_mark = none }

pub data IoError : Type 0 where
  eof : IoError

-- The bytes that `Read` copies to its caller, and the error. `p` is the length of the caller's slice.
unfoldable pub read : IoBuffer → ℕ → IoBuffer × List ℕ × Option IoError
unfolding reset
read b p =
    if leb b.len b.off
    then (reset b, [], if p == 0 then none else some eof)
    else (record b { off = b.off + min p (b.len - b.off) }, take p (bytes b), none)

unfoldable pub try_grow_by_reslice : IoBuffer → ℕ → IoBuffer × ℕ × Bool
try_grow_by_reslice b n =
    if leb (b.len + n) (cap b) then (record b { len = b.len + n }, b.len, true) else (b, 0, false)

-- `if i, ok := b.tryGrowByReslice(n); ok { return i }`, and what is done otherwise.
abbrev pub resliced_or : IoBuffer × ℕ × Bool → IoBuffer × ℕ → IoBuffer × ℕ
resliced_or (c, i, fits) other = if fits then (c, i) else other

abbrev pub reset_if : Bool → IoBuffer → IoBuffer
reset_if test b = if test then reset b else b

-- `if b.off >= len(b.buf) { b.Reset() }`
unfoldable pub reset_if_empty : IoBuffer → IoBuffer
unfolding reset
reset_if_empty b = reset_if (leb b.len b.off) b

-- The part of `grow` below its attempt to reslice; `m` is b.Len().
unfoldable pub reallocate : IoBuffer → ℕ → ℕ → IoBuffer × ℕ
reallocate b m n =
    if b.is_nil && leb n 64
    then (record b { arr = make_slice 64; len = n; is_nil = false }, 0)
    else (if leb (m + n) (cap b / 2)
        then (record b { arr = copy_into b.arr 0 b.len (bytes b); len = m + n; off = 0 }, m)
        else (
          record b {
            arr = copy_at (make_slice (2 * cap b + n)) 0 (bytes b);
            len = m + n;
            off = 0;
            is_nil = false;
          },
          m,
        ))

unfoldable pub grow : IoBuffer → ℕ → IoBuffer × ℕ
grow b n =
    let m = buffered b in
    let b' = reset_if (m == 0 && not (b.off == 0)) b in
    resliced_or (try_grow_by_reslice b' n) (reallocate b' m n)

unfoldable pub write : IoBuffer → List ℕ → IoBuffer × ℕ
write b p =
    let (d, m) = resliced_or (try_grow_by_reslice b (length p)) (grow b (length p)) in
    (record d { arr = copy_into d.arr m d.len p }, min (d.len - m) (length p))

-- The step that `Append`, `ReadFrom` and `ReadOnce` share: room for `need` bytes behind the contents.
unfoldable pub make_room : IoBuffer → ℕ → IoBuffer
make_room b need =
    let free = cap b - b.len in
    let fresh = ltb (b.off + free) need in
    let target = if fresh then make_slice (2 * cap b + need) else b.arr in
    if ltb free need
    then record b {
      arr = copy_at target 0 (bytes b);
      len = b.len - b.off;
      off = 0;
      is_nil = not fresh && b.is_nil;
    }
    else b

unfoldable pub append : IoBuffer → List ℕ → IoBuffer
unfolding reset_if_empty make_room
append b input =
    let c = make_room (reset_if_empty b) (length input) in
    record c { arr = copy_at c.arr c.len input; len = c.len + length input }

-- `AppendByte` appends a slice of one zero byte: the argument is not used.
unfoldable pub append_byte : IoBuffer → ℕ → IoBuffer
unfolding append
append_byte b input = append b (make_slice 1)

unfoldable pub peek : IoBuffer → ℕ → Option (List ℕ)
peek b n = if ltb (b.len - b.off) n then none else some (take n (bytes b))

unfoldable pub mark : IoBuffer → IoBuffer
mark b = record b { off_mark = some b.off }

abbrev restore_to : Option ℕ → IoBuffer → IoBuffer
restore_to none b = b
restore_to (some m) b = record b { off = m; off_mark = none }

unfoldable pub restore : IoBuffer → IoBuffer
restore b = restore_to b.off_mark b

-- The buffer that `Cut` returns is built with the mark 0 of a Go zero value.
unfoldable pub cut : IoBuffer → ℕ → IoBuffer × Option IoBuffer
cut b offset = if ltb b.len (b.off + offset) then (b, none) else (
  record b { off = b.off + offset; off_mark = none },
  some (record {
    arr = take offset (bytes b);
    len = offset;
    off = 0;
    off_mark = some 0;
    is_nil = false;
  }),
)

unfoldable pub drain : IoBuffer → ℕ → IoBuffer
drain b offset =
    if ltb b.len (b.off + offset) then b else record b { off = b.off + offset; off_mark = none }

-- The bytes copied are dropped: `Clone` returns a new buffer of that capacity.
unfoldable pub clone : IoBuffer → IoBuffer
unfolding new_io_buffer buffered
clone b = new_io_buffer (buffered b)

-- What holds of every buffer between two calls.
pub record Inv (b : IoBuffer) : Type 0 where
  pub within : b.len ≤ cap b
  pub behind : b.off ≤ b.len
  pub nil_empty : b.is_nil ≡ true → cap b ≡ 0
