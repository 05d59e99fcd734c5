-- ===== src/Buffer/Marks.antt =====
-- iobuffer.go: `Mark` and `Restore`, across reads and across an `Append` that moves the contents.
use Prim.Native.Nat.{min}
use psh_mosn.Base.{
  ℕ, ◌+◌, ◌-◌, ◌<◌, ◌≡◌, refl, ap, inl, inr, some, none, true, if◌then◌else◌, List, [], ◌∷◌, ◌++◌,
  arith, leb, leb→le, Bool-cases, length, take, drop,
}
use psh_mosn.Buffer.{IoBuffer, cap, bytes, bytes_or_panic, read, append, mark, restore, Inv}
use psh_mosn.Buffer.Writing.{length-bytes}
use psh_mosn.Buffer.Appending.{append_lem}

unfoldable pub reads_all : List ℕ → IoBuffer → IoBuffer
reads_all [] b = b
reads_all (n ∷ ns) b = reads_all ns (read b n).0

abbrev pub total : List ℕ → ℕ
total [] = 0
total (n ∷ ns) = n + total ns

read_nonempty :
    (b : IoBuffer) (n : ℕ)
    → b.off < b.len
    → (read b n).0 ≡ record b { off = b.off + min n (b.len - b.off) }
unfolding read
read_nonempty b n h = elim (Bool-cases (leb b.len b.off)) [
  | inl e ↦ absurd (omega (arith, leb→le _ _ e))
  | inr e ↦ rw e refl
]

-- Reads that do not empty the buffer move nothing but the offset.
reads_all_frame :
    (ns : List ℕ) (b : IoBuffer)
    → total ns < b.len - b.off
    → ((reads_all ns b).arr ≡ b.arr)
      × ((reads_all ns b).len ≡ b.len)
      × ((reads_all ns b).off_mark ≡ b.off_mark)
unfolding reads_all
reads_all_frame [] b h = (refl, refl, refl)
reads_all_frame (n ∷ ns) b h =
    rw (read_nonempty b n (omega arith), reads_all) (reads_all_frame ns _ (omega arith))

restore-some :
    (b : IoBuffer) (k : ℕ)
    → b.off_mark ≡ some k
    → bytes_or_panic (restore b) ≡ (if leb k b.len then some (drop k (take b.len b.arr)) else none)
unfolding restore bytes_or_panic
restore-some b k e = rw (e, restore) refl

-- After `Mark` and reads that do not empty the buffer, `Restore` brings back the contents of the
-- moment of the mark, and `Bytes` shows them without a panic.
pub restore-reads_all :
    (ns : List ℕ) (b : IoBuffer)
    → total ns < b.len - b.off
    → bytes_or_panic (restore (reads_all ns (mark b))) ≡ some (bytes b)
unfolding mark
restore-reads_all ns b h =
    let (a, l, m) = reads_all_frame ns (mark b) h in
    let inside : leb b.off b.len ≡ true = ground (arith, h) in
    rw (restore-some (reads_all ns (mark b)) b.off m, a, l, inside) refl

append_frame :
    (b : IoBuffer) (p : List ℕ)
    → b.off < b.len
    → cap b - b.len < length p
    → ((append b p).off ≡ 0) × ((append b p).off_mark ≡ b.off_mark)
unfolding append
append_frame b p h k = ground arith

-- The mark is an offset that `Append` does not move with the contents: when it has to make room, a
-- later `Restore` loses as many bytes of the contents as had been read before the mark. `Bytes` shows
-- the others, or panics where there are fewer in all.
pub restore-append_moved :
    (b : IoBuffer) (p : List ℕ)
    → Inv b
    → b.off < b.len
    → cap b - b.len < length p
    → bytes_or_panic (restore (append (mark b) p))
      ≡ (if leb b.off (length (bytes b ++ p)) then some (drop b.off (bytes b ++ p)) else none)
unfolding mark
restore-append_moved b p v h k =
    let (zero_off, m) = append_frame (mark b) p h k in
    let (same, valid) =
      append_lem (mark b) p
        (record { within = v.within; behind = v.behind; nil_empty = v.nil_empty }) in
    let c = append (mark b) p in
    let shown : take c.len c.arr ≡ bytes b ++ p = rw zero_off at same in
    let size : c.len ≡ length (bytes b ++ p) =
      let n : length (bytes c) ≡ c.len - c.off = length-bytes c valid in
      omega (arith, n, zero_off, ap (length {A = ℕ}) same) in
    rw (restore-some c b.off m, shown, size) refl
