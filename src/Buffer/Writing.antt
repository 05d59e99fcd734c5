-- ===== src/Buffer/Writing.antt =====
-- iobuffer.go: what `Write`, with `grow`, does to the contents, wherever the bytes lie.
use psh_mosn.Base.{
  ℕ, zero, ◌+◌, ◌-◌, ◌*◌, ◌/◌, ◌≤◌, ◌≡◌, refl, sym, ◌∙◌, inl, inr, Bool, true, false, List, [],
  ◌++◌, arith, leb, leb→le, Bool-cases, length, take, drop, copy_at, length-copy_at, take-copy_at,
  take_all, drop-append, length-take, length-drop, length-replicate, drop_all, drop_nil, ◌&&◌, ◌==◌,
  not,
}
use psh_mosn.Buffer.{
  IoBuffer, cap, bytes, make_slice, copy_into, buffered, reset, try_grow_by_reslice, reallocate,
  grow, write, Inv, resliced_or, reset_if, new_io_buffer_bytes,
}

pub length-bytes : (b : IoBuffer) → Inv b → length (bytes b) ≡ b.len - b.off
length-bytes b v = omega (arith, length-drop b.off (take b.len b.arr), length-take b.len b.arr, v)

pub new_io_buffer_bytes-Inv : (bs : List ℕ) → Inv (new_io_buffer_bytes bs)
unfolding new_io_buffer_bytes
new_io_buffer_bytes-Inv bs = record {
  within = omega arith;
  behind = omega arith;
  nil_empty = λ e. ground arith;
}

pub bytes-new_io_buffer_bytes : (bs : List ℕ) → bytes (new_io_buffer_bytes bs) ≡ bs
unfolding new_io_buffer_bytes
bytes-new_io_buffer_bytes bs = take_all (length bs) bs (omega arith)

-- `n` bytes can be written from position `m` of `d` on, behind the contents of `b`.
record Reserved (b : IoBuffer) (n : ℕ) (d : IoBuffer) (m : ℕ) : Type 0 where
  ends : d.len ≡ m + n
  fits : d.len ≤ cap d
  starts : d.off ≤ m
  keeps : drop d.off (take m d.arr) ≡ bytes b
  nil : d.is_nil ≡ true → cap d ≡ 0

Reserved-reslice :
    (b : IoBuffer) (n : ℕ)
    → Inv b
    → b.len + n ≤ cap b
    → Reserved b n (record b { len = b.len + n }) b.len
Reserved-reslice b n v h = record {
  ends = refl;
  fits = h;
  starts = v.behind;
  keeps = refl;
  nil = v.nil_empty;
}

empty_bytes : (b : IoBuffer) → Inv b → b.len - b.off ≡ 0 → bytes b ≡ []
empty_bytes b v e = drop_all b.off _ (omega (arith, length-take b.len b.arr))

-- The contents, copied to the front of an array that is long enough.
pub front : (arr c : List ℕ) (m : ℕ) → m ≡ length c → m ≤ length arr → take m (copy_at arr 0 c) ≡ c
front arr c m e h = take-copy_at arr 0 c m (omega arith) h

Reserved-bootstrap :
    (b : IoBuffer) (n : ℕ)
    → Inv b
    → b.is_nil ≡ true
    → n ≤ 64
    → Reserved b n (record b { arr = make_slice 64; len = n; is_nil = false }) 0
Reserved-bootstrap b n v e h = record {
  ends = omega arith;
  fits = h;
  starts = omega (arith, v.nil_empty e);
  keeps = rw (drop_nil b.off) (sym (empty_bytes b v (omega (arith, v.nil_empty e))));
  nil = λ e'. cc;
}

Reserved-slide :
    (b : IoBuffer) (m n : ℕ)
    → Inv b
    → m ≡ buffered b
    → m + n ≤ cap b / 2
    → Reserved b n (record b { arr = copy_into b.arr 0 b.len (bytes b); len = m + n; off = 0 }) m
unfolding buffered
Reserved-slide b m n v e h = record {
  ends = refl;
  fits = omega (arith, length-copy_at b.arr 0 (take (b.len - 0) (bytes b)));
  starts = omega arith;
  keeps =
      rw (take_all (b.len - 0) (bytes b) (omega (arith, length-bytes b v)))
        (front b.arr (bytes b) m (omega (arith, length-bytes b v)) (omega arith));
  nil = λ e'. omega (arith, v.nil_empty e', length-copy_at b.arr 0 (take (b.len - 0) (bytes b)));
}

Reserved-fresh :
    (b : IoBuffer) (m n : ℕ)
    → Inv b
    → m ≡ buffered b
    → Reserved b n
        (record b {
          arr = copy_at (make_slice (2 * cap b + n)) 0 (bytes b);
          len = m + n;
          off = 0;
          is_nil = false;
        })
        m
unfolding buffered
Reserved-fresh b m n v e = record {
  ends = refl;
  fits = omega (arith, size, v);
  starts = omega arith;
  keeps =
      front (make_slice (2 * cap b + n)) (bytes b) m (omega (arith, length-bytes b v))
        (omega (arith, length-replicate (2 * cap b + n) (zero), v));
  nil = λ e'. cc;
}
  where
    size : length (copy_at (make_slice (2 * cap b + n)) 0 (bytes b)) ≡ 2 * cap b + n
    size = length-copy_at (make_slice (2 * cap b + n)) 0 (bytes b) ∙ length-replicate _ _

Reserved-reallocate :
    (b : IoBuffer) (m n : ℕ)
    → Inv b
    → m ≡ buffered b
    → Reserved b n (reallocate b m n).0 (reallocate b m n).1
unfolding reallocate
Reserved-reallocate b m n v e = elim (Bool-cases (b.is_nil && leb n 64)) [
  | inl boot ↦ rw boot (Reserved-bootstrap b n v (ground arith) (ground arith))
  | inr large ↦ rw large (elim (Bool-cases (leb (m + n) (cap b / 2))) [
    | inl room ↦ rw room (Reserved-slide b m n v e (leb→le _ _ room))
    | inr full ↦ rw full (Reserved-fresh b m n v e)
  ])
]

reset-Inv : (b : IoBuffer) → Inv b → Inv (reset b)
unfolding reset
reset-Inv b v = record { within = omega arith; behind = omega arith; nil_empty = v.nil_empty }

pub reset_if-Inv : (t : Bool) (b : IoBuffer) → Inv b → Inv (reset_if t b)
reset_if-Inv true b v = reset-Inv b v
reset_if-Inv false b v = v

pub bytes-reset_if :
    (t : Bool) (b : IoBuffer)
    → Inv b
    → (t ≡ true → b.len - b.off ≡ 0)
    → bytes (reset_if t b) ≡ bytes b
unfolding reset
bytes-reset_if true b v h = sym (empty_bytes b v (h refl))
bytes-reset_if false b v h = refl

buffered-reset_if :
    (t : Bool) (b : IoBuffer)
    → (t ≡ true → b.len - b.off ≡ 0)
    → buffered b ≡ buffered (reset_if t b)
unfolding reset buffered
buffered-reset_if true b h = h refl
buffered-reset_if false b h = refl

cap-reset_if : (t : Bool) (b : IoBuffer) → cap (reset_if t b) ≡ cap b
unfolding reset
cap-reset_if true b = refl
cap-reset_if false b = refl

retarget :
    (b c : IoBuffer) (n : ℕ) (d : IoBuffer) (m : ℕ)
    → bytes c ≡ bytes b
    → Reserved c n d m
    → Reserved b n d m
retarget b c n d m e r = record {
  ends = r.ends;
  fits = r.fits;
  starts = r.starts;
  keeps = r.keeps ∙ e;
  nil = r.nil;
}

Reserved-resliced_or :
    (b : IoBuffer) (n : ℕ) (other : IoBuffer × ℕ)
    → Inv b
    → Reserved b n other.0 other.1
    → let r = resliced_or (try_grow_by_reslice b n) other in Reserved b n r.0 r.1
unfolding try_grow_by_reslice
Reserved-resliced_or b n other v r = elim (Bool-cases (leb (b.len + n) (cap b))) [
  | inl room ↦ rw room (Reserved-reslice b n v (leb→le _ _ room))
  | inr full ↦ rw full r
]

is_drained : IoBuffer → Bool
unfolding buffered
is_drained b = buffered b == 0 && not (b.off == 0)

is_drained_empty : (b : IoBuffer) → is_drained b ≡ true → b.len - b.off ≡ 0
unfolding is_drained
is_drained_empty b h = ground arith

Reserved-grow : (b : IoBuffer) (n : ℕ) → Inv b → Reserved b n (grow b n).0 (grow b n).1
unfolding grow is_drained
Reserved-grow b n v =
    let t = is_drained b in
    let c = reset_if t b in
    retarget b c n _ _ (bytes-reset_if t b v (is_drained_empty b)) (
      Reserved-resliced_or c n (reallocate c (buffered b) n) (reset_if-Inv t b v) (
        Reserved-reallocate c (buffered b) n (reset_if-Inv t b v)
          (buffered-reset_if t b (is_drained_empty b))))

-- Bytes copied behind a reserved place.
module _ (b d : IoBuffer) (m : ℕ) (p : List ℕ) (r : Reserved b (length p) d m) where
  placed : List ℕ
  placed = copy_into d.arr m d.len p

  bytes-placed : drop d.off (take d.len placed) ≡ bytes b ++ p
  unfolding placed
  bytes-placed = rw (
    take_all (d.len - m) p (omega (arith, r.ends)),
    take-copy_at d.arr m p d.len r.ends r.fits,
    drop-append d.off (take m d.arr) p (omega (arith, length-take m d.arr, r)),
    r.keeps,
  )

  length-placed : length placed ≡ cap d
  unfolding placed
  length-placed = length-copy_at d.arr m _

-- The bytes of `p` follow the contents, all of them are counted, and the buffer stays well formed,
-- whether the slice is extended, moved to the front or allocated anew.
pub write_lem :
    (b : IoBuffer) (p : List ℕ)
    → Inv b
    → (bytes (write b p).0 ≡ bytes b ++ p) × ((write b p).1 ≡ length p) × Inv (write b p).0
unfolding write placed
write_lem b p v = (
  bytes-placed b d.0 d.1 p r,
  omega (arith, r.ends),
  record {
    within = omega (arith, r.fits, length-placed b d.0 d.1 p r);
    behind = omega (arith, r);
    nil_empty = λ e. omega (arith, r.nil e, length-placed b d.0 d.1 p r);
  },
)
  where
    d : IoBuffer × ℕ
    d = resliced_or (try_grow_by_reslice b (length p)) (grow b (length p))

    r : Reserved b (length p) d.0 d.1
    r = Reserved-resliced_or b (length p) (grow b (length p)) v (Reserved-grow b (length p) v)
