-- ===== src/Buffer/Appending.antt =====
-- iobuffer.go: what `Append` does to the contents, wherever the bytes lie.
use psh_mosn.Base.{
  ℕ, zero, ◌+◌, ◌-◌, ◌*◌, ◌≤◌, ◌≡◌, refl, ap, ◌∙◌, inl, inr, Bool, true, false, List, ◌++◌, arith,
  ltb, leb, leb→le, Bool-cases, length, take, copy_at, length-copy_at, take-copy_at, drop-append,
  length-take, length-replicate,
}
use psh_mosn.Buffer.{IoBuffer, cap, bytes, make_slice, reset_if_empty, make_room, append, Inv}
use psh_mosn.Buffer.Writing.{length-bytes, front, bytes-reset_if, reset_if-Inv}

-- After `make_room` the same contents have `n` free places behind them.
pub record HasRoom (b : IoBuffer) (n : ℕ) (c : IoBuffer) : Type 0 where
  pub same : bytes c ≡ bytes b
  pub valid : Inv c
  pub room : c.len + n ≤ cap c

module _ (b : IoBuffer) (n : ℕ) (v : Inv b) where
  pub HasRoom-moved :
      (target : List ℕ) (nil : Bool)
      → b.len - b.off + n ≤ length target
      → (nil ≡ true → length target ≡ 0)
      → HasRoom b n (record b {
        arr = copy_at target 0 (bytes b);
        len = b.len - b.off;
        off = 0;
        is_nil = nil;
      })
  HasRoom-moved target nil h k = record {
    same = front target (bytes b) (b.len - b.off) (omega (arith, length-bytes b v)) (omega arith);
    valid = record {
      within = omega (arith, length-copy_at target 0 (bytes b));
      behind = omega arith;
      nil_empty = λ e. omega (arith, k e, length-copy_at target 0 (bytes b));
    };
    room = omega (arith, length-copy_at target 0 (bytes b));
  }

  pub HasRoom-make_room : HasRoom b n (make_room b n)
  unfolding make_room
  HasRoom-make_room = elim (Bool-cases (ltb (cap b - b.len) n)) [
    | inr roomy ↦ rw roomy (record { same = refl; valid = v; room = ground (arith, v) })
    | inl tight ↦ rw tight (elim (Bool-cases (ltb (b.off + (cap b - b.len)) n)) [
      | inl fresh ↦ rw fresh (
          HasRoom-moved (make_slice (2 * cap b + n)) false
            (omega (arith, v, length-replicate (2 * cap b + n) (zero))) (λ e. cc))
      | inr slide ↦ rw slide (HasRoom-moved b.arr b.is_nil (ground (arith, v)) v.nil_empty)
    ])
  ]

-- Bytes written into free places behind the contents.
module _ (c : IoBuffer) (p : List ℕ) (v : Inv c) (room : c.len + length p ≤ cap c) where
  pub bytes-extended :
      bytes (record c { arr = copy_at c.arr c.len p; len = c.len + length p }) ≡ bytes c ++ p
  bytes-extended =
      rw
        (
          take-copy_at c.arr c.len p (c.len + length p) refl room,
          drop-append c.off (take c.len c.arr) p (omega (arith, length-take c.len c.arr, v)),
        )
        refl

  pub extended-Inv : Inv (record c { arr = copy_at c.arr c.len p; len = c.len + length p })
  extended-Inv = record {
    within = omega (arith, length-copy_at c.arr c.len p, room);
    behind = omega (arith, v);
    nil_empty = λ e. omega (arith, length-copy_at c.arr c.len p, v.nil_empty e);
  }

-- A buffer that is read to its end starts again, with the same (no) contents.
module _ (b : IoBuffer) (v : Inv b) where
  pub bytes-reset_if_empty : bytes (reset_if_empty b) ≡ bytes b
  unfolding reset_if_empty
  bytes-reset_if_empty =
      bytes-reset_if (leb b.len b.off) b v (λ e. omega (arith, leb→le b.len b.off e))

  pub reset_if_empty-Inv : Inv (reset_if_empty b)
  unfolding reset_if_empty
  reset_if_empty-Inv = reset_if-Inv (leb b.len b.off) b v

-- `Append` too puts its bytes behind the contents and keeps the buffer well formed.
pub append_lem :
    (b : IoBuffer) (p : List ℕ) → Inv b → (bytes (append b p) ≡ bytes b ++ p) × Inv (append b p)
unfolding append
append_lem b p v =
    let h = HasRoom-make_room (reset_if_empty b) (length p) (reset_if_empty-Inv b v) in
    (
      bytes-extended _ p h.valid h.room ∙ ap (λ q. q ++ p) (h.same ∙ bytes-reset_if_empty b v),
      extended-Inv _ p h.valid h.room,
    )
