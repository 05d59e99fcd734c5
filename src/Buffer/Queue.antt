-- ===== src/Buffer/Queue.antt =====
-- iobuffer.go: the buffer as a queue of bytes. The array, its capacity, the offsets and the moves
-- between them do not show in what the calls return.
use Prim.Native.Nat.{min}
use psh_mosn.Base.{
  ℕ, ◌+◌, ◌-◌, ◌≡◌, refl, sym, ap, ◌∙◌, inl, inr, Option, none, some, List, [], ◌∷◌, ◌++◌, arith,
  ltb, leb, leb→le, ◌==◌, if◌then◌else◌, Bool-cases, length, take, drop, drop-drop, drop_all,
  take_all, length-take,
}
use psh_mosn.Buffer.{
  IoBuffer, IoError, eof, bytes, reset, read, write, append, peek, cut, drain, Inv,
}
use psh_mosn.Buffer.Writing.{length-bytes, write_lem}
use psh_mosn.Buffer.Appending.{append_lem}

pub data Op : Type 0 where
  writes appends : List ℕ → Op
  reads peeks cuts drains : ℕ → Op
  resets : Op

pub data Out : Type 0 where
  quiet : Out
  wrote : ℕ → Out
  took : List ℕ → Option IoError → Out
  showed : Option (List ℕ) → Out

abbrev cut_bytes : Option IoBuffer → Option (List ℕ)
cut_bytes none = none
cut_bytes (some c) = some (bytes c)

unfoldable pub run_op : Op → IoBuffer → IoBuffer × Out
run_op (writes p) b = let (b', n) = write b p in (b', wrote n)
run_op (appends p) b = (append b p, quiet)
run_op (reads n) b = let (b', p, e) = read b n in (b', took p e)
run_op (peeks n) b = (b, showed (peek b n))
run_op (cuts n) b = let (b', c) = cut b n in (b', showed (cut_bytes c))
run_op (drains n) b = (drain b n, quiet)
run_op resets b = (reset b, quiet)

-- The same calls on a plain queue.
unfoldable pub queue_op : Op → List ℕ → List ℕ × Out
queue_op (writes p) q = (q ++ p, wrote (length p))
queue_op (appends p) q = (q ++ p, quiet)
queue_op (reads n) q =
    if length q == 0
    then ([], took [] (if n == 0 then none else some eof))
    else (drop n q, took (take n q) none)
queue_op (peeks n) q = (q, showed (if ltb (length q) n then none else some (take n q)))
queue_op (cuts n) q =
    if ltb (length q) n then (q, showed none) else (drop n q, showed (some (take n q)))
queue_op (drains n) q = (if ltb (length q) n then q else drop n q, quiet)
queue_op resets q = ([], quiet)

-- One call of the buffer against the same call of the queue.
record Agrees (b : IoBuffer) (o : Op) : Type 0 where
  pub view : (bytes (run_op o b).0, (run_op o b).1) ≡ queue_op o (bytes b)
  pub valid : Inv (run_op o b).0

empty_length : (b : IoBuffer) → Inv b → (length (bytes b) == 0) ≡ leb b.len b.off
empty_length b v = ground (arith, length-bytes b v)

bytes-advance : (b : IoBuffer) (j : ℕ) → bytes (record b { off = b.off + j }) ≡ drop j (bytes b)
bytes-advance b j = sym (drop-drop b.off j (b.off + j) (take b.len b.arr) refl)

drop-min : (n k : ℕ) (xs : List ℕ) → k ≡ length xs → drop (min n k) xs ≡ drop n xs
drop-min n k xs e = elim (Bool-cases (leb n k)) [
  | inl h ↦ ap (λ (j : ℕ). drop j xs) {x = min n k} {y = n} (omega (arith, leb→le n k h))
  | inr h ↦ drop_all (min n k) xs (ground arith) ∙ sym (drop_all n xs (ground arith))
]

Agrees-reads : (b : IoBuffer) (n : ℕ) → Inv b → Agrees b (reads n)
unfolding run_op queue_op read reset
Agrees-reads b n v = elim (Bool-cases (leb b.len b.off)) [
  | inl e ↦ record {
    view = rw (empty_length b v, e) refl;
    valid = rw e (record { within = omega arith; behind = omega arith; nil_empty = v.nil_empty });
  }
  | inr e ↦ record {
    view =
        rw (empty_length b v, e)
          (ap (λ (q : List ℕ). (q, took (take n (bytes b)) none))
            (bytes-advance b (min n (b.len - b.off))
              ∙ drop-min n (b.len - b.off) (bytes b) (sym (length-bytes b v))));
    valid =
        rw e (record { within = v.within; behind = ground (arith, v); nil_empty = v.nil_empty });
  }
]

-- The test of `Cut` and `Drain`, on the queue.
beyond : (b : IoBuffer) (n : ℕ) → Inv b → ltb (length (bytes b)) n ≡ ltb b.len (b.off + n)
beyond b n v = ground (arith, length-bytes b v)

Agrees-cuts : (b : IoBuffer) (n : ℕ) → Inv b → Agrees b (cuts n)
unfolding run_op queue_op cut
Agrees-cuts b n v = elim (Bool-cases (ltb b.len (b.off + n))) [
  | inl e ↦ record { view = rw (beyond b n v, e) refl; valid = rw e v }
  | inr e ↦ record {
    view =
        rw (beyond b n v, e)
          (λ i. (
            bytes-advance b n i,
            showed
                (some (take_all n (take n (bytes b)) (omega (arith, length-take n (bytes b))) i)),
          ));
    valid =
        rw e (record { within = v.within; behind = ground (arith, v); nil_empty = v.nil_empty });
  }
]

Agrees-drains : (b : IoBuffer) (n : ℕ) → Inv b → Agrees b (drains n)
unfolding run_op queue_op drain
Agrees-drains b n v = elim (Bool-cases (ltb b.len (b.off + n))) [
  | inl e ↦ record { view = rw (beyond b n v, e) refl; valid = rw e v }
  | inr e ↦ record {
    view = rw (beyond b n v, e) (ap (λ (q : List ℕ). (q, quiet)) (bytes-advance b n));
    valid =
        rw e (record { within = v.within; behind = ground (arith, v); nil_empty = v.nil_empty });
  }
]

op-Agrees : (b : IoBuffer) (o : Op) → Inv b → Agrees b o
unfolding run_op queue_op peek reset
op-Agrees b (writes p) v =
    let (same, count, valid) = write_lem b p v in
    record { view = λ i. (same i, wrote (count i)); valid = valid }
op-Agrees b (appends p) v =
    let (same, valid) = append_lem b p v in record { view = λ i. (same i, quiet); valid = valid }
op-Agrees b (reads n) v = Agrees-reads b n v
op-Agrees b (peeks n) v = record { view = rw (length-bytes b v) refl; valid = v }
op-Agrees b (cuts n) v = Agrees-cuts b n v
op-Agrees b (drains n) v = Agrees-drains b n v
op-Agrees b resets v = record {
  view = refl;
  valid = record { within = omega arith; behind = omega arith; nil_empty = v.nil_empty };
}

unfoldable pub run_ops : List Op → IoBuffer → IoBuffer × List Out
run_ops [] b = (b, [])
run_ops (o ∷ os) b = let (b', r) = run_op o b in let (c, rs) = run_ops os b' in (c, r ∷ rs)

unfoldable pub queue_ops : List Op → List ℕ → List ℕ × List Out
queue_ops [] q = (q, [])
queue_ops (o ∷ os) q = let (q', r) = queue_op o q in let (u, rs) = queue_ops os q' in (u, r ∷ rs)

-- On a well-formed buffer any sequence of calls of Write, Append, Read, Peek, Cut, Drain and Reset
-- returns what the same calls return on a queue of bytes that starts with the buffer's contents,
-- leaves the contents that the queue holds, and leaves the buffer well formed.
pub run_ops-refines :
    (os : List Op) (b : IoBuffer)
    → Inv b
    → ((bytes (run_ops os b).0, (run_ops os b).1) ≡ queue_ops os (bytes b)) × Inv (run_ops os b).0
unfolding run_ops queue_ops
run_ops-refines [] b v = (refl, v)
run_ops-refines (o ∷ os) b v =
    let a = op-Agrees b o v in
    let (same, valid) = run_ops-refines os (run_op o b).0 a.valid in
    (rw (← a.view) (λ i. ((same i).0, (run_op o b).1 ∷ (same i).1)), valid)
