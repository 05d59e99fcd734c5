-- ===== src/Buffer/Transfer/Laws.antt =====
-- iobuffer.go: the loops of `WriteTo`, `ReadFrom` and `ReadOnce` end, and what they move.
use psh_mosn.Base.{
  ℕ, zero, suc, ◌+◌, ◌-◌, ◌≤◌, ◌<◌, ◌≡◌, refl, sym, ap, ◌∙◌, inl, inr, ◌⊎◌, Bool, true, false, ◌||◌,
  List, [], ◌∷◌, ◌++◌, arith, ltb, ltb→lt, ◌==◌, Bool-cases, length, take, drop, drop-drop,
}
use mathlib.Core.List.{append_assoc, append-nil}
use psh_mosn.Buffer.{IoBuffer, bytes, buffered, Inv}
use psh_mosn.Buffer.Writing.{length-bytes}
use psh_mosn.Buffer.Transfer.{
  Writer, Status, Written, written, write_panicked, write_out_of_fuel, write_to_step, write_to_loop,
  write_to,
}

-- The io.Writer contract: it takes no more than it is given, and takes something or fails.
pub record IsWriter (w : Writer) : Type 0 where
  pub takes : (k : ℕ) (p : List ℕ) → (w k p).0 ≤ length p
  pub moves : (k : ℕ) (p : List ℕ) → (w k p).1 ≡ false → 0 < length p → 0 < (w k p).0

-- The first `j` bytes are sent, behind those that were sent before, the others are kept, and none is
-- left unless the writer failed.
abbrev pub Sent : IoBuffer → ℕ → List ℕ → Written → Type 0
Sent b start before write_out_of_fuel = ⊥
Sent b start before write_panicked = ⊥
Sent b start before (written c n sent e) =
    (j : ℕ) × (n ≡ start + j)
    × (j ≤ length (bytes b))
    × (sent ≡ before ++ take j (bytes b))
    × (bytes c ≡ drop j (bytes b))
    × Inv c
    × ((e ≡ Status.failed) ⊎ (length (bytes c) ≡ 0))

abbrev advanced : IoBuffer → ℕ → IoBuffer
advanced b m = record b { off = b.off + m }

-- What is sent in two parts.
take_parts :
    (m j : ℕ) (xs before : List ℕ)
    → (before ++ take m xs) ++ take j (drop m xs) ≡ before ++ take (m + j) xs
take_parts m j xs before =
    append_assoc before (take m xs) (take j (drop m xs))
    ∙ ap (λ q. before ++ q) (take_add m j (m + j) xs refl)
  where
    take_add : (m j k : ℕ) (xs : List ℕ) → m + j ≡ k → take m xs ++ take j (drop m xs) ≡ take k xs
    take_add zero j k xs e = ap (λ i. take i xs) (omega (arith, e))
    take_add (suc m) j zero xs e = absurd (omega (arith, e))
    take_add (suc m) zero (suc k) [] e = refl
    take_add (suc m) (suc j) (suc k) [] e = refl
    take_add (suc m) j (suc k) (x ∷ xs) e = ap (λ q. x ∷ q) (take_add m j k xs (omega (arith, e)))

module _ (b : IoBuffer) (n m : ℕ) (before : List ℕ) (v : Inv b) (h : m ≤ b.len - b.off) where
  advanced-Inv : Inv (advanced b m)
  advanced-Inv = record { within = v.within; behind = omega (arith, v); nil_empty = v.nil_empty }

  bytes-advanced : bytes (advanced b m) ≡ drop m (bytes b)
  bytes-advanced = sym (drop-drop b.off m (b.off + m) (take b.len b.arr) refl)

  abbrev so_far : List ℕ
  so_far = before ++ take m (bytes b)

  Sent-later : (o : Written) → Sent (advanced b m) (n + m) so_far o → Sent b n before o
  Sent-later (written c n' sent e) (j, count, most, taken, same, valid, why) = (
    m + j,
    omega arith,
    omega (arith, length-bytes b v, length-bytes (advanced b m) advanced-Inv),
    taken ∙ ap (λ q. so_far ++ take j q) bytes-advanced ∙ take_parts m j (bytes b) before,
    same ∙ ap (drop j) bytes-advanced ∙ drop-drop m j (m + j) (bytes b) refl,
    valid,
    why,
  )
  Sent-later write_panicked s = s
  Sent-later write_out_of_fuel s = s

  Sent-now :
      (e : Status)
      → (e ≡ Status.failed) ⊎ (length (bytes (advanced b m)) ≡ 0)
      → Sent b n before (written (advanced b m) (n + m) so_far e)
  Sent-now e why =
      (m, refl, omega (arith, length-bytes b v), refl, bytes-advanced, advanced-Inv, why)

  Sent-step :
      (e : Bool) (again : IoBuffer → ℕ → List ℕ → Written)
      → (e ≡ false → 0 < m)
      → (e ≡ false → Sent (advanced b m) (n + m) so_far (again (advanced b m) (n + m) so_far))
      → Sent b n before (write_to_step b n so_far m e again)
  unfolding write_to_step
  Sent-step true again pos ih = elim (Bool-cases (ltb (b.len - b.off) m)) [
    | inl over ↦ absurd (omega (arith, ltb→lt _ _ over))
    | inr fits ↦ rw fits (Sent-now Status.failed (inl refl))
  ]
  Sent-step false again pos ih = elim (Bool-cases (ltb (b.len - b.off) m)) [
    | inl over ↦ absurd (omega (arith, ltb→lt _ _ over))
    | inr fits ↦ rw fits (elim (Bool-cases (m == 0 || m == b.len - b.off)) [
      | inl done ↦ rw done (
          Sent-now Status.fine
            (inr (ground (arith, pos refl, length-bytes (advanced b m) advanced-Inv))))
      | inr more ↦ rw more (Sent-later _ (ih refl))
    ])
  ]

write_to_loop-Sent :
    (fuel : ℕ) (w : Writer) (k : ℕ) (b : IoBuffer) (n : ℕ) (sent : List ℕ)
    → IsWriter w
    → Inv b
    → b.len - b.off < fuel
    → Sent b n sent (write_to_loop fuel w k b n sent)
unfolding write_to_loop
write_to_loop-Sent zero w k b n sent c v h = absurd (omega arith)
write_to_loop-Sent (suc fuel) w k b n sent c v h = elim (Bool-cases (ltb b.off b.len)) [
  | inr e ↦ rw e (
    0,
    omega arith,
    omega arith,
    sym (append-nil sent),
    refl,
    v,
    inr (ground (arith, length-bytes b v)),
  )
  | inl e ↦
      let m = (w k (bytes b)).0 in
      let most : m ≤ b.len - b.off = omega (arith, c.takes k (bytes b), length-bytes b v) in
      let pos : (w k (bytes b)).1 ≡ false → 0 < m =
        λ ok. c.moves k (bytes b) ok (omega (arith, length-bytes b v, ltb→lt _ _ e)) in
      rw e (
        Sent-step b n m sent v most (w k (bytes b)).1 (write_to_loop fuel w (suc k)) pos (λ ok.
          write_to_loop-Sent fuel w (suc k) (advanced b m) (n + m) (sent ++ take m (bytes b)) c
            (advanced-Inv b n m sent v most) (omega (arith, pos ok, ltb→lt _ _ e))))
]

-- With a writer that keeps the io.Writer contract, `WriteTo` neither panics nor runs for more rounds
-- than there are bytes, sends a prefix of the contents in order and counts it, keeps the rest, and
-- leaves nothing unless the writer failed.
pub write_to-Sent :
    (w : Writer) (b : IoBuffer) → IsWriter w → Inv b → Sent b 0 [] (write_to (suc (buffered b)) w b)
unfolding write_to buffered
write_to-Sent w b c v = write_to_loop-Sent (suc (b.len - b.off)) w 0 b 0 [] c v (omega arith)
