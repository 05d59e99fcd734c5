-- ===== src/Base/Copy.antt =====
-- Go's built-in `copy` on an array of bytes, and what a prefix of the array holds afterwards.
use Prim.Native.Nat.{ℕ, zero, suc, ◌+◌, ◌≤◌}
use mathlib.Core.Path.{◌≡◌, refl, ap}
use mathlib.Core.List.{List, [], ◌∷◌, ◌++◌}
use native.Mathlib.Omega.{arith}
use psh_mosn.Base.Lists.{length, take, drop}

module _ {ℓ} {A : Type ℓ} where
  -- Overwrites from position i on, as far as the array reaches.
  unfoldable pub copy_at : List A → ℕ → List A → List A
  copy_at [] i src = []
  copy_at (x ∷ xs) (suc i) src = x ∷ copy_at xs i src
  copy_at (x ∷ xs) zero [] = x ∷ xs
  copy_at (x ∷ xs) zero (s ∷ ss) = s ∷ copy_at xs zero ss

  pub length-copy_at : (xs : List A) (i : ℕ) (src : List A) → length (copy_at xs i src) ≡ length xs
  unfolding copy_at
  length-copy_at [] i src = refl
  length-copy_at (x ∷ xs) (suc i) src = ap suc (length-copy_at xs i src)
  length-copy_at (x ∷ xs) zero [] = refl
  length-copy_at (x ∷ xs) zero (s ∷ ss) = ap suc (length-copy_at xs zero ss)

  -- A prefix that ends where the copy ends.
  pub take-copy_at :
      (xs : List A) (i : ℕ) (src : List A) (k : ℕ)
      → k ≡ i + length src
      → k ≤ length xs
      → take k (copy_at xs i src) ≡ take i xs ++ src
  unfolding copy_at
  take-copy_at xs zero [] zero e h = refl
  take-copy_at xs zero [] (suc k) e h = absurd (omega arith)
  take-copy_at [] zero (s ∷ ss) zero e h = absurd (omega arith)
  take-copy_at [] zero (s ∷ ss) (suc k) e h = absurd (omega arith)
  take-copy_at (x ∷ xs) zero (s ∷ ss) zero e h = absurd (omega arith)
  take-copy_at (x ∷ xs) zero (s ∷ ss) (suc k) e h =
      ap (◌∷◌ s) (take-copy_at xs zero ss k (omega arith) (omega arith))
  take-copy_at xs (suc i) src zero e h = absurd (omega arith)
  take-copy_at [] (suc i) src (suc k) e h = absurd (omega arith)
  take-copy_at (x ∷ xs) (suc i) src (suc k) e h =
      ap (◌∷◌ x) (take-copy_at xs i src k (omega arith) (omega arith))

  pub take_all : (k : ℕ) (xs : List A) → length xs ≤ k → take k xs ≡ xs
  take_all zero [] h = refl
  take_all zero (x ∷ xs) h = absurd (omega arith)
  take_all (suc k) [] h = refl
  take_all (suc k) (x ∷ xs) h = ap (◌∷◌ x) (take_all k xs (omega arith))

  pub take_prefix : (xs ys : List A) (k : ℕ) → k ≡ length xs → take k (xs ++ ys) ≡ xs
  take_prefix [] ys zero e = refl
  take_prefix [] ys (suc k) e = absurd (omega arith)
  take_prefix (x ∷ xs) ys zero e = absurd (omega arith)
  take_prefix (x ∷ xs) ys (suc k) e = ap (◌∷◌ x) (take_prefix xs ys k (omega arith))

  pub drop_prefix : (xs ys : List A) (k : ℕ) → k ≡ length xs → drop k (xs ++ ys) ≡ ys
  drop_prefix [] ys zero e = refl
  drop_prefix [] ys (suc k) e = absurd (omega arith)
  drop_prefix (x ∷ xs) ys zero e = absurd (omega arith)
  drop_prefix (x ∷ xs) ys (suc k) e = drop_prefix xs ys k (omega arith)

  pub drop-append : (k : ℕ) (xs ys : List A) → k ≤ length xs → drop k (xs ++ ys) ≡ drop k xs ++ ys
  drop-append zero xs ys h = refl
  drop-append (suc k) [] ys h = absurd (omega arith)
  drop-append (suc k) (x ∷ xs) ys h = drop-append k xs ys (omega arith)

  pub take-append : (k : ℕ) (xs ys : List A) → k ≤ length xs → take k (xs ++ ys) ≡ take k xs
  take-append zero xs ys h = refl
  take-append (suc k) [] ys h = absurd (omega arith)
  take-append (suc k) (x ∷ xs) ys h = ap (◌∷◌ x) (take-append k xs ys (omega arith))

  pub drop_nil : (k : ℕ) → drop {A = A} k [] ≡ []
  drop_nil zero = refl
  drop_nil (suc k) = refl

  pub drop-drop : (i j k : ℕ) (xs : List A) → k ≡ i + j → drop j (drop i xs) ≡ drop k xs
  drop-drop zero j k xs e = ap (λ (n : ℕ). drop n xs) {x = j} {y = k} (omega arith)
  drop-drop (suc i) j k [] e = rw (drop_nil j, drop_nil k)
  drop-drop (suc i) j zero (x ∷ xs) e = absurd (omega arith)
  drop-drop (suc i) j (suc k) (x ∷ xs) e = drop-drop i j k xs (omega arith)

  pub drop_all : (k : ℕ) (xs : List A) → length xs ≤ k → drop k xs ≡ []
  drop_all zero [] h = refl
  drop_all zero (x ∷ xs) h = absurd (omega arith)
  drop_all (suc k) [] h = refl
  drop_all (suc k) (x ∷ xs) h = drop_all k xs (omega arith)
