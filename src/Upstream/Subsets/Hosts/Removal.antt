-- ===== src/Upstream/Subsets/Hosts/Removal.antt =====
-- subsetlbimpl.go: taking a host out of a list while the loop ranges over it.
use mathlib.Core.List.{append_assoc, append-nil}
use psh_mosn.Base.{
  ℕ, zero, suc, ◌+◌, ◌-◌, ◌≡◌, refl, sym, ap, ◌∙◌, inl, inr, true, false, ◌||◌, Bool-cases, none,
  some, List, [], ◌∷◌, ◌++◌, leb, length, length-append, get_elem?, take, drop, take_prefix,
  drop_prefix, arith, by_true, by_false,
}
use psh_mosn.Upstream.{Host}
use psh_mosn.Upstream.Cluster.{move_over}
use psh_mosn.Upstream.Cluster.Matching.{same_address, listed, without, Distinct, listed_same}
use psh_mosn.Upstream.Subsets.Hosts.{is_at, remove_loop}

listed-take :
    (r : ℕ) (hs : List Host) (h : Host) → listed hs h ≡ false → listed (take r hs) h ≡ false
listed-take zero hs h e = refl
listed-take (suc r) [] h e = refl
listed-take (suc r) (x ∷ hs) h e = ground (arith, listed-take r hs h)

listed-drop :
    (r : ℕ) (hs : List Host) (h : Host) → listed hs h ≡ false → listed (drop r hs) h ≡ false
listed-drop zero hs h e = e
listed-drop (suc r) [] h e = refl
listed-drop (suc r) (x ∷ hs) h e = ground (arith, listed-drop r hs h)

pub listed-append :
    (xs ys : List Host) (h : Host) → listed (xs ++ ys) h ≡ (listed xs h || listed ys h)
listed-append [] ys h = refl
listed-append (x ∷ xs) ys h = ground (arith, listed-append xs ys h)

get_elem?-drop : (hs : List Host) (i : ℕ) → get_elem? hs i ≡ get_elem? (drop i hs) 0
get_elem?-drop [] zero = refl
get_elem?-drop [] (suc i) = refl
get_elem?-drop (x ∷ hs) zero = refl
get_elem?-drop (x ∷ hs) (suc i) = get_elem?-drop hs i

drop_more : (hs : List Host) (i : ℕ) → drop (suc i) hs ≡ drop 1 (drop i hs)
drop_more [] zero = refl
drop_more [] (suc i) = refl
drop_more (x ∷ hs) zero = refl
drop_more (x ∷ hs) (suc i) = drop_more hs i

head_unlisted :
    (h : Host) (r : ℕ) (rest : List Host)
    → listed (take (suc r) rest) h ≡ false
    → (is_at h (get_elem? rest 0) ≡ false) × (listed (take r (drop 1 rest)) h ≡ false)
head_unlisted h r [] e = (refl, listed-take r [] h refl)
head_unlisted h r (x ∷ rest) e = (ground arith, ground arith)

-- Where the host does not come any more.
remove_loop-over :
    (h : Host) (r i : ℕ) (arr : List Host) (n : ℕ)
    → listed (take r (drop i arr)) h ≡ false
    → remove_loop h r i arr n ≡ some (take n arr)
remove_loop-over h zero i arr n e = refl
remove_loop-over h (suc r) i arr n e =
    let (missed, rest) = head_unlisted h r (drop i arr) e in
    by_false (λ o. o ≡ some (take n arr)) (is_at h (get_elem? arr i)) _
      (remove_loop h r (suc i) arr n) (ap (is_at h) (get_elem?-drop arr i) ∙ missed)
      (remove_loop-over h r (suc i) arr n (ap (λ l. listed (take r l) h) (drop_more arr i) ∙ rest))

drop_sum : (pre xs : List Host) (k : ℕ) → drop (length pre + k) (pre ++ xs) ≡ drop k xs
drop_sum [] xs k = ap (λ j. drop j xs) (omega arith)
drop_sum (p ∷ pre) xs k =
    let next : length (p ∷ pre) + k ≡ suc (length pre + k) = omega arith in
    ap (λ j. drop j (p ∷ (pre ++ xs))) next ∙ drop_sum pre xs k

-- The rest of the array after a removal: what stood behind the host, and the last one again.
moved_over :
    (pre xs : List Host) (x : Host)
    → move_over (pre ++ x ∷ xs) (length (pre ++ x ∷ xs)) (length pre)
      ≡ pre ++ (xs ++ drop (length xs) (x ∷ xs))
moved_over pre xs x =
    let all = pre ++ x ∷ xs in
    let front : take (length pre) all ≡ pre = take_prefix pre (x ∷ xs) (length pre) refl in
    let whole : take (length all) all ≡ all =
      ap (take (length all)) (sym (append-nil all)) ∙ take_prefix all [] (length all) refl in
    let behind : drop (length pre + 1) all ≡ xs =
      ap (drop (length pre + 1)) (sym (append_assoc pre (x ∷ []) xs))
      ∙ drop_prefix (pre ++ x ∷ []) xs (length pre + 1)
          (omega (arith, length-append pre (x ∷ []))) in
    let count : length all - 1 ≡ length pre + length xs =
      omega (arith, length-append pre (x ∷ xs)) in
    let last : drop (length all - 1) all ≡ drop (length xs) (x ∷ xs) =
      ap (λ k. drop k all) count ∙ drop_sum pre (x ∷ xs) (length xs) in
    rw (whole, front, behind, last)

without-unlisted : (h : Host) (hs : List Host) → listed hs h ≡ false → without h hs ≡ hs
without-unlisted h [] e = refl
without-unlisted h (x ∷ hs) e = ground (arith, without-unlisted h hs)

is_at-prefix :
    (h : Host) (pre : List Host) (x : Host) (xs : List Host)
    → is_at h (get_elem? (pre ++ x ∷ xs) (length pre)) ≡ same_address h x
is_at-prefix h pre x xs = ap (is_at h) (
    get_elem?-drop (pre ++ x ∷ xs) (length pre)
    ∙ ap (λ l. get_elem? l 0) (drop_prefix pre (x ∷ xs) (length pre) refl))

unlisted_behind :
    (h x : Host) (pre xs : List Host)
    → listed xs h ≡ false
    → listed
        (take (length xs) (drop (suc (length pre)) (pre ++ (xs ++ drop (length xs) (x ∷ xs)))))
        h
      ≡ false
unlisted_behind h x pre [] e = refl
unlisted_behind h x pre (y ∷ ys) e =
    let tail = drop (length ys) (y ∷ ys) in
    ap (λ l. listed (take (suc (length ys)) l) h)
      (drop_more (pre ++ (y ∷ ys ++ tail)) (length pre)
        ∙ ap (drop 1) (drop_prefix pre (y ∷ ys ++ tail) (length pre) refl))
    ∙ listed-take (suc (length ys)) (ys ++ tail) h
        (listed-append ys tail h ∙ ground (arith, listed-drop (length ys) (y ∷ ys) h))

module _ (h x : Host) (pre xs : List Host) where
  after_one :
      listed xs h ≡ false
      → remove_loop h
          (length xs)
          (suc (length pre))
          (move_over (pre ++ x ∷ xs) (length (pre ++ x ∷ xs)) (length pre))
          (length (pre ++ x ∷ xs) - 1)
        ≡ some (pre ++ xs)
  after_one e =
      let count : length (pre ++ x ∷ xs) - 1 ≡ length (pre ++ xs) =
        omega (arith, length-append pre (x ∷ xs), length-append pre xs) in
      let tail = drop (length xs) (x ∷ xs) in
      ap (λ a. remove_loop h (length xs) (suc (length pre)) a (length (pre ++ x ∷ xs) - 1))
        (moved_over pre xs x)
      ∙ remove_loop-over h (length xs) (suc (length pre)) (pre ++ (xs ++ tail))
          (length (pre ++ x ∷ xs) - 1) (unlisted_behind h x pre xs e)
      ∙ ap some (
          ap (take (length (pre ++ x ∷ xs) - 1)) (sym (append_assoc pre xs tail))
          ∙ take_prefix (pre ++ xs) tail (length (pre ++ x ∷ xs) - 1) count)

  in_range : leb (suc (length pre)) (length (pre ++ x ∷ xs)) ≡ true
  in_range = let k = length-append pre (x ∷ xs) in ground arith

  found :
      (listed xs h ≡ false)
      → same_address h x ≡ true
      → remove_loop h (suc (length xs)) (length pre) (pre ++ x ∷ xs) (length (pre ++ x ∷ xs))
        ≡ some (pre ++ xs)
  found e same =
      by_true (λ o. o ≡ some (pre ++ xs)) (is_at h (get_elem? (pre ++ x ∷ xs) (length pre))) _ _
        (is_at-prefix h pre x xs ∙ same)
        (by_true (λ o. o ≡ some (pre ++ xs)) (leb (suc (length pre)) (length (pre ++ x ∷ xs))) _
          none in_range (after_one e))

pub remove_loop-without :
    (h : Host) (pre hs : List Host)
    → Distinct hs
    → remove_loop h (length hs) (length pre) (pre ++ hs) (length (pre ++ hs))
      ≡ some (pre ++ without h hs)
remove_loop-without h pre [] d = ap some (
    ap (take (length (pre ++ []))) (sym (append-nil (pre ++ [])))
    ∙ take_prefix (pre ++ []) [] (length (pre ++ [])) refl)
remove_loop-without h pre (x ∷ xs) d = elim (Bool-cases (same_address h x)) [
  | inl e ↦
      let unlisted : listed xs h ≡ false = listed_same h x xs e ∙ d.0 in
      found h x pre xs unlisted e
      ∙ ap (λ l. some (pre ++ l)) (rw e (sym (without-unlisted h xs unlisted)))
  | inr e ↦
      let next : suc (length pre) ≡ length (pre ++ x ∷ []) =
        omega (arith, length-append pre (x ∷ [])) in
      by_false (λ o. o ≡ some (pre ++ without h (x ∷ xs)))
        (is_at h (get_elem? (pre ++ x ∷ xs) (length pre))) _ _ (is_at-prefix h pre x xs ∙ e)
        (ap (λ i. remove_loop h (length xs) i (pre ++ x ∷ xs) (length (pre ++ x ∷ xs))) next
          ∙ ap (λ l. remove_loop h (length xs) (length (pre ++ x ∷ [])) l (length l))
              (sym (append_assoc pre (x ∷ []) xs))
          ∙ remove_loop-without h (pre ++ x ∷ []) xs d.1
          ∙ ap some (append_assoc pre (x ∷ []) (without h xs))
          ∙ ap (λ l. some (pre ++ l)) (rw e))
]
