-- ===== src/Upstream/Subsets/Selectors/Sets.antt =====
-- upstream.go: `InitSet` gives each set of keys one list.
use psh_mosn.Base.{
  ◌≡◌, refl, sym, ap, ◌∙◌, Bool, true, false, ◌||◌, List, [], ◌∷◌, ◌++◌, arith, Bool-cases, inl,
  inr, by_true, by_false,
}
use psh_mosn.Base.Strings.{GoString, str_eq, str_eq→eq, str_eq_sym}
use psh_mosn.Upstream.Cluster.{contains}
use psh_mosn.Upstream.Subsets.Selectors.{str_lt, insert_key, sort_keys, add_new}

pub str_lt_irrefl : (s : GoString) → str_lt s s ≡ false
str_lt_irrefl [] = refl
str_lt_irrefl (a ∷ s) = ground (arith, str_lt_irrefl s)

str_lt_trans : (s t u : GoString) → str_lt s t ≡ true → str_lt t u ≡ true → str_lt s u ≡ true
str_lt_trans [] [] u h k = absurd cc
str_lt_trans [] (b ∷ t) [] h k = absurd cc
str_lt_trans [] (b ∷ t) (c ∷ u) h k = refl
str_lt_trans (a ∷ s) [] u h k = absurd cc
str_lt_trans (a ∷ s) (b ∷ t) [] h k = absurd cc
str_lt_trans (a ∷ s) (b ∷ t) (c ∷ u) h k = ground (arith, str_lt_trans s t u)

pub str_lt_total : (s t : GoString) → str_lt s t ≡ false → str_eq s t ≡ false → str_lt t s ≡ true
str_lt_total [] [] h k = absurd cc
str_lt_total [] (b ∷ t) h k = absurd cc
str_lt_total (a ∷ s) [] h k = refl
str_lt_total (a ∷ s) (b ∷ t) h k = ground (arith, str_lt_total s t)

abbrev pub Sorted : List GoString → Type 0
Sorted [] = Unit {0}
Sorted (k ∷ keys) = ((z : GoString) → contains z keys ≡ true → str_lt k z ≡ true) × Sorted keys

contains-insert_key :
    (x k : GoString) (keys : List GoString)
    → contains x (insert_key k keys) ≡ (str_eq k x || contains x keys)
contains-insert_key x k [] = refl
contains-insert_key x k (j ∷ keys) = ground (arith, contains-insert_key x k keys)

pub contains-sort_keys :
    (x : GoString) (keys : List GoString) → contains x (sort_keys keys) ≡ contains x keys
contains-sort_keys x [] = refl
contains-sort_keys x (k ∷ keys) =
    contains-insert_key x k (sort_keys keys) ∙ ap (λ b. str_eq k x || b) (contains-sort_keys x keys)

contains-append :
    (x : GoString) (keys more : List GoString)
    → contains x (keys ++ more) ≡ (contains x keys || contains x more)
contains-append x [] more = refl
contains-append x (k ∷ keys) more = ground (arith, contains-append x keys more)

Sorted-insert_key :
    (k : GoString) (keys : List GoString)
    → contains k keys ≡ false
    → Sorted keys
    → Sorted (insert_key k keys)
Sorted-insert_key k [] e h = (λ z c. absurd cc, tt)
Sorted-insert_key k (j ∷ keys) e h = elim (Bool-cases (str_lt k j)) [
  | inl before ↦ by_true Sorted (str_lt k j) (k ∷ (j ∷ keys)) (j ∷ insert_key k keys) before (
    (λ z c. elim (Bool-cases (str_eq j z)) [
      | inl same ↦ ap (str_lt k) (sym (str_eq→eq j z same)) ∙ before
      | inr other ↦ str_lt_trans k j z before (h.0 z (ground arith))
    ]),
    h,
  )
  | inr after ↦ by_false Sorted (str_lt k j) (k ∷ (j ∷ keys)) (j ∷ insert_key k keys) after (
    (λ z c. elim (Bool-cases (str_eq k z)) [
      | inl same ↦
          ap (str_lt j) (sym (str_eq→eq k z same))
          ∙ str_lt_total k j after (str_eq_sym k j ∙ ground arith)
      | inr other ↦ h.0 z (ground (arith, contains-insert_key z k keys))
    ]),
    Sorted-insert_key k keys (ground arith) h.1,
  )
]

abbrev pub NoRepeat : List GoString → Type 0
NoRepeat [] = Unit {0}
NoRepeat (k ∷ keys) = (contains k keys ≡ false) × NoRepeat keys

pub Sorted-sort_keys : (keys : List GoString) → NoRepeat keys → Sorted (sort_keys keys)
Sorted-sort_keys [] h = tt
Sorted-sort_keys (k ∷ keys) h =
    Sorted-insert_key k (sort_keys keys) (contains-sort_keys k keys ∙ h.0)
      (Sorted-sort_keys keys h.1)

NoRepeat-append :
    (keys : List GoString) (k : GoString)
    → NoRepeat keys
    → contains k keys ≡ false
    → NoRepeat (keys ++ k ∷ [])
NoRepeat-append [] k h e = (refl, tt)
NoRepeat-append (j ∷ keys) k h e = (
  contains-append j keys (k ∷ []) ∙ ground (arith, h.0, str_eq_sym k j),
  NoRepeat-append keys k h.1 (ground arith),
)

pub NoRepeat-add_new : (keys input : List GoString) → NoRepeat keys → NoRepeat (add_new keys input)
NoRepeat-add_new keys [] h = h
NoRepeat-add_new keys (k ∷ input) h = elim (Bool-cases (contains k keys)) [
  | inl e ↦
      by_true (λ l. NoRepeat (add_new l input)) (contains k keys) keys (keys ++ k ∷ []) e
        (NoRepeat-add_new keys input h)
  | inr e ↦
      by_false (λ l. NoRepeat (add_new l input)) (contains k keys) keys (keys ++ k ∷ []) e
        (NoRepeat-add_new (keys ++ k ∷ []) input (NoRepeat-append keys k h e))
]

known_already :
    (x k : GoString) (keys : List GoString) (rest : Bool)
    → contains k keys ≡ true
    → (contains x keys || rest) ≡ (contains x keys || (str_eq k x || rest))
known_already x k keys rest e = elim (Bool-cases (str_eq k x)) [
  | inl same ↦ let there = ap (λ z. contains z keys) (sym (str_eq→eq k x same)) ∙ e in ground arith
  | inr other ↦ ground arith
]

pub contains-add_new :
    (x : GoString) (keys input : List GoString)
    → contains x (add_new keys input) ≡ (contains x keys || contains x input)
contains-add_new x keys [] = ground arith
contains-add_new x keys (k ∷ input) = elim (Bool-cases (contains k keys)) [
  | inl e ↦
      by_true (λ l. contains x (add_new l input) ≡ (contains x keys || contains x (k ∷ input)))
        (contains k keys) keys (keys ++ k ∷ []) e
        (contains-add_new x keys input ∙ known_already x k keys (contains x input) e)
  | inr e ↦
      by_false (λ l. contains x (add_new l input) ≡ (contains x keys || contains x (k ∷ input)))
        (contains k keys) keys (keys ++ k ∷ []) e
        (contains-add_new x (keys ++ k ∷ []) input
          ∙ ground (arith, contains-append x keys (k ∷ [])))
]

-- Where `x` stands before the head of a sorted list, it is not in it.
pub before_head :
    (x y : GoString) (keys : List GoString)
    → Sorted (y ∷ keys)
    → str_lt x y ≡ true
    → contains x (y ∷ keys) ≡ false
before_head x y keys h lt = elim (Bool-cases (contains x (y ∷ keys))) [
  | inr absent ↦ absent
  | inl there ↦ elim (Bool-cases (str_eq y x)) [
    | inl same ↦
        let q : str_lt x x ≡ true = ap (str_lt x) (sym (str_eq→eq y x same)) ∙ lt in
        absurd (let r : true ≡ false = sym q ∙ str_lt_irrefl x in cc)
    | inr other ↦
        let q : str_lt x x ≡ true = str_lt_trans x y x lt (h.0 x (ground arith)) in
        absurd (let r : true ≡ false = sym q ∙ str_lt_irrefl x in cc)
  ]
]
