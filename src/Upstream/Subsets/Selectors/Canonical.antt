-- ===== src/Upstream/Subsets/Selectors/Canonical.antt =====
-- upstream.go and subsetlbimpl.go: selectors that name the same keys count as one.
use psh_mosn.Base.{
  ◌≡◌, ◌↔◌, refl, sym, ap, ◌∙◌, true, false, List, [], ◌∷◌, arith, Bool-cases, inl, inr,
}
use psh_mosn.Base.Strings.{GoString, str_eq, str_eq_iff, str_eq→eq, str_eq_refl}
use psh_mosn.Upstream.Cluster.{contains}
use psh_mosn.Upstream.Subsets.Selectors.{str_lt, add_new, init_set, judge_string_array_equal}
use psh_mosn.Upstream.Subsets.Selectors.Sets.{
  Sorted, before_head, str_lt_irrefl, str_lt_total, contains-sort_keys, Sorted-sort_keys,
  NoRepeat-add_new, contains-add_new,
}

not_behind_itself :
    (x : GoString) (keys : List GoString) → Sorted (x ∷ keys) → contains x keys ≡ false
not_behind_itself x keys h = elim (Bool-cases (contains x keys)) [
  | inr absent ↦ absent
  | inl there ↦ absurd (let r : true ≡ false = sym (h.0 x there) ∙ str_lt_irrefl x in cc)
]

contains_head : (x : GoString) (keys : List GoString) → contains x (x ∷ keys) ≡ true
contains_head x keys = ground (arith, str_eq_refl x)

same_head :
    (x y : GoString) (s t : List GoString)
    → Sorted (x ∷ s)
    → Sorted (y ∷ t)
    → ((z : GoString) → contains z (x ∷ s) ≡ contains z (y ∷ t))
    → str_eq x y ≡ true
same_head x y s t h k same = elim (Bool-cases (str_eq x y)) [
  | inl e ↦ e
  | inr e ↦ elim (Bool-cases (str_lt x y)) [
    | inl lt ↦
        absurd
          (let r : true ≡ false = sym (contains_head x s) ∙ same x ∙ before_head x y t k lt in cc)
    | inr ge ↦ absurd (
        let lt = str_lt_total x y ge e in
        let r : true ≡ false = sym (contains_head y t) ∙ sym (same y) ∙ before_head y x s h lt in
        cc)
  ]
]

same_rest :
    (x y z : GoString) (s t : List GoString)
    → x ≡ y
    → Sorted (x ∷ s)
    → Sorted (y ∷ t)
    → contains z (x ∷ s) ≡ contains z (y ∷ t)
    → contains z s ≡ contains z t
same_rest x y z s t e h k same = elim (Bool-cases (str_eq x z)) [
  | inl f ↦
      ap (λ q. contains q s) (sym (str_eq→eq x z f))
      ∙ not_behind_itself x s h
      ∙ sym (not_behind_itself y t k)
      ∙ ap (λ q. contains q t) (sym e ∙ str_eq→eq x z f)
  | inr f ↦ let g : str_eq y z ≡ false = ap (λ q. str_eq q z) (sym e) ∙ f in ground arith
]

Sorted-same :
    (s t : List GoString)
    → Sorted s
    → Sorted t
    → ((z : GoString) → contains z s ≡ contains z t)
    → s ≡ t
Sorted-same [] [] h k same = refl
Sorted-same [] (y ∷ t) h k same = absurd (let r : false ≡ true = same y ∙ contains_head y t in cc)
Sorted-same (x ∷ s) [] h k same =
    absurd (let r : false ≡ true = sym (same x) ∙ contains_head x s in cc)
Sorted-same (x ∷ s) (y ∷ t) h k same =
    let e = str_eq→eq x y (same_head x y s t h k same) in
    ap (λ r. x ∷ r) (Sorted-same s t h.1 k.1 (λ z. same_rest x y z s t e h k (same z)))
    ∙ ap (λ w. w ∷ t) e

same_keys→eq : (s t : List GoString) → judge_string_array_equal s t ≡ true → s ≡ t
unfolding judge_string_array_equal
same_keys→eq [] [] e = refl
same_keys→eq [] (b ∷ t) e = absurd (ground arith)
same_keys→eq (a ∷ s) [] e = absurd (ground arith)
same_keys→eq (a ∷ s) (b ∷ t) e = ground (arith, same_keys→eq s t, str_eq_iff a b)

agrees : (s : List GoString) → judge_string_array_equal s s ≡ true
unfolding judge_string_array_equal
agrees [] = refl
agrees (a ∷ s) = ground (arith, agrees s, str_eq_refl a)

init_set-Sorted : (s : List GoString) → Sorted (init_set s)
unfolding init_set
init_set-Sorted s = Sorted-sort_keys (add_new [] s) (NoRepeat-add_new [] s tt)

init_set-contains : (s : List GoString) (k : GoString) → contains k (init_set s) ≡ contains k s
unfolding init_set
init_set-contains s k = contains-sort_keys k (add_new [] s) ∙ contains-add_new k [] s

-- The keys of a selector become a sorted list of the same keys, without duplicates, and two selectors are taken for
-- equal exactly where they name the same keys, in whatever order and however often.
pub init_set-canonical :
    (s t : List GoString)
    → Sorted (init_set s)
      × ((k : GoString) → contains k (init_set s) ≡ contains k s)
      × ((judge_string_array_equal (init_set s) (init_set t) ≡ true)
          ↔ ((k : GoString) → contains k s ≡ contains k t))
init_set-canonical s t = (
  init_set-Sorted s,
  init_set-contains s,
  (
    λ e k.
        sym (init_set-contains s k)
        ∙ ap (contains k) (same_keys→eq (init_set s) (init_set t) e)
        ∙ init_set-contains t k,
    λ same.
        ap (judge_string_array_equal (init_set s)) (
          sym (
            Sorted-same (init_set s) (init_set t) (init_set-Sorted s) (init_set-Sorted t)
              (λ k. init_set-contains s k ∙ same k ∙ sym (init_set-contains t k))))
        ∙ agrees (init_set s),
  ),
)
