-- ===== src/Router/Routes/Query.antt =====
-- httputility.go: ParseQueryString reads what a query string of these parameters says.
use psh_mosn.Base.{
  ap, ◌∙◌, ℕ, ◌≡◌, refl, ◌∙◌, Bool, true, false, ◌&&◌, not, List, [], ◌∷◌, ◌++◌, ◌==◌, arith,
}
use psh_mosn.Base.Strings.{
  Fresh, Fresh-step, Fresh-nil, GoString, str_eq, insert-Absent, Absent, Unique,
}
use mathlib.Core.List.{append_assoc}
use psh_mosn.Router.Routes.{
  is_space, trim_left, trim_right, trim_space, split, put_param, put_params, parse_query_string,
}

-- Neither white space nor one of the separators & and =.
abbrev plain : ℕ → Bool
plain c = not (is_space c) && (not (c == 38) && not (c == 61))

abbrev pub Plain : GoString → Type 0
Plain [] = Unit {0}
Plain (c ∷ s) = (plain c ≡ true) × Plain s

abbrev pub AllPlain : List (GoString × GoString) → Type 0
AllPlain [] = Unit {0}
AllPlain ((k, v) ∷ m) = Plain k × (Plain v × AllPlain m)

-- k=v
abbrev pub print_param : GoString → GoString → GoString
print_param k v = k ++ 61 ∷ v

-- One parameter, and the others behind &.
abbrev pub print_query : GoString → GoString → List (GoString × GoString) → GoString
print_query k v [] = print_param k v
print_query k v ((j, w) ∷ m) = print_param k v ++ 38 ∷ print_query j w m

-- The byte does not occur.
abbrev Without : ℕ → GoString → Type 0
Without sep [] = Unit {0}
Without sep (c ∷ s) = ((c == sep) ≡ false) × Without sep s

split-last : (s : GoString) (sep : ℕ) → Without sep s → split s sep ≡ s ∷ []
unfolding split
split-last [] sep h = refl
split-last (c ∷ s) sep h = rw (h.0, split-last s sep h.1) refl

split-next : (s t : GoString) (sep : ℕ) → Without sep s → split (s ++ sep ∷ t) sep ≡ s ∷ split t sep
unfolding split
split-next [] t sep h = let e : (sep == sep) ≡ true = ground arith in rw e refl
split-next (c ∷ s) t sep h = rw (h.0, split-next s t sep h.1) refl

Plain-equals : (s : GoString) → Plain s → Without 61 s
Plain-equals [] h = tt
Plain-equals (c ∷ s) (h, hs) = (ground arith, Plain-equals s hs)

Plain-and : (s : GoString) → Plain s → Without 38 s
Plain-and [] h = tt
Plain-and (c ∷ s) (h, hs) = (ground arith, Plain-and s hs)

Without-append : (s t : GoString) (sep : ℕ) → Without sep s → Without sep t → Without sep (s ++ t)
Without-append [] t sep h k = k
Without-append (c ∷ s) t sep (h, hs) k = (h, Without-append s t sep hs k)

trim_right-Plain : (s : GoString) → Plain s → trim_right s ≡ s
trim_right-Plain [] h = refl
trim_right-Plain (c ∷ s) (h, hs) =
    let e : is_space c ≡ false = ground arith in
    let f : (str_eq s [] && is_space c) ≡ false = ground arith in rw (trim_right-Plain s hs, f) refl

trim_left-Plain : (s : GoString) → Plain s → trim_left s ≡ s
trim_left-Plain [] h = refl
trim_left-Plain (c ∷ s) (h, hs) = let e : is_space c ≡ false = ground arith in rw e refl

trim_space-Plain : (s : GoString) → Plain s → trim_space s ≡ s
trim_space-Plain s h = rw (trim_right-Plain s h) (trim_left-Plain s h)

put_param-printed :
    (k v : GoString) (acc : List (GoString × GoString))
    → Plain k
    → Plain v
    → Absent k acc
    → put_param (split (print_param k v) 61) acc ≡ acc ++ (k, v) ∷ []
put_param-printed k v acc hk hv new =
    rw
      (
        split-next k v 61 (Plain-equals k hk),
        split-last v 61 (Plain-equals v hv),
        trim_space-Plain k hk,
        trim_space-Plain v hv,
      )
      (insert-Absent k v acc new)

-- A printed query has at least the = in it.
printed_not_empty :
    (k v : GoString) (m : List (GoString × GoString)) → str_eq [] (print_query k v m) ≡ false
printed_not_empty [] v [] = refl
printed_not_empty [] v (p ∷ m) = refl
printed_not_empty (c ∷ k) v [] = refl
printed_not_empty (c ∷ k) v (p ∷ m) = refl

split-printed :
    (k v : GoString) (m : List (GoString × GoString)) (acc : List (GoString × GoString))
    → AllPlain ((k, v) ∷ m)
    → Unique ((k, v) ∷ m)
    → Fresh ((k, v) ∷ m) acc
    → put_params (split (print_query k v m) 38) acc ≡ acc ++ (k, v) ∷ m
split-printed k v [] acc (hk, hv) u n =
    rw
      (split-last (print_param k v) 38
        (Without-append k (61 ∷ v) 38 (Plain-and k hk) (refl, Plain-and v hv.0)))
      (put_param-printed k v acc hk hv.0 n.0)
split-printed k v ((j, w) ∷ m) acc (hk, (hv, hm)) u n =
    ap (λ q. put_params q acc)
      (split-next (print_param k v) (print_query j w m) 38
        (Without-append k (61 ∷ v) 38 (Plain-and k hk) (refl, Plain-and v hv)))
    ∙ ap (put_params (split (print_query j w m) 38)) (put_param-printed k v acc hk hv n.0)
    ∙ split-printed j w m (acc ++ (k, v) ∷ []) hm u.1 (Fresh-step ((j, w) ∷ m) acc k v u.0 n.1)
    ∙ append_assoc acc ((k, v) ∷ []) ((j, w) ∷ m)

-- One or more parameters, with no white space, & or = in their keys and values and no key twice, are
-- what ParseQueryString reads from k=v&k=v&… of them, in this order.
pub parse_query_string-print :
    (k v : GoString) (m : List (GoString × GoString))
    → AllPlain ((k, v) ∷ m)
    → Unique ((k, v) ∷ m)
    → parse_query_string (print_query k v m) ≡ (k, v) ∷ m
unfolding parse_query_string
parse_query_string-print k v m h u =
    rw (printed_not_empty k v m) (split-printed k v m [] h u (Fresh-nil ((k, v) ∷ m)))
