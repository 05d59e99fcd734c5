-- ===== src/Upstream/Subsets/Selectors.antt =====
-- pkg/types/upstream.go and subsetlbimpl.go: the keys of the selectors, each a sorted set without duplicates.
pub mod Canonical
pub mod Sets
use psh_mosn.Base.{
  ℕ, ◌==◌, ltb, Bool, true, false, ◌&&◌, ◌||◌, List, [], ◌∷◌, ◌++◌, if◌then◌else◌, length,
}
use psh_mosn.Base.Strings.{GoString, str_eq}
use psh_mosn.Upstream.Cluster.{contains}

-- Go's order of strings.
abbrev pub str_lt : GoString → GoString → Bool
str_lt [] [] = false
str_lt [] (b ∷ t) = true
str_lt (a ∷ s) [] = false
str_lt (a ∷ s) (b ∷ t) = ltb a b || ((a == b) && str_lt s t)

-- sort.Sort with `Less`.
abbrev pub insert_key : GoString → List GoString → List GoString
insert_key k [] = k ∷ []
insert_key k (j ∷ keys) =
    let rest = insert_key k keys in if str_lt k j then k ∷ (j ∷ keys) else j ∷ rest

abbrev pub sort_keys : List GoString → List GoString
sort_keys [] = []
sort_keys (k ∷ keys) = insert_key k (sort_keys keys)

abbrev pub add_new : List GoString → List GoString → List GoString
add_new keys [] = keys
add_new keys (k ∷ input) = add_new (if contains k keys then keys else keys ++ k ∷ []) input

unfoldable pub init_set : List GoString → List GoString
init_set input = sort_keys (add_new [] input)

abbrev pub same_keys : List GoString → List GoString → Bool
same_keys [] _ = true
same_keys (a ∷ s) [] = false
same_keys (a ∷ s) (b ∷ t) = str_eq a b && same_keys s t

unfoldable pub judge_string_array_equal : List GoString → List GoString → Bool
judge_string_array_equal s t = (length s == length t) && same_keys s t

abbrev pub is_known : List GoString → List (List GoString) → Bool
is_known keys [] = false
is_known keys (s ∷ sets) = judge_string_array_equal keys s || is_known keys sets

abbrev pub add_sets : List (List GoString) → List (List GoString) → List (List GoString)
add_sets sets [] = sets
add_sets sets (keys ∷ config) =
    let s = init_set keys in add_sets (if is_known s sets then sets else sets ++ s ∷ []) config

unfoldable pub generate_subset_keys : List (List GoString) → List (List GoString)
unfolding init_set judge_string_array_equal
generate_subset_keys config = add_sets [] config
