-- ===== src/Upstream/Subsets/Tree.antt =====
-- subsetlbimpl.go: the tree of subsets is a map from paths of metadata to subsets.
use psh_mosn.Base.{
  ◌≡◌, refl, sym, ap, ◌∙◌, Bool, true, false, ◌&&◌, Option, none, some, [], ◌∷◌, if◌then◌else◌,
  arith,
}
use psh_mosn.Base.Strings.{GoString, str_eq, str_eq_iff, str_eq→eq}
use psh_mosn.Upstream.Subsets.{
  SubsetMetadata, LbSubsetMap, ValueSubsetMap, LbSubsetEntry, no_names, names, no_values, values,
  entry, children, priority_subset, new_entry, at_value, at_name, create_below, values_of, entry_of,
  find_or_create_subset, find_subset,
}

abbrev pub same_path : SubsetMetadata → SubsetMetadata → Bool
same_path [] [] = true
same_path ((k, v) ∷ p) ((j, w) ∷ q) = str_eq k j && (str_eq v w && same_path p q)
same_path _ _ = false

module _ {S : Type 0} where
  abbrev pub or_new : Option (LbSubsetEntry S) → LbSubsetEntry S
  or_new none = new_entry
  or_new (some e) = e

  entry_of-at_value :
      (v w : GoString) (g : LbSubsetEntry S → LbSubsetEntry S) (vs : ValueSubsetMap S)
      → entry_of w (at_value v g vs)
        ≡ (if str_eq v w then some (g (or_new (entry_of v vs))) else entry_of w vs)
  entry_of-at_value v w g no_values = refl
  entry_of-at_value v w g (values u e vs) =
      ground (arith, str_eq_iff v w, str_eq_iff u v, str_eq_iff u w, entry_of-at_value v w g vs)

  values_of-at_name :
      (k j : GoString) (g : ValueSubsetMap S → ValueSubsetMap S) (m : LbSubsetMap S)
      → values_of j (at_name k g m) ≡ (if str_eq k j then g (values_of k m) else values_of j m)
  values_of-at_name k j g no_names = refl
  values_of-at_name k j g (names i vs m) =
      ground (arith, str_eq_iff k j, str_eq_iff i k, str_eq_iff i j, values_of-at_name k j g m)

  abbrev pub entry_at : GoString → GoString → LbSubsetMap S → Option (LbSubsetEntry S)
  entry_at k v m = entry_of v (values_of k m)

  -- What stands at a path below an entry.
  abbrev pub below : SubsetMetadata → LbSubsetEntry S → Option S
  below [] e = priority_subset e
  below ((k, v) ∷ p) e = elim (entry_of v (values_of k (children e))) [
    | none ↦ none
    | some e' ↦ below p e'
  ]

  below-new : (p : SubsetMetadata) → below p (new_entry {S = S}) ≡ none
  below-new [] = refl
  below-new ((k, v) ∷ p) = refl

  below_found :
      (p : SubsetMetadata) (o : Option (LbSubsetEntry S))
      → elim o as (λ q. Option S) [ none ↦ none | some e ↦ below p e ] ≡ below p (or_new o)
  below_found p none = sym (below-new p)
  below_found p (some e) = refl

  pub entry_at-create :
      (k v j w : GoString) (g : LbSubsetEntry S → LbSubsetEntry S) (m : LbSubsetMap S)
      → entry_at j w (at_name k (at_value v g) m)
        ≡ (if str_eq k j && str_eq v w then some (g (or_new (entry_at k v m))) else entry_at j w m)
  entry_at-create k v j w g m = ground (
    arith,
    str_eq_iff k j,
    values_of-at_name k j (at_value v g) m,
    entry_of-at_value v w g (values_of k m),
  )

  same_entry :
      (k v j w : GoString) (m : LbSubsetMap S)
      → str_eq k j ≡ true
      → str_eq v w ≡ true
      → entry_at k v m ≡ entry_at j w m
  same_entry k v j w m e h =
      ap (λ x. entry_at x v m) (str_eq→eq k j e) ∙ ap (λ x. entry_at j x m) (str_eq→eq v w h)

  abbrev below_opt : SubsetMetadata → Option (LbSubsetEntry S) → Option S
  below_opt p none = none
  below_opt p (some e) = below p e

  below_either :
      (c d e : Bool) (q : SubsetMetadata) (new : LbSubsetEntry S) (old : Option (LbSubsetEntry S))
      (x : Option S)
      → (c ≡ true → d ≡ true → below q new ≡ (if e then x else below_opt q old))
      → below_opt q (if c && d then some new else old)
        ≡ (if c && (d && e) then x else below_opt q old)
  below_either true true e q new old x h = h refl refl
  below_either true false e q new old x h = refl
  below_either false d e q new old x h = refl

  below-create :
      (f : Option S → Option S) (p q : SubsetMetadata) (e : LbSubsetEntry S)
      → below q (create_below f p e) ≡ (if same_path p q then f (below p e) else below q e)
  below-create f [] [] (entry m s) = refl
  below-create f [] ((j, w) ∷ q) (entry m s) = refl
  below-create f ((k, v) ∷ p) [] (entry m s) = refl
  below-create f ((k, v) ∷ p) ((j, w) ∷ q) (entry m s) =
      ap (below_opt q) (entry_at-create k v j w (create_below f p) m)
      ∙ below_either (str_eq k j) (str_eq v w) (same_path p q) q
          (create_below f p (or_new (entry_at k v m))) (entry_at j w m)
          (f (below_opt p (entry_at k v m)))
          (λ same_name same_value.
            below-create f p q (or_new (entry_at k v m))
            ∙ ap (λ x. if same_path p q then f x else below q (or_new (entry_at k v m)))
                (sym (below_found p (entry_at k v m)))
            ∙ ap (λ y. if same_path p q then f (below_opt p (entry_at k v m)) else y)
                (sym (below_found q (entry_at k v m))
                  ∙ ap (below_opt q) (same_entry k v j w m same_name same_value)))

  -- The subset that a search finds.
  abbrev pub subset_of : Option (LbSubsetEntry S) → Option S
  subset_of none = none
  subset_of (some e) = priority_subset e

  abbrev pub root : LbSubsetMap S → LbSubsetEntry S
  root m = entry m none

  pub find_subset-below :
      (p : SubsetMetadata) (m : LbSubsetMap S) → subset_of (find_subset p m) ≡ below p (root m)
  unfolding find_subset
  find_subset-below [] m = refl
  find_subset-below ((k, v) ∷ []) m = last (entry_at k v m)
    where
      last : (o : Option (LbSubsetEntry S)) → subset_of o ≡ below_opt [] o
      last none = refl
      last (some e) = refl
  find_subset-below ((k, v) ∷ kv ∷ kvs) m = further (entry_at k v m) (find_subset-below (kv ∷ kvs))
    where
      further :
          (o : Option (LbSubsetEntry S))
          → ((m' : LbSubsetMap S)
              → subset_of (find_subset (kv ∷ kvs) m') ≡ below (kv ∷ kvs) (root m'))
          → subset_of (elim o as (λ x. Option (LbSubsetEntry S)) [
            | none ↦ none
            | some e ↦ find_subset (kv ∷ kvs) (children e)
          ])
            ≡ below_opt (kv ∷ kvs) o
      further none ih = refl
      further (some (entry m' s)) ih = ih m'

  abbrev pub stored : SubsetMetadata → LbSubsetMap S → Option S
  stored p m = subset_of (find_subset p m)

-- The tree is a map from paths of names and values to subsets. The entry at a path that is not empty is found or made,
-- and changed by any function of what it holds: this gives a tree in which a search for that path finds what the
-- function makes of what was there, and a search for any other path finds what it found before.
pub stored-create :
    {S : Type 0} (f : Option S → Option S) (kv : GoString × GoString) (p q : SubsetMetadata)
    (m : LbSubsetMap S)
    → (m' : LbSubsetMap S) × (find_or_create_subset f (kv ∷ p) m ≡ some m')
      × (stored q m' ≡ (if same_path (kv ∷ p) q then f (stored (kv ∷ p) m) else stored q m))
unfolding find_or_create_subset
stored-create f (k, v) p q m =
    let m' = at_name k (at_value v (create_below f p)) m in
    (
      m',
      refl,
      find_subset-below q m'
          ∙ below-create f ((k, v) ∷ p) q (root m)
          ∙ ap (λ x. if same_path ((k, v) ∷ p) q then f x else below q (root m))
              (sym (find_subset-below ((k, v) ∷ p) m))
          ∙ ap (λ y. if same_path ((k, v) ∷ p) q then f (stored ((k, v) ∷ p) m) else y)
              (sym (find_subset-below q m)),
    )
