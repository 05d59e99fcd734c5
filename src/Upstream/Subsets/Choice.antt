-- ===== src/Upstream/Subsets/Choice.antt =====
-- subsetlbimpl.go: the choice of a host where the criteria of a request stand above a subset.
use psh_mosn.Base.{
  ◌≡◌, refl, sym, ap, ◌∙◌, Bool, true, false, ◌&&◌, ◌||◌, Option, none, some, List, [], ◌∷◌, ◌++◌,
  if◌then◌else◌, arith, some_eq,
}
use psh_mosn.Base.Strings.{GoString, str_eq, str_eq_refl}
use psh_mosn.Upstream.Subsets.{
  SubsetMetadata, LbSubsetMap, LbSubsetEntry, entry, children, priority_subset, at_name, at_value,
  create_below, values_of, entry_of, find_subset, find_or_create_subset, extract_subset_metadata,
  process_subsets, on_entry, visited, bind, choose_host, try_choose_host, choose_fallback,
}
use psh_mosn.Upstream.Subsets.Tree.{
  same_path, subset_of, stored, root, or_new, entry_at, entry_at-create,
}
use psh_mosn.Upstream.Subsets.Members.{has, any_selects, process_subsets-has}

module _ {S : Type 0} where
  -- The entry at a path below an entry.
  abbrev reach : SubsetMetadata → LbSubsetEntry S → Option (LbSubsetEntry S)
  reach [] e = some e
  reach ((k, v) ∷ p) e = elim (entry_of v (values_of k (children e))) [
    | none ↦ none
    | some e' ↦ reach p e'
  ]

  find_subset-reach :
      (kv : GoString × GoString) (p : SubsetMetadata) (m : LbSubsetMap S)
      → find_subset (kv ∷ p) m ≡ reach (kv ∷ p) (root m)
  unfolding find_subset
  find_subset-reach (k, v) [] m = last (entry_at k v m)
    where
      last :
          (o : Option (LbSubsetEntry S))
          → o ≡ elim o as (λ x. Option (LbSubsetEntry S)) [ none ↦ none | some e ↦ some e ]
      last none = refl
      last (some e) = refl
  find_subset-reach (k, v) (kv ∷ kvs) m = further (entry_at k v m) (find_subset-reach kv kvs)
    where
      further :
          (o : Option (LbSubsetEntry S))
          → ((m' : LbSubsetMap S) → find_subset (kv ∷ kvs) m' ≡ reach (kv ∷ kvs) (root m'))
          → elim o as (λ x. Option (LbSubsetEntry S)) [
            | none ↦ none
            | some e ↦ find_subset (kv ∷ kvs) (children e)
          ]
            ≡ elim o as (λ x. Option (LbSubsetEntry S)) [
              | none ↦ none
              | some e ↦ reach (kv ∷ kvs) e
            ]
      further none ih = refl
      further (some (entry m' s)) ih = ih m'

  -- Every path above a new one is reached.
  reach-create :
      (f : Option S → Option S) (q more : SubsetMetadata) (e : LbSubsetEntry S)
      → (e' : LbSubsetEntry S) × (reach q (create_below f (q ++ more) e) ≡ some e')
  reach-create f [] more e = (create_below f more e, refl)
  reach-create f ((k, v) ∷ q) more (entry m s) =
      let (e', r) = reach-create f q more (or_new (entry_at k v m)) in
      let there =
        entry_at-create k v k v (create_below f (q ++ more)) m
        ∙ ap
            (λ b.
              if b
              then some (create_below f (q ++ more) (or_new (entry_at k v m)))
              else entry_at k v m)
            (both k v) in
      (
        e',
        ap (λ o. elim o as (λ x. Option (LbSubsetEntry S)) [ none ↦ none | some x ↦ reach q x ])
              there
            ∙ r,
      )
    where
      both : (a b : GoString) → (str_eq a a && str_eq b b) ≡ true
      both a b = ground (arith, str_eq_refl a, str_eq_refl b)

same_path-above :
    (q : SubsetMetadata) (kv : GoString × GoString) (more : SubsetMetadata)
    → same_path (q ++ kv ∷ more) q ≡ false
same_path-above [] kv more = refl
same_path-above ((k, v) ∷ q) kv more =
    ground (arith, same_path-above q kv more, str_eq_refl k, str_eq_refl v)

process_subsets-one :
    {S : Type 0} (make : SubsetMetadata → S) (update : S → S) (added_first : Bool)
    (keys : List GoString) (host : SubsetMetadata) (m : LbSubsetMap S) (k v : GoString)
    (p : SubsetMetadata)
    → extract_subset_metadata keys host ≡ (k, v) ∷ p
    → process_subsets added_first make update (keys ∷ []) (host ∷ []) [] m
      ≡ some (at_name k (at_value v (create_below (on_entry make update true ((k, v) ∷ p)) p)) m)
unfolding process_subsets find_or_create_subset
process_subsets-one make update true keys host m k v p e =
    ap
      (λ r.
        bind (bind (bind (visited (on_entry make update true) r m) (λ x. some x)) (λ x. some x))
          (λ x. some x))
      e
process_subsets-one make update false keys host m k v p e =
    ap (λ r. bind (bind (visited (on_entry make update true) r m) (λ x. some x)) (λ x. some x)) e

-- A host is added, with one selector, to a tree in which a path of names and values has no subset, and the selector
-- makes a longer path out of the metadata of the host. A request whose criteria are the shorter path makes the
-- choice of a host panic, whatever the fallback subset is.
pub choose_host-above :
    {S : Type 0} {H : Type 0} (pick : S → Option H) (populated : S → Bool) (fallback : Option S)
    (make : SubsetMetadata → S) (update : S → S) (added_first : Bool) (keys : List GoString)
    (host : SubsetMetadata) (m : LbSubsetMap S) (criterion : GoString × GoString)
    (criteria : SubsetMetadata) (kv : GoString × GoString) (more : SubsetMetadata)
    → extract_subset_metadata keys host ≡ criterion ∷ criteria ++ kv ∷ more
    → has (stored (criterion ∷ criteria) m) ≡ false
    → (m' : LbSubsetMap S) × (process_subsets added_first make update (keys ∷ []) (host ∷ []) [] m
        ≡ some m')
      × (choose_host pick populated (some (some (criterion ∷ criteria))) fallback m' ≡ none)
unfolding choose_host
choose_host-above {S} {H} pick populated fallback make update added_first keys host m (k, v)
      criteria kv more extracted unset =
    let q = (k, v) ∷ criteria in
    let f = on_entry make update true (q ++ kv ∷ more) in
    let m1 = at_name k (at_value v (create_below f (criteria ++ kv ∷ more))) m in
    let (m', e, made) =
      process_subsets-has make update added_first (keys ∷ []) (host ∷ []) [] m q refl in
    let (e', reached) = reach-create f q (kv ∷ more) (root m) in
    let one =
      process_subsets-one make update added_first keys host m k v (criteria ++ kv ∷ more)
        extracted in
    let found : find_subset q m1 ≡ some e' = find_subset-reach (k, v) criteria m1 ∙ reached in
    let same : m' ≡ m1 = some_eq (sym e ∙ one) in
    let bare : has (priority_subset e') ≡ false =
      ap (λ o. has (subset_of o)) (sym found)
      ∙ ap (λ x. has (stored q x)) (sym same)
      ∙ made
      ∙ ap (λ b. b || any_selects (keys ∷ []) (host ∷ []) q) unset
      ∙ ap (λ p. (same_path p q || false) || false) extracted
      ∙ ap (λ b. (b || false) || false) (same_path-above q kv more) in
    (
      m1,
      one,
      ap (λ o. try_choose_host pick o (choose_fallback pick populated fallback)) found
          ∙ panics e' bare,
    )
  where
    panics :
        (e : LbSubsetEntry S)
        → has (priority_subset e) ≡ false
        → try_choose_host pick (some e) (choose_fallback pick populated fallback) ≡ none
    panics (entry n none) h = refl
    panics (entry n (some s)) h = absurd cc
