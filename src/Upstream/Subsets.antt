-- ===== src/Upstream/Subsets.antt =====
-- pkg/upstream/cluster/subsetlbimpl.go: the tree of subsets of a cluster's hosts by their metadata, and the search
-- for the subset of a request. What an entry holds, its priority subset, is any type `S`; an entry that the code
-- reaches by a pointer is changed in its place in the tree.

mod Tests
pub mod Tree
pub mod Members
pub mod Choice
pub mod Hosts
pub mod Selectors
use psh_mosn.Base.{
  ℕ, Bool, true, false, not, ◌&&◌, Option, none, some, List, [], ◌∷◌, ◌++◌, if◌then◌else◌, leb,
  length, ◌==◌,
}
use psh_mosn.Base.Strings.{GoString, str_eq, lookup}

-- types.SubsetMetadata; the criteria of a request, in their order, are of the same form.
abbrev pub SubsetMetadata : Type 0
SubsetMetadata = List (GoString × GoString)

-- A Go map is an association list in the order of its insertions; its keys stand in the constructors.
mutual
  pub data LbSubsetMap (S : Type 0) : Type 0 where
    no_names : LbSubsetMap S
    names : GoString → ValueSubsetMap S → LbSubsetMap S → LbSubsetMap S

  pub data ValueSubsetMap (S : Type 0) : Type 0 where
    no_values : ValueSubsetMap S
    values : GoString → LbSubsetEntry S → ValueSubsetMap S → ValueSubsetMap S

  pub data LbSubsetEntry (S : Type 0) : Type 0 where
    entry : LbSubsetMap S → Option S → LbSubsetEntry S

module _ {S : Type 0} where
  abbrev pub children : LbSubsetEntry S → LbSubsetMap S
  children (entry m p) = m

  abbrev pub priority_subset : LbSubsetEntry S → Option S
  priority_subset (entry m p) = p

  abbrev pub initialized : LbSubsetEntry S → Bool
  initialized (entry m none) = false
  initialized (entry m (some p)) = true

  abbrev pub active : LbSubsetEntry S → Bool
  active e = true

  abbrev pub new_entry : LbSubsetEntry S
  new_entry = entry no_names none

  -- vsMap[hashedValue], changed where it is there and added where it is not.
  abbrev pub at_value :
      GoString → (LbSubsetEntry S → LbSubsetEntry S) → ValueSubsetMap S → ValueSubsetMap S
  at_value v g no_values = values v (g new_entry) no_values
  at_value v g (values w e vs) =
      if str_eq w v then values w (g e) vs else values w e (at_value v g vs)

  abbrev pub at_name :
      GoString → (ValueSubsetMap S → ValueSubsetMap S) → LbSubsetMap S → LbSubsetMap S
  at_name k g no_names = names k (g no_values) no_names
  at_name k g (names j vs m) = if str_eq j k then names j (g vs) m else names j vs (at_name k g m)

  -- The recursion of `FindOrCreateSubset`, from an entry; `f` is what the caller does to the one that it returns.
  abbrev pub create_below :
      (Option S → Option S) → SubsetMetadata → LbSubsetEntry S → LbSubsetEntry S
  create_below f [] (entry m p) = entry m (f p)
  create_below f ((k, v) ∷ kvs) (entry m p) =
      entry (at_name k (at_value v (create_below f kvs)) m) p

  -- kvs[0] panics where there is none; the callers test the length.
  unfoldable pub find_or_create_subset :
      (Option S → Option S) → SubsetMetadata → LbSubsetMap S → Option (LbSubsetMap S)
  find_or_create_subset f [] m = none
  find_or_create_subset f ((k, v) ∷ kvs) m = some (at_name k (at_value v (create_below f kvs)) m)

  abbrev pub values_of : GoString → LbSubsetMap S → ValueSubsetMap S
  values_of k no_names = no_values
  values_of k (names j vs m) = if str_eq j k then vs else values_of k m

  abbrev pub entry_of : GoString → ValueSubsetMap S → Option (LbSubsetEntry S)
  entry_of v no_values = none
  entry_of v (values w e vs) = if str_eq w v then some e else entry_of v vs

  -- A name without a map finds no value in an empty one.
  unfoldable pub find_subset : SubsetMetadata → LbSubsetMap S → Option (LbSubsetEntry S)
  find_subset [] m = none
  find_subset ((k, v) ∷ []) m = entry_of v (values_of k m)
  find_subset ((k, v) ∷ kv ∷ kvs) m = elim (entry_of v (values_of k m)) [
    | none ↦ none
    | some e ↦ find_subset (kv ∷ kvs) (children e)
  ]

-- Every key of a selector must stand in the metadata of a host.
abbrev pub found_keys : List GoString → SubsetMetadata → SubsetMetadata
found_keys [] metadata = []
found_keys (k ∷ keys) metadata = elim (lookup k metadata) [
  | none ↦ []
  | some v ↦ (k, v) ∷ found_keys keys metadata
]

unfoldable pub extract_subset_metadata : List GoString → SubsetMetadata → SubsetMetadata
extract_subset_metadata keys metadata =
    let kvs = found_keys keys metadata in if length kvs == length keys then kvs else []

unfoldable pub host_matches : SubsetMetadata → SubsetMetadata → Bool
host_matches [] metadata = true
host_matches ((k, v) ∷ kvs) metadata =
    let rest = host_matches kvs metadata in
    elim (lookup k metadata) [ none ↦ false | some w ↦ if str_eq w v then rest else false ]

module _ {S : Type 0} where
  -- The two callbacks of `Update`: the subset of an entry is updated, or made where there is none and a host is added.
  -- The statistics are left out.
  abbrev pub on_entry : (SubsetMetadata → S) → (S → S) → Bool → SubsetMetadata → Option S → Option S
  on_entry make update adding kvs none = if adding then some (make kvs) else none
  on_entry make update adding kvs (some s) = some (update s)

  abbrev pub visited :
      (SubsetMetadata → Option S → Option S)
      → SubsetMetadata
      → LbSubsetMap S
      → Option (LbSubsetMap S)
  visited f [] m = some m
  visited f (kv ∷ kvs) m = find_or_create_subset (f (kv ∷ kvs)) (kv ∷ kvs) m

  abbrev pub bind :
      Option (LbSubsetMap S) → (LbSubsetMap S → Option (LbSubsetMap S)) → Option (LbSubsetMap S)
  bind none f = none
  bind (some m) f = f m

  -- The loop over the selectors, for the metadata of one host, and that over the hosts.
  abbrev pub visit_keys :
      (SubsetMetadata → Option S → Option S)
      → List (List GoString)
      → SubsetMetadata
      → LbSubsetMap S
      → Option (LbSubsetMap S)
  visit_keys f [] host m = some m
  visit_keys f (keys ∷ selectors) host m =
      bind (visited f (extract_subset_metadata keys host) m) (visit_keys f selectors host)

  abbrev pub visit_hosts :
      (SubsetMetadata → Option S → Option S)
      → List (List GoString)
      → List SubsetMetadata
      → LbSubsetMap S
      → Option (LbSubsetMap S)
  visit_hosts f selectors [] m = some m
  visit_hosts f selectors (host ∷ hosts) m =
      bind (visit_keys f selectors host m) (visit_hosts f selectors hosts)

  -- Go ranges over the map of the two lists in either order: `added_first`. A host stands for its metadata.
  unfoldable pub process_subsets :
      Bool
      → (SubsetMetadata → S)
      → (S → S)
      → List (List GoString)
      → List SubsetMetadata
      → List SubsetMetadata
      → LbSubsetMap S
      → Option (LbSubsetMap S)
  unfolding extract_subset_metadata find_or_create_subset
  process_subsets added_first make update selectors added removed m =
      let adding = visit_hosts (on_entry make update true) selectors added in
      let removing = visit_hosts (on_entry make update false) selectors removed in
      if added_first then bind (adding m) removing else bind (removing m) adding

module _ {S : Type 0} {H : Type 0} where
  abbrev pub choose_from : (S → Option H) → Option S → Option (Option H)
  choose_from pick none = none
  choose_from pick (some s) = elim (pick s) [ none ↦ none | some h ↦ some (some h) ]

  abbrev pub choose_fallback : (S → Option H) → (S → Bool) → Option S → Option (Option H)
  choose_fallback pick populated none = some none
  choose_fallback pick populated (some s) = some (if populated s then pick s else none)

  abbrev pub try_choose_host :
      (S → Option H) → Option (LbSubsetEntry S) → Option (Option H) → Option (Option H)
  try_choose_host pick none otherwise = otherwise
  try_choose_host pick (some e) otherwise =
      if active e then choose_from pick (priority_subset e) else otherwise

  -- `ChooseHost`: the host, or nil; `none` is a panic, which a nil subset is, and a nil host of the subset that is
  -- found, whose address is logged. `pick` is what the balancer of a subset chooses, `populated` whether it has hosts
  -- of priority zero. A context or its criteria can be nil.
  unfoldable pub choose_host :
      (S → Option H)
      → (S → Bool)
      → Option (Option SubsetMetadata)
      → Option S
      → LbSubsetMap S
      → Option (Option H)
  unfolding find_subset
  choose_host pick populated none fallback m = choose_fallback pick populated fallback
  choose_host pick populated (some none) fallback m = choose_fallback pick populated fallback
  choose_host pick populated (some (some criteria)) fallback m =
      try_choose_host pick (find_subset criteria m) (choose_fallback pick populated fallback)
