-- ===== src/Upstream/Subsets/Members.antt =====
-- subsetlbimpl.go: which subsets there are after hosts have been added and removed.
use psh_mosn.Base.{
  by_both, ◌≡◌, refl, sym, ap, ◌∙◌, Bool, true, false, ◌&&◌, ◌||◌, Option, none, some, List, [],
  ◌∷◌, if◌then◌else◌, arith, by_true, length, ◌==◌,
}
use psh_mosn.Base.Strings.{GoString, str_eq, str_eq_iff, str_eq_refl, lookup}
use psh_mosn.Upstream.Subsets.{
  SubsetMetadata, LbSubsetMap, extract_subset_metadata, host_matches, found_keys, on_entry, visited,
  bind, visit_keys, visit_hosts, process_subsets,
}
use psh_mosn.Upstream.Subsets.Tree.{same_path, stored, stored-create}

abbrev pub is_empty : SubsetMetadata → Bool
is_empty [] = true
is_empty (kv ∷ kvs) = false

-- Whether one of the selectors makes the path out of the metadata of one of the hosts.
abbrev pub selects : List (List GoString) → SubsetMetadata → SubsetMetadata → Bool
selects [] host q = false
selects (keys ∷ selectors) host q =
    same_path (extract_subset_metadata keys host) q || selects selectors host q

abbrev pub any_selects : List (List GoString) → List SubsetMetadata → SubsetMetadata → Bool
any_selects selectors [] q = false
any_selects selectors (host ∷ hosts) q = selects selectors host q || any_selects selectors hosts q

same_path→eq : (p q : SubsetMetadata) → same_path p q ≡ true → p ≡ q
same_path→eq [] [] h = refl
same_path→eq [] (w ∷ q) h = absurd cc
same_path→eq (v ∷ p) [] h = absurd cc
same_path→eq ((k, v) ∷ p) ((j, w) ∷ q) h =
    ground (arith, same_path→eq p q, str_eq_iff k j, str_eq_iff v w)

and_false : (a : Bool) → (a && false) ≡ false
and_false true = refl
and_false false = refl

or_false : (a : Bool) → a ≡ (a || false)
or_false true = refl
or_false false = refl

and_or : (a b c : Bool) → (a && (b || c)) ≡ ((a && b) || (a && c))
and_or true b c = refl
and_or false b c = refl

or_assoc : (a b c : Bool) → ((a || b) || c) ≡ (a || (b || c))
or_assoc true b c = refl
or_assoc false b c = refl

abbrev pub has : {S : Type 0} → Option S → Bool
has none = false
has (some s) = true

module _ {S : Type 0} (make : SubsetMetadata → S) (update : S → S) where
  -- A path has a subset after a loop over hosts, where `new` says whether one is made for it.
  abbrev Made : SubsetMetadata → Bool → LbSubsetMap S → Option (LbSubsetMap S) → Type 0
  Made q new m o =
      (m' : LbSubsetMap S) × (o ≡ some m') × (has (stored q m') ≡ (has (stored q m) || new))

  has-on_entry :
      (adding same : Bool) (p : SubsetMetadata) (x y : Option S)
      → (same ≡ true → x ≡ y)
      → has (if same then on_entry make update adding p x else y) ≡ (has y || (adding && same))
  has-on_entry true true p none y h = ground (arith, h refl)
  has-on_entry true true p (some s) y h = ground (arith, h refl)
  has-on_entry false true p none y h = ground (arith, h refl)
  has-on_entry false true p (some s) y h = ground (arith, h refl)
  has-on_entry true false p x none h = refl
  has-on_entry true false p x (some s) h = refl
  has-on_entry false false p x none h = refl
  has-on_entry false false p x (some s) h = refl

  visited-Made :
      (adding : Bool) (p q : SubsetMetadata) (m : LbSubsetMap S)
      → is_empty q ≡ false
      → Made q (adding && same_path p q) m (visited (on_entry make update adding) p m)
  visited-Made adding [] [] m h = absurd cc
  visited-Made adding [] (w ∷ q) m h = (m, refl, ground arith)
  visited-Made adding (kv ∷ p) q m h =
      let (m', e, s) = stored-create (on_entry make update adding (kv ∷ p)) kv p q m in
      (
        m',
        e,
        ap has s
            ∙ has-on_entry adding (same_path (kv ∷ p) q) (kv ∷ p) (stored (kv ∷ p) m) (stored q m)
                (λ same. ap (λ r. stored r m) (same_path→eq (kv ∷ p) q same)),
      )

  Made-bind :
      (q : SubsetMetadata) (a b : Bool) (m : LbSubsetMap S) (o : Option (LbSubsetMap S))
      (f : LbSubsetMap S → Option (LbSubsetMap S))
      → Made q a m o
      → ((m' : LbSubsetMap S) → Made q b m' (f m'))
      → (c : Bool) → c ≡ (a || b)
      → Made q c m (bind o f)
  Made-bind q a b m o f (m1, e1, h1) k c split =
      let (m2, e2, h2) = k m1 in
      (
        m2,
        ap (λ x. bind x f) e1 ∙ e2,
        h2
            ∙ ap (λ x. x || b) h1
            ∙ or_assoc (has (stored q m)) a b
            ∙ ap (λ x. has (stored q m) || x) (sym split),
      )

  visit_keys-Made :
      (adding : Bool) (selectors : List (List GoString)) (host q : SubsetMetadata)
      (m : LbSubsetMap S)
      → is_empty q ≡ false
      → Made q
          (adding && selects selectors host q)
          m
          (visit_keys (on_entry make update adding) selectors host m)
  visit_keys-Made adding [] host q m h = (
    m,
    refl,
    or_false (has (stored q m)) ∙ ap (λ x. has (stored q m) || x) (sym (and_false adding)),
  )
  visit_keys-Made adding (keys ∷ selectors) host q m h =
      let p = extract_subset_metadata keys host in
      Made-bind q (adding && same_path p q) (adding && selects selectors host q) m
        (visited (on_entry make update adding) p m)
        (visit_keys (on_entry make update adding) selectors host) (visited-Made adding p q m h)
        (λ m'. visit_keys-Made adding selectors host q m' h)
        (adding && (same_path p q || selects selectors host q))
        (and_or adding (same_path p q) (selects selectors host q))

  visit_hosts-Made :
      (adding : Bool) (selectors : List (List GoString)) (hosts : List SubsetMetadata)
      (q : SubsetMetadata) (m : LbSubsetMap S)
      → is_empty q ≡ false
      → Made q
          (adding && any_selects selectors hosts q)
          m
          (visit_hosts (on_entry make update adding) selectors hosts m)
  visit_hosts-Made adding selectors [] q m h = (
    m,
    refl,
    or_false (has (stored q m)) ∙ ap (λ x. has (stored q m) || x) (sym (and_false adding)),
  )
  visit_hosts-Made adding selectors (host ∷ hosts) q m h =
      Made-bind q (adding && selects selectors host q) (adding && any_selects selectors hosts q) m
        (visit_keys (on_entry make update adding) selectors host m)
        (visit_hosts (on_entry make update adding) selectors hosts)
        (visit_keys-Made adding selectors host q m h)
        (λ m'. visit_hosts-Made adding selectors hosts q m' h)
        (adding && (selects selectors host q || any_selects selectors hosts q))
        (and_or adding (selects selectors host q) (any_selects selectors hosts q))

-- Hosts that are added and removed, in either order, change the tree without a panic. A path of names and values that
-- is not empty has a subset afterwards where it had one before, or where one of the selectors makes it out of the
-- metadata of a host that is added, and not otherwise; removed hosts make and remove none.
pub process_subsets-has :
    {S : Type 0} (make : SubsetMetadata → S) (update : S → S) (added_first : Bool)
    (selectors : List (List GoString)) (added removed : List SubsetMetadata) (m : LbSubsetMap S)
    (q : SubsetMetadata)
    → is_empty q ≡ false
    → (m' : LbSubsetMap S) × (process_subsets added_first make update selectors added removed m
        ≡ some m')
      × (has (stored q m') ≡ (has (stored q m) || any_selects selectors added q))
unfolding process_subsets
process_subsets-has make update true selectors added removed m q h =
    Made-bind make update q (any_selects selectors added q) false m
      (visit_hosts (on_entry make update true) selectors added m)
      (visit_hosts (on_entry make update false) selectors removed)
      (visit_hosts-Made make update true selectors added q m h)
      (λ m'. visit_hosts-Made make update false selectors removed q m' h)
      (any_selects selectors added q) (or_false (any_selects selectors added q))
process_subsets-has make update false selectors added removed m q h =
    Made-bind make update q false (any_selects selectors added q) m
      (visit_hosts (on_entry make update false) selectors removed m)
      (visit_hosts (on_entry make update true) selectors added)
      (visit_hosts-Made make update false selectors removed q m h)
      (λ m'. visit_hosts-Made make update true selectors added q m' h)
      (any_selects selectors added q) refl

found_keys-matches :
    (keys : List GoString) (host : SubsetMetadata) → host_matches (found_keys keys host) host ≡ true
unfolding host_matches
found_keys-matches [] host = refl
found_keys-matches (k ∷ keys) host = at_key (lookup k host) refl (found_keys-matches keys host)
  where
    at_key :
        (o : Option GoString)
        → lookup k host ≡ o
        → host_matches (found_keys keys host) host ≡ true
        → host_matches
            (elim o as (λ x. SubsetMetadata) [ none ↦ [] | some v ↦ (k, v) ∷ found_keys keys host ])
            host
          ≡ true
    at_key none e h = refl
    at_key (some v) e h =
        let rest = host_matches (found_keys keys host) host in
        ap
          (λ o. elim o as (λ x. Bool) [
            | none ↦ false
            | some w ↦ if str_eq w v then rest else false
          ])
          e
        ∙ by_true (λ b. b ≡ true) (str_eq v v) rest false (str_eq_refl v) h

-- The path that a selector makes out of the metadata of a host is one that the host matches: it is one of the hosts of
-- the subset that it makes.
pub extract_subset_metadata-matches :
    (keys : List GoString) (host : SubsetMetadata)
    → host_matches (extract_subset_metadata keys host) host ≡ true
unfolding extract_subset_metadata host_matches
extract_subset_metadata-matches keys host =
    by_both (λ (p : SubsetMetadata). host_matches p host ≡ true)
      (length (found_keys keys host) == length keys) (found_keys keys host) []
      (found_keys-matches keys host) refl
