-- ===== src/Upstream/Subsets/Tests.antt =====
-- The theorems on subsets at two selectors and a few hosts.
use Prim.Native.String.{String}
use psh_mosn.Base.{
  ◌↔◌, ℕ, suc, ◌≡◌, refl, Bool, true, false, not, ◌&&◌, ◌||◌, Option, none, some, List, [], ◌∷◌,
  if◌then◌else◌, ltb,
}
use psh_mosn.Base.Strings.{GoString, text}
use psh_mosn.Upstream.Subsets.{
  SubsetMetadata, LbSubsetMap, no_names, find_subset, find_or_create_subset, process_subsets,
  extract_subset_metadata, choose_host,
}
use psh_mosn.Upstream.Cluster.{contains}
use psh_mosn.Upstream.Subsets.Selectors.{init_set, judge_string_array_equal}
use psh_mosn.Upstream.Subsets.Selectors.Sets.{Sorted}
use psh_mosn.Upstream.Subsets.Selectors.Canonical.{init_set-canonical}
use psh_mosn.Upstream.{Host, health}
use psh_mosn.Upstream.Cluster.Matching.{listed, where_is, Distinct}
use psh_mosn.Upstream.Subsets.Hosts.{update_host_subset}
use psh_mosn.Upstream.Subsets.Hosts.Update.{update_host_subset-listed}
use psh_mosn.Upstream.Subsets.Tree.{same_path, stored, stored-create}
use psh_mosn.Upstream.Subsets.Members.{has, any_selects, process_subsets-has}
use psh_mosn.Upstream.Subsets.Choice.{choose_host-above}

abbrev stage : GoString × GoString
stage = (text "stage", text "prod")

abbrev version : GoString × GoString
version = (text "version", text "1")

-- A subset is a number; a new one is 0, and an update adds one to it.
abbrev make : SubsetMetadata → ℕ
make kvs = 0

abbrev update : ℕ → ℕ
update n = suc n

abbrev first : Option ℕ → Option ℕ
first o = some 7

abbrev empty : LbSubsetMap ℕ
empty = no_names

stored-create_example :
    (m' : LbSubsetMap ℕ) × (find_or_create_subset first (stage ∷ version ∷ []) empty ≡ some m')
    × (stored (stage ∷ []) m' ≡ (
        if same_path (stage ∷ version ∷ []) (stage ∷ [])
        then first (stored (stage ∷ version ∷ []) empty)
        else stored (stage ∷ []) empty))
stored-create_example = stored-create first stage (version ∷ []) (stage ∷ []) empty

abbrev selectors : List (List GoString)
selectors = (text "stage" ∷ text "version" ∷ []) ∷ (text "stage" ∷ []) ∷ []

process_subsets-has_example :
    (m' : LbSubsetMap ℕ) × (process_subsets false make update selectors
        ((version ∷ stage ∷ []) ∷ (stage ∷ []) ∷ [])
        ((stage ∷ []) ∷ [])
        empty
      ≡ some m')
    × (has (stored (stage ∷ []) m') ≡ (
        has (stored (stage ∷ []) empty)
        || any_selects selectors ((version ∷ stage ∷ []) ∷ (stage ∷ []) ∷ []) (stage ∷ [])))
process_subsets-has_example =
    process_subsets-has make update false selectors ((version ∷ stage ∷ []) ∷ (stage ∷ []) ∷ [])
      ((stage ∷ []) ∷ []) empty (stage ∷ []) refl

extracted :
    extract_subset_metadata (text "stage" ∷ text "version" ∷ []) (version ∷ stage ∷ [])
    ≡ stage ∷ version ∷ []
unfolding extract_subset_metadata
extracted = refl

unset : has (stored (stage ∷ []) empty) ≡ false
unfolding find_subset
unset = refl

abbrev chosen : ℕ → Option ℕ
chosen n = some n

abbrev populated : ℕ → Bool
populated n = true

choose_host-above_example :
    (m' : LbSubsetMap ℕ) × (process_subsets true make update
        ((text "stage" ∷ text "version" ∷ []) ∷ [])
        ((version ∷ stage ∷ []) ∷ [])
        []
        empty
      ≡ some m')
    × (choose_host chosen populated (some (some (stage ∷ []))) (some 4) m' ≡ none)
choose_host-above_example =
    choose_host-above chosen populated (some 4) make update true
      (text "stage" ∷ text "version" ∷ []) (version ∷ stage ∷ []) empty stage [] version []
      extracted unset

abbrev host : String → ℕ → Host
host address w = record {
  hostname = [];
  address_string = text address;
  weight = w;
  used = true;
  active_hc_flag = false;
  outlier_check_flag = false;
}

abbrev is_light : Host → Bool
is_light h = ltb h.weight 5

abbrev old : List Host
old = host "a" 1 ∷ host "b" 2 ∷ host "c" 3 ∷ []

abbrev added : List Host
added = host "d" 1 ∷ host "a" 1 ∷ host "e" 9 ∷ []

update_host_subset-listed_example :
    (final : List Host) × (update_host_subset is_light old added (host "b" 2 ∷ [])
      ≡ some (final, where_is health final))
    × Distinct final
    × ((a : Host)
        → listed final a ≡ (
            (listed old a || listed (where_is is_light added) a)
            && not (listed (where_is is_light (host "b" 2 ∷ [])) a)))
update_host_subset-listed_example =
    update_host_subset-listed is_light old added (host "b" 2 ∷ []) (refl, (refl, (refl, tt)))

init_set-canonical_example :
    Sorted (init_set (text "b" ∷ text "a" ∷ text "b" ∷ []))
    × ((k : GoString)
        → contains k (init_set (text "b" ∷ text "a" ∷ text "b" ∷ []))
          ≡ contains k (text "b" ∷ text "a" ∷ text "b" ∷ []))
    × ((judge_string_array_equal
            (init_set (text "b" ∷ text "a" ∷ text "b" ∷ []))
            (init_set (text "a" ∷ text "b" ∷ []))
          ≡ true)
        ↔ ((k : GoString)
            → contains k (text "b" ∷ text "a" ∷ text "b" ∷ [])
              ≡ contains k (text "a" ∷ text "b" ∷ [])))
init_set-canonical_example =
    init_set-canonical (text "b" ∷ text "a" ∷ text "b" ∷ []) (text "a" ∷ text "b" ∷ [])
