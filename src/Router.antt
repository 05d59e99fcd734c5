-- ===== src/Router.antt =====
-- pkg/router/routematcher.go: virtual hosts by domain. A virtual host is any type; whether it can be
-- built is part of the configuration. strings.ToLower is that of ASCII strings, as host names are.
pub mod Wildcards
pub mod Domains
pub mod Routes
mod Tests
use psh_mosn.Base.{
  ℕ, zero, suc, ◌+◌, ◌-◌, Bool, true, false, ◌&&◌, ◌||◌, Option, none, some, List, [], ◌∷◌, ◌++◌,
  map, leb, ◌==◌, if◌then◌else◌, length, drop,
}
use psh_mosn.Base.Strings.{GoString, str_eq, lookup, insert, text}

abbrev lower_byte : ℕ → ℕ
lower_byte c = if leb 65 c && leb c 90 then c + 32 else c

unfoldable pub to_lower : GoString → GoString
to_lower s = map lower_byte s

module _ {V : Type 0} where
  -- m[n] of a map with integer keys, which is nil where there is none.
  abbrev pub at_length : ℕ → List (ℕ × List (GoString × V)) → List (GoString × V)
  at_length n [] = []
  at_length n ((k, m) ∷ ws) = if k == n then m else at_length n ws

  abbrev pub put_length :
      ℕ → List (GoString × V) → List (ℕ × List (GoString × V)) → List (ℕ × List (GoString × V))
  put_length n m [] = (n, m) ∷ []
  put_length n m ((k, m') ∷ ws) =
      let rest = put_length n m ws in if k == n then (n, m) ∷ ws else (k, m') ∷ rest

  abbrev pub keys : List (ℕ × List (GoString × V)) → List ℕ
  keys [] = []
  keys ((k, m) ∷ ws) = k ∷ keys ws

-- sort.Sort(sort.Reverse(...))
abbrev pub insert_length : ℕ → List ℕ → List ℕ
insert_length n [] = n ∷ []
insert_length n (k ∷ ks) =
    let rest = insert_length n ks in if leb k n then n ∷ (k ∷ ks) else k ∷ rest

abbrev pub sort_lengths : List ℕ → List ℕ
sort_lengths [] = []
sort_lengths (n ∷ ns) = insert_length n (sort_lengths ns)

-- host[len(host)-n:]
abbrev pub ending : ℕ → GoString → GoString
ending n host = drop (length host - n) host

abbrev pub or_empty : Option GoString → GoString
or_empty none = []
or_empty (some s) = s

pub record RouteMatcher (V : Type 0) : Type 0 where
  pub virtual_hosts : List (GoString × V)
  pub default_virtual_host : Option V
  pub wildcard_virtual_host_suffixes : List (ℕ × List (GoString × V))
  pub greater_sorted_wildcard_virtual_host_suffixes : List ℕ

module _ {V : Type 0} where
  -- The three cases of a domain in lower case; `none` is an error for a domain that is there already.
  abbrev pub if_absent : Option V → RouteMatcher V → Option (RouteMatcher V)
  if_absent (some v) rm = none
  if_absent none rm = some rm

  abbrev pub add_default : V → RouteMatcher V → Option (RouteMatcher V)
  add_default v rm = if_absent rm.default_virtual_host (record rm { default_virtual_host = some v })

  abbrev pub add_wildcard : GoString → V → RouteMatcher V → Option (RouteMatcher V)
  add_wildcard s v rm =
      let ws = rm.wildcard_virtual_host_suffixes in
      let m = at_length (length s) ws in
      if_absent (lookup s m)
        (record rm { wildcard_virtual_host_suffixes = put_length (length s) (insert s v m) ws })

  abbrev pub add_exact : GoString → V → RouteMatcher V → Option (RouteMatcher V)
  add_exact d v rm =
      if_absent (lookup d rm.virtual_hosts)
        (record rm { virtual_hosts = insert d v rm.virtual_hosts })

  unfoldable pub add_domain : GoString → V → RouteMatcher V → Option (RouteMatcher V)
  add_domain [] v rm = add_exact [] v rm
  add_domain (c ∷ []) v rm = if c == 42 then add_default v rm else add_exact (c ∷ []) v rm
  add_domain (c ∷ (d ∷ s)) v rm =
      if c == 42 then add_wildcard (d ∷ s) v rm else add_exact (c ∷ (d ∷ s)) v rm

  abbrev pub then_with :
      {A : Type 0} → Option A → (A → Option (RouteMatcher V)) → Option (RouteMatcher V)
  then_with none f = none
  then_with (some a) f = f a

  unfoldable pub add_domains : List GoString → V → RouteMatcher V → Option (RouteMatcher V)
  unfolding add_domain to_lower
  add_domains [] v rm = some rm
  add_domains (d ∷ ds) v rm = then_with (add_domain (to_lower d) v rm) (add_domains ds v)

  -- The virtual hosts of the configuration: the domains, and what NewVirtualHostImpl makes of it, which
  -- is `none` for an error.
  unfoldable pub add_virtual_hosts :
      List (List GoString × Option V) → RouteMatcher V → Option (RouteMatcher V)
  unfolding add_domains
  add_virtual_hosts [] rm = some rm
  add_virtual_hosts ((ds, vh) ∷ vhs) rm =
      then_with vh (λ v. then_with (add_domains ds v rm) (add_virtual_hosts vhs))

  abbrev pub no_domains : RouteMatcher V
  no_domains = record {
    virtual_hosts = [];
    default_virtual_host = none;
    wildcard_virtual_host_suffixes = [];
    greater_sorted_wildcard_virtual_host_suffixes = [];
  }

  abbrev pub sorted : RouteMatcher V → RouteMatcher V
  sorted rm = record rm {
    greater_sorted_wildcard_virtual_host_suffixes =
        sort_lengths (keys rm.wildcard_virtual_host_suffixes);
  }

  unfoldable pub new_route_matcher : List (List GoString × Option V) → Option (RouteMatcher V)
  unfolding add_virtual_hosts
  new_route_matcher config =
      then_with (add_virtual_hosts config no_domains) (λ rm. some (sorted rm))

  abbrev pub or_else : Option V → Option V → Option V
  or_else none o = o
  or_else (some v) o = some v

  unfoldable pub find_by_lengths : List ℕ → List (ℕ × List (GoString × V)) → GoString → Option V
  find_by_lengths [] ws host = none
  find_by_lengths (n ∷ ns) ws host =
      let rest = find_by_lengths ns ws host in
      if leb (length host) n then rest else or_else (lookup (ending n host) (at_length n ws)) rest

  unfoldable pub find_wildcard_virtual_host : RouteMatcher V → GoString → Option V
  unfolding find_by_lengths
  find_wildcard_virtual_host rm host =
      find_by_lengths rm.greater_sorted_wildcard_virtual_host_suffixes
        rm.wildcard_virtual_host_suffixes host

  abbrev pub is_some : Option V → Bool
  is_some none = false
  is_some (some v) = true

  -- The header MosnHeaderHostKey names the host; a key that is missing gives an empty string.
  unfoldable pub find_virtual_host : RouteMatcher V → List (GoString × GoString) → Option V
  unfolding find_wildcard_virtual_host to_lower
  find_virtual_host rm headers =
      let host = to_lower (or_empty (lookup (text "host") headers)) in
      if length rm.virtual_hosts == 0 && is_some rm.default_virtual_host
      then rm.default_virtual_host
      else or_else (lookup host rm.virtual_hosts)
          (or_else (find_wildcard_virtual_host rm host) rm.default_virtual_host)
