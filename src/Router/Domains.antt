-- ===== src/Router/Domains.antt =====
-- routematcher.go: a host that is named by a domain of the configuration finds its virtual host.
use psh_mosn.Base.{
  ◌≡◌, refl, sym, ap, ◌∙◌, ◌⊎◌, inl, inr, false, Option, none, some, List, [], ◌∷◌, arith, ◌==◌,
  length, Bool-cases, some_eq,
}
use psh_mosn.Base.Strings.{GoString, str_eq, str_eq→eq, str_eq_refl, lookup, lookup-insert, text}
use psh_mosn.Router.{
  RouteMatcher, to_lower, if_absent, add_exact, add_domain, add_domains, add_virtual_hosts,
  no_domains, sorted, then_with, new_route_matcher, find_virtual_host,
}

-- The domain does not start with '*'.
abbrev pub IsExact : GoString → Type 0
IsExact [] = Unit {0}
IsExact (c ∷ s) = (c == 42) ≡ false

abbrev pub Named : GoString → List GoString → Type 0
Named d [] = ⊥
Named d (e ∷ es) = (d ≡ e) ⊎ Named d es

-- `d` is a domain of a virtual host of the configuration that is built as `v`.
abbrev pub Configured : {V : Type 0} → GoString → V → List (List GoString × Option V) → Type 0
Configured d v [] = ⊥
Configured d v ((ds, vh) ∷ rest) = ((vh ≡ some v) × Named d ds) ⊎ Configured d v rest

module _ {V : Type 0} where
  abbrev Has : RouteMatcher V → GoString → V → Type 0
  Has rm k v = lookup k rm.virtual_hosts ≡ some v

  pub if_absent_lem :
      (o : Option V) (rm r : RouteMatcher V) → if_absent o rm ≡ some r → (o ≡ none) × (rm ≡ r)
  if_absent_lem none rm r e = (refl, some_eq e)
  if_absent_lem (some v) rm r e = absurd cc

  pub then_with_lem :
      {A : Type 0} (o : Option A) (f : A → Option (RouteMatcher V)) (r : RouteMatcher V)
      → then_with o f ≡ some r
      → (a : A) × (o ≡ some a) × (f a ≡ some r)
  then_with_lem none f r e = absurd cc
  then_with_lem (some a) f r e = (a, refl, e)

  add_exact-Has :
      (d : GoString) (v : V) (rm r : RouteMatcher V) → add_exact d v rm ≡ some r → Has r d v
  add_exact-Has d v rm r e =
      let (absent, same) = if_absent_lem (lookup d rm.virtual_hosts) _ r e in
      rw (← same) (rw (lookup-insert d d v rm.virtual_hosts, str_eq_refl d) refl)

  add_exact-keeps :
      (d k : GoString) (v w : V) (rm r : RouteMatcher V)
      → add_exact d v rm ≡ some r
      → Has rm k w
      → Has r k w
  add_exact-keeps d k v w rm r e h =
      let (absent, same) = if_absent_lem (lookup d rm.virtual_hosts) _ r e in
      rw (← same) (
        lookup-insert d k v rm.virtual_hosts ∙ elim (Bool-cases (str_eq d k)) [
          | inl f ↦
              absurd (
                let q = sym absent ∙ ap (λ t. lookup t rm.virtual_hosts) (str_eq→eq d k f) ∙ h in
                cc)
          | inr f ↦ rw f h
        ])

  add_domain-keeps :
      (d k : GoString) (v w : V) (rm r : RouteMatcher V)
      → add_domain d v rm ≡ some r
      → Has rm k w
      → Has r k w
  unfolding add_domain
  add_domain-keeps [] k v w rm r e h = add_exact-keeps [] k v w rm r e h
  add_domain-keeps (c ∷ []) k v w rm r e h = elim (Bool-cases (c == 42)) [
    | inl f ↦
        let (absent, same) = if_absent_lem rm.default_virtual_host _ r (rw f at e) in rw (← same) h
    | inr f ↦ add_exact-keeps (c ∷ []) k v w rm r (rw f at e) h
  ]
  add_domain-keeps (c ∷ (d ∷ s)) k v w rm r e h = elim (Bool-cases (c == 42)) [
    | inl f ↦ let (absent, same) = if_absent_lem _ _ r (rw f at e) in rw (← same) h
    | inr f ↦ add_exact-keeps (c ∷ (d ∷ s)) k v w rm r (rw f at e) h
  ]

  add_domain-Has :
      (d : GoString) (v : V) (rm r : RouteMatcher V)
      → IsExact d
      → add_domain d v rm ≡ some r
      → Has r d v
  unfolding add_domain
  add_domain-Has [] v rm r x e = add_exact-Has [] v rm r e
  add_domain-Has (c ∷ []) v rm r x e = add_exact-Has (c ∷ []) v rm r (rw x at e)
  add_domain-Has (c ∷ (d ∷ s)) v rm r x e = add_exact-Has (c ∷ (d ∷ s)) v rm r (rw x at e)

  add_domains-keeps :
      (ds : List GoString) (k : GoString) (v w : V) (rm r : RouteMatcher V)
      → add_domains ds v rm ≡ some r
      → Has rm k w
      → Has r k w
  unfolding add_domains
  add_domains-keeps [] k v w rm r e h = rw (← some_eq e) h
  add_domains-keeps (d ∷ ds) k v w rm r e h =
      let (rm1, first, rest) =
        then_with_lem (add_domain (to_lower d) v rm) (add_domains ds v) r e in
      add_domains-keeps ds k v w rm1 r rest (add_domain-keeps (to_lower d) k v w rm rm1 first h)

  add_domains-Has :
      (ds : List GoString) (d : GoString) (v : V) (rm r : RouteMatcher V)
      → Named d ds
      → IsExact (to_lower d)
      → add_domains ds v rm ≡ some r
      → Has r (to_lower d) v
  unfolding add_domains
  add_domains-Has [] d v rm r n x e = absurd n
  add_domains-Has (f ∷ ds) d v rm r n x e =
      let (rm1, first, rest) =
        then_with_lem (add_domain (to_lower f) v rm) (add_domains ds v) r e in
      elim n [
        | inl same ↦ add_domains-keeps ds (to_lower d) v v rm1 r rest (
            add_domain-Has (to_lower d) v rm rm1 x
              (ap (λ q. add_domain (to_lower q) v rm) same ∙ first))
        | inr later ↦ add_domains-Has ds d v rm1 r later x rest
      ]

  add_virtual_hosts-keeps :
      (config : List (List GoString × Option V)) (k : GoString) (w : V) (rm r : RouteMatcher V)
      → add_virtual_hosts config rm ≡ some r
      → Has rm k w
      → Has r k w
  unfolding add_virtual_hosts
  add_virtual_hosts-keeps [] k w rm r e h = rw (← some_eq e) h
  add_virtual_hosts-keeps ((ds, vh) ∷ config) k w rm r e h =
      let (v, made, e1) =
        then_with_lem vh (λ v. then_with (add_domains ds v rm) (add_virtual_hosts config)) r e in
      let (rm1, first, rest) =
        then_with_lem (add_domains ds v rm) (add_virtual_hosts config) r e1 in
      add_virtual_hosts-keeps config k w rm1 r rest (add_domains-keeps ds k v w rm rm1 first h)

  add_virtual_hosts-Has :
      (config : List (List GoString × Option V)) (d : GoString) (w : V) (rm r : RouteMatcher V)
      → Configured d w config
      → IsExact (to_lower d)
      → add_virtual_hosts config rm ≡ some r
      → Has r (to_lower d) w
  unfolding add_virtual_hosts
  add_virtual_hosts-Has [] d w rm r c x e = absurd c
  add_virtual_hosts-Has ((ds, vh) ∷ config) d w rm r c x e =
      let (v, made, e1) =
        then_with_lem vh (λ v. then_with (add_domains ds v rm) (add_virtual_hosts config)) r e in
      let (rm1, first, rest) =
        then_with_lem (add_domains ds v rm) (add_virtual_hosts config) r e1 in
      elim c [
        | inl (built, named) ↦
            let same : v ≡ w = some_eq (sym made ∙ built) in
            add_virtual_hosts-keeps config (to_lower d) w rm1 r rest (
              add_domains-Has ds d w rm rm1 named x
                (ap (λ q. add_domains ds q rm) (sym same) ∙ first))
        | inr later ↦ add_virtual_hosts-Has config d w rm1 r later x rest
      ]

  not_empty :
      (k : GoString) (v : V) (m : List (GoString × V))
      → lookup k m ≡ some v
      → (length m == 0) ≡ false
  not_empty k v [] h = absurd cc
  not_empty k v (e ∷ m) h = ground arith

-- A configuration that is accepted loses no domain: a request whose host is a configured domain, in
-- any case of its letters and with no '*' in front, is routed to the virtual host of that domain,
-- whatever other domains, wildcards and default there are.
pub find_virtual_host-Configured :
    {V : Type 0} (config : List (List GoString × Option V)) (rm : RouteMatcher V)
    (headers : List (GoString × GoString)) (host d : GoString) (v : V)
    → new_route_matcher config ≡ some rm
    → Configured d v config
    → IsExact (to_lower d)
    → lookup (text "host") headers ≡ some host
    → to_lower host ≡ to_lower d
    → find_virtual_host rm headers ≡ some v
unfolding new_route_matcher find_virtual_host
find_virtual_host-Configured config rm headers host d v e c x named same =
    let (rm0, built, last) =
      then_with_lem (add_virtual_hosts config no_domains) (λ r. some (sorted r)) rm e in
    let found : lookup (to_lower d) rm.virtual_hosts ≡ some v =
      rw (← some_eq last) (add_virtual_hosts-Has config d v no_domains rm0 c x built) in
    rw (named, same, found, not_empty (to_lower d) v rm.virtual_hosts found) refl
