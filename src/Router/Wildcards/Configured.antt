-- ===== src/Router/Wildcards/Configured.antt =====
-- routematcher.go: the wildcards that a route matcher holds are those of its configuration.
use psh_mosn.Base.{
  ◌<◌, ◌≡◌, sym, ap, ◌∙◌, ◌⊎◌, inl, inr, Option, none, some, List, [], ◌∷◌, length, some_eq,
}
use psh_mosn.Base.Strings.{GoString}
use psh_mosn.Router.{
  RouteMatcher, to_lower, add_domains, add_virtual_hosts, no_domains, sorted, then_with,
  new_route_matcher, find_wildcard_virtual_host,
}
use psh_mosn.Router.Domains.{Configured, then_with_lem}
use psh_mosn.Router.Wildcards.{Wildcard, Best, find_wildcard_virtual_host-stored}
use psh_mosn.Router.Wildcards.Storing.{
  add_domains-keeps_Wildcard, add_domains-Wildcard, add_domains-only,
}

-- A domain that is "*" and then at least one letter, in any case, of a virtual host of the
-- configuration that is built as `v`.
abbrev pub ConfiguredWildcard :
    {V : Type 0} → List (List GoString × Option V) → GoString → V → Type 0
ConfiguredWildcard config s v =
    (d : GoString) × (to_lower d ≡ 42 ∷ s) × (0 < length s) × Configured d v config

module _ {V : Type 0} where
  add_virtual_hosts-keeps_Wildcard :
      (config : List (List GoString × Option V)) (s : GoString) (w : V) (rm r : RouteMatcher V)
      → add_virtual_hosts config rm ≡ some r
      → Wildcard rm s w
      → Wildcard r s w
  unfolding add_virtual_hosts
  add_virtual_hosts-keeps_Wildcard [] s w rm r e h = rw (← some_eq e) h
  add_virtual_hosts-keeps_Wildcard ((ds, vh) ∷ config) s w rm r e h =
      let (v, made, e1) =
        then_with_lem vh (λ v. then_with (add_domains ds v rm) (add_virtual_hosts config)) r e in
      let (rm1, one, others) =
        then_with_lem (add_domains ds v rm) (add_virtual_hosts config) r e1 in
      add_virtual_hosts-keeps_Wildcard config s w rm1 r others
        (add_domains-keeps_Wildcard ds s v w rm rm1 one h)

  -- Every wildcard of the configuration is stored.
  add_virtual_hosts-Wildcard :
      (config : List (List GoString × Option V)) (s : GoString) (w : V) (rm r : RouteMatcher V)
      → add_virtual_hosts config rm ≡ some r
      → ConfiguredWildcard config s w
      → Wildcard r s w
  unfolding add_virtual_hosts
  add_virtual_hosts-Wildcard [] s w rm r e (d, star, long, c) = absurd c
  add_virtual_hosts-Wildcard ((ds, vh) ∷ config) s w rm r e (d, star, long, c) =
      let (v, made, e1) =
        then_with_lem vh (λ v. then_with (add_domains ds v rm) (add_virtual_hosts config)) r e in
      let (rm1, one, others) =
        then_with_lem (add_domains ds v rm) (add_virtual_hosts config) r e1 in
      elim c [
        | inl (built, named) ↦
            let same : v ≡ w = some_eq (sym made ∙ built) in
            add_virtual_hosts-keeps_Wildcard config s w rm1 r others (
              add_domains-Wildcard ds d s w rm rm1 (ap (λ q. add_domains ds q rm) (sym same) ∙ one)
                named star long)
        | inr later ↦ add_virtual_hosts-Wildcard config s w rm1 r others (d, star, long, later)
      ]

  -- What is stored was there before or is a wildcard of the configuration.
  add_virtual_hosts-only :
      (config : List (List GoString × Option V)) (s : GoString) (w : V) (rm r : RouteMatcher V)
      → add_virtual_hosts config rm ≡ some r
      → Wildcard r s w
      → Wildcard rm s w ⊎ ConfiguredWildcard config s w
  unfolding add_virtual_hosts
  add_virtual_hosts-only [] s w rm r e h = let same : rm ≡ r = some_eq e in inl (rw same h)
  add_virtual_hosts-only ((ds, vh) ∷ config) s w rm r e h =
      let (v, made, e1) =
        then_with_lem vh (λ v. then_with (add_domains ds v rm) (add_virtual_hosts config)) r e in
      let (rm1, one, others) =
        then_with_lem (add_domains ds v rm) (add_virtual_hosts config) r e1 in
      elim (add_virtual_hosts-only config s w rm1 r others h) [
        | inr (d, star, long, c) ↦ inr (d, star, long, inr c)
        | inl before ↦ elim (add_domains-only ds s v w rm rm1 one before) [
          | inl k ↦ inl k
          | inr (d, n, star, long, same) ↦ inr (d, star, long, inl (made ∙ ap some same, n))
        ]
      ]

  Best-map :
      (P Q : GoString → V → Type 0) (host : GoString) (o : Option V)
      → ((s : GoString) (v : V) → P s v → Q s v)
      → ((s : GoString) (v : V) → Q s v → P s v)
      → Best P host o
      → Best Q host o
  Best-map P Q host none f g h = λ s v q. h s v (g s v q)
  Best-map P Q host (some v) f g (s, p, ends, most) =
      (s, f s v p, ends, λ t w q. most t w (g t w q))

-- A route matcher that is built from a configuration finds for a host the virtual host of the longest
-- wildcard domain of the configuration, "*" and one letter or more in lower case, whose part behind
-- the "*" the host ends in with something in front; and none where the configuration has no such domain.
pub find_wildcard_virtual_host-Best :
    {V : Type 0} (config : List (List GoString × Option V)) (rm : RouteMatcher V) (host : GoString)
    → new_route_matcher config ≡ some rm
    → Best (ConfiguredWildcard config) host (find_wildcard_virtual_host rm host)
unfolding new_route_matcher
find_wildcard_virtual_host-Best config rm host e =
    let (rm0, built, last) =
      then_with_lem (add_virtual_hosts config no_domains) (λ r. some (sorted r)) rm e in
    rw (← some_eq last) (
      Best-map (Wildcard (sorted rm0)) (ConfiguredWildcard config) host _
        (λ s v h. elim (add_virtual_hosts-only config s v no_domains rm0 built h) [
          | inl k ↦ absurd cc
          | inr c ↦ c
        ])
        (λ s v c. add_virtual_hosts-Wildcard config s v no_domains rm0 built c)
        (find_wildcard_virtual_host-stored rm0 host))
