-- ===== src/Router/Routes/Choice.antt =====
-- virtualhostimpl.go: the route that a virtual host chooses, by its configuration.
use psh_mosn.Base.{
  ◌≡◌, refl, sym, ap, Bool, true, false, ◌&&◌, ◌||◌, not, Option, none, some, List, [], ◌∷◌, ◌++◌,
  arith, if◌then◌else◌,
}
use psh_mosn.Base.Strings.{GoString, str_eq, lookup, text}
use psh_mosn.Router.{or_else, to_lower}
use psh_mosn.Router.Routes.{
  Router, RouteRule, RouteRuleImplBase, sofa, path, prefix, regex, has_prefix, header_passes,
  match_rule, match_route, match_headers, match_query_params, sofa_rules, regex_rules, rules_of,
  add_routes, new_route_rule_impl_base, new_virtual_host_impl, get_route_from_entries,
}

abbrev pub RequestHeaders : Type 0
RequestHeaders = List (GoString × GoString)

abbrev pub names_service : RequestHeaders → List (GoString × GoString) → Bool
names_service headers [] = false
names_service headers ((name, value) ∷ hs) =
    (str_eq name (text "service")
      && header_passes (lookup (text "service") headers)
          (λ v. str_eq v value || str_eq value (text ".*")))
    || names_service headers hs

abbrev pub regex_passes : RequestHeaders → Option (GoString → Bool) → Bool
regex_passes headers none = false
regex_passes headers (some pattern) = header_passes (lookup (text "path") headers) pattern

module _ {A : Type 0} where
  -- What a route of the configuration asks of a request.
  abbrev pub applies : (GoString → Option (GoString → Bool)) → RequestHeaders → Router A → Bool
  applies compile headers r =
      if not (str_eq r.prefix [])
      then header_passes (lookup (text "path") headers) (λ v. has_prefix v r.prefix)
      else if not (str_eq r.path [])
      then header_passes (lookup (text "path") headers) (λ v. str_eq (to_lower v) (to_lower r.path))
      else if not (str_eq r.regex [])
      then regex_passes headers (compile r.regex)
      else names_service headers r.headers

  abbrev pub action_of : RouteRule A → A
  action_of (sofa base v) = base.router_action
  action_of (path base p) = base.router_action
  action_of (prefix base p) = base.router_action
  action_of (regex base r pattern) = base.router_action

  abbrev pub NoneApplies :
      (GoString → Option (GoString → Bool)) → RequestHeaders → List (Router A) → Type 0
  NoneApplies compile headers [] = Unit {0}
  NoneApplies compile headers (r ∷ rs) =
      (applies compile headers r ≡ false) × NoneApplies compile headers rs

  -- The rule has the action of the first route that applies; there is none where no route does.
  abbrev pub First :
      (GoString → Option (GoString → Bool))
      → RequestHeaders
      → List (Router A)
      → Option (RouteRule A)
      → Type 0
  First compile headers routers none = NoneApplies compile headers routers
  First compile headers routers (some rule) =
      (before : List (Router A)) × (r : Router A) × (after : List (Router A)) × (routers
        ≡ before ++ r ∷ after)
      × NoneApplies compile headers before
      × (applies compile headers r ≡ true)
      × (action_of rule ≡ r.route)

  get_route_from_entries-append :
      (s t : List (RouteRule A)) (headers : RequestHeaders)
      → get_route_from_entries (s ++ t) headers
        ≡ or_else (get_route_from_entries s headers) (get_route_from_entries t headers)
  unfolding get_route_from_entries
  get_route_from_entries-append [] t headers = refl
  get_route_from_entries-append (x ∷ s) t headers =
      ground (arith, get_route_from_entries-append s t headers)

  -- A result for rules of one route, whose test is `b`.
  abbrev One : Bool → A → Option (RouteRule A) → Type 0
  One b a none = b ≡ false
  One b a (some rule) = (b ≡ true) × (action_of rule ≡ a)

  One-cong : (b c : Bool) (a : A) (o : Option (RouteRule A)) → b ≡ c → One b a o → One c a o
  One-cong b c a o e h = rw (sym e) h

  One-if :
      (c p q : Bool) (a : A) (s t : List (RouteRule A)) (headers : RequestHeaders)
      → One p a (get_route_from_entries s headers)
      → One q a (get_route_from_entries t headers)
      → One (if c then p else q) a (get_route_from_entries (if c then s else t) headers)
  One-if true p q a s t headers h k = h
  One-if false p q a s t headers h k = k

  One-cons :
      (rule : RouteRule A) (rules : List (RouteRule A)) (headers : RequestHeaders) (q : Bool)
      → One q (action_of rule) (get_route_from_entries rules headers)
      → One
          (match_rule rule headers || q)
          (action_of rule)
          (get_route_from_entries (rule ∷ rules) headers)
  unfolding get_route_from_entries
  One-cons rule rules headers q h = decided (match_rule rule headers)
    where
      decided :
          (b : Bool)
          → One
              (b || q)
              (action_of rule)
              (if b then some rule else get_route_from_entries rules headers)
      decided true = (refl, refl)
      decided false = h

  -- The base of a configured route lets every request pass: its lists of headers and query parameters are empty.
  match_route-new :
      (r : Router A) (headers : RequestHeaders)
      → match_route (new_route_rule_impl_base r) headers ≡ true
  unfolding match_route new_route_rule_impl_base match_headers match_query_params
  match_route-new r headers = ground arith

  -- A rule that first asks the base of its configured route.
  One-based :
      (rule : RouteRule A) (r : Router A) (headers : RequestHeaders) (p : Bool)
      → match_rule rule headers ≡ (match_route (new_route_rule_impl_base r) headers && p)
      → One p (action_of rule) (get_route_from_entries (rule ∷ []) headers)
  unfolding get_route_from_entries
  One-based rule r headers p e =
      let passes : match_route (new_route_rule_impl_base r) headers ≡ true =
        match_route-new r headers in
      let f : (match_rule rule headers || false) ≡ p = ground arith in
      One-cong _ _ _ _ f (One-cons rule [] headers false refl)

  sofa_rules-One :
      (base : RouteRuleImplBase A) (headers : RequestHeaders) (hs : List (GoString × GoString))
      → One
          (names_service headers hs)
          base.router_action
          (get_route_from_entries (sofa_rules base hs) headers)
  unfolding get_route_from_entries match_rule
  sofa_rules-One base headers [] = refl
  sofa_rules-One base headers ((name, value) ∷ hs) =
      let passes =
        header_passes (lookup (text "service") headers)
          (λ v. str_eq v value || str_eq value (text ".*")) in
      let e : (if str_eq name (text "service")
            then passes || names_service headers hs
            else names_service headers hs)
          ≡ ((str_eq name (text "service") && passes) || names_service headers hs) =
        ground arith in
      let rest = sofa_rules-One base headers hs in
      One-cong _ _ _ _ e (
        One-if (str_eq name (text "service")) _ _ _ _ _ headers
          (One-cons (sofa base value) (sofa_rules base hs) headers (names_service headers hs) rest)
          rest)

  regex_rules-One :
      (r : Router A) (headers : RequestHeaders) (text_of : GoString)
      (compiled : Option (GoString → Bool))
      → One (regex_passes headers compiled) r.route (
          get_route_from_entries
            (regex_rules (new_route_rule_impl_base r) text_of compiled)
            headers)
  unfolding get_route_from_entries new_route_rule_impl_base match_rule
  regex_rules-One r headers text_of none = refl
  regex_rules-One r headers text_of (some pattern) =
      One-based (regex (new_route_rule_impl_base r) text_of pattern) r headers
        (header_passes (lookup (text "path") headers) pattern) refl

  rules_of-One :
      (compile : GoString → Option (GoString → Bool)) (r : Router A) (headers : RequestHeaders)
      → One
          (applies compile headers r)
          r.route
          (get_route_from_entries (rules_of compile r) headers)
  unfolding rules_of new_route_rule_impl_base match_rule
  rules_of-One compile r headers =
      let base = new_route_rule_impl_base r in
      One-if (not (str_eq r.prefix [])) _ _ _ _ _ headers
        (One-based (prefix base r.prefix) r headers _ refl)
        (One-if (not (str_eq r.path [])) _ _ _ _ _ headers
          (One-based (path base r.path) r headers _ refl)
          (One-if (not (str_eq r.regex [])) _ _ _ _ _ headers
            (regex_rules-One r headers r.regex (compile r.regex))
            (sofa_rules-One base headers r.headers)))

  First-after :
      (compile : GoString → Option (GoString → Bool)) (headers : RequestHeaders) (r : Router A)
      (rs : List (Router A)) (now later : Option (RouteRule A))
      → One (applies compile headers r) r.route now
      → First compile headers rs later
      → First compile headers (r ∷ rs) (or_else now later)
  First-after compile headers r rs (some rule) later (matched, same) h =
      ([], r, rs, refl, tt, matched, same)
  First-after compile headers r rs none none rejected h = (rejected, h)
  First-after compile headers r rs none (some rule) rejected
        (before, q, after, split, none_before, matched, same) =
      (r ∷ before, q, after, ap (λ l. r ∷ l) split, (rejected, none_before), matched, same)

  add_routes-First :
      (compile : GoString → Option (GoString → Bool)) (routers : List (Router A))
      (headers : RequestHeaders)
      → First compile headers routers (get_route_from_entries (add_routes compile routers) headers)
  unfolding get_route_from_entries
  add_routes-First compile [] headers = tt
  add_routes-First compile (r ∷ rs) headers =
      rw (get_route_from_entries-append (rules_of compile r) (add_routes compile rs) headers) (
        First-after compile headers r rs (get_route_from_entries (rules_of compile r) headers)
          (get_route_from_entries (add_routes compile rs) headers) (rules_of-One compile r headers)
          (add_routes-First compile rs headers))

-- Where a virtual host is built, it answers a request with a rule that has the action of the first
-- configured route that applies, and with none where no route does. A route with a prefix applies by
-- the prefix of the path header alone; else, with a path, by the path header but for upper case; else,
-- with a regular expression, by its match of the path header, and never where it does not compile; else
-- by a header `service`, equal to a header value configured for that name, or any where this is `.*`.
-- The other headers that are configured play no part, nor does the setting of case sensitivity.
pub get_route_from_entries-First :
    {A : Type 0} (compile : GoString → Option (GoString → Bool)) (routers : List (Router A))
    (routes : List (RouteRule A)) (headers : RequestHeaders)
    → new_virtual_host_impl compile routers ≡ some routes
    → First compile headers routers (get_route_from_entries routes headers)
unfolding new_virtual_host_impl
get_route_from_entries-First compile routers routes headers h =
    let e : add_routes compile routers ≡ routes = ground arith in
    rw (sym e) (add_routes-First compile routers headers)
