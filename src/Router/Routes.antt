-- ===== src/Router/Routes.antt =====
-- The routes of a virtual host: pkg/router/virtualhostimpl.go, the rules of routeruleimpl.go, the matchers of
-- configutility.go and ParseQueryString of pkg/protocol/http/httputility.go. regexp.Compile is a
-- parameter, and a compiled pattern the test MatchString. Strings are taken to be ASCII.
pub mod Choice
pub mod Query
use psh_mosn.Base.{
  ℕ, ◌+◌, Bool, true, false, ◌&&◌, ◌||◌, not, Option, none, some, List, [], ◌∷◌, ◌++◌, ◌==◌, leb,
  length, if◌then◌else◌,
}
use psh_mosn.Base.Strings.{GoString, str_eq, lookup, insert, text}
use psh_mosn.Router.{to_lower}

pub record HeaderData : Type 0 where
  pub name : GoString
  pub value : GoString
  pub is_regex : Bool
  pub regex_pattern : GoString → Bool

pub record QueryParameterMatcher : Type 0 where
  pub name : GoString
  pub value : GoString
  pub is_regex : Bool
  pub regex_pattern : GoString → Bool

-- A header that the request lacks is passed over.
abbrev header_agrees : Option GoString → HeaderData → Bool
header_agrees none h = true
header_agrees (some value) h =
    if not h.is_regex then str_eq h.value value else h.regex_pattern value

unfoldable pub match_headers : List (GoString × GoString) → List HeaderData → Bool
match_headers headers [] = true
match_headers headers (h ∷ hs) =
    let rest = match_headers headers hs in
    if header_agrees (lookup h.name headers) h then rest else false

abbrev value_matches : Option GoString → QueryParameterMatcher → Bool
value_matches none q = false
value_matches (some value) q =
    if q.is_regex
    then q.regex_pattern value
    else if str_eq q.value []
    then true
    else str_eq q.value value

unfoldable pub matches : QueryParameterMatcher → List (GoString × GoString) → Bool
matches q params = value_matches (lookup q.name params) q

unfoldable pub match_query_params : List (GoString × GoString) → List QueryParameterMatcher → Bool
unfolding matches
match_query_params params [] = true
match_query_params params (q ∷ qs) =
    let rest = match_query_params params qs in if not (matches q params) then false else rest

-- strings.Split with one byte as the separator.
abbrev pub on_first : ℕ → List GoString → List GoString
on_first a [] = []
on_first a (w ∷ ws) = (a ∷ w) ∷ ws

unfoldable pub split : GoString → ℕ → List GoString
split [] sep = [] ∷ []
split (a ∷ s) sep = let rest = split s sep in if a == sep then [] ∷ rest else on_first a rest

abbrev pub is_space : ℕ → Bool
is_space c = (leb 9 c && leb c 13) || (c == 32)

-- strings.TrimSpace
abbrev pub trim_left : GoString → GoString
trim_left [] = []
trim_left (a ∷ s) = let rest = trim_left s in if is_space a then rest else a ∷ s

abbrev pub trim_right : GoString → GoString
trim_right [] = []
trim_right (a ∷ s) =
    let rest = trim_right s in if str_eq rest [] && is_space a then [] else a ∷ rest

abbrev pub trim_space : GoString → GoString
trim_space s = trim_left (trim_right s)

-- One parameter; one that does not split in two is passed over.
abbrev pub put_param : List GoString → List (GoString × GoString) → List (GoString × GoString)
put_param (k ∷ v ∷ []) params = insert (trim_space k) (trim_space v) params
put_param _ params = params

abbrev pub put_params : List GoString → List (GoString × GoString) → List (GoString × GoString)
put_params [] params = params
put_params (qm ∷ qms) params = put_params qms (put_param (split qm 61) params)

unfoldable pub parse_query_string : GoString → List (GoString × GoString)
unfolding split
parse_query_string query = if str_eq [] query then [] else put_params (split query 38) []

-- v2.Router: its match, and its action of any type. The flag of a configured header, whether its value is a regular
-- expression, is never read.
pub record Router (A : Type 0) : Type 0 where
  pub prefix : GoString
  pub path : GoString
  pub regex : GoString
  pub case_sensitive : Bool
  pub headers : List (GoString × GoString)
  pub route : A

-- The fields that a match reads, and the action.
pub record RouteRuleImplBase (A : Type 0) : Type 0 where
  pub case_sensitive : Bool
  pub config_headers : List HeaderData
  pub config_query_parameters : List QueryParameterMatcher
  pub router_action : A

pub data RouteRule (A : Type 0) : Type 0 where
  sofa path prefix : RouteRuleImplBase A → GoString → RouteRule A
  regex : RouteRuleImplBase A → GoString → (GoString → Bool) → RouteRule A

abbrev query_params : Option GoString → List (GoString × GoString)
query_params none = []
query_params (some query) = parse_query_string query

-- strings.HasPrefix
abbrev pub has_prefix : GoString → GoString → Bool
has_prefix s [] = true
has_prefix [] (b ∷ p) = false
has_prefix (a ∷ s) (b ∷ p) = (a == b) && has_prefix s p

-- A test of a header, which fails where the request lacks it.
abbrev pub header_passes : Option GoString → (GoString → Bool) → Bool
header_passes none test = false
header_passes (some value) test = test value

abbrev sofa_match : GoString → List (GoString × GoString) → Bool
sofa_match match_value headers =
    header_passes (lookup (text "service") headers)
      (λ value. str_eq value match_value || str_eq match_value (text ".*"))

module _ {A : Type 0} where
  unfoldable pub match_route : RouteRuleImplBase A → List (GoString × GoString) → Bool
  unfolding match_headers match_query_params
  match_route base headers =
      let params = query_params (lookup (text "querystring") headers) in
      if not (match_headers headers base.config_headers)
      then false
      else if length params == 0
      then true
      else match_query_params params base.config_query_parameters

  -- strings.EqualFold of ASCII strings compares them in lower case.
  abbrev path_match : RouteRuleImplBase A → GoString → List (GoString × GoString) → Bool
  path_match base p headers =
      match_route base headers
      && header_passes (lookup (text "path") headers) (λ value.
        if base.case_sensitive then str_eq value p else str_eq (to_lower value) (to_lower p))

  abbrev prefix_match : RouteRuleImplBase A → GoString → List (GoString × GoString) → Bool
  prefix_match base p headers =
      match_route base headers
      && header_passes (lookup (text "path") headers) (λ value. has_prefix value p)

  abbrev regex_match : RouteRuleImplBase A → (GoString → Bool) → List (GoString × GoString) → Bool
  regex_match base pattern headers =
      match_route base headers && header_passes (lookup (text "path") headers) pattern

  unfoldable pub match_rule : RouteRule A → List (GoString × GoString) → Bool
  match_rule (sofa base match_value) headers = sofa_match match_value headers
  match_rule (path base p) headers = path_match base p headers
  match_rule (prefix base p) headers = prefix_match base p headers
  match_rule (regex base r pattern) headers = regex_match base pattern headers

  -- NewRouteRuleImplBase: the other fields keep their zero values.
  unfoldable pub new_route_rule_impl_base : Router A → RouteRuleImplBase A
  new_route_rule_impl_base r = record {
    case_sensitive = false;
    config_headers = [];
    config_query_parameters = [];
    router_action = r.route;
  }

  abbrev pub sofa_rules : RouteRuleImplBase A → List (GoString × GoString) → List (RouteRule A)
  sofa_rules base [] = []
  sofa_rules base ((name, value) ∷ hs) =
      let rest = sofa_rules base hs in
      if str_eq name (text "service") then sofa base value ∷ rest else rest

  abbrev regex_rules :
      RouteRuleImplBase A → GoString → Option (GoString → Bool) → List (RouteRule A)
  regex_rules base r none = []
  regex_rules base r (some pattern) = regex base r pattern ∷ []

  -- The rules that one route of the configuration adds.
  unfoldable pub rules_of : (GoString → Option (GoString → Bool)) → Router A → List (RouteRule A)
  unfolding new_route_rule_impl_base
  rules_of compile r =
      let base = new_route_rule_impl_base r in
      if not (str_eq r.prefix [])
      then prefix base r.prefix ∷ []
      else if not (str_eq r.path [])
      then path base r.path ∷ []
      else if not (str_eq r.regex [])
      then regex_rules base r.regex (compile r.regex)
      else sofa_rules base r.headers

  abbrev pub add_routes :
      (GoString → Option (GoString → Bool)) → List (Router A) → List (RouteRule A)
  add_routes compile [] = []
  add_routes compile (r ∷ rs) = rules_of compile r ++ add_routes compile rs

  -- `none` is the error of a virtual host without a rule.
  unfoldable pub new_virtual_host_impl :
      (GoString → Option (GoString → Bool)) → List (Router A) → Option (List (RouteRule A))
  unfolding rules_of
  new_virtual_host_impl compile routers =
      let routes = add_routes compile routers in if length routes == 0 then none else some routes

  unfoldable pub get_route_from_entries :
      List (RouteRule A) → List (GoString × GoString) → Option (RouteRule A)
  unfolding match_rule
  get_route_from_entries [] headers = none
  get_route_from_entries (route ∷ routes) headers =
      let rest = get_route_from_entries routes headers in
      if match_rule route headers then some route else rest
