-- ===== src/Router/Tests.antt =====
-- routematcher.go: the theorems at a concrete configuration.
use psh_mosn.Base.{true, ℕ, Bool, false, none, ◌≡◌, refl, inl, Option, some, List, [], ◌∷◌}
use psh_mosn.Base.Strings.{GoString, text}
use psh_mosn.Router.Routes.{
  Router, RouteRule, path, prefix, sofa, new_virtual_host_impl, get_route_from_entries,
  match_headers, parse_query_string,
}
use psh_mosn.Router.Routes.Query.{print_query, parse_query_string-print}
use psh_mosn.Router.Routes.Choice.{RequestHeaders, First, get_route_from_entries-First}
use psh_mosn.Router.{
  RouteMatcher, new_route_matcher, to_lower, find_virtual_host, find_wildcard_virtual_host,
}
use psh_mosn.Router.Wildcards.{Best}
use psh_mosn.Router.Wildcards.Configured.{ConfiguredWildcard, find_wildcard_virtual_host-Best}
use psh_mosn.Router.Domains.{find_virtual_host-Configured}

-- Three virtual hosts; the second has two wildcards of different lengths.
abbrev config : List (List GoString × Option ℕ)
config =
    (text "A.b" ∷ [], some 1)
    ∷ (text "*.b" ∷ text "*-X.b" ∷ [], some 2)
    ∷ (text "*" ∷ [], some 3)
    ∷ []

abbrev matcher : RouteMatcher ℕ
matcher = record {
  virtual_hosts = (text "a.b", 1) ∷ [];
  default_virtual_host = some 3;
  wildcard_virtual_host_suffixes = (2, (text ".b", 2) ∷ []) ∷ (4, (text "-x.b", 2) ∷ []) ∷ [];
  greater_sorted_wildcard_virtual_host_suffixes = 4 ∷ 2 ∷ [];
}

config_accepted : new_route_matcher config ≡ some matcher
unfolding new_route_matcher
config_accepted = refl

-- The longer of the two wildcards that the host ends in.
wildcard_found : find_wildcard_virtual_host matcher (text "q-x.b") ≡ some 2
unfolding find_wildcard_virtual_host
wildcard_found = refl

find_wildcard_virtual_host-Best_example :
    Best
      (ConfiguredWildcard config)
      (text "q-x.b")
      (find_wildcard_virtual_host matcher (text "q-x.b"))
find_wildcard_virtual_host-Best_example =
    find_wildcard_virtual_host-Best config matcher (text "q-x.b") config_accepted

find_virtual_host-Configured_example :
    find_virtual_host matcher ((text "host", text "a.B") ∷ []) ≡ some 1
unfolding to_lower
find_virtual_host-Configured_example =
    find_virtual_host-Configured config matcher ((text "host", text "a.B") ∷ []) (text "a.B")
      (text "A.b") 1 config_accepted (inl (refl, inl refl)) refl refl refl

abbrev no_regex : GoString → Option (GoString → Bool)
no_regex r = none

-- A route by its prefix, one by its path, and one by the service header.
abbrev routers : List (Router ℕ)
routers =
    record {
      prefix = text "/a/";
      path = [];
      regex = [];
      case_sensitive = true;
      headers = (text "x", text "1") ∷ [];
      route = 1;
    }
    ∷ record {
      prefix = [];
      path = text "/B";
      regex = [];
      case_sensitive = true;
      headers = [];
      route = 2;
    }
    ∷ record {
      prefix = [];
      path = [];
      regex = [];
      case_sensitive = true;
      headers = (text "service", text ".*") ∷ [];
      route = 3;
    }
    ∷ []

abbrev rules : List (RouteRule ℕ)
rules =
    prefix
      (record {
        case_sensitive = false;
        config_headers = [];
        config_query_parameters = [];
        router_action = 1;
      })
      (text "/a/")
    ∷ path
        (record {
          case_sensitive = false;
          config_headers = [];
          config_query_parameters = [];
          router_action = 2;
        })
        (text "/B")
    ∷ sofa
        (record {
          case_sensitive = false;
          config_headers = [];
          config_query_parameters = [];
          router_action = 3;
        })
        (text ".*")
    ∷ []

rules_built : new_virtual_host_impl no_regex routers ≡ some rules
unfolding new_virtual_host_impl
rules_built = refl

abbrev request : RequestHeaders
request = (text "path", text "/b") ∷ (text "service", text "q") ∷ []

get_route_from_entries-First_example :
    First no_regex request routers (get_route_from_entries rules request)
get_route_from_entries-First_example =
    get_route_from_entries-First no_regex routers rules request rules_built

query_parsed :
    parse_query_string (text "a=1& b =2 &c&d=3=4&a=5")
    ≡ (text "a", text "5") ∷ (text "b", text "2") ∷ []
unfolding parse_query_string
query_parsed = refl

-- A header that the request lacks does not keep a route from matching.
missing_header_agrees :
    match_headers [] (
      record { name = text "x"; value = text "1"; is_regex = false; regex_pattern = λ v. false }
      ∷ [])
    ≡ true
unfolding match_headers
missing_header_agrees = refl

parse_query_string-print_example :
    parse_query_string (print_query (text "a") (text "1") ((text "b", []) ∷ []))
    ≡ (text "a", text "1") ∷ (text "b", []) ∷ []
parse_query_string-print_example =
    parse_query_string-print (text "a") (text "1") ((text "b", []) ∷ [])
      ((refl, tt), ((refl, tt), ((refl, tt), (tt, tt)))) ((refl, tt), (tt, tt))
