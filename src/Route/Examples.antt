-- ===== src/Route/Examples.antt =====
-- A router that refuses a method and path it already has, and entries to resolve with it.
use kraken_d_operator.Base.{
  ℕ, String, Bool, true, false, ◌&&◌, List, [], ◌∷◌, ◌++◌, any, if◌then◌else◌,
}
use kraken_d_operator.Base.Int.{pos}
use kraken_d_operator.Base.Texts.{codes, text_eq}
use kraken_d_operator.Route.Entries.{NamespacedName, FlatEndpoint}
use kraken_d_operator.Route.Gin.{GinRoute, Gin, RouteRules}

abbrev pub same_route : GinRoute → GinRoute → Bool
same_route a b = text_eq a.method b.method && text_eq a.path b.path

abbrev pub first_comer : Gin
first_comer = record {
  Engine = List GinRoute;
  new = [];
  register = λ e r. if any (same_route r) e then (e, codes "conflict") else (e ++ r ∷ [], []);
}

abbrev pub named : String → NamespacedName
named name = record { namespace = codes "team"; name = codes name }

abbrev pub entry_at : String → String → String → ℕ → FlatEndpoint
entry_at method path name created = record {
  entry = record { endpoint = codes path; method = codes method; others = [] };
  source = named name;
  creation_timestamp_unix = pos created;
  index = 0;
}

-- two endpoints on one gin path by different parameter spellings do not share a path; the third
-- entry repeats the first one's
abbrev pub entries : List FlatEndpoint
entries =
    entry_at "GET" "/v1/users" "young" 30
    ∷ entry_at "" "/v1/users" "old" 10
    ∷ entry_at "POST" "/v1/users" "middle" 20
    ∷ []

abbrev pub rules : RouteRules
rules = record { auto_options = true; ee_wildcards = false }

abbrev pub ee_rules : RouteRules
ee_rules = record { auto_options = true; ee_wildcards = true }

abbrev pub wild_entries : List FlatEndpoint
wild_entries = entry_at "GET" "/v1/users" "young" 30 ∷ entry_at "GET" "/v1/*" "old" 10 ∷ []
