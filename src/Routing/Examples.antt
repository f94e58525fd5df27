-- ===== src/Routing/Examples.antt =====
-- The theorems on internal/router at concrete rules and tables. They use a `net` that knows no
-- address and no network.
use balance_x.Routing.Sample.{no_net}
use balance_x.Routing.Rule.Fuel.Descent.{parse_rule-ends}
use balance_x.Routing.Rule.Roundtrip.{parse_rule-print}
use balance_x.Routing.Table.Insertion.{insertion_sorter}
use balance_x.Routing.Table.First.{IsAnswer, Built-IsAnswer, add_route_lem, Built, added, empty}
use balance_x.Routing.Rule.{RuleError, err, next_token, ok, Result, ◌>>=◌, out_of_fuel}
use balance_x.Routing.Table.{Sorter, add_route, Route, route}
use balance_x.Routing.Rule.Args.{create_matcher, parse_args, make_matcher}
use balance_x.Routing.Matcher.{match_method, match_path_prefix, Request, MatcherFunc}
use balance_x.Routing.Rule.Grammar.{
  Expression, closes, expression, print, term, group, IsWrittenFactor, leaf, and_end, or_more,
  or_end, and_more, denote,
}
use balance_x.Routing.Rule.Parser.{parse_rule}
use balance_x.Common.{◌≢◌, List, [], ◌∷◌, ◌≡◌, refl, String, ◌⊎◌, Among, ◌↔◌}
use balance_x.Common.Int.{pos}
use balance_x.Routing.Bytes.{codes, Text, is_letter, text_eq, split_at, drop_last}

abbrev get_text : Text
get_text = codes "Method('get')"

abbrev api_text : Text
api_text = codes "PathPrefix('/api')"

-- (PathPrefix('/api') || Method('get')) && Method('get')
abbrev written : Expression
written =
    expression
      (term
        (group (
          expression (term (leaf api_text (match_path_prefix (codes "/api"))) and_end)
            (or_more (term (leaf get_text (match_method (codes "get"))) and_end) or_end)))
        (and_more (leaf get_text (match_method (codes "get"))) and_end))
      or_end

get_text-IsWritten : IsWrittenFactor no_net (leaf get_text (match_method (codes "get")))
unfolding closes is_letter create_matcher no_net balance_x.Routing.Bytes.split_at
    balance_x.Routing.Bytes.drop_last balance_x.Routing.Rule.Args.parse_args
    balance_x.Routing.Bytes.text_eq balance_x.Routing.Bytes.trim_space
    balance_x.Routing.Rule.Args.make_matcher
get_text-IsWritten = ((refl, refl), refl)

api_text-IsWritten : IsWrittenFactor no_net (leaf api_text (match_path_prefix (codes "/api")))
unfolding closes is_letter create_matcher no_net balance_x.Routing.Bytes.split_at
    balance_x.Routing.Bytes.drop_last balance_x.Routing.Rule.Args.parse_args
    balance_x.Routing.Bytes.text_eq balance_x.Routing.Bytes.trim_space
    balance_x.Routing.Rule.Args.make_matcher
api_text-IsWritten = ((refl, refl), refl)

parse_rule-print_example : parse_rule no_net (print written) ≡ ok (denote written)
parse_rule-print_example =
    parse_rule-print no_net written
      ((((api_text-IsWritten, tt), ((get_text-IsWritten, tt), tt)), (get_text-IsWritten, tt)), tt)

abbrev sorter : Sorter String
sorter = insertion_sorter String

-- A route on a method and, of higher priority, one on a prefix.
abbrev added_to : List (Route String) → Result (List (Route String)) → List (Route String)
added_to rs (ok new) = new
added_to rs (err e) = rs

abbrev first_table : List (Route String)
first_table = added_to [] (add_route no_net sorter "get" get_text (pos 1) [] "web" "first" [])

abbrev table : List (Route String)
table =
    added_to first_table
      (add_route no_net sorter "api" api_text (pos 5) [] "api" "second" first_table)

abbrev request : Text → Text → Request
request method path = record { method = method; path = path; header = λ name. []; remote_addr = [] }

names : List (Route String) → List String
names [] = []
names (r ∷ rs) = r.name ∷ names rs

names_run : names table ≡ "api" ∷ "get" ∷ []
unfolding names add_route insertion_sorter parse_rule closes is_letter create_matcher no_net
    next_token balance_x.Routing.Rule.read_matcher balance_x.Routing.Rule.Parser.parse_expression
    balance_x.Routing.Bytes.split_at balance_x.Routing.Bytes.drop_last parse_args
    balance_x.Routing.Bytes.text_eq balance_x.Routing.Bytes.trim_space make_matcher
    balance_x.Routing.Table.Insertion.sort_routes balance_x.Routing.Table.Insertion.insert_route
    balance_x.Routing.Table.before
names_run = refl

add_route_example :
    ((e : RuleError) × (parse_rule no_net get_text ≡ err e)
      × (add_route no_net sorter "get" get_text (pos 1) [] "web" "first" table ≡ err e))
    ⊎ ((m : MatcherFunc) × (after : List (Route String)) × (parse_rule no_net get_text ≡ ok m)
        × (add_route no_net sorter "get" get_text (pos 1) [] "web" "first" table ≡ ok after)
        × ((q : Route String)
            → Among q after ↔ (
                Among q table
                ⊎ (record {
                  name = "get";
                  rule_string = get_text;
                  priority = pos 1;
                  middlewares = [];
                  service = "web";
                  matches = m;
                  handler = "first";
                }
                    ≡ q))))
add_route_example = add_route_lem no_net sorter "get" get_text (pos 1) [] "web" "first" table

table-Built : Built no_net sorter table
unfolding add_route parse_rule no_net next_token create_matcher parse_args make_matcher text_eq
    split_at drop_last balance_x.Routing.Rule.read_matcher
    balance_x.Routing.Rule.Parser.parse_expression balance_x.Routing.Bytes.trim_space
table-Built =
    added "api" api_text (pos 5) [] "api" "second" first_table table
      (added "get" get_text (pos 1) [] "web" "first" [] first_table empty refl) refl

Built-IsAnswer_example :
    IsAnswer
      (request (codes "GET") (codes "/api/x"))
      table
      (route (request (codes "GET") (codes "/api/x")) table)
Built-IsAnswer_example =
    Built-IsAnswer no_net sorter table (request (codes "GET") (codes "/api/x")) table-Built

-- A rule that does not parse.
parse_rule-ends_example : parse_rule no_net (codes "Path('/') && (") ≢ err out_of_fuel
parse_rule-ends_example = parse_rule-ends no_net (codes "Path('/') && (")
