-- ===== src/Routing/Table.antt =====
-- `Manager` of internal/router/router.go: the table of routes. `Sorter`
-- is what the code uses of `sort.Slice` with the order `before`. A handler is a parameter.
pub mod First
pub mod Insertion
use balance_x.Common.Int.{ℤ, eq_ℤ, ltb_ℤ}
use balance_x.Common.{
  ℕ, Bool, true, false, ◌||◌, ◌&&◌, String, List, [], ◌∷◌, ◌++◌, length, Option, none, some, ◌==◌,
  ltb, Among, All, ◌↔◌, ◌≡◌, if◌then◌else◌,
}
use balance_x.Routing.Bytes.{Text}
use balance_x.Routing.Matcher.{Net, Request, MatcherFunc}
use balance_x.Routing.Rule.{Result, ok, err, ◌>>=◌}
use balance_x.Routing.Rule.Parser.{parse_rule}

pub record Route (H : Type 0) : Type 0 where
  pub name : String
  pub rule_string : Text
  pub priority : ℤ
  pub middlewares : List String
  pub service : String
  pub matches : MatcherFunc
  pub handler : H

-- The order of the table: the higher priority first, and the longer rule among equals.
unfoldable pub before : {H : Type 0} → Route H → Route H → Bool
before a b =
    if eq_ℤ a.priority b.priority
    then ltb (length b.rule_string) (length a.rule_string)
    else ltb_ℤ b.priority a.priority

-- No route stands after one that it goes before.
abbrev pub IsSorted : {H : Type 0} → List (Route H) → Type 0
IsSorted [] = Unit {0}
IsSorted (r ∷ rs) = All (λ q. before q r ≡ false) rs × IsSorted rs

-- `sort.Slice`: the same routes, sorted.
pub record Sorter (H : Type 0) : Type 0 where
  pub sort : List (Route H) → List (Route H)
  pub sort-IsSorted : (rs : List (Route H)) → IsSorted (sort rs)
  pub Among-sort : (r : Route H) (rs : List (Route H)) → Among r (sort rs) ↔ Among r rs

module _ {H : Type 0} (net : Net) (sorter : Sorter H) where
  -- The table after the call, and the error.
  unfoldable pub add_route :
      String → Text → ℤ → List String → String → H → List (Route H) → Result (List (Route H))
  add_route name rule priority middlewares service handler routes = parse_rule net rule >>= λ m.
      ok (
        sorter.sort (
          routes
          ++ record {
            name = name;
            rule_string = rule;
            priority = priority;
            middlewares = middlewares;
            service = service;
            matches = m;
            handler = handler;
          }
            ∷ []))

-- `Manager.Route`: the first route of the table that matches.
unfoldable pub route : {H : Type 0} → Request → List (Route H) → Option (Route H)
route req [] = none
route req (r ∷ rs) = if r.matches req then some r else route req rs
