-- ===== src/Routing/Table/First.antt =====
-- What a table of internal/router/router.go holds after `AddRoute`, and which route `Route` picks.
use balance_x.Routing.Rule.{RuleError, err, ok, Result-cases}
use balance_x.Routing.Matcher.{Request, Net, MatcherFunc}
use balance_x.Routing.Table.{
  Route, before, route, IsSorted, Sorter, Result, add_route, parse_rule, Text, ℤ,
}
use balance_x.Common.{
  length, ◌≤◌, none, some, ◌++◌, true, false, inl, inr, arith, refl, sym, ◌∙◌, List, [], ◌∷◌, ◌≡◌,
  ◌↔◌, true, false, Among, All, Option, String, inl, arith, All-Among, some, Bool-cases, subst, sym,
  ◌⊎◌, inr, refl, Among-last, Among-last-back,
}
use balance_x.Common.Int.{◌≤ℤ◌}

-- A route does not go before itself.
before_irrefl : {H : Type 0} (r : Route H) → before r r ≡ false
unfolding before
before_irrefl r = ground arith

-- `q` has no higher priority than `r` and, at the same priority, no longer rule.
abbrev pub IsNotAhead : {H : Type 0} → Route H → Route H → Type 0
IsNotAhead q r =
    (q.priority ≤ℤ r.priority)
    × (q.priority ≡ r.priority → length q.rule_string ≤ length r.rule_string)

before-IsNotAhead : {H : Type 0} (q r : Route H) → before q r ≡ false → IsNotAhead q r
unfolding before
before-IsNotAhead q r h = (ground arith, λ e. ground arith)

-- A route of the table that matches and that no matching route is ahead of.
abbrev pub IsBest : {H : Type 0} → Request → List (Route H) → Route H → Type 0
IsBest {H} req rs r =
    Among r rs
    × (r.matches req ≡ true)
    × ((q : Route H) → Among q rs → q.matches req ≡ true → IsNotAhead q r)

abbrev pub IsAnswer : {H : Type 0} → Request → List (Route H) → Option (Route H) → Type 0
IsAnswer {H} req rs none = (q : Route H) → Among q rs → q.matches req ≡ false
IsAnswer req rs (some r) = IsBest req rs r

All-Among' :
    {H : Type 0} (r q : Route H) (rs : List (Route H))
    → All (λ x. before x r ≡ false) rs
    → Among q rs
    → before q r ≡ false
All-Among' r q rs h at = All-Among (λ x. before x r ≡ false) q rs h at

route-skip :
    {H : Type 0} (req : Request) (r : Route H) (rs : List (Route H)) (o : Option (Route H))
    → r.matches req ≡ false
    → IsAnswer req rs o
    → IsAnswer req (r ∷ rs) o
route-skip req r rs none skips h =
    λ q at. elim at [ inl e ↦ subst (λ x. x.matches req ≡ false) e skips | inr later ↦ h q later ]
route-skip req r rs (some x) skips (at, hits, best) =
    (inr at, hits, λ q at' m. elim at' [ inl e ↦ cc | inr later ↦ best q later m ])

route-yes :
    {H : Type 0} (req : Request) (r : Route H) (rs : List (Route H))
    → r.matches req ≡ true
    → route req (r ∷ rs) ≡ some r
unfolding route
route-yes req r rs h = rw h

route-no :
    {H : Type 0} (req : Request) (r : Route H) (rs : List (Route H))
    → r.matches req ≡ false
    → route req (r ∷ rs) ≡ route req rs
unfolding route
route-no req r rs h = rw h

pub route-IsAnswer :
    {H : Type 0} (req : Request) (rs : List (Route H))
    → IsSorted rs
    → IsAnswer req rs (route req rs)
unfolding route
route-IsAnswer req [] h = λ q at. absurd at
route-IsAnswer req (r ∷ rs) h = elim (Bool-cases (r.matches req)) [
  | inl hits ↦ subst (IsAnswer req (r ∷ rs)) (sym (route-yes req r rs hits)) (
    inl refl,
    hits,
    λ q at m. elim at [
      | inl e ↦ before-IsNotAhead q r (subst (λ x. before x r ≡ false) e (before_irrefl r))
      | inr later ↦ before-IsNotAhead q r (All-Among' r q rs h.0 later)
    ],
  )
  | inr skips ↦
      subst (IsAnswer req (r ∷ rs)) (sym (route-no req r rs skips))
        (route-skip req r rs (route req rs) skips (route-IsAnswer req rs h.1))
]

-- The tables that calls of `add_route` make of the empty one.
pub data Built {H : Type 0} (net : Net) (sorter : Sorter H) : List (Route H) → Type 0 where
  empty : Built net sorter []
  added :
      (name : String) (rule : Text) (priority : ℤ) (middlewares : List String) (service : String)
      (handler : H) (rs table : List (Route H))
      → Built net sorter rs
      → add_route net sorter name rule priority middlewares service handler rs ≡ ok table
      → Built net sorter table

module _ {H : Type 0} (net : Net) (sorter : Sorter H) where
  -- The route that `add_route` makes of its arguments and the matcher of the rule.
  abbrev made : String → Text → ℤ → List String → String → H → MatcherFunc → Route H
  made name rule priority middlewares service handler m = record {
    name = name;
    rule_string = rule;
    priority = priority;
    middlewares = middlewares;
    service = service;
    matches = m;
    handler = handler;
  }

  add_route-ok :
      (name : String) (rule : Text) (priority : ℤ) (middlewares : List String) (service : String)
      (handler : H) (rs : List (Route H)) (m : MatcherFunc)
      → parse_rule net rule ≡ ok m
      → add_route net sorter name rule priority middlewares service handler rs
        ≡ ok (sorter.sort (rs ++ made name rule priority middlewares service handler m ∷ []))
  unfolding add_route
  add_route-ok name rule priority middlewares service handler rs m h = rw h

  add_route-err :
      (name : String) (rule : Text) (priority : ℤ) (middlewares : List String) (service : String)
      (handler : H) (rs : List (Route H)) (e : RuleError)
      → parse_rule net rule ≡ err e
      → add_route net sorter name rule priority middlewares service handler rs ≡ err e
  unfolding add_route
  add_route-err name rule priority middlewares service handler rs e h = rw h

  ok_inj : {A : Type 0} (a b : A) → Path (Result A) (ok a) (ok b) → a ≡ b
  ok_inj a b h = cc

  err_ok : {A : Type 0} (e : RuleError) (a : A) → Path (Result A) (err e) (ok a) → ⊥
  err_ok e a h = cc

  Built-IsSorted : (rs : List (Route H)) → Built net sorter rs → IsSorted rs
  Built-IsSorted rs empty = tt
  Built-IsSorted rs (added name rule priority middlewares service handler old new h e) =
      elim (Result-cases (parse_rule net rule)) [
        | inl (x, p) ↦ absurd (
            err_ok _ _
              (sym (add_route-err name rule priority middlewares service handler old x p) ∙ e))
        | inr (m, p) ↦
            subst IsSorted
              (ok_inj _ _
                (sym (add_route-ok name rule priority middlewares service handler old m p) ∙ e))
              (sorter.sort-IsSorted _)
      ]

  -- For any table and any `Sorter`, a call of `add_route` does one of two things. When the rule does not
  -- parse, it is the parser's error. When the rule parses to a matcher, it succeeds, and a route is in
  -- the new table exactly when it is in the old one or is the new route, which has that matcher.
  pub add_route_lem :
      (name : String) (rule : Text) (priority : ℤ) (middlewares : List String) (service : String)
      (handler : H) (rs : List (Route H))
      → ((e : RuleError) × (parse_rule net rule ≡ err e)
          × (add_route net sorter name rule priority middlewares service handler rs ≡ err e))
        ⊎ ((m : MatcherFunc) × (table : List (Route H)) × (parse_rule net rule ≡ ok m)
            × (add_route net sorter name rule priority middlewares service handler rs ≡ ok table)
            × ((q : Route H)
                → Among q table
                  ↔ (Among q rs ⊎ (made name rule priority middlewares service handler m ≡ q))))
  add_route_lem name rule priority middlewares service handler rs =
      elim (Result-cases (parse_rule net rule)) [
        | inl (x, p) ↦
            inl (x, p, add_route-err name rule priority middlewares service handler rs x p)
        | inr (m, p) ↦ inr (
          m,
          _,
          p,
          add_route-ok name rule priority middlewares service handler rs m p,
          λ q. (
            λ at. Among-last q rs _ ((sorter.Among-sort q _).0 at),
            λ h. (sorter.Among-sort q _).1 (Among-last-back q rs _ h),
          ),
        )
      ]

  -- For every table that calls of `add_route` build from the empty one, with any `Sorter`, and every
  -- request: when `route` answers with a route, it is one of the table, it matches, and no route of the
  -- table that matches has a higher priority or, at the same priority, a longer rule; when it answers
  -- with none, no route of the table matches.
  pub Built-IsAnswer :
      (rs : List (Route H)) (req : Request) → Built net sorter rs → IsAnswer req rs (route req rs)
  Built-IsAnswer rs req h = route-IsAnswer req rs (Built-IsSorted rs h)
