-- ===== src/App/Routed.antt =====
-- The table that `initialize` of cmd/loadbalancer/main.go leaves when it reports no error.
use balance_x.Common.Dict.{Dict}
use balance_x.Middleware.Builder.Cached.{make_all, calls}
use balance_x.Service.{Manager, Instance, get}
use balance_x.Config.{Config, RouterConfig}
use balance_x.App.{
  Handler, add_resolved, Made, add_routers, bad_rule, resolve_middlewares, AppError,
  unknown_service,
}
use balance_x.Routing.Table.{Sorter, Route, add_route}
use balance_x.Routing.Matcher.{Net, MatcherFunc}
use balance_x.Middleware.Builder.{Decoder, Outcome, failure, success, failed_to_build, Builder}
use balance_x.Common.Float.{Float64}
use balance_x.Common.{String, none, some, List, ◌≡◌, inl, ◌++◌, ◌∷◌, inr, [], sym, refl, ◌∙◌, ap}
use balance_x.Routing.Rule.{RuleError, ok, err, Result-cases}
use balance_x.Routing.Bytes.{codes}
use balance_x.Routing.Rule.Parser.{parse_rule}

module _ {F : Type 0} ⦃fl : Float64 F⦄ (decoder : Decoder F) (net : Net)
    (sorter : Sorter (Handler F)) (cfg : Config F) (m : Manager F) where
  -- The route says what the router of this name says: its rule, its priority, its middlewares, made
  -- from the configuration, and a service that there is.
  pub record IsRouteOf (name : String) (rt : RouterConfig) (r : Route (Handler F)) : Type 0 where
    pub named : r.name ≡ name
    pub ranked : r.priority ≡ rt.priority
    pub ruled : parse_rule net (codes rt.rule) ≡ ok r.matches
    pub served_by : r.handler.service ≡ rt.service
    pub chained :
        make_all decoder failed_to_build cfg rt.middlewares ≡ success (calls r.handler.chain)
    pub there : (inst : Instance F) × (get rt.service m ≡ some inst)

  abbrev pub new_route : String → RouterConfig → List (Made F) → MatcherFunc → Route (Handler F)
  new_route name rt ms f = record {
    name = name;
    rule_string = codes rt.rule;
    priority = rt.priority;
    middlewares = rt.middlewares;
    service = rt.service;
    matches = f;
    handler = record { chain = ms; service = rt.service };
  }

  -- What comes of a router that the loop has dealt with, and what happens to the table.
  pub record IsAdded (name : String) (rt : RouterConfig) (out : Outcome (List (Made F)))
      (routes added : List (Route (Handler F))) : Type 0 where
    pub ms : List (Made F)
    pub matcher : MatcherFunc
    pub built : out ≡ success ms
    pub parsed : parse_rule net (codes rt.rule) ≡ ok matcher
    pub sorted_in : added ≡ sorter.sort (routes ++ new_route name rt ms matcher ∷ [])

  add_resolved-parsed :
      (name : String) (rt : RouterConfig) (ms : List (Made F)) (f : MatcherFunc)
      (routes : List (Route (Handler F)))
      → parse_rule net (codes rt.rule) ≡ ok f
      → add_resolved net sorter name rt (success ms) routes
        ≡ (sorter.sort (routes ++ new_route name rt ms f ∷ []), none)
  unfolding add_resolved add_route
  add_resolved-parsed name rt ms f routes p = rw (p, add_resolved, add_route) refl

  add_resolved-refused :
      (name : String) (rt : RouterConfig) (ms : List (Made F)) (e : RuleError)
      (routes : List (Route (Handler F)))
      → parse_rule net (codes rt.rule) ≡ err e
      → add_resolved net sorter name rt (success ms) routes ≡ (routes, some (bad_rule name e))
  unfolding add_resolved add_route
  add_resolved-refused name rt ms e routes p = rw (p, add_resolved, add_route) refl

  pub add_resolved-IsAdded :
      (name : String) (rt : RouterConfig) (out : Outcome (List (Made F)))
      (routes : List (Route (Handler F)))
      → (add_resolved net sorter name rt out routes).1 ≡ none
      → IsAdded name rt out routes (add_resolved net sorter name rt out routes).0
  unfolding add_resolved
  add_resolved-IsAdded name rt (failure e) routes h = cc
  add_resolved-IsAdded name rt (success ms) routes h =
      elim (Result-cases (parse_rule net (codes rt.rule))) [
        | inl (e, p) ↦ absurd (
            let failed : none ≡ some (bad_rule name e) =
              sym h ∙ ap (λ r. r.1) (add_resolved-refused name rt ms e routes p) in
            cc failed)
        | inr (f, p) ↦ record {
          ms = ms;
          matcher = f;
          built = refl;
          parsed = p;
          sorted_in = ap (λ r. r.0) (add_resolved-parsed name rt ms f routes p);
        }
      ]

  -- The loop with no service, with an error in its body, and without either.
  pub add_routers-unknown :
      (name : String) (rt : RouterConfig) (rest : Dict RouterConfig) (b : Builder F)
      (routes : List (Route (Handler F)))
      → get rt.service m ≡ none
      → add_routers decoder net sorter m ((name, rt) ∷ rest) b routes
        ≡ (routes, some (unknown_service name rt.service))
  unfolding add_routers
  add_routers-unknown name rt rest b routes e = rw (e, add_routers) refl

  pub add_routers-failed :
      (name : String) (rt : RouterConfig) (rest : Dict RouterConfig) (b : Builder F)
      (routes : List (Route (Handler F))) (inst : Instance F) (error : AppError)
      → get rt.service m ≡ some inst
      → let added =
          add_resolved net sorter name rt (resolve_middlewares decoder rt.middlewares b).0 routes in
        added.1 ≡ some error → add_routers decoder net sorter m ((name, rt) ∷ rest) b routes ≡ added
  unfolding add_routers
  add_routers-failed name rt rest b routes inst error e f = rw (e, f, add_routers) refl

  pub add_routers-passed :
      (name : String) (rt : RouterConfig) (rest : Dict RouterConfig) (b : Builder F)
      (routes : List (Route (Handler F))) (inst : Instance F)
      → get rt.service m ≡ some inst
      → let resolved = resolve_middlewares decoder rt.middlewares b in
        let added = add_resolved net sorter name rt resolved.0 routes in
        added.1 ≡ none
        → add_routers decoder net sorter m ((name, rt) ∷ rest) b routes
          ≡ add_routers decoder net sorter m rest resolved.1 added.0
  unfolding add_routers
  add_routers-passed name rt rest b routes inst e f = rw (e, f, add_routers) refl
