-- ===== src/App.antt =====
-- cmd/loadbalancer/main.go: `appState`, with `ResolveMiddlewares` of internal/entrypoint/entrypoint.go.
-- `none` is a panic. Go walks the map of routers in any order: that of the list. The log and the
-- dashboard's provider are left out.
pub mod Routed
pub mod Complete
pub mod Dispatch
pub mod Reload
mod Examples
use balance_x.Common.Int.{ℤ}
use balance_x.Routing.Bytes.{codes}
use mathlib.Core.Option
use balance_x.Common.Dict.{Dict}
use balance_x.Service.{Manager, new_manager, get, Instance}
use balance_x.Routing.Table.{Sorter, add_route, Route, route}
use balance_x.Routing.Rule.{RuleError, ok, err}
use balance_x.Common.Float.{Float64}
use balance_x.Routing.Matcher.{Net, Request}
use balance_x.Config.{Config, RouterConfig}
use balance_x.Middleware.Builder.{
  BuildError, Decoder, Made, build_all, Builder, new_builder, Outcome, failed_to_build, failure,
  success,
}
use balance_x.Config.Validate.{Error, load}
use balance_x.Common.{◌∷◌, String, none, some, List, ℕ, Option, []}
use balance_x.Service.Dashboard.{stop, import_from}
use balance_x.Config.Validate

-- A route's handler: the middlewares, the first outermost, around the handler of a service.
pub record Handler (F : Type 0) : Type 0 where
  pub chain : List (Made F)
  pub service : String

pub data AppError : Type 0 where
  bad_config : Error → AppError
  -- The router and what it asks for.
  unknown_service : String → String → AppError
  unresolved : String → BuildError → AppError
  bad_rule : String → RuleError → AppError

pub record App (F : Type 0) : Type 0 where
  pub cfg : Config F
  pub svc_mgr : Manager F
  pub routes : List (Route (Handler F))

module _ {F : Type 0} ⦃fl : Float64 F⦄ (decoder : Decoder F) where
  -- `ResolveMiddlewares`.
  unfoldable pub resolve_middlewares : List String → Builder F → Outcome (List (Made F)) × Builder F
  unfolding build_all
  resolve_middlewares names b = build_all decoder failed_to_build names b

module _ {F : Type 0} (net : Net) (sorter : Sorter (Handler F)) where
  -- The rest of the loop's body, from the middlewares on.
  unfoldable pub add_resolved :
      String
      → RouterConfig
      → Outcome (List (Made F))
      → List (Route (Handler F))
      → List (Route (Handler F)) × Option AppError
  unfolding add_route
  add_resolved name rt (failure e) routes = (routes, some (unresolved name e))
  add_resolved name rt (success ms) routes =
      elim (add_route net sorter name (codes rt.rule) rt.priority rt.middlewares rt.service
        (record { chain = ms; service = rt.service }) routes) [
          | ok added ↦ (added, none)
          | err e ↦ (routes, some (bad_rule name e))
        ]

module _ {F : Type 0} ⦃fl : Float64 F⦄ (decoder : Decoder F) (net : Net)
    (sorter : Sorter (Handler F)) where
  -- The loop over the routers of `initialize`: the table so far, and the error that ended it.
  unfoldable pub add_routers :
      Manager F
      → Dict RouterConfig
      → Builder F
      → List (Route (Handler F))
      → List (Route (Handler F)) × Option AppError
  unfolding resolve_middlewares add_resolved get
  add_routers m [] b routes = (routes, none)
  add_routers m ((name, rt) ∷ rest) b routes =
      let resolved = resolve_middlewares decoder rt.middlewares b in
      let added = add_resolved net sorter name rt resolved.0 routes in
      let later = add_routers m rest resolved.1 added.0 in
      elim (get rt.service m) [
        | none ↦ (routes, some (unknown_service name rt.service))
        | some inst ↦ elim added.1 [ none ↦ later | some e ↦ added ]
      ]

  unfoldable pub initialize :
      ℕ → Config F → Option ((Manager F × List (Route (Handler F))) × Option AppError)
  unfolding new_manager add_routers new_builder
  initialize now cfg = elim (new_manager now cfg) [
    | none ↦ none
    | some m ↦ let r = add_routers m cfg.routers (new_builder cfg) [] in some ((m, r.0), r.1)
  ]

  -- `reload` after the new configuration has been read; the first argument is the old manager.
  unfoldable pub swap :
      Manager F
      → Config F
      → (Manager F × List (Route (Handler F))) × Option AppError
      → App F × Option AppError
  unfolding import_from
  swap old cfg ((m, routes), some e) = (record { cfg = cfg; svc_mgr = m; routes = routes }, some e)
  swap old cfg ((m, routes), none) =
      (record { cfg = cfg; svc_mgr = import_from (some old) m; routes = routes }, none)

  -- `parsed` is what the new file holds, if it can be read.
  unfoldable pub reload :
      (ℤ → String) → Option (Config F) → ℕ → App F → Option (App F × Option AppError)
  unfolding swap load initialize stop
  reload port_text parsed now app = elim (load port_text parsed) [
    | Validate.err e ↦ some (app, some (bad_config e))
    | Validate.ok cfg ↦ Option.map (swap (stop app.svc_mgr) cfg) (initialize now cfg)
  ]

-- What a request gets: a route's handler, the handler of a service, or the error 502.
pub data Target (F : Type 0) : Type 0 where
  to_route : Handler F → Target F
  to_default : Target F
  no_service : Target F

abbrev pub fallback : {F : Type 0} → Option (Instance F) → Target F
fallback none = no_service
fallback (some inst) = to_default

unfoldable pub dispatch : {F : Type 0} → Request → App F → Target F
unfolding route get
dispatch req app = elim (route req app.routes) [
  | some r ↦ to_route r.handler
  | none ↦ fallback (get "default" app.svc_mgr)
]
