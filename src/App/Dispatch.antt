-- ===== src/App/Dispatch.antt =====
-- Where `appState.ServeHTTP` of cmd/loadbalancer/main.go sends a request, in terms of the configuration.
use balance_x.Routing.Bytes.{codes}
use balance_x.Common.Int.{◌≤ℤ◌}
use balance_x.Routing.Table.First.{IsAnswer, IsBest, route-IsAnswer}
use balance_x.Service.{Manager, new_manager, get, Instance}
use balance_x.Config.{Config, RouterConfig}
use balance_x.App.{Handler, initialize, add_routers, dispatch, App, Target, fallback, to_route}
use balance_x.Routing.Table.{Sorter, Route, route}
use balance_x.Middleware.Builder.{Decoder, new_builder, failed_to_build, success}
use balance_x.Common.Float.{Float64}
use balance_x.Common.{
  String, none, some, true, false, refl, inl, inr, ℕ, ◌≡◌, List, [], Option-cases, sym, ◌∙◌, ap,
  subst₂, Among, ◌⊎◌, subst,
}
use balance_x.App.Complete.{IsTable, add_routers-IsTable}
use balance_x.Middleware.Builder.Cached.{IsSound-new, make_all, calls}
use balance_x.Routing.Matcher.{Request, MatcherFunc, Net}
use balance_x.Routing.Rule.{ok}
use balance_x.Routing.Rule.Parser.{parse_rule}

module _ {F : Type 0} ⦃fl : Float64 F⦄ (decoder : Decoder F) (net : Net)
    (sorter : Sorter (Handler F)) where
  pub initialize-made :
      (now : ℕ) (cfg : Config F) (m : Manager F)
      → new_manager now cfg ≡ some m
      → let r = add_routers decoder net sorter m cfg.routers (new_builder cfg) [] in
        initialize decoder net sorter now cfg ≡ some ((m, r.0), r.1)
  unfolding initialize
  initialize-made now cfg m e = rw (e, initialize) refl

  pub initialize-panic :
      (now : ℕ) (cfg : Config F)
      → new_manager now cfg ≡ none
      → initialize decoder net sorter now cfg ≡ none
  unfolding initialize
  initialize-panic now cfg e = rw (e, initialize) refl

  -- What an initialization without an error leaves.
  record IsSetUp (now : ℕ) (cfg : Config F) (m : Manager F) (routes : List (Route (Handler F)))
      : Type 0 where
    pub managed : new_manager now cfg ≡ some m
    pub tabled : IsTable decoder net sorter cfg m cfg.routers [] routes

  initialize-IsSetUp :
      (now : ℕ) (cfg : Config F) (m : Manager F) (routes : List (Route (Handler F)))
      → initialize decoder net sorter now cfg ≡ some ((m, routes), none)
      → IsSetUp now cfg m routes
  unfolding new_builder
  initialize-IsSetUp now cfg m routes h = elim (Option-cases (new_manager now cfg)) [
    | inl e ↦
        absurd
          (let x : none ≡ some ((m, routes), none) = sym (initialize-panic now cfg e) ∙ h in cc x)
    | inr (m', e) ↦
        let r = add_routers decoder net sorter m' cfg.routers (new_builder cfg) [] in
        let x : some ((m', r.0), r.1) ≡ some ((m, routes), none) =
          sym (initialize-made now cfg m' e) ∙ h in
        let same : m' ≡ m = cc x in
        let table : r.0 ≡ routes = cc x in
        let fine : r.1 ≡ none = cc x in
        record {
          managed = e ∙ ap some same;
          tabled =
              subst₂ (λ n l. IsTable decoder net sorter cfg n cfg.routers [] l) same table
                (add_routers-IsTable decoder net sorter cfg m' cfg.routers (new_builder cfg) []
                  (IsSound-new decoder cfg) refl fine);
        }
  ]

  -- A router of the configuration whose rule parses to a matcher of the request.
  pub record Wants (cfg : Config F) (req : Request) (name : String) (rt : RouterConfig)
      : Type 0 where
    pub configured : Among (name, rt) cfg.routers
    pub rule : MatcherFunc
    pub parsed : parse_rule net (codes rt.rule) ≡ ok rule
    pub matching : rule req ≡ true

  -- The request goes through the router: to the middlewares that it names, around its service.
  pub record GoesTo (cfg : Config F) (m : Manager F) (req : Request) (target : Target F)
      : Type 0 where
    pub name : String
    pub router : RouterConfig
    pub handler : Handler F
    pub wanted : Wants cfg req name router
    pub highest :
        (n : String) (c : RouterConfig) → Wants cfg req n c → c.priority ≤ℤ router.priority
    pub reached : target ≡ to_route handler
    pub chained :
        make_all decoder failed_to_build cfg router.middlewares ≡ success (calls handler.chain)
    pub served : handler.service ≡ router.service
    pub there : (inst : Instance F) × (get router.service m ≡ some inst)

  module _ (now : ℕ) (cfg : Config F) (m : Manager F) (routes : List (Route (Handler F)))
      (set_up : IsSetUp now cfg m routes) (req : Request) where
    abbrev app : App F
    app = record { cfg = cfg; svc_mgr = m; routes = routes }

    wanted_route :
        (n : String) (c : RouterConfig)
        → Wants cfg req n c
        → (q : Route (Handler F)) × Among q routes
          × (q.matches req ≡ true)
          × (q.priority ≡ c.priority)
    wanted_route n c wants =
        let (q, at, fits) = set_up.tabled.covered n c wants.configured in
        let same : ok wants.rule ≡ ok q.matches = sym wants.parsed ∙ fits.ruled in
        let e : wants.rule ≡ q.matches = cc same in
        (q, at, subst (λ f. f req ≡ true) e wants.matching, fits.ranked)

    dispatch-found :
        (r : Route (Handler F)) → route req routes ≡ some r → dispatch req app ≡ to_route r.handler
    unfolding dispatch
    dispatch-found r e = rw (e, dispatch) refl

    dispatch-none : route req routes ≡ none → dispatch req app ≡ fallback (get "default" m)
    unfolding dispatch
    dispatch-none e = rw (e, dispatch) refl

    answer : IsAnswer req routes (route req routes)
    answer = route-IsAnswer req routes (set_up.tabled.ordered tt)

    best-GoesTo :
        (r : Route (Handler F))
        → route req routes ≡ some r
        → IsBest req routes r
        → GoesTo cfg m req (dispatch req app)
    best-GoesTo r e (at, hits, best) = elim (set_up.tabled.explained r at) [
      | inl nowhere ↦ absurd nowhere
      | inr (n, c, configured, fits) ↦ record {
        name = n;
        router = c;
        handler = r.handler;
        wanted = record {
          configured = configured;
          rule = r.matches;
          parsed = fits.ruled;
          matching = hits;
        };
        highest = λ n' c' wants.
            let (q, at_q, hits_q, same) = wanted_route n' c' wants in
            subst₂ (λ x y. x ≤ℤ y) same fits.ranked (best q at_q hits_q).0;
        reached = dispatch-found r e;
        chained = fits.chained;
        served = fits.served_by;
        there = fits.there;
      }
    ]

    none-wanted :
        route req routes ≡ none
        → ((q : Route (Handler F)) → Among q routes → q.matches req ≡ false)
        → ((n : String) (c : RouterConfig) → ¬ Wants cfg req n c)
          × (dispatch req app ≡ fallback (get "default" m))
    none-wanted e no_match = (
      (λ n c wants.
          let (q, at, hits, same) = wanted_route n c wants in
          let x : true ≡ false = sym hits ∙ no_match q at in cc x),
      dispatch-none e,
    )

  -- Let an initialization report no error. A request for which routers of the configuration have a
  -- rule that matches goes to one of those, none with a higher priority: to the service that it names,
  -- which exists, through the middlewares that it names, as the configuration defines them. If there
  -- is no such router, the request goes to the service "default", or gets the error 502 if there is
  -- none.
  pub dispatch-GoesTo :
      (now : ℕ) (cfg : Config F) (m : Manager F) (routes : List (Route (Handler F)))
      → initialize decoder net sorter now cfg ≡ some ((m, routes), none)
      → (req : Request)
      → let target = dispatch req (record { cfg = cfg; svc_mgr = m; routes = routes }) in
        GoesTo cfg m req target
        ⊎ (((n : String) (c : RouterConfig) → ¬ Wants cfg req n c)
            × (target ≡ fallback (get "default" m)))
  dispatch-GoesTo now cfg m routes h req =
      let set_up = initialize-IsSetUp now cfg m routes h in
      elim (Option-cases (route req routes)) [
        | inl e ↦ inr (
            none-wanted now cfg m routes set_up req e
              (subst (IsAnswer req routes) e (answer now cfg m routes set_up req)))
        | inr (r, e) ↦ inl (
            best-GoesTo now cfg m routes set_up req r e
              (subst (IsAnswer req routes) e (answer now cfg m routes set_up req)))
      ]
