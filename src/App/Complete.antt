-- ===== src/App/Complete.antt =====
-- `initialize` of cmd/loadbalancer/main.go without an error: the table is that of the configuration.
use balance_x.Service.{Manager, get}
use balance_x.Config.{Config, RouterConfig}
use balance_x.App.{
  Handler, add_routers, Made, resolve_middlewares, AppError, add_resolved, unknown_service,
}
use balance_x.Routing.Table.{Sorter, Route, IsSorted}
use balance_x.Routing.Matcher.{Net}
use balance_x.Middleware.Builder.{Decoder, Builder, Outcome, failed_to_build}
use balance_x.Common.Float.{Float64}
use balance_x.Middleware.Builder.Cached.{
  IsSound, build_all-AreBuilt, AreBuilt, make_all, outcome_calls,
}
use balance_x.Common.{
  refl, Among-last, Among-last-back, inl, inr, String, none, some, List, Among, ◌++◌, ◌∷◌, [], inl,
  inr, ◌⊎◌, ◌≡◌, subst, sym, Option, Option-cases, ◌∙◌, ap,
}
use balance_x.Common.Dict.{Dict}
use balance_x.App.Routed.{
  IsRouteOf, new_route, add_routers-unknown, add_routers-failed, add_routers-passed,
  add_resolved-IsAdded,
}

module _ {F : Type 0} ⦃fl : Float64 F⦄ (decoder : Decoder F) (net : Net)
    (sorter : Sorter (Handler F)) (cfg : Config F) (m : Manager F) where
  -- The table `after` has the routes of `before` and those of the routers, and no others.
  pub record IsTable (routers : Dict RouterConfig) (before after : List (Route (Handler F)))
      : Type 0 where
    pub kept : (r : Route (Handler F)) → Among r before → Among r after
    pub covered :
        (name : String) (rt : RouterConfig)
        → Among (name, rt) routers
        → (r : Route (Handler F)) × Among r after × IsRouteOf decoder net sorter cfg m name rt r
    pub explained :
        (r : Route (Handler F))
        → Among r after
        → Among r before
          ⊎ ((name : String) × (rt : RouterConfig) × Among (name, rt) routers
              × IsRouteOf decoder net sorter cfg m name rt r)
    pub ordered : IsSorted before → IsSorted after

  IsTable-empty : (routes : List (Route (Handler F))) → IsTable [] routes routes
  IsTable-empty routes = record {
    kept = λ r at. at;
    covered = λ name rt at. absurd at;
    explained = λ r at. inl at;
    ordered = λ s. s;
  }

  IsTable-after :
      (name : String) (rt : RouterConfig) (rest : Dict RouterConfig)
      (before middle after : List (Route (Handler F))) (r : Route (Handler F))
      → IsRouteOf decoder net sorter cfg m name rt r
      → middle ≡ sorter.sort (before ++ r ∷ [])
      → IsTable rest middle after
      → IsTable ((name, rt) ∷ rest) before after
  IsTable-after name rt rest before middle after r fits e table = record {
    kept = λ q at. table.kept q (into q (Among-last-back q before r (inl at)));
    covered = λ n c at. elim at [
      | inl same ↦
          subst
            (λ p.
              (q : Route (Handler F)) × Among q after
              × IsRouteOf decoder net sorter cfg m p.0 p.1 q)
            same (r, table.kept r (into r (Among-last-back r before r (inr refl))), fits)
      | inr later ↦ table.covered n c later
    ];
    explained = λ q at. elim (table.explained q at) [
      | inl early ↦ elim (Among-last q before r (out_of q early)) [
        | inl old ↦ inl old
        | inr same ↦
            inr (name, rt, inl refl, subst (IsRouteOf decoder net sorter cfg m name rt) same fits)
      ]
      | inr (n, c, later, f) ↦ inr (n, c, inr later, f)
    ];
    ordered = λ s. table.ordered (subst IsSorted (sym e) (sorter.sort-IsSorted (before ++ r ∷ [])));
  }
    where
      into : (q : Route (Handler F)) → Among q (before ++ r ∷ []) → Among q middle
      into q at = subst (λ l. Among q l) (sym e) ((sorter.Among-sort q (before ++ r ∷ [])).1 at)

      out_of : (q : Route (Handler F)) → Among q middle → Among q (before ++ r ∷ [])
      out_of q at = (sorter.Among-sort q (before ++ r ∷ [])).0 (subst (λ l. Among q l) e at)

  pub add_routers-IsTable :
      (routers : Dict RouterConfig) (b : Builder F) (routes : List (Route (Handler F)))
      → IsSound decoder b
      → b.cfg ≡ cfg
      → (add_routers decoder net sorter m routers b routes).1 ≡ none
      → IsTable routers routes (add_routers decoder net sorter m routers b routes).0
  unfolding add_routers
  add_routers-IsTable [] b routes sound same h = IsTable-empty routes
  add_routers-IsTable ((name, rt) ∷ rest) b routes sound same h =
      elim (Option-cases (get rt.service m)) [
        | inl missing ↦ absurd (
            let e : none ≡ some (unknown_service name rt.service) =
              sym h
              ∙ ap (λ r. r.1)
                  (add_routers-unknown decoder net sorter cfg m name rt rest b routes missing) in
            cc e)
        | inr (inst, found) ↦ elim (Option-cases added.1) [
          | inr (error, failed) ↦ absurd (
              let e : none ≡ some error =
                sym h
                ∙ ap (λ r. r.1)
                    (add_routers-failed decoder net sorter cfg m name rt rest b routes inst error
                      found failed)
                ∙ failed in
              cc e)
          | inl passed ↦
              let step =
                add_routers-passed decoder net sorter cfg m name rt rest b routes inst found
                  passed in
              let one =
                add_resolved-IsAdded decoder net sorter cfg m name rt resolved.0 routes passed in
              subst (λ r. IsTable ((name, rt) ∷ rest) routes r.0) (sym step)
                (IsTable-after name rt rest routes added.0 _
                  (new_route decoder net sorter cfg m name rt one.ms one.matcher)
                  (record {
                    named = refl;
                    ranked = refl;
                    ruled = one.parsed;
                    served_by = refl;
                    chained =
                        ap (λ c. make_all decoder failed_to_build c rt.middlewares) (sym same)
                        ∙ sym built.all_as_made
                        ∙ ap outcome_calls one.built;
                    there = (inst, found);
                  })
                  one.sorted_in
                  (add_routers-IsTable rest resolved.1 added.0 built.sound_stays
                    (built.cfg_stays ∙ same) (sym (ap (λ r. r.1) step) ∙ h)))
        ]
      ]
    where
      resolved : Outcome (List (Made F)) × Builder F
      resolved = resolve_middlewares decoder rt.middlewares b

      added : List (Route (Handler F)) × Option AppError
      added = add_resolved net sorter name rt resolved.0 routes

      built : AreBuilt decoder failed_to_build rt.middlewares b resolved
      built = build_all-AreBuilt decoder failed_to_build rt.middlewares b sound
