-- ===== src/App/Reload.antt =====
-- What `reload` of cmd/loadbalancer/main.go leaves when it reports an error.
use balance_x.App.Dispatch.{initialize-panic, initialize-made}
use balance_x.Service.Dashboard.{stop}
use balance_x.Config.{Config}
use balance_x.Service.{Manager, new_manager}
use balance_x.Common.Int.{ℤ}
use balance_x.App.{Handler, swap, reload, App, AppError, bad_config, initialize, add_routers}
use balance_x.Routing.Table.{Sorter, Route}
use balance_x.Routing.Matcher.{Net}
use balance_x.Middleware.Builder.{Decoder, new_builder}
use balance_x.Common.Float.{Float64}
use balance_x.Common.{
  String, none, some, refl, inl, inr, ◌≡◌, ◌⊎◌, Option, ℕ, List, sym, ◌∙◌, Option-cases, ap, [],
  subst₂, ap₂,
}
use mathlib.Core.Option
use balance_x.Config.Validate
use balance_x.Config.Validate.{Error, load}

load-cases :
    {A : Type 0} (r : Validate.Result A)
    → ((e : Error) × (r ≡ Validate.err e)) ⊎ ((a : A) × (r ≡ Validate.ok a))
load-cases (Validate.ok a) = inr (a, refl)
load-cases (Validate.err e) = inl (e, refl)

module _ {F : Type 0} ⦃fl : Float64 F⦄ (decoder : Decoder F) (net : Net)
    (sorter : Sorter (Handler F)) (port_text : ℤ → String) where
  reload-refused :
      (parsed : Option (Config F)) (now : ℕ) (app : App F) (e : Error)
      → load port_text parsed ≡ Validate.err e
      → reload decoder net sorter port_text parsed now app ≡ some (app, some (bad_config e))
  unfolding reload
  reload-refused parsed now app e h = rw (h, reload) refl

  reload-loaded :
      (parsed : Option (Config F)) (now : ℕ) (app : App F) (cfg : Config F)
      → load port_text parsed ≡ Validate.ok cfg
      → reload decoder net sorter port_text parsed now app
        ≡ Option.map
            (swap decoder net sorter (stop app.svc_mgr) cfg)
            (initialize decoder net sorter now cfg)
  unfolding reload
  reload-loaded parsed now app cfg h = rw (h, reload) refl

  swap-kept :
      (old : Manager F) (cfg : Config F) (m : Manager F) (routes : List (Route (Handler F)))
      (o : Option AppError) (after : App F) (e : AppError)
      → swap decoder net sorter old cfg ((m, routes), o) ≡ (after, some e)
      → (cfg ≡ after.cfg) × (m ≡ after.svc_mgr) × (routes ≡ after.routes) × (o ≡ some e)
  unfolding swap
  swap-kept old cfg m routes (some e') after e h =
      (ap (λ p. p.0.cfg) h, ap (λ p. p.0.svc_mgr) h, ap (λ p. p.0.routes) h, ap (λ p. p.1) h)
  swap-kept old cfg m routes none after e h = absurd (cc (ap (λ p. p.1) h))

  -- A reload that reports an error either found no good configuration, and then the program is as it
  -- was; or it found one, its initialization reported the error, and the program has the new
  -- configuration, the manager newly built from it and the routes added before the error: none of the
  -- old ones is put back. The model does not keep the old manager, which has been stopped by then.
  pub reload-error :
      (parsed : Option (Config F)) (now : ℕ) (app after : App F) (e : AppError)
      → reload decoder net sorter port_text parsed now app ≡ some (after, some e)
      → ((bad : Error) × (load port_text parsed ≡ Validate.err bad)
          × (e ≡ bad_config bad)
          × (after ≡ app))
        ⊎ ((load port_text parsed ≡ Validate.ok after.cfg)
            × (new_manager now after.cfg ≡ some after.svc_mgr)
            × (add_routers decoder net sorter after.svc_mgr after.cfg.routers
                  (new_builder after.cfg)
                  []
                ≡ (after.routes, some e)))
  reload-error parsed now app after e h = elim (load-cases (load port_text parsed)) [
    | inl (bad, l) ↦
        let x : some (app, some (bad_config bad)) ≡ some (after, some e) =
          sym (reload-refused parsed now app bad l) ∙ h in
        inl (bad, l, cc x, cc x)
    | inr (cfg, l) ↦ elim (Option-cases (new_manager now cfg)) [
      | inl p ↦ absurd (
          let x : none ≡ some (after, some e) =
            sym (
              ap (Option.map (swap decoder net sorter (stop app.svc_mgr) cfg))
                (initialize-panic decoder net sorter now cfg p))
            ∙ sym (reload-loaded parsed now app cfg l)
            ∙ h in
          cc x)
      | inr (m, made) ↦
          let r = add_routers decoder net sorter m cfg.routers (new_builder cfg) [] in
          let x : some (swap decoder net sorter (stop app.svc_mgr) cfg ((m, r.0), r.1))
              ≡ some (after, some e) =
            sym (
              ap (Option.map (swap decoder net sorter (stop app.svc_mgr) cfg))
                (initialize-made decoder net sorter now cfg m made))
            ∙ sym (reload-loaded parsed now app cfg l)
            ∙ h in
          let same : swap decoder net sorter (stop app.svc_mgr) cfg ((m, r.0), r.1)
              ≡ (after, some e) =
            cc x in
          let kept = swap-kept (stop app.svc_mgr) cfg m r.0 r.1 after e same in
          inr (
            l ∙ ap Validate.ok kept.0,
            subst₂ (λ c n. new_manager now c ≡ some n) kept.0 kept.1 made,
            subst₂
                (λ c n.
                  add_routers decoder net sorter n c.routers (new_builder c) []
                  ≡ (after.routes, some e))
                kept.0 kept.1 (ap₂ (λ x y. (x, y)) kept.2 kept.3),
          )
    ]
  ]
