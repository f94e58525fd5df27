-- ===== src/Service/Built.antt =====
-- The manager that internal/service/manager.go builds from a complete configuration: its handlers
-- answer.
use balance_x.Proxy.Outcomes.{serve_http_lem}
use balance_x.Http.{Action}
use balance_x.Proxy.{Answer, Incoming, serve_http, unavailable}
use balance_x.Common.Int.{ℤ}
use balance_x.Config.Complete.{IsFullService}
use balance_x.Balancer.Router.{no_healthy_servers}
use balance_x.Config.{ServiceConfig, Config}
use balance_x.Common.Float.{Float64}
use balance_x.Service.{Instance, algorithm, build_all, new_manager, get, Manager}
use mathlib.Core.Option
use balance_x.Common.{
  String, some, true, false, List, ◌≡◌, ℕ, All, ◌⊎◌, ◌∷◌, inl, Bool-cases, map, str_eq, inr, ◌∙◌,
  [], refl, arith, Option, subst, sym, ◌≤◌, ap,
}
use balance_x.Common.Dict.{
  Dict, lookup, insert, lookup-insert, AllValues, AllValues-insert, AllValues-lookup,
}
use balance_x.Service.Ready.{IsReady, build_instance-IsReady, HasIntervals}

module _ {F : Type 0} ⦃fl : Float64 F⦄ (draws : ℕ → F) where
  -- What the manager promises of an instance: it is ready, and its URLs are not empty.
  abbrev pub Answers : Instance F → Type 0
  Answers inst = IsReady draws inst × All (λ url. str_eq url "" ≡ false) inst.router.servers

  abbrev pub IsNamed : ServiceConfig → Type 0
  IsNamed svc = All (λ url. str_eq url "" ≡ false) (map (λ s. s.url) svc.servers)

  abbrev pub HasKey : {V : Type 0} → String → Dict V → Type 0
  HasKey {V} name d = (v : V) × (lookup name d ≡ some v)

  record AreMade (services : Dict ServiceConfig) (before : Dict (Instance F))
      (made : Option (Dict (Instance F))) : Type 0 where
    pub instances : Dict (Instance F)
    pub made_them : made ≡ some instances
    pub all_answer : AllValues Answers instances
    pub all_there :
        (name : String) → (HasKey name services ⊎ HasKey name before) → HasKey name instances

  HasKey-insert :
      (name other : String) (inst : Instance F) (d : Dict (Instance F))
      → ((str_eq name other ≡ true) ⊎ HasKey other d)
      → HasKey other (insert name inst d)
  HasKey-insert name other inst d h = elim (Bool-cases (str_eq name other)) [
    | inl e ↦ (inst, lookup-insert name other inst d ∙ rw e refl)
    | inr e ↦ elim h [
      | inl same ↦ absurd (ground (arith, e, same))
      | inr (v, found) ↦ (v, lookup-insert name other inst d ∙ rw e found)
    ]
  ]

  HasKey-empty : {V : Type 0} (name : String) → ¬ HasKey {V = V} name []
  unfolding lookup
  HasKey-empty name (v, e) = cc e

  HasKey-tail :
      {V : Type 0} (name other : String) (v : V) (d : Dict V)
      → HasKey other ((name, v) ∷ d)
      → (str_eq name other ≡ true) ⊎ HasKey other d
  unfolding lookup
  HasKey-tail name other v d (w, e) = elim (Bool-cases (str_eq name other)) [
    | inl same ↦ inl same
    | inr apart ↦ inr (w, rw apart at e)
  ]

  build_all-AreMade :
      (now : ℕ) (services : Dict ServiceConfig) (before : Dict (Instance F))
      → AllValues IsFullService services
      → AllValues IsNamed services
      → AllValues HasIntervals services
      → AllValues Answers before
      → AreMade services before (build_all now services before)
  unfolding build_all
  build_all-AreMade now [] before full named ticking answer = record {
    instances = before;
    made_them = refl;
    all_answer = answer;
    all_there = λ name h. elim h [ inl k ↦ absurd (HasKey-empty name k) | inr k ↦ k ];
  }
  build_all-AreMade now ((name, svc) ∷ services) before full named ticking answer =
      let (inst, e, same, ready) = build_instance-IsReady draws now name svc full.0 ticking.0 in
      let rest = build_all-AreMade now services (insert name inst before) full.1 named.1 ticking.1 (
        AllValues-insert Answers name inst before
          (
            ready,
            subst (All (λ url. str_eq url "" ≡ false)) (sym ready.serves)
                (subst IsNamed (sym same) named.0),
          )
          answer) in
      record {
        instances = rest.instances;
        made_them = rw (e, build_all) rest.made_them;
        all_answer = rest.all_answer;
        all_there = λ other h. rest.all_there other (elim h [
          | inl k ↦ elim (HasKey-tail name other svc services k) [
            | inl here ↦ inr (HasKey-insert name other inst before (inl here))
            | inr later ↦ inl later
          ]
          | inr k ↦ inr (HasKey-insert name other inst before (inr k))
        ]);
      }

  serve_http-answers :
      (itoa : ℤ → String) (backend : String → Answer) (req : Incoming) (read : String → ℕ) (now : ℕ)
      (inst : Instance F)
      → IsReady draws inst
      → All (λ url. str_eq url "" ≡ false) inst.router.servers
      → ((url : String) → read url ≤ now)
      → (actions : List Action) × ((serve_http itoa
            (algorithm draws)
            backend
            req
            read
            now
            inst.router).1
          ≡ some actions)
  serve_http-answers itoa backend req read now inst ready urls later =
      elim (serve_http_lem itoa (algorithm draws) backend req read now inst.router ready.selects
        ready.wired urls later) [
          | inl (target, eligible, served) ↦ (served.0, served.3)
          | inr (e, nobody) ↦ (unavailable no_healthy_servers, ap (λ o. o.1) e)
        ]

  -- Take a configuration whose services are full, as `setDefaults` leaves them, with a URL for each
  -- server and a positive health-check interval that as nanoseconds fits an int64. The manager is built
  -- from it without a panic, and it has an instance for each service. The handler of the new instance
  -- answers its first request, whatever that is and whatever the backends answer: it does not panic.
  pub new_manager-answers :
      (itoa : ℤ → String) (built_at : ℕ) (cfg : Config F)
      → AllValues IsFullService cfg.services
      → AllValues IsNamed cfg.services
      → AllValues HasIntervals cfg.services
      → (name : String) → HasKey name cfg.services
      → (backend : String → Answer) (req : Incoming) (read : String → ℕ) (now : ℕ)
      → ((url : String) → read url ≤ now)
      → (m : Manager F) × (inst : Instance F) × (actions : List Action) × (new_manager built_at cfg
          ≡ some m)
        × (get name m ≡ some inst)
        × ((serve_http itoa (algorithm draws) backend req read now inst.router).1 ≡ some actions)
  unfolding new_manager get
  new_manager-answers itoa built_at cfg full named ticking name key backend req read now later =
      let made = build_all-AreMade built_at cfg.services [] full named ticking tt in
      let (inst, found) = made.all_there name (inl key) in
      let (ready, urls) = AllValues-lookup Answers name inst made.instances made.all_answer found in
      let (actions, e) = serve_http-answers itoa backend req read now inst ready urls later in
      (
        record { instances = made.instances; cfg = cfg },
        inst,
        actions,
        ap (Option.map (λ i. record { instances = i; cfg = cfg })) made.made_them,
        found,
        e,
      )
