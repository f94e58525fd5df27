-- ===== src/Config/Validate/Distinct.antt =====
-- What `validate` of config/config.go accepts: configurations in which no backend URL stands twice.
use balance_x.Common.{
  ◌≡◌, refl, sym, subst, ◌∙◌, ◌↔◌, ◌⊎◌, inl, inr, false, String, List, [], ◌∷◌, ◌++◌, none, some,
  arith, str_eq, All, eq_iff, Option-cases, Bool-cases, ap₂, ap,
}
use balance_x.Common.Dict.{Dict, lookup, insert, lookup-insert}
use balance_x.Config.{ServerConfig, ServiceConfig, Config}
use balance_x.Config.Validate.{
  duplicate_url, Result, ok, err, check_servers, check_services, validate,
}

-- The URLs with the service that each stands in, in the order of the walk.
abbrev pub Placement : Type 0
Placement = String × String

abbrev placed_in : String → List ServerConfig → List Placement
placed_in name [] = []
placed_in name (s ∷ ss) = (s.url, name) ∷ placed_in name ss

abbrev pub placements : Dict ServiceConfig → List Placement
placements [] = []
placements ((name, svc) ∷ rest) = placed_in name svc.servers ++ placements rest

-- No URL of the list stands twice.
abbrev pub HasDistinctUrls : List Placement → Type 0
HasDistinctUrls [] = Unit {0}
HasDistinctUrls ((u, n) ∷ ps) = All (λ p. str_eq u p.0 ≡ false) ps × HasDistinctUrls ps

-- Both loops as one.
walk : List Placement → Dict String → Result (Dict String)
walk [] seen = ok seen
walk ((u, n) ∷ ps) seen = elim (lookup u seen) [
  | some other ↦ err (duplicate_url u other n)
  | none ↦ walk ps (insert u n seen)
]

check_servers-walk :
    (name : String) (ss : List ServerConfig) (ps : List Placement) (seen : Dict String)
    → walk (placed_in name ss ++ ps) seen
      ≡ (elim (check_servers name ss seen) [ ok seen' ↦ walk ps seen' | err e ↦ err e ])
unfolding walk check_servers
check_servers-walk name [] ps seen = refl
check_servers-walk name (s ∷ ss) ps seen =
    ground (arith, check_servers-walk name ss ps (insert s.url name seen))

check_services-walk :
    (services : Dict ServiceConfig) (seen : Dict String)
    → check_services services seen ≡ walk (placements services) seen
unfolding walk check_services
check_services-walk [] seen = refl
check_services-walk ((name, svc) ∷ rest) seen =
    first (check_servers name svc.servers seen)
      (check_servers-walk name svc.servers (placements rest) seen) (check_services-walk rest)
  where
    first :
        (r : Result (Dict String))
        → walk (placed_in name svc.servers ++ placements rest) seen
          ≡ (elim r [ ok seen' ↦ walk (placements rest) seen' | err e ↦ err e ])
        → ((seen' : Dict String) → check_services rest seen' ≡ walk (placements rest) seen')
        → (elim r [ ok seen' ↦ check_services rest seen' | err e ↦ err e ])
          ≡ walk (placed_in name svc.servers ++ placements rest) seen
    first (ok seen') w later = later seen' ∙ sym w
    first (err e) w later = sym w

-- What the walk from `seen` needs to succeed.
abbrev Fresh : Dict String → List Placement → Type 0
Fresh seen ps = All (λ p. lookup p.0 seen ≡ none) ps × HasDistinctUrls ps

-- `u` stands in the list for the service `a` and later again for `b`.
abbrev pub StandsTwice : String → String → String → List Placement → Type 0
StandsTwice u a b ps =
    (before : List Placement) × (between : List Placement) × (after : List Placement) × (ps
      ≡ before ++ ((u, a) ∷ (between ++ ((u, b) ∷ after))))

-- `u` stands in the list for the service `b`.
abbrev StandsFor : String → String → List Placement → Type 0
StandsFor u b ps =
    (before : List Placement) × (after : List Placement) × (ps ≡ before ++ ((u, b) ∷ after))

abbrev Outcome : Dict String → List Placement → Result (Dict String) → Type 0
Outcome seen ps r =
    ((seen' : Dict String) × (r ≡ ok seen') × Fresh seen ps)
    ⊎ ((u : String) × (a : String) × (b : String) × (r ≡ err (duplicate_url u a b))
        × (((lookup u seen ≡ some a) × StandsFor u b ps) ⊎ StandsTwice u a b ps)
        × ¬ Fresh seen ps)

-- A URL is new after an insertion exactly when it was new before and is another one.
unseen-insert :
    (u n : String) (seen : Dict String) (ps : List Placement)
    → All (λ p. lookup p.0 (insert u n seen) ≡ none) ps
      ↔ (All (λ p. str_eq u p.0 ≡ false) ps × All (λ p. lookup p.0 seen ≡ none) ps)
unseen-insert u n seen [] = ((λ h. (tt, tt)), λ h. tt)
unseen-insert u n seen ((v, m) ∷ ps) = (
  (λ h.
      let ih = (unseen-insert u n seen ps).0 h.1 in
      let head = at.0 h.0 in ((head.0, ih.0), (head.1, ih.1))),
  λ h. (at.1 (h.0.0, h.1.0), (unseen-insert u n seen ps).1 (h.0.1, h.1.1)),
)
  where
    at : (lookup v (insert u n seen) ≡ none) ↔ ((str_eq u v ≡ false) × (lookup v seen ≡ none))
    at = (ground (arith, lookup-insert u v n seen), ground (arith, lookup-insert u v n seen))

walk_step :
    (u n : String) (ps : List Placement) (seen : Dict String) (r : Result (Dict String))
    → lookup u seen ≡ none
    → Outcome (insert u n seen) ps r
    → Outcome seen ((u, n) ∷ ps) r
walk_step u n ps seen r new (inl (seen', e, (fresh, distinct))) =
    let parts = (unseen-insert u n seen ps).0 fresh in
    inl (seen', e, ((new, parts.1), (parts.0, distinct)))
walk_step u n ps seen r new (inr (v, a, b, e, earlier, not_fresh)) = inr (
  v,
  a,
  b,
  e,
  where_from earlier,
  λ fresh. not_fresh ((unseen-insert u n seen ps).1 (fresh.1.0, fresh.0.1), fresh.1.1),
)
  where
    where_from :
        ((lookup v (insert u n seen) ≡ some a) × StandsFor v b ps) ⊎ StandsTwice v a b ps
        → ((lookup v seen ≡ some a) × StandsFor v b ((u, n) ∷ ps)) ⊎ StandsTwice v a b ((u, n) ∷ ps)
    where_from (inl (k, (before, after, at))) = elim (Bool-cases (str_eq u v)) [
      | inl same ↦
          let head : (u, n) ≡ (v, a) =
            ap₂ (λ x y. (x, y)) ((eq_iff u v).0 same) (ground (arith, lookup-insert u v n seen)) in
          inr ([], before, after, ap₂ ◌∷◌ head at)
      | inr other ↦ inl (
        ground (arith, lookup-insert u v n seen),
        ((u, n) ∷ before, after, ap (λ l. (u, n) ∷ l) at),
      )
    ]
    where_from (inr (before, between, after, at)) =
        inr ((u, n) ∷ before, between, after, ap (λ l. (u, n) ∷ l) at)

walk-known :
    (u n other : String) (ps : List Placement) (seen : Dict String)
    → lookup u seen ≡ some other
    → walk ((u, n) ∷ ps) seen ≡ err (duplicate_url u other n)
unfolding walk
walk-known u n other ps seen e = rw (e, walk)

walk-new :
    (u n : String) (ps : List Placement) (seen : Dict String)
    → lookup u seen ≡ none
    → walk ((u, n) ∷ ps) seen ≡ walk ps (insert u n seen)
unfolding walk
walk-new u n ps seen e = rw (e, walk)

walk_lem : (ps : List Placement) (seen : Dict String) → Outcome seen ps (walk ps seen)
unfolding walk
walk_lem [] seen = inl (seen, refl, (tt, tt))
walk_lem ((u, n) ∷ ps) seen = elim (Option-cases (lookup u seen)) [
  | inl new ↦
      subst (Outcome seen ((u, n) ∷ ps)) (sym (walk-new u n ps seen new))
        (walk_step u n ps seen _ new (walk_lem ps (insert u n seen)))
  | inr (other, known) ↦ inr (
    u,
    other,
    n,
    walk-known u n other ps seen known,
    inl (known, ([], ps, refl)),
    λ fresh. cc (known, fresh.0.0),
  )
]

All-new : (ps : List Placement) → All (λ p. lookup {V = String} p.0 [] ≡ none) ps
unfolding lookup
All-new [] = tt
All-new ((u, n) ∷ ps) = (refl, All-new ps)

-- A configuration is accepted, as it is, exactly when no backend URL stands in it twice, in one
-- service or in two; otherwise the error names a URL, the service of a place where it stands and that
-- of a later place.
pub validate_lem :
    {F : Type 0} (c : Config F)
    → ((validate c ≡ ok c) × HasDistinctUrls (placements c.services))
      ⊎ ((u : String) × (a : String) × (b : String) × (validate c ≡ err (duplicate_url u a b))
          × StandsTwice u a b (placements c.services)
          × ¬ HasDistinctUrls (placements c.services))
unfolding validate lookup
validate_lem c = elim (walk_lem (placements c.services) []) [
  | inl (seen, e, fresh) ↦ inl (rw (check_services-walk c.services [], e, validate), fresh.1)
  | inr (u, a, b, e, earlier, not_fresh) ↦ inr (
    u,
    a,
    b,
    rw (check_services-walk c.services [], e, validate),
    (elim earlier [ inl k ↦ absurd (cc k.0) | inr m ↦ m ]),
    λ distinct. not_fresh (All-new (placements c.services), distinct),
  )
]
