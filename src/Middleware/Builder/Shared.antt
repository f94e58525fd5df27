-- ===== src/Middleware/Builder/Shared.antt =====
-- Which routes share a middleware: what the cache of the builder of internal/middleware/middleware.go
-- does to the middlewares that have a state, such as the limiters of a rateLimit.
use balance_x.Common.{
  ◌∷◌, ◌↔◌, List, String, inl, ◌≡◌, [], ap, none, some, ◌<◌, arith, Bool-cases, ◌⊎◌, str_eq, inr,
  sym, subst, ◌∙◌, eq_iff, refl, Option-cases,
}
use balance_x.Common.Dict.{lookup, insert, lookup-insert, lookup-insert_self}
use balance_x.Common.Float.{Float64}
use balance_x.Config.{Config}
use balance_x.Middleware.Builder.{
  Decoder, Built, Made, Builder, BuildError, Outcome, success, failure, keep, build, build_all,
  build_chain, building, make, join_built, new_builder,
}
use balance_x.Middleware.Builder.Cached.{
  IsSound, IsSound-new, build_all-AreBuilt, build-cached, build-new, make_all, calls, outcome_calls,
}

module _ {F : Type 0} where
  -- No two names of the cache have one middleware.
  pub record IsNumbered (b : Builder F) : Type 0 where
    pub below : (n : String) (m : Made F) → lookup n b.cache ≡ some m → m.serial < b.made
    pub distinct :
        (n n' : String) (m m' : Made F)
        → lookup n b.cache ≡ some m
        → lookup n' b.cache ≡ some m'
        → m.serial ≡ m'.serial
        → n ≡ n'

  -- What is in the cache stays.
  abbrev pub Grows : Builder F → Builder F → Type 0
  Grows b after =
      (n : String) (m : Made F) → lookup n b.cache ≡ some m → lookup n after.cache ≡ some m

  inserted-cases :
      (name n : String) (k m : Made F) (b : Builder F)
      → lookup n (insert name k b.cache) ≡ some m
      → ((name ≡ n) × (k ≡ m)) ⊎ (lookup n b.cache ≡ some m)
  inserted-cases name n k m b h = elim (Bool-cases (str_eq name n)) [
    | inl same ↦
        let stored : some k ≡ some m = sym (lookup-insert name n k b.cache ∙ rw same refl) ∙ h in
        inl ((eq_iff name n).0 same, cc)
    | inr apart ↦ inr (sym (lookup-insert name n k b.cache ∙ rw apart refl) ∙ h)
  ]

  IsNumbered-keep :
      (name : String) (b : Builder F) (o : Outcome (Built F))
      → IsNumbered b
      → IsNumbered (keep name b o).1
  unfolding keep
  IsNumbered-keep name b (failure e) num = num
  IsNumbered-keep name b (success call) num = record {
    below = λ n m h. elim (inserted-cases name n k m b h) [
      | inl (same, e) ↦ let s = ap (λ x. x.serial) e in omega arith
      | inr old ↦ let s = num.below n m old in omega arith
    ];
    distinct = λ n n' m m' h h' e. elim (inserted-cases name n k m b h) [
      | inl (same, new) ↦ elim (inserted-cases name n' k m' b h') [
        | inl (same', new') ↦ sym same ∙ same'
        | inr old' ↦
            let s = ap (λ x. x.serial) new in let s' = num.below n' m' old' in absurd (omega arith)
      ]
      | inr old ↦ elim (inserted-cases name n' k m' b h') [
        | inl (same', new') ↦
            let s = ap (λ x. x.serial) new' in let s' = num.below n m old in absurd (omega arith)
        | inr old' ↦ num.distinct n n' m m' old old' e
      ]
    ];
  }
    where
      k : Made F
      k = record { serial = b.made; call = call }

  Grows-keep :
      (name : String) (b : Builder F) (o : Outcome (Built F))
      → lookup name b.cache ≡ none
      → Grows b (keep name b o).1
  unfolding keep
  Grows-keep name b (failure e) new n m h = h
  Grows-keep name b (success call) new n m h = elim (Bool-cases (str_eq name n)) [
    | inl same ↦ absurd (
        let e : lookup name b.cache ≡ some m =
          subst (λ x. lookup x b.cache ≡ some m) (sym ((eq_iff name n).0 same)) h in
        cc (e, new))
    | inr apart ↦ lookup-insert name n _ b.cache ∙ rw apart h
  ]

  -- A middleware that is built stands in the cache under its name.
  abbrev pub IsCached : String → Outcome (Made F) × Builder F → Type 0
  IsCached name (success m, b) = lookup name b.cache ≡ some m
  IsCached name (failure e, b) = Unit {0}

  IsCached-keep :
      (name : String) (b : Builder F) (o : Outcome (Built F)) → IsCached name (keep name b o)
  unfolding keep
  IsCached-keep name b (failure e) = tt
  IsCached-keep name b (success call) = lookup-insert_self name _ b.cache

  -- Each middleware of the chain stands in the cache under its name.
  abbrev pub AreCached : List String → List (Made F) → Builder F → Type 0
  AreCached [] ms b = ms ≡ []
  AreCached (name ∷ names) [] b = ⊥
  AreCached (name ∷ names) (m ∷ ms) b = (lookup name b.cache ≡ some m) × AreCached names ms b

  abbrev pub ChainIsCached : List String → Outcome (List (Made F)) × Builder F → Type 0
  ChainIsCached names (success ms, b) = AreCached names ms b
  ChainIsCached names (failure e, b) = Unit {0}

  AreCached-Grows :
      (names : List String) (ms : List (Made F)) (b after : Builder F)
      → Grows b after
      → AreCached names ms b
      → AreCached names ms after
  AreCached-Grows [] ms b after g h = h
  AreCached-Grows (name ∷ names) [] b after g h = h
  AreCached-Grows (name ∷ names) (m ∷ ms) b after g h =
      (g name m h.0, AreCached-Grows names ms b after g h.1)

  -- What a step of the builder keeps.
  pub record IsKept (b after : Builder F) : Type 0 where
    pub numbered : IsNumbered after
    pub grows : Grows b after

  joined :
      (wrap : BuildError → BuildError) (name : String) (names : List String) (b : Builder F)
      (r : Outcome (Made F) × Builder F) (rest : Outcome (List (Made F)) × Builder F)
      → IsKept b r.1
      → IsCached name r
      → IsKept r.1 rest.1
      → ChainIsCached names rest
      → IsKept b (join_built wrap r rest).1 × ChainIsCached (name ∷ names) (join_built wrap r rest)
  joined wrap name names b (failure e, after) rest one at more ats = (one, tt)
  joined wrap name names b (success m, after) (failure e, last) one at_name more ats =
      (record { numbered = more.numbered; grows = λ n k h. more.grows n k (one.grows n k h) }, tt)
  joined wrap name names b (success m, after) (success ms, last) one at_name more ats = (
    record { numbered = more.numbered; grows = λ n k h. more.grows n k (one.grows n k h) },
    (more.grows name m at_name, ats),
  )

module _ {F : Type 0} ⦃fl : Float64 F⦄ (decoder : Decoder F) where
  build-IsKept :
      (name : String) (b : Builder F)
      → IsNumbered b
      → IsKept b (build decoder name b).1 × IsCached name (build decoder name b)
  build-IsKept name b num = elim (Option-cases (lookup name b.cache)) [
    | inl new ↦
        subst (λ r. IsKept b r.1 × IsCached name r) (sym (build-new decoder name b new))
          (
            record {
              numbered = IsNumbered-keep name b (make decoder b.cfg name) num;
              grows = Grows-keep name b (make decoder b.cfg name) new;
            },
            IsCached-keep name b (make decoder b.cfg name),
          )
    | inr (m, old) ↦
        subst (λ r. IsKept b r.1 × IsCached name r) (sym (build-cached decoder name b m old))
          (record { numbered = num; grows = λ n k h. h }, old)
  ]

  build_all-IsKept :
      (wrap : String → BuildError → BuildError) (names : List String) (b : Builder F)
      → IsNumbered b
      → IsKept b (build_all decoder wrap names b).1
        × ChainIsCached names (build_all decoder wrap names b)
  unfolding build_all
  build_all-IsKept wrap [] b num = (record { numbered = num; grows = λ n k h. h }, refl)
  build_all-IsKept wrap (name ∷ names) b num =
      let one = build-IsKept name b num in
      let more = build_all-IsKept wrap names (build decoder name b).1 one.0.numbered in
      joined (wrap name) name names b (build decoder name b)
        (build_all decoder wrap names (build decoder name b).1) one.0 one.1 more.0 more.1

  -- The builder after the chains of names have been built in turn.
  unfoldable pub after_chains : List (List String) → Builder F → Builder F
  unfolding build_chain
  after_chains [] b = b
  after_chains (names ∷ chains) b = after_chains chains (build_chain decoder names b).1

  -- A builder whose cache holds what its names stand for, each made once.
  pub record IsGood (cfg : Config F) (b : Builder F) : Type 0 where
    pub same_cfg : b.cfg ≡ cfg
    pub sound : IsSound decoder b
    pub numbers : IsNumbered b

  build_chain-IsGood :
      (cfg : Config F) (names : List String) (b : Builder F)
      → IsGood cfg b
      → IsGood cfg (build_chain decoder names b).1
        × Grows b (build_chain decoder names b).1
        × ChainIsCached names (build_chain decoder names b)
        × (outcome_calls (build_chain decoder names b).0 ≡ make_all decoder building cfg names)
  unfolding build_chain
  build_chain-IsGood cfg names b good =
      let built = build_all-AreBuilt decoder building names b good.sound in
      let kept = build_all-IsKept building names b good.numbers in
      (
        record {
          same_cfg = built.cfg_stays ∙ good.same_cfg;
          sound = built.sound_stays;
          numbers = kept.0.numbered;
        },
        kept.0.grows,
        kept.1,
        built.all_as_made ∙ ap (λ c. make_all decoder building c names) good.same_cfg,
      )

  after_chains-IsGood :
      (cfg : Config F) (chains : List (List String)) (b : Builder F)
      → IsGood cfg b
      → IsGood cfg (after_chains chains b) × Grows b (after_chains chains b)
  unfolding after_chains
  after_chains-IsGood cfg [] b good = (good, λ n m h. h)
  after_chains-IsGood cfg (names ∷ chains) b good =
      let one = build_chain-IsGood cfg names b good in
      let more = after_chains-IsGood cfg chains (build_chain decoder names b).1 one.0 in
      (more.0, λ n m h. more.1 n m (one.1 n m h))

  new-IsGood : (cfg : Config F) → IsGood cfg (new_builder cfg)
  unfolding new_builder lookup
  new-IsGood cfg = record {
    same_cfg = refl;
    sound = IsSound-new decoder cfg;
    numbers = record { below = λ n m h. cc; distinct = λ n n' m m' h h' e. cc };
  }

  -- A name of a chain with the middleware that it got.
  abbrev pub Got : String → Made F → List String → List (Made F) → Type 0
  Got n m [] ms = ⊥
  Got n m (name ∷ names) [] = ⊥
  Got n m (name ∷ names) (k ∷ ms) = ((name ≡ n) × (k ≡ m)) ⊎ Got n m names ms

  Got-cached :
      (n : String) (m : Made F) (names : List String) (ms : List (Made F)) (b : Builder F)
      → AreCached names ms b
      → Got n m names ms
      → lookup n b.cache ≡ some m
  Got-cached n m [] ms b h got = absurd got
  Got-cached n m (name ∷ names) [] b h got = absurd h
  Got-cached n m (name ∷ names) (k ∷ ms) b h (inl (same, e)) =
      subst (λ x. lookup x b.cache ≡ some m) same (h.0 ∙ ap some e)
  Got-cached n m (name ∷ names) (k ∷ ms) b h (inr got) = Got-cached n m names ms b h.1 got

  -- Whatever chains of names a new builder has built before and between, two chains that it builds
  -- consist of the middlewares that the calls make which their names stand for in the configuration. A
  -- middleware of the one chain is that of the other, so that the two share its state, exactly when
  -- they have it under one name.
  pub build_chain-shares :
      (cfg : Config F) (before between : List (List String)) (names names' : List String)
      (ms ms' : List (Made F)) (n n' : String) (m m' : Made F)
      → let first = build_chain decoder names (after_chains before (new_builder cfg)) in
        let second = build_chain decoder names' (after_chains between first.1) in
        first.0 ≡ success ms
        → second.0 ≡ success ms'
        → Got n m names ms
        → Got n' m' names' ms'
        → (make_all decoder building cfg names ≡ success (calls ms))
          × (make_all decoder building cfg names' ≡ success (calls ms'))
          × ((m.serial ≡ m'.serial) ↔ (n ≡ n'))
  build_chain-shares cfg before between names names' ms ms' n n' m m' e e' got got' =
      let b = after_chains before (new_builder cfg) in
      let good = (after_chains-IsGood cfg before (new_builder cfg) (new-IsGood cfg)).0 in
      let first = build_chain-IsGood cfg names b good in
      let after = (build_chain decoder names b).1 in
      let more = after_chains-IsGood cfg between after first.0 in
      let c = after_chains between after in
      let second = build_chain-IsGood cfg names' c more.0 in
      let last = (build_chain decoder names' c).1 in
      let there : lookup n after.cache ≡ some m =
        Got-cached n m names ms after (subst (λ o. ChainIsCached names (o, after)) e first.2) got in
      let at_last : lookup n last.cache ≡ some m = second.1 n m (more.1 n m there) in
      let at_last' : lookup n' last.cache ≡ some m' =
        Got-cached n' m' names' ms' last (subst (λ o. ChainIsCached names' (o, last)) e' second.2)
          got' in
      (
        sym first.3 ∙ ap outcome_calls e,
        sym second.3 ∙ ap outcome_calls e',
        (
          second.0.numbers.distinct n n' m m' at_last at_last',
          λ same.
              let found : some m ≡ some m' =
                sym at_last ∙ ap (λ x. lookup x last.cache) same ∙ at_last' in
              let one : m ≡ m' = cc in ap (λ x. x.serial) one,
        ),
      )
