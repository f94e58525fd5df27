-- ===== src/Middleware/Builder/Cached.antt =====
-- What the builder of internal/middleware/middleware.go yields from its cache is made by the call that
-- making it anew would be.
use balance_x.Common.Dict.{lookup, insert, lookup-insert}
use balance_x.Middleware.Builder.{
  Decoder, keep, BuildError, Builder, build, Outcome, Built, Config, make, success, failure,
  add_first, build_all, join_built, new_builder, Made,
}
use balance_x.Common.Float.{Float64}
use balance_x.Common.{
  refl, sym, ap, ◌∙◌, subst, some, none, inl, inr, Option-cases, Bool-cases, eq_iff, String,
  Option-cases, ◌≡◌, List, inl, some, inr, sym, ◌∷◌, [], str_eq, ◌+◌,
}

-- The calls that made the middlewares.
abbrev pub calls : {F : Type 0} → List (Made F) → List (Built F)
calls [] = []
calls (m ∷ ms) = m.call ∷ calls ms

abbrev pub outcome_call : {F : Type 0} → Outcome (Made F) → Outcome (Built F)
outcome_call (success m) = success m.call
outcome_call (failure e) = failure e

abbrev pub outcome_calls : {F : Type 0} → Outcome (List (Made F)) → Outcome (List (Built F))
outcome_calls (success ms) = success (calls ms)
outcome_calls (failure e) = failure e

outcome_calls-add_first :
    {F : Type 0} (m : Made F) (o : Outcome (List (Made F)))
    → outcome_calls (add_first m o) ≡ add_first m.call (outcome_calls o)
outcome_calls-add_first m (success ms) = refl
outcome_calls-add_first m (failure e) = refl

module _ {F : Type 0} ⦃fl : Float64 F⦄ (decoder : Decoder F) where
  -- The middlewares that the names stand for, each made anew, or the first error.
  unfoldable pub make_all :
      (String → BuildError → BuildError) → Config F → List String → Outcome (List (Built F))
  make_all wrap cfg [] = success []
  make_all wrap cfg (name ∷ names) =
      let rest = make_all wrap cfg names in
      elim (make decoder cfg name) [
        | success m ↦ add_first m rest
        | failure e ↦ failure (wrap name e)
      ]

  -- What the cache holds is what making it anew would yield.
  abbrev pub IsSound : Builder F → Type 0
  IsSound b =
      (name : String) (m : Made F)
      → lookup name b.cache ≡ some m
      → make decoder b.cfg name ≡ success m.call

  IsSound-keep :
      (name : String) (b : Builder F) (m : Made F)
      → IsSound b
      → make decoder b.cfg name ≡ success m.call
      → IsSound (record b { cache = insert name m b.cache; made = b.made + 1 })
  IsSound-keep name b m sound made other n h = elim (Bool-cases (str_eq name other)) [
    | inl same ↦
        let stored : some m ≡ some n =
          sym (lookup-insert name other m b.cache ∙ rw same refl) ∙ h in
        subst (λ w. make decoder b.cfg w ≡ success n.call) ((eq_iff name other).0 same)
          (made ∙ ap (λ k. success k.call) (let e : m ≡ n = cc in e))
    | inr apart ↦ sound other n (sym (lookup-insert name other m b.cache ∙ rw apart refl) ∙ h)
  ]

  -- A result that is what making the middleware anew would yield, and a builder as good as before.
  record IsBuilt (name : String) (b : Builder F) (r : Outcome (Made F) × Builder F) : Type 0 where
    pub as_made : outcome_call r.0 ≡ make decoder b.cfg name
    pub cfg_kept : r.1.cfg ≡ b.cfg
    pub sound_kept : IsSound r.1

  IsBuilt-keep :
      (name : String) (b : Builder F) (made : Outcome (Built F))
      → IsSound b
      → made ≡ make decoder b.cfg name
      → IsBuilt name b (keep name b made)
  unfolding keep
  IsBuilt-keep name b (success m) sound e = record {
    as_made = e;
    cfg_kept = refl;
    sound_kept = IsSound-keep name b (record { serial = b.made; call = m }) sound (sym e);
  }
  IsBuilt-keep name b (failure error) sound e = record {
    as_made = e;
    cfg_kept = refl;
    sound_kept = sound;
  }

  pub build-cached :
      (name : String) (b : Builder F) (m : Made F)
      → lookup name b.cache ≡ some m
      → build decoder name b ≡ (success m, b)
  unfolding build
  build-cached name b m e = rw (e, build) refl

  pub build-new :
      (name : String) (b : Builder F)
      → lookup name b.cache ≡ none
      → build decoder name b ≡ keep name b (make decoder b.cfg name)
  unfolding build
  build-new name b e = rw (e, build) refl

  build-IsBuilt :
      (name : String) (b : Builder F) → IsSound b → IsBuilt name b (build decoder name b)
  build-IsBuilt name b sound = elim (Option-cases (lookup name b.cache)) [
    | inl e ↦
        subst (IsBuilt name b) (sym (build-new name b e))
          (IsBuilt-keep name b (make decoder b.cfg name) sound refl)
    | inr (m, e) ↦
        subst (IsBuilt name b) (sym (build-cached name b m e))
          (record { as_made = sym (sound name m e); cfg_kept = refl; sound_kept = sound })
  ]

  pub record AreBuilt (wrap : String → BuildError → BuildError) (names : List String)
      (b : Builder F) (r : Outcome (List (Made F)) × Builder F) : Type 0 where
    pub all_as_made : outcome_calls r.0 ≡ make_all wrap b.cfg names
    pub cfg_stays : r.1.cfg ≡ b.cfg
    pub sound_stays : IsSound r.1

  AreBuilt-join :
      (wrap : String → BuildError → BuildError) (name : String) (names : List String)
      → (b : Builder F) (r : Outcome (Made F) × Builder F)
      → (rest : Outcome (List (Made F)) × Builder F) → IsBuilt name b r
      → AreBuilt wrap names r.1 rest
      → AreBuilt wrap (name ∷ names) b (join_built (wrap name) r rest)
  unfolding make_all
  AreBuilt-join wrap name names b (success m, after) rest built all = record {
    all_as_made =
        rw (sym built.as_made, make_all)
          (outcome_calls-add_first m rest.0
            ∙ ap (add_first m.call)
                (all.all_as_made ∙ ap (λ c. make_all wrap c names) built.cfg_kept));
    cfg_stays = all.cfg_stays ∙ built.cfg_kept;
    sound_stays = all.sound_stays;
  }
  AreBuilt-join wrap name names b (failure e, after) rest built all = record {
    all_as_made = rw (sym built.as_made, make_all) refl;
    cfg_stays = built.cfg_kept;
    sound_stays = built.sound_kept;
  }

  pub build_all-AreBuilt :
      (wrap : String → BuildError → BuildError) (names : List String) (b : Builder F)
      → IsSound b
      → AreBuilt wrap names b (build_all decoder wrap names b)
  unfolding build_all make_all
  build_all-AreBuilt wrap [] b sound = record {
    all_as_made = refl;
    cfg_stays = refl;
    sound_stays = sound;
  }
  build_all-AreBuilt wrap (name ∷ names) b sound =
      let built = build-IsBuilt name b sound in
      AreBuilt-join wrap name names b (build decoder name b)
        (build_all decoder wrap names (build decoder name b).1) built
        (build_all-AreBuilt wrap names (build decoder name b).1 built.sound_kept)

  pub IsSound-new : (cfg : Config F) → IsSound (new_builder cfg)
  unfolding new_builder lookup
  IsSound-new cfg name m h = cc
