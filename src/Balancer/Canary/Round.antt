-- ===== src/Balancer/Canary/Round.antt =====
-- The loop of internal/balancer/canary.go that raises the running weights and finds the highest.
use balance_x.Balancer.Canary.Sums.{IsDistinct}
use balance_x.Balancer.Canary.{weight_at, raise_loop, or_zero, some}
use balance_x.Common.{
  ◌≡◌, refl, sym, ◌∙◌, ap, Bool, true, false, String, List, [], ◌∷◌, str_eq, if◌then◌else◌, All,
  Among, inl, inr, ◌⊎◌, arith, eq_iff, Bool-cases, subst, Option, All-Among,
}
use balance_x.Common.Dict.{Dict, lookup, insert, lookup-insert}
use balance_x.Common.Int.{ℤ, ◌+ℤ◌, ◌≤ℤ◌, ltb_ℤ}

or_zero-if :
    (b : Bool) (x : ℤ) (o : Option ℤ)
    → or_zero (if b then some x else o) ≡ (if b then x else or_zero o)
or_zero-if true x o = refl
or_zero-if false x o = refl

pub weight_at-insert :
    (u v : String) (x : ℤ) (d : Dict ℤ)
    → weight_at v (insert u x d) ≡ (if str_eq u v then x else weight_at v d)
unfolding weight_at
weight_at-insert u v x d =
    ap or_zero (lookup-insert u v x d) ∙ or_zero-if (str_eq u v) x (lookup v d)

pub weight_at-insert_other :
    (u v : String) (x : ℤ) (d : Dict ℤ)
    → str_eq u v ≡ false
    → weight_at v (insert u x d) ≡ weight_at v d
weight_at-insert_other u v x d differ = weight_at-insert u v x d ∙ rw differ

pub weight_at-insert_self : (u : String) (x : ℤ) (d : Dict ℤ) → weight_at u (insert u x d) ≡ x
weight_at-insert_self u x d = weight_at-insert u u x d ∙ rw ((eq_iff u u).1 refl)

abbrev pub raised : Dict ℤ → Dict ℤ → String → ℤ
raised weights current u = weight_at u current +ℤ weight_at u weights

-- The highest value of `f` over `us` and where it stands, from `best` with the value `best_cw` on.
abbrev pub IsHighest : (String → ℤ) → List String → String → ℤ → String → Type 0
IsHighest f us best best_cw b =
    ((b ≡ best) × ((u : String) → Among u us → f u ≤ℤ best_cw))
    ⊎ (Among b us × (best_cw ≤ℤ f b) × ((u : String) → Among u us → f u ≤ℤ f b))

module _ (weights : Dict ℤ) where
  abbrev pub after : String → Dict ℤ → Dict ℤ
  after u current = insert u (raised weights current u) current

  raised-after :
      (u v : String) (current : Dict ℤ)
      → str_eq u v ≡ false
      → raised weights (after u current) v ≡ raised weights current v
  raised-after u v current differ =
      ap (λ x. x +ℤ weight_at v weights)
        (weight_at-insert_other u v (raised weights current u) current differ)

  -- The loop leaves the other running weights alone.
  pub raise_loop-other :
      (us : List String) (current : Dict ℤ) (best : String) (best_cw : ℤ) (v : String)
      → All (λ u. str_eq u v ≡ false) us
      → weight_at v (raise_loop weights us current best best_cw).0 ≡ weight_at v current
  unfolding raise_loop
  raise_loop-other [] current best best_cw v h = refl
  raise_loop-other (u ∷ us) current best best_cw v h =
      raise_loop-other us (after u current) _ _ v h.1
      ∙ weight_at-insert_other u v (raised weights current u) current h.0

  abbrev Reads : (String → ℤ) → List String → Dict ℤ → Type 0
  Reads f us current = (v : String) → Among v us → raised weights current v ≡ f v

  Reads-after :
      (f : String → ℤ) (u : String) (us : List String) (current : Dict ℤ)
      → IsDistinct (u ∷ us)
      → Reads f (u ∷ us) current
      → Reads f us (after u current)
  Reads-after f u us current d h v at =
      raised-after u v current (All-Among (λ w. str_eq u w ≡ false) v us d.0 at) ∙ h v (inr at)

  flip :
      (u : String) (us : List String)
      → All (λ v. str_eq u v ≡ false) us
      → All (λ v. str_eq v u ≡ false) us
  flip u [] h = tt
  flip u (v ∷ us) h = (ground (arith, eq_iff u v, eq_iff v u), flip u us h.1)

  -- Each candidate's running weight ends up raised, once.
  pub raise_loop-raised :
      (f : String → ℤ) (us : List String) (current : Dict ℤ) (best : String) (best_cw : ℤ)
      → IsDistinct us
      → Reads f us current
      → (u : String) → Among u us
      → weight_at u (raise_loop weights us current best best_cw).0 ≡ f u
  unfolding raise_loop
  raise_loop-raised f [] current best best_cw d h u at = absurd at
  raise_loop-raised f (v ∷ us) current best best_cw d h u (inl e) =
      subst (λ w. weight_at w (raise_loop weights (v ∷ us) current best best_cw).0 ≡ f w) e
        (raise_loop-other us (after v current) _ _ v (flip v us d.0)
          ∙ weight_at-insert_self v (raised weights current v) current
          ∙ h v (inl refl))
  raise_loop-raised f (v ∷ us) current best best_cw d h u (inr at) =
      raise_loop-raised f us (after v current) _ _ d.1 (Reads-after f v us current d h) u at

  pub raise_loop-higher :
      (u : String) (us : List String) (current : Dict ℤ) (best : String) (best_cw : ℤ)
      → ltb_ℤ best_cw (raised weights current u) ≡ true
      → raise_loop weights (u ∷ us) current best best_cw
        ≡ raise_loop weights us (after u current) u (raised weights current u)
  unfolding raise_loop
  raise_loop-higher u us current best best_cw h = rw h

  pub raise_loop-lower :
      (u : String) (us : List String) (current : Dict ℤ) (best : String) (best_cw : ℤ)
      → ltb_ℤ best_cw (raised weights current u) ≡ false
      → raise_loop weights (u ∷ us) current best best_cw
        ≡ raise_loop weights us (after u current) best best_cw
  unfolding raise_loop
  raise_loop-lower u us current best best_cw h = rw h

  IsHighest-higher :
      (f : String → ℤ) (u : String) (us : List String) (best b : String) (best_cw : ℤ)
      → ltb_ℤ best_cw (f u) ≡ true
      → IsHighest f us u (f u) b
      → IsHighest f (u ∷ us) best best_cw b
  IsHighest-higher f u us best b best_cw up (inl (e, low)) = inr (
    inl (sym e),
    subst (λ v. best_cw ≤ℤ f v) (sym e) (ground arith),
    λ v at.
        subst (λ w. f v ≤ℤ f w) (sym e)
          (elim at [
            | inl same ↦ subst (λ w. f w ≤ℤ f u) same (omega arith)
            | inr later ↦ low v later
          ]),
  )
  IsHighest-higher f u us best b best_cw up (inr (at_b, high, low)) = inr (
    inr at_b,
    ground arith,
    λ v at. elim at [ inl same ↦ subst (λ w. f w ≤ℤ f b) same high | inr later ↦ low v later ],
  )

  IsHighest-lower :
      (f : String → ℤ) (u : String) (us : List String) (best b : String) (best_cw : ℤ)
      → ltb_ℤ best_cw (f u) ≡ false
      → IsHighest f us best best_cw b
      → IsHighest f (u ∷ us) best best_cw b
  IsHighest-lower f u us best b best_cw down (inl (e, low)) = inl (
    e,
    λ v at. elim at [
      | inl same ↦ subst (λ w. f w ≤ℤ best_cw) same (ground arith)
      | inr later ↦ low v later
    ],
  )
  IsHighest-lower f u us best b best_cw down (inr (at_b, high, low)) = inr (
    inr at_b,
    high,
    λ v at. elim at [
      | inl same ↦ subst (λ w. f w ≤ℤ f b) same (ground arith)
      | inr later ↦ low v later
    ],
  )

  pub raise_loop-IsHighest :
      (f : String → ℤ) (us : List String) (current : Dict ℤ) (best : String) (best_cw : ℤ)
      → IsDistinct us
      → Reads f us current
      → IsHighest f us best best_cw (raise_loop weights us current best best_cw).1
  unfolding raise_loop
  raise_loop-IsHighest f [] current best best_cw d h = inl (refl, λ u at. absurd at)
  raise_loop-IsHighest f (u ∷ us) current best best_cw d h =
      let e : raised weights current u ≡ f u = h u (inl refl) in
      elim (Bool-cases (ltb_ℤ best_cw (raised weights current u))) [
        | inl up ↦
            subst (λ r. IsHighest f (u ∷ us) best best_cw r.1)
              (sym (raise_loop-higher u us current best best_cw up))
              (IsHighest-higher f u us best _ best_cw (subst (λ x. ltb_ℤ best_cw x ≡ true) e up) (
                subst
                  (λ x.
                    IsHighest f us u x
                      (raise_loop weights us (after u current) u (raised weights current u)).1)
                  e
                  (raise_loop-IsHighest f us (after u current) u (raised weights current u) d.1
                    (Reads-after f u us current d h))))
        | inr down ↦
            subst (λ r. IsHighest f (u ∷ us) best best_cw r.1)
              (sym (raise_loop-lower u us current best best_cw down))
              (IsHighest-lower f u us best _ best_cw (subst (λ x. ltb_ℤ best_cw x ≡ false) e down) (
                raise_loop-IsHighest f us (after u current) best best_cw d.1
                  (Reads-after f u us current d h)))
      ]
