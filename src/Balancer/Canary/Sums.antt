-- ===== src/Balancer/Canary/Sums.antt =====
-- Sums of integers over the candidates of internal/balancer/canary.go, whose URLs are distinct.
use balance_x.Common.{
  ◌≡◌, refl, sym, ◌∙◌, ap, ap₂, Bool, true, false, String, List, [], ◌∷◌, str_eq, if◌then◌else◌,
  All, Among, inl, inr, arith, eq_iff, subst, All-Among,
}
use balance_x.Common.Int.{ℤ, pos, ◌+ℤ◌, ◌-ℤ◌, ◌≤ℤ◌, int_laws}

-- No URL stands twice.
abbrev pub IsDistinct : List String → Type 0
IsDistinct [] = Unit {0}
IsDistinct (u ∷ us) = All (λ v. str_eq u v ≡ false) us × IsDistinct us

unfoldable pub sum_of : (String → ℤ) → List String → ℤ
sum_of f [] = pos 0
sum_of f (u ∷ us) = f u +ℤ sum_of f us

-- `f` less `t` at `b`.
abbrev pub less_at : String → ℤ → (String → ℤ) → String → ℤ
less_at b t f u = f u -ℤ (if str_eq b u then t else pos 0)

add_swap : (a b c d : ℤ) → a +ℤ b +ℤ (c +ℤ d) ≡ a +ℤ c +ℤ (b +ℤ d)
add_swap a b c d = omega int_laws

add_less : (a b t : ℤ) → a +ℤ (b -ℤ t) ≡ a +ℤ b -ℤ t
add_less a b t = omega int_laws

less_zero : (x : ℤ) (c : Bool) (t : ℤ) → c ≡ false → (x -ℤ (if c then t else pos 0)) ≡ x
less_zero x true t e = cc
less_zero x false t e = omega int_laws

apart :
    (b u : String) (us : List String)
    → All (λ v. str_eq u v ≡ false) us
    → Among b us
    → str_eq b u ≡ false
apart b u us h at =
    let k = All-Among (λ v. str_eq u v ≡ false) b us h at in ground (arith, eq_iff u b, eq_iff b u)

pub sum_of-add :
    (f g : String → ℤ) (us : List String) → sum_of (λ u. f u +ℤ g u) us ≡ sum_of f us +ℤ sum_of g us
unfolding sum_of ◌+ℤ◌
sum_of-add f g [] = refl
sum_of-add f g (u ∷ us) =
    ap (λ r. f u +ℤ g u +ℤ r) (sum_of-add f g us) ∙ add_swap (f u) (g u) (sum_of f us) (sum_of g us)

pub sum_of-cong :
    (f g : String → ℤ) (us : List String)
    → ((u : String) → Among u us → f u ≡ g u)
    → sum_of f us ≡ sum_of g us
unfolding sum_of
sum_of-cong f g [] h = refl
sum_of-cong f g (u ∷ us) h = ap₂ ◌+ℤ◌ (h u (inl refl)) (sum_of-cong f g us (λ v at. h v (inr at)))

pub sum_of-le :
    (f : String → ℤ) (us : List String)
    → ((u : String) → Among u us → f u ≤ℤ pos 0)
    → sum_of f us ≤ℤ pos 0
unfolding sum_of
sum_of-le f [] h = omega arith
sum_of-le f (u ∷ us) h =
    let first = h u (inl refl) in let rest = sum_of-le f us (λ v at. h v (inr at)) in omega int_laws

less_at-other :
    (b : String) (t : ℤ) (f : String → ℤ) (us : List String)
    → All (λ v. str_eq b v ≡ false) us
    → sum_of (less_at b t f) us ≡ sum_of f us
unfolding sum_of
less_at-other b t f [] h = refl
less_at-other b t f (u ∷ us) h =
    ap₂ ◌+ℤ◌ (less_zero (f u) (str_eq b u) t h.0) (less_at-other b t f us h.1)

pub sum_of-less_at :
    (b : String) (t : ℤ) (f : String → ℤ) (us : List String)
    → IsDistinct us
    → Among b us
    → sum_of (less_at b t f) us ≡ sum_of f us -ℤ t
unfolding sum_of
sum_of-less_at b t f [] d at = absurd at
sum_of-less_at b t f (u ∷ us) d (inl e) =
    let same : str_eq b u ≡ true = (eq_iff b u).1 (sym e) in
    let rest : sum_of (less_at b t f) us ≡ sum_of f us =
      less_at-other b t f us (subst (λ v. All (λ w. str_eq v w ≡ false) us) e d.0) in
    rw (same, rest) (omega int_laws)
sum_of-less_at b t f (u ∷ us) d (inr at) =
    ap₂ ◌+ℤ◌ (less_zero (f u) (str_eq b u) t (apart b u us d.0 at)) (sum_of-less_at b t f us d.1 at)
    ∙ add_less (f u) (sum_of f us) t
