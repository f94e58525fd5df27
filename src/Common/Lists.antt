-- ===== src/Common/Lists.antt =====
-- Lists measured by native numbers, under the library's names, and predicates by recursion.
use Prim.Native.Nat.{ℕ, zero, suc, ◌+◌, ◌-◌, ◌<◌}
use mathlib.Core.Path.{◌≡◌, refl, subst}
use mathlib.Core.Logic.{◌⊎◌, inl, inr}
use mathlib.Core.List.{List, [], ◌∷◌, ◌++◌}
use mathlib.Core.Option.{Option, none, some}
use native.Mathlib.Omega.{arith}

module _ {ℓ} {A : Type ℓ} where
  abbrev pub length : List A → ℕ
  length [] = 0
  length (x ∷ xs) = suc (length xs)

  abbrev pub get_elem? : List A → ℕ → Option A
  get_elem? [] i = none
  get_elem? (x ∷ xs) zero = some x
  get_elem? (x ∷ xs) (suc i) = get_elem? xs i

  abbrev pub get_or : List A → ℕ → A → A
  get_or [] i d = d
  get_or (x ∷ xs) zero d = x
  get_or (x ∷ xs) (suc i) d = get_or xs i d

  abbrev pub drop : ℕ → List A → List A
  drop zero xs = xs
  drop (suc n) [] = []
  drop (suc n) (x ∷ xs) = drop n xs

  pub length-append : (xs ys : List A) → length (xs ++ ys) ≡ length xs + length ys
  length-append [] ys = omega arith
  length-append (x ∷ xs) ys = omega (arith, length-append xs ys)

  pub length-drop : (n : ℕ) (xs : List A) → length (drop n xs) ≡ length xs - n
  length-drop zero xs = omega arith
  length-drop (suc n) [] = omega arith
  length-drop (suc n) (x ∷ xs) = omega (arith, length-drop n xs)

  abbrev pub All {κ} : (A → Type κ) → List A → Type κ
  All P [] = Unit
  All P (x ∷ xs) = P x × All P xs

  pub All-map {κ κ'} :
      {P : A → Type κ} {Q : A → Type κ'}
      → ((x : A) → P x → Q x)
      → (xs : List A) → All P xs
      → All Q xs
  All-map f [] h = tt
  All-map f (x ∷ xs) h = (f x h.0, All-map f xs h.1)

  pub All-append {κ} : (P : A → Type κ) (xs ys : List A) → All P xs → All P ys → All P (xs ++ ys)
  All-append P [] ys h k = k
  All-append P (x ∷ xs) ys h k = (h.0, All-append P xs ys h.1 k)

  pub All-drop {κ} : (P : A → Type κ) (n : ℕ) (xs : List A) → All P xs → All P (drop n xs)
  All-drop P zero xs h = h
  All-drop P (suc n) [] h = h
  All-drop P (suc n) (x ∷ xs) h = All-drop P n xs h.1

module _ {A : Type 0} where
  -- `x` stands somewhere in the list; the library's `Mem`, computed so that tactics open it.
  abbrev pub Among : A → List A → Type 0
  Among x [] = ⊥
  Among x (y ∷ ys) = (y ≡ x) ⊎ Among x ys

  pub Among-get_or : (xs : List A) (i : ℕ) (d : A) → i < length xs → Among (get_or xs i d) xs
  Among-get_or [] i d h = elim h [ ]
  Among-get_or (x ∷ xs) zero d h = inl refl
  Among-get_or (x ∷ xs) (suc i) d h = inr (Among-get_or xs i d (omega arith))

  pub All-Among : (P : A → Type 0) (v : A) (xs : List A) → All P xs → Among v xs → P v
  All-Among P v [] h m = absurd m
  All-Among P v (x ∷ xs) h (inl e) = subst P e h.0
  All-Among P v (x ∷ xs) h (inr m) = All-Among P v xs h.1 m

  pub Among-last : (q : A) (rs : List A) (r : A) → Among q (rs ++ r ∷ []) → Among q rs ⊎ (r ≡ q)
  Among-last q [] r (inl e) = inr e
  Among-last q [] r (inr h) = absurd h
  Among-last q (x ∷ rs) r (inl e) = inl (inl e)
  Among-last q (x ∷ rs) r (inr h) = elim (Among-last q rs r h) [
    | inl at ↦ inl (inr at)
    | inr e ↦ inr e
  ]

  pub Among-last-back :
      (q : A) (rs : List A) (r : A) → Among q rs ⊎ (r ≡ q) → Among q (rs ++ r ∷ [])
  Among-last-back q [] r (inl h) = absurd h
  Among-last-back q [] r (inr e) = inl e
  Among-last-back q (x ∷ rs) r (inl (inl e)) = inl e
  Among-last-back q (x ∷ rs) r (inl (inr at)) = inr (Among-last-back q rs r (inl at))
  Among-last-back q (x ∷ rs) r (inr e) = inr (Among-last-back q rs r (inr e))
