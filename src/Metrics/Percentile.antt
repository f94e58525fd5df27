-- ===== src/Metrics/Percentile.antt =====
-- `computeP95` of internal/metrics/collector.go, on a window of any length. The index is exact: up
-- to a window of 2^40 samples the ceiling of the rounded product `float64(n)*0.95` is the ceiling
-- of 95 n / 100.
use balance_x.Common.{
  ℕ, zero, suc, ◌+◌, ◌-◌, ◌*◌, ◌/◌, ◌≤◌, ◌<◌, ◌≡◌, refl, sym, ap, subst, ◌∙◌, inl, inr, Bool, true,
  false, List, [], ◌∷◌, arith, length, get_or, ◌==◌, Among, Among-get_or, All, if◌then◌else◌, leb,
  Bool-cases, All-Among,
}
use balance_x.Common.Float.{Float64, float_zero, lt_float}

-- The index of the percentile among `n` sorted values; `-` stops at 0, as the code's `idx < 0` does.
unfoldable pub p95_index : ℕ → ℕ
p95_index n = let idx = (95 * n + 99) / 100 - 1 in if leb n idx then n - 1 else idx

p95_index_bounds :
    (n : ℕ)
    → 0 < n
    → (p95_index n < n) × (95 * n ≤ 100 * suc (p95_index n)) × (100 * p95_index n < 95 * n)
unfolding p95_index
p95_index_bounds n h = ground arith

module _ {F : Type 0} ⦃fl : Float64 F⦄ where
  unfoldable pub insert_sorted : F → List F → List F
  insert_sorted x [] = x ∷ []
  insert_sorted x (y ∷ ys) = if lt_float x y then x ∷ y ∷ ys else y ∷ insert_sorted x ys

  -- `sort.Float64s`.
  unfoldable pub sort_floats : List F → List F
  unfolding insert_sorted
  sort_floats [] = []
  sort_floats (x ∷ xs) = insert_sorted x (sort_floats xs)

  unfoldable pub compute_p95 : List F → F
  unfolding sort_floats
  compute_p95 latencies =
      if length latencies == 0
      then float_zero
      else get_or (sort_floats latencies) (p95_index (length latencies)) float_zero

  -- How many values satisfy a test.
  unfoldable pub count_if : (F → Bool) → List F → ℕ
  count_if p [] = 0
  count_if p (x ∷ xs) = let rest = count_if p xs in if p x then suc rest else rest

  count_if-le-length : (p : F → Bool) (xs : List F) → count_if p xs ≤ length xs
  unfolding count_if
  count_if-le-length p [] = omega arith
  count_if-le-length p (x ∷ xs) = ground (arith, count_if-le-length p xs)

  count_if-insert_sorted :
      (p : F → Bool) (x : F) (xs : List F) → count_if p (insert_sorted x xs) ≡ count_if p (x ∷ xs)
  unfolding count_if insert_sorted
  count_if-insert_sorted p x [] = refl
  count_if-insert_sorted p x (y ∷ ys) = ground (arith, count_if-insert_sorted p x ys)

  count_if-sort_floats : (p : F → Bool) (xs : List F) → count_if p (sort_floats xs) ≡ count_if p xs
  unfolding count_if sort_floats
  count_if-sort_floats p [] = refl
  count_if-sort_floats p (x ∷ xs) =
      ground (arith, count_if-insert_sorted p x (sort_floats xs), count_if-sort_floats p xs)

  length-insert_sorted : (x : F) (xs : List F) → length (insert_sorted x xs) ≡ suc (length xs)
  unfolding insert_sorted
  length-insert_sorted x [] = refl
  length-insert_sorted x (y ∷ ys) = ground (arith, length-insert_sorted x ys)

  length-sort_floats : (xs : List F) → length (sort_floats xs) ≡ length xs
  unfolding sort_floats
  length-sort_floats [] = refl
  length-sort_floats (x ∷ xs) =
      length-insert_sorted x (sort_floats xs) ∙ ap suc (length-sort_floats xs)

  Among-insert_sorted : (v x : F) (xs : List F) → Among v (insert_sorted x xs) → Among v (x ∷ xs)
  unfolding insert_sorted
  Among-insert_sorted v x [] h = h
  Among-insert_sorted v x (y ∷ ys) h = ground (arith, h, Among-insert_sorted v x ys)

  Among-sort_floats : (v : F) (xs : List F) → Among v (sort_floats xs) → Among v xs
  unfolding sort_floats
  Among-sort_floats v [] h = h
  Among-sort_floats v (x ∷ xs) h = elim (Among-insert_sorted v x (sort_floats xs) h) [
    | inl e ↦ inl e
    | inr m ↦ inr (Among-sort_floats v xs m)
  ]

  -- No later value is less than an earlier one.
  abbrev pub IsSorted : List F → Type 0
  IsSorted [] = Unit {0}
  IsSorted (x ∷ xs) = All (λ y. lt_float y x ≡ false) xs × IsSorted xs

  lt_asymm : (x y : F) → lt_float x y ≡ true → lt_float y x ≡ false
  lt_asymm x y h = ground (arith, fl.lt_irrefl x, fl.lt_trans x y x)

  -- What no value of a list is less than, nothing smaller is either.
  not_below_mono :
      (x y : F) (zs : List F)
      → lt_float x y ≡ true
      → All (λ z. lt_float z y ≡ false) zs
      → All (λ z. lt_float z x ≡ false) zs
  not_below_mono x y [] less h = tt
  not_below_mono x y (z ∷ zs) less h =
      (ground (arith, fl.lt_trans z x y), not_below_mono x y zs less h.1)

  All-insert_sorted :
      (P : F → Type 0) (x : F) (xs : List F) → P x → All P xs → All P (insert_sorted x xs)
  unfolding insert_sorted
  All-insert_sorted P x [] px h = (px, tt)
  All-insert_sorted P x (y ∷ ys) px h = elim (Bool-cases (lt_float x y)) [
    | inl less ↦ rw less (px, h)
    | inr more ↦ rw more (h.0, All-insert_sorted P x ys px h.1)
  ]

  insert_sorted-IsSorted : (x : F) (xs : List F) → IsSorted xs → IsSorted (insert_sorted x xs)
  unfolding insert_sorted
  insert_sorted-IsSorted x [] h = (tt, tt)
  insert_sorted-IsSorted x (y ∷ ys) h = elim (Bool-cases (lt_float x y)) [
    | inl less ↦ rw less ((lt_asymm x y less, not_below_mono x y ys less h.0), h)
    | inr more ↦ rw more (
      All-insert_sorted (λ z. lt_float z y ≡ false) x ys more h.0,
      insert_sorted-IsSorted x ys h.1,
    )
  ]

  sort_floats-IsSorted : (xs : List F) → IsSorted (sort_floats xs)
  unfolding sort_floats
  sort_floats-IsSorted [] = tt
  sort_floats-IsSorted (x ∷ xs) =
      insert_sorted-IsSorted x (sort_floats xs) (sort_floats-IsSorted xs)

  -- How many values exceed `v`, and how many lie below it.
  unfoldable pub above : F → List F → ℕ
  above v = count_if (λ x. lt_float v x)

  unfoldable pub below : F → List F → ℕ
  below v = count_if (λ x. lt_float x v)

  below_first : (x : F) (xs : List F) → All (λ y. lt_float y x ≡ false) xs → below x xs ≡ 0
  unfolding below count_if
  below_first x [] h = refl
  below_first x (y ∷ ys) h = ground (arith, below_first x ys h.1)

  above_at :
      (xs : List F) (i : ℕ) (d : F)
      → IsSorted xs
      → i < length xs
      → above (get_or xs i d) xs + suc i ≤ length xs
  unfolding above count_if
  above_at [] i d h lt = elim lt [ ]
  above_at (x ∷ xs) zero d h lt =
      ground (arith, fl.lt_irrefl x, count_if-le-length (λ y. lt_float x y) xs)
  above_at (x ∷ xs) (suc i) d h lt =
      let small =
        All-Among (λ y. lt_float y x ≡ false) (get_or xs i d) xs h.0
          (Among-get_or xs i d (omega arith)) in
      let rest = above_at xs i d h.1 (omega arith) in ground (arith, small, rest)

  below_at :
      (xs : List F) (i : ℕ) (d : F) → IsSorted xs → i < length xs → below (get_or xs i d) xs ≤ i
  unfolding below count_if
  below_at [] i d h lt = elim lt [ ]
  below_at (x ∷ xs) zero d h lt = ground (arith, fl.lt_irrefl x, below_first x xs h.0)
  below_at (x ∷ xs) (suc i) d h lt =
      let rest = below_at xs i d h.1 (omega arith) in ground (arith, rest)

  compute_p95-cons :
      (x : F) (xs : List F)
      → compute_p95 (x ∷ xs)
        ≡ get_or (sort_floats (x ∷ xs)) (p95_index (length (x ∷ xs))) float_zero
  unfolding compute_p95
  compute_p95-cons x xs = ground arith

  -- `v` is one of the samples, at most one sample in twenty exceeds it, and fewer than nineteen in
  -- twenty lie below it.
  abbrev pub IsPercentile95 : F → List F → Type 0
  IsPercentile95 v xs =
      Among v xs × (20 * above v xs ≤ length xs) × (20 * below v xs < 19 * length xs)

  -- Of a window that is not empty the computed value is one of the samples; at most one sample in
  -- twenty exceeds it, and fewer than nineteen in twenty lie below it.
  pub compute_p95-IsPercentile95 :
      (xs : List F) → 0 < length xs → IsPercentile95 (compute_p95 xs) xs
  unfolding above below
  compute_p95-IsPercentile95 [] h = elim h [ ]
  compute_p95-IsPercentile95 (x ∷ rest) h =
      subst (λ v. IsPercentile95 v xs) (sym (compute_p95-cons x rest))
        (
          Among-sort_floats _ xs (Among-get_or sorted i float_zero inside),
          omega (arith, index, above_sorted, above_at sorted i float_zero ordered inside, size),
          omega (arith, index, below_sorted, below_at sorted i float_zero ordered inside, size),
        )
    where
      xs : List F
      xs = x ∷ rest

      sorted : List F
      sorted = sort_floats xs

      i : ℕ
      i = p95_index (length xs)

      index : (i < length xs) × (95 * length xs ≤ 100 * suc i) × (100 * i < 95 * length xs)
      index = p95_index_bounds (length xs) (omega arith)

      size : length sorted ≡ length xs
      size = length-sort_floats xs

      inside : i < length sorted
      inside = omega (arith, index.0, size)

      ordered : IsSorted sorted
      ordered = sort_floats-IsSorted xs

      above_sorted :
          above (get_or sorted i float_zero) sorted ≡ above (get_or sorted i float_zero) xs
      above_sorted = count_if-sort_floats _ xs

      below_sorted :
          below (get_or sorted i float_zero) sorted ≡ below (get_or sorted i float_zero) xs
      below_sorted = count_if-sort_floats _ xs
