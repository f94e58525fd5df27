-- ===== src/Common/Dict.antt =====
-- A Go map with string keys, as an association list with the first entry of a key in force.
-- `adjust` is the update of a value that the map holds a pointer to.
use Prim.Native.String.{String}
use mathlib.Core.Path.{◌≡◌, refl, subst}
use mathlib.Core.Logic.{inl, inr}
use mathlib.Core.Bool.{Bool, false, ◌||◌}
use mathlib.Core.Option.{Option, none, some}
use mathlib.Core.Option
use mathlib.Core.List.{List, [], ◌∷◌}
use native.Mathlib.Omega.{arith}
use text.Mathlib.TextEquality.{eq_iff}
use balance_x.Common.Tests.{str_eq, if◌then◌else◌, Bool-cases}

abbrev pub Dict {ℓ} : Type ℓ → Type ℓ
Dict V = List (String × V)

module _ {ℓ} {V : Type ℓ} where
  unfoldable pub lookup : String → Dict V → Option V
  lookup key [] = none
  lookup key ((at, stored) ∷ entries) = if str_eq at key then some stored else lookup key entries

  -- `m[key] = value`.
  unfoldable pub insert : String → V → Dict V → Dict V
  insert key value [] = (key, value) ∷ []
  insert key value ((at, stored) ∷ entries) =
      if str_eq at key then (key, value) ∷ entries else (at, stored) ∷ insert key value entries

  -- The value at `key`, if there is one, is changed by `f`.
  unfoldable pub adjust : String → (V → V) → Dict V → Dict V
  adjust key f [] = []
  adjust key f ((at, stored) ∷ entries) =
      if str_eq at key then (at, f stored) ∷ entries else (at, stored) ∷ adjust key f entries

  pub lookup-insert :
      (key other : String) (value : V) (entries : Dict V)
      → lookup other (insert key value entries)
        ≡ (if str_eq key other then some value else lookup other entries)
  unfolding lookup insert
  lookup-insert key other value [] = refl
  lookup-insert key other value ((at, stored) ∷ entries) = ground (
    arith,
    lookup-insert key other value entries,
    eq_iff at key,
    eq_iff at other,
    eq_iff key other,
  )

  pub lookup-adjust :
      (key other : String) (f : V → V) (entries : Dict V)
      → lookup other (adjust key f entries)
        ≡ (if str_eq key other then Option.map f (lookup other entries) else lookup other entries)
  unfolding lookup adjust
  lookup-adjust key other f [] = ground arith
  lookup-adjust key other f ((at, stored) ∷ entries) =
      ground
        (arith, lookup-adjust key other f entries, eq_iff at key, eq_iff at other, eq_iff key other)

  pub lookup-adjust_self :
      (key : String) (f : V → V) (v : V) (entries : Dict V)
      → lookup key entries ≡ some v
      → lookup key (adjust key f entries) ≡ some (f v)
  lookup-adjust_self key f v entries found =
      ground (arith, lookup-adjust key key f entries, eq_iff key key, found)

  pub lookup-insert_self :
      (key : String) (v : V) (entries : Dict V) → lookup key (insert key v entries) ≡ some v
  lookup-insert_self key v entries = ground (arith, lookup-insert key key v entries, eq_iff key key)

module _ {V : Type 0} where
  -- Every stored value satisfies `P`.
  abbrev pub AllValues : (V → Type 0) → Dict V → Type 0
  AllValues P [] = Unit {0}
  AllValues P ((k, v) ∷ m) = P v × AllValues P m

  pub AllValues-insert :
      (P : V → Type 0) (k : String) (v : V) (m : Dict V)
      → P v
      → AllValues P m
      → AllValues P (insert k v m)
  unfolding insert
  AllValues-insert P k v [] p h = (p, tt)
  AllValues-insert P k v ((j, w) ∷ m) p h = elim (Bool-cases (str_eq j k)) [
    | inl e ↦ rw e (p, h.1)
    | inr n ↦ rw n (h.0, AllValues-insert P k v m p h.1)
  ]

  pub AllValues-adjust :
      (P : V → Type 0) (k : String) (f : V → V) (m : Dict V)
      → ((v : V) → P v → P (f v))
      → AllValues P m
      → AllValues P (adjust k f m)
  unfolding adjust
  AllValues-adjust P k f [] keep h = tt
  AllValues-adjust P k f ((j, w) ∷ m) keep h = elim (Bool-cases (str_eq j k)) [
    | inl e ↦ rw e (keep w h.0, h.1)
    | inr n ↦ rw n (h.0, AllValues-adjust P k f m keep h.1)
  ]

module _ {V : Type 0} where
  pub AllValues-lookup :
      (P : V → Type 0) (k : String) (v : V) (m : Dict V) → AllValues P m → lookup k m ≡ some v → P v
  unfolding lookup
  AllValues-lookup P k v [] h e = cc
  AllValues-lookup P k v ((j, w) ∷ m) h e = elim (Bool-cases (str_eq j k)) [
    | inl same ↦ let found : w ≡ v = ground (arith, same, e) in subst P found h.0
    | inr differ ↦ AllValues-lookup P k v m h.1 (rw differ at e)
  ]

module _ {ℓ} {V : Type ℓ} where
  -- No key stands twice, as in a Go map.
  abbrev pub HasDistinctKeys : Dict V → Type ℓ
  HasDistinctKeys [] = Unit
  HasDistinctKeys ((k, v) ∷ m) = (lookup k m ≡ none) × HasDistinctKeys m

  pub HasDistinctKeys-insert :
      (k : String) (v : V) (m : Dict V) → HasDistinctKeys m → HasDistinctKeys (insert k v m)
  unfolding insert lookup
  HasDistinctKeys-insert k v [] h = (refl, tt)
  HasDistinctKeys-insert k v ((j, w) ∷ m) h = elim (Bool-cases (str_eq j k)) [
    | inl e ↦
        let same : j ≡ k = (eq_iff j k).0 e in rw e (subst (λ i. lookup i m ≡ none) same h.0, h.1)
    | inr n ↦ rw n (
      ground (arith, lookup-insert k j v m, eq_iff k j, eq_iff j k, h.0, n),
      HasDistinctKeys-insert k v m h.1,
    )
  ]

  pub HasDistinctKeys-adjust :
      (k : String) (f : V → V) (m : Dict V) → HasDistinctKeys m → HasDistinctKeys (adjust k f m)
  unfolding adjust
  HasDistinctKeys-adjust k f [] h = tt
  HasDistinctKeys-adjust k f ((j, w) ∷ m) h = elim (Bool-cases (str_eq j k)) [
    | inl e ↦ rw e h
    | inr n ↦ rw n (ground (arith, lookup-adjust k j f m, h.0), HasDistinctKeys-adjust k f m h.1)
  ]

-- A Go `map[string]bool` used as a set, filled from a list.
unfoldable pub contains : String → List String → Bool
contains k [] = false
contains k (j ∷ js) = str_eq j k || contains k js
