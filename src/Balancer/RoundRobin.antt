-- ===== src/Balancer/RoundRobin.antt =====
-- internal/balancer/roundrobin.go. The state is the counter, an unsigned 64-bit word; the atomic
-- `Add` makes concurrent calls a sequence of such steps.
use mathlib.Core.List.{Perm, perm_append_comm}
use native.Mathlib.Nat.{zero-add, add-zero, suc-add}
use balance_x.Common.{
  ℕ, zero, suc, ◌+◌, ◌-◌, ◌%◌, ◌^◌, ◌≤◌, ◌<◌, ◌≡◌, refl, String, List, [], ◌∷◌, ◌++◌, length,
  get_or, drop, length-drop, Among, Among-get_or, arith, ◌∙◌, ap, subst, ap₂, sym,
}
use balance_x.Common.Dict.{Dict}
use balance_x.Metrics.{ServerStats}
use balance_x.Balancer.Algorithm.{Algorithm, SelectsAmong}

abbrev pub u64_mod : ℕ
u64_mod = 2 ^ 64

-- `counter.Add(1) - 1`, the index before it is reduced.
abbrev ticket : ℕ → ℕ
ticket counter = ((counter + 1) % u64_mod + u64_mod - 1) % u64_mod

module _ {F : Type 0} where
  unfoldable pub select : List String → Dict (ServerStats F) → String → ℕ → ℕ × String
  select [] stats priority counter = (counter, "")
  select (c ∷ cs) stats priority counter =
      ((counter + 1) % u64_mod, get_or (c ∷ cs) (ticket counter % length (c ∷ cs)) "")

  pub select-Among :
      (c : String) (cs : List String) (stats : Dict (ServerStats F)) (priority : String) (s : ℕ)
      → Among (select (c ∷ cs) stats priority s).1 (c ∷ cs)
  unfolding select
  select-Among c cs stats priority s = Among-get_or (c ∷ cs) _ "" (omega arith)

  unfoldable pub round_robin : Algorithm F ℕ
  round_robin = record { select = select }

  pub round_robin-SelectsAmong : (s : ℕ) → SelectsAmong {F = F} round_robin s
  unfolding round_robin
  round_robin-SelectsAmong s c cs stats priority = select-Among c cs stats priority s

  -- The servers of `k` calls in a row with the same candidates.
  unfoldable pub picks : ℕ → List String → Dict (ServerStats F) → String → ℕ → List String
  picks zero cs stats priority counter = []
  picks (suc k) cs stats priority counter =
      (select cs stats priority counter).1
      ∷ picks k cs stats priority (select cs stats priority counter).0

abbrev take : ℕ → List String → List String
take zero xs = []
take (suc n) [] = []
take (suc n) (x ∷ xs) = x ∷ take n xs

take-append-drop : (n : ℕ) (xs : List String) → take n xs ++ drop n xs ≡ xs
take-append-drop zero xs = refl
take-append-drop (suc n) [] = refl
take-append-drop (suc n) (x ∷ xs) = rw (take-append-drop n xs)

take_all : (xs : List String) → take (length xs) xs ≡ xs
take_all [] = refl
take_all (x ∷ xs) = rw (take_all xs)

-- The next element of the list from position `i` on.
take-drop :
    (k i : ℕ) (xs : List String)
    → i < length xs
    → take (suc k) (drop i xs) ≡ get_or xs i "" ∷ take k (drop (suc i) xs)
take-drop k i [] h = elim h [ ]
take-drop k zero (x ∷ xs) h = refl
take-drop k (suc i) (x ∷ xs) h = take-drop k i xs (omega arith)

mod-suc : (c i n : ℕ) → c % n ≡ i → suc i < n → (c + 1) % n ≡ suc i
mod-suc c i n e h = grind arith

mod-sub_self : (c n : ℕ) → 0 < n → (c + (n - c % n)) % n ≡ 0
mod-sub_self c n h = grind arith

-- One call, away from the wrap of the counter.
select_lem :
    {F : Type 0} (cs : List String) (stats : Dict (ServerStats F)) (priority : String) (c : ℕ)
    → 0 < length cs
    → c + 1 < u64_mod
    → select cs stats priority c ≡ (c + 1, get_or cs (c % length cs) "")
unfolding select
select_lem [] stats priority c h w = elim h [ ]
select_lem (x ∷ xs) stats priority c h w =
    let same_ticket : ticket c ≡ c = omega arith in
    let same_counter : (c + 1) % u64_mod ≡ c + 1 = omega arith in cc (same_ticket, same_counter)

module _ {F : Type 0} (cs : List String) (stats : Dict (ServerStats F)) (priority : String) where
  picks-add :
      (a b c : ℕ)
      → 0 < length cs
      → c + a + b < u64_mod
      → picks (a + b) cs stats priority c
        ≡ picks a cs stats priority c ++ picks b cs stats priority (c + a)
  unfolding picks
  picks-add zero b c h w = rw (zero-add, add-zero)
  picks-add (suc a) b c h w =
      let shift : c + suc a ≡ c + 1 + a = omega arith in
      rw (suc-add, shift)
        (rw (select_lem cs stats priority c h (omega arith))
          (ap (λ r. get_or cs (c % length cs) "" ∷ r) (picks-add a b (c + 1) h (omega arith))))

  -- A run that stays inside the list takes its elements in order.
  picks_segment :
      (k i c : ℕ)
      → c % length cs ≡ i
      → i + k ≤ length cs
      → 0 < length cs
      → c + k < u64_mod
      → picks k cs stats priority c ≡ take k (drop i cs)
  unfolding picks
  picks_segment zero i c e fits h w = refl
  picks_segment (suc zero) i c e fits h w =
      rw (select_lem cs stats priority c h (omega arith), e, take-drop zero i cs (omega arith))
  picks_segment (suc (suc k)) i c e fits h w =
      rw (select_lem cs stats priority c h (omega arith), e, take-drop (suc k) i cs (omega arith))
        (ap (λ r. get_or cs i "" ∷ r)
          (picks_segment (suc k) (suc i) (c + 1) (mod-suc c i (length cs) e (omega arith))
            (omega arith) h (omega arith)))

  -- While the counter does not wrap, as many calls in a row as there are candidates select the
  -- candidates from the counter's position on and then those before it: each of them once.
  pub picks_rotation :
      (c : ℕ)
      → 0 < length cs
      → c + length cs < u64_mod
      → (picks (length cs) cs stats priority c ≡ drop (c % length cs) cs ++ take (c % length cs) cs)
        × Perm (picks (length cs) cs stats priority c) cs
  picks_rotation c h w = (
    rotation,
    subst (λ l. Perm l cs) (sym rotation)
        (subst (λ l. Perm (drop i cs ++ take i cs) l) (take-append-drop i cs)
          (perm_append_comm (drop i cs) (take i cs))),
  )
    where
      i : ℕ
      i = c % length cs

      a : ℕ
      a = length cs - i

      small : i < length cs
      small = omega arith

      first : picks a cs stats priority c ≡ drop i cs
      first =
          picks_segment a i c refl (omega arith) h (omega arith)
          ∙ subst (λ n. take n (drop i cs) ≡ drop i cs) (length-drop i cs) (take_all (drop i cs))

      second : picks i cs stats priority (c + a) ≡ take i cs
      second =
          picks_segment i 0 (c + a) (mod-sub_self c (length cs) h) (omega arith) h (omega arith)

      whole : length cs ≡ a + i
      whole = omega arith

      rotation : picks (length cs) cs stats priority c ≡ drop i cs ++ take i cs
      rotation =
          ap (λ n. picks n cs stats priority c) whole
          ∙ picks-add a i c h (omega arith)
          ∙ ap₂ ◌++◌ first second
