-- ===== src/Middleware/RateLimit/Separate.antt =====
-- internal/middleware/ratelimit.go, its clean-up included, keeps the clients apart: each address has a limiter of its own.
use balance_x.Middleware.RateLimit.{
  get_limiter, Limiters, admit, IpLimiter, set_limiter, cleanup, keep_for,
}
use balance_x.Common.{
  String, none, some, ℕ, Bool, List, Option, ◌∷◌, str_eq, ◌≡◌, [], ap, if◌then◌else◌, false, refl,
  true, Bool-cases, ◌∙◌, subst, inl, eq_iff, ap₂, inr, ltb, sym, arith, ◌-◌,
}
use balance_x.Common.Dict.{
  lookup, insert, adjust, lookup-insert, lookup-adjust, lookup-adjust_self, lookup-insert_self,
  HasDistinctKeys, Dict, HasDistinctKeys-adjust, HasDistinctKeys-insert,
}

-- What reaches the limiters: a request at a time from an address, or a tick of the clean-up.
pub data Event : Type 0 where
  request : ℕ → String → Event
  tick : ℕ → Event

module _ {L : Type 0} (new_limiter : L) (allow : ℕ → L → Bool × L) where
  -- The answers that the requests of the address `x` get, among events of any addresses.
  unfoldable pub decisions : String → List Event → Limiters L → List Bool
  decisions x [] rl = []
  decisions x (request now ip ∷ events) rl =
      let answer = admit new_limiter allow now ip rl in
      let rest = decisions x events answer.1 in if str_eq ip x then answer.0 ∷ rest else rest
  decisions x (tick now ∷ events) rl =
      decisions x events (record rl { entries = cleanup now rl.entries })

  -- The requests of `x`, and the ticks.
  unfoldable pub events_of : String → List Event → List Event
  events_of x [] = []
  events_of x (request now ip ∷ events) =
      let rest = events_of x events in if str_eq ip x then request now ip ∷ rest else rest
  events_of x (tick now ∷ events) = tick now ∷ events_of x events

  abbrev pub limiter_of : Option (IpLimiter L) → L
  limiter_of none = new_limiter
  limiter_of (some e) = e.limiter

  abbrev admitted_entry : ℕ → Option (IpLimiter L) → IpLimiter L
  admitted_entry now o = record { limiter = (allow now (limiter_of o)).1; last_seen = now }

  -- What is left of a limiter at a time: nothing, five minutes after it was last seen.
  abbrev pub remembered : ℕ → Option (IpLimiter L) → Option (IpLimiter L)
  remembered now none = none
  remembered now (some e) = if ltb keep_for (now - e.last_seen) then none else some e

  -- One limiter that every request asks, whatever its address. It starts anew at the request after a
  -- tick that comes more than five minutes after the request before.
  unfoldable pub alone : List Event → Option (IpLimiter L) → List Bool
  alone [] o = []
  alone (request now ip ∷ events) o =
      (allow now (limiter_of o)).0 ∷ alone events (some (admitted_entry now o))
  alone (tick now ∷ events) o = alone events (remembered now o)

  get_limiter_lem :
      (now : ℕ) (ip : String) (rl : Limiters L) (o : Option (IpLimiter L))
      → lookup ip rl.entries ≡ o
      → get_limiter new_limiter now ip rl ≡ (
        limiter_of o,
        record rl {
          entries = insert ip (record { limiter = limiter_of o; last_seen = now }) rl.entries;
        },
      )
  unfolding get_limiter
  get_limiter_lem now ip rl none e = rw (e, get_limiter) refl
  get_limiter_lem now ip rl (some entry) e = rw (e, get_limiter) refl

  admit-answer :
      (now : ℕ) (ip : String) (rl : Limiters L)
      → (admit new_limiter allow now ip rl).0 ≡ (allow now (limiter_of (lookup ip rl.entries))).0
  unfolding admit
  admit-answer now ip rl =
      ap (λ g. (allow now g.0).0) (get_limiter_lem now ip rl (lookup ip rl.entries) refl)

  admit-entries :
      (now : ℕ) (ip : String) (rl : Limiters L)
      → let o = lookup ip rl.entries in
        (admit new_limiter allow now ip rl).1.entries
        ≡ adjust ip
            (λ e. record e { limiter = (allow now (limiter_of o)).1 })
            (insert ip (record { limiter = limiter_of o; last_seen = now }) rl.entries)
  unfolding admit set_limiter
  admit-entries now ip rl =
      ap (λ g. (set_limiter ip (allow now g.0).1 g.1).entries)
        (get_limiter_lem now ip rl (lookup ip rl.entries) refl)

  admit-entry :
      (now : ℕ) (ip : String) (rl : Limiters L)
      → lookup ip (admit new_limiter allow now ip rl).1.entries
        ≡ some (admitted_entry now (lookup ip rl.entries))
  admit-entry now ip rl =
      let o = lookup ip rl.entries in
      let inserted : IpLimiter L = record { limiter = limiter_of o; last_seen = now } in
      let l : L = (allow now (limiter_of o)).1 in
      ap (lookup ip) (admit-entries now ip rl)
      ∙ lookup-adjust_self ip (λ e. record e { limiter = l }) inserted
          (insert ip inserted rl.entries) (lookup-insert_self ip inserted rl.entries)

  admit-HasDistinctKeys :
      (now : ℕ) (ip : String) (rl : Limiters L)
      → HasDistinctKeys rl.entries
      → HasDistinctKeys (admit new_limiter allow now ip rl).1.entries
  admit-HasDistinctKeys now ip rl h =
      subst HasDistinctKeys (sym (admit-entries now ip rl))
        (HasDistinctKeys-adjust ip _ _ (HasDistinctKeys-insert ip _ rl.entries h))

  admit-other :
      (now : ℕ) (ip x : String) (rl : Limiters L)
      → str_eq ip x ≡ false
      → lookup x (admit new_limiter allow now ip rl).1.entries ≡ lookup x rl.entries
  admit-other now ip x rl apart =
      let o = lookup ip rl.entries in
      let inserted : IpLimiter L = record { limiter = limiter_of o; last_seen = now } in
      ap (lookup x) (admit-entries now ip rl)
      ∙ lookup-adjust ip x _ (insert ip inserted rl.entries)
      ∙ rw apart (lookup-insert ip x inserted rl.entries ∙ rw apart refl)

  at_self :
      (now : ℕ) (ip x : String) (rl : Limiters L)
      → str_eq ip x ≡ true
      → lookup x (admit new_limiter allow now ip rl).1.entries
        ≡ some (admitted_entry now (lookup ip rl.entries))
  at_self now ip x rl same =
      subst
        (λ y.
          lookup y (admit new_limiter allow now ip rl).1.entries
          ≡ some (admitted_entry now (lookup ip rl.entries)))
        ((eq_iff ip x).0 same) (admit-entry now ip rl)

  lookup-cleanup :
      (x : String) (now : ℕ) (m : Dict (IpLimiter L))
      → HasDistinctKeys m
      → lookup x (cleanup now m) ≡ remembered now (lookup x m)
  unfolding lookup cleanup
  lookup-cleanup x now [] h = refl
  lookup-cleanup x now ((k, e) ∷ m) h = ground (arith, lookup-cleanup x now m h.1, h.0, eq_iff k x)

  cleanup-HasDistinctKeys :
      (now : ℕ) (m : Dict (IpLimiter L)) → HasDistinctKeys m → HasDistinctKeys (cleanup now m)
  unfolding cleanup
  cleanup-HasDistinctKeys now [] h = tt
  cleanup-HasDistinctKeys now ((k, e) ∷ m) h =
      let rest = cleanup-HasDistinctKeys now m h.1 in
      elim (Bool-cases (ltb keep_for (now - e.last_seen))) [
        | inl gone ↦ rw gone rest
        | inr kept ↦ rw kept (lookup-cleanup k now m h.1 ∙ ap (remembered now) h.0, rest)
      ]

  -- Requests of any addresses and ticks of the clean-up come in any order at any times. The answers
  -- that one address gets are those of a limiter that sees that address's requests only and that
  -- starts anew at the request after a tick more than five minutes after the request before.
  pub decisions-alone :
      (x : String) (events : List Event) (rl : Limiters L)
      → HasDistinctKeys rl.entries
      → decisions x events rl ≡ alone (events_of x events) (lookup x rl.entries)
  unfolding decisions events_of alone
  decisions-alone x [] rl h = refl
  decisions-alone x (tick now ∷ events) rl h =
      decisions-alone x events (record rl { entries = cleanup now rl.entries })
        (cleanup-HasDistinctKeys now rl.entries h)
      ∙ ap (alone (events_of x events)) (lookup-cleanup x now rl.entries h)
  decisions-alone x (request now ip ∷ events) rl h =
      let after = (admit new_limiter allow now ip rl).1 in
      let ih = decisions-alone x events after (admit-HasDistinctKeys now ip rl h) in
      elim (Bool-cases (str_eq ip x)) [
        | inl same ↦
            rw (same, decisions, events_of, alone)
              (subst
                (λ y.
                  (admit new_limiter allow now ip rl).0 ∷ decisions x events after
                  ≡ (allow now (limiter_of (lookup y rl.entries))).0
                    ∷ alone (events_of x events) (some (admitted_entry now (lookup y rl.entries))))
                ((eq_iff ip x).0 same)
                (ap₂ ◌∷◌ (admit-answer now ip rl)
                  (ih ∙ ap (alone (events_of x events)) (at_self now ip x rl same))))
        | inr apart ↦
            rw (apart, decisions, events_of)
              (ih ∙ ap (alone (events_of x events)) (admit-other now ip x rl apart))
      ]
