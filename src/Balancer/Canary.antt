-- ===== src/Balancer/Canary.antt =====
-- internal/balancer/canary.go: smooth weighted round robin. `initialized` is the atomic flag, and the
-- mutex makes concurrent calls a sequence. An entry that a map of Go lacks reads as 0;
-- weights and their sums do not wrap around.
pub mod Sums
pub mod Round
pub mod Shares
pub mod Step
pub mod Fair
pub mod Cycle
pub mod Start
pub mod Fresh
mod Examples
use balance_x.Common.{
  ℕ, Bool, true, false, String, List, [], ◌∷◌, Option, none, some, str_eq, if◌then◌else◌, ◌^◌, ◌-◌,
}
use balance_x.Common.Dict.{Dict, lookup, insert}
use balance_x.Common.Int.{ℤ, pos, negsuc, ◌+ℤ◌, ◌-ℤ◌, ltb_ℤ, eq_ℤ}
use balance_x.Metrics.{ServerStats}
use balance_x.Balancer.Algorithm.{Algorithm}

pub record Canary : Type 0 where
  pub server_weights : Dict ℤ
  pub current_weights : Dict ℤ
  pub initialized : Bool

unfoldable pub new_canary : Canary
new_canary = record { server_weights = []; current_weights = []; initialized = false }

abbrev pub or_zero : Option ℤ → ℤ
or_zero none = pos 0
or_zero (some w) = w

unfoldable pub weight_at : String → Dict ℤ → ℤ
weight_at url weights = or_zero (lookup url weights)

-- `-1 << 30`.
abbrev pub lowest : ℤ
lowest = negsuc (2 ^ 30 - 1)

-- A server with the weight `w` and the running weight 0.
unfoldable pub add_server : String → ℤ → Canary → Canary
add_server url w c = record c {
  server_weights = insert url w c.server_weights;
  current_weights = insert url (pos 0) c.current_weights;
}

module _ {F : Type 0} where
  -- The loop over the statistics.
  unfoldable pub init_loop : Dict (ServerStats F) → Canary → Canary
  unfolding add_server
  init_loop [] c = c
  init_loop ((url, s) ∷ rest) c =
      init_loop rest (add_server url (if ltb_ℤ (pos 0) s.weight then s.weight else pos 1) c)

  unfoldable pub init_weights : Dict (ServerStats F) → Canary → Canary
  unfolding init_loop new_canary
  init_weights stats c =
      if c.initialized then c else record (init_loop stats new_canary) { initialized = true }

-- The loop that adds up the weights, with the servers it finds new.
unfoldable pub total_loop : List String → Canary → ℤ → Canary × ℤ
unfolding add_server
total_loop [] c total = (c, total)
total_loop (url ∷ urls) c total = elim (lookup url c.server_weights) [
  | some w ↦ total_loop urls c (total +ℤ w)
  | none ↦ total_loop urls (add_server url (pos 1) c) (total +ℤ pos 1)
]

-- The loop that raises the running weights, with `best` and `bestCW`.
unfoldable pub raise_loop : Dict ℤ → List String → Dict ℤ → String → ℤ → Dict ℤ × String
unfolding weight_at
raise_loop weights [] current best best_cw = (current, best)
raise_loop weights (url ∷ urls) current best best_cw =
    let raised = weight_at url current +ℤ weight_at url weights in
    raise_loop weights urls (insert url raised current) (if ltb_ℤ best_cw raised then url else best)
      (if ltb_ℤ best_cw raised then raised else best_cw)

-- The last step: the chosen server pays the total.
unfoldable pub pay : ℤ → Dict ℤ × String → Dict ℤ
unfolding weight_at
pay total (current, best) =
    if str_eq best "" then current else insert best (weight_at best current -ℤ total) current

unfoldable pub choose : String → List String → Canary × ℤ → Canary × String
unfolding raise_loop pay
choose c cs (k, total) =
    if eq_ℤ total (pos 0)
    then (k, c)
    else let raised = raise_loop k.server_weights (c ∷ cs) k.current_weights "" lowest in
      (record k { current_weights = pay total raised }, raised.1)

module _ {F : Type 0} where
  unfoldable pub select : List String → Dict (ServerStats F) → String → Canary → Canary × String
  unfolding init_weights total_loop choose
  select [] stats priority k = (k, "")
  select (c ∷ cs) stats priority k =
      choose c cs (total_loop (c ∷ cs) (init_weights stats k) (pos 0))

  unfoldable pub canary : Algorithm F Canary
  canary = record { select = select }
