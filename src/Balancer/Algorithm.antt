-- ===== src/Balancer/Algorithm.antt =====
-- The interface `Algorithm` of internal/balancer/weighted.go. `Select` may keep a state between
-- calls.
use balance_x.Common.{String, List, ◌∷◌, Among}
use balance_x.Common.Dict.{Dict}
use balance_x.Metrics.{ServerStats}

pub record Algorithm (F S : Type 0) : Type 0 where
  pub select : List String → Dict (ServerStats F) → String → S → S × String

-- In the state `s` the algorithm selects one of its candidates, if there are any, whatever the
-- statistics and the priority: what the router relies on.
abbrev pub SelectsAmong : {F S : Type 0} → Algorithm F S → S → Type 0
SelectsAmong {F} algorithm s =
    (c : String) (cs : List String) (stats : Dict (ServerStats F)) (priority : String)
    → Among (algorithm.select (c ∷ cs) stats priority s).1 (c ∷ cs)
