-- ===== src/Config/Validate.antt =====
-- `validate` and `Load` of config/config.go. Go walks the map of services in any order: that of the
-- list. `parsed` is the configuration that `json.Unmarshal` yields for the file, if it does.
pub mod Distinct
use balance_x.Common.{
  ℕ, ◌≡◌, refl, sym, ◌≢◌, ◌↔◌, ◌⊎◌, inl, inr, Bool, true, false, String, List, [], ◌∷◌, ◌++◌, map,
  Option, none, some, arith, str_eq, if◌then◌else◌, Among, eq_iff, Option-cases,
}
use balance_x.Common.Dict.{Dict, lookup, insert, lookup-insert}
use balance_x.Common.Int.{ℤ}
use balance_x.Common.Float.{Float64}
use balance_x.Config.{ServerConfig, ServiceConfig, Config}
use balance_x.Config.Defaults.{set_defaults}

pub data Error : Type 0 where
  unreadable : Error
  -- The URL, the service that had it and the service at hand.
  duplicate_url : String → String → String → Error

pub data Result (A : Type 0) : Type 0 where
  ok : A → Result A
  err : Error → Result A

-- The loop over the servers of the service `name`; `seen` gives the service of each URL met.
unfoldable pub check_servers : String → List ServerConfig → Dict String → Result (Dict String)
check_servers name [] seen = ok seen
check_servers name (s ∷ ss) seen = elim (lookup s.url seen) [
  | some other ↦ err (duplicate_url s.url other name)
  | none ↦ check_servers name ss (insert s.url name seen)
]

-- The loop over the services.
unfoldable pub check_services : Dict ServiceConfig → Dict String → Result (Dict String)
check_services [] seen = ok seen
check_services ((name, svc) ∷ rest) seen = elim (check_servers name svc.servers seen) [
  | ok seen' ↦ check_services rest seen'
  | err e ↦ err e
]

unfoldable pub validate : {F : Type 0} → Config F → Result (Config F)
unfolding check_services check_servers
validate c = elim (check_services c.services []) [ ok _ ↦ ok c | err e ↦ err e ]

unfoldable pub load :
    {F : Type 0} ⦃fl : Float64 F⦄ → (ℤ → String) → Option (Config F) → Result (Config F)
load port_text none = err unreadable
load port_text (some parsed) = validate (set_defaults port_text parsed)
