-- ===== src/Middleware/Cors.antt =====
-- internal/middleware/cors.go. `next` is the next handler, over a state `S`.
use balance_x.Common.{
  Bool-cases, inl, inr, refl, ◌≡◌, String, List, [], ◌∷◌, ◌++◌, str_eq, if◌then◌else◌,
}
use balance_x.Http.{Action, set_header_to, write_status, first_status, header_after}
use Prim.Native.String

pub record CorsPolicy : Type 0 where
  pub allowed_origins : List String
  pub allowed_methods : List String
  pub allowed_headers : List String
  pub max_age : String

unfoldable pub default_cors_config : CorsPolicy
default_cors_config = record {
  allowed_origins = "*" ∷ [];
  allowed_methods = "GET" ∷ "POST" ∷ "PUT" ∷ "DELETE" ∷ "OPTIONS" ∷ "PATCH" ∷ [];
  allowed_headers = "Content-Type" ∷ "Authorization" ∷ "X-Requested-With" ∷ "X-Priority" ∷ [];
  max_age = "3600";
}

-- `strings.Join(texts, ", ")`.
unfoldable pub join : List String → String
join [] = ""
join (s ∷ []) = s
join (s ∷ t ∷ rest) = String.◌++◌ s (String.◌++◌ ", " (join (t ∷ rest)))

unfoldable pub cors_headers : CorsPolicy → List Action
cors_headers cfg =
    set_header_to "Access-Control-Allow-Origin" (join cfg.allowed_origins)
    ∷ set_header_to "Access-Control-Allow-Methods" (join cfg.allowed_methods)
    ∷ set_header_to "Access-Control-Allow-Headers" (join cfg.allowed_headers)
    ∷ set_header_to "Access-Control-Max-Age" cfg.max_age
    ∷ []

abbrev after_headers : {S : Type 0} → List Action → S × List Action → S × List Action
after_headers first r = (r.0, first ++ r.1)

unfoldable pub cors :
    {S : Type 0} → CorsPolicy → String → (S → S × List Action) → S → S × List Action
cors cfg method next s =
    if str_eq method "OPTIONS"
    then (s, cors_headers cfg ++ write_status 204 ∷ [])
    else after_headers (cors_headers cfg) (next s)

-- A preflight request is answered by 204 and never reaches the next handler. Any other request gets
-- that handler's effects and status, and each of the four headers unless that handler sets it again;
-- the values are the policy's.
pub cors_lem :
    {S : Type 0} (cfg : CorsPolicy) (method : String) (next : S → S × List Action) (s : S)
    → (value : String)
    → let r = cors cfg method next s in
      let inner = if str_eq method "OPTIONS" then (s, write_status 204 ∷ []) else next s in
      (r.0 ≡ inner.0)
      × (first_status r.1 ≡ first_status inner.1)
      × (header_after "Access-Control-Allow-Origin" value r.1
          ≡ header_after "Access-Control-Allow-Origin" (join cfg.allowed_origins) inner.1)
      × (header_after "Access-Control-Allow-Methods" value r.1
          ≡ header_after "Access-Control-Allow-Methods" (join cfg.allowed_methods) inner.1)
unfolding cors cors_headers first_status header_after
cors_lem cfg method next s value = elim (Bool-cases (str_eq method "OPTIONS")) [
  | inl e ↦ rw e (refl, refl, refl, refl)
  | inr e ↦ rw e (refl, refl, refl, refl)
]
