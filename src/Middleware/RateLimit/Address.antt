-- ===== src/Middleware/RateLimit/Address.antt =====
-- The address that internal/middleware/ratelimit.go counts a request for, behind
-- internal/middleware/headers.go.
use balance_x.Http.{header_value}
use balance_x.Middleware.Headers.{client_ip, enriched, enriched_lem}
use balance_x.Middleware.RateLimit.{extract_ip, Request}
use balance_x.Common.{String, Option, str_eq, ◌≡◌, false, refl}

module _ (split_host : String → Option String) where
  extract_ip-real :
      (r : Request) (ip : String)
      → str_eq ip "" ≡ false
      → header_value "X-Real-IP" r.headers ≡ ip
      → extract_ip split_host r ≡ ip
  unfolding extract_ip
  extract_ip-real r ip some_ip e = rw (e, extract_ip) (rw some_ip refl)

  -- Behind `RequestHeaders` the rate limiter counts each request for the address that it came from,
  -- whatever X-Real-IP and X-Forwarded-For the client sent, if that address is not empty.
  pub extract_ip-enriched :
      (id : String) (r : Request)
      → str_eq (client_ip split_host r) "" ≡ false
      → extract_ip split_host (record r { headers = enriched split_host id r })
        ≡ client_ip split_host r
  extract_ip-enriched id r some_ip =
      extract_ip-real (record r { headers = enriched split_host id r }) (client_ip split_host r)
        some_ip (enriched_lem split_host id r).0
