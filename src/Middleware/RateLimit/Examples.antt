-- ===== src/Middleware/RateLimit/Examples.antt =====
-- The theorems on internal/middleware/ratelimit.go and headers.go at a few requests.
use balance_x.Middleware.RateLimit.Address.{extract_ip-enriched}
use balance_x.Http.{header_value}
use balance_x.Common.Dict.{lookup}
use balance_x.Middleware.RateLimit.{extract_ip}
use balance_x.Config.Defaults.{text_or}
use balance_x.Middleware.RateLimit.Separate.{
  alone, decisions, decisions-alone, Event, events_of, request, tick,
}
use balance_x.Middleware.Headers.{client_ip, Request, enriched, enriched_lem}
use balance_x.Common.{
  String, Option, ℕ, List, Bool, some, ◌∷◌, ltb, [], ◌-◌, true, ◌≡◌, false, refl,
}

-- A limiter that admits a fixed number of requests.
abbrev budget : ℕ → ℕ → Bool × ℕ
budget now left = (ltb 0 left, left - 1)

abbrev events : List Event
events =
    request 0 "a"
    ∷ request 1 "b"
    ∷ request 2 "a"
    ∷ request 3 "a"
    ∷ tick 4
    ∷ request 5 "b"
    ∷ tick 300000000004
    ∷ request 300000000005 "a"
    ∷ []

decisions-alone_example :
    decisions 2 budget "a" events (record { entries = [] }) ≡ true ∷ true ∷ false ∷ true ∷ []
unfolding alone events_of lookup
decisions-alone_example = decisions-alone 2 budget "a" events (record { entries = [] }) tt

abbrev host : String → Option String
host addr = some "10.0.0.7"

abbrev spoofed : Request
spoofed = record {
  headers = ("X-Real-IP", "1.1.1.1" ∷ []) ∷ ("X-Request-ID", "42" ∷ []) ∷ [];
  remote_addr = "10.0.0.7:9000";
  host = "lb";
  is_tls = true;
}

enriched_lem_example :
    let sent = enriched host "7" spoofed in
    (header_value "X-Real-IP" sent ≡ "10.0.0.7")
    × (header_value "X-Forwarded-For" sent ≡ "10.0.0.7")
    × (header_value "X-Forwarded-Proto" sent ≡ "https")
    × (header_value "X-Forwarded-Host" sent ≡ "lb")
    × (header_value "X-Request-ID" sent ≡ "42")
unfolding client_ip text_or lookup header_value
enriched_lem_example = enriched_lem host "7" spoofed

extract_ip-enriched_example :
    extract_ip host (record spoofed { headers = enriched host "7" spoofed }) ≡ "10.0.0.7"
unfolding client_ip
extract_ip-enriched_example = extract_ip-enriched host "7" spoofed refl
