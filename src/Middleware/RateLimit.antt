-- ===== src/Middleware/RateLimit.antt =====
-- internal/middleware/ratelimit.go. `rate.Limiter` of golang.org/x/time/rate is a parameter: `L`, a new
-- one, and what `Allow` makes of it at a time. Times are nanoseconds; `next` is the next handler.
pub mod Separate
pub mod Address
mod Examples
use balance_x.Routing.Bytes.{codes}
use balance_x.Common.Dict.{Dict, adjust, lookup, insert}
use Prim.Native.String
use Prim.Native.Char.{code}
use balance_x.Common.{
  none, some, String, Option, ℕ, if◌then◌else◌, Bool, ◌==◌, not, List, str_eq, some, ◌∷◌, ltb, ◌*◌,
  ◌^◌, ◌-◌, [],
}
use balance_x.Http.{header_value, set_header_to, http_error, Action}
use balance_x.Middleware.Headers.{Request, host_or, client_ip}

-- The text before the first comma.
unfoldable pub before_comma : String → String
before_comma String.[] = ""
before_comma (String.◌∷◌ c s) =
    let rest = before_comma s in if code c == 44 then "" else String.◌∷◌ c rest

unfoldable pub extract_ip : (String → Option String) → Request → String
unfolding client_ip before_comma
extract_ip split_host r =
    let real = header_value "X-Real-IP" r.headers in
    let forwarded = header_value "X-Forwarded-For" r.headers in
    if not (str_eq real "")
    then real
    else if not (str_eq forwarded "")
    then before_comma forwarded
    else client_ip split_host r

pub record IpLimiter (L : Type 0) : Type 0 where
  pub limiter : L
  pub last_seen : ℕ

pub record Limiters (L : Type 0) : Type 0 where
  pub entries : Dict (IpLimiter L)

module _ {L : Type 0} (new_limiter : L) where
  -- `getLimiter`.
  unfoldable pub get_limiter : ℕ → String → Limiters L → L × Limiters L
  get_limiter now ip rl = elim (lookup ip rl.entries) [
    | some e ↦
        (e.limiter, record rl { entries = insert ip (record e { last_seen = now }) rl.entries })
    | none ↦ (
      new_limiter,
      record rl {
        entries = insert ip (record { limiter = new_limiter; last_seen = now }) rl.entries;
      },
    )
  ]

-- The limiter is shared with the map: its new state is the map's.
unfoldable pub set_limiter : {L : Type 0} → String → L → Limiters L → Limiters L
set_limiter ip l rl = record rl { entries = adjust ip (λ e. record e { limiter = l }) rl.entries }

module _ {L : Type 0} (new_limiter : L) (allow : ℕ → L → Bool × L) where
  -- `limiter.Allow()` for the limiter of `ip`.
  unfoldable pub admit : ℕ → String → Limiters L → Bool × Limiters L
  unfolding get_limiter set_limiter
  admit now ip rl =
      let got = get_limiter new_limiter now ip rl in
      let answer = allow now got.0 in (answer.0, set_limiter ip answer.1 got.1)

  unfoldable pub rate_limited :
      {S : Type 0}
      → (String → Option String)
      → ℕ
      → (S → S × List Action)
      → Request
      → Limiters L
      → S
      → Limiters L × S × List Action
  unfolding admit extract_ip
  rate_limited split_host now next r rl s =
      let answer = admit now (extract_ip split_host r) rl in
      if not answer.0
      then (
        answer.1,
        s,
        set_header_to "Retry-After" "1" ∷ http_error (codes "Too Many Requests") 429,
      )
      else let after = next s in (answer.1, after.0, after.1)

abbrev pub keep_for : ℕ
keep_for = 300000000000

-- What a tick of the clean-up's clock does: the entries not seen for five minutes go.
unfoldable pub cleanup : {L : Type 0} → ℕ → Dict (IpLimiter L) → Dict (IpLimiter L)
cleanup now [] = []
cleanup now ((ip, e) ∷ entries) =
    let rest = cleanup now entries in
    if ltb keep_for (now - e.last_seen) then rest else (ip, e) ∷ rest
