-- ===== src/Middleware/Headers.antt =====
-- internal/middleware/headers.go. Parameters are `split_host`, the host that `net.SplitHostPort` finds,
-- and the request ID that `generateRequestID` draws at random.
use balance_x.Config.Defaults.{text_or}
use balance_x.Common.Dict.{Dict, insert, lookup-insert, lookup}
use Prim.Native.String
use balance_x.Common.{
  String, Bool, Option, if◌then◌else◌, some, List, ◌≡◌, str_eq, false, Bool-cases, none, ap, inl,
  ◌∷◌, [], ◌∙◌, inr, eq_iff, true, refl,
}
use balance_x.Http.{header_value, first_value, Action, set_header_to}

pub record Request : Type 0 where
  pub headers : Dict (List String)
  pub remote_addr : String
  pub host : String
  pub is_tls : Bool

abbrev pub host_or : String → Option String → String
host_or addr none = addr
host_or addr (some ip) = ip

-- `r.Header.Set`.
abbrev pub with_header : String → String → Dict (List String) → Dict (List String)
with_header key value headers = insert key (value ∷ []) headers

unfoldable pub put_if_empty : String → String → Dict (List String) → Dict (List String)
put_if_empty key value headers =
    if str_eq (header_value key headers) "" then with_header key value headers else headers

abbrev pub chained : String → String → String
chained prior ip = if str_eq prior "" then ip else String.◌++◌ prior (String.◌++◌ ", " ip)

module _ (split_host : String → Option String) where
  unfoldable pub client_ip : Request → String
  client_ip r = host_or r.remote_addr (split_host r.remote_addr)

  -- The headers of the request when they reach the next handler.
  unfoldable pub enriched : String → Request → Dict (List String)
  unfolding client_ip put_if_empty
  enriched id r =
      let ip = client_ip r in
      let real = with_header "X-Real-IP" ip r.headers in
      let forwarded =
        with_header "X-Forwarded-For" (chained (header_value "X-Forwarded-For" real) ip) real in
      let proto =
        with_header "X-Forwarded-Proto" (if r.is_tls then "https" else "http") forwarded in
      put_if_empty "X-Request-ID" id (put_if_empty "X-Forwarded-Host" r.host proto)

  -- `next` gets the request and the ID in its context.
  unfoldable pub request_headers :
      {S : Type 0}
      → String
      → (Request → String → S → S × List Action)
      → Request
      → S
      → S × List Action
  unfolding enriched
  request_headers id next r s =
      let sent = record r { headers = enriched id r } in
      let req_id = header_value "X-Request-ID" sent.headers in
      let answer = next sent req_id s in (answer.0, set_header_to "X-Request-ID" req_id ∷ answer.1)

first_value-if :
    (b : Bool) (x : String) (o : Option (List String))
    → first_value (if b then some (x ∷ []) else o) ≡ (if b then x else first_value o)
first_value-if true x o = refl
first_value-if false x o = refl

pub header_value-with_header :
    (key other value : String) (headers : Dict (List String))
    → header_value other (with_header key value headers)
      ≡ (if str_eq key other then value else header_value other headers)
unfolding header_value
header_value-with_header key other value headers =
    ap first_value (lookup-insert key other (value ∷ []) headers)
    ∙ first_value-if (str_eq key other) value (lookup other headers)

-- The header `key`, set where it was empty.
pub header_value-put_self :
    (key value : String) (headers : Dict (List String))
    → header_value key (put_if_empty key value headers)
      ≡ (if str_eq (header_value key headers) "" then value else header_value key headers)
unfolding put_if_empty
header_value-put_self key value headers = elim (Bool-cases (str_eq (header_value key headers) "")) [
  | inl e ↦
      rw e (header_value-with_header key key value headers ∙ rw ((eq_iff key key).1 refl) refl)
  | inr e ↦ rw e refl
]

pub header_value-put_other :
    (key other value : String) (headers : Dict (List String))
    → str_eq key other ≡ false
    → header_value other (put_if_empty key value headers) ≡ header_value other headers
unfolding put_if_empty
header_value-put_other key other value headers apart =
    elim (Bool-cases (str_eq (header_value key headers) "")) [
      | inl e ↦ rw e (header_value-with_header key other value headers ∙ rw apart refl)
      | inr e ↦ rw e refl
    ]

kept :
    (headers : Dict (List String)) (id host key : String)
    → str_eq "X-Request-ID" key ≡ false
    → str_eq "X-Forwarded-Host" key ≡ false
    → header_value key
        (put_if_empty "X-Request-ID" id (put_if_empty "X-Forwarded-Host" host headers))
      ≡ header_value key headers
kept headers id host key a b =
    header_value-put_other "X-Request-ID" key id (put_if_empty "X-Forwarded-Host" host headers) a
    ∙ header_value-put_other "X-Forwarded-Host" key host headers b

module _ (split_host : String → Option String) where
  -- A request that passes this middleware carries the address of its client as X-Real-IP, whatever
  -- the client sent; the client's X-Forwarded-For with that address after it; the client's
  -- X-Forwarded-Host and X-Request-ID where they are not empty, and else the host and the new ID.
  pub enriched_lem :
      (id : String) (r : Request)
      → let sent = enriched split_host id r in
        let ip = client_ip split_host r in
        (header_value "X-Real-IP" sent ≡ ip)
        × (header_value "X-Forwarded-For" sent
            ≡ chained (header_value "X-Forwarded-For" r.headers) ip)
        × (header_value "X-Forwarded-Proto" sent ≡ (if r.is_tls then "https" else "http"))
        × (header_value "X-Forwarded-Host" sent
            ≡ text_or (header_value "X-Forwarded-Host" r.headers) r.host)
        × (header_value "X-Request-ID" sent ≡ text_or (header_value "X-Request-ID" r.headers) id)
  unfolding enriched text_or
  enriched_lem id r =
      let ip = client_ip split_host r in
      let scheme = if r.is_tls then "https" else "http" in
      let real = with_header "X-Real-IP" ip r.headers in
      let forwarded =
        with_header "X-Forwarded-For" (chained (header_value "X-Forwarded-For" real) ip) real in
      let proto = with_header "X-Forwarded-Proto" scheme forwarded in
      let hosted = put_if_empty "X-Forwarded-Host" r.host proto in
      (
        kept proto id r.host "X-Real-IP" refl refl
            ∙ header_value-with_header "X-Forwarded-Proto" "X-Real-IP" scheme forwarded
            ∙ header_value-with_header "X-Forwarded-For" "X-Real-IP" _ real
            ∙ header_value-with_header "X-Real-IP" "X-Real-IP" ip r.headers,
        kept proto id r.host "X-Forwarded-For" refl refl
            ∙ header_value-with_header "X-Forwarded-Proto" "X-Forwarded-For" scheme forwarded
            ∙ header_value-with_header "X-Forwarded-For" "X-Forwarded-For" _ real
            ∙ ap (λ p. chained p ip)
                (header_value-with_header "X-Real-IP" "X-Forwarded-For" ip r.headers),
        kept proto id r.host "X-Forwarded-Proto" refl refl
            ∙ header_value-with_header "X-Forwarded-Proto" "X-Forwarded-Proto" scheme forwarded,
        header_value-put_other "X-Request-ID" "X-Forwarded-Host" id hosted refl
            ∙ header_value-put_self "X-Forwarded-Host" r.host proto
            ∙ ap (λ h. if str_eq h "" then r.host else h)
                (header_value-with_header "X-Forwarded-Proto" "X-Forwarded-Host" scheme forwarded
                  ∙ header_value-with_header "X-Forwarded-For" "X-Forwarded-Host" _ real
                  ∙ header_value-with_header "X-Real-IP" "X-Forwarded-Host" ip r.headers),
        header_value-put_self "X-Request-ID" id hosted
            ∙ ap (λ h. if str_eq h "" then id else h)
                (header_value-put_other "X-Forwarded-Host" "X-Request-ID" r.host proto refl
                  ∙ header_value-with_header "X-Forwarded-Proto" "X-Request-ID" scheme forwarded
                  ∙ header_value-with_header "X-Forwarded-For" "X-Request-ID" _ real
                  ∙ header_value-with_header "X-Real-IP" "X-Request-ID" ip r.headers),
      )
