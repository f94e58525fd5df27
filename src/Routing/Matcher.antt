-- ===== src/Routing/Matcher.antt =====
-- internal/router/matcher.go. What it uses of the package `net` is the interface `Net`.
use balance_x.Common.{Bool, false, ◌&&◌, ◌||◌, [], Option, none, some, if◌then◌else◌}
use balance_x.Routing.Bytes.{Text, codes, text_eq, has_prefix, to_upper}

-- `ParseCIDR` (the network only), `ParseIP`, `IPNet.Contains`, `IP.Equal` and the host part of
-- `SplitHostPort`.
pub record Net : Type 1 where
  pub Ip : Type 0
  pub Network : Type 0
  pub parse_cidr : Text → Option Network
  pub parse_ip : Text → Option Ip
  pub network_contains : Network → Ip → Bool
  pub ip_equal : Ip → Ip → Bool
  pub split_host : Text → Option Text

-- `header` is `Header.Get`, "" for a header that is not there.
pub record Request : Type 0 where
  pub method : Text
  pub path : Text
  pub header : Text → Text
  pub remote_addr : Text

abbrev pub MatcherFunc : Type 0
MatcherFunc = Request → Bool

unfoldable pub match_path_prefix : Text → MatcherFunc
match_path_prefix prefix req = has_prefix req.path prefix

unfoldable pub match_path : Text → MatcherFunc
match_path path req = text_eq req.path path

unfoldable pub match_method : Text → MatcherFunc
match_method method req = text_eq req.method (to_upper method)

unfoldable pub match_header : Text → Text → MatcherFunc
match_header key value req = text_eq (req.header key) value

unfoldable pub match_and : MatcherFunc → MatcherFunc → MatcherFunc
match_and left right req = left req && right req

unfoldable pub match_or : MatcherFunc → MatcherFunc → MatcherFunc
match_or left right req = left req || right req

module _ (net : Net) where
  open net use {parse_cidr, parse_ip, network_contains, ip_equal, split_host}

  unfoldable pub get_client_ip : Request → Text
  get_client_ip req =
      if text_eq (req.header (codes "X-Real-IP")) []
      then elim (split_host req.remote_addr) [ some host ↦ host | none ↦ req.remote_addr ]
      else req.header (codes "X-Real-IP")

  -- A network, a single address, or a matcher that always fails.
  unfoldable pub match_client_ip : Text → MatcherFunc
  match_client_ip range req = elim (parse_cidr range) [
    | some network ↦ elim (parse_ip (get_client_ip req)) [
      | none ↦ false
      | some ip ↦ network_contains network ip
    ]
    | none ↦ elim (parse_ip range) [
      | none ↦ false
      | some expected ↦ elim (parse_ip (get_client_ip req)) [
        | none ↦ false
        | some ip ↦ ip_equal expected ip
      ]
    ]
  ]
