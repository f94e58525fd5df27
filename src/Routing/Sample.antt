-- ===== src/Routing/Sample.antt =====
-- A `net` for the examples, which knows no address and no network.
use balance_x.Common.{ℕ, none, false, ◌==◌}
use balance_x.Routing.Matcher.{Net}

unfoldable pub no_net : Net
no_net = record {
  Ip = ℕ;
  Network = ℕ;
  parse_cidr = λ s. none;
  parse_ip = λ s. none;
  network_contains = λ n i. false;
  ip_equal = λ a b. a == b;
  split_host = λ s. none;
}
