-- ===== src/Routing/Rule/Parser.antt =====
-- The parser of internal/router/rule.go. A parser's state is the current token and the lexer. The
-- recursion takes fuel; `parse_rule` gives four units for each byte of the rule and some more.
use balance_x.Common.{ℕ, zero, suc, ◌+◌, ◌*◌, length}
use balance_x.Routing.Bytes.{Text}
use balance_x.Routing.Matcher.{Net, MatcherFunc, match_and, match_or}
use balance_x.Routing.Rule.{
  Token, eof, and_and, or_or, lparen, rparen, matcher, token_text, Lexer, next_token, Result, ok,
  err, ◌>>=◌, unexpected_at_end, expected_rparen, expected_rule, out_of_fuel,
}
use balance_x.Routing.Rule.Args.{create_matcher}

abbrev pub State : Type 0
State = Token × Lexer

abbrev pub Parsed : Type 0
Parsed = MatcherFunc × State

abbrev pub expect_rparen : Parsed → Result Parsed
expect_rparen (m, (rparen, l)) = next_token l >>= λ st. ok (m, st)
expect_rparen (m, (t, l)) = err (expected_rparen (token_text t))

module _ (net : Net) where
  unfoldable mutual
    -- Term ( "||" Term )*
    pub parse_expression : ℕ → State → Result Parsed
    parse_expression zero st = err out_of_fuel
    parse_expression (suc f) st = parse_term f st >>= λ (m, st'). or_loop f m st'

    pub or_loop : ℕ → MatcherFunc → State → Result Parsed
    or_loop zero m st = err out_of_fuel
    or_loop (suc f) m (or_or, l) =
        next_token l >>= λ st. parse_term f st >>= λ (r, st'). or_loop f (match_or m r) st'
    or_loop (suc f) m (t, l) = ok (m, (t, l))

    -- Factor ( "&&" Factor )*
    pub parse_term : ℕ → State → Result Parsed
    parse_term zero st = err out_of_fuel
    parse_term (suc f) st = parse_factor f st >>= λ (m, st'). and_loop f m st'

    pub and_loop : ℕ → MatcherFunc → State → Result Parsed
    and_loop zero m st = err out_of_fuel
    and_loop (suc f) m (and_and, l) =
        next_token l >>= λ st. parse_factor f st >>= λ (r, st'). and_loop f (match_and m r) st'
    and_loop (suc f) m (t, l) = ok (m, (t, l))

    -- Matcher | "(" Expression ")"
    pub parse_factor : ℕ → State → Result Parsed
    parse_factor zero st = err out_of_fuel
    parse_factor (suc f) (lparen, l) =
        next_token l >>= λ st. parse_expression f st >>= λ p. expect_rparen p
    parse_factor (suc f) (matcher t, l) =
        create_matcher net t >>= λ m. next_token l >>= λ st. ok (m, st)
    parse_factor (suc f) (t, l) = err (expected_rule (token_text t))

abbrev pub at_end : Parsed → Result MatcherFunc
at_end (m, (eof, l)) = ok m
at_end (m, (t, l)) = err (unexpected_at_end (token_text t))

abbrev pub enough_fuel : Text → ℕ
enough_fuel rule = 4 * length rule + 8

unfoldable pub parse_rule : Net → Text → Result MatcherFunc
parse_rule net rule = next_token (record { pos = 0; rest = rule }) >>= λ st.
    parse_expression net (enough_fuel rule) st >>= λ p. at_end p
