-- ===== src/Routing/Rule/Fuel/Descent.antt =====
-- The fuel of the parser of internal/router/rule.go: `parse_rule` gives enough for every rule.
use balance_x.Routing.Rule.Fuel.{
  Fine, Fine-le, none_left, weight, Fine-bind, next_token-Fine, create_matcher-Fine,
}
use balance_x.Common.{
  ℕ, zero, suc, ◌+◌, ◌*◌, ◌≤◌, ◌≡◌, refl, true, false, length, arith, ◌≢◌, subst,
}
use balance_x.Routing.Bytes.{Text}
use balance_x.Routing.Rule.Parser.{
  State, Parsed, expect_rparen, parse_expression, or_loop, parse_term, and_loop, parse_factor,
  at_end, enough_fuel, parse_rule,
}
use balance_x.Routing.Rule.Args.{create_matcher}
use balance_x.Routing.Matcher.{Net, MatcherFunc, match_and, match_or}
use balance_x.Routing.Rule.{
  eof, and_and, or_or, lparen, rparen, matcher, Lexer, out_of_fuel, ok, err, ◌>>=◌, next_token,
}

module _ (net : Net) where
  abbrev left_over : Parsed → ℕ
  left_over (m, st) = weight st

  keep-Fine :
      (m : MatcherFunc) (l : Lexer)
      → Fine left_over (length l.rest) (next_token l >>= λ st. ok (m, st))
  keep-Fine m l =
      Fine-bind weight left_over (length l.rest) (length l.rest) (next_token l) (λ st. ok (m, st))
        (next_token-Fine l) (λ st h. h)

  expect_rparen-Fine : (n : ℕ) (p : Parsed) → left_over p ≤ n → Fine left_over n (expect_rparen p)
  expect_rparen-Fine n (m, (eof, l)) h = refl
  expect_rparen-Fine n (m, (and_and, l)) h = refl
  expect_rparen-Fine n (m, (or_or, l)) h = refl
  expect_rparen-Fine n (m, (lparen, l)) h = refl
  expect_rparen-Fine n (m, (rparen, l)) h =
      Fine-le left_over (length l.rest) n _ (omega arith) (keep-Fine m l)
  expect_rparen-Fine n (m, (matcher t, l)) h = refl

  mutual
    unfolding parse_expression or_loop parse_term and_loop parse_factor

    expression-Fine :
        (f : ℕ) (st : State)
        → 4 * weight st + 3 ≤ f
        → Fine left_over (weight st) (parse_expression net f st)
    expression-Fine zero st h = absurd (omega arith)
    expression-Fine (suc f) st h =
        Fine-bind left_over left_over (weight st) (weight st) (parse_term net f st)
          (λ (m, st'). or_loop net f m st') (term-Fine f st (omega arith))
          (λ (m, st') le.
            Fine-le left_over (weight st') (weight st) _ le (or-Fine f m st' (omega arith)))

    or-Fine :
        (f : ℕ) (m : MatcherFunc) (st : State)
        → 4 * weight st + 1 ≤ f
        → Fine left_over (weight st) (or_loop net f m st)
    or-Fine zero m st h = absurd (omega arith)
    or-Fine (suc f) m (eof, l) h = omega arith
    or-Fine (suc f) m (and_and, l) h = omega arith
    or-Fine (suc f) m (lparen, l) h = omega arith
    or-Fine (suc f) m (rparen, l) h = omega arith
    or-Fine (suc f) m (matcher t, l) h = omega arith
    or-Fine (suc f) m (or_or, l) h =
        Fine-bind weight left_over (length l.rest) (suc (length l.rest)) (next_token l)
          (λ st. parse_term net f st >>= λ (r, st'). or_loop net f (match_or m r) st')
          (next_token-Fine l)
          (λ st le.
            Fine-bind left_over left_over (weight st) (suc (length l.rest)) (parse_term net f st)
              (λ (r, st'). or_loop net f (match_or m r) st') (term-Fine f st (omega arith))
              (λ (r, st') le'.
                Fine-le left_over (weight st') (suc (length l.rest)) _ (omega arith)
                  (or-Fine f (match_or m r) st' (omega arith))))

    term-Fine :
        (f : ℕ) (st : State)
        → 4 * weight st + 2 ≤ f
        → Fine left_over (weight st) (parse_term net f st)
    term-Fine zero st h = absurd (omega arith)
    term-Fine (suc f) st h =
        Fine-bind left_over left_over (weight st) (weight st) (parse_factor net f st)
          (λ (m, st'). and_loop net f m st') (factor-Fine f st (omega arith))
          (λ (m, st') le.
            Fine-le left_over (weight st') (weight st) _ le (and-Fine f m st' (omega arith)))

    and-Fine :
        (f : ℕ) (m : MatcherFunc) (st : State)
        → 4 * weight st + 1 ≤ f
        → Fine left_over (weight st) (and_loop net f m st)
    and-Fine zero m st h = absurd (omega arith)
    and-Fine (suc f) m (eof, l) h = omega arith
    and-Fine (suc f) m (or_or, l) h = omega arith
    and-Fine (suc f) m (lparen, l) h = omega arith
    and-Fine (suc f) m (rparen, l) h = omega arith
    and-Fine (suc f) m (matcher t, l) h = omega arith
    and-Fine (suc f) m (and_and, l) h =
        Fine-bind weight left_over (length l.rest) (suc (length l.rest)) (next_token l)
          (λ st. parse_factor net f st >>= λ (r, st'). and_loop net f (match_and m r) st')
          (next_token-Fine l)
          (λ st le.
            Fine-bind left_over left_over (weight st) (suc (length l.rest)) (parse_factor net f st)
              (λ (r, st'). and_loop net f (match_and m r) st') (factor-Fine f st (omega arith))
              (λ (r, st') le'.
                Fine-le left_over (weight st') (suc (length l.rest)) _ (omega arith)
                  (and-Fine f (match_and m r) st' (omega arith))))

    factor-Fine :
        (f : ℕ) (st : State)
        → 4 * weight st + 1 ≤ f
        → Fine left_over (weight st) (parse_factor net f st)
    factor-Fine zero st h = absurd (omega arith)
    factor-Fine (suc f) (eof, l) h = refl
    factor-Fine (suc f) (and_and, l) h = refl
    factor-Fine (suc f) (or_or, l) h = refl
    factor-Fine (suc f) (rparen, l) h = refl
    factor-Fine (suc f) (lparen, l) h =
        Fine-bind weight left_over (length l.rest) (suc (length l.rest)) (next_token l)
          (λ st. parse_expression net f st >>= λ p. expect_rparen p) (next_token-Fine l)
          (λ st le.
            Fine-bind left_over left_over (weight st) (suc (length l.rest))
              (parse_expression net f st) (λ p. expect_rparen p)
              (expression-Fine f st (omega arith))
              (λ p le'. expect_rparen-Fine (suc (length l.rest)) p (omega arith)))
    factor-Fine (suc f) (matcher t, l) h =
        Fine-bind none_left left_over 0 (suc (length l.rest)) (create_matcher net t)
          (λ m. next_token l >>= λ st. ok (m, st)) (create_matcher-Fine net t)
          (λ m le.
            Fine-le left_over (length l.rest) (suc (length l.rest)) _ (omega arith) (keep-Fine m l))

  at_end-Fine : (p : Parsed) → Fine none_left 0 (at_end p)
  at_end-Fine (m, (eof, l)) = omega arith
  at_end-Fine (m, (and_and, l)) = refl
  at_end-Fine (m, (or_or, l)) = refl
  at_end-Fine (m, (lparen, l)) = refl
  at_end-Fine (m, (rparen, l)) = refl
  at_end-Fine (m, (matcher t, l)) = refl

  parse_rule-Fine : (rule : Text) → Fine none_left 0 (parse_rule net rule)
  unfolding parse_rule
  parse_rule-Fine rule =
      Fine-bind weight none_left (length rule) 0 (next_token (record { pos = 0; rest = rule }))
        (λ st. parse_expression net (enough_fuel rule) st >>= λ p. at_end p)
        (next_token-Fine (record { pos = 0; rest = rule }))
        (λ st le.
          Fine-bind left_over none_left (weight st) 0 (parse_expression net (enough_fuel rule) st)
            (λ p. at_end p) (expression-Fine (enough_fuel rule) st (omega arith))
            (λ p le'. at_end-Fine p))

  -- For every rule, well-formed or not, the fuel that `parse_rule` gives to the parser is enough: the
  -- result is a matcher or an error of the code, never the lack of fuel.
  pub parse_rule-ends : (rule : Text) → parse_rule net rule ≢ err out_of_fuel
  parse_rule-ends rule e =
      let h : true ≡ false = subst (Fine none_left 0) e (parse_rule-Fine rule) in cc
