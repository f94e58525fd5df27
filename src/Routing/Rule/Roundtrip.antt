-- ===== src/Routing/Rule/Roundtrip.antt =====
-- Every text that the grammar of internal/router/rule.go generates parses to its meaning.
pub mod Cost
pub mod Steps
use balance_x.Routing.Rule.Roundtrip.Steps.{
  bind_assoc, Follows, is_and, is_or, Reaches, print_or-Follows, seq, or_end-reads, or_more-reads,
  and_end-reads, and_more-reads, leaf-reads, group-reads,
}
use balance_x.Routing.Rule.Roundtrip.Cost.{
  cost, cost_or, cost_lem, cost_term, cost_and, cost_factor,
}
use balance_x.Common.{
  ℕ, zero, suc, ◌+◌, ◌*◌, ◌≤◌, ◌≡◌, refl, sym, ap, subst, ◌∙◌, Bool, true, false, [], ◌∷◌, ◌++◌,
  length, length-append, arith,
}
use mathlib.Core.List.{append-nil, append_assoc}
use balance_x.Routing.Bytes.{Text}
use balance_x.Routing.Matcher.{Net, MatcherFunc, match_and, match_or}
use balance_x.Routing.Rule.{
  Token, eof, and_and, or_or, lparen, rparen, matcher, Lexer, Result, ok, err, ◌>>=◌, next_token,
}
use balance_x.Routing.Rule.Args.{create_matcher}
use balance_x.Routing.Rule.Grammar.{
  Expression, expression, OrTail, or_end, or_more, Term, term, AndTail, and_end, and_more, Factor,
  leaf, group, print, print_or, print_term, print_and, print_factor, denote, denote_or, denote_term,
  denote_and, denote_factor, IsWritten, IsWrittenOr, IsWrittenTerm, IsWrittenAnd, IsWrittenFactor,
  IsMatcherText,
}
use balance_x.Routing.Rule.Lexing.{
  at, next_token-space, next_token-lparen, next_token-rparen, next_token-and, next_token-or,
  next_token-matcher,
}
use balance_x.Routing.Rule.Parser.{
  State, Parsed, expect_rparen, parse_expression, or_loop, parse_term, and_loop, parse_factor,
  at_end, enough_fuel, parse_rule,
}

module _ (net : Net) where
  -- Whatever follows, the parser reads the printed text of a tree and no more.
  mutual
    unfolding print denote cost parse_expression print_or denote_or cost_or print_term denote_term
        cost_term parse_term print_and denote_and cost_and print_factor denote_factor cost_factor

    expression-reads :
        (e : Expression) (f p : ℕ) (k : Text) (t : Token)
        → IsWritten net e
        → cost e ≤ f
        → Follows k t
        → is_and t ≡ false
        → is_or t ≡ false
        → Reaches (parse_expression net f) p (print e ++ k) k (denote e)
    expression-reads (expression x ts) zero p k t written fuel follows no_and no_or =
        absurd (omega arith)
    expression-reads (expression x ts) (suc f) p k t written fuel follows no_and no_or =
        let (t', follows', no_and') = print_or-Follows net ts k t follows no_and in
        subst (λ s. Reaches (parse_expression net (suc f)) p s k (denote_or (denote_term x) ts))
          (sym (append_assoc (print_term x) (print_or ts) k))
          (seq (parse_term net f) (or_loop net f) p (print_term x ++ (print_or ts ++ k))
            (print_or ts ++ k) k (denote_term x) (denote_or (denote_term x) ts)
            (term-reads x f p (print_or ts ++ k) t' written.0 (omega arith) follows' no_and')
            (λ p₁.
              or-reads ts (denote_term x) f p₁ k t written.1 (omega arith) follows no_and no_or))

    or-reads :
        (ts : OrTail) (m : MatcherFunc) (f p : ℕ) (k : Text) (t : Token)
        → IsWrittenOr net ts
        → cost_or ts ≤ f
        → Follows k t
        → is_and t ≡ false
        → is_or t ≡ false
        → Reaches (or_loop net f m) p (print_or ts ++ k) k (denote_or m ts)
    or-reads or_end m zero p k t written fuel follows no_and no_or = absurd (omega arith)
    or-reads (or_more x ts) m zero p k t written fuel follows no_and no_or = absurd (omega arith)
    or-reads or_end m (suc f) p k t written fuel follows no_and no_or =
        or_end-reads net k t m f p follows no_or
    or-reads (or_more x ts) m (suc f) p k t written fuel follows no_and no_or =
        let (t', follows', no_and') = print_or-Follows net ts k t follows no_and in
        let m' : MatcherFunc = match_or m (denote_term x) in
        subst
          (λ s.
            Reaches (or_loop net (suc f) m) p (b' ' ∷ b'|' ∷ b'|' ∷ b' ' ∷ s) k (denote_or m' ts))
          (sym (append_assoc (print_term x) (print_or ts) k))
          (or_more-reads net (print_term x ++ (print_or ts ++ k)) k m (denote_or m' ts) f p (λ p₀.
            seq (parse_term net f) (λ y. or_loop net f (match_or m y)) p₀
              (print_term x ++ (print_or ts ++ k)) (print_or ts ++ k) k (denote_term x)
              (denote_or m' ts)
              (term-reads x f p₀ (print_or ts ++ k) t' written.0 (omega arith) follows' no_and')
              (λ p₁. or-reads ts m' f p₁ k t written.1 (omega arith) follows no_and no_or)))

    term-reads :
        (x : Term) (f p : ℕ) (k : Text) (t : Token)
        → IsWrittenTerm net x
        → cost_term x ≤ f
        → Follows k t
        → is_and t ≡ false
        → Reaches (parse_term net f) p (print_term x ++ k) k (denote_term x)
    term-reads (term x xs) zero p k t written fuel follows no_and = absurd (omega arith)
    term-reads (term x xs) (suc f) p k t written fuel follows no_and =
        subst (λ s. Reaches (parse_term net (suc f)) p s k (denote_and (denote_factor x) xs))
          (sym (append_assoc (print_factor x) (print_and xs) k))
          (seq (parse_factor net f) (and_loop net f) p (print_factor x ++ (print_and xs ++ k))
            (print_and xs ++ k) k (denote_factor x) (denote_and (denote_factor x) xs)
            (factor-reads x f p (print_and xs ++ k) written.0 (omega arith))
            (λ p₁. and-reads xs (denote_factor x) f p₁ k t written.1 (omega arith) follows no_and))

    and-reads :
        (xs : AndTail) (m : MatcherFunc) (f p : ℕ) (k : Text) (t : Token)
        → IsWrittenAnd net xs
        → cost_and xs ≤ f
        → Follows k t
        → is_and t ≡ false
        → Reaches (and_loop net f m) p (print_and xs ++ k) k (denote_and m xs)
    and-reads and_end m zero p k t written fuel follows no_and = absurd (omega arith)
    and-reads (and_more x xs) m zero p k t written fuel follows no_and = absurd (omega arith)
    and-reads and_end m (suc f) p k t written fuel follows no_and =
        and_end-reads net k t m f p follows no_and
    and-reads (and_more x xs) m (suc f) p k t written fuel follows no_and =
        let m' : MatcherFunc = match_and m (denote_factor x) in
        subst
          (λ s.
            Reaches (and_loop net (suc f) m) p (b' ' ∷ b'&' ∷ b'&' ∷ b' ' ∷ s) k (denote_and m' xs))
          (sym (append_assoc (print_factor x) (print_and xs) k))
          (and_more-reads net (print_factor x ++ (print_and xs ++ k)) k m (denote_and m' xs) f p
            (λ p₀.
              seq (parse_factor net f) (λ y. and_loop net f (match_and m y)) p₀
                (print_factor x ++ (print_and xs ++ k)) (print_and xs ++ k) k (denote_factor x)
                (denote_and m' xs) (factor-reads x f p₀ (print_and xs ++ k) written.0 (omega arith))
                (λ p₁. and-reads xs m' f p₁ k t written.1 (omega arith) follows no_and)))

    factor-reads :
        (x : Factor) (f p : ℕ) (k : Text)
        → IsWrittenFactor net x
        → cost_factor x ≤ f
        → Reaches (parse_factor net f) p (print_factor x ++ k) k (denote_factor x)
    factor-reads (leaf s m) zero p k written fuel = absurd (omega arith)
    factor-reads (group e) zero p k written fuel = absurd (omega arith)
    factor-reads (leaf s m) (suc f) p k written fuel = leaf-reads net s k m f p written.0 written.1
    factor-reads (group e) (suc f) p k written fuel =
        subst (λ s. Reaches (parse_factor net (suc f)) p (b'(' ∷ s) k (denote e))
          (sym (append_assoc (print e) (b')' ∷ []) k))
          (group-reads net (print e) k (denote e) f p (λ p₁.
            expression-reads e f p₁ (b')' ∷ k) rparen written (omega arith)
              (λ q. (at (q + 1) k, next_token-rparen q k)) refl refl))

-- For every syntax tree of the grammar whose matchers are written as the lexer wants them and are
-- accepted by `create_matcher`, with the function that it returns, parsing the printed text of the
-- tree succeeds and gives the tree's meaning: "&&" binds tighter than "||", both associate to the
-- left, and parentheses group. The fuel that `parse_rule` gives is enough for all of them.
pub parse_rule-print :
    (net : Net) (e : Expression) → IsWritten net e → parse_rule net (print e) ≡ ok (denote e)
unfolding parse_rule next_token
parse_rule-print net e written =
    let fuel : cost e ≤ enough_fuel (print e) = let a = cost_lem e in omega arith in
    let (p, read) =
      expression-reads net e (enough_fuel (print e)) 0 [] eof written fuel (λ q. (at q [], refl))
        refl refl in
    let text : next_token (at 0 (print e ++ [])) ≡ next_token (at 0 (print e)) =
      ap (λ s. next_token (at 0 s)) (append-nil (print e)) in
    sym (
      bind_assoc (next_token (at 0 (print e))) (parse_expression net (enough_fuel (print e)))
        at_end)
    ∙ ap (λ r. (r >>= parse_expression net (enough_fuel (print e))) >>= at_end) (sym text)
    ∙ ap (λ r. r >>= at_end) read
