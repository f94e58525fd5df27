-- ===== src/Routing/Rule/Roundtrip/Cost.antt =====
-- The fuel that the parser of internal/router/rule.go takes for a printed syntax tree.
use balance_x.Common.{ℕ, ◌+◌, ◌*◌, ◌≤◌, ◌≡◌, [], ◌∷◌, ◌++◌, length, length-append, arith}
use balance_x.Routing.Bytes.{Text}
use balance_x.Routing.Rule.Grammar.{
  Expression, expression, OrTail, or_end, or_more, Term, term, AndTail, and_end, and_more, Factor,
  leaf, group, print, print_or, print_term, print_and, print_factor,
}

-- The fuel that a tree takes.
unfoldable mutual
  pub cost : Expression → ℕ
  cost (expression t ts) = 1 + (cost_term t + cost_or ts)

  pub cost_or : OrTail → ℕ
  cost_or or_end = 1
  cost_or (or_more t ts) = 1 + (cost_term t + cost_or ts)

  pub cost_term : Term → ℕ
  cost_term (term x xs) = 1 + (cost_factor x + cost_and xs)

  pub cost_and : AndTail → ℕ
  cost_and and_end = 1
  cost_and (and_more x xs) = 1 + (cost_factor x + cost_and xs)

  pub cost_factor : Factor → ℕ
  cost_factor (leaf t m) = 1
  cost_factor (group e) = 1 + cost e

length_add : (s u : Text) → length (s ++ u) ≡ length s + length u
length_add s u = length-append s u

mutual
  unfolding cost print

  pub cost_lem : (e : Expression) → cost e ≤ 4 * length (print e) + 5
  cost_lem (expression x ts) =
      let a = cost_term_lem x in
      let b = cost_or_lem ts in let c = length_add (print_term x) (print_or ts) in omega arith

  cost_or_lem : (ts : OrTail) → cost_or ts ≤ 4 * length (print_or ts) + 1
  cost_or_lem or_end = omega arith
  cost_or_lem (or_more x ts) =
      let a = cost_term_lem x in
      let b = cost_or_lem ts in let c = length_add (print_term x) (print_or ts) in omega arith

  cost_term_lem : (x : Term) → cost_term x ≤ 4 * length (print_term x) + 3
  cost_term_lem (term x xs) =
      let a = cost_factor_lem x in
      let b = cost_and_lem xs in let c = length_add (print_factor x) (print_and xs) in omega arith

  cost_and_lem : (xs : AndTail) → cost_and xs ≤ 4 * length (print_and xs) + 1
  cost_and_lem and_end = omega arith
  cost_and_lem (and_more x xs) =
      let a = cost_factor_lem x in
      let b = cost_and_lem xs in let c = length_add (print_factor x) (print_and xs) in omega arith

  cost_factor_lem : (x : Factor) → cost_factor x ≤ 4 * length (print_factor x) + 1
  cost_factor_lem (leaf t m) = omega arith
  cost_factor_lem (group e) =
      let a = cost_lem e in let c = length_add (print e) (b')' ∷ []) in omega arith
