-- ===== src/Routing/Rule/Fuel.antt =====
-- The lexer and `createMatcher` of internal/router/rule.go: how much of the rule a token takes, and
-- that neither runs out of fuel, which they do not have.
pub mod Descent
use balance_x.Common.{
  ℕ, zero, suc, ◌+◌, ◌*◌, ◌≤◌, ◌<◌, ◌≡◌, refl, Bool, true, false, ◌||◌, ◌&&◌, List, [], ◌∷◌, ◌++◌,
  length, Option, none, some, ◌==◌, if◌then◌else◌, arith, ◌≢◌, subst,
}
use balance_x.Routing.Bytes.{
  Text, codes, text_eq, trim_space, split_at, drop_last, is_space, is_letter,
}
use balance_x.Routing.Rule.Parser.{
  State, Parsed, expect_rparen, parse_expression, or_loop, parse_term, and_loop, parse_factor,
  at_end, enough_fuel, parse_rule,
}
use balance_x.Routing.Rule.Args.{
  create_matcher, create_parts, make_matcher, parse_args, args_loop, one_arg, two_args, last_arg,
}
use balance_x.Routing.Matcher.{Net, MatcherFunc, match_and, match_or}
use balance_x.Routing.Rule.{
  Token, eof, and_and, or_or, lparen, rparen, matcher, Lexer, RuleError, unterminated_matcher,
  unexpected_character, unexpected_at_end, expected_rparen, expected_rule, invalid_matcher,
  unknown_matcher, wrong_arity, unterminated_string, out_of_fuel, Result, ok, err, ◌>>=◌,
  skip_whitespace, read_matcher, next_token, twin_token, token_at, other_token,
}

abbrev pub is_fuel : RuleError → Bool
is_fuel out_of_fuel = true
is_fuel _ = false

-- No lack of fuel, and at most `n` left to read.
abbrev pub Fine : {A : Type 0} → (A → ℕ) → ℕ → Result A → Type 0
Fine w n (ok a) = w a ≤ n
Fine w n (err e) = is_fuel e ≡ false

pub Fine-bind :
    {A B : Type 0} (w : A → ℕ) (v : B → ℕ) (n k : ℕ) (r : Result A) (f : A → Result B)
    → Fine w n r
    → ((a : A) → w a ≤ n → Fine v k (f a))
    → Fine v k (r >>= f)
Fine-bind w v n k (ok a) f h later = later a h
Fine-bind w v n k (err e) f h later = h

Fine-if :
    {A : Type 0} (w : A → ℕ) (n : ℕ) (b : Bool) (x y : Result A)
    → Fine w n x
    → Fine w n y
    → Fine w n (if b then x else y)
Fine-if w n true x y h k = h
Fine-if w n false x y h k = k

pub Fine-le : {A : Type 0} (w : A → ℕ) (n k : ℕ) (r : Result A) → n ≤ k → Fine w n r → Fine w k r
Fine-le w n k (ok a) le h = omega arith
Fine-le w n k (err e) le h = h

-- What is left to read, the current token included.
abbrev pub weight : State → ℕ
weight (eof, l) = length l.rest
weight (and_and, l) = suc (length l.rest)
weight (or_or, l) = suc (length l.rest)
weight (lparen, l) = suc (length l.rest)
weight (rparen, l) = suc (length l.rest)
weight (matcher t, l) = suc (length l.rest)

read_matcher-Fine :
    (start : ℕ) (taken : Text) (q : Option ℕ) (p : ℕ) (s : Text)
    → Fine weight (length s) (read_matcher start taken q p s)
unfolding read_matcher
read_matcher-Fine start taken none p [] = refl
read_matcher-Fine start taken (some q) p [] = refl
read_matcher-Fine start taken (some q) p (c ∷ s) =
    Fine-le weight (length s) (suc (length s)) _ (omega arith)
      (read_matcher-Fine start (taken ++ c ∷ []) (if c == q then none else some q) (p + 1) s)
read_matcher-Fine start taken none p (c ∷ s) =
    let up = Fine-le weight (length s) (suc (length s)) in
    Fine-if weight (suc (length s)) (c == b'\'' || c == b'"') _ _
      (up _ (omega arith) (read_matcher-Fine start (taken ++ c ∷ []) (some c) (p + 1) s))
      (Fine-if weight (suc (length s)) (c == b')') _ _ (omega arith) (
        Fine-if weight (suc (length s)) (c == b'(' && p == start) _ _ refl
          (up _ (omega arith) (read_matcher-Fine start (taken ++ c ∷ []) none (p + 1) s))))

other_token-Fine : (p c : ℕ) (s : Text) → Fine weight (suc (length s)) (other_token p c s)
unfolding other_token
other_token-Fine p c s =
    Fine-if weight (suc (length s)) (is_letter c) _ _ (read_matcher-Fine p [] none p (c ∷ s)) refl

twin_token-Fine : (p c : ℕ) (s : Text) → Fine weight (suc (length s)) (twin_token p c s)
unfolding twin_token
twin_token-Fine p c [] = other_token-Fine p c []
twin_token-Fine p c (d ∷ s) =
    Fine-if weight (suc (suc (length s))) (c == b'&' && d == b'&') _ _ (omega arith) (
      Fine-if weight (suc (suc (length s))) (c == b'|' && d == b'|') _ _ (omega arith)
        (other_token-Fine p c (d ∷ s)))

token_at-Fine : (p : ℕ) (s : Text) → Fine weight (length s) (token_at p s)
unfolding token_at
token_at-Fine p [] = omega arith
token_at-Fine p (c ∷ s) =
    Fine-if weight (suc (length s)) (c == b'(') _ _ (omega arith)
      (Fine-if weight (suc (length s)) (c == b')') _ _ (omega arith) (twin_token-Fine p c s))

skip_whitespace-length : (p : ℕ) (s : Text) → length (skip_whitespace p s).rest ≤ length s
unfolding skip_whitespace
skip_whitespace-length p [] = omega arith
skip_whitespace-length p (c ∷ s) = let h = skip_whitespace-length (p + 1) s in ground arith

pub next_token-Fine : (l : Lexer) → Fine weight (length l.rest) (next_token l)
unfolding next_token
next_token-Fine l =
    let at = skip_whitespace l.pos l.rest in
    Fine-le weight (length at.rest) (length l.rest) _ (skip_whitespace-length l.pos l.rest)
      (token_at-Fine at.pos at.rest)

abbrev pub none_left : {A : Type 0} → A → ℕ
none_left a = 0

args_loop-Fine : (q : Option ℕ) (current s : Text) → Fine none_left 0 (args_loop q current s)
unfolding args_loop
args_loop-Fine (some q) current [] = refl
args_loop-Fine none current [] = omega arith
args_loop-Fine (some q) current (c ∷ s) =
    args_loop-Fine (if c == q then none else some q) (if c == q then current else current ++ c ∷ [])
      s
args_loop-Fine none current (c ∷ s) =
    Fine-if none_left 0 (c == b'\'' || c == b'"') _ _ (args_loop-Fine (some c) current s) (
      Fine-if none_left 0 (c == b',') _ _
        (Fine-bind none_left none_left 0 0 (args_loop none [] s)
          (λ rest. ok (trim_space current ∷ rest)) (args_loop-Fine none [] s)
          (λ rest h. omega arith))
        (args_loop-Fine none (current ++ c ∷ []) s))

one_arg-Fine :
    (name : Text) (args : List Text) (f : Text → MatcherFunc)
    → Fine none_left 0 (one_arg name args f)
one_arg-Fine name [] f = refl
one_arg-Fine name (a ∷ []) f = omega arith
one_arg-Fine name (a ∷ b ∷ rest) f = refl

two_args-Fine :
    (name : Text) (args : List Text) (f : Text → Text → MatcherFunc)
    → Fine none_left 0 (two_args name args f)
two_args-Fine name [] f = refl
two_args-Fine name (a ∷ []) f = refl
two_args-Fine name (a ∷ b ∷ []) f = omega arith
two_args-Fine name (a ∷ b ∷ c ∷ rest) f = refl

module _ (net : Net) where
  make_matcher-Fine :
      (name : Text) (args : List Text) → Fine none_left 0 (make_matcher net name args)
  unfolding make_matcher
  make_matcher-Fine name args =
      Fine-if none_left 0 (text_eq name (codes "PathPrefix")) _ _ (one_arg-Fine name args _) (
        Fine-if none_left 0 (text_eq name (codes "Path")) _ _ (one_arg-Fine name args _) (
          Fine-if none_left 0 (text_eq name (codes "Method")) _ _ (one_arg-Fine name args _) (
            Fine-if none_left 0 (text_eq name (codes "Header")) _ _ (two_args-Fine name args _) (
              Fine-if none_left 0 (text_eq name (codes "ClientIP")) _ _ (one_arg-Fine name args _)
                refl))))

  parts-Fine :
      (s : Text) (parts : Option (Text × Text)) → Fine none_left 0 (create_parts net s parts)
  unfolding create_parts parse_args
  parts-Fine s none = refl
  parts-Fine s (some (name, after)) =
      elim (drop_last b')' after)
        as (λ o. Fine none_left 0 (elim o [
          | none ↦ err (invalid_matcher s)
          | some args ↦
              parse_args (trim_space args) >>= λ list. make_matcher net (trim_space name) list
        ])) [
          | none ↦ refl
          | some args ↦
              Fine-bind none_left none_left 0 0 (parse_args (trim_space args))
                (λ list. make_matcher net (trim_space name) list)
                (Fine-if none_left 0 (text_eq (trim_space (trim_space args)) []) _ _ (omega arith)
                  (args_loop-Fine none [] (trim_space args)))
                (λ list h. make_matcher-Fine (trim_space name) list)
        ]

  pub create_matcher-Fine : (s : Text) → Fine none_left 0 (create_matcher net s)
  unfolding create_matcher
  create_matcher-Fine s = parts-Fine s (split_at b'(' s)
