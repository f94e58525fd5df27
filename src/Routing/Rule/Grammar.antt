-- ===== src/Routing/Rule/Grammar.antt =====
-- The grammar in the comments of internal/router/rule.go, as syntax trees: an expression is terms
-- joined by "||", a term is factors joined by "&&", a factor is a matcher or an expression in
-- parentheses. A matcher is its text with the function that it stands for.
use balance_x.Common.{
  ℕ, ◌≡◌, Bool, true, false, ◌||◌, [], ◌∷◌, ◌++◌, Option, none, some, ◌==◌, if◌then◌else◌,
}
use balance_x.Routing.Bytes.{Text, is_letter}
use balance_x.Routing.Matcher.{Net, MatcherFunc, match_and, match_or}
use balance_x.Routing.Rule.{ok}
use balance_x.Routing.Rule.Args.{create_matcher}

mutual
  pub data Expression : Type 0 where
    expression : Term → OrTail → Expression

  pub data OrTail : Type 0 where
    or_end : OrTail
    or_more : Term → OrTail → OrTail

  pub data Term : Type 0 where
    term : Factor → AndTail → Term

  pub data AndTail : Type 0 where
    and_end : AndTail
    and_more : Factor → AndTail → AndTail

  pub data Factor : Type 0 where
    leaf : Text → MatcherFunc → Factor
    group : Expression → Factor

-- The text of a tree: " || " and " && " between the parts.
unfoldable mutual
  pub print : Expression → Text
  print (expression t ts) = print_term t ++ print_or ts

  pub print_or : OrTail → Text
  print_or or_end = []
  print_or (or_more t ts) = b' ' ∷ b'|' ∷ b'|' ∷ b' ' ∷ (print_term t ++ print_or ts)

  pub print_term : Term → Text
  print_term (term x xs) = print_factor x ++ print_and xs

  pub print_and : AndTail → Text
  print_and and_end = []
  print_and (and_more x xs) = b' ' ∷ b'&' ∷ b'&' ∷ b' ' ∷ (print_factor x ++ print_and xs)

  pub print_factor : Factor → Text
  print_factor (leaf t m) = t
  print_factor (group e) = b'(' ∷ (print e ++ b')' ∷ [])

-- The meaning: "&&" binds tighter, and both associate to the left.
unfoldable mutual
  pub denote : Expression → MatcherFunc
  denote (expression t ts) = denote_or (denote_term t) ts

  pub denote_or : MatcherFunc → OrTail → MatcherFunc
  denote_or m or_end = m
  denote_or m (or_more t ts) = denote_or (match_or m (denote_term t)) ts

  pub denote_term : Term → MatcherFunc
  denote_term (term x xs) = denote_and (denote_factor x) xs

  pub denote_and : MatcherFunc → AndTail → MatcherFunc
  denote_and m and_end = m
  denote_and m (and_more x xs) = denote_and (match_and m (denote_factor x)) xs

  pub denote_factor : Factor → MatcherFunc
  denote_factor (leaf t m) = m
  denote_factor (group e) = denote e

-- From the quote that is open, the first closing parenthesis outside quotes ends the text.
unfoldable pub closes : Option ℕ → Text → Bool
closes q [] = false
closes (some q) (c ∷ s) = closes (if c == q then none else some q) s
closes none (c ∷ s) =
    let quoted = closes (some c) s in
    let plain = closes none s in
    if c == b'\'' || c == b'"'
    then quoted
    else if c == b')'
    then (elim s [ [] ↦ true | _ ∷ _ ↦ false ])
    else plain

-- A letter, and then a text that closes.
abbrev pub IsMatcherText : Text → Type 0
IsMatcherText [] = ⊥
IsMatcherText (c ∷ s) = (is_letter c ≡ true) × (closes none s ≡ true)

module _ (net : Net) where
  -- Every matcher of the tree has the form of one, and the function that the code makes of it.
  abbrev mutual
    pub IsWritten : Expression → Type 0
    IsWritten (expression t ts) = IsWrittenTerm t × IsWrittenOr ts

    pub IsWrittenOr : OrTail → Type 0
    IsWrittenOr or_end = Unit {0}
    IsWrittenOr (or_more t ts) = IsWrittenTerm t × IsWrittenOr ts

    pub IsWrittenTerm : Term → Type 0
    IsWrittenTerm (term x xs) = IsWrittenFactor x × IsWrittenAnd xs

    pub IsWrittenAnd : AndTail → Type 0
    IsWrittenAnd and_end = Unit {0}
    IsWrittenAnd (and_more x xs) = IsWrittenFactor x × IsWrittenAnd xs

    pub IsWrittenFactor : Factor → Type 0
    IsWrittenFactor (leaf t m) = IsMatcherText t × (create_matcher net t ≡ ok m)
    IsWrittenFactor (group e) = IsWritten e
