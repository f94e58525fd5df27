-- ===== src/Routing/Rule.antt =====
-- internal/router/rule.go: the tokens, the errors and the lexer. The lexer keeps the bytes from its
-- position on.
pub mod Grammar
pub mod Lexing
pub mod Parser
pub mod Args
pub mod Roundtrip
pub mod Fuel
use balance_x.Common.{
  ℕ, ◌+◌, Bool, true, false, ◌&&◌, ◌||◌, List, [], ◌∷◌, ◌++◌, Option, none, some, ◌==◌,
  if◌then◌else◌, ◌≡◌, ◌⊎◌, inr, inl, refl,
}
use balance_x.Routing.Bytes.{Text, is_space, is_letter}

pub data Token : Type 0 where
  eof and_and or_or lparen rparen : Token
  matcher : Text → Token

-- `Token.Value`.
abbrev pub token_text : Token → Text
token_text eof = []
token_text and_and = b'&' ∷ b'&' ∷ []
token_text or_or = b'|' ∷ b'|' ∷ []
token_text lparen = b'(' ∷ []
token_text rparen = b')' ∷ []
token_text (matcher t) = t

pub data RuleError : Type 0 where
  unterminated_matcher : ℕ → RuleError
  unexpected_character : ℕ → ℕ → RuleError
  unexpected_at_end expected_rparen expected_rule : Text → RuleError
  invalid_matcher unknown_matcher wrong_arity : Text → RuleError
  unterminated_string : RuleError
  -- Not an error of the code: the fuel of the model ran out.
  out_of_fuel : RuleError

pub data Result {ℓ} (A : Type ℓ) : Type ℓ where
  ok : A → Result A
  err : RuleError → Result A

infixl 5 ◌>>=◌
abbrev pub ◌>>=◌ {ℓ κ} : {A : Type ℓ} {B : Type κ} → Result A → (A → Result B) → Result B
ok a >>= f = f a
err e >>= f = err e

pub Result-cases {ℓ} :
    {A : Type ℓ} (r : Result A) → ((e : RuleError) × (r ≡ err e)) ⊎ ((a : A) × (r ≡ ok a))
Result-cases (ok a) = inr (a, refl)
Result-cases (err e) = inl (e, refl)

pub record Lexer : Type 0 where
  pub pos : ℕ
  pub rest : Text

-- `skipWhitespace`.
unfoldable pub skip_whitespace : ℕ → Text → Lexer
unfolding is_space
skip_whitespace pos [] = record { pos = pos; rest = [] }
skip_whitespace pos (c ∷ s) =
    let more = skip_whitespace (pos + 1) s in
    if is_space c then more else record { pos = pos; rest = c ∷ s }

-- The loop of `readMatcher` from position `pos`, with the text read so far and the quote that is
-- open. An opening parenthesis at the very start ends it.
unfoldable pub read_matcher : ℕ → Text → Option ℕ → ℕ → Text → Result (Token × Lexer)
read_matcher start taken quote pos [] = err (unterminated_matcher start)
read_matcher start taken (some q) pos (c ∷ s) =
    read_matcher start (taken ++ c ∷ []) (if c == q then none else some q) (pos + 1) s
read_matcher start taken none pos (c ∷ s) =
    let quoted = read_matcher start (taken ++ c ∷ []) (some c) (pos + 1) s in
    let plain = read_matcher start (taken ++ c ∷ []) none (pos + 1) s in
    if c == b'\'' || c == b'"'
    then quoted
    else if c == b')'
    then ok (matcher (taken ++ c ∷ []), record { pos = pos + 1; rest = s })
    else if c == b'(' && pos == start
    then err (unterminated_matcher start)
    else plain

unfoldable pub other_token : ℕ → ℕ → Text → Result (Token × Lexer)
unfolding is_letter
other_token pos c s =
    if is_letter c then read_matcher pos [] none pos (c ∷ s) else err (unexpected_character c pos)

-- The operators of two characters, and what is left.
unfoldable pub twin_token : ℕ → ℕ → Text → Result (Token × Lexer)
unfolding other_token
twin_token pos c [] = other_token pos c []
twin_token pos c (d ∷ s) =
    if c == b'&' && d == b'&'
    then ok (and_and, record { pos = pos + 2; rest = s })
    else if c == b'|' && d == b'|'
    then ok (or_or, record { pos = pos + 2; rest = s })
    else other_token pos c (d ∷ s)

unfoldable pub token_at : ℕ → Text → Result (Token × Lexer)
unfolding twin_token
token_at pos [] = ok (eof, record { pos = pos; rest = [] })
token_at pos (c ∷ s) =
    if c == b'('
    then ok (lparen, record { pos = pos + 1; rest = s })
    else if c == b')'
    then ok (rparen, record { pos = pos + 1; rest = s })
    else twin_token pos c s

unfoldable pub next_token : Lexer → Result (Token × Lexer)
unfolding token_at skip_whitespace
next_token l = let at = skip_whitespace l.pos l.rest in token_at at.pos at.rest
