-- ===== src/Routing/Rule/Roundtrip/Steps.antt =====
-- What each function of the parser of internal/router/rule.go reads, given what the ones it calls do.
use balance_x.Common.{ℕ, suc, ◌+◌, ◌≡◌, refl, sym, ap, ◌∙◌, Bool, true, false, ◌∷◌, ◌++◌}
use balance_x.Routing.Bytes.{Text}
use balance_x.Routing.Matcher.{Net, MatcherFunc, match_and, match_or}
use balance_x.Routing.Rule.{
  Token, eof, and_and, or_or, lparen, rparen, matcher, Lexer, Result, ok, err, ◌>>=◌, next_token,
}
use balance_x.Routing.Rule.Args.{create_matcher}
use balance_x.Routing.Rule.Grammar.{OrTail, or_end, or_more, print_or, print_term, IsMatcherText}
use balance_x.Routing.Rule.Lexing.{
  at, next_token-space, next_token-lparen, next_token-rparen, next_token-and, next_token-or,
  next_token-matcher,
}
use balance_x.Routing.Rule.Parser.{
  State, Parsed, expect_rparen, parse_expression, or_loop, parse_term, and_loop, parse_factor,
}

pub bind_assoc :
    {A B C : Type 0} (x : Result A) (f : A → Result B) (g : B → Result C)
    → ((x >>= f) >>= g) ≡ (x >>= λ a. f a >>= g)
bind_assoc (ok a) f g = refl
bind_assoc (err e) f g = refl

-- From the text `s` the parser `f` returns `m`, with the text `k` left.
abbrev pub Reaches : (State → Result Parsed) → ℕ → Text → Text → MatcherFunc → Type 0
Reaches f p s k m =
    (p' : ℕ) × ((next_token (at p s) >>= f) ≡ (next_token (at p' k) >>= λ st. ok (m, st)))

abbrev pub Follows : Text → Token → Type 0
Follows k t = (p : ℕ) → (l : Lexer) × (next_token (at p k) ≡ ok (t, l))

abbrev pub is_and : Token → Bool
is_and and_and = true
is_and _ = false

abbrev pub is_or : Token → Bool
is_or or_or = true
is_or _ = false

pub seq :
    (g : State → Result Parsed) (h : MatcherFunc → State → Result Parsed) (p : ℕ) (s k₁ k : Text)
    (a m : MatcherFunc)
    → Reaches g p s k₁ a
    → ((p₁ : ℕ) → Reaches (h a) p₁ k₁ k m)
    → Reaches (λ st. g st >>= λ (b, st'). h b st') p s k m
seq g h p s k₁ k a m (p₁, e) later =
    let (p₂, e₂) = later p₁ in
    (
      p₂,
      sym (bind_assoc (next_token (at p s)) g (λ (b, st'). h b st'))
          ∙ ap (λ r. r >>= λ (b, st'). h b st') e
          ∙ bind_assoc (next_token (at p₁ k₁)) (λ st. ok (a, st)) (λ (b, st'). h b st')
          ∙ e₂,
    )

module _ (net : Net) where
  and_loop-stop :
      (f : ℕ) (m : MatcherFunc) (t : Token) (l : Lexer)
      → is_and t ≡ false
      → and_loop net (suc f) m (t, l) ≡ ok (m, (t, l))
  unfolding and_loop
  and_loop-stop f m eof l h = refl
  and_loop-stop f m and_and l h = cc
  and_loop-stop f m or_or l h = refl
  and_loop-stop f m lparen l h = refl
  and_loop-stop f m rparen l h = refl
  and_loop-stop f m (matcher t) l h = refl

  or_loop-stop :
      (f : ℕ) (m : MatcherFunc) (t : Token) (l : Lexer)
      → is_or t ≡ false
      → or_loop net (suc f) m (t, l) ≡ ok (m, (t, l))
  unfolding or_loop
  or_loop-stop f m eof l h = refl
  or_loop-stop f m and_and l h = refl
  or_loop-stop f m or_or l h = cc
  or_loop-stop f m lparen l h = refl
  or_loop-stop f m rparen l h = refl
  or_loop-stop f m (matcher t) l h = refl

  pub leaf-reads :
      (t k : Text) (m : MatcherFunc) (f p : ℕ)
      → IsMatcherText t
      → create_matcher net t ≡ ok m
      → Reaches (parse_factor net (suc f)) p (t ++ k) k m
  unfolding parse_factor
  leaf-reads t k m f p form made =
      let (p', e) = next_token-matcher p t k form in (p', rw e (rw made))

  -- The parentheses around an expression that is read.
  pub group-reads :
      (s k : Text) (m : MatcherFunc) (f p : ℕ)
      → ((p₁ : ℕ) → Reaches (parse_expression net f) p₁ (s ++ b')' ∷ k) (b')' ∷ k) m)
      → Reaches (parse_factor net (suc f)) p (b'(' ∷ (s ++ b')' ∷ k)) k m
  unfolding parse_factor
  group-reads s k m f p inner =
      let (p₂, e) = inner (p + 1) in
      (
        p₂ + 1,
        rw (next_token-lparen p (s ++ b')' ∷ k)) (
            sym (
              bind_assoc (next_token (at (p + 1) (s ++ b')' ∷ k))) (parse_expression net f)
                expect_rparen)
            ∙ ap (λ r. r >>= expect_rparen) e
            ∙ rw (next_token-rparen p₂ k)),
      )

  pub and_end-reads :
      (k : Text) (t : Token) (m : MatcherFunc) (f p : ℕ)
      → Follows k t
      → is_and t ≡ false
      → Reaches (and_loop net (suc f) m) p k k m
  and_end-reads k t m f p follows stop =
      let (l, e) = follows p in (p, rw e (and_loop-stop f m t l stop))

  pub or_end-reads :
      (k : Text) (t : Token) (m : MatcherFunc) (f p : ℕ)
      → Follows k t
      → is_or t ≡ false
      → Reaches (or_loop net (suc f) m) p k k m
  or_end-reads k t m f p follows stop =
      let (l, e) = follows p in (p, rw e (or_loop-stop f m t l stop))

  pub and_more-reads :
      (s k : Text) (m r : MatcherFunc) (f p : ℕ)
      → ((p₁ : ℕ)
          → Reaches
              (λ st. parse_factor net f st >>= λ (x, st'). and_loop net f (match_and m x) st')
              p₁
              s
              k
              r)
      → Reaches (and_loop net (suc f) m) p (b' ' ∷ b'&' ∷ b'&' ∷ b' ' ∷ s) k r
  unfolding and_loop
  and_more-reads s k m r f p inner =
      let (p₂, e) = inner (p + 1 + 2 + 1) in
      (p₂, rw (next_token-and p (b' ' ∷ s)) (rw (next_token-space (p + 1 + 2) s) e))

  pub or_more-reads :
      (s k : Text) (m r : MatcherFunc) (f p : ℕ)
      → ((p₁ : ℕ)
          → Reaches
              (λ st. parse_term net f st >>= λ (x, st'). or_loop net f (match_or m x) st')
              p₁
              s
              k
              r)
      → Reaches (or_loop net (suc f) m) p (b' ' ∷ b'|' ∷ b'|' ∷ b' ' ∷ s) k r
  unfolding or_loop
  or_more-reads s k m r f p inner =
      let (p₂, e) = inner (p + 1 + 2 + 1) in
      (p₂, rw (next_token-or p (b' ' ∷ s)) (rw (next_token-space (p + 1 + 2) s) e))

  -- After a term comes no "&&".
  pub print_or-Follows :
      (ts : OrTail) (k : Text) (t : Token)
      → Follows k t
      → is_and t ≡ false
      → (t' : Token) × Follows (print_or ts ++ k) t' × (is_and t' ≡ false)
  unfolding print_or
  print_or-Follows or_end k t follows stop = (t, follows, stop)
  print_or-Follows (or_more x ts) k t follows stop = (
    or_or,
    λ p. (at (p + 1 + 2) (b' ' ∷ (print_term x ++ print_or ts) ++ k), next_token-or p _),
    refl,
  )
