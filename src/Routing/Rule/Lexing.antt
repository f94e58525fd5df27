-- ===== src/Routing/Rule/Lexing.antt =====
-- What the lexer of internal/router/rule.go reads at the start of a printed part of a rule.
use balance_x.Common.{
  ℕ, ◌+◌, ◌<◌, ◌≡◌, refl, sym, ap, subst, ◌∙◌, true, false, ◌||◌, [], ◌∷◌, ◌++◌, Option, none, some,
  ◌==◌, if◌then◌else◌, arith, Bool-cases, inl, inr,
}
use mathlib.Core.List.{append_assoc}
use mathlib.Core.Bool.{◌&&◌}
use balance_x.Routing.Bytes.{Text, is_letter, is_space}
use balance_x.Routing.Rule.{
  and_and, or_or, lparen, rparen, matcher, Lexer, ok, read_matcher, next_token,
}
use balance_x.Routing.Rule.Grammar.{closes, IsMatcherText}

abbrev pub at : ℕ → Text → Lexer
at p s = record { pos = p; rest = s }

pub next_token-space : (p : ℕ) (s : Text) → next_token (at p (b' ' ∷ s)) ≡ next_token (at (p + 1) s)
unfolding next_token
next_token-space p s = refl

pub next_token-lparen :
    (p : ℕ) (s : Text) → next_token (at p (b'(' ∷ s)) ≡ ok (lparen, at (p + 1) s)
unfolding next_token
next_token-lparen p s = refl

pub next_token-rparen :
    (p : ℕ) (s : Text) → next_token (at p (b')' ∷ s)) ≡ ok (rparen, at (p + 1) s)
unfolding next_token
next_token-rparen p s = refl

pub next_token-and :
    (p : ℕ) (s : Text) → next_token (at p (b' ' ∷ b'&' ∷ b'&' ∷ s)) ≡ ok (and_and, at (p + 1 + 2) s)
unfolding next_token
next_token-and p s = refl

pub next_token-or :
    (p : ℕ) (s : Text) → next_token (at p (b' ' ∷ b'|' ∷ b'|' ∷ s)) ≡ ok (or_or, at (p + 1 + 2) s)
unfolding next_token
next_token-or p s = refl

snoc-append : (taken : Text) (c : ℕ) (s : Text) → (taken ++ c ∷ []) ++ s ≡ taken ++ c ∷ s
snoc-append taken c s = append_assoc taken (c ∷ []) s

abbrev Reads : ℕ → Text → Option ℕ → ℕ → Text → Text → Type 0
Reads start taken q p s k =
    (p' : ℕ) × (read_matcher start taken q p (s ++ k) ≡ ok (matcher (taken ++ s), at p' k))

ends : (s : Text) → (elim s [ [] ↦ true | _ ∷ _ ↦ false ]) ≡ true → s ≡ []
ends [] h = refl
ends (c ∷ s) h = cc

-- A text that closes is read whole, whatever follows it.
read_matcher-closes :
    (start : ℕ) (taken : Text) (q : Option ℕ) (p : ℕ) (s k : Text)
    → start < p
    → closes q s ≡ true
    → Reads start taken q p s k
unfolding read_matcher closes
read_matcher-closes start taken none p [] k later h = cc
read_matcher-closes start taken (some q) p [] k later h = cc
read_matcher-closes start taken (some q) p (c ∷ s) k later h =
    let (p', e) =
      read_matcher-closes start (taken ++ c ∷ []) (if c == q then none else some q) (p + 1) s k
        (omega arith) h in
    (p', e ∙ ap (λ t. ok (matcher t, at p' k)) (snoc-append taken c s))
read_matcher-closes start taken none p (c ∷ s) k later h =
    elim (Bool-cases (c == b'\'' || c == b'"')) [
      | inl quote ↦
          let (p', e) =
            read_matcher-closes start (taken ++ c ∷ []) (some c) (p + 1) s k (omega arith)
              (rw quote at h) in
          (p', rw quote (e ∙ ap (λ t. ok (matcher t, at p' k)) (snoc-append taken c s)))
      | inr plain ↦ elim (Bool-cases (c == b')')) [
        | inl close ↦
            let e : s ≡ [] = ends s (rw (plain, close) at h) in
            subst (λ r. Reads start taken none p (c ∷ r) k) (sym e) (p + 1, rw (plain, close))
        | inr open_ ↦
            let inside : (c == b'(' && p == start) ≡ false = ground arith in
            let (p', e) =
              read_matcher-closes start (taken ++ c ∷ []) none (p + 1) s k (omega arith)
                (rw (plain, open_) at h) in
            (
              p',
              rw (plain, open_, inside)
                  (e ∙ ap (λ t. ok (matcher t, at p' k)) (snoc-append taken c s)),
            )
      ]
    ]

-- A byte that is a letter is no blank, bracket, quote or operator.
letter_plain :
    (c : ℕ)
    → is_letter c ≡ true
    → (is_space c ≡ false)
      × ((c == b'(') ≡ false)
      × ((c == b')') ≡ false)
      × ((c == b'&') ≡ false)
      × ((c == b'|') ≡ false)
      × ((c == b'\'') ≡ false)
      × ((c == b'"') ≡ false)
unfolding is_letter is_space
letter_plain c h = (
  ground arith,
  ground arith,
  ground arith,
  ground arith,
  ground arith,
  ground arith,
  ground arith,
)

letter-token :
    (p c : ℕ) (s : Text)
    → is_letter c ≡ true
    → next_token (at p (c ∷ s)) ≡ read_matcher p [] none p (c ∷ s)
unfolding next_token
letter-token p c [] h = let (space, l, r, amp, bar, _, _) = letter_plain c h in rw (space, l, r, h)
letter-token p c (d ∷ s) h =
    let (space, l, r, amp, bar, _, _) = letter_plain c h in rw (space, l, r, amp, bar, h)

letter-first :
    (p c : ℕ) (s : Text)
    → is_letter c ≡ true
    → read_matcher p [] none p (c ∷ s) ≡ read_matcher p (c ∷ []) none (p + 1) s
unfolding read_matcher
letter-first p c s h =
    let (_, l, r, _, _, single, double) = letter_plain c h in rw (single, double, r, l)

-- The text of a matcher becomes one token, whatever follows it.
pub next_token-matcher :
    (p : ℕ) (t k : Text)
    → IsMatcherText t
    → (p' : ℕ) × (next_token (at p (t ++ k)) ≡ ok (matcher t, at p' k))
next_token-matcher p [] k h = absurd h
next_token-matcher p (c ∷ s) k h =
    let (p', e) = read_matcher-closes p (c ∷ []) none (p + 1) s k (omega arith) h.1 in
    (p', letter-token p c (s ++ k) h.0 ∙ letter-first p c (s ++ k) h.0 ∙ e)
