-- ===== src/Priority.antt =====
-- internal/priority/classifier.go.
mod Examples
use balance_x.Common.{
  Bool, true, false, String, List, [], ◌∷◌, ◌≡◌, refl, sym, ◌∙◌, ◌⊎◌, inl, inr, ◌≢◌, ◌↔◌, ◌||◌,
  str_eq, if◌then◌else◌, Bool-cases, eq_iff,
}
use text.Mathlib.Text.{starts_with}
use text.Mathlib.TextEquality.{starts_with_iff}
use text.Mathlib.TextBridge.{IsPrefix}

unfoldable pub high_priority_paths : List String
high_priority_paths =
    "/api/critical" ∷ "/api/payment" ∷ "/api/auth" ∷ "/admin" ∷ "/health-check" ∷ []

-- The loop over the prefixes, with `strings.HasPrefix`.
unfoldable pub has_prefix_in : List String → String → Bool
has_prefix_in [] path = false
has_prefix_in (p ∷ ps) path = if starts_with path p then true else has_prefix_in ps path

abbrev high : String
high = "HIGH"

abbrev low : String
low = "LOW"

unfoldable pub classify : String → String → String
unfolding high_priority_paths has_prefix_in
classify path header =
    if str_eq header "HIGH" || str_eq header "LOW"
    then header
    else if has_prefix_in high_priority_paths path
    then "HIGH"
    else "LOW"

-- The path begins with one of the given prefixes.
abbrev pub StartsWithOneOf : List String → String → Type 0
StartsWithOneOf [] path = ⊥
StartsWithOneOf (p ∷ ps) path = IsPrefix p path ⊎ StartsWithOneOf ps path

has_prefix_in_iff :
    (ps : List String) (path : String) → (has_prefix_in ps path ≡ true) ↔ StartsWithOneOf ps path
unfolding has_prefix_in
has_prefix_in_iff [] path = (λ e. cc, λ b. absurd b)
has_prefix_in_iff (p ∷ ps) path = elim (Bool-cases (starts_with path p)) [
  | inl e ↦ rw e ((λ _. inl ((starts_with_iff path p).0 e)), (λ _. refl))
  | inr e ↦ rw e (
    (λ h. inr ((has_prefix_in_iff ps path).0 h)),
    (λ h. elim h [
      | inl pre ↦ cc ((starts_with_iff path p).1 pre)
      | inr later ↦ (has_prefix_in_iff ps path).1 later
    ]),
  )
]

pub low-ne-high : "LOW" ≢ high
low-ne-high e = cc ((eq_iff "LOW" high).1 e)

-- The three outcomes of `classify`, with what decides each.
classify_cases :
    (path header : String)
    → ((header ≡ high) × (classify path header ≡ high))
      ⊎ ((header ≡ low) × (classify path header ≡ low))
      ⊎ ((header ≢ low)
          × (header ≢ high)
          × (classify path header ≡ (if has_prefix_in high_priority_paths path then high else low)))
unfolding classify
classify_cases path header = elim (Bool-cases (str_eq header "HIGH")) [
  | inl e ↦ inl ((eq_iff header high).0 e, rw e ((eq_iff header high).0 e))
  | inr e ↦ elim (Bool-cases (str_eq header "LOW")) [
    | inl l ↦ inr (inl ((eq_iff header low).0 l, rw (e, l) ((eq_iff header low).0 l)))
    | inr l ↦
        inr (
          inr
            ((λ p. cc ((eq_iff header low).1 p)), (λ p. cc ((eq_iff header high).1 p)), rw (e, l)))
  ]
]

-- Where the header decides nothing, the path does.
by_path :
    (path header : String)
    → header ≢ low
    → header ≢ high
    → classify path header ≡ (if has_prefix_in high_priority_paths path then high else low)
    → ((classify path header ≡ high) ⊎ (classify path header ≡ low))
      × ((classify path header ≡ high)
          ↔ ((header ≡ high) ⊎ ((header ≢ low) × StartsWithOneOf high_priority_paths path)))
by_path path header nl nh c = elim (Bool-cases (has_prefix_in high_priority_paths path)) [
  | inl e ↦
      let is_high : classify path header ≡ high = rw e at c in
      (
        inl is_high,
        ((λ _. inr (nl, (has_prefix_in_iff high_priority_paths path).0 e)), (λ _. is_high)),
      )
  | inr e ↦
      let is_low : classify path header ≡ low = rw e at c in
      (
        inr is_low,
        (
          (λ h. absurd (low-ne-high (sym is_low ∙ h))),
          (λ d. elim d [
            | inl h ↦ absurd (nh h)
            | inr (_, pre) ↦ cc ((has_prefix_in_iff high_priority_paths path).1 pre)
          ]),
        ),
      )
]

-- Every request is classified "HIGH" or "LOW", and "HIGH" exactly when its header says so, or the
-- header does not say "LOW" and the path begins with one of the critical prefixes.
pub classify_lem :
    (path header : String)
    → ((classify path header ≡ "HIGH") ⊎ (classify path header ≡ "LOW"))
      × ((classify path header ≡ "HIGH")
          ↔ ((header ≡ "HIGH") ⊎ ((header ≢ "LOW") × StartsWithOneOf high_priority_paths path)))
classify_lem path header = elim (classify_cases path header) [
  | inl (h, c) ↦ (inl c, ((λ _. inl h), (λ _. c)))
  | inr (inl (l, c)) ↦ (
    inr c,
    (
      (λ e. absurd (low-ne-high (sym c ∙ e))),
      (λ d. elim d [ inl h ↦ absurd (low-ne-high (sym l ∙ h)) | inr (nl, _) ↦ absurd (nl l) ]),
    ),
  )
  | inr (inr (nl, nh, c)) ↦ by_path path header nl nh c
]
