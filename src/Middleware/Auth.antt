-- ===== src/Middleware/Auth.antt =====
-- `BasicAuth` of internal/middleware/auth.go. `credentials` is what `r.BasicAuth()` reads from the
-- request, if anything.
use balance_x.Common.{
  ◌≡◌, refl, sym, Bool, true, false, not, ◌||◌, String, str_eq, if◌then◌else◌, List, ◌∷◌, Option,
  none, some, ◌⊎◌, inl, inr, eq_iff, Bool-cases, arith, ap₂, subst,
}
use balance_x.Routing.Bytes.{codes}
use balance_x.Http.{Action, set_header_to, http_error}

abbrev pub challenge : List Action
challenge =
    set_header_to "WWW-Authenticate" "Basic realm=\"Load Balancer Dashboard\""
    ∷ http_error (codes "Unauthorized") 401

-- The test of the credentials.
unfoldable pub is_admitted : String → String → Option (String × String) → Bool
is_admitted username password none = false
is_admitted username password (some (user, pass)) =
    not (not (str_eq user username) || not (str_eq pass password))

unfoldable pub basic_auth :
    {S : Type 0}
    → String
    → String
    → Option (String × String)
    → (S → S × List Action)
    → S
    → S × List Action
basic_auth username password credentials next s =
    if str_eq username "" || str_eq password ""
    then next s
    else if is_admitted username password credentials
    then next s
    else (s, challenge)

-- Who may pass.
abbrev pub MayPass : String → String → Option (String × String) → Type 0
MayPass username password credentials =
    (username ≡ "") ⊎ (password ≡ "") ⊎ (credentials ≡ some (username, password))

is_admitted-some :
    (username password user pass : String)
    → is_admitted username password (some (user, pass)) ≡ true
    → (user ≡ username) × (pass ≡ password)
unfolding is_admitted
is_admitted-some username password user pass h =
    ground (arith, eq_iff user username, eq_iff pass password)

is_admitted_lem :
    (username password : String) (credentials : Option (String × String))
    → is_admitted username password credentials ≡ true
    → credentials ≡ some (username, password)
unfolding is_admitted
is_admitted_lem username password none h = cc
is_admitted_lem username password (some (user, pass)) h =
    let (same_user, same_pass) = is_admitted-some username password user pass h in
    ap₂ (λ u p. some (u, p)) same_user same_pass

is_admitted-own :
    (username password : String) → is_admitted username password (some (username, password)) ≡ true
unfolding is_admitted
is_admitted-own username password =
    ground (arith, eq_iff username username, eq_iff password password)

if-same : {A : Type 0} (b : Bool) (x y : A) → y ≡ x → (if b then x else y) ≡ x
if-same true x y h = refl
if-same false x y h = h

unset-MayPass :
    (username password : String) (credentials : Option (String × String))
    → (str_eq username "" || str_eq password "") ≡ true
    → MayPass username password credentials
unset-MayPass username password credentials h = elim (Bool-cases (str_eq username "")) [
  | inl e ↦ inl ((eq_iff username "").0 e)
  | inr differ ↦ inr (inl ((eq_iff password "").0 (rw differ at h)))
]

MayPass-cases :
    (username password : String) (credentials : Option (String × String))
    → MayPass username password credentials
    → ((str_eq username "" || str_eq password "") ≡ true)
      ⊎ (is_admitted username password credentials ≡ true)
MayPass-cases username password credentials (inl e) =
    let h = (eq_iff username "").1 e in inl (ground (arith, h))
MayPass-cases username password credentials (inr (inl e)) =
    let h = (eq_iff password "").1 e in inl (ground (arith, h))
MayPass-cases username password credentials (inr (inr e)) = inr (
    subst (λ c. is_admitted username password c ≡ true) (sym e) (is_admitted-own username password))

-- A request passes to the next handler, unchanged, when the user name or the password is not
-- configured or the request brings exactly these two. Every other request is answered with the
-- challenge, status 401, and the next handler does not run.
pub basic_auth_lem :
    {S : Type 0} (username password : String) (credentials : Option (String × String))
    (next : S → S × List Action) (s : S)
    → (MayPass username password credentials
        → basic_auth username password credentials next s ≡ next s)
      × (¬ MayPass username password credentials
          → basic_auth username password credentials next s ≡ (s, challenge))
unfolding basic_auth
basic_auth_lem username password credentials next s = (
  λ may. elim (MayPass-cases username password credentials may) [
    | inl unset ↦ rw unset refl
    | inr known ↦ if-same (str_eq username "" || str_eq password "") (next s) _ (rw known refl)
  ],
  λ may_not. elim (Bool-cases (str_eq username "" || str_eq password "")) [
    | inl unset ↦ absurd (may_not (unset-MayPass username password credentials unset))
    | inr set ↦ elim (Bool-cases (is_admitted username password credentials)) [
      | inl known ↦
          absurd (may_not (inr (inr (is_admitted_lem username password credentials known))))
      | inr unknown ↦ rw (set, unknown) refl
    ]
  ],
)
