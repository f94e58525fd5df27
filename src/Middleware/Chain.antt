-- ===== src/Middleware/Chain.antt =====
-- `Chain` of internal/middleware/middleware.go. A handler is of any type `H`.
use balance_x.Common.{List, [], ◌∷◌, ◌++◌, ◌≡◌, refl, ap, ◌∙◌}
use mathlib.Core.List.{reverse, reverse-append}

abbrev pub Middleware : Type 0 → Type 0
Middleware H = H → H

-- The loop, which takes the middlewares from the last to the first.
unfoldable pub wrap_all : {H : Type 0} → List (Middleware H) → H → H
wrap_all [] final = final
wrap_all (m ∷ ms) final = wrap_all ms (m final)

unfoldable pub chain : {H : Type 0} → List (Middleware H) → Middleware H
unfolding wrap_all
chain ms final = wrap_all (reverse ms) final

wrap_all-append :
    {H : Type 0} (xs ys : List (Middleware H)) (final : H)
    → wrap_all (xs ++ ys) final ≡ wrap_all ys (wrap_all xs final)
unfolding wrap_all
wrap_all-append [] ys final = refl
wrap_all-append (x ∷ xs) ys final = wrap_all-append xs ys (x final)

-- The handler that the first middleware of the list wraps around those of the rest.
unfoldable pub onion : {H : Type 0} → List (Middleware H) → H → H
onion [] final = final
onion (m ∷ ms) final = m (onion ms final)

-- `chain` of any middlewares is their nesting with the first outermost: a request meets them in the
-- order of the list.
pub chain_lem :
    {H : Type 0} (ms : List (Middleware H)) (final : H) → chain ms final ≡ onion ms final
unfolding chain onion wrap_all
chain_lem [] final = refl
chain_lem (m ∷ ms) final =
    ap (λ l. wrap_all l final) (reverse-append (m ∷ []) ms)
    ∙ wrap_all-append (reverse ms) (m ∷ []) final
    ∙ ap m (chain_lem ms final)
