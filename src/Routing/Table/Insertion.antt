-- ===== src/Routing/Table/Insertion.antt =====
-- A sort by insertion, which is a `Sorter` for internal/router/router.go.
use balance_x.Routing.Table.{Sorter, before, Route, IsSorted}
use balance_x.Common.{
  if◌then◌else◌, true, false, sym, subst, inl, inr, arith, List, [], ◌∷◌, ◌≡◌, false, Among, true,
  All, Bool-cases, inl, arith, subst, inr, sym,
}

unfoldable pub insert_route : {H : Type 0} → Route H → List (Route H) → List (Route H)
insert_route r [] = r ∷ []
insert_route r (q ∷ qs) =
    let rest = insert_route r qs in if before q r then q ∷ rest else r ∷ q ∷ qs

unfoldable pub sort_routes : {H : Type 0} → List (Route H) → List (Route H)
sort_routes [] = []
sort_routes (r ∷ rs) = insert_route r (sort_routes rs)

before_trans :
    {H : Type 0} (x q r : Route H) → before x q ≡ false → before q r ≡ false → before x r ≡ false
unfolding before
before_trans x q r h k = ground arith

before_asym : {H : Type 0} (q r : Route H) → before q r ≡ true → before r q ≡ false
unfolding before
before_asym q r h = ground arith

insert-before :
    {H : Type 0} (r q : Route H) (qs : List (Route H))
    → before q r ≡ true
    → insert_route r (q ∷ qs) ≡ q ∷ insert_route r qs
unfolding insert_route
insert-before r q qs h = rw h

insert-here :
    {H : Type 0} (r q : Route H) (qs : List (Route H))
    → before q r ≡ false
    → insert_route r (q ∷ qs) ≡ r ∷ q ∷ qs
unfolding insert_route
insert-here r q qs h = rw h

All-before :
    {H : Type 0} (q r : Route H) (qs : List (Route H))
    → before q r ≡ false
    → All (λ x. before x q ≡ false) qs
    → All (λ x. before x r ≡ false) qs
All-before q r [] h k = tt
All-before q r (x ∷ qs) h k = (before_trans x q r k.0 h, All-before q r qs h k.1)

All-insert :
    {H : Type 0} (p r : Route H) (qs : List (Route H))
    → before r p ≡ false
    → All (λ x. before x p ≡ false) qs
    → All (λ x. before x p ≡ false) (insert_route r qs)
unfolding insert_route
All-insert p r [] h k = (h, tt)
All-insert p r (q ∷ qs) h k = elim (Bool-cases (before q r)) [
  | inl e ↦
      subst (All (λ x. before x p ≡ false)) (sym (insert-before r q qs e))
        (k.0, All-insert p r qs h k.1)
  | inr e ↦ subst (All (λ x. before x p ≡ false)) (sym (insert-here r q qs e)) (h, (k.0, k.1))
]

insert-IsSorted :
    {H : Type 0} (r : Route H) (qs : List (Route H)) → IsSorted qs → IsSorted (insert_route r qs)
unfolding insert_route
insert-IsSorted r [] h = (tt, tt)
insert-IsSorted r (q ∷ qs) h = elim (Bool-cases (before q r)) [
  | inl e ↦
      subst IsSorted (sym (insert-before r q qs e))
        (All-insert q r qs (before_asym q r e) h.0, insert-IsSorted r qs h.1)
  | inr e ↦ subst IsSorted (sym (insert-here r q qs e)) ((e, All-before q r qs e h.0), (h.0, h.1))
]

pub sort_routes-IsSorted : {H : Type 0} (rs : List (Route H)) → IsSorted (sort_routes rs)
unfolding sort_routes
sort_routes-IsSorted [] = tt
sort_routes-IsSorted (r ∷ rs) = insert-IsSorted r (sort_routes rs) (sort_routes-IsSorted rs)

Among-insert-to :
    {H : Type 0} (x r : Route H) (qs : List (Route H))
    → Among x (insert_route r qs)
    → Among x (r ∷ qs)
unfolding insert_route
Among-insert-to x r [] h = h
Among-insert-to x r (q ∷ qs) h = elim (Bool-cases (before q r)) [
  | inl e ↦ elim (subst (Among x) (insert-before r q qs e) h) [
    | inl same ↦ inr (inl same)
    | inr at ↦ elim (Among-insert-to x r qs at) [ inl same ↦ inl same | inr at' ↦ inr (inr at') ]
  ]
  | inr e ↦ subst (Among x) (insert-here r q qs e) h
]

Among-insert-from :
    {H : Type 0} (x r : Route H) (qs : List (Route H))
    → Among x (r ∷ qs)
    → Among x (insert_route r qs)
unfolding insert_route
Among-insert-from x r [] h = h
Among-insert-from x r (q ∷ qs) h = elim (Bool-cases (before q r)) [
  | inl e ↦ subst (Among x) (sym (insert-before r q qs e)) (elim h [
    | inl same ↦ inr (Among-insert-from x r qs (inl same))
    | inr (inl same) ↦ inl same
    | inr (inr at) ↦ inr (Among-insert-from x r qs (inr at))
  ])
  | inr e ↦ subst (Among x) (sym (insert-here r q qs e)) h
]

pub Among-sort-to :
    {H : Type 0} (x : Route H) (rs : List (Route H)) → Among x (sort_routes rs) → Among x rs
unfolding sort_routes
Among-sort-to x [] h = h
Among-sort-to x (r ∷ rs) h = elim (Among-insert-to x r (sort_routes rs) h) [
  | inl same ↦ inl same
  | inr at ↦ inr (Among-sort-to x rs at)
]

pub Among-sort-from :
    {H : Type 0} (x : Route H) (rs : List (Route H)) → Among x rs → Among x (sort_routes rs)
unfolding sort_routes
Among-sort-from x [] h = h
Among-sort-from x (r ∷ rs) (inl same) = Among-insert-from x r (sort_routes rs) (inl same)
Among-sort-from x (r ∷ rs) (inr at) =
    Among-insert-from x r (sort_routes rs) (inr (Among-sort-from x rs at))

unfoldable pub insertion_sorter : (H : Type 0) → Sorter H
insertion_sorter H = record {
  sort = sort_routes;
  sort-IsSorted = sort_routes-IsSorted;
  Among-sort = λ x rs. (Among-sort-to x rs, Among-sort-from x rs);
}
