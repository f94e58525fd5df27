-- ===== src/Priority/Examples.antt =====
-- Requests as in internal/priority/classifier_test.go.
use balance_x.Common.{String, ◌≡◌, refl, ◌⊎◌, ◌≢◌, ◌↔◌}
use balance_x.Priority.{classify, high_priority_paths, StartsWithOneOf, classify_lem}

classify_runs :
    (classify "/api/payment/checkout" "" ≡ "HIGH")
    × (classify "/api/payment" "LOW" ≡ "LOW")
    × (classify "/static" "urgent" ≡ "LOW")
unfolding classify
classify_runs = (refl, refl, refl)

abbrev medium : String
medium = "MEDIUM"

classify_lem_example :
    ((classify "/admin/users" medium ≡ "HIGH") ⊎ (classify "/admin/users" medium ≡ "LOW"))
    × ((classify "/admin/users" medium ≡ "HIGH") ↔ (
        (medium ≡ "HIGH")
        ⊎ ((medium ≢ "LOW") × StartsWithOneOf high_priority_paths "/admin/users")))
classify_lem_example = classify_lem "/admin/users" medium
