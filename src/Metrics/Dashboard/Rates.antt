-- ===== src/Metrics/Dashboard/Rates.antt =====
-- What two snapshots of internal/metrics/collector.go say: the sums over the servers and the rates.
use balance_x.Common.Int.{sub_ℕ, pos}
use balance_x.Metrics.Recording.{record_end, ended}
use balance_x.Common.Float.{Float64, lt_float, float_zero}
use balance_x.Common.Dict.{adjust, Dict, lookup, AllValues, lookup-adjust}
use balance_x.Common.{
  ◌∷◌, ◌⊎◌, if◌then◌else◌, ℕ, String, List, ◌≡◌, ◌+◌, Bool, [], arith, none, suc, false, Bool-cases,
  refl, some, str_eq, true, inl, inr, ◌≢◌, ◌∙◌, ltb, ◌-◌, ap,
}
use balance_x.Metrics.{Collector, ServerStats}
use balance_x.Metrics.Dashboard.{
  count_totals, dashboard_snap, seconds, requests_per_second, success_rate,
}
use balance_x.Metrics.Invariant.{IsConsistent, Reachable, Reachable-IsSound}

sub-added : (a k : ℕ) → sub_ℕ (a + k) a ≡ pos k
sub-added a k = ground arith

module _ {F : Type 0} where
  -- The sum of a number over the servers.
  unfoldable pub sum_of : (ServerStats F → ℕ) → Dict (ServerStats F) → ℕ
  sum_of f [] = 0
  sum_of f ((url, s) ∷ rest) = f s + sum_of f rest

  abbrev pub one_if_healthy : ServerStats F → ℕ
  one_if_healthy s = if s.is_healthy then 1 else 0

  unfoldable pub is_known : String → Dict (ServerStats F) → Bool
  is_known url m = elim (lookup url m) [ none ↦ false | some s ↦ true ]

  -- How many of the requests are for servers that there are.
  unfoldable pub known_ends : List (String × F × Bool) → Dict (ServerStats F) → ℕ
  unfolding is_known
  known_ends [] m = 0
  known_ends ((url, ms, success) ∷ ends) m =
      let rest = known_ends ends m in if is_known url m then suc rest else rest

  count_totals-sums :
      (m : Dict (ServerStats F))
      → ((count_totals m).requests ≡ sum_of (λ s. s.total_requests) m)
        × ((count_totals m).successes ≡ sum_of (λ s. s.success_count) m)
        × ((count_totals m).healthy ≡ sum_of one_if_healthy m)
  unfolding count_totals sum_of
  count_totals-sums [] = (refl, refl, refl)
  count_totals-sums ((url, s) ∷ rest) =
      let ih = count_totals-sums rest in
      (omega (arith, ih.0), omega (arith, ih.1), ground (arith, ih.2))

  sum_of-IsConsistent :
      (m : Dict (ServerStats F))
      → AllValues IsConsistent m
      → sum_of (λ s. s.total_requests) m
        ≡ sum_of (λ s. s.success_count) m + sum_of (λ s. s.failure_count) m
  unfolding sum_of
  sum_of-IsConsistent [] h = refl
  sum_of-IsConsistent ((url, s) ∷ rest) h = omega (arith, h.0.adds_up, sum_of-IsConsistent rest h.1)

  is_known-adjust :
      (u url : String) (f : ServerStats F → ServerStats F) (m : Dict (ServerStats F))
      → is_known u (adjust url f m) ≡ is_known u m
  unfolding is_known
  is_known-adjust u url f m = ground (arith, lookup-adjust url u f m)

  known_ends-adjust :
      (ends : List (String × F × Bool)) (url : String) (f : ServerStats F → ServerStats F)
      (m : Dict (ServerStats F))
      → known_ends ends (adjust url f m) ≡ known_ends ends m
  unfolding known_ends
  known_ends-adjust [] url f m = refl
  known_ends-adjust ((u, ms, success) ∷ ends) url f m =
      rw (is_known-adjust u url f m, known_ends-adjust ends url f m) refl

  requests-adjust :
      (url : String) (f : ServerStats F → ServerStats F) (m : Dict (ServerStats F))
      → ((s : ServerStats F) → (f s).total_requests ≡ s.total_requests + 1)
      → (count_totals (adjust url f m)).requests
        ≡ (if is_known url m then suc (count_totals m).requests else (count_totals m).requests)
  unfolding count_totals adjust is_known lookup
  requests-adjust url f [] h = refl
  requests-adjust url f ((k, s) ∷ rest) h = elim (Bool-cases (str_eq k url)) [
    | inl same ↦ ground (arith, same, h s)
    | inr apart ↦ ground (arith, apart, requests-adjust url f rest h)
  ]

module _ {F : Type 0} ⦃fl : Float64 F⦄ where
  -- Requests end, each with its server, its latency and its success.
  unfoldable pub end_all : List (String × F × Bool) → Collector F → Collector F
  end_all [] c = c
  end_all ((url, ms, success) ∷ ends) c = end_all ends (record_end url ms success c)

  end_all-requests :
      (ends : List (String × F × Bool)) (c : Collector F)
      → (count_totals (end_all ends c).servers).requests
        ≡ (count_totals c.servers).requests + known_ends ends c.servers
  unfolding end_all known_ends record_end
  end_all-requests [] c = omega arith
  end_all-requests ((url, ms, success) ∷ ends) c =
      let ih = end_all-requests ends (record_end url ms success c) in
      let one = requests-adjust url (ended ms success) c.servers (λ s. refl) in
      let same = known_ends-adjust ends url (ended ms success) c.servers in
      ground (arith, ih, one, same)

  end_all-last :
      (ends : List (String × F × Bool)) (c : Collector F)
      → ((end_all ends c).last_snapshot_time ≡ c.last_snapshot_time)
        × ((end_all ends c).last_total_requests ≡ c.last_total_requests)
  unfolding end_all record_end
  end_all-last [] c = (refl, refl)
  end_all-last ((url, ms, success) ∷ ends) c = end_all-last ends (record_end url ms success c)

  snapshot-requests_per_second :
      (now later : ℕ) (c : Collector F) (ends : List (String × F × Bool))
      → lt_float {F = F} float_zero (seconds (later - now)) ≡ true
      → let first = dashboard_snap now c in
        requests_per_second
          (end_all ends first.0)
          ((count_totals c.servers).requests + known_ends ends c.servers)
          later
        ≡ fl.quot (fl.of_int (pos (known_ends ends c.servers))) (seconds (later - now))
  unfolding dashboard_snap requests_per_second
  snapshot-requests_per_second now later c ends passed =
      let last = end_all-last ends (dashboard_snap now c).0 in
      rw
        (
          last.0,
          last.1,
          sub-added (count_totals c.servers).requests (known_ends ends c.servers),
          passed,
          requests_per_second,
        )
        refl

  -- The percentage of successes, 0 before the first request.
  abbrev pub IsRate : ℕ → ℕ → F → Type 0
  IsRate successes failures rate =
      ((successes + failures ≡ 0) × (rate ≡ fl.of_int (pos 0)))
      ⊎ ((successes + failures ≢ 0)
          × (rate
              ≡ fl.mul
                  (fl.quot (fl.of_int (pos successes)) (fl.of_int (pos (successes + failures))))
                  (fl.of_int (pos 100))))

  success_rate-IsRate :
      (m : Dict (ServerStats F))
      → AllValues IsConsistent m
      → IsRate
          (sum_of (λ s. s.success_count) m)
          (sum_of (λ s. s.failure_count) m)
          (success_rate (count_totals m))
  unfolding success_rate
  success_rate-IsRate m h =
      let sums = count_totals-sums m in
      let e = sums.0 ∙ sum_of-IsConsistent m h in
      rw (e, sums.1)
        (elim (Bool-cases
          (ltb 0 (sum_of (λ s. s.success_count) m + sum_of (λ s. s.failure_count) m))) [
            | inl some_request ↦ inr (ground (arith, some_request), rw some_request refl)
            | inr no_request ↦ inl (ground (arith, no_request), rw no_request refl)
          ])

  -- Take a snapshot of a collector that arises, let requests end, and take another one later, by more
  -- than no time. The first counts the servers that are healthy, and its total and rate are those of
  -- the servers' successes and failures. The second counts as many requests more as ended at servers
  -- that there are, and its requests per second are those over the seconds between the two.
  pub dashboard_snap_lem :
      (now later : ℕ) (c : Collector F) (ends : List (String × F × Bool))
      → Reachable c
      → lt_float {F = F} float_zero (seconds (later - now)) ≡ true
      → let first = dashboard_snap now c in
        let second = dashboard_snap later (end_all ends first.0) in
        let successes = sum_of (λ s. s.success_count) c.servers in
        let failures = sum_of (λ s. s.failure_count) c.servers in
        let ended_since = known_ends ends c.servers in
        (first.1.healthy_count ≡ sum_of one_if_healthy c.servers)
        × (first.1.total_requests ≡ successes + failures)
        × IsRate successes failures first.1.success_rate
        × (second.1.total_requests ≡ first.1.total_requests + ended_since)
        × (second.1.global_rps ≡ fl.quot (fl.of_int (pos ended_since)) (seconds (later - now)))
  unfolding dashboard_snap
  dashboard_snap_lem now later c ends r passed =
      let sound = (Reachable-IsSound r).servers_consistent in
      let sums = count_totals-sums c.servers in
      let after = (dashboard_snap now c).0 in
      let more = end_all-requests ends after in
      (
        sums.2,
        sums.0 ∙ sum_of-IsConsistent c.servers sound,
        success_rate-IsRate c.servers sound,
        more,
        ap (λ n. requests_per_second (end_all ends after) n later) more
            ∙ snapshot-requests_per_second now later c ends passed,
      )
