-- ===== src/Checks/Reports.antt =====
-- What a request of checks reports.
use nodeagentx.Prelude.{
  ℕ, suc, ◌+◌, ◌<◌, String, none, some, List, [], ◌∷◌, ◌++◌, map, ◌≡◌, refl, ap, ◌∙◌, All, length,
  Option-cases, length-map, sym, inl, inr, arith,
}
use nodeagentx.Prelude.Maps.{Map}
use nodeagentx.Prelude.Text.{join}
use nodeagentx.Checks.Types.{
  CheckStatus, status_pass, status_fail, status_warn, status_error, status_skip, other_status,
  CheckResult, CheckSummary, count_status, count_results, summary_of, build_summary,
}
use nodeagentx.Checks.Executor.{
  Answer, check_failed, answered, CheckItem, Checker, get_checker, error_result, result_of,
  execute_one, execute_items, intermediate, final, execute,
}

-- A status that a constant names.
abbrev pub IsListed : CheckStatus → Type 0
IsListed (other_status n) = ⊥
IsListed _ = Unit

abbrev pub counted : CheckSummary → ℕ
counted s = s.pass + s.fail + s.warn + s.error + s.skip

count_status-counted :
    (k : CheckStatus) (s : CheckSummary)
    → IsListed k
    → counted s < 2_147_483_648
    → (counted (count_status k s) ≡ suc (counted s)) × ((count_status k s).total ≡ s.total)
unfolding count_status
count_status-counted status_pass s h b = (omega (arith, b), refl)
count_status-counted status_fail s h b = (omega (arith, b), refl)
count_status-counted status_warn s h b = (omega (arith, b), refl)
count_status-counted status_error s h b = (omega (arith, b), refl)
count_status-counted status_skip s h b = (omega (arith, b), refl)
count_status-counted (other_status n) s h b = elim h [ ]

count_results-counted :
    (rs : List CheckResult) (s : CheckSummary)
    → All (λ r. IsListed r.status) rs
    → counted s + length rs < 2_147_483_648
    → (counted (count_results rs s) ≡ counted s + length rs)
      × ((count_results rs s).total ≡ s.total)
unfolding count_results
count_results-counted [] s h b = (omega arith, refl)
count_results-counted (r ∷ rs) s (h, hs) b =
    let (one, total) = count_status-counted r.status s h (omega (arith, b)) in
    let (rest, totals) =
      count_results-counted rs (count_status r.status s) hs (omega (arith, b, one)) in
    (omega (arith, one, rest), totals ∙ total)

build_summary-counted :
    (rs : List CheckResult) (total_duration : ℕ)
    → All (λ r. IsListed r.status) rs
    → length rs < 2_147_483_648
    → ((build_summary rs total_duration).total ≡ length rs)
      × (counted (build_summary rs total_duration) ≡ length rs)
unfolding build_summary
build_summary-counted rs total_duration h b =
    let empty = summary_of rs total_duration in
    let (n, total) = count_results-counted rs empty h (omega (arith, b)) in
    (total ∙ omega (arith, b), omega (arith, n))

-- An error, or a result with a listed status.
abbrev pub IsUsual : Answer → Type 0
IsUsual (check_failed e) = Unit
IsUsual (answered none) = ⊥
IsUsual (answered (some r)) = IsListed r.status

module _ {J : Type 0} where
  result_of-IsListed :
      (item : CheckItem J) (elapsed : ℕ) (a : Answer)
      → IsUsual a
      → (r : CheckResult) × (result_of item elapsed a ≡ some r)
        × (r.item_id ≡ item.id)
        × IsListed r.status
  unfolding result_of
  result_of-IsListed item elapsed (check_failed e) u = (_, refl, refl, tt)
  result_of-IsListed item elapsed (answered none) u = elim u [ ]
  result_of-IsListed item elapsed (answered (some r)) u = (_, refl, refl, u)

  module _ (checkers : Map (Checker J)) (time : ℕ → ℕ)
      (usual : (kind : String) (c : Checker J) (j : J)
        → get_checker kind checkers ≡ some c
        → IsUsual (c j)) where
    execute_one-IsListed :
        (elapsed : ℕ) (item : CheckItem J)
        → (r : CheckResult) × (execute_one checkers elapsed item ≡ some r)
          × (r.item_id ≡ item.id)
          × IsListed r.status
    unfolding execute_one
    execute_one-IsListed elapsed item = elim (Option-cases (get_checker item.item_type checkers)) [
      | inl unknown ↦ (
        error_result item (join "unknown checker type: " item.item_type) elapsed,
        rw (unknown, execute_one) refl,
        refl,
        tt,
      )
      | inr (c, found) ↦
          let (r, e, same, listed) =
            result_of-IsListed item elapsed (c item.params)
              (usual item.item_type c item.params found) in
          (r, rw (found, execute_one) e, same, listed)
    ]

    execute_items-IsListed :
        (i : ℕ) (items : List (CheckItem J))
        → (rs : List CheckResult) × (execute_items checkers time i items ≡ some rs)
          × (map (λ r. r.item_id) rs ≡ map (λ k. k.id) items)
          × All (λ r. IsListed r.status) rs
    unfolding execute_items
    execute_items-IsListed i [] = ([], refl, refl, tt)
    execute_items-IsListed i (item ∷ items) =
        let (r, e, same, listed) = execute_one-IsListed (time i) item in
        let (rs, es, sames, all_listed) = execute_items-IsListed (suc i) items in
        (r ∷ rs, rw (e, es) refl, (λ k. same k ∷ sames k), (listed, all_listed))

    -- When each registered checker answers with an error or with a result of a listed status, and
    -- there are fewer than 2^31 items: Execute does not panic, every item has one result, in the
    -- order of the request and also where no checker is registered for it; the callback is given
    -- each of them and then all with a summary, whose five counts add up to the number of items.
    pub execute-reports :
        (total_duration : ℕ) (request : String) (items : List (CheckItem J))
        → length items < 2_147_483_648
        → (rs : List CheckResult) × (execute checkers time total_duration request items
            ≡ some (map (intermediate request) rs ++ final request total_duration rs ∷ []))
          × (map (λ r. r.item_id) rs ≡ map (λ k. k.id) items)
          × ((build_summary rs total_duration).total ≡ length items)
          × (counted (build_summary rs total_duration) ≡ length items)
    unfolding execute
    execute-reports total_duration request items few =
        let (rs, e, ids, listed) = execute_items-IsListed 0 items in
        let same : length rs ≡ length items =
          sym (length-map (λ r. r.item_id) rs) ∙ ap length ids ∙ length-map (λ k. k.id) items in
        let (total, sum) =
          build_summary-counted rs total_duration listed (omega (arith, few, same)) in
        (rs, rw e refl, ids, total ∙ same, sum ∙ same)
