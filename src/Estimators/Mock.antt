-- ===== src/Estimators/Mock.antt =====
-- The mock estimator can price, but never approve.
use finops_cost_engine_poc.Prelude.{
  ℤ, pos, ◌-ℤ◌, eqb_ℤ, eqb_ℤ→eq, true, false, ◌&&◌, ◌≡◌, ◌≢◌, refl, inl, inr, List, [], ◌∷◌,
  Bool-cases, arith,
}
use finops_cost_engine_poc.Prelude.Int.{int_laws}
use finops_cost_engine_poc.Errors.{ok}
use finops_cost_engine_poc.Models.{
  pass, cost_relevant_changes, PolicyDecision, ResourceChange, ResourceCost,
}
use finops_cost_engine_poc.Config.{Config}
use finops_cost_engine_poc.Infracost.Totals.{sum_of}
use finops_cost_engine_poc.Policy.{evaluate}
use finops_cost_engine_poc.Policy.Verdict.{
  IsMetric, observed_value_total, evaluate_total, evaluate-pass_iff,
}
use finops_cost_engine_poc.Gate.{EstimationRequest}
use finops_cost_engine_poc.Estimators.{
  mock_totals, mock_resource, monthly_cost_of, mock_estimate, is_free_change,
}

-- the resources add up to the totals
record IsSummed (new previous : ℤ) (rs : List ResourceCost) : Type 0 where
  new_sum : sum_of (λ r. r.new_monthly_cost) rs ≡ new
  delta_sum : sum_of (λ r. r.delta_monthly_cost) rs ≡ new -ℤ previous

both : (a b : ℤ) → (eqb_ℤ a (pos 0) && eqb_ℤ b (pos 0)) ≡ true → (a ≡ pos 0) × (b ≡ pos 0)
both a b h = (eqb_ℤ→eq a (pos 0) (ground (arith, h)), eqb_ℤ→eq b (pos 0) (ground (arith, h)))

mock_totals-IsSummed :
    (changes : List ResourceChange)
    → IsSummed
        (mock_totals changes).new
        (mock_totals changes).previous
        (mock_totals changes).resources
unfolding mock_totals mock_resource sum_of is_free_change
mock_totals-IsSummed [] = record { new_sum = refl; delta_sum = grind int_laws }
mock_totals-IsSummed (c ∷ rest) =
    let h = mock_totals-IsSummed rest in
    elim (Bool-cases (is_free_change c)) [
      | inl e ↦
          let (b, a) = both (monthly_cost_of c.before) (monthly_cost_of c.after) e in
          rw (e, a, b)
            (record {
              new_sum = grind (int_laws, h.new_sum);
              delta_sum = grind (int_laws, h.delta_sum);
            })
      | inr e ↦ rw e (record {
        new_sum = grind (int_laws, h.new_sum);
        delta_sum = grind (int_laws, h.delta_sum);
      })
    ]

-- For a valid metric and a configuration that lets no untrusted estimate through, the policy decides
-- on every estimate of the mock estimator and passes none, although its resources add up to its new
-- and its incremental cost.
pub mock_estimate-refused :
    (request : EstimationRequest) (c : Config)
    → IsMetric c.threshold.metric
    → c.cost_estimation.allow_non_authoritative_lock ≡ false
    → ((d : PolicyDecision) × (evaluate (mock_estimate request) c [] ≡ ok d) × (d.status ≢ pass))
      × (sum_of (λ r. r.new_monthly_cost) (mock_estimate request).resources
          ≡ (mock_estimate request).new_monthly_cost)
      × (sum_of (λ r. r.delta_monthly_cost) (mock_estimate request).resources
          ≡ (mock_estimate request).incremental_monthly_cost)
unfolding mock_estimate
mock_estimate-refused request c valid strict =
    let (d, decided) = evaluate_total (mock_estimate request) c [] valid in
    let (v, observed) = observed_value_total (mock_estimate request) c.threshold.metric valid in
    let exact = evaluate-pass_iff (mock_estimate request) c d v decided observed in
    let sums = mock_totals-IsSummed (cost_relevant_changes request.normalized_plan) in
    (
      (d, decided, λ passed. elim (exact.0 passed).0.trusted [ inl p ↦ cc | inr p ↦ cc ]),
      sums.new_sum,
      sums.delta_sum,
    )
