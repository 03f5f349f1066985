-- ===== src/Reconcile.antt =====
-- cost/reconcile.py: whether the breakdown by resource adds up to the authoritative totals.
pub mod Sums
use finops_cost_engine_poc.Prelude.{
  ℕ, ◌*◌, ℤ, pos, ◌+ℤ◌, ◌-ℤ◌, leb_ℤ, abs_ℕ, String, Bool, true, false, not, ◌&&◌, List, [], ◌∷◌,
  map, filterb, length, Option, none, some,
}
use finops_cost_engine_poc.Decimal.{money, cent}
use finops_cost_engine_poc.Models.{CostEstimate, ResourceCost, is_complete}

-- `DEFAULT_TOLERANCE`, 5 cents
abbrev pub default_tolerance : ℤ
default_tolerance = pos (5 * cent)

pub record Reconciliation : Type 0 where
  pub label : String
  pub authoritative : ℤ
  pub summed : ℤ
  pub tolerance : ℤ
  pub enumerated_resources : ℕ
  pub complete_coverage : Bool

unfoldable pub difference : Reconciliation → ℤ
difference r = money (some (r.summed -ℤ r.authoritative))

-- `Reconciliation.ok`
unfoldable pub is_ok : Reconciliation → Bool
is_ok r = leb_ℤ (pos (abs_ℕ (difference r))) r.tolerance

unfoldable pub explained_by_coverage : Reconciliation → Bool
explained_by_coverage r = not (is_ok r) && not r.complete_coverage

-- the sum of a list of decimals
unfoldable pub sum_ℤ : List ℤ → ℤ
sum_ℤ [] = pos 0
sum_ℤ (v ∷ rest) = v +ℤ sum_ℤ rest

-- `_sum` of values that are all there
unfoldable pub sum_money : List ℤ → ℤ
sum_money values = money (some (sum_ℤ values))

unfoldable pub reconcile_estimate : CostEstimate → ℤ → List Reconciliation
reconcile_estimate estimate tolerance =
    record {
      label = "total monthly cost";
      authoritative = money (some estimate.new_monthly_cost);
      summed = sum_money (map (λ r. r.new_monthly_cost) estimate.resources);
      tolerance = tolerance;
      enumerated_resources = length estimate.resources;
      complete_coverage = is_complete estimate.coverage;
    }
    ∷ record {
      label = "incremental monthly cost";
      authoritative = money (some estimate.incremental_monthly_cost);
      summed = sum_money (map (λ r. r.delta_monthly_cost) estimate.resources);
      tolerance = tolerance;
      enumerated_resources = length estimate.resources;
      complete_coverage = is_complete estimate.coverage;
    }
    ∷ []

unfoldable pub reconciliation_problems : List Reconciliation → List String
reconciliation_problems results =
    map (λ r. r.label) (filterb (λ r. not (is_ok r) && not (explained_by_coverage r)) results)
