-- ===== src/Reconcile/Sums.antt =====
-- The breakdown of an estimate that was parsed and built reconciles wherever Infracost's own totals
-- are the sums of its resources.
use finops_cost_engine_poc.Prelude.{
  ℤ, pos, ◌-ℤ◌, ◌≤ℤ◌, String, true, not, ◌≡◌, refl, sym, ◌∙◌, ap, List, [], ◌∷◌, map, Option, none,
  some, str_eq,
}
use finops_cost_engine_poc.Prelude.Int.{int_laws, le→leb_ℤ}
use finops_cost_engine_poc.Prelude.Dict.{IsDict}
use finops_cost_engine_poc.Prelude.Dict.Totals.{values_total}
use finops_cost_engine_poc.Json.{Json}
use finops_cost_engine_poc.Decimal.{money, quantize, round_cents}
use finops_cost_engine_poc.Errors.{
  Message, cost_estimation_error, ok, raise_if, ok-injective, >>=-eq-ok,
}
use finops_cost_engine_poc.Models.{CostEstimate, EstimatorTrust, NormalizedPlan, ResourceCost}
use finops_cost_engine_poc.Infracost.Parsed.{Numbers, ParsedBreakdown}
use finops_cost_engine_poc.Infracost.V010.{parse_document}
use finops_cost_engine_poc.Infracost.Estimate.{
  Note, baseline_resources, proposed_total, previous_total, build_estimate,
}
use finops_cost_engine_poc.Infracost.Keys.{empty-IsDict, parse_document-IsDict}
use finops_cost_engine_poc.Infracost.Totals.{
  cost, sum_of, build_estimate-inverted, build_estimate-sums,
}
use finops_cost_engine_poc.Reconcile.{
  Reconciliation, difference, is_ok, sum_ℤ, sum_money, reconcile_estimate, reconciliation_problems,
}

sum_ℤ-map : (f : ResourceCost → ℤ) (rs : List ResourceCost) → sum_ℤ (map f rs) ≡ sum_of f rs
unfolding sum_ℤ sum_of
sum_ℤ-map f [] = refl
sum_ℤ-map f (r ∷ rs) = rw (sum_ℤ-map f rs) refl

-- the run's total is the sum of the costs of its resources
abbrev pub Agrees : ParsedBreakdown → Type 0
Agrees b = b.total_monthly_cost ≡ some (values_total cost b.resources)

abbrev pub BaselineAgrees : Option ParsedBreakdown → Type 0
BaselineAgrees none = Unit
BaselineAgrees (some b) = Agrees b

-- a baseline that the parser returned, or none
abbrev pub IsParsed : (Json → String) → Numbers → Option Json → Option ParsedBreakdown → Type 0
IsParsed show numbers none none = Unit
IsParsed show numbers (some document) (some b) = parse_document show numbers document ≡ ok b
IsParsed show numbers _ _ = ⊥

baseline-IsDict :
    (show : Json → String) (numbers : Numbers) (document : Option Json) (b : Option ParsedBreakdown)
    → IsParsed show numbers document b
    → IsDict (baseline_resources b)
baseline-IsDict show numbers none none h = empty-IsDict
baseline-IsDict show numbers (some document) (some b) h =
    parse_document-IsDict show numbers document b h
baseline-IsDict show numbers none (some b) h = absurd h
baseline-IsDict show numbers (some document) none h = absurd h

proposed_total-Agrees :
    (b : ParsedBreakdown) (t : ℤ)
    → Agrees b
    → proposed_total b.total_monthly_cost ≡ ok t
    → values_total cost b.resources ≡ t
unfolding proposed_total
proposed_total-Agrees b t h found = ok-injective (rw h at found)

previous_total-Agrees :
    (currency : String) (b : Option ParsedBreakdown) (t : ℤ)
    → BaselineAgrees b
    → previous_total currency b ≡ ok t
    → values_total cost (baseline_resources b) ≡ t
unfolding previous_total values_total
previous_total-Agrees currency none t h found = ok-injective found
previous_total-Agrees currency (some b) t h found =
    let (_, _, r) =
      >>=-eq-ok
        (raise_if (not (str_eq b.currency currency))
          (cost_estimation_error Message.different_currencies))
        _ (rw h at found) in
    ok-injective r

no_difference : (v : ℤ) → money (some (v -ℤ v)) ≡ pos 0
unfolding money quantize round_cents
no_difference v = let nothing : v -ℤ v ≡ pos 0 = grind int_laws in rw nothing refl

matched-is_ok :
    (r : Reconciliation) → r.summed ≡ r.authoritative → pos 0 ≤ℤ r.tolerance → is_ok r ≡ true
unfolding is_ok difference
matched-is_ok r same allowed =
    let nothing : difference r ≡ pos 0 =
      ap (λ v. money (some (v -ℤ r.authoritative))) same ∙ no_difference r.authoritative in
    rw nothing (le→leb_ℤ (pos 0) r.tolerance allowed)

no_problems :
    (r r' : Reconciliation)
    → is_ok r ≡ true
    → is_ok r' ≡ true
    → reconciliation_problems (r ∷ r' ∷ []) ≡ []
unfolding reconciliation_problems
no_problems r r' h h' = rw (h, h') refl

-- Where both parsed totals are the sums of their resources' costs, the estimate that is built from
-- them reconciles: within any tolerance that is not negative no defect of the breakdown is reported.
pub build_estimate-reconcile :
    (show : Json → String) (numbers : Numbers) (say : Note → String) (document : Json)
    (baseline_document : Option Json) (proposed : ParsedBreakdown)
    (baseline : Option ParsedBreakdown) (estimator version : String) (trust : EstimatorTrust)
    (plan : Option NormalizedPlan) (e : CostEstimate) (tolerance : ℤ)
    → parse_document show numbers document ≡ ok proposed
    → IsParsed show numbers baseline_document baseline
    → build_estimate say proposed baseline estimator version trust plan ≡ ok e
    → Agrees proposed
    → BaselineAgrees baseline
    → pos 0 ≤ℤ tolerance
    → reconciliation_problems (reconcile_estimate e tolerance) ≡ []
unfolding reconcile_estimate sum_money
build_estimate-reconcile show numbers say document baseline_document proposed baseline estimator
      version trust plan e tolerance parsed parsed' built agrees agrees' allowed =
    let p = parse_document-IsDict show numbers document proposed parsed in
    let b = baseline-IsDict show numbers baseline_document baseline parsed' in
    let (n, o, d) =
      build_estimate-sums say proposed baseline estimator version trust plan e p b built in
    let (new, previous, found, found', en, ep, ei, er) =
      build_estimate-inverted say proposed baseline estimator version trust plan e built in
    let t = proposed_total-Agrees proposed new agrees found in
    let t' = previous_total-Agrees proposed.currency baseline previous agrees' found' in
    let total = sum_ℤ-map (λ r. r.new_monthly_cost) e.resources ∙ n ∙ t ∙ sym en in
    let change = sum_ℤ-map (λ r. r.delta_monthly_cost) e.resources ∙ d ∙ rw (t, t') (sym ei) in
    no_problems _ _ (matched-is_ok _ (ap (λ v. money (some v)) total) allowed)
      (matched-is_ok _ (ap (λ v. money (some v)) change) allowed)
