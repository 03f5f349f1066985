-- ===== src/Plan/Normalizer/Actions.antt =====
-- `normalize_action` does not depend on the order in which Terraform lists two actions.
use finops_cost_engine_poc.Prelude.{String, true, ◌≡◌, ◌↔◌, ◌≢◌, List, [], ◌∷◌, map, arith}
use finops_cost_engine_poc.Prelude.Text.{lower}
use finops_cost_engine_poc.Models.{replace}
use finops_cost_engine_poc.Plan.Normalizer.{normalize_action, in_texts, single}

single-ne-replace : (xs : List String) → single xs ≢ replace
unfolding single
single-ne-replace [] = λ h. cc
single-ne-replace (a ∷ []) = λ h. ground (arith, h)
single-ne-replace (a ∷ b ∷ xs) = λ h. cc

-- A resource is replaced exactly when both a delete and a create are listed, in any case of the
-- letters, at any place and next to whatever else.
pub normalize_action-replace_iff :
    (actions : List String)
    → (normalize_action actions ≡ replace) ↔ (
        (in_texts "delete" (map lower actions) ≡ true)
        × (in_texts "create" (map lower actions) ≡ true))
unfolding normalize_action
normalize_action-replace_iff actions =
    (λ h. ground (arith, single-ne-replace (map lower actions), h), λ h. ground (arith, h))

-- Two actions mean the same in either order: create-before-destroy and destroy-before-create are
-- one action.
pub normalize_action_swap :
    (a b : String) → normalize_action (a ∷ b ∷ []) ≡ normalize_action (b ∷ a ∷ [])
unfolding normalize_action
normalize_action_swap a b = ground arith
