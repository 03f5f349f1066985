-- ===== src/Gate/Approval.antt =====
-- The two ways from a gate run to a deployment: `authorize_deployment`, with an exception, and
-- `evaluate_approval`, with an answer of a reviewer.
use finops_cost_engine_poc.Prelude.{
  ℕ, String, Bool, true, false, ◌&&◌, ◌==◌, ◌≡◌, ◌⊎◌, inl, inr, ◌↔◌, refl, sym, ◌∙◌, List, Option,
  some, arith, is_empty, str_eq, eq_iff, if◌then◌else◌, Bool-cases,
}
use finops_cost_engine_poc.Gate.{
  authorize_deployment, evaluate_approval, finops_decision_label, is_valid, action_text,
}

abbrev label : Bool → String
label b = if b then "AUTHORIZED" else "DENIED"

label_iff : (b : Bool) → (label b ≡ "AUTHORIZED") ↔ (b ≡ true)
label_iff true = (λ h. refl, λ h. refl)
label_iff false = (λ h. cc, λ h. cc)

-- a test that some answers fail at once
and_false : (b : Bool) → (b && false) ≡ false
and_false true = refl
and_false false = refl

-- the test that `authorize_deployment` makes
abbrev admits : ℕ → Bool → Bool → Bool
admits code allowed verified = if code == 0 then verified else (code == 1) && allowed

admits_iff :
    (code : ℕ) (allowed verified : Bool)
    → (admits code allowed verified ≡ true)
      ↔ ((code ≡ 0) × (verified ≡ true)) ⊎ ((code ≡ 1) × (allowed ≡ true))
admits_iff code allowed verified = ground arith

label-admits :
    (code : ℕ) (allowed verified : Bool)
    → (label (admits code allowed verified) ≡ "AUTHORIZED")
      ↔ ((code ≡ 0) × (verified ≡ true)) ⊎ ((code ≡ 1) × (allowed ≡ true))
label-admits code allowed verified =
    let (from, to) = admits_iff code allowed verified in
    let (unlabel, relabel) = label_iff (admits code allowed verified) in
    (λ h. from (unlabel h), λ h. relabel (to h))

authorize_deployment-label :
    (code : ℕ) (valid : Option Bool) (verified : Bool)
    → authorize_deployment code valid verified ≡ label (admits code (is_valid valid) verified)
unfolding authorize_deployment
authorize_deployment-label code valid verified = elim (Bool-cases (code == 0)) [
  | inl h ↦ rw h refl
  | inr h ↦ elim (Bool-cases ((code == 1) && is_valid valid)) [
    | inl g ↦ rw (h, g) refl
    | inr g ↦ rw (h, g) refl
  ]
]

-- A deployment is authorised exactly where the analysis passed and its lock verified, or the
-- analysis failed its threshold (exit code 1) and a valid exception stands.
pub authorize_deployment-authorized_iff :
    (code : ℕ) (valid : Option Bool) (verified : Bool)
    → authorize_deployment code valid verified ≡ "AUTHORIZED"
      ↔ ((code ≡ 0) × (verified ≡ true)) ⊎ ((code ≡ 1) × (is_valid valid ≡ true))
authorize_deployment-authorized_iff code valid verified =
    rw (authorize_deployment-label code valid verified)
      (label-admits code (is_valid valid) verified)

evaluate_approval-label {ℓ} :
    {P : Type ℓ} (code : ℕ) (action : Option String) (problems : List P) (verified : Bool)
    → (evaluate_approval code action problems verified).deployment_authorization
      ≡ label (admits code (str_eq (action_text action) "approve" && is_empty problems) verified)
unfolding evaluate_approval
evaluate_approval-label code action problems verified = elim (Bool-cases (code == 0)) [
  | inl h ↦ rw h refl
  | inr h ↦ elim (Bool-cases (str_eq (action_text action) "reject")) [
    | inl g ↦ rw (h, (eq_iff _ _).0 g, and_false (code == 1)) refl
    | inr g ↦ elim (Bool-cases (str_eq (action_text action) "approve")) [
      | inl a ↦ elim (Bool-cases ((code == 1) && is_empty problems)) [
        | inl t ↦ rw (h, g, a, t) refl
        | inr t ↦ rw (h, g, a, t) refl
      ]
      | inr a ↦ rw (h, g, a, and_false (code == 1)) refl
    ]
  ]
]

decision_kept {ℓ} :
    {P : Type ℓ} (code : ℕ) (action : Option String) (problems : List P) (verified : Bool)
    → (evaluate_approval code action problems verified).finops_decision ≡ finops_decision_label code
unfolding evaluate_approval
decision_kept code action problems verified = elim (Bool-cases (code == 0)) [
  | inl h ↦ rw h refl
  | inr h ↦ elim (Bool-cases (str_eq (action_text action) "reject")) [
    | inl g ↦ rw (h, g) refl
    | inr g ↦
        elim (Bool-cases
          (str_eq (action_text action) "approve" && ((code == 1) && is_empty problems))) [
            | inl a ↦ rw (h, g, a) refl
            | inr a ↦ rw (h, g, a) refl
          ]
  ]
]

-- A reviewer's answer authorises a deployment exactly where the analysis passed and its lock
-- verified, or the analysis failed its threshold, the answer is "approve" and nothing in the
-- environment's approval is wrong; whatever the answer, the decision shown is that of the analysis.
pub evaluate_approval-authorized_iff {ℓ} :
    {P : Type ℓ} (code : ℕ) (action : Option String) (problems : List P) (verified : Bool)
    → ((evaluate_approval code action problems verified).deployment_authorization ≡ "AUTHORIZED"
        ↔ ((code ≡ 0) × (verified ≡ true))
          ⊎ ((code ≡ 1) × ((str_eq (action_text action) "approve" && is_empty problems) ≡ true)))
      × ((evaluate_approval code action problems verified).finops_decision
          ≡ finops_decision_label code)
evaluate_approval-authorized_iff code action problems verified =
    let allowed = str_eq (action_text action) "approve" && is_empty problems in
    (
      rw (evaluate_approval-label code action problems verified)
          (label-admits code allowed verified),
      decision_kept code action problems verified,
    )

-- The two gates agree: an answer of a reviewer authorises what an exception would whose validity
-- is "the answer is an approval, and nothing in the environment's approval is wrong".
pub evaluate_approval-authorize_deployment {ℓ} :
    {P : Type ℓ} (code : ℕ) (action : Option String) (problems : List P) (verified : Bool)
    → (evaluate_approval code action problems verified).deployment_authorization
      ≡ authorize_deployment code
          (some (str_eq (action_text action) "approve" && is_empty problems))
          verified
evaluate_approval-authorize_deployment code action problems verified =
    let valid = some (str_eq (action_text action) "approve" && is_empty problems) in
    evaluate_approval-label code action problems verified
    ∙ sym (authorize_deployment-label code valid verified)
