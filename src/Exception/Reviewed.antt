-- ===== src/Exception/Reviewed.antt =====
-- Which review authorises an exception, and that an exception verifies only with one.
use finops_cost_engine_poc.Prelude.{
  String, Bool, true, not, ◌&&◌, ◌≡◌, ◌≢◌, inl, inr, refl, sym, ◌∙◌, ap, List, [], ◌∷◌, Option,
  none, some, arith, Bool-cases, is_empty, anyb, filterb, str_eq, eq_iff,
}
use mathlib.Core.Option.{some-injective}
use mathlib.Core.List.{Memᴰ}
use finops_cost_engine_poc.Prelude.Text.{lower, strip}
use finops_cost_engine_poc.Json.{Json, Fields, get, equals_optional}
use finops_cost_engine_poc.Errors.{ok}
use finops_cost_engine_poc.Models.{CostEstimate, NormalizedPlan}
use finops_cost_engine_poc.Config.{Config, ExceptionConfig}
use finops_cost_engine_poc.Plan.Normalizer.{shown}
use finops_cost_engine_poc.Exception.{
  Clock, Target, Review, Problem, exception_binding_problems, verify_exception, allowlist,
  is_approval, is_usable, first_usable, author_of, named_problems, review_problems,
  authorisation_problems,
}
use finops_cost_engine_poc.Exception.Authorised.{
  IsBoundTo, bindings_iff, gated_iff, no_problem_iff, disabled-ne-nil, and_iff,
}

-- The review that authorises a record: an approval of the reviews, by a user of the allowlist who
-- is not the author where that is barred, given on the recorded head, and named by the record.
pub record IsAuthorisedBy (show : Json → String) (r : Fields) (author : Option String)
    (c : ExceptionConfig) (reviews : List Review) (review : Review) : Type 0 where
  pub given : Memᴰ review reviews
  pub is_approval : str_eq (lower review.state) "approved" ≡ true
  pub allowed : anyb (str_eq (lower (strip review.login))) (allowlist c.approvers) ≡ true
  pub not_by_author :
      c.require_non_author_approval ≡ true
      → author_of author ≢ ""
      → lower (strip review.login) ≢ author_of author
  pub on_head : equals_optional (get "head_sha" r) review.commit_id ≡ true
  pub named : lower (strip (shown show (get "approver" r))) ≡ lower (strip review.login)

not_author :
    (barred : Bool) (author low : String) (rest : Bool)
    → (not (barred && (not (str_eq author "") && str_eq low author)) && rest) ≡ true
    → ((barred ≡ true) → author ≢ "" → low ≢ author) × (rest ≡ true)
not_author barred author low rest h = (
  λ on filled same. ground (arith, h, on, filled, (eq_iff author "").0, (eq_iff low author).1 same),
  ground (arith, h),
)

authorised_by :
    (show : Json → String) (r : Fields) (author : Option String) (c : ExceptionConfig)
    (reviews : List Review) (review : Review)
    → Memᴰ review reviews
    → is_approval review ≡ true
    → is_usable
        (get "head_sha" r)
        (author_of author)
        c.require_non_author_approval
        (allowlist c.approvers)
        review
      ≡ true
    → lower (strip (shown show (get "approver" r))) ≡ lower (strip review.login)
    → IsAuthorisedBy show r author c reviews review
unfolding is_usable
authorised_by show r author c reviews review m a u named =
    let low = lower (strip review.login) in
    let head = equals_optional (get "head_sha" r) review.commit_id in
    let (other, rest) =
      not_author c.require_non_author_approval (author_of author) low
        (anyb (str_eq low) (allowlist c.approvers) && head) u in
    let (listed, current) = (and_iff _ head).0 rest in
    record {
      given = m;
      is_approval = a;
      allowed = listed;
      not_by_author = other;
      on_head = current;
      named = named;
    }

first_usable-filterb :
    (head_sha : Json) (author : String) (barred : Bool) (allowed : List String)
    (reviews : List Review) (r : Review)
    → first_usable head_sha author barred allowed (filterb is_approval reviews) ≡ some r
    → Memᴰ r reviews × (is_approval r ≡ true) × (is_usable head_sha author barred allowed r ≡ true)
unfolding first_usable
first_usable-filterb head_sha author barred allowed [] r h = cc
first_usable-filterb head_sha author barred allowed (x ∷ reviews) r h =
    let rest = first_usable-filterb head_sha author barred allowed reviews r in
    elim (Bool-cases (is_approval x)) [
      | inl a ↦ elim (Bool-cases (is_usable head_sha author barred allowed x)) [
        | inl u ↦
            let e = some-injective _ _ (rw (a, u) at h) in
            (
              Memᴰ.head (sym e),
              ap is_approval (sym e) ∙ a,
              ap (is_usable head_sha author barred allowed) (sym e) ∙ u,
            )
        | inr n ↦ let (m, q, u) = rest (rw (a, n) at h) in (Memᴰ.tail m, q, u)
      ]
      | inr n ↦ let (m, q, u) = rest (rw n at h) in (Memᴰ.tail m, q, u)
    ]

named_problems-nil :
    (approver : String) (found : Option Review)
    → named_problems approver found ≡ []
    → (r : Review) × (found ≡ some r) × (lower (strip approver) ≡ lower (strip r.login))
unfolding named_problems
named_problems-nil approver none h = cc
named_problems-nil approver (some r) h = (
  r,
  refl,
  (eq_iff _ _).0 (
      (no_problem_iff Problem.other_approver
          (str_eq (lower (strip approver)) (lower (strip r.login)))).0
        h),
)

review_problems-nil :
    (show : Json → String) (r : Fields) (reviews : List Review) (author : Option String)
    (c : ExceptionConfig)
    → review_problems show r reviews author c ≡ []
    → (review : Review) × IsAuthorisedBy show r author c reviews review
unfolding review_problems
review_problems-nil show r reviews author c h =
    elim (Bool-cases (is_empty (allowlist c.approvers))) [
      | inl e ↦ absurd (disabled-ne-nil (rw e at h))
      | inr e ↦ elim (Bool-cases (is_empty (filterb is_approval reviews))) [
        | inl f ↦ absurd (disabled-ne-nil (rw (e, f) at h))
        | inr f ↦
            let (review, found, named) = named_problems-nil _ _ (rw (e, f) at h) in
            let (m, a, u) =
              first_usable-filterb (get "head_sha" r) (author_of author)
                c.require_non_author_approval (allowlist c.approvers) reviews review found in
            (review, authorised_by show r author c reviews review m a u named)
      ]
    ]

authorisation_problems-nil :
    (show : Json → String) (r : Fields) (reviews : Option (List Review)) (author : Option String)
    (c : ExceptionConfig)
    → authorisation_problems show r reviews author c ≡ []
    → c.require_review_approval ≡ true
    → (rs : List Review) × (review : Review) × (reviews ≡ some rs)
      × IsAuthorisedBy show r author c rs review
unfolding authorisation_problems review_problems
authorisation_problems-nil show r none author c h on = absurd (disabled-ne-nil (rw on at h))
authorisation_problems-nil show r (some rs) author c h on =
    let (review, by) = review_problems-nil show r rs author c (rw on at h) in (rs, review, refl, by)

-- An exception has no problem only where exceptions are enabled and the run is bound to its record.
-- If the configuration requires a review, one of the reviews that were supplied authorises the record;
-- if it does not, nothing is said of reviews.
pub verify_exception-authorised :
    (sha256 show : Json → String) (clock : Clock) (r : Fields) (plan : NormalizedPlan)
    (plan_doc : Json) (estimate : CostEstimate) (config : Config) (target : Target)
    (author : Option String) (reviews : Option (List Review))
    → verify_exception sha256 show clock r plan plan_doc estimate config target author reviews
      ≡ ok []
    → (config.exceptions.enabled ≡ true)
      × IsBoundTo sha256 clock r plan plan_doc estimate config target
      × (config.exceptions.require_review_approval ≡ true
          → (rs : List Review) × (review : Review) × (reviews ≡ some rs)
            × IsAuthorisedBy show r author config.exceptions rs review)
unfolding verify_exception
verify_exception-authorised sha256 show clock r plan plan_doc estimate config target author reviews
      h =
    let found = exception_binding_problems sha256 clock r plan plan_doc estimate config target in
    let (on, f, e) =
      (gated_iff config.exceptions.enabled found
          (authorisation_problems show r reviews author config.exceptions)).0
        h in
    (
      on,
      (bindings_iff sha256 clock r plan plan_doc estimate config target).0 f,
      authorisation_problems-nil show r reviews author config.exceptions e,
    )
