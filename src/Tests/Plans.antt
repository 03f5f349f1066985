-- ===== src/Tests/Plans.antt =====
-- Witnesses for the theorems on plans.
use finops_cost_engine_poc.Prelude.Order.{sort_by}
use finops_cost_engine_poc.Prelude.{str_eq, String, true, List, [], ◌∷◌, map, ◌≡◌, ◌≢◌, ◌↔◌, refl}
use finops_cost_engine_poc.Prelude.Text.{lower, drop_text}
use finops_cost_engine_poc.Json.{
  Json, as_dict, bool, obj, arr, Fields, end, field, get, nil, cons, equals_text,
}
use finops_cost_engine_poc.Errors.{Result, ok, raise}
use finops_cost_engine_poc.Models.{replace, NormalizedPlan, aws}
use finops_cost_engine_poc.Plan.Normalizer.{
  in_texts, normalize_action, normalize_plan, clouds_of, shown, is_supported_version,
  provider_regions, change_of, Regions, entries_in, texts_of, changes_of, actions_in,
  block_or_empty, name_or_empty, note_regions,
}
use finops_cost_engine_poc.Config.{ChangeDetectionConfig}
use finops_cost_engine_poc.Plan.Detector.{
  ChangeDetectionResult, classify_files, is_infrastructure, matches_any, sides_of, matches,
}
use finops_cost_engine_poc.Plan.Detector.Partition.{IsSplit, classify_files-IsSplit}
use finops_cost_engine_poc.Plan.Normalizer.Actions.{normalize_action-replace_iff}
use finops_cost_engine_poc.Plan.Normalizer.Changes.{managed, normalize_fields-ok}
use finops_cost_engine_poc.Plan.Normalizer.Clouds.{
  count_cloud, indicator, is_touched, clouds_of_exact,
}
use finops_cost_engine_poc.Tests.{change, shown_as}

abbrev replacing : List String
replacing = "Delete" ∷ "create" ∷ []

normalize_action-replace_iff_example : (normalize_action replacing ≡ replace) ↔ (
    (in_texts "delete" (map lower replacing) ≡ true)
    × (in_texts "create" (map lower replacing) ≡ true))
normalize_action-replace_iff_example = normalize_action-replace_iff replacing

clouds_of_exact_example :
    count_cloud aws (clouds_of (change ∷ [])) ≡ indicator (is_touched aws (change ∷ []))
clouds_of_exact_example = clouds_of_exact (change ∷ []) aws

-- a plan that creates one instance
abbrev plan_document : Fields
plan_document = field "format_version" (Json.text "1.2") (
    field "resource_changes"
      (arr (
        cons
          (obj (
            field "address" (Json.text "aws_instance.web") (
              field "mode" (Json.text "managed") (
                field "type" (Json.text "aws_instance") (
                  field "change" (obj (field "actions" (arr (cons (Json.text "create") nil)) end))
                    end)))))
          nil))
      end)

abbrev normalised_or : Result NormalizedPlan → NormalizedPlan
normalised_or (ok p) = p
normalised_or (raise e) = record {
  terraform_version = "";
  format_version = "";
  changes = [];
  clouds = [];
}

abbrev normal : NormalizedPlan
normal = normalised_or (normalize_plan shown_as (obj plan_document))

normal_is : normalize_plan shown_as (obj plan_document) ≡ ok normal
unfolding normalize_plan shown get is_supported_version provider_regions block_or_empty note_regions
    entries_in changes_of equals_text change_of name_or_empty actions_in as_dict texts_of
normal_is = refl

normalize_fields-ok_example :
    (is_supported_version normal.format_version ≡ true)
    × (get "errored" plan_document ≢ bool true)
    × ((regions : Regions) × (entries : List Json) × (provider_regions plan_document ≡ ok regions)
        × (entries_in (get "resource_changes" plan_document) ≡ ok entries)
        × (map (change_of regions) (managed entries) ≡ map ok normal.changes))
    × (normal.clouds ≡ clouds_of normal.changes)
normalize_fields-ok_example = normalize_fields-ok shown_as plan_document normal normal_is

abbrev state_document : Fields
state_document =
    field "format_version" (Json.text "1.0")
      (field "values" (obj (field "outputs" (obj end) end)) end)

abbrev reshaped : Json
reshaped = obj (
    field "format_version" (Json.text "1.0") (
      field "terraform_version" (Json.text "") (
        field "planned_values" (obj (field "outputs" (obj end) end))
          (field "resource_changes" (arr nil) (field "configuration" (obj end) end)))))

abbrev attributes : Fields
attributes = field "instance_type" (Json.text "t3.micro") (
    field "tags" (obj (field "password" (Json.text "hunter2") end))
      (field "user_data" (Json.text "x") end))

-- a glob here matches itself only
abbrev globs : ChangeDetectionConfig
globs = record {
  infrastructure_globs = Json.text "**/main.tf" ∷ Json.text "skip.tf" ∷ [];
  ignore_globs = Json.text "skip.tf" ∷ [];
}

abbrev files : List String
files = "skip.tf" ∷ "" ∷ "main.tf" ∷ []

abbrev found : ChangeDetectionResult
found = record {
  has_infrastructure_changes = true;
  infrastructure_files = "main.tf" ∷ [];
  other_files = "skip.tf" ∷ [];
}

found_is : classify_files str_eq (λ path. path) files globs ≡ ok found
unfolding classify_files sides_of is_infrastructure matches_any matches drop_text sort_by
found_is = refl

classify_files-IsSplit_example :
    IsSplit str_eq (λ path. path) globs ("main.tf" ∷ []) ("skip.tf" ∷ []) files
    × (found.has_infrastructure_changes ≡ true)
classify_files-IsSplit_example =
    classify_files-IsSplit str_eq (λ path. path) globs files found found_is
