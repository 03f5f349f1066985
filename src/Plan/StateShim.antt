-- ===== src/Plan/StateShim.antt =====
-- plan/state_shim.py: a bare state document, reshaped into a plan document.
use finops_cost_engine_poc.Prelude.{String, ◌||◌, if◌then◌else◌}
use finops_cost_engine_poc.Json.{
  Json, text, arr, obj, nil, Fields, end, field, get, has_key, truthy,
}
use finops_cost_engine_poc.Errors.{Message, Result, ok, raise, finops, raise_if, ◌>>◌, plan_error}

-- `d.get(key, default)`
unfoldable pub get_or : String → Json → Fields → Json
unfolding has_key get
get_or key default d = if has_key key d then get key d else default

-- `d.get("values") or {"root_module": {}}`
abbrev deployed_values : Json → Json
deployed_values v = if truthy v then v else obj (field "root_module" (obj end) end)

unfoldable pub state_json_to_plan_json : Json → Result Json
unfolding get_or truthy
state_json_to_plan_json (obj state) = do
  raise_if (has_key "planned_values" state || has_key "resource_changes" state)
      (plan_error Message.is_a_plan_document)
  ok (
      obj (
        field "format_version" (get_or "format_version" (text "1.2") state) (
          field "terraform_version" (get_or "terraform_version" (text "") state) (
            field "planned_values" (deployed_values (get "values" state))
              (field "resource_changes" (arr nil) (field "configuration" (obj end) end))))))
state_json_to_plan_json _ = raise (finops (plan_error Message.not_a_state_document))
