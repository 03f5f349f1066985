-- ===== src/Tests/Commands.antt =====
-- Witnesses for the theorems on the commands.
use finops_cost_engine_poc.Gate.{evaluate_approval}
use finops_cost_engine_poc.CostLock.{integrity}
use finops_cost_engine_poc.Prelude.Text.{
  lower, strip, after_last, before_first, count_char, before_last, drop_last, ends_in_letter,
  len_text,
}
use finops_cost_engine_poc.Prelude.Order.{insert_by, sort_by}
use finops_cost_engine_poc.Decimal.{round_cents, quantize, money}
use finops_cost_engine_poc.Models.{
  cloud_value, action_value, status_value, trust_value, is_cost_relevant, cost_relevant_changes,
  fingerprint_entry, fingerprint_payload, canonical_hash, fingerprint, is_authoritative,
}
use finops_cost_engine_poc.Exception.{
  parse_ts, ceiling_problems, freshness_problems, variables_problems, policy_problems,
  resolved_variables_hash, exception_integrity_problems, record_problems,
  exception_binding_problems, verify_environment_approval, exception_body, create_exception,
}
use finops_cost_engine_poc.Config.{threshold_unit, comparison}
use finops_cost_engine_poc.Prelude.{ℤ, String, ◌≡◌, refl, Option, none, some}
use finops_cost_engine_poc.Json.{
  num, text, arr, nil, obj, Fields, end, field, get, has_key, without, push, truthy, equals_text,
  equals_optional, equals_number, as_dict, as_list,
}
use finops_cost_engine_poc.Errors.{
  Result, ok, raise, configuration_error, plan_error, cost_estimation_error,
  baseline_unavailable_error, policy_error, ai_error,
}
use finops_cost_engine_poc.Plan.Normalizer.{
  FileContent, document, block_or_empty, name_or_empty, constant_at, constant_region, put_named,
  note_constant, note_regions, texts_of, actions_in, entries_in, add_cloud, seen_clouds,
  cloud_of_type, cloud_of_provider, detect_cloud, normalize_action, region_at, provider_regions,
  resource_region, change_of, changes_of, clouds_of, load_plan_json, is_supported_version, shown,
  normalize_fields, normalize_plan, normalize_plan_file,
}
use finops_cost_engine_poc.Cli.Stored.{
  Ended, load_exception, fields_of, read_json, text_at, trust_of, money_of,
  rebuild_estimate_from_dict, rebuild_estimate, block_of, rebuild_decision_from_result, rebuilt,
}
use finops_cost_engine_poc.Cli.Commands.{main, cmd_approve, cmd_approval_verify, minted, decide}
use finops_cost_engine_poc.Cli.Authorised.{Verified, approval_verify-verified}
use finops_cost_engine_poc.Tests.{units, hash, shown_as}
use finops_cost_engine_poc.Tests.Locks.{clock, tight, product, approval, run_target}

abbrev decimal : String → Option ℤ
decimal s = none

abbrev plan_file : FileContent
plan_file = document (
    obj (
      field "format_version" (text "1.2") (
        field "resource_changes" (arr nil) (
          field "variables" (obj (field "region" (obj (field "value" (text "eu") end)) end)) end))))

abbrev cost : Fields
cost =
    field "currency" (text "USD") (
      field "trust" (text "AUTHORITATIVE") (field "incremental_monthly_cost" (num (units 150)) end))

abbrev result_file : FileContent
result_file = document (
    obj (
      field "status" (text "FAIL") (
        field "policy" (obj (field "threshold_value" (num (units 100)) end))
          (field "cost" (obj cost) end))))

abbrev estimate_file : FileContent
estimate_file = document (obj cost)

abbrev ended_or : Result (Ended (Option Fields)) → Ended (Option Fields)
ended_or (ok e) = e
ended_or (raise x) = record { exit = 2; printed = none }

abbrev fields_or : Option Fields → Fields
fields_or (some r) = r
fields_or none = end

abbrev ended : Ended (Option Fields)
ended = ended_or (
    cmd_approve hash shown_as decimal clock product (ok tight) "approve" "pull_request" result_file
      plan_file approval "id 1" 0)

abbrev written : Fields
written = fields_or ended.printed

verify_is :
    main (
      cmd_approval_verify hash shown_as decimal clock product
        (ok tight)
        (document (obj written))
        plan_file
        estimate_file
        run_target
        (some "pull_request"))
    ≡ ok 0
unfolding main cmd_approval_verify minted decide cmd_approve load_exception fields_of read_json
    text_at trust_of money_of rebuild_estimate_from_dict rebuild_estimate block_of
    rebuild_decision_from_result rebuilt threshold_unit comparison parse_ts ceiling_problems
    freshness_problems variables_problems policy_problems resolved_variables_hash
    exception_integrity_problems record_problems exception_binding_problems
    verify_environment_approval exception_body create_exception get has_key without push truthy
    equals_text equals_optional equals_number as_dict as_list cloud_value action_value status_value
    trust_value is_cost_relevant cost_relevant_changes fingerprint_entry fingerprint_payload
    canonical_hash fingerprint is_authoritative block_or_empty name_or_empty constant_at
    constant_region put_named note_constant note_regions texts_of actions_in entries_in add_cloud
    seen_clouds cloud_of_type cloud_of_provider detect_cloud normalize_action region_at
    provider_regions resource_region change_of changes_of clouds_of load_plan_json
    is_supported_version shown normalize_fields normalize_plan normalize_plan_file round_cents
    quantize money configuration_error plan_error cost_estimation_error baseline_unavailable_error
    policy_error ai_error insert_by sort_by lower strip after_last before_first count_char
    before_last drop_last ends_in_letter len_text integrity evaluate_approval
verify_is = refl

approval_verify-verified_example :
    Verified hash shown_as decimal clock product
      (ok tight)
      (document (obj written))
      plan_file
      estimate_file
      run_target
      (some "pull_request")
approval_verify-verified_example =
    approval_verify-verified hash shown_as decimal clock product (ok tight) (document (obj written))
      plan_file estimate_file run_target (some "pull_request") verify_is
