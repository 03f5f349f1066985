-- ===== src/Infracost/Keys.antt =====
-- What a parser returns is a dict: each address stands in it once.
use finops_cost_engine_poc.Prelude.{
  String, ◌≡◌, inl, inr, List, [], ◌∷◌, arith, str_eq, Bool-cases, length,
}
use finops_cost_engine_poc.Prelude.Dict.{
  Dict, IsDict, update, occurrences, put-IsDict, update-IsDict,
}
use finops_cost_engine_poc.Json.{Json, Fields, get, as_dict}
use finops_cost_engine_poc.Errors.{ok, ok-injective, >>=-eq-ok}
use finops_cost_engine_poc.Plan.Normalizer.{shown}
use finops_cost_engine_poc.Infracost.Parsed.{
  Numbers, ParsedResource, ParsedBreakdown, Schema, v2, v010, detect_schema, count_or_default,
  dicts_at,
}
use finops_cost_engine_poc.Infracost.V2.{
  V2State, start_v2, note_v2, step_v2, resources_v2, projects_v2, parse_v2,
}
use finops_cost_engine_poc.Infracost.V010.{
  breakdown_node, projects_v010, parse_v010, parse_as, parse_document,
}

pub empty-IsDict : IsDict {A = ParsedResource} []
unfolding occurrences
empty-IsDict k = omega arith

module _ (show : Json → String) (numbers : Numbers) where
  step_v2-IsDict :
      (raw : Fields) (s : V2State)
      → IsDict s.resources
      → IsDict (step_v2 show numbers raw s).resources
  unfolding step_v2 note_v2
  step_v2-IsDict raw s h = elim (Bool-cases (str_eq (shown show (get "name" raw)) "")) [
    | inl e ↦ rw e h
    | inr e ↦ rw e (put-IsDict (shown show (get "name" raw)) _ s.resources h)
  ]

  resources_v2-IsDict :
      (raws : List Fields) (s : V2State)
      → IsDict s.resources
      → IsDict (resources_v2 show numbers raws s).resources
  unfolding resources_v2
  resources_v2-IsDict [] s h = h
  resources_v2-IsDict (raw ∷ rest) s h =
      resources_v2-IsDict rest (step_v2 show numbers raw s) (step_v2-IsDict raw s h)

  projects_v2-IsDict :
      (ps : List Fields) (s : V2State)
      → IsDict s.resources
      → IsDict (projects_v2 show numbers ps s).resources
  unfolding projects_v2
  projects_v2-IsDict [] s h = h
  projects_v2-IsDict (p ∷ rest) s h =
      projects_v2-IsDict rest (resources_v2 show numbers (dicts_at "resources" p) s)
        (resources_v2-IsDict (dicts_at "resources" p) s h)

  projects_v010-IsDict :
      (ps : List Fields) (d : Dict ParsedResource)
      → IsDict d
      → IsDict (projects_v010 show numbers ps d)
  unfolding projects_v010
  projects_v010-IsDict [] d h = h
  projects_v010-IsDict (p ∷ rest) d h =
      let node = breakdown_node show numbers (as_dict (get "breakdown" p)) in
      projects_v010-IsDict rest (update d node) (update-IsDict d node h)

  parse_v2-IsDict :
      (document : Fields) (b : ParsedBreakdown)
      → parse_v2 show numbers document ≡ ok b
      → IsDict b.resources
  unfolding parse_v2
  parse_v2-IsDict document b h =
      let s = projects_v2 show numbers (dicts_at "projects" document) start_v2 in
      let summary = as_dict (get "summary" document) in
      let (_, _, r1) =
        >>=-eq-ok (count_or_default numbers (get "resources" summary) (length s.resources)) _ h in
      let (_, _, r2) =
        >>=-eq-ok (count_or_default numbers (get "costed_resources" summary) 0) _ r1 in
      let (_, _, r3) = >>=-eq-ok (count_or_default numbers (get "free_resources" summary) 0) _ r2 in
      rw (← ok-injective r3)
        (projects_v2-IsDict (dicts_at "projects" document) start_v2 empty-IsDict)

  parse_v010-IsDict :
      (document : Fields) (b : ParsedBreakdown)
      → parse_v010 show numbers document ≡ ok b
      → IsDict b.resources
  unfolding parse_v010
  parse_v010-IsDict document b h =
      let resources = projects_v010 show numbers (dicts_at "projects" document) [] in
      let summary = as_dict (get "summary" document) in
      let (_, _, r1) =
        >>=-eq-ok
          (count_or_default numbers (get "totalDetectedResources" summary) (length resources)) _
          h in
      let (_, _, r2) =
        >>=-eq-ok (count_or_default numbers (get "totalSupportedResources" summary) 0) _ r1 in
      let (_, _, r3) =
        >>=-eq-ok (count_or_default numbers (get "totalUnsupportedResources" summary) 0) _ r2 in
      let (_, _, r4) =
        >>=-eq-ok (count_or_default numbers (get "totalNoPriceResources" summary) 0) _ r3 in
      let (_, _, r5) =
        >>=-eq-ok (count_or_default numbers (get "totalUsageBasedResources" summary) 0) _ r4 in
      rw (← ok-injective r5) (projects_v010-IsDict (dicts_at "projects" document) [] empty-IsDict)

  parse_as-IsDict :
      (document : Fields) (schema : Schema) (b : ParsedBreakdown)
      → parse_as show numbers document schema ≡ ok b
      → IsDict b.resources
  parse_as-IsDict document v2 b h = parse_v2-IsDict document b h
  parse_as-IsDict document v010 b h = parse_v010-IsDict document b h

  -- In what a document of either schema parses to, each address stands once.
  pub parse_document-IsDict :
      (document : Json) (b : ParsedBreakdown)
      → parse_document show numbers document ≡ ok b
      → IsDict b.resources
  unfolding parse_document
  parse_document-IsDict document b h =
      let (schema, _, r) = >>=-eq-ok (detect_schema document) _ h in
      parse_as-IsDict (as_dict document) schema b r
