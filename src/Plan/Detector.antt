-- ===== src/Plan/Detector.antt =====
-- plan/detector.py: which changed files make the gate run.
-- `fnmatch` is `fnmatch.fnmatch`, and `posix` the text of the `PurePosixPath` of a path with slashes for
-- its backslashes. The names of the two references are not kept.
pub mod Partition
use finops_cost_engine_poc.Prelude.{
  ℕ, String, Bool, true, false, not, ◌&&◌, ◌||◌, List, [], ◌∷◌, is_empty, str_eq, starts_with,
  if◌then◌else◌,
}
use finops_cost_engine_poc.Prelude.Text.{drop_text}
use finops_cost_engine_poc.Prelude.Order.{sort_by}
use finops_cost_engine_poc.Json.{Json, text}
use finops_cost_engine_poc.Errors.{Result, ok, raise, key_error, ◌>>=◌}
use finops_cost_engine_poc.Models.{le_text}
use finops_cost_engine_poc.Config.{ChangeDetectionConfig}

pub record ChangeDetectionResult : Type 0 where
  pub has_infrastructure_changes : Bool
  pub infrastructure_files : List String
  pub other_files : List String

-- the lists `infra` and `other` of the loop
pub record Sides : Type 0 where
  pub infra : List String
  pub other : List String

module _ (fnmatch : String → String → Bool) (posix : String → String) where
  -- one pattern: "**/*.tf" also matches a file at the root
  unfoldable pub matches : String → String → Bool
  matches path pattern =
      fnmatch path pattern || (starts_with pattern "**/" && fnmatch path (drop_text 3 pattern))

  -- the loop of `_matches_any`; a pattern that is no text is no pattern of `fnmatch`.
  unfoldable pub matches_any : String → List Json → Result Bool
  matches_any path [] = ok false
  matches_any path (text pattern ∷ rest) =
      let others = matches_any path rest in if matches (posix path) pattern then ok true else others
  matches_any path (v ∷ rest) = raise key_error

  -- the side of one file
  unfoldable pub is_infrastructure : ChangeDetectionConfig → String → Result Bool
  is_infrastructure config path = do
    ignored ← matches_any path config.ignore_globs
    (if ignored then ok false else matches_any path config.infrastructure_globs)

  abbrev pub put_file : String → Bool → Sides → Sides
  put_file path true s = record s { infra = path ∷ s.infra }
  put_file path false s = record s { other = path ∷ s.other }

  -- the loop of `classify_files`
  unfoldable pub sides_of : ChangeDetectionConfig → List String → Result Sides
  sides_of config [] = ok (record { infra = []; other = [] })
  sides_of config (path ∷ rest) =
      let others = sides_of config rest in
      if str_eq path "" then others else (do
        found ← is_infrastructure config path
        sides ← others
        ok (put_file path found sides))

  unfoldable pub classify_files : List String → ChangeDetectionConfig → Result ChangeDetectionResult
  classify_files files config = do
    sides ← sides_of config files
    ok (record {
      has_infrastructure_changes = not (is_empty sides.infra);
      infrastructure_files = sort_by le_text sides.infra;
      other_files = sort_by le_text sides.other;
    })
