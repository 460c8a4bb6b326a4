-- ===== src/Pipeline/Spec.antt =====
-- `LoadSpec` and `Validate` of internal/pipeline/pipeline.go.
pub mod Containment
use openpreflight.Prelude.{◌||◌, List, [], ◌∷◌, Option, none, some, if◌then◌else◌, is_nil}
use openpreflight.Go.Strings.{Text, has_prefix}
use openpreflight.Go.FilePath.{clean, is_abs, parent}
use openpreflight.Pipeline.Types.{
  Spec, Error, outside_repository, read_failed, invalid_yaml, DurationError, Result, ok, err,
  pipeline_file_name,
}
use openpreflight.Pipeline.Checkout.{
  Checkout, Externals, ReadResult, content, not_exist, read_error, read_file, Decoded, decoded,
  malformed,
}
use openpreflight.Pipeline.Timeout.{DurationResult, duration, refused, parse_timeout}

-- The path that is opened: cleaned, and refused if it leaves the checkout.
unfoldable pub spec_path : Text → Result Text
spec_path filename =
    let path = clean (pipeline_file_name filename) in
    if is_abs path || has_prefix path parent
    then err (outside_repository (pipeline_file_name filename))
    else ok path

decode_spec : Text → Decoded Spec → Result (Option Spec)
decode_spec path (decoded spec) = ok (some spec)
decode_spec path (malformed why) = err (invalid_yaml path why)

read_spec : Externals → Text → ReadResult → Result (Option Spec)
unfolding decode_spec
read_spec ext path (content raw) = decode_spec path (ext.yaml_unmarshal raw)
read_spec ext path not_exist = ok none
read_spec ext path (read_error why) = err (read_failed path why)

-- `none` is a missing file.
unfoldable pub load_spec : Externals → Checkout → Text → Result (Option Spec)
unfolding read_spec
load_spec ext repo filename = elim (spec_path filename) [
  | err e ↦ err e
  | ok path ↦ read_spec ext path (read_file repo path)
]

-- A problem of a pipeline file, as `Validate` reports it.
pub data Problem : Type 0 where
  not_loaded : Error → Problem
  timeout_refused : Text → DurationError → Problem

pub record Validation : Type 0 where
  pub spec : Option Spec
  pub problems : List Problem

timeout_problems : Text → DurationResult → List Problem
timeout_problems file (duration d) = []
timeout_problems file (refused e) = timeout_refused file e ∷ []

-- `spec` is `none` where the source returns the empty `Spec`.
unfoldable pub validate : Externals → Checkout → Text → Validation
unfolding timeout_problems
validate ext repo filename = elim (load_spec ext repo filename) [
  | err e ↦ record { spec = none; problems = not_loaded e ∷ [] }
  | ok none ↦ record { spec = none; problems = [] }
  | ok (some spec) ↦ record {
    spec = some spec;
    problems =
        if is_nil spec.timeout
        then []
        else timeout_problems (pipeline_file_name filename)
            (parse_timeout ext.float_scale spec.timeout);
  }
]
