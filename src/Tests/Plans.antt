-- ===== src/Tests/Plans.antt =====
-- Plans of internal/pipeline for small checkouts.
use openpreflight.Prelude.{
  ℕ, ◌<◌, ◌≤◌, ◌≡◌, ◌↔◌, refl, true, false, ◌||◌, ◌⊎◌, [], ◌∷◌, Option, none, some,
}
use openpreflight.Go.Strings.{Text, codes, trim_space, str_eq}
use openpreflight.Go.Duration.{duration_string}
use openpreflight.Pipeline.Types.{
  Spec, Step, Origin, Plan, Overrides, overrides_any, Inputs, Error, outside_repository,
  nothing_to_run, ok, err, pipeline_file_name, or_default, source_settings, source_default,
  source_binding_commands,
}
use openpreflight.Pipeline.Checkout.{
  Checkout, Node, file, Externals, malformed, decoded, PackageJson, read_file,
}
use openpreflight.Pipeline.Spec.{load_spec}
use openpreflight.Pipeline.Spec.Containment.{StaysInside, load_spec_inside}
use openpreflight.Pipeline.Timeout.{duration, parse_timeout}
use openpreflight.Go.Duration.{max_int64}
use openpreflight.Pipeline.Timeout.Bounds.{parse_timeout_bounds}
use openpreflight.Pipeline.Infer.{Inference, Detector, detectors, matched_detectors, infer}
use openpreflight.Pipeline.Infer.Choice.{Reports, infer-Reports}
use openpreflight.Pipeline.Resolve.Inversion.{step_origins}
use openpreflight.Pipeline.Resolve.Provenance
use openpreflight.Pipeline.Resolve.Provenance.{shown_runtime, runtime_source, resolve-origins}
use openpreflight.Pipeline.Resolve.Runtime.{resolve-runtime}
use openpreflight.Pipeline.Resolve.Precedence.{
  file_any, resolve_ignores_project, resolve_nothing, resolve_blank_commands,
}
use openpreflight.Pipeline.Resolve.{resolve, resolve_timeout, spec_any, spec_runtime}

abbrev go_test : Spec
go_test = record {
  runtime = [];
  install = [];
  test = codes "go test";
  build = [];
  timeout = codes "2m";
}

-- A stand-in for the YAML decoder: every text is the same file.
abbrev pub ext : Externals
ext = record {
  yaml_unmarshal = λ raw. decoded go_test;
  package_unmarshal = λ raw. malformed (codes "no package");
  float_scale = λ f scale unit. 0;
}

abbrev repo : Checkout
repo = (codes ".ci.yml", file (codes "test: go test")) ∷ (codes "go.mod", file []) ∷ []

abbrev bare_repo : Checkout
bare_repo = (codes ".ci.yml", file (codes "test: go test")) ∷ []

abbrev empty_repo : Checkout
empty_repo = []

abbrev pub inp : Inputs
inp = record {
  pipeline_file = codes ".ci.yml";
  pipeline_file_source = codes "settings";
  overrides = record { install = []; test = []; build = [] };
  default_timeout = 900000000000;
  default_timeout_source = codes "settings";
  default_runtime = codes "golang:1.22";
  is_fork = true;
}

abbrev origin : Text → Text → Text → Origin
origin field value source = record { field = field; value = value; source = source }

abbrev plan : Plan
plan = record {
  steps = record { name = codes "test"; command = codes "go test" } ∷ [];
  timeout = 120000000000;
  source = codes ".ci.yml";
  runtime = codes "golang:1.22";
  origins =
      origin (codes "pipeline_file") (codes ".ci.yml") (codes "settings")
      ∷ origin (codes "timeout") (codes "2m0s") (codes ".ci.yml")
      ∷ origin (codes "runtime") (codes "golang:1.22")
          (codes "settings (default_runtime, for a fork commit)")
      ∷ origin (codes "test") (codes "go test") (codes ".ci.yml")
      ∷ [];
  warnings = [];
}

plan-resolved : resolve ext repo inp ≡ ok plan
unfolding resolve load_spec openpreflight.Pipeline.Spec.spec_path
    openpreflight.Go.Strings.has_prefix openpreflight.Go.FilePath.clean pipeline_file_name read_file
    parse_timeout trim_space openpreflight.Go.Duration.parse_duration
    openpreflight.Pipeline.Types.named or_default duration_string
plan-resolved = refl

spec-loaded : load_spec ext repo (pipeline_file_name inp.pipeline_file) ≡ ok (some go_test)
unfolding load_spec openpreflight.Pipeline.Spec.spec_path openpreflight.Go.Strings.has_prefix
    openpreflight.Go.FilePath.clean pipeline_file_name read_file
spec-loaded = refl

spec-loaded-bare :
    load_spec ext bare_repo (pipeline_file_name inp.pipeline_file) ≡ ok (some go_test)
unfolding load_spec openpreflight.Pipeline.Spec.spec_path openpreflight.Go.Strings.has_prefix
    openpreflight.Go.FilePath.clean pipeline_file_name read_file
spec-loaded-bare = refl

spec-missing : load_spec ext empty_repo (pipeline_file_name inp.pipeline_file) ≡ ok none
unfolding load_spec openpreflight.Pipeline.Spec.spec_path openpreflight.Go.Strings.has_prefix
    openpreflight.Go.FilePath.clean pipeline_file_name read_file
spec-missing = refl

resolve-origins_example :
    (loaded : Option Spec) × (timeout_source : Text) × (load_spec ext repo
        (pipeline_file_name inp.pipeline_file)
      ≡ ok loaded)
    × (plan.origins
        ≡ Provenance.origin
            (codes "pipeline_file")
            (pipeline_file_name inp.pipeline_file)
            (or_default inp.pipeline_file_source source_settings)
          ∷ Provenance.origin (codes "timeout") (duration_string plan.timeout) timeout_source
          ∷ Provenance.origin (codes "runtime") (shown_runtime plan.runtime) (
              runtime_source
                (pipeline_file_name inp.pipeline_file)
                (spec_runtime loaded)
                plan.runtime)
          ∷ step_origins plan.source plan.steps)
resolve-origins_example = resolve-origins ext repo inp plan plan-resolved

resolve-runtime_example : (plan.runtime ≡ []) ↔ (
    (spec_runtime (some go_test) ≡ [])
    × ((inp.is_fork ≡ false) ⊎ (trim_space inp.default_runtime ≡ [])))
resolve-runtime_example = resolve-runtime ext repo inp (some go_test) plan spec-loaded plan-resolved

go_test-any : spec_any go_test ≡ true
unfolding spec_any
go_test-any = refl

some_command : (file_any (some go_test) || overrides_any inp.overrides) ≡ true
unfolding spec_any
some_command = refl

resolve_ignores_project_example : resolve ext repo inp ≡ resolve ext bare_repo inp
resolve_ignores_project_example =
    resolve_ignores_project ext repo bare_repo inp (some go_test) spec-loaded spec-loaded-bare
      some_command

abbrev make : Overrides
make = record { install = codes "make deps"; test = codes "make test"; build = [] }

abbrev timed : ℕ × Text
timed = (900000000000, codes "settings")

timeout-resolved : resolve_timeout ext (pipeline_file_name inp.pipeline_file) none inp ≡ ok timed
unfolding resolve_timeout or_default trim_space
timeout-resolved = refl

resolve_nothing_example : (resolve ext empty_repo inp ≡ err nothing_to_run) ↔ (
    (file_any none ≡ false)
    × (overrides_any inp.overrides ≡ false)
    × (matched_detectors empty_repo detectors ≡ []))
resolve_nothing_example =
    resolve_nothing ext empty_repo inp none timed spec-missing timeout-resolved

abbrev blank : Spec
blank = record { runtime = []; install = []; test = codes "  "; build = []; timeout = [] }

abbrev blank_ext : Externals
blank_ext = record ext { yaml_unmarshal = λ raw. decoded blank }

blank-loaded : load_spec blank_ext repo (pipeline_file_name inp.pipeline_file) ≡ ok (some blank)
unfolding load_spec openpreflight.Pipeline.Spec.spec_path openpreflight.Go.Strings.has_prefix
    openpreflight.Go.FilePath.clean pipeline_file_name read_file
blank-loaded = refl

blank-timeout :
    resolve_timeout blank_ext (pipeline_file_name inp.pipeline_file) (some blank) inp ≡ ok timed
unfolding resolve_timeout or_default trim_space
blank-timeout = refl

blank-any : spec_any blank ≡ true
unfolding spec_any
blank-any = refl

trimmed-nil : trim_space [] ≡ []
unfolding trim_space
trimmed-nil = refl

trimmed-spaces : trim_space (codes "  ") ≡ []
unfolding trim_space
trimmed-spaces = refl

resolve_blank_commands_example : (p : Plan) × (resolve blank_ext repo inp ≡ ok p) × (p.steps ≡ [])
resolve_blank_commands_example =
    resolve_blank_commands blank_ext repo inp blank timed blank-loaded blank-timeout blank-any
      trimmed-nil trimmed-spaces trimmed-nil

load_spec_inside_example :
    ((r : Checkout)
      → load_spec ext r (codes "../secret")
        ≡ err (outside_repository (pipeline_file_name (codes "../secret"))))
    ⊎ ((path : Text) × StaysInside path
        × ((r r' : Checkout)
            → read_file r path ≡ read_file r' path
            → load_spec ext r (codes "../secret") ≡ load_spec ext r' (codes "../secret")))
load_spec_inside_example = load_spec_inside ext (codes "../secret")

abbrev no_float : ℕ → ℕ → ℕ → ℕ
no_float f scale unit = 0

two_minutes : parse_timeout no_float (codes "2m") ≡ duration 120000000000
unfolding parse_timeout trim_space openpreflight.Go.Duration.parse_duration
two_minutes = refl

parse_timeout_bounds_example : (0 < 120000000000) × (120000000000 ≤ max_int64)
parse_timeout_bounds_example = parse_timeout_bounds no_float (codes "2m") 120000000000 two_minutes

abbrev inferred : Inference
inferred = record {
  steps =
      record { name = codes "install"; command = codes "go mod download" }
      ∷ record { name = codes "test"; command = codes "go test ./..." }
      ∷ record { name = codes "build"; command = codes "go build ./..." }
      ∷ [];
  source = codes "Go defaults from go.mod";
  warnings = [];
}

go-inferred : infer ext repo ≡ ok inferred
unfolding infer openpreflight.Pipeline.Checkout.exists openpreflight.Pipeline.Infer.go_steps
go-inferred = refl

infer-Reports_example : Reports (matched_detectors repo detectors) inferred
infer-Reports_example = infer-Reports ext repo inferred go-inferred
