-- ===== src/Pipeline/Infer.antt =====
-- internal/pipeline/infer.go: the steps that a project's own files suggest.
pub mod Commands
pub mod Choice
use openpreflight.Prelude.{
  Bool, false, ◌||◌, List, [], ◌∷◌, ◌++◌, map, Option, none, some, if◌then◌else◌, any,
}
use openpreflight.Go.Strings.{Text, codes, has_prefix, contains, str_eq, join}
use openpreflight.Go.PathMatch.{matches}
use openpreflight.Pipeline.Types.{Step, step, package_read_failed, invalid_package, Result, ok, err}
use openpreflight.Pipeline.Checkout.{
  Node, Checkout, Externals, ReadResult, content, not_exist, read_error, read_file, exists, is_dir,
  Decoded, decoded, malformed, PackageJson,
}

pub record Inference : Type 0 where
  pub steps : List Step
  pub source : Text
  pub warnings : List Text

-- The field `steps` of the source is `build_steps`.
pub record Detector : Type 0 where
  pub language : Text
  pub marker : Text
  pub also_marked_by : List Text
  pub build_steps : Externals → Checkout → Result (List Step)

first_existing : Checkout → List Text → Option Text
first_existing repo [] = none
first_existing repo (name ∷ names) =
    if exists repo name then some name else first_existing repo names

-- `detector.matches`: the marker that is there.
unfoldable pub marker_in : Checkout → Detector → Option Text
unfolding first_existing
marker_in repo d = first_existing repo (d.marker ∷ d.also_marked_by)

unfoldable pub node_commands : Checkout → Text → Text × Text
node_commands repo declared =
    if has_prefix declared (codes "pnpm") || exists repo (codes "pnpm-lock.yaml")
    then (codes "pnpm install --frozen-lockfile", codes "pnpm")
    else if has_prefix declared (codes "yarn") || exists repo (codes "yarn.lock")
    then (codes "yarn install --immutable", codes "yarn")
    else if exists repo (codes "package-lock.json") || exists repo (codes "npm-shrinkwrap.json")
    then (codes "npm ci", codes "npm")
    else (codes "npm install --no-audit --no-fund", codes "npm")

abbrev has_key : Text → List (Text × Text) → Bool
has_key k [] = false
has_key k ((j, v) ∷ m) = str_eq j k || has_key k m

package_steps : Checkout → PackageJson → List Step
unfolding node_commands
package_steps repo pkg =
    let (install, runner) = node_commands repo pkg.package_manager in
    step (codes "install") install
    ∷ ((if has_key (codes "test") pkg.scripts
          then step (codes "test") (runner ++ codes " test") ∷ []
          else [])
        ++ (if has_key (codes "build") pkg.scripts
            then step (codes "build") (runner ++ codes " run build") ∷ []
            else []))

decode_package : Checkout → Decoded PackageJson → Result (List Step)
unfolding package_steps
decode_package repo (decoded pkg) = ok (package_steps repo pkg)
decode_package repo (malformed why) = err (invalid_package why)

read_package : Externals → Checkout → ReadResult → Result (List Step)
unfolding decode_package
read_package ext repo (content raw) = decode_package repo (ext.package_unmarshal raw)
read_package ext repo not_exist = err (package_read_failed (codes "no such file or directory"))
read_package ext repo (read_error why) = err (package_read_failed why)

unfoldable pub node_steps : Externals → Checkout → Result (List Step)
unfolding read_package
node_steps ext repo = read_package ext repo (read_file repo (codes "package.json"))

unfoldable pub go_steps : Externals → Checkout → Result (List Step)
go_steps ext repo = ok (
    step (codes "install") (codes "go mod download")
    ∷ step (codes "test") (codes "go test ./...")
    ∷ step (codes "build") (codes "go build ./...")
    ∷ [])

unfoldable pub rust_steps : Externals → Checkout → Result (List Step)
rust_steps ext repo = ok (
    step (codes "install") (
      if exists repo (codes "Cargo.lock")
      then codes "cargo fetch --locked"
      else codes "cargo fetch")
    ∷ step (codes "test") (codes "cargo test")
    ∷ step (codes "build") (codes "cargo build --release")
    ∷ [])

-- `filepath.Glob` at the top of the checkout finds a file.
glob_finds : Checkout → Text → Bool
glob_finds repo pattern = any (λ (entry : Text × Node). matches pattern entry.0) repo

pytest_configured : ReadResult → Bool
pytest_configured (content raw) =
    contains raw (codes "[tool.pytest") || contains raw (codes "[pytest]")
pytest_configured not_exist = false
pytest_configured (read_error why) = false

unfoldable pub has_python_tests : Checkout → Bool
unfolding glob_finds pytest_configured
has_python_tests repo =
    any (is_dir repo) (codes "tests" ∷ codes "test" ∷ [])
    || glob_finds repo (codes "test_*.py")
    || glob_finds repo (codes "*_test.py")
    || any (λ cfg. pytest_configured (read_file repo cfg))
        (codes "pytest.ini" ∷ codes "tox.ini" ∷ codes "setup.cfg" ∷ codes "pyproject.toml" ∷ [])

unfoldable pub python_install : Checkout → Text
python_install repo =
    if exists repo (codes "uv.lock")
    then codes "uv sync --frozen"
    else if exists repo (codes "poetry.lock")
    then codes "poetry install --no-interaction"
    else if exists repo (codes "requirements.txt")
    then codes "pip install -r requirements.txt"
    else codes "pip install ."

unfoldable pub python_steps : Externals → Checkout → Result (List Step)
python_steps ext repo = ok (
    step (codes "install") (python_install repo)
    ∷ (if has_python_tests repo then step (codes "test") (codes "pytest") ∷ [] else []))

-- The first detector that matches wins.
abbrev pub detectors : List Detector
detectors =
    record {
      language = codes "Node";
      marker = codes "package.json";
      also_marked_by = [];
      build_steps = node_steps;
    }
    ∷ record {
      language = codes "Go";
      marker = codes "go.mod";
      also_marked_by = [];
      build_steps = go_steps;
    }
    ∷ record {
      language = codes "Rust";
      marker = codes "Cargo.toml";
      also_marked_by = [];
      build_steps = rust_steps;
    }
    ∷ record {
      language = codes "Python";
      marker = codes "pyproject.toml";
      also_marked_by = codes "requirements.txt" ∷ codes "setup.py" ∷ [];
      build_steps = python_steps;
    }
    ∷ []

-- The detectors that match, each with its marker: the two slices of `infer`, zipped.
unfoldable pub matched_detectors : Checkout → List Detector → List (Detector × Text)
unfolding marker_in
matched_detectors repo [] = []
matched_detectors repo (d ∷ ds) =
    let rest = matched_detectors repo ds in
    elim (marker_in repo d) [ none ↦ rest | some name ↦ (d, name) ∷ rest ]

also_looks_like : Detector × Text → Text
also_looks_like (d, name) = d.language ++ (codes " (" ++ (name ++ codes ")"))

ambiguity : Detector → List (Detector × Text) → List Text
unfolding also_looks_like
ambiguity winner [] = []
ambiguity winner (other ∷ others) =
    (codes "This repository also looks like "
      ++ (join (map also_looks_like (other ∷ others)) (codes " and ")
          ++ (codes ". The "
              ++ (winner.language
                  ++ codes
                      " defaults were used because they come first; set install/test/build in the pipeline file or on the binding to choose explicitly."))))
    ∷ []

no_step : Detector → Text → List Step → List Text
no_step winner marker [] =
    (winner.language
      ++ (codes " was detected from "
          ++ (marker ++ codes " but no runnable step could be inferred.")))
    ∷ []
no_step winner marker (s ∷ ss) = []

infer_from : Externals → Checkout → List (Detector × Text) → Result Inference
unfolding ambiguity no_step
infer_from ext repo [] = ok (record { steps = []; source = []; warnings = [] })
infer_from ext repo ((winner, marker) ∷ others) = elim (winner.build_steps ext repo) [
  | err e ↦ err e
  | ok steps ↦ ok (record {
    steps = steps;
    source = winner.language ++ (codes " defaults from " ++ marker);
    warnings = ambiguity winner others ++ no_step winner marker steps;
  })
]

unfoldable pub infer : Externals → Checkout → Result Inference
unfolding infer_from matched_detectors
infer ext repo = infer_from ext repo (matched_detectors repo detectors)
