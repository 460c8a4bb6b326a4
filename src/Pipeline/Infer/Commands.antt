-- ===== src/Pipeline/Infer/Commands.antt =====
-- A detector yields at most install, test and build, in this order.
use mathlib.Core.Path.{subst}
use openpreflight.Prelude.{
  ◌≡◌, refl, Bool, true, false, Bool-cases, inl, inr, List, [], ◌∷◌, ◌++◌, ◌||◌, Option, none, some,
  arith, is_nil, if◌then◌else◌, All,
}
use openpreflight.Go.Strings.{Text, codes, trim_space, has_prefix}
use openpreflight.Pipeline.Types.{Step, step, Result, ok, err, ok-injective, named}
use openpreflight.Pipeline.Checkout.{
  Checkout, Externals, ReadResult, content, not_exist, read_error, read_file, exists, Decoded,
  decoded, malformed, PackageJson,
}
use openpreflight.Pipeline.Infer.Choice.{All-matched}
use openpreflight.Pipeline.Infer.{
  Inference, Detector, detectors, matched_detectors, infer_from, infer, ambiguity, no_step,
  node_steps, go_steps, rust_steps, python_steps, python_install, has_python_tests, read_package,
  decode_package, package_steps, node_commands, has_key,
}

abbrev NonBlank : Text → Type 0
NonBlank command = is_nil (trim_space command) ≡ false

-- A step that is left out, or that runs a command that is not blank.
abbrev pub IsCommand : Option Text → Type 0
IsCommand none = Unit
IsCommand (some command) = NonBlank command

abbrev pub optional : Text → Option Text → List Step
optional name none = []
optional name (some command) = step name command ∷ []

-- At most an install, a test and a build step, in this order, none of them blank.
pub record AtMostThree (steps : List Step) : Type 0 where
  pub install : Option Text
  pub test : Option Text
  pub build : Option Text
  pub shape :
      steps
      ≡ optional (codes "install") install
        ++ (optional (codes "test") test ++ optional (codes "build") build)
  pub install_runs : IsCommand install
  pub test_runs : IsCommand test
  pub build_runs : IsCommand build

-- What `named` keeps of a command.
abbrev kept : Text → Option Text
kept command = if is_nil (trim_space command) then none else some command

kept-IsCommand : (command : Text) → IsCommand (kept command)
kept-IsCommand command = elim (Bool-cases (is_nil (trim_space command))) [
  | inl e ↦ rw e tt
  | inr e ↦ rw e e
]

pub named-AtMostThree : (install test build : Text) → AtMostThree (named install test build)
unfolding named
named-AtMostThree install test build = record {
  install = kept install;
  test = kept test;
  build = kept build;
  shape = ground arith;
  install_runs = kept-IsCommand install;
  test_runs = kept-IsCommand test;
  build_runs = kept-IsCommand build;
}

abbrev AtMostThreeOk : Result (List Step) → Type 0
AtMostThreeOk (ok steps) = AtMostThree steps
AtMostThreeOk (err e) = Unit

go_steps-AtMostThree : (ext : Externals) (repo : Checkout) → AtMostThreeOk (go_steps ext repo)
unfolding go_steps trim_space
go_steps-AtMostThree ext repo = record {
  install = some (codes "go mod download");
  test = some (codes "go test ./...");
  build = some (codes "go build ./...");
  shape = refl;
  install_runs = refl;
  test_runs = refl;
  build_runs = refl;
}

rust_steps-AtMostThree : (ext : Externals) (repo : Checkout) → AtMostThreeOk (rust_steps ext repo)
unfolding rust_steps trim_space
rust_steps-AtMostThree ext repo = record {
  install = some (
      if exists repo (codes "Cargo.lock")
      then codes "cargo fetch --locked"
      else codes "cargo fetch");
  test = some (codes "cargo test");
  build = some (codes "cargo build --release");
  shape = refl;
  install_runs = elim (Bool-cases (exists repo (codes "Cargo.lock"))) [
    | inl e ↦ rw e refl
    | inr e ↦ rw e refl
  ];
  test_runs = refl;
  build_runs = refl;
}

python_install-NonBlank : (repo : Checkout) → NonBlank (python_install repo)
unfolding python_install
python_install-NonBlank repo = elim (Bool-cases (exists repo (codes "uv.lock"))) [
  | inl u ↦ rw u (unfold trim_space in refl)
  | inr u ↦ elim (Bool-cases (exists repo (codes "poetry.lock"))) [
    | inl p ↦ rw (u, p) (unfold trim_space in refl)
    | inr p ↦ elim (Bool-cases (exists repo (codes "requirements.txt"))) [
      | inl r ↦ rw (u, p, r) (unfold trim_space in refl)
      | inr r ↦ rw (u, p, r) (unfold trim_space in refl)
    ]
  ]
]

-- A step that is there on a condition.
abbrev when : Bool → Text → Option Text
when b command = if b then some command else none

when-IsCommand : (b : Bool) (command : Text) → NonBlank command → IsCommand (when b command)
when-IsCommand true command h = h
when-IsCommand false command h = tt

python_shape :
    (b : Bool) (install : Text)
    → step (codes "install") install ∷ (if b then step (codes "test") (codes "pytest") ∷ [] else [])
      ≡ optional (codes "install") (some install)
        ++ (optional (codes "test") (when b (codes "pytest")) ++ optional (codes "build") none)
python_shape true install = refl
python_shape false install = refl

python_steps-AtMostThree :
    (ext : Externals) (repo : Checkout) → AtMostThreeOk (python_steps ext repo)
unfolding python_steps
python_steps-AtMostThree ext repo = record {
  install = some (python_install repo);
  test = when (has_python_tests repo) (codes "pytest");
  build = none;
  shape = python_shape (has_python_tests repo) (python_install repo);
  install_runs = python_install-NonBlank repo;
  test_runs = when-IsCommand (has_python_tests repo) (codes "pytest") (unfold trim_space in refl);
  build_runs = tt;
}

-- What is run with the commands of a package manager is not blank.
abbrev Runs : Text × Text → Type 0
Runs c = NonBlank c.0 × NonBlank (c.1 ++ codes " test") × NonBlank (c.1 ++ codes " run build")

node_commands-Runs : (repo : Checkout) (declared : Text) → Runs (node_commands repo declared)
unfolding node_commands
node_commands-Runs repo declared =
    elim (Bool-cases (has_prefix declared (codes "pnpm") || exists repo (codes "pnpm-lock.yaml"))) [
      | inl a ↦ rw a (unfold trim_space in (refl, refl, refl))
      | inr a ↦
          elim (Bool-cases
            (has_prefix declared (codes "yarn") || exists repo (codes "yarn.lock"))) [
              | inl b ↦ rw (a, b) (unfold trim_space in (refl, refl, refl))
              | inr b ↦
                  elim (Bool-cases (
                    exists repo (codes "package-lock.json")
                    || exists repo (codes "npm-shrinkwrap.json"))) [
                      | inl c ↦ rw (a, b, c) (unfold trim_space in (refl, refl, refl))
                      | inr c ↦ rw (a, b, c) (unfold trim_space in (refl, refl, refl))
                    ]
            ]
    ]

package_shape :
    (t b : Bool) (install test build : Text)
    → step (codes "install") install
        ∷ ((if t then step (codes "test") test ∷ [] else [])
            ++ (if b then step (codes "build") build ∷ [] else []))
      ≡ optional (codes "install") (some install)
        ++ (optional (codes "test") (when t test) ++ optional (codes "build") (when b build))
package_shape true true install test build = refl
package_shape true false install test build = refl
package_shape false true install test build = refl
package_shape false false install test build = refl

package_steps-AtMostThree :
    (repo : Checkout) (pkg : PackageJson) → AtMostThree (package_steps repo pkg)
unfolding package_steps
package_steps-AtMostThree repo pkg =
    let c = node_commands repo pkg.package_manager in
    let (i, t, b) = node_commands-Runs repo pkg.package_manager in
    record {
      install = some c.0;
      test = when (has_key (codes "test") pkg.scripts) (c.1 ++ codes " test");
      build = when (has_key (codes "build") pkg.scripts) (c.1 ++ codes " run build");
      shape =
          package_shape (has_key (codes "test") pkg.scripts) (has_key (codes "build") pkg.scripts)
            c.0 (c.1 ++ codes " test") (c.1 ++ codes " run build");
      install_runs = i;
      test_runs = when-IsCommand (has_key (codes "test") pkg.scripts) (c.1 ++ codes " test") t;
      build_runs =
          when-IsCommand (has_key (codes "build") pkg.scripts) (c.1 ++ codes " run build") b;
    }

decode_package-AtMostThree :
    (repo : Checkout) (d : Decoded PackageJson) → AtMostThreeOk (decode_package repo d)
unfolding decode_package
decode_package-AtMostThree repo (decoded pkg) = package_steps-AtMostThree repo pkg
decode_package-AtMostThree repo (malformed why) = tt

read_package-AtMostThree :
    (ext : Externals) (repo : Checkout) (r : ReadResult) → AtMostThreeOk (read_package ext repo r)
unfolding read_package
read_package-AtMostThree ext repo (content raw) =
    decode_package-AtMostThree repo (ext.package_unmarshal raw)
read_package-AtMostThree ext repo not_exist = tt
read_package-AtMostThree ext repo (read_error why) = tt

node_steps-AtMostThree : (ext : Externals) (repo : Checkout) → AtMostThreeOk (node_steps ext repo)
unfolding node_steps
node_steps-AtMostThree ext repo =
    read_package-AtMostThree ext repo (read_file repo (codes "package.json"))

abbrev BuildsAtMostThree : Detector → Type 0
BuildsAtMostThree d = (ext : Externals) (repo : Checkout) → AtMostThreeOk (d.build_steps ext repo)

detectors-AtMostThree : All BuildsAtMostThree detectors
detectors-AtMostThree = (
  node_steps-AtMostThree,
  (go_steps-AtMostThree, (rust_steps-AtMostThree, (python_steps-AtMostThree, tt))),
)

infer_from-AtMostThree :
    (ext : Externals) (repo : Checkout) (ms : List (Detector × Text)) (i : Inference)
    → All (λ (m : Detector × Text). BuildsAtMostThree m.0) ms
    → infer_from ext repo ms ≡ ok i
    → AtMostThree i.steps
unfolding infer_from
infer_from-AtMostThree ext repo [] i h e =
    subst (λ j. AtMostThree j.steps) (ok-injective e)
      (record {
        install = none;
        test = none;
        build = none;
        shape = refl;
        install_runs = tt;
        test_runs = tt;
        build_runs = tt;
      })
infer_from-AtMostThree ext repo ((winner, marker) ∷ others) i (h, rest) e =
    go (winner.build_steps ext repo) (h ext repo) e
  where
    go :
        (r : Result (List Step))
        → AtMostThreeOk r
        → (elim r [
          | err x ↦ err x
          | ok steps ↦ ok (record {
            steps = steps;
            source = winner.language ++ (codes " defaults from " ++ marker);
            warnings = ambiguity winner others ++ no_step winner marker steps;
          })
        ])
          ≡ ok i
        → AtMostThree i.steps
    go (ok steps) p e' = subst (λ j. AtMostThree j.steps) (ok-injective e') p
    go (err x) p e' = cc

-- What is inferred is at most three steps.
pub infer-AtMostThree :
    (ext : Externals) (repo : Checkout) (i : Inference)
    → infer ext repo ≡ ok i
    → AtMostThree i.steps
unfolding infer
infer-AtMostThree ext repo i h =
    infer_from-AtMostThree ext repo (matched_detectors repo detectors) i
      (All-matched BuildsAtMostThree repo detectors detectors-AtMostThree) h
