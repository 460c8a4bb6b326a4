-- ===== src/Pipeline/Infer/Choice.antt =====
-- When the project's own files suggest steps, and when that is ambiguous.
use mathlib.Core.Path.{subst}
use openpreflight.Prelude.{
  ◌≡◌, ◌≢◌, refl, ◌↔◌, List, [], ◌∷◌, ◌++◌, Option, none, some, arith, length, ◌≤◌, All,
}
use openpreflight.Go.Strings.{Text, codes}
use openpreflight.Pipeline.Types.{Step, Error, nothing_to_run, Result, ok, err, ok-injective}
use openpreflight.Pipeline.Checkout.{
  Checkout, Externals, ReadResult, content, not_exist, read_error, Decoded, decoded, malformed,
  PackageJson, read_file,
}
use openpreflight.Pipeline.Infer.{
  Inference, Detector, detectors, matched_detectors, infer_from, infer, ambiguity, no_step,
  node_steps, go_steps, rust_steps, python_steps, read_package, decode_package, package_steps,
  marker_in,
}

-- A detector that is asked for its steps gives at least one, or fails otherwise than with
-- "nothing to run".
abbrev pub Productive : Result (List Step) → Type 0
Productive (ok steps) = steps ≢ []
Productive (err e) = e ≢ nothing_to_run

decode_package-Productive :
    (repo : Checkout) (d : Decoded PackageJson) → Productive (decode_package repo d)
unfolding decode_package package_steps
decode_package-Productive repo (decoded pkg) = λ e. cc
decode_package-Productive repo (malformed why) = λ e. cc

read_package-Productive :
    (ext : Externals) (repo : Checkout) (r : ReadResult) → Productive (read_package ext repo r)
unfolding read_package
read_package-Productive ext repo (content raw) =
    decode_package-Productive repo (ext.package_unmarshal raw)
read_package-Productive ext repo not_exist = λ e. cc
read_package-Productive ext repo (read_error why) = λ e. cc

node_steps-Productive : (ext : Externals) (repo : Checkout) → Productive (node_steps ext repo)
unfolding node_steps
node_steps-Productive ext repo =
    read_package-Productive ext repo (read_file repo (codes "package.json"))

go_steps-Productive : (ext : Externals) (repo : Checkout) → Productive (go_steps ext repo)
unfolding go_steps
go_steps-Productive ext repo = λ e. cc

rust_steps-Productive : (ext : Externals) (repo : Checkout) → Productive (rust_steps ext repo)
unfolding rust_steps
rust_steps-Productive ext repo = λ e. cc

python_steps-Productive : (ext : Externals) (repo : Checkout) → Productive (python_steps ext repo)
unfolding python_steps
python_steps-Productive ext repo = λ e. cc

abbrev AlwaysProductive : Detector → Type 0
AlwaysProductive d = (ext : Externals) (repo : Checkout) → Productive (d.build_steps ext repo)

detectors-Productive : All AlwaysProductive detectors
detectors-Productive = (
  node_steps-Productive,
  (go_steps-Productive, (rust_steps-Productive, (python_steps-Productive, tt))),
)

-- What holds of every detector holds of those that match.
pub All-matched :
    (P : Detector → Type 0) (repo : Checkout) (ds : List Detector)
    → All P ds
    → All (λ (m : Detector × Text). P m.0) (matched_detectors repo ds)
unfolding matched_detectors
All-matched P repo [] h = tt
All-matched P repo (d ∷ ds) h = go (marker_in repo d) (All-matched P repo ds h.1)
  where
    go :
        (o : Option Text)
        → All (λ (m : Detector × Text). P m.0) (matched_detectors repo ds)
        → All
            (λ (m : Detector × Text). P m.0)
            (elim o [
              | none ↦ matched_detectors repo ds
              | some name ↦ (d, name) ∷ matched_detectors repo ds
            ])
    go none rest = rest
    go (some name) rest = (h.0, rest)

-- What is inferred says of the detectors that match, and how.
pub record Reports (ms : List (Detector × Text)) (i : Inference) : Type 0 where
  pub empty : (i.steps ≡ []) ↔ (ms ≡ [])
  pub warns : (i.warnings ≡ []) ↔ (length ms ≤ 1)

winner-Reports :
    (winner : Detector) (marker : Text) (others : List (Detector × Text)) (steps : List Step)
    → steps ≢ []
    → Reports ((winner, marker) ∷ others) (record {
      steps = steps;
      source = winner.language ++ (codes " defaults from " ++ marker);
      warnings = ambiguity winner others ++ no_step winner marker steps;
    })
unfolding ambiguity no_step
winner-Reports winner marker others [] h = absurd (h refl)
winner-Reports winner marker [] (s ∷ steps) h = record {
  empty = ((λ e. cc), λ e. cc);
  warns = ((λ e. omega arith), λ e. refl);
}
winner-Reports winner marker (other ∷ others) (s ∷ steps) h = record {
  empty = ((λ e. cc), λ e. cc);
  warns = ((λ e. cc), λ e. absurd (omega arith));
}

infer_from-Reports :
    (ext : Externals) (repo : Checkout) (ms : List (Detector × Text)) (i : Inference)
    → All (λ (m : Detector × Text). AlwaysProductive m.0) ms
    → infer_from ext repo ms ≡ ok i
    → Reports ms i
unfolding infer_from
infer_from-Reports ext repo [] i h e =
    subst (Reports []) (ok-injective e)
      (record { empty = ((λ e. refl), λ e. refl); warns = ((λ e. omega arith), λ e. refl) })
infer_from-Reports ext repo ((winner, marker) ∷ others) i (productive, rest) e =
    go (winner.build_steps ext repo) (productive ext repo) e
  where
    go :
        (r : Result (List Step))
        → Productive r
        → (elim r [
          | err x ↦ err x
          | ok steps ↦ ok (record {
            steps = steps;
            source = winner.language ++ (codes " defaults from " ++ marker);
            warnings = ambiguity winner others ++ no_step winner marker steps;
          })
        ])
          ≡ ok i
        → Reports ((winner, marker) ∷ others) i
    go (ok steps) p e' =
        subst (Reports ((winner, marker) ∷ others)) (ok-injective e')
          (winner-Reports winner marker others steps p)
    go (err x) p e' = cc

infer_from-ne-nothing :
    (ext : Externals) (repo : Checkout) (ms : List (Detector × Text))
    → All (λ (m : Detector × Text). AlwaysProductive m.0) ms
    → infer_from ext repo ms ≢ err nothing_to_run
unfolding infer_from
infer_from-ne-nothing ext repo [] h e = cc
infer_from-ne-nothing ext repo ((winner, marker) ∷ others) (productive, rest) e =
    ground (arith, productive ext repo)

pub infer-ne-nothing : (ext : Externals) (repo : Checkout) → infer ext repo ≢ err nothing_to_run
unfolding infer
infer-ne-nothing ext repo =
    infer_from-ne-nothing ext repo (matched_detectors repo detectors)
      (All-matched AlwaysProductive repo detectors detectors-Productive)

-- What is inferred has no step exactly when no detector finds its marker, and no warning exactly
-- when at most one does.
pub infer-Reports :
    (ext : Externals) (repo : Checkout) (i : Inference)
    → infer ext repo ≡ ok i
    → Reports (matched_detectors repo detectors) i
unfolding infer
infer-Reports ext repo i h =
    infer_from-Reports ext repo (matched_detectors repo detectors) i
      (All-matched AlwaysProductive repo detectors detectors-Productive) h

pub infer-nil :
    (ext : Externals) (repo : Checkout) (x : Error)
    → matched_detectors repo detectors ≡ []
    → infer ext repo ≢ err x
unfolding infer infer_from
infer-nil ext repo x h e = cc (rw (h, infer_from) at e)
