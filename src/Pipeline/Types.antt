-- ===== src/Pipeline/Types.antt =====
-- The types of internal/pipeline/pipeline.go, and its errors as values.
use openpreflight.Prelude.{
  ℕ, ◌≡◌, refl, Bool, not, ◌||◌, List, [], ◌∷◌, ◌++◌, is_nil, if◌then◌else◌,
}
use openpreflight.Go.Strings.{Text, codes, trim_space, str_eq}

pub record Spec : Type 0 where
  pub runtime : Text
  pub install : Text
  pub test : Text
  pub build : Text
  pub timeout : Text

pub record Step : Type 0 where
  pub name : Text
  pub command : Text

abbrev pub source_binding_commands : Text
source_binding_commands = codes "binding commands"

abbrev pub source_binding : Text
source_binding = codes "binding"

abbrev pub source_settings : Text
source_settings = codes "settings"

abbrev pub source_default : Text
source_default = codes "built-in default"

pub record Origin : Type 0 where
  pub field : Text
  pub value : Text
  pub source : Text

-- `timeout` is in nanoseconds.
pub record Plan : Type 0 where
  pub steps : List Step
  pub timeout : ℕ
  pub source : Text
  pub runtime : Text
  pub origins : List Origin
  pub warnings : List Text

pub record Overrides : Type 0 where
  pub install : Text
  pub test : Text
  pub build : Text

unfoldable pub overrides_any : Overrides → Bool
overrides_any o = not (is_nil o.install) || not (is_nil o.test) || not (is_nil o.build)

pub record Inputs : Type 0 where
  pub pipeline_file : Text
  pub pipeline_file_source : Text
  pub overrides : Overrides
  pub default_timeout : ℕ
  pub default_timeout_source : Text
  pub default_runtime : Text
  pub is_fork : Bool

-- Why `ParseDuration` refuses a text.
pub data DurationError : Type 0 where
  empty_duration : DurationError
  not_a_duration : Text → DurationError
  not_positive : Text → DurationError

-- The errors of the package, with the values that their messages print.
pub data Error : Type 0 where
  outside_repository : Text → Error
  read_failed : Text → Text → Error
  invalid_yaml : Text → Text → Error
  bad_timeout : Text → DurationError → Error
  package_read_failed : Text → Error
  invalid_package : Text → Error
  nothing_to_run : Error

pub data Result {ℓ} (A : Type ℓ) : Type ℓ where
  err : Error → Result A
  ok : A → Result A

-- The early return of an error.
infixl 5 ◌>>=◌
abbrev pub ◌>>=◌ {ℓ κ} : {A : Type ℓ} {B : Type κ} → Result A → (A → Result B) → Result B
err why >>= continue_with = err why
ok value >>= continue_with = continue_with value

-- `Plan.OriginOf`.
origin_in : Text → List Origin → Text
origin_in field [] = []
origin_in field (o ∷ os) = if str_eq o.field field then o.source else origin_in field os

unfoldable pub origin_of : Plan → Text → Text
unfolding origin_in
origin_of p field = origin_in field p.origins

-- `Plan.record`.
unfoldable pub record_origin : Plan → Text → Text → Text → Plan
record_origin p field value source = record p {
  origins = p.origins ++ record { field = field; value = value; source = source } ∷ [];
}

-- `Layer`.
unfoldable pub layer : Bool → Bool → Text
layer binding_set settings_set =
    if binding_set then source_binding else if settings_set then source_settings else source_default

unfoldable pub or_default : Text → Text → Text
or_default v def = if is_nil (trim_space v) then def else v

unfoldable pub pipeline_file_name : Text → Text
pipeline_file_name f = if is_nil f then codes ".ci.yml" else f

-- The loop of `named`.
unfoldable pub keep_commands : List Step → List Step
keep_commands [] = []
keep_commands (s ∷ ss) =
    if is_nil (trim_space s.command) then keep_commands ss else s ∷ keep_commands ss

abbrev pub step : Text → Text → Step
step name command = record { name = name; command = command }

unfoldable pub named : Text → Text → Text → List Step
unfolding keep_commands
named install test build =
    keep_commands
      (step (codes "install") install ∷ step (codes "test") test ∷ step (codes "build") build ∷ [])

-- A chain succeeds only through a first part that does.
module _ {ℓ κ} {source : Type ℓ} {target : Type κ} (next : source → Result target) where
  pub >>=-ok :
      {result : target} (first : Result source)
      → (first >>= next) ≡ ok result
      → (mid : source) × (first ≡ ok mid) × (next mid ≡ ok result)
  >>=-ok (err why) chained = cc
  >>=-ok (ok mid) chained = (mid, refl, chained)

pub ok-injective {ℓ} : {A : Type ℓ} {a b : A} → ok a ≡ ok b → a ≡ b
ok-injective h = cc

pub err-injective {ℓ} : {A : Type ℓ} {e e' : Error} → ◌≡◌ {A = Result A} (err e) (err e') → e ≡ e'
err-injective h = cc
