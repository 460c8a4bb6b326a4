-- ===== src/Store/Bindings.antt =====
-- internal/store/bindings.go. The table keeps its rows in the order of their ids; the clock is an
-- argument, `now` the text that `formatTime(now())` gives, and so are the tests that the App and the
-- instance of an input exist and the pattern `repoPattern`.
pub mod Upsert
use openpreflight.Prelude.{
  ℕ, zero, suc, ◌+◌, ◌≡◌, refl, Bool, true, false, not, ◌&&◌, ◌||◌, List, [], ◌∷◌, ◌++◌, map,
  Option, none, some, ℤ, ◌==◌, if◌then◌else◌, is_nil, filter, find?, any, leb, ltb,
}
use openpreflight.Go.Strings.{
  Text, codes, str_eq, trim, trim_space, trim_prefix, trim_suffix, has_prefix, has_suffix, contains,
  fields_func, lower,
}
use openpreflight.Go.FilePath.{is_abs}
use openpreflight.Go.PathMatch.{matches}
use openpreflight.Store.Models.{RepoBinding, on_empty_pipeline_skip, on_empty_pipeline_fail}

abbrev pub separator : ℕ → Bool
separator r = r == b',' || (r == b'\n' || (r == b'\r' || (r == b' ' || r == b'\t')))

unfoldable pub split_list : Text → List Text
unfolding fields_func trim_space
split_list v = filter (λ p. not (is_nil p)) (map trim_space (fields_func separator v))

-- One entry of a branch list.
abbrev pub branch_matches : Text → Text → Bool
branch_matches branch pattern_ =
    str_eq pattern_ branch
    || has_suffix pattern_ (codes "*") && has_prefix branch (trim_suffix pattern_ (codes "*"))

unfoldable pub branch_allowed : RepoBinding → Text → Bool
branch_allowed b branch =
    let list = split_list b.branches in
    if is_nil list
    then true
    else any (branch_matches (trim_prefix branch (codes "refs/heads/"))) list

unfoldable pub path_matches : Text → Text → Bool
path_matches entry file =
    let p = trim_prefix (trim_space entry) (codes "/") in
    let prefix = trim_suffix p (codes "**") in
    if is_nil p
    then false
    else if has_suffix p (codes "/**")
    then if str_eq prefix (codes "/") || is_nil prefix
      then true
      else str_eq file (trim_suffix prefix (codes "/")) || has_prefix file prefix
    else matches p file

-- The name that a changed file is matched by.
abbrev pub file_name : Text → Text
file_name file = trim_prefix (trim_space file) (codes "/")

abbrev pub file_matches : List Text → Text → Bool
file_matches patterns file = not (is_nil file) && any (λ p. path_matches p file) patterns

unfoldable pub path_allowed : RepoBinding → List Text → Bool
path_allowed b changed =
    let patterns = split_list b.paths in
    if is_nil patterns then true else any (λ f. file_matches patterns (file_name f)) changed

unfoldable pub matched_paths : RepoBinding → List Text → List Text
matched_paths b changed =
    let patterns = split_list b.paths in
    if is_nil patterns then changed else filter (file_matches patterns) (map file_name changed)

abbrev pub same_repo : Text → Text → Bool
same_repo r s = str_eq (map lower r) (map lower s)

abbrev pub enables : ℕ → Text → RepoBinding → Bool
enables app_id repo b = b.github_app_id == app_id && (same_repo b.repo repo && b.enabled)

-- `Binding` and `EnabledBinding`: `none` is ErrNotFound.
unfoldable pub binding : ℕ → List RepoBinding → Option RepoBinding
binding id rows = find? (λ b. b.id == id) rows

unfoldable pub enabled_binding : ℕ → Text → List RepoBinding → Option RepoBinding
enabled_binding app_id repo rows = find? (enables app_id repo) rows

unfoldable pub delete_binding : ℕ → List RepoBinding → Option (List RepoBinding)
delete_binding id rows =
    if any (λ b. b.id == id) rows then some (filter (λ b. not (b.id == id)) rows) else none

pub data BindingError : Type 0 where
  bad_on_empty_pipeline needs_app bad_repo bad_pipeline_file negative_timeout no_app no_instance :
      BindingError

pub data BindingResult {ℓ} (A : Type ℓ) : Type ℓ where
  ok : A → BindingResult A
  rejected : BindingError → BindingResult A

-- The fields of an input that are trimmed; an input is a binding without its id and its times.
abbrev pub trimmed : RepoBinding → RepoBinding
trimmed inp = record inp {
  repo = trim (λ c. c == b'/') (trim_space inp.repo);
  branches = trim_space inp.branches;
  paths = trim_space inp.paths;
  check_name = trim_space inp.check_name;
  pipeline_file = trim_space inp.pipeline_file;
  on_empty_pipeline = map lower (trim_space inp.on_empty_pipeline);
}

abbrev pub escapes : Text → Bool
escapes file = not (is_nil file) && (is_abs file || contains file (codes ".."))

abbrev pub known_on_empty : Text → Bool
known_on_empty s = is_nil s || (str_eq s on_empty_pipeline_skip || str_eq s on_empty_pipeline_fail)

abbrev pub is_negative : ℤ → Bool
is_negative (ℤ.pos n) = false
is_negative (ℤ.negsuc n) = true

module _ (repo_pattern : Text → Bool) where
  check_input : RepoBinding → BindingResult RepoBinding
  check_input inp =
      if not (known_on_empty inp.on_empty_pipeline)
      then rejected bad_on_empty_pipeline
      else if inp.github_app_id == 0
      then rejected needs_app
      else if not (repo_pattern inp.repo)
      then rejected bad_repo
      else if escapes inp.pipeline_file
      then rejected bad_pipeline_file
      else if is_negative inp.timeout_seconds
      then rejected negative_timeout
      else ok inp

  -- `normalise`: the input as it is changed, or the error.
  unfoldable pub normalise : RepoBinding → BindingResult RepoBinding
  unfolding check_input
  normalise inp = check_input (trimmed inp)

abbrev pub same_key : RepoBinding → RepoBinding → Bool
same_key inp b = b.github_app_id == inp.github_app_id && str_eq b.repo inp.repo

-- `INSERT … ON CONFLICT (github_app_id, repo) DO UPDATE`, the new row's id being `id`.
unfoldable pub upsert_row : ℕ → Text → RepoBinding → List RepoBinding → List RepoBinding
upsert_row id now inp [] = record inp { id = id; created_at = now; updated_at = now } ∷ []
upsert_row id now inp (b ∷ bs) =
    if same_key inp b
    then record inp {
      id = b.id;
      github_app_id = b.github_app_id;
      repo = b.repo;
      created_at = b.created_at;
      updated_at = now;
    }
      ∷ bs
    else b ∷ upsert_row id now inp bs

module _ (repo_pattern : Text → Bool) (has_app has_instance : ℕ → Bool) where
  store_binding :
      ℕ → Text → List RepoBinding → BindingResult RepoBinding → BindingResult (List RepoBinding)
  unfolding upsert_row
  store_binding id now rows (rejected e) = rejected e
  store_binding id now rows (ok inp) =
      if not (has_app inp.github_app_id)
      then rejected no_app
      else if not (inp.coolify_instance_id == 0) && not (has_instance inp.coolify_instance_id)
      then rejected no_instance
      else ok (upsert_row id now inp rows)

  -- `UpsertBinding`, up to the row that it loads again.
  unfoldable pub upsert_binding :
      ℕ → Text → RepoBinding → List RepoBinding → BindingResult (List RepoBinding)
  unfolding store_binding normalise
  upsert_binding id now inp rows = store_binding id now rows (normalise repo_pattern inp)
