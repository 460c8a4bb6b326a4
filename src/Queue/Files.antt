-- ===== src/Queue/Files.antt =====
-- `CommitFiles` and `ChangedPaths` of internal/githubapp/commits.go.
pub mod Distinct
use openpreflight.Prelude.{
  ℕ, ◌≡◌, refl, Bool, true, false, not, ◌&&◌, ◌||◌, List, [], ◌∷◌, ◌++◌, if◌then◌else◌, is_nil, any,
}
use openpreflight.Go.Strings.{Text, codes, str_eq, trim_prefix, trim_space}

pub record CommitFile : Type 0 where
  pub filename : Text
  pub previous_filename : Text

pub record CommitFiles : Type 0 where
  pub files : List CommitFile
  pub truncated : Bool

abbrev pub seen : Text → List Text → Bool
seen name names = any (λ n. str_eq n name) names

-- One name of a file: `out` is what was collected, in the order of collection.
unfoldable pub add_path : Text → List Text → List Text
unfolding trim_prefix trim_space
add_path raw out =
    let name = trim_prefix (trim_space raw) (codes "/") in
    if is_nil name || seen name out then out else out ++ name ∷ []

unfoldable pub add_files : List CommitFile → List Text → List Text
unfolding add_path
add_files [] out = out
add_files (f ∷ fs) out = add_files fs (add_path f.previous_filename (add_path f.filename out))

unfoldable pub changed_paths : CommitFiles → List Text
unfolding add_files
changed_paths c = add_files c.files []
