-- ===== src/Pipeline/Spec/Containment.antt =====
-- The pipeline file is looked for inside the checkout, and nowhere else.
use openpreflight.Prelude.{◌≡◌, ◌≢◌, refl, sym, ◌∙◌, ap, ◌⊎◌, inl, inr, false, All, arith}
use openpreflight.Go.Strings.{Text, has_prefix}
use openpreflight.Go.FilePath.{clean, is_abs, parent, segments}
use openpreflight.Go.FilePath.Clean.{clean_inside}
use openpreflight.Pipeline.Types.{Error, outside_repository, Result, ok, err, pipeline_file_name}
use openpreflight.Pipeline.Checkout.{Checkout, Externals, read_file}
use openpreflight.Pipeline.Spec.{spec_path, read_spec, load_spec}

-- A relative path none of whose names is `..`.
abbrev pub StaysInside : Text → Type 0
StaysInside path = (is_abs path ≡ false) × All (λ n. n ≢ parent) (segments path)

spec_path-clean :
    (filename : Text) {path : Text}
    → spec_path filename ≡ ok path
    → (path ≡ clean (pipeline_file_name filename))
      × (is_abs path ≡ false)
      × (has_prefix path parent ≡ false)
unfolding spec_path
spec_path-clean filename h = ground arith

spec_path-StaysInside : (filename path : Text) → spec_path filename ≡ ok path → StaysInside path
spec_path-StaysInside filename path h =
    let (e, a, p) = spec_path-clean filename h in
    rw e (rw e at a, clean_inside (pipeline_file_name filename) (rw e at a) (rw e at p))

spec_path-err :
    (filename : Text) {x : Error}
    → spec_path filename ≡ err x
    → x ≡ outside_repository (pipeline_file_name filename)
unfolding spec_path
spec_path-err filename h = ground arith

load_spec-ok :
    (ext : Externals) (repo : Checkout) (filename path : Text)
    → spec_path filename ≡ ok path
    → load_spec ext repo filename ≡ read_spec ext path (read_file repo path)
unfolding load_spec
load_spec-ok ext repo filename path h = rw (h, load_spec)

load_spec-err :
    (ext : Externals) (repo : Checkout) (filename : Text) (x : Error)
    → spec_path filename ≡ err x
    → load_spec ext repo filename ≡ err x
unfolding load_spec
load_spec-err ext repo filename x h = rw (h, load_spec)

-- `LoadSpec` refuses a name that leaves the checkout. What it does else is decided by the file at
-- one path, which is relative and has no `..` in it: checkouts that agree there give one result.
pub load_spec_inside :
    (ext : Externals) (filename : Text)
    → ((repo : Checkout)
        → load_spec ext repo filename ≡ err (outside_repository (pipeline_file_name filename)))
      ⊎ ((path : Text) × StaysInside path
          × ((repo repo' : Checkout)
              → read_file repo path ≡ read_file repo' path
              → load_spec ext repo filename ≡ load_spec ext repo' filename))
load_spec_inside ext filename = go (spec_path filename) refl
  where
    go :
        (r : Result Text)
        → spec_path filename ≡ r
        → ((repo : Checkout)
            → load_spec ext repo filename ≡ err (outside_repository (pipeline_file_name filename)))
          ⊎ ((path : Text) × StaysInside path
              × ((repo repo' : Checkout)
                  → read_file repo path ≡ read_file repo' path
                  → load_spec ext repo filename ≡ load_spec ext repo' filename))
    go (ok path) e = inr (
      path,
      spec_path-StaysInside filename path e,
      λ repo repo' same.
          load_spec-ok ext repo filename path e
          ∙ (ap (read_spec ext path) same ∙ sym (load_spec-ok ext repo' filename path e)),
    )
    go (err x) e =
        inl (λ repo. load_spec-err ext repo filename x e ∙ ap err (spec_path-err filename e))
