-- ===== src/Queue/Files/Distinct.antt =====
-- The list of changed paths.
use openpreflight.Prelude.{
  ◌≡◌, refl, Bool, true, false, ◌||◌, List, [], ◌∷◌, ◌++◌, if◌then◌else◌, is_nil, any-append, All,
  All-append, arith,
}
use openpreflight.Go.Strings.{Text, codes, str_eq, str_eq_iff, trim_prefix, trim_space}
use openpreflight.Queue.Files.{CommitFile, CommitFiles, seen, add_path, add_files, changed_paths}

-- No name occurs twice.
abbrev pub AllDistinct : List Text → Type 0
AllDistinct [] = Unit
AllDistinct (n ∷ names) = (seen n names ≡ false) × AllDistinct names

-- What the path filter relies on: no name is empty, and none occurs twice.
abbrev pub IsPathList : List Text → Type 0
IsPathList names = All (λ n. is_nil n ≡ false) names × AllDistinct names

or_left_false : (a b : Bool) → (a || b) ≡ false → a ≡ false
or_left_false false b h = refl
or_left_false true b h = h

or_right_false : (a b : Bool) → (a || b) ≡ false → b ≡ false
or_right_false false b h = h
or_right_false true b h = ground (arith, h)

seen_sym : (m n : Text) → str_eq m n ≡ false → str_eq n m ≡ false
seen_sym m n h = ground (arith, h, str_eq_iff m n, str_eq_iff n m)

seen-append :
    (n m : Text) (names : List Text)
    → seen n names ≡ false
    → str_eq m n ≡ false
    → seen n (names ++ m ∷ []) ≡ false
seen-append n m names h k = rw (any-append (λ i. str_eq i n) names (m ∷ []), h, k) refl

append-AllDistinct :
    (m : Text) (names : List Text)
    → AllDistinct names
    → seen m names ≡ false
    → AllDistinct (names ++ m ∷ [])
append-AllDistinct m [] d h = (refl, tt)
append-AllDistinct m (n ∷ names) (hn, d) h = (
  seen-append n m names hn (seen_sym n m (or_left_false (str_eq n m) (seen m names) h)),
  append-AllDistinct m names d (or_right_false (str_eq n m) (seen m names) h),
)

append-IsPathList :
    (name : Text) (out : List Text)
    → IsPathList out
    → (is_nil name || seen name out) ≡ false
    → IsPathList (out ++ name ∷ [])
append-IsPathList name out (filled, d) h = (
  All-append _ out (name ∷ []) filled (or_left_false (is_nil name) (seen name out) h, tt),
  append-AllDistinct name out d (or_right_false (is_nil name) (seen name out) h),
)

add_path-IsPathList :
    (raw : Text) (out : List Text) → IsPathList out → IsPathList (add_path raw out)
unfolding add_path
add_path-IsPathList raw out h = go (is_nil name || seen name out) refl
  where
    name : Text
    name = trim_prefix (trim_space raw) (codes "/")

    go :
        (b : Bool)
        → (is_nil name || seen name out) ≡ b
        → IsPathList (if b then out else out ++ name ∷ [])
    go true e = h
    go false e = append-IsPathList name out h e

add_files-IsPathList :
    (fs : List CommitFile) (out : List Text) → IsPathList out → IsPathList (add_files fs out)
unfolding add_files
add_files-IsPathList [] out h = h
add_files-IsPathList (f ∷ fs) out h =
    add_files-IsPathList fs _
      (add_path-IsPathList f.previous_filename _ (add_path-IsPathList f.filename out h))

-- The changed paths of a commit hold no empty name, and no name twice.
pub changed_paths-IsPathList : (c : CommitFiles) → IsPathList (changed_paths c)
unfolding changed_paths
changed_paths-IsPathList c = add_files-IsPathList c.files [] (tt, tt)
