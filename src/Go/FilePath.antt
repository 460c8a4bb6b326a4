-- ===== src/Go/FilePath.antt =====
-- Go's package filepath on Unix. `Clean` works on the names between the slashes.
pub mod Clean
use openpreflight.Prelude.{ℕ, ◌≡◌, refl, Bool, List, [], ◌∷◌, reverse, ◌==◌, if◌then◌else◌, is_nil}
use openpreflight.Go.Strings.{Text, codes, str_eq, has_prefix, fields_func, join}

abbrev pub slash : Text
slash = b'/' ∷ []

abbrev pub is_slash : ℕ → Bool
is_slash c = c == b'/'

abbrev pub parent : Text
parent = b'.' ∷ b'.' ∷ []

-- The names of a path, without the empty ones.
unfoldable pub segments : Text → List Text
unfolding fields_func
segments p = fields_func is_slash p

-- What a `..` does to the names before it, the nearest one first.
unfoldable pub go_up : Bool → List Text → List Text
unfolding str_eq
go_up rooted [] = if rooted then [] else parent ∷ []
go_up rooted (top ∷ below) = if str_eq top parent then parent ∷ top ∷ below else below

-- One name of a path. The first argument says whether the path is rooted, the second holds the
-- names so far, the nearest one first.
unfoldable pub push_name : Bool → List Text → Text → List Text
push_name rooted stack name =
    if str_eq name (codes ".")
    then stack
    else if str_eq name parent
    then go_up rooted stack
    else name ∷ stack

unfoldable pub resolve_names : Bool → List Text → List Text → List Text
resolve_names rooted stack [] = reverse stack
resolve_names rooted stack (name ∷ names) = resolve_names rooted (push_name rooted stack name) names

abbrev pub is_abs : Text → Bool
is_abs p = has_prefix p slash

-- The text of a path of the given names.
unfoldable pub render : Bool → List Text → Text
render rooted names =
    if rooted then b'/' ∷ join names slash else if is_nil names then codes "." else join names slash

cleaned : Text → Text
cleaned p = render (is_abs p) (resolve_names (is_abs p) [] (segments p))

unfoldable pub clean : Text → Text
unfolding cleaned render segments resolve_names push_name go_up str_eq join has_prefix
clean p = cleaned p

clean_tests :
    (clean (codes "./a//b/../c/") ≡ codes "a/c")
    × (clean (codes "a/../../b") ≡ codes "../b")
    × (clean (codes "/../x") ≡ codes "/x")
    × (clean [] ≡ codes ".")
unfolding clean
clean_tests = (refl, refl, refl, refl)
