-- ===== src/Pipeline/Checkout.antt =====
-- What internal/pipeline reads of its surroundings: the files of a checkout, by their cleaned path
-- from its root, and the decoders that it calls. Symbolic links are not modelled.
use openpreflight.Prelude.{ℕ, Bool, true, false, List, [], ◌∷◌, Option, none, some, if◌then◌else◌}
use openpreflight.Go.Strings.{Text, codes, str_eq}
use openpreflight.Pipeline.Types.{Spec}

-- `unreadable` is a file whose reading fails with the given message.
pub data Node : Type 0 where
  file : Text → Node
  dir : Node
  unreadable : Text → Node

abbrev pub Checkout : Type 0
Checkout = List (Text × Node)

unfoldable pub node_at : Checkout → Text → Option Node
unfolding str_eq
node_at [] name = none
node_at ((path, node) ∷ rest) name = if str_eq path name then some node else node_at rest name

-- `os.Stat` has no error.
unfoldable pub exists : Checkout → Text → Bool
unfolding node_at
exists repo name = elim (node_at repo name) [ none ↦ false | some node ↦ true ]

unfoldable pub is_dir : Checkout → Text → Bool
unfolding node_at
is_dir repo name = elim (node_at repo name) [ some dir ↦ true | _ ↦ false ]

-- The outcome of `os.ReadFile`.
pub data ReadResult : Type 0 where
  content : Text → ReadResult
  not_exist : ReadResult
  read_error : Text → ReadResult

read_node : Option Node → ReadResult
read_node none = not_exist
read_node (some (file raw)) = content raw
read_node (some dir) = read_error (codes "is a directory")
read_node (some (unreadable why)) = read_error why

unfoldable pub read_file : Checkout → Text → ReadResult
unfolding read_node node_at
read_file repo name =
    if str_eq name (codes ".")
    then read_error (codes "is a directory")
    else read_node (node_at repo name)

-- The outcome of a decoder: a value, or the message of its error.
pub data Decoded (A : Type 0) : Type 0 where
  decoded : A → Decoded A
  malformed : Text → Decoded A

-- The part of package.json that is read; the scripts by their names.
pub record PackageJson : Type 0 where
  pub scripts : List (Text × Text)
  pub package_manager : Text

-- `yaml.Unmarshal` into a `Spec`, `json.Unmarshal` into a `packageJSON`, and the product of floats
-- inside `time.ParseDuration`.
pub record Externals : Type 0 where
  pub yaml_unmarshal : Text → Decoded Spec
  pub package_unmarshal : Text → Decoded PackageJson
  pub float_scale : ℕ → ℕ → ℕ → ℕ
