-- ===== src/Executor/Docker.antt =====
-- internal/executor/docker.go: the arguments that `Docker.Run` starts the docker CLI with. The file of
-- the container's id, the user and the directory as the engine sees it are arguments; failing to make them is left out.
pub mod Options
use openpreflight.Prelude.{
  ℕ, Bool, true, false, not, ◌||◌, List, [], ◌∷◌, ◌++◌, Option, none, some, ◌==◌, if◌then◌else◌,
  is_nil,
}
use openpreflight.Go.Strings.{Text, codes, str_eq}
use openpreflight.Executor.Image.{valid_image}

-- What `cut` adds to the part in front.
abbrev pub in_front : ℕ → Option (Text × Text) → Option (Text × Text)
in_front c none = none
in_front c (some (before, after)) = some (c ∷ before, after)

-- `strings.Cut` at one byte; `none` if the byte is not there.
unfoldable pub cut : ℕ → Text → Option (Text × Text)
cut sep [] = none
cut sep (c ∷ s) = if c == sep then some ([], s) else in_front c (cut sep s)

-- The variables that keep the container's own value.
unfoldable pub keeps_own : Text → Bool
unfolding str_eq
keeps_own key =
    str_eq key (codes "PATH")
    || (str_eq key (codes "HOME")
        || (str_eq key (codes "TMPDIR") || str_eq key (codes "npm_config_cache")))

-- What an entry of the step's environment adds to the arguments.
unfoldable pub env_args : Option (Text × Text) → List Text
unfolding keeps_own
env_args none = []
env_args (some (key, val)) =
    if is_nil key
    then []
    else if keeps_own key
    then []
    else codes "--env" ∷ (key ++ b'=' ∷ val) ∷ []

-- The loop over the step's environment.
unfoldable pub step_env : List Text → List Text
unfolding cut env_args
step_env [] = []
step_env (kv ∷ env) = env_args (cut b'=' kv) ++ step_env env

pub record DockerStep : Type 0 where
  pub dir : Text
  pub user : Text
  pub cid_path : Text
  pub image : Text
  pub env : List Text
  pub command : Text

unfoldable pub docker_args : DockerStep → List Text
unfolding step_env
docker_args d =
    codes "run"
    ∷ codes "--rm"
    ∷ codes "--network"
    ∷ codes "bridge"
    ∷ codes "--workdir"
    ∷ codes "/work"
    ∷ codes "--volume"
    ∷ (d.dir ++ codes ":/work")
    ∷ codes "--user"
    ∷ d.user
    ∷ codes "--security-opt"
    ∷ codes "no-new-privileges"
    ∷ codes "--cap-drop"
    ∷ codes "ALL"
    ∷ codes "--env"
    ∷ codes "HOME=/work"
    ∷ codes "--env"
    ∷ codes "CI=true"
    ∷ codes "--env"
    ∷ codes "CONTINUOUS_INTEGRATION=true"
    ∷ (step_env d.env
        ++ codes "--cidfile" ∷ d.cid_path ∷ d.image ∷ codes "/bin/sh" ∷ codes "-c" ∷ d.command ∷ [])

-- The command that `Docker.Run` starts; `none` if the image's name is refused.
unfoldable pub docker_command : DockerStep → Option (List Text)
unfolding docker_args
docker_command d = if valid_image d.image then some (docker_args d) else none
