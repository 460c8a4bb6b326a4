-- ===== src/Tests/Containers.antt =====
-- The command line of a step in a container.
use openpreflight.Prelude.{◌≡◌, refl, [], ◌∷◌, none, some}
use openpreflight.Go.Strings.{Text, codes}
use openpreflight.Executor.Docker.{DockerStep, docker_args, docker_command, step_env}
use openpreflight.Executor.Docker.Options.{Confines, docker_command-Confines}

-- A variable of its own, one that the container keeps, and one that looks like an option.
abbrev step : DockerStep
step = record {
  dir = codes "/data/work";
  user = codes "10:20";
  cid_path = codes "/tmp/cid";
  image = codes "golang:1.22";
  env = codes "A=b" ∷ codes "PATH=/bin" ∷ codes "--privileged=true" ∷ codes "none" ∷ [];
  command = codes "go test";
}

made : docker_command step ≡ some (docker_args step)
unfolding docker_command openpreflight.Executor.Image.valid_image
    openpreflight.Go.Strings.trim_space openpreflight.Go.Strings.has_prefix
made = refl

docker_command-Confines_example : Confines step (docker_args step)
docker_command-Confines_example = docker_command-Confines step (docker_args step) made

env_test :
    step_env step.env ≡ codes "--env" ∷ codes "A=b" ∷ codes "--env" ∷ codes "--privileged=true" ∷ []
unfolding step_env openpreflight.Go.Strings.str_eq
env_test = refl

refused_test : docker_command (record step { image = codes "--privileged" }) ≡ none
unfolding docker_command openpreflight.Executor.Image.valid_image
    openpreflight.Go.Strings.trim_space openpreflight.Go.Strings.has_prefix
refused_test = refl
